-- ===== src/SystemDb/Steps/Durable.antt =====
-- A recorded step in a history of operations (crates/dbos-core/src/db/sqlite.rs).
use dbos_transact_rust.Prelude.{
  ◌++◌, ℕ, ℤ, String, ◌≡◌, subst, inl, inr, Bool, Option, none, some, List, [], ◌∷◌, arith,
  Option-cases, Bool-cases, ltb_ℤ, pos,
}
use dbos_transact_rust.Sql.{first}
use dbos_transact_rust.Sql.Laws.{All, first-insert_row-some}
use dbos_transact_rust.Database.{Result, ok, err}
use dbos_transact_rust.Database.Types.{
  InsertWorkflowStatusInput, InsertWorkflowResult, ChildRecord, ForkInput,
}
use dbos_transact_rust.Database.Schema.{WorkflowRow, OutputRow, Database}
use dbos_transact_rust.SystemDb.Insert.{
  has_key, child_row, add_child, park, complete, insert_workflow_status,
}
use dbos_transact_rust.SystemDb.Insert.Cases.{add_child_cases, complete_cases, insert_cases}
use dbos_transact_rust.SystemDb.Outcome.{update_workflow_outcome}
use dbos_transact_rust.SystemDb.Steps.Laws.{record_cases}
use dbos_transact_rust.SystemDb.Queue.{
  claim_up_to, clear_queue_assignment, transition_delayed_workflows,
}
use dbos_transact_rust.SystemDb.Queue.Valid.{dequeue_cases}
use dbos_transact_rust.SystemDb.Manage.{
  set_workflow_status_pending, cancel_workflow, resume_workflow, fork_rows,
}
use dbos_transact_rust.SystemDb.Manage.Fork.{fork_cases}
use dbos_transact_rust.SystemDb.Comms.{
  send_notification, consume_oldest_notification, oldest, set_event, write_stream,
}
use dbos_transact_rust.SystemDb.Run.{
  Op, inserts, finishes, records, clears, dequeues, promotes, cancels, resumes, deletes, forks,
  collects, resets, sends, consumes, sets_event, writes_stream, apply, run,
}

-- The operations that delete no workflow.
abbrev pub IsUndeleting : Op → Type 0
IsUndeleting (deletes id) = ⊥
IsUndeleting (collects cutoff threshold) = ⊥
IsUndeleting _ = Unit {0}

first-append {ℓ} :
    {A : Type ℓ} (p : A → Bool) (xs ys : List A) (a : A)
    → first p xs ≡ some a
    → first p (xs ++ ys) ≡ some a
first-append p [] ys a h = absurd (cc h)
first-append p (x ∷ xs) ys a h = ground (arith, first-append p xs ys a)

module _ (id : String) (step : ℤ) (o : OutputRow) where
  -- The step is recorded as this row.
  abbrev Keeps : Database → Type 0
  Keeps db = first (has_key id step) db.operation_outputs ≡ some o

  abbrev Kept : Result Database → Type 0
  Kept (ok db) = Keeps db
  Kept (err e) = Unit

  add_child-Kept : (c : Option ChildRecord) (db : Database) → Keeps db → Kept (add_child c db)
  unfolding add_child
  add_child-Kept none db h = h
  add_child-Kept (some c) db h =
      add_child_cases Kept c db (λ e. tt)
        (λ f t. first-insert_row-some (has_key id step) (child_row c) db.operation_outputs o h)

  complete-Keeps :
      (input : InsertWorkflowStatusInput) (result : InsertWorkflowResult) (after db : Database)
      → Keeps after
      → Keeps db
      → Keeps (complete input result after db).1
  complete-Keeps input result after db a h =
      complete_cases (λ p. Keeps p.1) input result after db (λ e. h)
        (λ done c k x. unfold park in subst Kept k (add_child-Kept input.record_child after a))
        (λ done c k x. subst Kept k (add_child-Kept input.record_child after a))

  insert-Keeps :
      (input : InsertWorkflowStatusInput) (now : ℕ) (db : Database)
      → Keeps db
      → Keeps (insert_workflow_status input now db).1
  insert-Keeps input now db h =
      insert_cases (λ p. Keeps p.1) input now db (λ old e. complete-Keeps input _ _ db h h)
        (λ e f. complete-Keeps input _ _ db h h) (λ e f. h)

  fork_rows-Keeps :
      (input : ForkInput) (forked : String) (now : ℕ) (orig : WorkflowRow) (db : Database)
      → Keeps db
      → Keeps (fork_rows input forked now orig db)
  unfolding fork_rows
  fork_rows-Keeps input forked now orig db h = elim (Bool-cases (ltb_ℤ (pos 0) input.start_step)) [
    | inl t ↦ rw t (first-append (has_key id step) db.operation_outputs _ o h)
    | inr f ↦ rw f h
  ]

  consumes-Keeps :
      (dest topic : String) (db : Database)
      → Keeps db
      → Keeps (consume_oldest_notification dest topic db).1
  unfolding consume_oldest_notification
  consumes-Keeps dest topic db h = elim (Option-cases (oldest dest topic db)) [
    | inl e ↦ rw (e, consume_oldest_notification) h
    | inr (n, e) ↦ rw (e, consume_oldest_notification) h
  ]

  apply-Keeps : (op : Op) (db : Database) → IsUndeleting op → Keeps db → Keeps (apply op db)
  unfolding apply clear_queue_assignment cancel_workflow transition_delayed_workflows
      resume_workflow update_workflow_outcome send_notification set_event write_stream claim_up_to
      set_workflow_status_pending
  apply-Keeps (inserts input now) db u h = insert-Keeps input now db h
  apply-Keeps (finishes j t output err_str a c) db u h = h
  apply-Keeps (records i) db u h =
      record_cases (λ p. Keeps p.1) i db (λ t. h)
        (λ f t. first-insert_row-some (has_key id step) _ db.operation_outputs o h) h
  apply-Keeps (clears j) db u h = h
  apply-Keeps (dequeues input clock) db u h =
      dequeue_cases (λ p. Keeps p.1) input clock db h (λ f g. h)
  apply-Keeps (promotes now) db u h = h
  apply-Keeps (cancels j now) db u h = h
  apply-Keeps (resumes j now) db u h = h
  apply-Keeps (deletes j) db u h = absurd u
  apply-Keeps (forks input fresh_id now) db u h =
      fork_cases (λ p. Keeps p.1) input fresh_id now db (λ e. h)
        (λ orig f e g. fork_rows-Keeps input _ now orig db h)
  apply-Keeps (collects cutoff threshold) db u h = absurd u
  apply-Keeps (resets j now) db u h = h
  apply-Keeps (sends dest topic none ser uuid now) db u h = h
  apply-Keeps (sends dest topic (some m) ser uuid now) db u h = ground arith
  apply-Keeps (consumes dest topic) db u h = consumes-Keeps dest topic db h
  apply-Keeps (sets_event j key k none ser) db u h = h
  apply-Keeps (sets_event j key k (some v) ser) db u h = ground arith
  apply-Keeps (writes_stream j key value k ser) db u h = ground arith

-- A recorded step is recorded as the same row after any history of operations that deletes no
-- workflow.
pub run_keeps_step :
    (ops : List Op) (db : Database) (id : String) (step : ℤ) (o : OutputRow)
    → All IsUndeleting ops
    → first (has_key id step) db.operation_outputs ≡ some o
    → first (has_key id step) (run ops db).operation_outputs ≡ some o
unfolding run
run_keeps_step [] db id step o k h = h
run_keeps_step (op ∷ ops) db id step o k h =
    run_keeps_step ops (apply op db) id step o k.1 (apply-Keeps id step o op db k.0 h)
