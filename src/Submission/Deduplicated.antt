-- ===== src/Submission/Deduplicated.antt =====
-- Submissions whose deduplication slot is held (crates/dbos-core/src/workflow/run.rs).
use dbos_transact_rust.Prelude.{
  ℕ, String, ◌≡◌, refl, ◌∙◌, true, false, ==_iff, is_empty, inl, inr, Option, none, some, List, [],
  ◌∷◌, arith, Bool-cases, Option-cases,
}
use dbos_transact_rust.Sql.{first, exists}
use dbos_transact_rust.Error.Make
use dbos_transact_rust.Database.{err}
use dbos_transact_rust.Database.Types.{InsertWorkflowStatusInput}
use dbos_transact_rust.Database.Schema.{WorkflowRow, Database}
use dbos_transact_rust.SystemDb.Insert.{has_id, sql_eq, same_slot, new_row, insert_workflow_status}
use dbos_transact_rust.SystemDb.Insert.Cases.{insert_cases}
use dbos_transact_rust.SystemDb.Queue.{holds_slot, get_deduplicated_workflow}
use dbos_transact_rust.Submission.{
  RunOptions, RunFlags, ChildSpawn, WorkflowEntry, Engine, entry_of, submission, start, validate,
  workflow_id_of, dispatch, run_workflow_erased, new_status,
}

sql_eq_sym : (a b : Option String) → sql_eq a b ≡ sql_eq b a
sql_eq_sym none none = refl
sql_eq_sym none (some b) = refl
sql_eq_sym (some a) none = refl
sql_eq_sym (some a) (some b) = ground (arith, ==_iff a b, ==_iff b a)

same-holds_slot :
    (queue dedup : String) (new r : WorkflowRow)
    → new.queue_name ≡ some queue
    → new.deduplication_id ≡ some dedup
    → same_slot new r ≡ holds_slot queue dedup r
same-holds_slot queue dedup new r q d =
    rw (q, d, sql_eq_sym (some queue) r.queue_name, sql_eq_sym (some dedup) r.deduplication_id) refl

-- A row that holds the slot bars a new one from it.
slot_taken :
    (queue dedup : String) (new holder : WorkflowRow) (rows : List WorkflowRow)
    → new.queue_name ≡ some queue
    → new.deduplication_id ≡ some dedup
    → first (holds_slot queue dedup) rows ≡ some holder
    → exists (same_slot new) rows ≡ true
slot_taken queue dedup new holder [] q d h = absurd (cc h)
slot_taken queue dedup new holder (r ∷ rows) q d h = elim (Bool-cases (holds_slot queue dedup r)) [
  | inl t ↦ rw (same-holds_slot queue dedup new r q d ∙ t) refl
  | inr f ↦
      rw (same-holds_slot queue dedup new r q d ∙ f)
        (slot_taken queue dedup new holder rows q d (rw f at h))
]

held :
    (queue dedup existing : String) (db : Database)
    → get_deduplicated_workflow queue dedup db ≡ some existing
    → (holder : WorkflowRow) × (first (holds_slot queue dedup) db.workflow_status ≡ some holder)
unfolding get_deduplicated_workflow
held queue dedup existing db h =
    elim (Option-cases (first (holds_slot queue dedup) db.workflow_status)) [
      | inl n ↦ absurd (ground (arith, h, n))
      | inr k ↦ k
    ]

refused :
    (input : InsertWorkflowStatusInput) (now : ℕ) (db : Database)
    → first (has_id input.status.id) db.workflow_status ≡ none
    → exists (same_slot (new_row input now)) db.workflow_status ≡ true
    → insert_workflow_status input now db ≡ (
      err (
          Make.queue_deduplicated input.status.id input.status.queue_name
            input.status.deduplication_id),
      db,
    )
unfolding new_row
refused input now db n t =
    insert_cases
      (λ q. q ≡ (
        err (
            Make.queue_deduplicated input.status.id input.status.queue_name
              input.status.deduplication_id),
        db,
      ))
      input now db (λ old e. absurd (cc (n, e))) (λ m f. absurd (cc (t, f))) (λ m u. refl)

-- A submission whose deduplication slot another workflow holds is refused with the code
-- QueueDeduplicated and changes nothing, whatever its deduplication policy, so also when that is to
-- return the existing workflow: the workflow is registered, the options are valid and name the
-- queue and the deduplication id, and the id of the submission is new.
pub run_workflow_deduplicated :
    (engine : Engine) (name : String) (entry : WorkflowEntry) (encoded : Option String)
    (tag queue dedup existing fresh_id owner_xid : String) (opts : RunOptions) (flags : RunFlags)
    (child : Option ChildSpawn) (clock : ℕ → ℕ) (db : Database)
    → entry_of name engine.registry ≡ some entry
    → validate opts ≡ none
    → opts.queue ≡ some queue
    → opts.deduplication_id ≡ some dedup
    → is_empty queue ≡ false
    → is_empty dedup ≡ false
    → first (has_id (workflow_id_of opts child fresh_id)) db.workflow_status ≡ none
    → get_deduplicated_workflow queue dedup db ≡ some existing
    → run_workflow_erased engine name encoded tag opts flags child fresh_id owner_xid clock db
      ≡ (err (Make.queue_deduplicated (workflow_id_of opts child fresh_id) queue dedup), engine, db)
unfolding run_workflow_erased start submission new_status dispatch new_row
run_workflow_deduplicated engine name entry encoded tag queue dedup existing fresh_id owner_xid opts
      flags child clock db e v q d eq ed n h =
    let id = workflow_id_of opts child fresh_id in
    let input = submission engine entry opts flags child id encoded tag owner_xid clock in
    let (holder, there) = held queue dedup existing db h in
    rw (e, run_workflow_erased)
      (rw v (
        rw
          (refused input (clock 3) db n (
            slot_taken queue dedup (new_row input (clock 3)) holder db.workflow_status
              (rw q (rw eq refl)) (rw d (rw ed refl)) there))
          (rw (q, d) refl)))
