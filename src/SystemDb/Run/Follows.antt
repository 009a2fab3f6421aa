-- ===== src/SystemDb/Run/Follows.antt =====
-- Which moves of the statuses an operation of a history may make.
use dbos_transact_rust.Prelude.{
  ℕ, ℤ, String, ◌≡◌, refl, sym, subst, true, inl, inr, Option, none, some, List, arith,
  Option-cases,
}
use dbos_transact_rust.Database.Types.{RecordOperationResultInput}
use dbos_transact_rust.Database.Schema.{WorkflowRow, Database}
use dbos_transact_rust.SystemDb.Outcome.{has_ended}
use dbos_transact_rust.SystemDb.Steps.{record_operation_result}
use dbos_transact_rust.SystemDb.Comms.{
  send_notification, consume_oldest_notification, oldest, set_event, write_stream,
}
use dbos_transact_rust.SystemDb.Transitions.{
  Cause, submission, claim, promotion, release, cancellation, resumption, ending, deletion, nothing,
}
use dbos_transact_rust.SystemDb.Transitions.Rows.{Follows, Follows-refl}
use dbos_transact_rust.SystemDb.Transitions.Ops.{
  insert-Follows, outcome-Follows, clear-Follows, transition-Follows, dequeue-Follows,
  cancel-Follows, resume-Follows, fork-Follows,
}
use dbos_transact_rust.SystemDb.Run.{
  Op, inserts, finishes, records, clears, dequeues, promotes, cancels, resumes, deletes, forks,
  collects, resets, sends, consumes, sets_event, writes_stream, apply,
}

-- Which moves an operation may make.
abbrev pub cause : Op → Cause
cause (inserts input now) = submission
cause (finishes id t output err_str u c) = ending
cause (clears id) = release
cause (dequeues input clock) = claim
cause (promotes now) = promotion
cause (cancels id now) = cancellation
cause (resumes id now) = resumption
cause (deletes id) = deletion
cause (collects cutoff threshold) = deletion
cause _ = nothing

abbrev SameRows : Database → Database → Type 0
SameRows db db' = db'.workflow_status ≡ db.workflow_status

records-rows :
    (i : RecordOperationResultInput) (db : Database) → SameRows db (record_operation_result i db).1
unfolding record_operation_result
records-rows i db = ground arith

sends-rows :
    (dest topic : String) (m : Option String) (ser uuid : String) (now : ℕ) (db : Database)
    → SameRows db (send_notification dest topic m ser uuid now db).1
unfolding send_notification
sends-rows dest topic none ser uuid now db = refl
sends-rows dest topic (some m) ser uuid now db = ground arith

consumes-rows :
    (dest topic : String) (db : Database)
    → SameRows db (consume_oldest_notification dest topic db).1
unfolding consume_oldest_notification
consumes-rows dest topic db = elim (Option-cases (oldest dest topic db)) [
  | inl e ↦ rw (e, consume_oldest_notification)
  | inr (n, e) ↦ rw (e, consume_oldest_notification)
]

sets_event-rows :
    (id : String) (k : ℤ) (key : String) (v : Option String) (ser : String) (db : Database)
    → SameRows db (set_event id k key v ser db).1
unfolding set_event
sets_event-rows id k key none ser db = refl
sets_event-rows id k key (some v) ser db = ground arith

writes_stream-rows :
    (id key value : String) (k : ℤ) (ser : String) (db : Database)
    → SameRows db (write_stream id key value k ser db).1
unfolding write_stream
writes_stream-rows id key value k ser db = ground arith

of_same : (rows rows' : List WorkflowRow) → rows' ≡ rows → Follows nothing rows rows'
of_same rows rows' e = subst (Follows nothing rows) (sym e) (Follows-refl nothing rows)

-- The engine's operations that delete no workflow.
abbrev pub IsKeepingOp : Op → Type 0
IsKeepingOp (finishes id t output err_str u c) = has_ended t ≡ true
IsKeepingOp (resets id now) = ⊥
IsKeepingOp (deletes id) = ⊥
IsKeepingOp (collects cutoff threshold) = ⊥
IsKeepingOp _ = Unit {0}

pub apply-Follows :
    (op : Op) (db : Database)
    → IsKeepingOp op
    → Follows (cause op) db.workflow_status (apply op db).workflow_status
unfolding apply
apply-Follows (inserts input now) db o = insert-Follows input now db
apply-Follows (finishes j t output err_str u c) db o = outcome-Follows j t output err_str u c db o
apply-Follows (records input) db o = of_same _ _ (records-rows input db)
apply-Follows (clears j) db o = clear-Follows j db
apply-Follows (dequeues input clock) db o = dequeue-Follows input clock db
apply-Follows (promotes now) db o = transition-Follows now db
apply-Follows (cancels j now) db o = cancel-Follows j now db
apply-Follows (resumes j now) db o = resume-Follows j now db
apply-Follows (deletes j) db o = absurd o
apply-Follows (forks input fresh_id now) db o = fork-Follows input fresh_id now db
apply-Follows (collects cutoff threshold) db o = absurd o
apply-Follows (resets j now) db o = absurd o
apply-Follows (sends dest topic m ser uuid now) db o =
    of_same _ _ (sends-rows dest topic m ser uuid now db)
apply-Follows (consumes dest topic) db o = of_same _ _ (consumes-rows dest topic db)
apply-Follows (sets_event j k key value ser) db o =
    of_same _ _ (sets_event-rows j k key value ser db)
apply-Follows (writes_stream j key value k ser) db o =
    of_same _ _ (writes_stream-rows j key value k ser db)
