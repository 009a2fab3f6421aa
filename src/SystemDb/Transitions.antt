-- ===== src/SystemDb/Transitions.antt =====
-- The states of a workflow, and the moves that the operations of crates/dbos-core/src/db/sqlite.rs
-- make between them.
pub mod Rows
pub mod Ops
use dbos_transact_rust.Prelude.{◌≡◌, true, false}
use dbos_transact_rust.Status.{
  WorkflowStatusType, pending, enqueued, delayed, cancelled, max_recovery_attempts_exceeded, ◌is◌,
}
use dbos_transact_rust.SystemDb.Outcome.{has_ended}

-- What the operations do to a workflow.
pub data Cause : Type 0 where
  submission claim promotion release cancellation resumption ending deletion nothing : Cause

-- The moves that an operation may make.
pub data Edge : Cause → WorkflowStatusType → WorkflowStatusType → Type 0 where
  dead_letter : Edge submission pending max_recovery_attempts_exceeded
  dispatch : Edge claim enqueued pending
  promote : Edge promotion delayed enqueued
  requeue : Edge release pending enqueued
  cancel :
      {s : WorkflowStatusType}
      → has_ended s ≡ false
      → (s is cancelled) ≡ false
      → Edge cancellation s cancelled
  resume : {s : WorkflowStatusType} → has_ended s ≡ false → Edge resumption s enqueued
  finish :
      {s t : WorkflowStatusType} → (s is cancelled) ≡ false → has_ended t ≡ true → Edge ending s t

-- What the statements of one operation do one after the other.
pub data Moves : Cause → WorkflowStatusType → WorkflowStatusType → Type 0 where
  here : {k : Cause} {s : WorkflowStatusType} → Moves k s s
  step : {k : Cause} {s t u : WorkflowStatusType} → Edge k s t → Moves k t u → Moves k s u
