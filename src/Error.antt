-- ===== src/Error.antt =====
-- crates/dbos-core/src/error.rs: the error codes, the error value with its chain of sources, and
-- the constructors. A foreign error (std::io, serde_json) is known by the text it displays; a
-- JSON value inside a portable error is known by its text.
mod Code
pub mod Chain
pub mod Make
pub mod Laws
pub use Code.{
  DbosErrorCode, conflicting_id, initialization, non_existent_workflow, conflicting_workflow,
  workflow_cancelled, unexpected_step, awaited_workflow_cancelled, conflicting_registration,
  workflow_unexpected_type, workflow_execution, step_execution, dead_letter_queue,
  max_step_retries_exceeded, queue_deduplicated, patching_not_enabled, timeout,
  no_application_versions, code_eq_iff,
}
unfoldable pub use Code.{number, code_eq}
