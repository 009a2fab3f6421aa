-- ===== src/SystemDb/Outcome.antt =====
-- `update_workflow_outcome` and `await_workflow_result` (crates/dbos-core/src/db/sqlite.rs).
pub mod Valid
pub mod Laws
use dbos_transact_rust.Prelude.{
  ℕ, ℤ, pos, ◌-ℤ◌, String, Bool, true, false, not, ◌&&◌, ◌||◌, ◌==◌, is_empty, Option, none, some,
  List, [], ◌∷◌, if◌then◌else◌,
}
use dbos_transact_rust.Error.Make
use dbos_transact_rust.Status.{
  WorkflowStatusType, pending, enqueued, delayed, success, error, cancelled,
  max_recovery_attempts_exceeded, ◌is◌,
}
use dbos_transact_rust.Sql.{update_where, first}
use dbos_transact_rust.Database.{Result, ok, err, or_default}
use dbos_transact_rust.Database.Types.{AwaitResult}
use dbos_transact_rust.Database.Schema.{WorkflowRow, Database}
use dbos_transact_rust.SystemDb.Insert.{has_id}

-- `IN (SUCCESS, ERROR)`
abbrev pub has_ended : WorkflowStatusType → Bool
has_ended success = true
has_ended error = true
has_ended _ = false

-- The row that an outcome leaves; `updated` and `completed` are the two clock readings.
unfoldable pub with_outcome :
    WorkflowStatusType → Option String → String → ℕ → ℕ → WorkflowRow → WorkflowRow
with_outcome status output err_str updated completed r = record r {
  status = status;
  output = output;
  error = if is_empty err_str then none else some err_str;
  updated_at = updated;
  completed_at = some completed;
  deduplication_id = none;
}

unfoldable pub update_workflow_outcome :
    String → WorkflowStatusType → Option String → String → ℕ → ℕ → Database → Database
unfolding with_outcome
update_workflow_outcome id status output err_str updated completed db = record db {
  workflow_status =
      update_where (λ r. has_id id r && not ((r.status is cancelled) && has_ended status))
        (with_outcome status output err_str updated completed) db.workflow_status;
}

-- `filter(|s| !s.is_empty())`
abbrev pub filter_empty : Option String → Option String
filter_empty none = none
filter_empty (some s) = if is_empty s then none else some s

-- What one poll makes of the row's status; `none` is another round.
unfoldable pub poll_row : String → WorkflowStatusType → WorkflowRow → Option (Result AwaitResult)
poll_row id success r = some (
    ok (record {
      output = r.output;
      error = filter_empty r.error;
      serialization = or_default r.serialization;
    }))
poll_row id error r = some (
    ok (record {
      output = r.output;
      error = filter_empty r.error;
      serialization = or_default r.serialization;
    }))
poll_row id cancelled r = some (err (Make.awaited_workflow_cancelled id))
poll_row id max_recovery_attempts_exceeded r =
    some (err (Make.dead_letter_queue id (pos r.recovery_attempts -ℤ pos 2)))
poll_row id _ r = none

unfoldable pub poll_once : String → Database → Option (Result AwaitResult)
unfolding poll_row
poll_once id db = elim (first (has_id id) db.workflow_status) [
  | none ↦ none
  | some r ↦ poll_row id r.status r
]

-- The polling loop over the databases that its rounds see; `none` after the last is a loop that
-- still waits.
unfoldable pub await_workflow_result : String → List Database → Option (Result AwaitResult)
await_workflow_result id [] = none
await_workflow_result id (db ∷ later) = elim (poll_once id db) [
  | some r ↦ some r
  | none ↦ await_workflow_result id later
]
