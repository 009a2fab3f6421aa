-- ===== src/SystemDb/Steps.antt =====
-- The recorded steps (crates/dbos-core/src/db/sqlite.rs): `record_operation_result`,
-- `check_child_workflow`, `check_operation_execution` and `get_workflow_steps`.
pub mod Valid
pub mod Laws
pub mod Durable
pub mod Recall
use dbos_transact_rust.Prelude.{
  ℕ, ℤ, leb_ℤ, String, Bool, true, false, ◌==◌, Option, none, some, List, [], ◌∷◌, map,
  if◌then◌else◌,
}
use dbos_transact_rust.Error.Make
use dbos_transact_rust.Status.{WorkflowStatusType, cancelled, ◌is◌}
use dbos_transact_rust.Sql.{select, exists, first, insert_row, order_by}
use dbos_transact_rust.Database.{Result, ok, err, foreign_key_violation, or_default}
use dbos_transact_rust.Database.Types.{RecordOperationResultInput, RecordedResult, StepInfo}
use dbos_transact_rust.Database.Schema.{WorkflowRow, OutputRow, Database}
use dbos_transact_rust.SystemDb.Insert.{has_id, has_key}
use dbos_transact_rust.SystemDb.Outcome.{filter_empty}

-- Both INSERTs write this row: without a child the column keeps its default, NULL.
unfoldable pub output_row : RecordOperationResultInput → OutputRow
output_row i = record {
  workflow_uuid = i.workflow_id;
  function_id = i.step_id;
  function_name = i.step_name;
  output = i.output;
  error = i.error;
  child_workflow_id = i.child_workflow_id;
  started_at_epoch_ms = some i.started_at_ms;
  completed_at_epoch_ms = some i.completed_at_ms;
  serialization = some i.serialization;
}

unfoldable pub record_operation_result :
    RecordOperationResultInput → Database → Result (Unit {0}) × Database
unfolding output_row
record_operation_result i db =
    if exists (has_key i.workflow_id i.step_id) db.operation_outputs
    then (err (Make.workflow_conflict_id i.workflow_id), db)
    else if exists (has_id i.workflow_id) db.workflow_status
    then (ok tt, record db { operation_outputs = insert_row (output_row i) db.operation_outputs })
    else (err (foreign_key_violation "failed to record operation result"), db)

unfoldable pub check_child_workflow : String → ℤ → Database → Option String
check_child_workflow parent step db = elim (first (has_key parent step) db.operation_outputs) [
  | none ↦ none
  | some o ↦ o.child_workflow_id
]

-- What a recorded row answers to a step of this name.
unfoldable pub recorded_result : String → ℤ → String → OutputRow → Result (Option RecordedResult)
recorded_result id step name o =
    if name == o.function_name
    then ok (
        some (record {
          output = o.output;
          error = filter_empty o.error;
          serialization = or_default o.serialization;
        }))
    else err (Make.unexpected_step id step name o.function_name)

unfoldable pub check_recorded :
    String → ℤ → String → Option OutputRow → Result (Option RecordedResult)
unfolding recorded_result
check_recorded id step name none = ok none
check_recorded id step name (some o) = recorded_result id step name o

unfoldable pub check_operation_execution :
    String → ℤ → String → Database → Result (Option RecordedResult)
unfolding check_recorded
check_operation_execution id step name db = elim (first (has_id id) db.workflow_status) [
  | none ↦ err (Make.non_existent_workflow id)
  | some r ↦
      if r.status is cancelled
      then err (Make.workflow_cancelled id)
      else check_recorded id step name (first (has_key id step) db.operation_outputs)
]

unfoldable pub step_info : OutputRow → StepInfo
step_info o = record {
  step_id = o.function_id;
  step_name = o.function_name;
  output = o.output;
  error = filter_empty o.error;
  child_workflow_id = o.child_workflow_id;
  started_at_ms = o.started_at_epoch_ms;
  completed_at_ms = o.completed_at_epoch_ms;
  serialization = or_default o.serialization;
}

unfoldable pub get_workflow_steps : String → Database → List StepInfo
unfolding step_info
get_workflow_steps id db = map step_info (
    order_by (λ a b. leb_ℤ a.function_id b.function_id)
      (select (λ o. o.workflow_uuid == id) db.operation_outputs))
