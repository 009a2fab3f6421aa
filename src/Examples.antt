-- ===== src/Examples.antt =====
-- Concrete workflows, and the theorems at work on them.
mod Inserts
mod Queues
mod Steps
mod Histories
mod Messages
mod Runs
mod Sleeps
mod Errors
mod Mail
mod Schedules
mod Json
mod Spawns
mod Debounces
mod Deletions
mod Submissions
mod Recoveries
use dbos_transact_rust.Prelude.{ℕ, ℤ, pos, Bool, false, String, Option, none, some, List, [], ◌∷◌}
use dbos_transact_rust.Status.{WorkflowStatusType, pending, enqueued, cancelled}
use dbos_transact_rust.Database.Types.{
  NewWorkflowStatus, InsertWorkflowStatusInput, DequeueInput, RecordOperationResultInput,
}
use dbos_transact_rust.Database.Schema.{WorkflowRow, Database}
use dbos_transact_rust.SystemDb.Insert.{new_row}

-- A workflow that is submitted to the queue `mail`.
abbrev pub submitted : String → Option WorkflowStatusType → NewWorkflowStatus
submitted id status = record {
  id = id;
  status = status;
  name = "send_mail";
  class_name = "";
  config_name = none;
  application_version = "";
  application_id = "shop";
  executor_id = "e1";
  created_at_ms = 10;
  updated_at_ms = none;
  deadline_ms = none;
  timeout_ms = none;
  input = some "null";
  queue_name = "mail";
  deduplication_id = "";
  priority = 0;
  authenticated_user = "";
  assumed_role = "";
  authenticated_roles = [];
  queue_partition_key = "";
  parent_workflow_id = "";
  delay_until_ms = none;
  serialization = "portable_json";
}

abbrev pub insert_of : String → Option WorkflowStatusType → String → InsertWorkflowStatusInput
insert_of id status owner = record {
  status = submitted id status;
  max_retries = pos 3;
  owner_xid = owner;
  increment_attempts = false;
  record_child = none;
}

abbrev pub row_of : String → WorkflowStatusType → WorkflowRow
unfolding new_row
row_of id status = new_row (insert_of id (some status) "x1") 20

abbrev pub database_of : List WorkflowRow → Database
database_of rows = record {
  workflow_status = rows;
  operation_outputs = [];
  notifications = [];
  workflow_events = [];
  workflow_events_history = [];
  streams = [];
}

abbrev pub dequeue_of : String → DequeueInput
dequeue_of executor = record {
  queue_name = "mail";
  global_concurrency = some (pos 2);
  worker_concurrency = some (pos 1);
  rate_limit = some (pos 5, 1000);
  max_tasks = pos 10;
  local_running_count = 0;
  application_version = "v1";
  executor_id = executor;
}

abbrev pub step_of : String → ℤ → RecordOperationResultInput
step_of id step = record {
  workflow_id = id;
  step_id = step;
  step_name = "charge";
  output = some "42";
  error = none;
  child_workflow_id = none;
  started_at_ms = 30;
  completed_at_ms = 31;
  serialization = "portable_json";
}
