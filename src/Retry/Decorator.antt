-- ===== src/Retry/Decorator.antt =====
-- `RetryingDb` (crates/dbos-core/src/db/retry.rs), a decorator of the interface `SystemDatabase`
-- (crates/dbos-core/src/db/mod.rs). The interface is held as data: a constructor for each method,
-- with its arguments, and the type of its answer. `run_migrations` and `close` are left out.
pub mod Hides
use dbos_transact_rust.Prelude.{ℕ, ℤ, String, Bool, Option, List}
use dbos_transact_rust.Status.{WorkflowStatusType}
use dbos_transact_rust.Database.{Result}
use dbos_transact_rust.Database.Types.{
  WorkflowStatus, InsertWorkflowStatusInput, InsertWorkflowResult, RecordOperationResultInput,
  StepInfo, ForkInput, RecordedResult, AwaitResult, DequeueInput, DequeuedWorkflow,
  ListWorkflowsInput,
}
use dbos_transact_rust.SystemDb.Schedules.{ScheduleRow}
use dbos_transact_rust.Retry.{Ended, retry}

-- The methods on workflows, steps and queues.
pub data WorkflowRequest : Type 0 where
  insert_workflow_status : InsertWorkflowStatusInput → WorkflowRequest
  update_workflow_outcome : String → WorkflowStatusType → Option String → String → WorkflowRequest
  record_operation_result : RecordOperationResultInput → WorkflowRequest
  check_child_workflow : String → ℤ → WorkflowRequest
  check_operation_execution : String → ℤ → String → WorkflowRequest
  list_workflows : ListWorkflowsInput → WorkflowRequest
  get_workflow_status : String → WorkflowRequest
  await_workflow_result : String → ℕ → WorkflowRequest
  clear_queue_assignment : String → WorkflowRequest
  dequeue_workflows : DequeueInput → WorkflowRequest
  transition_delayed_workflows : WorkflowRequest
  get_deduplicated_workflow : String → String → WorkflowRequest
  cancel_workflow : String → WorkflowRequest
  resume_workflow : String → WorkflowRequest
  delete_workflow : String → WorkflowRequest
  get_workflow_children : String → WorkflowRequest
  get_workflow_steps : String → WorkflowRequest
  fork_workflow : ForkInput → WorkflowRequest
  get_workflow_status_counts : WorkflowRequest
  garbage_collect : Option ℕ → Option ℤ → WorkflowRequest
  set_workflow_status_pending : String → WorkflowRequest

-- The methods on notifications, events and streams, application versions and schedules.
pub data MessageRequest : Type 0 where
  send_notification : String → String → Option String → String → MessageRequest
  has_unconsumed_notification : String → String → MessageRequest
  consume_oldest_notification : String → String → MessageRequest
  set_event : String → ℤ → String → Option String → String → MessageRequest
  get_event : String → String → MessageRequest
  get_workflow_events : String → MessageRequest
  get_workflow_notifications : String → MessageRequest
  get_workflow_streams : String → MessageRequest
  get_step_aggregates : MessageRequest
  list_application_versions : MessageRequest
  set_latest_application_version : String → MessageRequest
  write_stream : String → String → String → ℤ → String → MessageRequest
  read_stream : String → String → ℤ → MessageRequest
  create_application_version : String → MessageRequest
  get_latest_application_version : MessageRequest
  create_schedule : ScheduleRow → MessageRequest
  list_schedules : MessageRequest
  get_schedule : String → MessageRequest
  set_schedule_status : String → String → MessageRequest
  update_schedule_last_fired : String → String → MessageRequest
  delete_schedule : String → MessageRequest

abbrev pub WorkflowAnswer : WorkflowRequest → Type 0
WorkflowAnswer (insert_workflow_status input) = InsertWorkflowResult
WorkflowAnswer (update_workflow_outcome id status output err_str) = Unit
WorkflowAnswer (record_operation_result input) = Unit
WorkflowAnswer (check_child_workflow parent step) = Option String
WorkflowAnswer (check_operation_execution id step name) = Option RecordedResult
WorkflowAnswer (list_workflows input) = List WorkflowStatus
WorkflowAnswer (get_workflow_status id) = Option WorkflowStatus
WorkflowAnswer (await_workflow_result id interval) = AwaitResult
WorkflowAnswer (clear_queue_assignment id) = Bool
WorkflowAnswer (dequeue_workflows input) = List DequeuedWorkflow
WorkflowAnswer transition_delayed_workflows = Unit
WorkflowAnswer (get_deduplicated_workflow queue dedup) = Option String
WorkflowAnswer (cancel_workflow id) = Bool
WorkflowAnswer (resume_workflow id) = Unit
WorkflowAnswer (delete_workflow id) = Unit
WorkflowAnswer (get_workflow_children id) = List String
WorkflowAnswer (get_workflow_steps id) = List StepInfo
WorkflowAnswer (fork_workflow input) = String
WorkflowAnswer get_workflow_status_counts = List (String × ℕ)
WorkflowAnswer (garbage_collect cutoff threshold) = ℕ
WorkflowAnswer (set_workflow_status_pending id) = Unit

abbrev pub MessageAnswer : MessageRequest → Type 0
MessageAnswer (send_notification dest topic message serialization) = Unit
MessageAnswer (has_unconsumed_notification dest topic) = Bool
MessageAnswer (consume_oldest_notification dest topic) = Option (Option String × String)
MessageAnswer (set_event id step key value serialization) = Unit
MessageAnswer (get_event target key) = Option (Option String × String)
MessageAnswer (get_workflow_events id) = List (String × Option String × String)
MessageAnswer (get_workflow_notifications id) = List (String × Option String × ℕ × String × Bool)
MessageAnswer (get_workflow_streams id) = List (String × ℕ × String × String)
MessageAnswer get_step_aggregates = List (String × ℕ)
MessageAnswer list_application_versions = List (String × String × ℕ × ℕ)
MessageAnswer (set_latest_application_version name) = Unit
MessageAnswer (write_stream id key value step serialization) = Unit
MessageAnswer (read_stream id key from_offset) = List (String × ℕ × String) × Bool
MessageAnswer (create_application_version name) = Unit
MessageAnswer get_latest_application_version = Option String
MessageAnswer (create_schedule row) = Unit
MessageAnswer list_schedules = List ScheduleRow
MessageAnswer (get_schedule name) = Option ScheduleRow
MessageAnswer (set_schedule_status name status) = Unit
MessageAnswer (update_schedule_last_fired name stamp) = Unit
MessageAnswer (delete_schedule name) = Unit

pub data Request : Type 0 where
  workflow : WorkflowRequest → Request
  message : MessageRequest → Request

abbrev pub Answer : Request → Type 0
Answer (workflow r) = WorkflowAnswer r
Answer (message r) = MessageAnswer r

-- A database over a state `S`: what each method answers and leaves.
abbrev pub SystemDatabase {ℓ} : Type ℓ → Type ℓ
SystemDatabase S = (r : Request) → S → Result (Answer r) × S

-- What each method of a retried database ends with, and in how many attempts.
abbrev pub RetryingDatabase {ℓ} : Type ℓ → Type ℓ
RetryingDatabase S = (r : Request) → S → Option (Ended (Answer r) S)

-- Every method retries the inner one. `inner k` is what the inner database does at a call's
-- `k`-th attempt; `elapsed` and `fuel` are those of the loop.
unfoldable pub retrying {ℓ} :
    {S : Type ℓ} → ℕ → (ℕ → SystemDatabase S) → (ℕ → ℕ) → ℕ → RetryingDatabase S
retrying max_elapsed inner elapsed fuel r = retry max_elapsed (λ k. inner k r) elapsed fuel 0
