-- ===== src/Database/Types.antt =====
-- The inputs and results of the operations (crates/dbos-core/src/db/mod.rs). A timestamp or a
-- duration is a number of milliseconds; a JSON list of roles is held as the list.
use dbos_transact_rust.Prelude.{ℕ, ℤ, String, Bool, Option, List}
use dbos_transact_rust.Status.{WorkflowStatusType}

pub record WorkflowStatus : Type 0 where
  pub id : String
  pub status : WorkflowStatusType
  pub name : String
  pub authenticated_user : String
  pub assumed_role : String
  pub authenticated_roles : List String
  pub output : Option String
  pub error : Option String
  pub executor_id : String
  pub created_at_ms : ℕ
  pub updated_at_ms : ℕ
  pub application_version : String
  pub application_id : String
  pub attempts : ℕ
  pub queue_name : String
  pub timeout_ms : ℕ
  pub deadline_ms : Option ℕ
  pub started_at_ms : Option ℕ
  pub deduplication_id : String
  pub input : Option String
  pub priority : ℕ
  pub queue_partition_key : String
  pub forked_from : String
  pub was_forked_from : Bool
  pub parent_workflow_id : String
  pub completed_at_ms : Option ℕ
  pub class_name : String
  pub config_name : Option String
  pub serialization : String
  pub delay_until_ms : Option ℕ

pub record NewWorkflowStatus : Type 0 where
  pub id : String
  pub status : Option WorkflowStatusType
  pub name : String
  pub class_name : String
  pub config_name : Option String
  pub application_version : String
  pub application_id : String
  pub executor_id : String
  pub created_at_ms : ℕ
  pub updated_at_ms : Option ℕ
  pub deadline_ms : Option ℕ
  pub timeout_ms : Option ℕ
  pub input : Option String
  pub queue_name : String
  pub deduplication_id : String
  pub priority : ℕ
  pub authenticated_user : String
  pub assumed_role : String
  pub authenticated_roles : List String
  pub queue_partition_key : String
  pub parent_workflow_id : String
  pub delay_until_ms : Option ℕ
  pub serialization : String

pub record ChildRecord : Type 0 where
  pub parent_workflow_id : String
  pub step_id : ℤ
  pub step_name : String
  pub child_workflow_id : String

pub record InsertWorkflowStatusInput : Type 0 where
  pub status : NewWorkflowStatus
  pub max_retries : ℤ
  pub owner_xid : String
  pub increment_attempts : Bool
  pub record_child : Option ChildRecord

pub record InsertWorkflowResult : Type 0 where
  pub attempts : ℕ
  pub status : WorkflowStatusType
  pub name : String
  pub queue_name : Option String
  pub queue_partition_key : Option String
  pub timeout_ms : Option ℕ
  pub deadline_ms : Option ℕ
  pub owner_xid : String

pub record RecordOperationResultInput : Type 0 where
  pub workflow_id : String
  pub step_id : ℤ
  pub step_name : String
  pub output : Option String
  pub error : Option String
  pub child_workflow_id : Option String
  pub started_at_ms : ℕ
  pub completed_at_ms : ℕ
  pub serialization : String

pub record StepInfo : Type 0 where
  pub step_id : ℤ
  pub step_name : String
  pub output : Option String
  pub error : Option String
  pub child_workflow_id : Option String
  pub started_at_ms : Option ℕ
  pub completed_at_ms : Option ℕ
  pub serialization : String

pub record ForkInput : Type 0 where
  pub original_workflow_id : String
  pub forked_workflow_id : Option String
  pub start_step : ℤ
  pub application_version : Option String
  pub queue_name : Option String

pub record RecordedResult : Type 0 where
  pub output : Option String
  pub error : Option String
  pub serialization : String

pub record AwaitResult : Type 0 where
  pub output : Option String
  pub error : Option String
  pub serialization : String

-- The period of the rate limit is in milliseconds, as `(period_secs * 1000.0) as i64` gives it.
pub record DequeueInput : Type 0 where
  pub queue_name : String
  pub global_concurrency : Option ℤ
  pub worker_concurrency : Option ℤ
  pub rate_limit : Option (ℤ × ℕ)
  pub max_tasks : ℤ
  pub local_running_count : ℕ
  pub application_version : String
  pub executor_id : String

pub record DequeuedWorkflow : Type 0 where
  pub id : String
  pub name : String
  pub input : Option String
  pub serialization : String
  pub config_name : Option String

pub record ListWorkflowsInput : Type 0 where
  pub workflow_ids : List String
  pub workflow_name : List String
  pub status : List WorkflowStatusType
  pub executor_ids : List String
  pub application_version : List String
  pub queues_only : Bool
  pub limit : Option ℤ
  pub offset : Option ℤ
  pub sort_desc : Bool
  pub load_input : Bool
  pub load_output : Bool
