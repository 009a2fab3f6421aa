-- ===== src/Database/Schema.antt =====
-- The tables (crates/dbos-core/migrations/0001_initial_schema.sql): a row per record, the
-- nullable columns as options. The columns `request` and `attributes`, which nothing writes, are
-- left out.
use dbos_transact_rust.Prelude.{ℕ, ℤ, String, Bool, Option, List}
use dbos_transact_rust.Status.{WorkflowStatusType}

pub record WorkflowRow : Type 0 where
  pub workflow_uuid : String
  pub status : WorkflowStatusType
  pub name : String
  pub authenticated_user : String
  pub assumed_role : String
  pub authenticated_roles : List String
  pub output : Option String
  pub error : Option String
  pub executor_id : Option String
  pub created_at : ℕ
  pub updated_at : ℕ
  pub application_version : Option String
  pub application_id : Option String
  pub class_name : Option String
  pub config_name : Option String
  pub recovery_attempts : ℕ
  pub queue_name : Option String
  pub workflow_timeout_ms : Option ℕ
  pub workflow_deadline_epoch_ms : Option ℕ
  pub inputs : Option String
  pub started_at_epoch_ms : Option ℕ
  pub deduplication_id : Option String
  pub priority : ℕ
  pub queue_partition_key : Option String
  pub forked_from : Option String
  pub owner_xid : Option String
  pub parent_workflow_id : Option String
  pub serialization : Option String
  pub delay_until_epoch_ms : Option ℕ
  pub was_forked_from : Bool
  pub rate_limited : Bool
  pub completed_at : Option ℕ

pub record OutputRow : Type 0 where
  pub workflow_uuid : String
  pub function_id : ℤ
  pub function_name : String
  pub output : Option String
  pub error : Option String
  pub child_workflow_id : Option String
  pub started_at_epoch_ms : Option ℕ
  pub completed_at_epoch_ms : Option ℕ
  pub serialization : Option String

pub record NotificationRow : Type 0 where
  pub message_uuid : String
  pub destination_uuid : String
  pub topic : String
  pub message : String
  pub created_at_epoch_ms : ℕ
  pub serialization : Option String
  pub consumed : Bool

pub record EventRow : Type 0 where
  pub workflow_uuid : String
  pub key : String
  pub value : String
  pub serialization : Option String

pub record EventHistoryRow : Type 0 where
  pub workflow_uuid : String
  pub function_id : ℤ
  pub key : String
  pub value : String
  pub serialization : Option String

pub record StreamRow : Type 0 where
  pub workflow_uuid : String
  pub key : String
  pub value : String
  pub position : ℕ
  pub function_id : ℤ
  pub serialization : Option String

pub record Database : Type 0 where
  pub workflow_status : List WorkflowRow
  pub operation_outputs : List OutputRow
  pub notifications : List NotificationRow
  pub workflow_events : List EventRow
  pub workflow_events_history : List EventHistoryRow
  pub streams : List StreamRow
