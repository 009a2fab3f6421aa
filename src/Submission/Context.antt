-- ===== src/Submission/Context.antt =====
-- What a submission is given: options, flags and draws; the parts of the context that it uses
-- (crates/dbos-core/src/context/mod.rs); and the handle that it returns
-- (crates/dbos-core/src/workflow/run.rs, mod.rs).
use dbos_transact_rust.Prelude.{ℕ, ℤ, String, Bool, true, false, Option, none, List, []}
use dbos_transact_rust.Database.{or_default}
use dbos_transact_rust.Database.Types.{InsertWorkflowResult}
use dbos_transact_rust.Step.{WorkflowState}

pub data DeduplicationPolicy : Type 0 where
  reject return_existing : DeduplicationPolicy

abbrev pub is_reject : DeduplicationPolicy → Bool
is_reject reject = true
is_reject return_existing = false

pub record RunOptions : Type 0 where
  pub workflow_id : Option String
  pub queue : Option String
  pub application_version : Option String
  pub deduplication_id : Option String
  pub deduplication_policy : DeduplicationPolicy
  pub priority : ℕ
  pub queue_partition_key : Option String
  pub delay : Option ℕ
  pub authenticated_user : Option String
  pub assumed_role : Option String
  pub authenticated_roles : List String
  pub portable : Bool
  pub timeout : Option ℕ

pub record RunFlags : Type 0 where
  pub is_recovery : Bool
  pub is_dequeue : Bool

-- `RunOptions::default()`
abbrev pub default_options : RunOptions
default_options = record {
  workflow_id = none;
  queue = none;
  application_version = none;
  deduplication_id = none;
  deduplication_policy = reject;
  priority = 0;
  queue_partition_key = none;
  delay = none;
  authenticated_user = none;
  assumed_role = none;
  authenticated_roles = [];
  portable = false;
  timeout = none;
}

-- `RunFlags::default()`
abbrev pub no_flags : RunFlags
no_flags = record { is_recovery = false; is_dequeue = false }

-- What a submission draws: a new id, an owner id, and readings of the clock.
pub record Draws : Type 0 where
  pub fresh_id : String
  pub owner_xid : String
  pub clock : ℕ → ℕ

-- What the registry keeps of a workflow, less its body.
pub record WorkflowEntry : Type 0 where
  pub name : String
  pub max_retries : ℤ
  pub class_name : String
  pub config_name : Option String

-- What the context keeps of a workflow that runs here.
pub record ActiveEntry : Type 0 where
  pub queue_name : String
  pub queue_partition_key : String

abbrev pub active_entry : InsertWorkflowResult → ActiveEntry
active_entry result = record {
  queue_name = or_default result.queue_name;
  queue_partition_key = or_default result.queue_partition_key;
}

-- The parts of the context that a submission reads and writes.
pub record Engine : Type 0 where
  pub registry : List (String × WorkflowEntry)
  pub application_version : String
  pub application_id : String
  pub executor_id : String
  pub active_workflow_ids : List (String × ActiveEntry)

pub record ChildSpawn : Type 0 where
  pub parent_workflow_id : String
  pub step_id : ℤ

-- `channel` carries the state that the started body runs in.
pub data ErasedHandle : Type 0 where
  channel : WorkflowState → ErasedHandle
  polling : String → ErasedHandle

abbrev pub handle_id : ErasedHandle → String
handle_id (channel s) = s.workflow_id
handle_id (polling id) = id
