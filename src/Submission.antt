-- ===== src/Submission.antt =====
-- Starting a workflow: `run_workflow_erased` (crates/dbos-core/src/workflow/run.rs), up to the
-- start of the body; `Finish` is what its task does with the body's result. The registry, the ids
-- of the application and the active workflows are those of the context
-- (crates/dbos-core/src/context). The task that cancels a workflow at its deadline is left out.
pub mod Context
pub mod Once
pub mod Finish
pub mod Presence
pub mod Deduplicated
pub mod Typed
pub mod Children
pub mod Handles
pub use Context.{
  DeduplicationPolicy, is_reject, RunOptions, RunFlags, default_options, no_flags, Draws,
  WorkflowEntry, ActiveEntry, active_entry, Engine, ChildSpawn, ErasedHandle, handle_id, reject,
  return_existing, channel, polling,
}
use dbos_transact_rust.Prelude.{
  ℕ, ◌+◌, ℤ, pos, negsuc, decimal_ℤ, String, Bool, true, false, not, ◌&&◌, ◌||◌, ◌==◌, is_empty,
  Option, none, some, List, [], ◌∷◌, concat, if◌then◌else◌,
}
use dbos_transact_rust.Error.{workflow_execution, conflicting_id}
use dbos_transact_rust.Error.Chain.{DbosError, is_code}
use dbos_transact_rust.Error.Make
use dbos_transact_rust.Status.{WorkflowStatusType, pending, enqueued, delayed, success, error, ◌is◌}
use dbos_transact_rust.Sql.{exists, first, select}
use dbos_transact_rust.Database.{Result, ok, err, or_default}
use dbos_transact_rust.Database.Types.{
  NewWorkflowStatus, ChildRecord, InsertWorkflowStatusInput, InsertWorkflowResult, AwaitResult,
}
use dbos_transact_rust.Database.Schema.{Database}
use dbos_transact_rust.SystemDb.Insert.{get_or, insert_workflow_status}
use dbos_transact_rust.SystemDb.Outcome.{update_workflow_outcome, await_workflow_result}
use dbos_transact_rust.SystemDb.Queue.{is_some}
use dbos_transact_rust.Serialization.{Codecs, serialize_workflow_error, deserialize_workflow_error}
use dbos_transact_rust.Step.{WorkflowState}

unfoldable pub validate : RunOptions → Option DbosError
validate opts =
    let queue_name = or_default opts.queue in
    let partition_key = or_default opts.queue_partition_key in
    let dedup_id = or_default opts.deduplication_id in
    let refuse = λ (text : String). some (Make.new workflow_execution text) in
    if is_some opts.delay && is_empty queue_name
    then refuse "delay provided but queue name is missing"
    else if not (is_empty partition_key) && is_empty queue_name
    then refuse "partition key provided but queue name is missing"
    else if not (is_empty partition_key) && not (is_empty dedup_id)
    then refuse "partition key and deduplication ID cannot be used together"
    else if not (is_reject opts.deduplication_policy) && is_empty dedup_id
    then refuse "a deduplication policy requires a deduplication ID"
    else if not (is_reject opts.deduplication_policy) && is_empty queue_name
    then refuse "a deduplication policy requires a queue name"
    else none

-- `{parent}-{step}` for a child; `fresh_id` is a new UUID.
unfoldable pub workflow_id_of : RunOptions → Option ChildSpawn → String → String
workflow_id_of opts none fresh_id = get_or fresh_id opts.workflow_id
workflow_id_of opts (some c) fresh_id =
    get_or (concat (c.parent_workflow_id ∷ "-" ∷ decimal_ℤ c.step_id ∷ [])) opts.workflow_id

unfoldable pub initial_status : RunOptions → WorkflowStatusType
initial_status opts =
    if not (is_empty (or_default opts.queue))
    then (if is_some opts.delay then delayed else enqueued)
    else pending

abbrev pub after_now : ℕ → Option ℕ → Option ℕ
after_now now none = none
after_now now (some d) = some (now + d)

abbrev pub parent_of : Option ChildSpawn → String
parent_of none = ""
parent_of (some c) = c.parent_workflow_id

-- `clock i` is the `i`-th reading of the clock.
unfoldable pub new_status :
    Engine
    → WorkflowEntry
    → RunOptions
    → Option ChildSpawn
    → String
    → Option String
    → String
    → (ℕ → ℕ)
    → NewWorkflowStatus
unfolding initial_status
new_status engine entry opts child id encoded_input input_serialization clock = record {
  id = id;
  status = some (initial_status opts);
  name = entry.name;
  class_name = entry.class_name;
  config_name = entry.config_name;
  application_version = get_or engine.application_version opts.application_version;
  application_id = engine.application_id;
  executor_id = engine.executor_id;
  created_at_ms = clock 2;
  updated_at_ms = none;
  deadline_ms = if is_empty (or_default opts.queue) then after_now (clock 1) opts.timeout else none;
  timeout_ms = opts.timeout;
  input = encoded_input;
  queue_name = or_default opts.queue;
  deduplication_id = or_default opts.deduplication_id;
  priority = opts.priority;
  authenticated_user = or_default opts.authenticated_user;
  assumed_role = or_default opts.assumed_role;
  authenticated_roles = opts.authenticated_roles;
  queue_partition_key = or_default opts.queue_partition_key;
  parent_workflow_id = parent_of child;
  delay_until_ms = after_now (clock 0) opts.delay;
  serialization = input_serialization;
}

unfoldable pub child_record : WorkflowEntry → String → Option ChildSpawn → Option ChildRecord
child_record entry id none = none
child_record entry id (some c) = some (record {
  parent_workflow_id = c.parent_workflow_id;
  step_id = c.step_id;
  step_name = entry.name;
  child_workflow_id = id;
})

-- The run is left to whoever has it.
unfoldable pub should_skip :
    Engine → RunOptions → RunFlags → String → String → InsertWorkflowResult → Bool
should_skip engine opts flags id owner_xid result =
    not (is_empty (or_default opts.queue))
    || (result.status is success)
    || (result.status is error)
    || (not flags.is_dequeue && not flags.is_recovery && not (result.owner_xid == owner_xid))
    || exists (λ a. a.0 == id) engine.active_workflow_ids

unfoldable pub initial_state : RunOptions → String → WorkflowState
initial_state opts id = record {
  workflow_id = id;
  step_id = negsuc 0;
  is_portable = opts.portable;
  authenticated_user = or_default opts.authenticated_user;
  assumed_role = or_default opts.assumed_role;
  authenticated_roles = opts.authenticated_roles;
}

-- After the insert.
unfoldable pub dispatch :
    Engine
    → RunOptions
    → RunFlags
    → String
    → String
    → Result InsertWorkflowResult
    → Result ErasedHandle × Engine
unfolding should_skip initial_state
dispatch engine opts flags id owner_xid (err e) = (err e, engine)
dispatch engine opts flags id owner_xid (ok result) =
    if should_skip engine opts flags id owner_xid result then (ok (polling id), engine) else (
      ok (channel (initial_state opts id)),
      record engine {
        active_workflow_ids = (id, active_entry result) ∷ engine.active_workflow_ids;
      },
    )

-- What a submission asks of the database.
unfoldable pub submission :
    Engine
    → WorkflowEntry
    → RunOptions
    → RunFlags
    → Option ChildSpawn
    → String
    → Option String
    → String
    → String
    → (ℕ → ℕ)
    → InsertWorkflowStatusInput
unfolding new_status child_record
submission engine entry opts flags child id encoded_input input_serialization owner_xid clock =
    record {
      status = new_status engine entry opts child id encoded_input input_serialization clock;
      max_retries = entry.max_retries;
      owner_xid = owner_xid;
      increment_attempts = flags.is_dequeue || flags.is_recovery;
      record_child = child_record entry id child;
    }

abbrev pub entry_of : String → List (String × WorkflowEntry) → Option WorkflowEntry
entry_of name [] = none
entry_of name ((n, e) ∷ entries) = if n == name then some e else entry_of name entries

-- A valid submission of a registered workflow.
unfoldable pub start :
    Engine
    → WorkflowEntry
    → RunOptions
    → RunFlags
    → Option ChildSpawn
    → String
    → Option String
    → String
    → String
    → (ℕ → ℕ)
    → Database
    → Result ErasedHandle × Engine × Database
unfolding submission dispatch
start engine entry opts flags child id encoded_input input_serialization owner_xid clock db =
    let (inserted, after) =
      insert_workflow_status
        (submission engine entry opts flags child id encoded_input input_serialization owner_xid
          clock)
        (clock 3) db in
    let (handle, engine') = dispatch engine opts flags id owner_xid inserted in
    (handle, engine', after)

unfoldable pub run_workflow_erased :
    Engine
    → String
    → Option String
    → String
    → RunOptions
    → RunFlags
    → Option ChildSpawn
    → String
    → String
    → (ℕ → ℕ)
    → Database
    → Result ErasedHandle × Engine × Database
unfolding validate start workflow_id_of
run_workflow_erased engine name encoded_input input_serialization opts flags child fresh_id
      owner_xid clock db =
    elim (entry_of name engine.registry) [
      | none ↦ (err (Make.non_existent_workflow name), engine, db)
      | some entry ↦ elim (validate opts) [
        | some e ↦ (err e, engine, db)
        | none ↦
            start engine entry opts flags child (workflow_id_of opts child fresh_id) encoded_input
              input_serialization owner_xid clock db
      ]
    ]
