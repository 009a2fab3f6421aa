-- ===== src/SystemDb/Listing.antt =====
-- `list_workflows`, `get_workflow_status` and `row_to_status` (crates/dbos-core/src/db/sqlite.rs).
pub mod Laws
pub mod Exact
use dbos_transact_rust.Prelude.{
  ℕ, ℤ, pos, pos_part, leb, ltb_ℤ, String, Bool, true, false, not, ◌&&◌, ◌||◌, ◌==◌, Option, none,
  some, List, [], ◌∷◌, map, if◌then◌else◌,
}
use dbos_transact_rust.Status.{WorkflowStatusType, as_str}
use dbos_transact_rust.Sql.{select, exists, order_by, take, drop}
use dbos_transact_rust.Database.{or_default}
use dbos_transact_rust.Database.Types.{WorkflowStatus, ListWorkflowsInput}
use dbos_transact_rust.Database.Schema.{WorkflowRow, Database}
use dbos_transact_rust.SystemDb.Insert.{get_or}
use dbos_transact_rust.SystemDb.Outcome.{filter_empty}
use dbos_transact_rust.SystemDb.Queue.{is_some}
use dbos_transact_rust.SystemDb.Comms.{head?}

-- Nothing is read of a NULL, and of a column that was not asked for.
abbrev pub loaded {ℓ} : {A : Type ℓ} → Bool → Option A → Option A
loaded true v = v
loaded false v = none

unfoldable pub row_to_status : Bool → Bool → WorkflowRow → WorkflowStatus
row_to_status load_input load_output r = record {
  id = r.workflow_uuid;
  status = r.status;
  name = r.name;
  authenticated_user = r.authenticated_user;
  assumed_role = r.assumed_role;
  authenticated_roles = r.authenticated_roles;
  output = loaded load_output r.output;
  error = loaded load_output (filter_empty r.error);
  executor_id = or_default r.executor_id;
  created_at_ms = r.created_at;
  updated_at_ms = r.updated_at;
  application_version = or_default r.application_version;
  application_id = or_default r.application_id;
  attempts = r.recovery_attempts;
  queue_name = or_default r.queue_name;
  timeout_ms = get_or 0 r.workflow_timeout_ms;
  deadline_ms = r.workflow_deadline_epoch_ms;
  started_at_ms = r.started_at_epoch_ms;
  deduplication_id = or_default r.deduplication_id;
  input = loaded load_input r.inputs;
  priority = r.priority;
  queue_partition_key = or_default r.queue_partition_key;
  forked_from = or_default r.forked_from;
  was_forked_from = r.was_forked_from;
  parent_workflow_id = or_default r.parent_workflow_id;
  completed_at_ms = r.completed_at;
  class_name = or_default r.class_name;
  config_name = r.config_name;
  serialization = or_default r.serialization;
  delay_until_ms = r.delay_until_epoch_ms;
}

-- `col IN (…)`, left out when no value is given; a NULL is in no list.
abbrev pub add_any : List String → Option String → Bool
add_any [] v = true
add_any (x ∷ xs) none = false
add_any (x ∷ xs) (some v) = exists (λ y. v == y) (x ∷ xs)

unfoldable pub matches : ListWorkflowsInput → WorkflowRow → Bool
unfolding as_str
matches input r =
    add_any input.workflow_ids (some r.workflow_uuid)
    && add_any input.workflow_name (some r.name)
    && add_any (map as_str input.status) (some (as_str r.status))
    && add_any input.executor_ids r.executor_id
    && add_any input.application_version r.application_version
    && (not input.queues_only || is_some r.queue_name)

-- ORDER BY created_at, ascending or descending.
abbrev pub sorts_before : Bool → WorkflowRow → WorkflowRow → Bool
sorts_before true a b = leb b.created_at a.created_at
sorts_before false a b = leb a.created_at b.created_at

-- A negative limit is none, and a negative offset is 0.
abbrev pub limited {ℓ} : {A : Type ℓ} → Option ℤ → List A → List A
limited none rows = rows
limited (some n) rows = if ltb_ℤ n (pos 0) then rows else take (pos_part n) rows

abbrev pub skipped {ℓ} : {A : Type ℓ} → Option ℤ → List A → List A
skipped none rows = rows
skipped (some n) rows = drop (pos_part n) rows

unfoldable pub list_workflows : ListWorkflowsInput → Database → List WorkflowStatus
unfolding row_to_status matches
list_workflows input db = map (row_to_status input.load_input input.load_output) (
    limited input.limit (
      skipped input.offset
        (order_by (sorts_before input.sort_desc) (select (matches input) db.workflow_status))))

-- `ListWorkflowsInput::default()`
abbrev pub default_list : ListWorkflowsInput
default_list = record {
  workflow_ids = [];
  workflow_name = [];
  status = [];
  executor_ids = [];
  application_version = [];
  queues_only = false;
  limit = none;
  offset = none;
  sort_desc = false;
  load_input = false;
  load_output = false;
}

unfoldable pub get_workflow_status : String → Database → Option WorkflowStatus
unfolding list_workflows
get_workflow_status id db = head? (
    list_workflows
      (record default_list { workflow_ids = id ∷ []; load_input = true; load_output = true }) db)
