-- ===== src/SystemDb/Insert.antt =====
-- `insert_workflow_status` (crates/dbos-core/src/db/sqlite.rs).
pub mod Cases
pub mod Valid
pub mod Laws
use dbos_transact_rust.Prelude.{
  ℕ, ℤ, pos, ◌+◌, ◌+ℤ◌, ltb_ℤ, eq_ℤ, String, Bool, true, false, not, ◌&&◌, ◌||◌, ◌==◌, is_empty,
  Option, none, some, List, [], ◌∷◌, concat, decimal_ℤ, if◌then◌else◌,
}
use dbos_transact_rust.Error.{conflicting_id}
use dbos_transact_rust.Error.Chain.{DbosError}
use dbos_transact_rust.Error.Make
use dbos_transact_rust.Status.{
  WorkflowStatusType, pending, enqueued, delayed, success, error, max_recovery_attempts_exceeded,
  ◌is◌,
}
use dbos_transact_rust.Sql.{update_where, exists, first, insert_row}
use dbos_transact_rust.Database.{Result, ok, err, foreign_key_violation, opt, or_default}
use dbos_transact_rust.Database.Types.{
  NewWorkflowStatus, ChildRecord, InsertWorkflowStatusInput, InsertWorkflowResult,
}
use dbos_transact_rust.Database.Schema.{WorkflowRow, OutputRow, Database}

-- `WHERE workflow_uuid = ?`
abbrev pub has_id : String → WorkflowRow → Bool
has_id id r = r.workflow_uuid == id

-- `IN (ENQUEUED, DELAYED)`
abbrev pub is_waiting : WorkflowStatusType → Bool
is_waiting enqueued = true
is_waiting delayed = true
is_waiting _ = false

abbrev pub get_or {ℓ} : {A : Type ℓ} → A → Option A → A
get_or d none = d
get_or d (some a) = a

-- NULL equals nothing.
abbrev pub sql_eq : Option String → Option String → Bool
sql_eq (some a) (some b) = a == b
sql_eq _ _ = false

-- Two rows that the unique index `uq_workflow_status_dedup_id` forbids together.
abbrev pub same_slot : WorkflowRow → WorkflowRow → Bool
same_slot a b = sql_eq a.queue_name b.queue_name && sql_eq a.deduplication_id b.deduplication_id

-- The values bound to the INSERT.
unfoldable pub new_row : InsertWorkflowStatusInput → ℕ → WorkflowRow
new_row input now =
    let s = input.status in
    let status = get_or pending s.status in
    record {
      workflow_uuid = s.id;
      status = status;
      name = s.name;
      authenticated_user = s.authenticated_user;
      assumed_role = s.assumed_role;
      authenticated_roles = s.authenticated_roles;
      output = none;
      error = none;
      executor_id = some s.executor_id;
      created_at = s.created_at_ms;
      updated_at = get_or now s.updated_at_ms;
      application_version = opt s.application_version;
      application_id = some s.application_id;
      class_name = opt s.class_name;
      config_name = s.config_name;
      recovery_attempts = if is_waiting status then 0 else 1;
      queue_name = opt s.queue_name;
      workflow_timeout_ms = s.timeout_ms;
      workflow_deadline_epoch_ms = s.deadline_ms;
      inputs = s.input;
      started_at_epoch_ms = none;
      deduplication_id = opt s.deduplication_id;
      priority = s.priority;
      queue_partition_key = opt s.queue_partition_key;
      forked_from = none;
      owner_xid = some input.owner_xid;
      parent_workflow_id = opt s.parent_workflow_id;
      serialization = some s.serialization;
      delay_until_epoch_ms = s.delay_until_ms;
      was_forked_from = false;
      rate_limited = false;
      completed_at = none;
    }

-- `ON CONFLICT (workflow_uuid) DO UPDATE SET …`, given the row that was to be inserted.
unfoldable pub merge : Bool → WorkflowRow → WorkflowRow → WorkflowRow
merge increment_attempts excluded r = record r {
  recovery_attempts =
      if is_waiting excluded.status
      then r.recovery_attempts
      else r.recovery_attempts + (if increment_attempts then 1 else 0);
  updated_at = excluded.updated_at;
  executor_id = if is_waiting excluded.status then r.executor_id else excluded.executor_id;
}

-- The row that the statement returns and the table after it; `none` is a unique violation.
unfoldable pub upsert :
    Bool → WorkflowRow → List WorkflowRow → Option (WorkflowRow × List WorkflowRow)
unfolding merge
upsert increment_attempts new rows = elim (first (has_id new.workflow_uuid) rows) [
  | some old ↦ some (
    merge increment_attempts new old,
    update_where (has_id new.workflow_uuid) (merge increment_attempts new) rows,
  )
  | none ↦ if exists (same_slot new) rows then none else some (new, insert_row new rows)
]

-- The RETURNING columns.
unfoldable pub returned : WorkflowRow → InsertWorkflowResult
returned r = record {
  attempts = r.recovery_attempts;
  status = r.status;
  name = r.name;
  queue_name = r.queue_name;
  queue_partition_key = r.queue_partition_key;
  timeout_ms = r.workflow_timeout_ms;
  deadline_ms = r.workflow_deadline_epoch_ms;
  owner_xid = or_default r.owner_xid;
}

-- Name and queue conflict detection.
unfoldable pub queue_conflict : NewWorkflowStatus → Option String → Option DbosError
queue_conflict s none = none
queue_conflict s (some q) =
    if not (is_empty s.queue_name) && not (q == s.queue_name)
    then some (
        Make.conflicting_workflow s.id (
          concat (
            "Workflow already exists in a different queue: " ∷ q ∷ ", but the provided queue is: "
            ∷ s.queue_name ∷ [])))
    else none

unfoldable pub conflict : NewWorkflowStatus → InsertWorkflowResult → Option DbosError
unfolding queue_conflict
conflict s result =
    if not (is_empty s.name) && not (result.name == s.name)
    then some (
        Make.conflicting_workflow s.id (
          concat (
            "Workflow already exists with a different name: " ∷ result.name
            ∷ ", but the provided name is: " ∷ s.name ∷ [])))
    else queue_conflict s result.queue_name

abbrev pub has_key : String → ℤ → OutputRow → Bool
has_key id step o = o.workflow_uuid == id && eq_ℤ o.function_id step

unfoldable pub child_row : ChildRecord → OutputRow
child_row c = record {
  workflow_uuid = c.parent_workflow_id;
  function_id = c.step_id;
  function_name = c.step_name;
  output = none;
  error = none;
  child_workflow_id = some c.child_workflow_id;
  started_at_epoch_ms = none;
  completed_at_epoch_ms = none;
  serialization = none;
}

-- Record the parent's step in the same transaction.
unfoldable pub add_child : Option ChildRecord → Database → Result Database
unfolding child_row
add_child none db = ok db
add_child (some c) db =
    if exists (has_key c.parent_workflow_id c.step_id) db.operation_outputs
    then err (
        Make.new conflicting_id (
          concat (
            "child workflow "
            ∷ c.child_workflow_id
            ∷ " already registered for parent workflow "
            ∷ c.parent_workflow_id
            ∷ " (operation ID: "
            ∷ decimal_ℤ c.step_id
            ∷ "). Is your workflow deterministic?"
            ∷ [])))
    else if exists (has_id c.parent_workflow_id) db.workflow_status
    then ok (record db { operation_outputs = insert_row (child_row c) db.operation_outputs })
    else err (foreign_key_violation "failed to record child workflow")

-- More attempts than `max_retries + 1`, for a workflow that has not ended.
unfoldable pub exceeded : ℤ → InsertWorkflowResult → Bool
exceeded max_retries result =
    not (result.status is success)
    && not (result.status is error)
    && ltb_ℤ (pos 0) max_retries
    && ltb_ℤ (max_retries +ℤ pos 1) (pos result.attempts)

-- Dead-letter parking.
unfoldable pub dead_letter : WorkflowRow → WorkflowRow
dead_letter r = record r {
  status = max_recovery_attempts_exceeded;
  deduplication_id = none;
  started_at_epoch_ms = none;
  queue_name = none;
}

unfoldable pub park : String → Database → Database
unfolding dead_letter
park id db = record db {
  workflow_status =
      update_where (λ r. has_id id r && (r.status is pending)) dead_letter db.workflow_status;
}

-- The rest of the transaction, after the upsert returned `result` and left the database `after`.
unfoldable pub complete :
    InsertWorkflowStatusInput
    → InsertWorkflowResult
    → Database
    → Database
    → Result InsertWorkflowResult × Database
unfolding conflict add_child exceeded park
complete input result after db = elim (conflict input.status result) [
  | some e ↦ (err e, db)
  | none ↦ elim (add_child input.record_child after) [
    | err e ↦ (err e, db)
    | ok done ↦
        if exceeded input.max_retries result
        then (
          err (Make.dead_letter_queue input.status.id input.max_retries),
          park input.status.id done,
        )
        else (ok result, done)
  ]
]

unfoldable pub insert_workflow_status :
    InsertWorkflowStatusInput → ℕ → Database → Result InsertWorkflowResult × Database
unfolding new_row upsert returned complete
insert_workflow_status input now db =
    let s = input.status in
    elim (upsert input.increment_attempts (new_row input now) db.workflow_status) [
      | none ↦ (err (Make.queue_deduplicated s.id s.queue_name s.deduplication_id), db)
      | some (row, rows) ↦ complete input (returned row) (record db { workflow_status = rows }) db
    ]
