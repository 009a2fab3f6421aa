-- ===== src/SystemDb/Manage.antt =====
-- Management (crates/dbos-core/src/db/sqlite.rs): cancel, resume, delete, children, fork, garbage
-- collection and `set_workflow_status_pending`.
pub mod Valid
pub mod Fork
pub mod Copies
use dbos_transact_rust.Prelude.{
  ℕ, suc, ◌+◌, ℤ, pos, ltb_ℤ, pos_part, ltb, leb, String, Bool, true, false, not, ◌&&◌, ◌||◌, ◌==◌,
  is_empty, Option, none, some, List, [], ◌∷◌, ◌++◌, map, concat, decimal_ℤ, if◌then◌else◌,
}
use dbos_transact_rust.Error.{workflow_execution}
use dbos_transact_rust.Error.Make
use dbos_transact_rust.Error.Chain.{SqlxError, database}
use dbos_transact_rust.Status.{
  WorkflowStatusType, pending, enqueued, success, error, cancelled, is_terminal, ◌is◌,
}
use dbos_transact_rust.Sql.{
  update_where, select, delete_where, count_where, exists, first, insert_row, order_by, drop,
}
use dbos_transact_rust.Database.{Result, ok, err, sql_err, opt, or_default}
use dbos_transact_rust.Database.Types.{ForkInput}
use dbos_transact_rust.Database.Schema.{WorkflowRow, OutputRow, Database}
use dbos_transact_rust.SystemDb.Insert.{has_id, get_or, sql_eq}
use dbos_transact_rust.SystemDb.Outcome.{has_ended}

abbrev pub internal_queue_name : String
internal_queue_name = "_dbos_internal_queue"

unfoldable pub as_cancelled : ℕ → WorkflowRow → WorkflowRow
as_cancelled now r = record r {
  status = cancelled;
  updated_at = now;
  completed_at = some now;
  started_at_epoch_ms = none;
  queue_name = none;
  deduplication_id = none;
}

abbrev pub is_cancellable : String → WorkflowRow → Bool
is_cancellable id r = has_id id r && not (has_ended r.status || (r.status is cancelled))

-- The result says whether the row exists.
unfoldable pub cancel_workflow : String → ℕ → Database → Bool × Database
unfolding as_cancelled
cancel_workflow id now db =
    let rows = update_where (is_cancellable id) (as_cancelled now) db.workflow_status in
    (exists (has_id id) rows, record db { workflow_status = rows })

unfoldable pub as_resumed : ℕ → WorkflowRow → WorkflowRow
as_resumed now r = record r {
  status = enqueued;
  queue_name = some internal_queue_name;
  recovery_attempts = 0;
  workflow_deadline_epoch_ms = none;
  deduplication_id = none;
  started_at_epoch_ms = none;
  updated_at = now;
  completed_at = none;
}

unfoldable pub resume_workflow : String → ℕ → Database → Database
unfolding as_resumed
resume_workflow id now db = record db {
  workflow_status =
      update_where (λ r. has_id id r && not (has_ended r.status)) (as_resumed now)
        db.workflow_status;
}

-- DELETE of the rows that pass `p`, with what ON DELETE CASCADE removes: the rows of the other
-- tables that belong to one of them.
unfoldable pub delete_rows : (WorkflowRow → Bool) → Database → Database
delete_rows p db =
    let gone = λ (id : String). exists (λ r. p r && has_id id r) db.workflow_status in
    record {
      workflow_status = delete_where p db.workflow_status;
      operation_outputs = delete_where (λ o. gone o.workflow_uuid) db.operation_outputs;
      notifications = delete_where (λ n. gone n.destination_uuid) db.notifications;
      workflow_events = delete_where (λ e. gone e.workflow_uuid) db.workflow_events;
      workflow_events_history = delete_where (λ e. gone e.workflow_uuid) db.workflow_events_history;
      streams = delete_where (λ s. gone s.workflow_uuid) db.streams;
    }

unfoldable pub delete_workflow : String → Database → Database
unfolding delete_rows
delete_workflow id db = delete_rows (has_id id) db

unfoldable pub get_workflow_children : String → Database → List String
get_workflow_children id db =
    map (λ r. r.workflow_uuid)
      (select (λ r. sql_eq r.parent_workflow_id (some id)) db.workflow_status)

-- `orig` is the status that `get_workflow_status` reads: a NULL column is an empty text there.
unfoldable pub forked_row : ForkInput → String → ℕ → WorkflowRow → WorkflowRow
forked_row input forked_id now orig = record {
  workflow_uuid = forked_id;
  status = enqueued;
  name = orig.name;
  authenticated_user = orig.authenticated_user;
  assumed_role = orig.assumed_role;
  authenticated_roles = orig.authenticated_roles;
  output = none;
  error = none;
  executor_id = none;
  created_at = now;
  updated_at = now;
  application_version =
      some (get_or (or_default orig.application_version) input.application_version);
  application_id = some (or_default orig.application_id);
  class_name = opt (or_default orig.class_name);
  config_name = orig.config_name;
  recovery_attempts = 0;
  queue_name = some (get_or internal_queue_name input.queue_name);
  workflow_timeout_ms = none;
  workflow_deadline_epoch_ms = none;
  inputs = orig.inputs;
  started_at_epoch_ms = none;
  deduplication_id = none;
  priority = 0;
  queue_partition_key = none;
  forked_from = some input.original_workflow_id;
  owner_xid = none;
  parent_workflow_id = none;
  serialization = some (or_default orig.serialization);
  delay_until_epoch_ms = none;
  was_forked_from = false;
  rate_limited = false;
  completed_at = none;
}

unfoldable pub mark_forked : WorkflowRow → WorkflowRow
mark_forked r = record r { was_forked_from = true }

unfoldable pub copy_step : String → OutputRow → OutputRow
copy_step forked_id o = record o { workflow_uuid = forked_id }

abbrev pub is_copied : String → ℤ → OutputRow → Bool
is_copied original start_step o = o.workflow_uuid == original && ltb_ℤ o.function_id start_step

abbrev pub duplicate_row : SqlxError
duplicate_row = database (some "1555")

-- The transaction of a fork, for the row of the original.
unfoldable pub fork_rows : ForkInput → String → ℕ → WorkflowRow → Database → Database
unfolding forked_row mark_forked copy_step
fork_rows input forked_id now orig db = record db {
  workflow_status =
      update_where (has_id input.original_workflow_id) mark_forked
        (insert_row (forked_row input forked_id now orig) db.workflow_status);
  operation_outputs =
      if ltb_ℤ (pos 0) input.start_step
      then db.operation_outputs
        ++ (map (copy_step forked_id)
            (select (is_copied input.original_workflow_id input.start_step) db.operation_outputs))
      else db.operation_outputs;
}

-- `fresh_id` is the id used when the caller gives none.
unfoldable pub fork_workflow : ForkInput → String → ℕ → Database → Result String × Database
unfolding fork_rows
fork_workflow input fresh_id now db =
    let forked_id = get_or fresh_id input.forked_workflow_id in
    if ltb_ℤ input.start_step (pos 0)
    then (
      err (
          Make.new workflow_execution
            (concat ("startStep must be >= 0, got " ∷ decimal_ℤ input.start_step ∷ []))),
      db,
    )
    else elim (first (has_id input.original_workflow_id) db.workflow_status) [
      | none ↦ (err (Make.non_existent_workflow input.original_workflow_id), db)
      | some orig ↦
          if exists (has_id forked_id) db.workflow_status
          then (
            err (
                sql_err "failed to insert forked workflow"
                  "error returned from database: (code: 1555) UNIQUE constraint failed: workflow_status.workflow_uuid"
                  duplicate_row),
            db,
          )
          else (ok forked_id, fork_rows input forked_id now orig db)
    ]

abbrev pub is_old : ℕ → WorkflowRow → Bool
is_old cutoff r = is_terminal r.status && ltb (get_or r.updated_at r.completed_at) cutoff

unfoldable pub collect_old : Option ℕ → Database → ℕ × Database
unfolding delete_rows is_terminal
collect_old none db = (0, db)
collect_old (some cutoff) db =
    (count_where (is_old cutoff) db.workflow_status, delete_rows (is_old cutoff) db)

-- The terminal workflows past the `threshold` newest; a negative OFFSET is none.
unfoldable pub surplus : ℤ → List WorkflowRow → List WorkflowRow
unfolding is_terminal
surplus threshold rows =
    drop (pos_part threshold)
      (order_by (λ a b. leb b.created_at a.created_at) (select (λ r. is_terminal r.status) rows))

unfoldable pub collect_surplus : Option ℤ → Database → ℕ × Database
unfolding delete_rows surplus
collect_surplus none db = (0, db)
collect_surplus (some threshold) db =
    let extra = surplus threshold db.workflow_status in
    let doomed = λ (r : WorkflowRow). exists (has_id r.workflow_uuid) extra in
    (count_where doomed db.workflow_status, delete_rows doomed db)

-- The result is the number of workflows removed.
unfoldable pub garbage_collect : Option ℕ → Option ℤ → Database → ℕ × Database
unfolding collect_old collect_surplus
garbage_collect cutoff threshold db =
    let (old, db') = collect_old cutoff db in
    let (more, db'') = collect_surplus threshold db' in (old + more, db'')

unfoldable pub as_pending : ℕ → WorkflowRow → WorkflowRow
as_pending now r = record r {
  status = pending;
  output = none;
  error = none;
  started_at_epoch_ms = none;
  updated_at = now;
}

unfoldable pub set_workflow_status_pending : String → ℕ → Database → Database
unfolding as_pending
set_workflow_status_pending id now db = record db {
  workflow_status = update_where (has_id id) (as_pending now) db.workflow_status;
}
