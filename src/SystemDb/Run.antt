-- ===== src/SystemDb/Run.antt =====
-- The whole interface: every operation of `SystemDatabase` that writes the modelled tables, and
-- histories of them: a history is a sequence of operations, by any executors, none of which is
-- interleaved with another.
pub mod Moves
pub mod Follows
use dbos_transact_rust.Prelude.{ℕ, ℤ, String, Option, List, [], ◌∷◌}
use dbos_transact_rust.Status.{WorkflowStatusType}
use dbos_transact_rust.Database.Types.{
  InsertWorkflowStatusInput, RecordOperationResultInput, ForkInput, DequeueInput,
}
use dbos_transact_rust.Database.Schema.{Database}
use dbos_transact_rust.SystemDb.Insert.{insert_workflow_status}
use dbos_transact_rust.SystemDb.Insert.Valid.{insert_workflow_status-IsValid}
use dbos_transact_rust.SystemDb.Outcome.{update_workflow_outcome}
use dbos_transact_rust.SystemDb.Outcome.Valid.{update_workflow_outcome-IsValid}
use dbos_transact_rust.SystemDb.Steps.{record_operation_result}
use dbos_transact_rust.SystemDb.Steps.Valid.{record_operation_result-IsValid}
use dbos_transact_rust.SystemDb.Queue.{
  clear_queue_assignment, dequeue_workflows, transition_delayed_workflows,
}
use dbos_transact_rust.SystemDb.Queue.Valid.{
  clear_queue_assignment-IsValid, dequeue_workflows-IsValid, transition_delayed_workflows-IsValid,
}
use dbos_transact_rust.SystemDb.Manage.{
  cancel_workflow, resume_workflow, delete_workflow, fork_workflow, garbage_collect,
  set_workflow_status_pending,
}
use dbos_transact_rust.SystemDb.Manage.Valid.{
  cancel_workflow-IsValid, resume_workflow-IsValid, delete_workflow-IsValid,
  garbage_collect-IsValid, set_workflow_status_pending-IsValid,
}
use dbos_transact_rust.SystemDb.Manage.Fork.{fork_workflow-IsValid}
use dbos_transact_rust.SystemDb.Comms.{
  send_notification, consume_oldest_notification, set_event, write_stream,
}
use dbos_transact_rust.SystemDb.Comms.Valid.{
  send_notification-IsValid, consume_oldest_notification-IsValid, set_event-IsValid,
  write_stream-IsValid,
}
use dbos_transact_rust.SystemDb.Invariant.{IsValid}

pub data Op : Type 0 where
  inserts : InsertWorkflowStatusInput → ℕ → Op
  finishes : String → WorkflowStatusType → Option String → String → ℕ → ℕ → Op
  records : RecordOperationResultInput → Op
  clears : String → Op
  dequeues : DequeueInput → (ℕ → ℕ) → Op
  promotes : ℕ → Op
  cancels : String → ℕ → Op
  resumes : String → ℕ → Op
  deletes : String → Op
  forks : ForkInput → String → ℕ → Op
  collects : Option ℕ → Option ℤ → Op
  resets : String → ℕ → Op
  sends : String → String → Option String → String → String → ℕ → Op
  consumes : String → String → Op
  sets_event : String → ℤ → String → Option String → String → Op
  writes_stream : String → String → String → ℤ → String → Op

unfoldable pub apply : Op → Database → Database
apply (inserts input now) db = (insert_workflow_status input now db).1
apply (finishes id status output err_str u c) db =
    update_workflow_outcome id status output err_str u c db
apply (records input) db = (record_operation_result input db).1
apply (clears id) db = (clear_queue_assignment id db).1
apply (dequeues input clock) db = (dequeue_workflows input clock db).1
apply (promotes now) db = transition_delayed_workflows now db
apply (cancels id now) db = (cancel_workflow id now db).1
apply (resumes id now) db = resume_workflow id now db
apply (deletes id) db = delete_workflow id db
apply (forks input fresh_id now) db = (fork_workflow input fresh_id now db).1
apply (collects cutoff threshold) db = (garbage_collect cutoff threshold db).1
apply (resets id now) db = set_workflow_status_pending id now db
apply (sends dest topic message serialization uuid now) db =
    (send_notification dest topic message serialization uuid now db).1
apply (consumes dest topic) db = (consume_oldest_notification dest topic db).1
apply (sets_event id step key value serialization) db =
    (set_event id step key value serialization db).1
apply (writes_stream id key value step serialization) db =
    (write_stream id key value step serialization db).1

unfoldable pub run : List Op → Database → Database
unfolding apply
run [] db = db
run (op ∷ ops) db = run ops (apply op db)

-- The tables after the migration.
abbrev pub migrated : Database
migrated = record {
  workflow_status = [];
  operation_outputs = [];
  notifications = [];
  workflow_events = [];
  workflow_events_history = [];
  streams = [];
}

pub apply-IsValid : (op : Op) {db : Database} → IsValid db → IsValid (apply op db)
unfolding apply
apply-IsValid (inserts input now) {db} v = insert_workflow_status-IsValid input now db v
apply-IsValid (finishes id status output err_str u c) v =
    update_workflow_outcome-IsValid id status output err_str u c v
apply-IsValid (records input) v = record_operation_result-IsValid input v
apply-IsValid (clears id) v = clear_queue_assignment-IsValid id v
apply-IsValid (dequeues input clock) v = dequeue_workflows-IsValid input clock v
apply-IsValid (promotes now) v = transition_delayed_workflows-IsValid now v
apply-IsValid (cancels id now) v = cancel_workflow-IsValid id now v
apply-IsValid (resumes id now) v = resume_workflow-IsValid id now v
apply-IsValid (deletes id) v = delete_workflow-IsValid id v
apply-IsValid (forks input fresh_id now) v = fork_workflow-IsValid input fresh_id now v
apply-IsValid (collects cutoff threshold) v = garbage_collect-IsValid cutoff threshold v
apply-IsValid (resets id now) v = set_workflow_status_pending-IsValid id now v
apply-IsValid (sends dest topic message serialization uuid now) v =
    send_notification-IsValid dest topic message serialization uuid now v
apply-IsValid (consumes dest topic) v = consume_oldest_notification-IsValid dest topic v
apply-IsValid (sets_event id step key value serialization) v =
    set_event-IsValid id step key value serialization v
apply-IsValid (writes_stream id key value step serialization) v =
    write_stream-IsValid id key value step serialization v

run-IsValid : (ops : List Op) {db : Database} → IsValid db → IsValid (run ops db)
unfolding run
run-IsValid [] v = v
run-IsValid (op ∷ ops) v = run-IsValid ops (apply-IsValid op v)

migrated-IsValid : IsValid migrated
migrated-IsValid = record {
  rows_apart = tt;
  steps_apart = tt;
  steps_owned = tt;
  notifications_owned = tt;
  events_owned = tt;
  history_owned = tt;
  streams_owned = tt;
}

-- After any history of operations on a migrated database, workflow ids are unique, a
-- deduplication slot has at most one holder, a step id of a workflow is recorded at most once,
-- and every step, notification, event and stream entry belongs to a workflow that exists.
pub run-migrated-IsValid : (ops : List Op) → IsValid (run ops migrated)
run-migrated-IsValid ops = run-IsValid ops migrated-IsValid
