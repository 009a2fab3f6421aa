-- ===== src/Messaging.antt =====
-- Messages, events and streams as durable steps (crates/dbos-core/src/workflow/comms.rs): what a
-- workflow publishes. `Sending` is what it sends, `Waiting` the polling loop, `Receive` the
-- receiving side.
pub mod Sending
pub mod Waiting
pub mod Receive
pub mod Events
pub mod Once
pub mod Delivery
pub mod TimedOut
use dbos_transact_rust.Prelude.{
  ℕ, ℤ, pos, String, Bool, false, is_empty, Option, none, some, List, [], ◌∷◌, if◌then◌else◌,
}
use dbos_transact_rust.Error.Chain.{DbosError, foreign}
use dbos_transact_rust.Error.Make
use dbos_transact_rust.Database.{Result, ok, err, ◌>>=◌, or_default}
use dbos_transact_rust.Database.Types.{RecordOperationResultInput, RecordedResult}
use dbos_transact_rust.Database.Schema.{Database}
use dbos_transact_rust.SystemDb.Steps.{record_operation_result, check_operation_execution}
use dbos_transact_rust.SystemDb.Comms.{
  send_notification, set_event, write_stream, read_stream, stream_closed_sentinel,
}
use dbos_transact_rust.Serialization.{
  Codecs, Typed, Serializer, resolve_encoder, resolve_decoder, encode, decode, lift,
  json_serializer_name,
}
use dbos_transact_rust.Step.{WorkflowState, StepCtx, Body, Times, next_step_id, run_step}

abbrev pub null_topic : String
null_topic = "__null__topic__"

unfoldable pub resolve_topic : String → String
resolve_topic topic = if is_empty topic then null_topic else topic

abbrev pub within_step_error : String → String → String → DbosError
within_step_error id name text = Make.step_execution id name text (foreign text)

-- The record of a step that stores no value.
unfoldable pub mark : WorkflowState → ℤ → String → Times → String → RecordOperationResultInput
mark s step name times serialization = record {
  workflow_id = s.workflow_id;
  step_id = step;
  step_name = name;
  output = none;
  error = none;
  child_workflow_id = none;
  started_at_ms = times.started;
  completed_at_ms = times.completed;
  serialization = serialization;
}

unfoldable pub marked :
    WorkflowState
    → ℤ
    → String
    → Times
    → String
    → Result (Unit {0}) × Database
    → Result (Unit {0}) × Database
unfolding mark
marked s step name times serialization (err e, db) = (err e, db)
marked s step name times serialization (ok u, db) =
    record_operation_result (mark s step name times serialization) db

-- What other executors do between the check of a step and its write, and between the write and the
-- record.
pub record Meanwhile : Type 0 where
  pub writing : Database → Database
  pub recording : Database → Database

-- What `set_event`, `write_stream` and `close_stream` do once their step id is taken: nothing if
-- the step is recorded, else the write and its record. `others` is what other executors do
-- meanwhile.
unfoldable pub write_unless :
    WorkflowState
    → ℤ
    → String
    → Times
    → String
    → Meanwhile
    → (Database → Result (Unit {0}) × Database)
    → Database
    → Result (Option RecordedResult)
    → Result (Unit {0}) × Database
unfolding marked
write_unless s step name times serialization others write db (err e) = (err e, db)
write_unless s step name times serialization others write db (ok (some r)) = (ok tt, db)
write_unless s step name times serialization others write db (ok none) =
    let (r, written) = write (others.writing db) in
    marked s step name times serialization (r, others.recording written)

unfoldable pub write_once :
    WorkflowState
    → ℤ
    → String
    → Times
    → String
    → Meanwhile
    → (Database → Result (Unit {0}) × Database)
    → Database
    → Result (Unit {0}) × Database
unfolding write_unless
write_once s step name times serialization others write db =
    write_unless s step name times serialization others write db
      (check_operation_execution s.workflow_id step name db)

-- A write of a value that may fail to encode.
abbrev pub encoded_or {ℓ} :
    {A : Type ℓ}
    → Result (Option String)
    → (Option String → Database → Result A × Database)
    → Database
    → Result A × Database
encoded_or (err e) write db = (err e, db)
encoded_or (ok encoded) write db = write encoded db

unfoldable pub close_stream :
    Bool
    → String
    → Times
    → Meanwhile
    → WorkflowState
    → Database
    → (Result (Unit {0}) × Database) × WorkflowState
unfolding next_step_id write_once
close_stream within key times others s db =
    if within
    then (
      (
        err (
            within_step_error s.workflow_id "DBOS.closeStream"
              "cannot call CloseStream within a step"),
        db,
      ),
      s,
    )
    else let (step, s') = next_step_id s in
      (
        write_once s step "DBOS.closeStream" times json_serializer_name others
            (write_stream s.workflow_id key stream_closed_sentinel step json_serializer_name) db,
        s',
      )

module _ {P V : Type 0} (c : Codecs V) (custom : Option (Serializer V)) (t : Typed P V) where
  unfoldable pub set_event_step :
      Bool
      → String
      → P
      → Times
      → Meanwhile
      → WorkflowState
      → Database
      → (Result (Unit {0}) × Database) × WorkflowState
  unfolding next_step_id write_once
  set_event_step within key message times others s db =
      if within
      then (
        (
          err (
              within_step_error s.workflow_id "DBOS.setEvent" "cannot call SetEvent within a step"),
          db,
        ),
        s,
      )
      else let encoder = resolve_encoder c s.is_portable custom in
        let (step, s') = next_step_id s in
        (
          write_once s step "DBOS.setEvent" times encoder.name others
              (encoded_or (encode t encoder message)
                (λ encoded. set_event s.workflow_id step key encoded encoder.name))
              db,
          s',
        )

  unfoldable pub write_stream_raw :
      Bool
      → String
      → P
      → String
      → Times
      → Meanwhile
      → WorkflowState
      → Database
      → (Result (Unit {0}) × Database) × WorkflowState
  unfolding next_step_id write_once
  write_stream_raw within key value name times others s db =
      if within
      then (
        (err (within_step_error s.workflow_id name "cannot write to a stream within a step"), db),
        s,
      )
      else let encoder = resolve_encoder c s.is_portable custom in
        let (step, s') = next_step_id s in
        (
          write_once s step name times json_serializer_name others
              (encoded_or (encode t encoder value)
                (λ encoded. write_stream s.workflow_id key (or_default encoded) step encoder.name))
              db,
          s',
        )

  -- `write_stream` of a workflow.
  abbrev pub write_stream_step :
      Bool
      → String
      → P
      → Times
      → Meanwhile
      → WorkflowState
      → Database
      → (Result (Unit {0}) × Database) × WorkflowState
  write_stream_step within key value = write_stream_raw within key value "DBOS.writeStream"
