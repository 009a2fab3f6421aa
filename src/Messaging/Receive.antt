-- ===== src/Messaging/Receive.antt =====
-- `recv`, and what it shares with `get_event` (crates/dbos-core/src/workflow/comms.rs).
use dbos_transact_rust.Prelude.{
  ℕ, ℤ, String, Bool, Option, none, some, ◌∷◌, [], concat, if◌then◌else◌,
}
use dbos_transact_rust.Error.{timeout as timeout_code}
use dbos_transact_rust.Error.Chain.{DbosError}
use dbos_transact_rust.Error.Make
use dbos_transact_rust.Database.{Result, ok, err, ◌>>=◌}
use dbos_transact_rust.Database.Types.{RecordOperationResultInput, RecordedResult}
use dbos_transact_rust.Database.Schema.{Database}
use dbos_transact_rust.SystemDb.Insert.{get_or}
use dbos_transact_rust.SystemDb.Steps.{record_operation_result, check_operation_execution}
use dbos_transact_rust.SystemDb.Comms.{has_unconsumed_notification, consume_oldest_notification}
use dbos_transact_rust.Serialization.{
  Codecs, Typed, Serializer, resolve_encoder, resolve_decoder, decode, lift,
  serialize_workflow_error, deserialize_workflow_error,
}
use dbos_transact_rust.Step.{WorkflowState, Times, next_step_id}
use dbos_transact_rust.Step.Sleep.{SleepClock, sleep_end}
use dbos_transact_rust.Messaging.{resolve_topic, within_step_error}
use dbos_transact_rust.Messaging.Waiting.{wait_until}

-- What goes on while a call waits: `others`, `clock` and `stops` are those of the polling loop,
-- `before` is what other executors do while the deadline is recorded, and `late` what they do
-- between the end of the loop and the call's next operation, and `recording` what they do between
-- the taking of a message, or the reading of an event, and its record.
pub record Surroundings : Type 0 where
  pub start : SleepClock
  pub before : Database → Database
  pub others : ℕ → Database → Database
  pub clock : ℕ → ℕ
  pub stops : ℕ → Bool
  pub late : Database → Database
  pub recording : Database → Database
  pub fuel : ℕ

abbrev pub no_deadline : String
no_deadline = "no recorded deadline"

-- What both calls record.
unfoldable pub outcome :
    WorkflowState
    → ℤ
    → String
    → Times
    → Option String
    → Option String
    → String
    → RecordOperationResultInput
outcome s step name times output error serialization = record {
  workflow_id = s.workflow_id;
  step_id = step;
  step_name = name;
  output = output;
  error = error;
  child_workflow_id = none;
  started_at_ms = times.started;
  completed_at_ms = times.completed;
  serialization = serialization;
}

-- The answer once the record is written.
abbrev pub once_recorded {ℓ} :
    {A : Type ℓ} → Result A → Result (Unit {0}) × Database → Result A × Database
once_recorded answer (err e, db) = (err e, db)
once_recorded answer (ok u, db) = (answer, db)

-- The deadline is recorded as the wake time of a sleep is.
abbrev pub durable_deadline_ms :
    {V : Type 0}
    → Codecs V
    → Typed ℕ V
    → WorkflowState
    → ℤ
    → ℕ
    → SleepClock
    → (Database → Database)
    → Database
    → Result ℕ × Database
durable_deadline_ms c ms = sleep_end c ms no_deadline

module _ {R V : Type 0} (c : Codecs V) (custom : Option (Serializer V)) (t : Typed R V) where
  -- A stored value, by the decoder that its tag selects.
  unfoldable pub decode_stored : Option String → String → Result R
  decode_stored output serialization =
      lift (resolve_decoder c serialization custom) >>= λ decoder. decode t decoder output

  unfoldable pub replay_message_with : RecordedResult → Option String → Result R
  unfolding decode_stored
  replay_message_with rec none = decode_stored rec.output rec.serialization
  replay_message_with rec (some err_str) = err (
      get_or (Make.new timeout_code err_str)
        (deserialize_workflow_error c (some err_str) rec.serialization))

  unfoldable pub replay_message : RecordedResult → Result R
  unfolding replay_message_with
  replay_message rec = replay_message_with rec rec.error

  -- `described` is the timeout as `{timeout:?}` prints it.
  unfoldable pub recv_timeout : String → String → DbosError
  recv_timeout id described =
      Make.timeout id "DBOS.recv" (concat ("no message received within " ∷ described ∷ []))

  unfoldable pub received :
      WorkflowState → ℤ → String → Times → Option (String × String) × Database → Result R × Database
  unfolding decode_stored outcome recv_timeout
  received s step described times (some (message, serialization), db) =
      once_recorded (decode_stored (some message) serialization) (
        record_operation_result (outcome s step "DBOS.recv" times (some message) none serialization)
          db)
  received s step described times (none, db) =
      let receiver = (resolve_encoder c s.is_portable custom).name in
      let timed_out = recv_timeout s.workflow_id described in
      once_recorded (err timed_out) (
        record_operation_result
          (outcome s step "DBOS.recv" times none
            (some (serialize_workflow_error c timed_out receiver)) receiver)
          db)

  -- Once the loop has ended.
  abbrev pub consume_in :
      WorkflowState
      → ℤ
      → String
      → String
      → Times
      → Surroundings
      → Option Database
      → Option (Result R × Database)
  consume_in s step topic described times env none = none
  consume_in s step topic described times env (some db) =
      let (message, taken) = consume_oldest_notification s.workflow_id topic (env.late db) in
      some (received s step described times (message, env.recording taken))

  -- Once the deadline is recorded. `none` is a wait that the fuel cut short.
  unfoldable pub recv_by :
      WorkflowState
      → ℤ
      → String
      → String
      → Times
      → Surroundings
      → Result ℕ × Database
      → Option (Result R × Database)
  recv_by s step topic described times env (err e, db) = some (err e, db)
  recv_by s step topic described times env (ok deadline, db) =
      consume_in s step topic described times env (
        wait_until deadline (has_unconsumed_notification s.workflow_id topic) env.others env.clock
          env.stops env.fuel 0 db)

  unfoldable pub recv_unless :
      Typed ℕ V
      → WorkflowState
      → ℤ
      → ℤ
      → String
      → ℕ
      → String
      → Times
      → Surroundings
      → Database
      → Result (Option RecordedResult)
      → Option (Result R × Database)
  recv_unless ms s step sleep_step topic timeout described times env db (err e) = some (err e, db)
  recv_unless ms s step sleep_step topic timeout described times env db (ok (some rec)) =
      some (replay_message rec, db)
  recv_unless ms s step sleep_step topic timeout described times env db (ok none) =
      recv_by s step topic described times env
        (durable_deadline_ms c ms s sleep_step timeout env.start env.before db)

  -- `ms` is how a time, an `i64`, is stored.
  unfoldable pub recv :
      Typed ℕ V
      → Bool
      → String
      → ℕ
      → String
      → Times
      → Surroundings
      → WorkflowState
      → Database
      → Option (Result R × Database) × WorkflowState
  unfolding next_step_id recv_unless resolve_topic
  recv ms within topic timeout described times env s db =
      if within
      then (
        some (
          err (within_step_error s.workflow_id "DBOS.recv" "cannot call Recv within a step"),
          db,
        ),
        s,
      )
      else let (step, s') = next_step_id s in
        let (sleep_step, s'') = next_step_id s' in
        (
          recv_unless ms s step sleep_step (resolve_topic topic) timeout described times env db
              (check_operation_execution s.workflow_id step "DBOS.recv" db),
          s'',
        )
