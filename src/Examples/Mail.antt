-- ===== src/Examples/Mail.antt =====
-- Messages and events as steps of a workflow.
use dbos_transact_rust.Prelude.{
  ℕ, zero, suc, ◌*◌, pos, String, ◌≡◌, refl, Bool, true, false, Option, none, some, [], ◌∷◌, ◌==◌,
  arith,
}
use dbos_transact_rust.Error.{DbosErrorCode, timeout, workflow_execution, code_eq}
use dbos_transact_rust.Error.Chain.{DbosError, is_code}
use dbos_transact_rust.Status.{pending}
use dbos_transact_rust.Database.{Result, ok, err}
use dbos_transact_rust.Database.Types.{RecordOperationResultInput}
use dbos_transact_rust.Database.Schema.{NotificationRow, Database}
use dbos_transact_rust.SystemDb.Insert.{new_row}
use dbos_transact_rust.SystemDb.Run.{promotes, run, apply}
use dbos_transact_rust.SystemDb.Queue.{transition_delayed_workflows}
use dbos_transact_rust.SystemDb.Steps.{
  record_operation_result, check_operation_execution, check_recorded,
}
use dbos_transact_rust.SystemDb.Comms.{
  get_event, has_unconsumed_notification, consume_oldest_notification, set_event, send_notification,
}
use dbos_transact_rust.Serialization.{
  encode, decode, resolve_encoder, resolve_decoder, json_serializer, portable_serializer,
}
use dbos_transact_rust.Step.{WorkflowState, next_step_id}
use dbos_transact_rust.Step.Sleep.{sleep_end, sleep_input, recorded_end}
use dbos_transact_rust.Messaging.{Meanwhile, resolve_topic, write_once, marked, write_unless}
use dbos_transact_rust.Messaging.Sending.{send}
use dbos_transact_rust.Messaging.Waiting.{Naps, EndsAt, wait_until, wait-EndsAt}
use dbos_transact_rust.Messaging.Receive.{
  Surroundings, outcome, decode_stored, received, recv_by, recv_unless, recv,
}
use dbos_transact_rust.Messaging.Once.{recv_once}
use dbos_transact_rust.Messaging.Events.{got, get_by, get_unless, get_event_step}
use dbos_transact_rust.Messaging.Once.Reads.{get_event_once}
use dbos_transact_rust.Messaging.Once.Writes.{Publication, event, changed, publish, publish_once}
use dbos_transact_rust.Messaging.Delivery.{consume-send}
use dbos_transact_rust.Messaging.TimedOut.{timed_out, recv_timeout_forgotten}
use dbos_transact_rust.Examples.{row_of}
use dbos_transact_rust.Examples.Runs.{
  codecs, codecs-IsFaithful, booleans, booleans-ReadsBack, at_start, running, times,
}
use dbos_transact_rust.Examples.Sleeps.{ticks, morning}

abbrev letter : NotificationRow
letter = record {
  message_uuid = "m1";
  destination_uuid = "w1";
  topic = "__null__topic__";
  message = "true";
  created_at_epoch_ms = 5;
  serialization = some "portable_json";
  consumed = false;
}

abbrev with_letter : Database
with_letter = record running { notifications = letter ∷ [] }

-- Nothing else happens while the call waits.
abbrev quiet : Surroundings
quiet = record {
  start = morning;
  before = λ db. db;
  others = λ k db. db;
  clock = λ k. 50 * k;
  stops = λ k. false;
  late = λ db. db;
  recording = λ db. db;
  fuel = 2;
}

abbrev database_after : Option (Result Bool × Database) → Database
database_after none = running
database_after (some (r, db)) = db

recv_once_example :
    let after =
      database_after
        (recv codecs none booleans ticks false "" 1 "1ms" times quiet at_start with_letter).0 in
    recv codecs none booleans ticks false "" 1 "1ms" times quiet at_start
      (run (promotes 9 ∷ []) after)
    ≡ (some (ok true, run (promotes 9 ∷ []) after), (next_step_id (next_step_id at_start).1).1)
unfolding recv recv_unless recv_by received decode_stored wait_until sleep_end sleep_input
    recorded_end check_operation_execution check_recorded next_step_id record_operation_result
    has_unconsumed_notification consume_oldest_notification resolve_topic resolve_decoder decode run
    apply transition_delayed_workflows new_row json_serializer portable_serializer encode ◌==◌
recv_once_example =
    recv_once codecs none booleans ticks "" 1 1 "1ms" "1ms" times times quiet quiet at_start
      with_letter
      (database_after
        (recv codecs none booleans ticks false "" 1 "1ms" times quiet at_start with_letter).0)
      true (promotes 9 ∷ []) (row_of "w1" pending) refl (tt, tt) refl refl

-- What another workflow has published.
abbrev published : Database
published = record running {
  workflow_events =
      record {
        workflow_uuid = "w2";
        key = "done";
        value = "true";
        serialization = some "portable_json";
      }
      ∷ [];
}

abbrev asked : Database
asked =
    database_after
      (get_event_step codecs none booleans ticks false "w2" "done" 1 times quiet at_start
        published).0

get_event_once_example :
    get_event_step codecs none booleans ticks false "w3" "other" 9 times quiet at_start
      (run (promotes 9 ∷ []) asked)
    ≡ (some (ok true, run (promotes 9 ∷ []) asked), (next_step_id (next_step_id at_start).1).1)
unfolding get_event_step get_unless get_by got get_event decode_stored wait_until sleep_end
    sleep_input recorded_end check_operation_execution check_recorded next_step_id
    record_operation_result resolve_decoder decode run apply transition_delayed_workflows new_row
    json_serializer portable_serializer encode ◌==◌
get_event_once_example =
    get_event_once codecs none booleans ticks "w2" "w3" "done" "other" 1 9 times times quiet quiet
      at_start published asked true (promotes 9 ∷ []) (row_of "w1" pending) refl (tt, tt) refl refl

abbrev quietly : Meanwhile
quietly = record { writing = λ db. db; recording = λ db. db }

publish_once_example :
    let p : Publication Bool = event "done" true in
    let later =
      run (promotes 9 ∷ []) (publish codecs none booleans p times quietly at_start running).0.1 in
    publish codecs none booleans (changed p "over" false) times quietly at_start later
    ≡ ((ok tt, later), (next_step_id at_start).1)
unfolding publish write_once marked write_unless check_operation_execution check_recorded
    next_step_id record_operation_result set_event run apply transition_delayed_workflows new_row
    resolve_encoder portable_serializer encode ◌==◌
publish_once_example =
    publish_once codecs none booleans (event "done" true) "over" false times times quietly quietly
      at_start running (promotes 9 ∷ []) (row_of "w1" pending) refl (tt, tt) refl refl

consume-send_example :
    (text : String) × (tag : String) × ((consume_oldest_notification "w1"
        (resolve_topic "")
        (send codecs none booleans "w1" true "" "m2" 9 running).1).0
      ≡ some (text, tag))
    × (decode_stored codecs none booleans (some text) tag ≡ ok true)
unfolding send send_notification resolve_encoder json_serializer encode resolve_topic new_row ◌==◌
consume-send_example =
    consume-send codecs none booleans "w1" true "" "m2" 9 running codecs-IsFaithful
      booleans-ReadsBack tt refl refl

-- A workflow whose values are not portable.
abbrev plain_start : WorkflowState
plain_start = record at_start { is_portable = false }

abbrev gave_up : RecordOperationResultInput
gave_up = timed_out codecs none booleans plain_start (pos 0) "1ms" times

recv_timeout_forgotten_example :
    let after = (record_operation_result gave_up running).1 in
    (first_error later_error : DbosError) × (received codecs none booleans plain_start
        (pos 0)
        "1ms"
        times
        (none, running)
      ≡ (err first_error, after))
    × (is_code first_error timeout ≡ true)
    × ((recv codecs none booleans ticks false "" 1 "1ms" times quiet plain_start (run [] after)).0
        ≡ some (err later_error, run [] after))
    × ((k : DbosErrorCode) → is_code later_error k ≡ code_eq workflow_execution k)
unfolding next_step_id resolve_encoder json_serializer record_operation_result run new_row outcome
    ◌==◌
recv_timeout_forgotten_example =
    recv_timeout_forgotten codecs none booleans ticks "" 1 "1ms" "1ms" times times quiet plain_start
      running [] (row_of "w1" pending) refl refl tt refl refl

-- A letter that comes during the second nap.
abbrev arrives : ℕ → Database → Database
arrives (suc zero) db = with_letter
arrives k db = db

naps :
    Naps 200 (has_unconsumed_notification "w1" "__null__topic__") arrives (λ k. 50 * k) (λ k. false)
naps k = omega arith

wait-EndsAt_example :
    EndsAt 200
      (has_unconsumed_notification "w1" "__null__topic__")
      arrives
      (λ k. 50 * k)
      (λ k. false)
      0
      running
      (wait_until 200
        (has_unconsumed_notification "w1" "__null__topic__")
        arrives
        (λ k. 50 * k)
        (λ k. false)
        5
        0
        running)
wait-EndsAt_example =
    wait-EndsAt 200 (has_unconsumed_notification "w1" "__null__topic__") arrives (λ k. 50 * k)
      (λ k. false) 4 running naps (omega arith)
