-- ===== src/Examples/Debounces.antt =====
-- Calls of a debouncer for one document.
use dbos_transact_rust.Prelude.{
  ℕ, ◌+◌, ◌*◌, pos, String, ◌≡◌, refl, subst, ◌&&◌, ==_iff, if◌then◌else◌, ◌⊎◌, Bool-cases, leb,
  Bool, true, false, inr, inl, none, some, [], ◌∷◌, ◌==◌, arith,
}
use dbos_transact_rust.Error.Make
use dbos_transact_rust.Status.{enqueued}
use dbos_transact_rust.Database.{ok, err}
use dbos_transact_rust.Database.Schema.{WorkflowRow}
use dbos_transact_rust.SystemDb.Insert.{new_row}
use dbos_transact_rust.SystemDb.Queue.{get_deduplicated_workflow}
use dbos_transact_rust.SystemDb.Manage.{internal_queue_name}
use dbos_transact_rust.Serialization.{Typed, json_serializer, resolve_encoder, encode}
use dbos_transact_rust.Submission.{
  RunOptions, Engine, return_existing, default_options, no_flags, validate, workflow_id_of,
  run_workflow_erased,
}
use dbos_transact_rust.Submission.Deduplicated.{run_workflow_deduplicated}
use dbos_transact_rust.Serialization.Laws.{ReadsBack}
use dbos_transact_rust.SystemDb.Comms.{send_notification, consume_oldest_notification}
use dbos_transact_rust.Messaging.{resolve_topic}
use dbos_transact_rust.Messaging.Sending.{send}
use dbos_transact_rust.Messaging.Events.{poll_event}
use dbos_transact_rust.Messaging.Receive.{decode_stored}
use dbos_transact_rust.Debouncer.{
  Debouncer, Stored, Round, dedup_of, DebounceMessage, debouncer_topic, ack_timeout, answered,
  target_of, debounce_round,
}
use dbos_transact_rust.Debouncer.Slot.{debounced, debounce_round_attaches}
use dbos_transact_rust.Examples.{row_of, database_of}
use dbos_transact_rust.Examples.Runs.{Value, nil, yes, no, codecs, codecs-IsFaithful, booleans}
use dbos_transact_rust.Examples.Submissions.{engine_of}

-- Messages that ask for a delay of 3 and an answer under `m2`.
abbrev message_of : Bool → DebounceMessage Bool
message_of b = record { input = b; delay_ms = 3; id = "m2" }

abbrev message_value : DebounceMessage Bool → String ⊎ Value
message_value m =
    if leb m.delay_ms 3 && leb 3 m.delay_ms && m.id == "m2"
    then inr (if m.input then yes else no)
    else inl "not stored"

abbrev value_message : Value → String ⊎ DebounceMessage Bool
value_message nil = inl "expected a message"
value_message yes = inr (message_of true)
value_message no = inr (message_of false)

abbrev messages : Typed (DebounceMessage Bool) Value
messages = record { to_value = message_value; from_value = value_message }

value_same : (a v : Value) → ◌≡◌ {A = String ⊎ Value} (inr a) (inr v) → a ≡ v
value_same a v h = cc h

of_message :
    (b : Bool) (v : Value)
    → ◌≡◌ {A = String ⊎ Value} (inr (if b then yes else no)) (inr v)
    → value_message v ≡ inr (message_of b)
of_message true v h = subst (λ w. value_message w ≡ inr (message_of true)) (value_same yes v h) refl
of_message false v h =
    subst (λ w. value_message w ≡ inr (message_of false)) (value_same no v h) refl

reads_message :
    (b : Bool) (n : ℕ) (i : String) (v : Value)
    → message_value (record { input = b; delay_ms = n; id = i }) ≡ inr v
    → value_message v ≡ inr (record { input = b; delay_ms = n; id = i })
unfolding ◌==◌
reads_message b n i v = elim (Bool-cases (leb n 3 && leb 3 n && i == "m2")) [
  | inl t ↦
      let p : n ≡ 3 = ground arith in
      let q : i ≡ "m2" = ground (arith, ==_iff i "m2") in rw (p, q) (of_message b v)
  | inr f ↦ rw f (λ h. absurd (cc h))
]

messages-ReadsBack : ReadsBack messages
messages-ReadsBack m v h = reads_message m.input m.delay_ms m.id v h

abbrev stored : Stored Bool Value
stored = record {
  inputs = booleans;
  starts = record { to_value = λ d. inr yes; from_value = λ v. inl "unread" };
  messages = messages;
  answers = booleans;
  moments = record { to_value = λ d. inr yes; from_value = λ v. inr 0 };
}

abbrev saver : Debouncer
saver = record { target_workflow_name = "save"; internal_name = "i"; timeout = 5 }

abbrev saving : Engine
saving = record (engine_of "e1") {
  registry =
      ("i", record { name = "i"; max_retries = pos 3; class_name = ""; config_name = none }) ∷ [];
}

abbrev holder : WorkflowRow
holder = record (row_of "i1" enqueued) {
  queue_name = some internal_queue_name;
  deduplication_id = some (dedup_of "doc");
}

abbrev attempt : Round
attempt = record {
  internal_id = "i2";
  target_uuid = "t2";
  message_id = "m2";
  message_uuid = "n2";
  draws = record { fresh_id = "u"; owner_xid = "o"; clock = λ k. 50 + k };
  sent_at = 60;
  waits_from = 61;
  others = λ k db. db;
  clock = λ k. 61 + 50 * k;
  stops = λ k. false;
  fuel = 50;
}

debounce_round_attaches_example :
    let q =
      send codecs none stored.messages "i1"
        (debounced 3 true attempt)
        debouncer_topic
        "n2"
        60
        (database_of (holder ∷ [])) in
    (debounce_round codecs none stored saver "doc" 3 true attempt saving (database_of (holder ∷ []))
      ≡ answered codecs none stored "i1" (target_of attempt) saving (
          poll_event codecs none stored.answers "i1" "m2"
            (61 + ack_timeout)
            attempt.others
            attempt.clock
            attempt.stops
            50
            0
            q.1))
    × ((text : String) × (tag : String) × ((consume_oldest_notification "i1"
            (resolve_topic debouncer_topic)
            q.1).0
          ≡ some (text, tag))
        × (decode_stored codecs none stored.messages (some text) tag
            ≡ ok (debounced 3 true attempt)))
unfolding encode resolve_encoder json_serializer get_deduplicated_workflow send send_notification
    resolve_topic new_row ◌==◌
debounce_round_attaches_example =
    debounce_round_attaches codecs none stored saver "doc" 3 true attempt saving
      (database_of (holder ∷ []))
      (record { name = "i"; max_retries = pos 3; class_name = ""; config_name = none })
      (some "true") "i1" refl refl refl refl codecs-IsFaithful messages-ReadsBack tt refl refl

-- The policy asks for the existing workflow.
abbrev lenient : RunOptions
lenient = record default_options {
  workflow_id = some "w5";
  queue = some internal_queue_name;
  deduplication_id = some (dedup_of "doc");
  deduplication_policy = return_existing;
}

run_workflow_deduplicated_example :
    run_workflow_erased saving "i" none "DBOS_JSON" lenient no_flags none "u" "o"
      (λ k. 50 + k)
      (database_of (holder ∷ []))
    ≡ (
      err (Make.queue_deduplicated "w5" internal_queue_name (dedup_of "doc")),
      saving,
      database_of (holder ∷ []),
    )
unfolding validate workflow_id_of get_deduplicated_workflow new_row ◌==◌
run_workflow_deduplicated_example =
    run_workflow_deduplicated saving "i"
      (record { name = "i"; max_retries = pos 3; class_name = ""; config_name = none }) none
      "DBOS_JSON" internal_queue_name (dedup_of "doc") "i1" "u" "o" lenient no_flags none
      (λ k. 50 + k) (database_of (holder ∷ [])) refl refl refl refl refl refl refl refl
