-- ===== src/Debouncer/Slot.antt =====
-- Calls of `debounce` whose slot is held (crates/dbos-core/src/debouncer.rs).
use text.Mathlib.TextLemmas.{append-eq-nil_iff}
use dbos_transact_rust.Prelude.{
  ℕ, ◌+◌, [], String, ◌≡◌, refl, ap, ◌∙◌, true, false, ◌==◌, ==_ne, is_empty, Option, none, some,
}
use dbos_transact_rust.Sql.{first, select}
use dbos_transact_rust.Error.{queue_deduplicated, code_eq}
use dbos_transact_rust.Error.Chain.{is_code}
use dbos_transact_rust.Error.Make
use dbos_transact_rust.Database.{Result, ok, err}
use dbos_transact_rust.Database.Schema.{Database}
use dbos_transact_rust.SystemDb.Insert.{has_id}
use dbos_transact_rust.SystemDb.Queue.{get_deduplicated_workflow}
use dbos_transact_rust.SystemDb.Manage.{internal_queue_name}
use dbos_transact_rust.SystemDb.Comms.{is_unconsumed, consume_oldest_notification}
use dbos_transact_rust.Serialization.Laws.{IsFaithful, ReadsBack, CustomFits}
use dbos_transact_rust.Messaging.{resolve_topic}
use dbos_transact_rust.Messaging.Sending.{send}
use dbos_transact_rust.Messaging.Events.{poll_event}
use dbos_transact_rust.Messaging.Receive.{decode_stored}
use dbos_transact_rust.Messaging.Delivery.{consume-send}
use dbos_transact_rust.Serialization.{Codecs, Serializer, resolve_encoder, encode}
use dbos_transact_rust.Submission.{
  WorkflowEntry, Engine, entry_of, no_flags, validate, workflow_id_of,
}
use dbos_transact_rust.Submission.Deduplicated.{run_workflow_deduplicated}
use dbos_transact_rust.Debouncer.{
  Stored, DebounceMessage, Debouncer, Round, debouncer_topic, ack_timeout, answered, told, dedup_of,
  target_of, started, cycle_options, attach, after_submission, debounce_round,
}

dedup_nonempty : (key : String) → is_empty (dedup_of key) ≡ false
dedup_nonempty key = ==_ne _ "" (λ h. apart (append-eq-nil_iff.0 h).0)
  where
    apart : ◌≡◌ {A = String} "_dbos_debounce_" "" → ⊥
    apart h = absurd (cc h)

slot_code :
    (id queue dedup : String)
    → is_code (Make.queue_deduplicated id queue dedup) queue_deduplicated ≡ true
unfolding is_code Make.queue_deduplicated code_eq
slot_code id queue dedup = refl

-- The submission is refused, and the round attaches.
round_attaches :
    {P V : Type 0} (c : Codecs V) (custom : Option (Serializer V)) (stored : Stored P V)
    (debouncer : Debouncer) (key : String) (delay : ℕ) (input : P) (r : Round) (engine : Engine)
    (db : Database) (entry : WorkflowEntry) (encoded : Option String) (existing : String)
    → entry_of debouncer.internal_name engine.registry ≡ some entry
    → encode stored.starts (resolve_encoder c false custom) (started debouncer delay input r)
      ≡ ok encoded
    → first (has_id r.internal_id) db.workflow_status ≡ none
    → get_deduplicated_workflow internal_queue_name (dedup_of key) db ≡ some existing
    → debounce_round c custom stored debouncer key delay input r engine db
      ≡ attach c custom stored delay input (target_of r) r engine db (some existing)
unfolding debounce_round after_submission cycle_options validate workflow_id_of ◌==◌
round_attaches c custom stored debouncer key delay input r engine db entry encoded existing e k n
      h =
    let tag = (resolve_encoder c false custom).name in
    rw k (
      ap (after_submission c custom stored (dedup_of key) delay input (target_of r) r) (
        run_workflow_deduplicated engine debouncer.internal_name entry encoded tag
          internal_queue_name (dedup_of key) existing r.draws.fresh_id r.draws.owner_xid
          (cycle_options r.internal_id (dedup_of key)) no_flags none r.draws.clock db e refl refl
          refl refl (dedup_nonempty key) n h)
      ∙ rw (slot_code r.internal_id internal_queue_name (dedup_of key)) (rw h refl))

-- What a call sends to the holder of its slot.
abbrev pub debounced : {P : Type 0} → ℕ → P → Round → DebounceMessage P
debounced delay input r = record { input = input; delay_ms = delay; id = r.message_id }

module _ {P V : Type 0} (c : Codecs V) (custom : Option (Serializer V)) (stored : Stored P V) where
  told_ok :
      (existing target_id : String) (r : Round) (engine : Engine) (q : Result (Unit {0}) × Database)
      → q.0 ≡ ok tt
      → told c custom stored existing target_id r engine q
        ≡ answered c custom stored existing target_id engine (
            poll_event c custom stored.answers existing r.message_id
              (r.waits_from + ack_timeout)
              r.others
              r.clock
              r.stops
              r.fuel
              0
              q.1)
  told_ok existing target_id r engine (ok u, db) h = refl
  told_ok existing target_id r engine (err e, db) h = absurd (cc h)

-- While another call of the key holds the slot, a call of `debounce` submits nothing and its input
-- reaches the holder: the database that the round goes on with is the one it found with one message
-- more, which is the next that the holder takes from the debouncer's topic, with the input, the
-- delay and the id of the message that the call gave it; and the round then waits for the holder's
-- answer under that id. The internal workflow is registered, the call's input can be stored, the id
-- that the call has drawn is new, the message can be sent and no other waits for the holder;
-- `serde_json` and base64 are faithful, messages are read back as they were written, and a custom
-- serializer reads back what it wrote and is not named `portable_json`.
pub debounce_round_attaches :
    {P V : Type 0} (c : Codecs V) (custom : Option (Serializer V)) (stored : Stored P V)
    (debouncer : Debouncer) (key : String) (delay : ℕ) (input : P) (r : Round) (engine : Engine)
    (db : Database) (entry : WorkflowEntry) (encoded : Option String) (existing : String)
    → entry_of debouncer.internal_name engine.registry ≡ some entry
    → encode stored.starts (resolve_encoder c false custom) (started debouncer delay input r)
      ≡ ok encoded
    → first (has_id r.internal_id) db.workflow_status ≡ none
    → get_deduplicated_workflow internal_queue_name (dedup_of key) db ≡ some existing
    → IsFaithful V c
    → ReadsBack stored.messages
    → CustomFits custom
    → select (is_unconsumed existing (resolve_topic debouncer_topic)) db.notifications ≡ []
    → let q =
        send c custom stored.messages existing
          (debounced delay input r)
          debouncer_topic
          r.message_uuid
          r.sent_at
          db in
      q.0 ≡ ok tt
      → (debounce_round c custom stored debouncer key delay input r engine db
          ≡ answered c custom stored existing (target_of r) engine (
              poll_event c custom stored.answers existing r.message_id
                (r.waits_from + ack_timeout)
                r.others
                r.clock
                r.stops
                r.fuel
                0
                q.1))
        × ((text : String) × (tag : String) × ((consume_oldest_notification existing
                (resolve_topic debouncer_topic)
                q.1).0
              ≡ some (text, tag))
            × (decode_stored c custom stored.messages (some text) tag
                ≡ ok (debounced delay input r)))
unfolding attach
debounce_round_attaches c custom stored debouncer key delay input r engine db entry encoded existing
      e k n h f b fits alone sends =
    (
      round_attaches c custom stored debouncer key delay input r engine db entry encoded existing e
            k n h
          ∙ told_ok c custom stored existing (target_of r) r engine _ sends,
      consume-send c custom stored.messages existing (debounced delay input r) debouncer_topic
          r.message_uuid r.sent_at db f b fits alone sends,
    )
