-- ===== src/Messaging/Delivery.antt =====
-- A message from `send` to the receiver (crates/dbos-core/src/workflow/comms.rs).
use dbos_transact_rust.Prelude.{
  ℕ, String, ◌≡◌, refl, ap, ◌∙◌, Bool, true, false, ==_refl, Option, none, some, [], Bool-cases,
  inl, inr, arith,
}
use dbos_transact_rust.Sql.{select, exists, insert_row}
use dbos_transact_rust.Database.{Result, ok, err, ◌>>=◌}
use dbos_transact_rust.Database.Schema.{Database, NotificationRow}
use dbos_transact_rust.SystemDb.Insert.{has_id}
use dbos_transact_rust.SystemDb.Comms.{
  has_uuid, is_unconsumed, send_notification, oldest, consume_oldest_notification,
}
use dbos_transact_rust.SystemDb.Comms.Laws.{select-insert_row}
use dbos_transact_rust.SystemDb.Comms.Laws.Oldest.{consume_some}
use dbos_transact_rust.Serialization.{
  Codecs, Typed, Serializer, encode, decode, resolve_encoder, lift,
}
use dbos_transact_rust.Serialization.Laws.{IsFaithful, ReadsBack, CustomFits, decode-encode}
use dbos_transact_rust.Messaging.{resolve_topic, encoded_or}
use dbos_transact_rust.Messaging.Sending.{send}
use dbos_transact_rust.Messaging.Receive.{decode_stored}

module _ {P V : Type 0} (c : Codecs V) (custom : Option (Serializer V)) (t : Typed P V)
    (f : IsFaithful V c) (b : ReadsBack t) (fits : CustomFits custom) where
  -- A value that is stored under its encoder's name is decoded as it was.
  pub decode_stored-encode :
      (is_portable : Bool) (v : P) (s : Option String)
      → encode t (resolve_encoder c is_portable custom) v ≡ ok s
      → decode_stored c custom t s (resolve_encoder c is_portable custom).name ≡ ok v
  unfolding decode_stored
  decode_stored-encode is_portable v s e =
      let (decoder, r, d) = decode-encode c t is_portable custom v s f b fits e in
      ap (λ x. lift x >>= λ (decoder : Serializer V). decode t decoder s) r ∙ d

module _ (dest topic text tag uuid : String) (now : ℕ) where
  abbrev sent : NotificationRow
  sent = record {
    message_uuid = uuid;
    destination_uuid = dest;
    topic = topic;
    message = text;
    created_at_epoch_ms = now;
    serialization = some tag;
    consumed = false;
  }

  sent-waits : is_unconsumed dest topic sent ≡ true
  sent-waits = ground (arith, ==_refl dest, ==_refl topic)

  -- The only message that waits is the one that is taken.
  consume-insert :
      (db : Database)
      → select (is_unconsumed dest topic) db.notifications ≡ []
      → (consume_oldest_notification dest topic
          (record db { notifications = insert_row sent db.notifications })).0
        ≡ some (text, tag)
  consume-insert db e =
      ap (λ q. q.0)
        (consume_some dest topic (record db { notifications = insert_row sent db.notifications })
          sent only)
    where
      only :
          oldest dest topic (record db { notifications = insert_row sent db.notifications })
          ≡ some sent
      only =
          unfold oldest in
          rw (select-insert_row (is_unconsumed dest topic) sent db.notifications e sent-waits) refl

  abbrev Taken : Result (Unit {0}) × Database → Type 0
  Taken (ok u, after) = (consume_oldest_notification dest topic after).0 ≡ some (text, tag)
  Taken (err e, after) = Unit

  send-Taken :
      (db : Database)
      → select (is_unconsumed dest topic) db.notifications ≡ []
      → Taken (send_notification dest topic (some text) tag uuid now db)
  unfolding send_notification
  send-Taken db e = elim (Bool-cases (exists (has_uuid uuid) db.notifications)) [
    | inl d ↦ rw d tt
    | inr u ↦ elim (Bool-cases (exists (has_id dest) db.workflow_status)) [
      | inl h ↦ rw u (rw h (consume-insert db e))
      | inr n ↦ rw u (rw n tt)
    ]
  ]

  of_Taken : (q : Result (Unit {0}) × Database) → Taken q → q.0 ≡ ok tt → Taken (ok tt, q.1)
  of_Taken (ok u, after) k h = k
  of_Taken (err e, after) k h = absurd (cc h)

-- A message that is sent is received: when a `send` succeeded and no other message waited for the
-- workflow under the topic, the next message that is taken there decodes, under the tag that is
-- stored with it, to what was sent. `serde_json` and base64 are faithful, and a custom serializer
-- reads back what it wrote and is not named `portable_json`.
pub consume-send :
    {P V : Type 0} (c : Codecs V) (custom : Option (Serializer V)) (t : Typed P V) (dest : String)
    (message : P) (topic uuid : String) (now : ℕ) (db : Database)
    → IsFaithful V c
    → ReadsBack t
    → CustomFits custom
    → select (is_unconsumed dest (resolve_topic topic)) db.notifications ≡ []
    → (send c custom t dest message topic uuid now db).0 ≡ ok tt
    → (text : String) × (tag : String) × ((consume_oldest_notification dest
          (resolve_topic topic)
          (send c custom t dest message topic uuid now db).1).0
        ≡ some (text, tag))
      × (decode_stored c custom t (some text) tag ≡ ok message)
unfolding send send_notification
consume-send c custom t dest message topic uuid now db f b fits e =
    of_encoded (encode t (resolve_encoder c false custom) message) refl
  where
    of_encoded :
        (x : Result (Option String))
        → encode t (resolve_encoder c false custom) message ≡ x
        → let q =
            encoded_or x
              (λ encoded.
                send_notification dest
                  (resolve_topic topic)
                  encoded
                  (resolve_encoder c false custom).name
                  uuid
                  now)
              db in
          q.0 ≡ ok tt
          → (text : String) × (tag : String) × ((consume_oldest_notification dest
                (resolve_topic topic)
                q.1).0
              ≡ some (text, tag))
            × (decode_stored c custom t (some text) tag ≡ ok message)
    of_encoded (err d) k h = absurd (cc h)
    of_encoded (ok none) k h = absurd (cc h)
    of_encoded (ok (some text)) k h = (
      text,
      (resolve_encoder c false custom).name,
      of_Taken dest (resolve_topic topic) text (resolve_encoder c false custom).name uuid now
          (send_notification dest (resolve_topic topic) (some text)
            (resolve_encoder c false custom).name uuid now db)
          (send-Taken dest (resolve_topic topic) text (resolve_encoder c false custom).name uuid now
            db e)
          h,
      decode_stored-encode c custom t f b fits false message (some text) k,
    )
