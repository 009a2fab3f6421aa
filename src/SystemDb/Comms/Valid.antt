-- ===== src/SystemDb/Comms/Valid.antt =====
-- Notifications, events and streams and the invariant of the tables
-- (crates/dbos-core/src/db/sqlite.rs).
use dbos_transact_rust.Prelude.{
  ℕ, ℤ, String, inl, inr, Bool, Option, none, some, List, if◌then◌else◌, Option-cases, Bool-cases,
}
use dbos_transact_rust.Sql.{exists, update_where}
use dbos_transact_rust.Sql.Laws.{All, All-insert_row, All-map}
use dbos_transact_rust.Database.Schema.{NotificationRow, StreamRow, Database}
use dbos_transact_rust.SystemDb.Insert.{has_id}
use dbos_transact_rust.SystemDb.Invariant.{IsValid, Owned}
use dbos_transact_rust.SystemDb.Comms.{
  has_uuid, closes, put_row, send_notification, oldest, as_consumed, consume_oldest_notification,
  set_event, write_stream,
}

notifications-IsValid :
    (ns : List NotificationRow) {db : Database}
    → All (λ n. Owned db.workflow_status n.destination_uuid) ns
    → IsValid db
    → IsValid (record db { notifications = ns })
notifications-IsValid ns h v = record {
  rows_apart = v.rows_apart;
  steps_apart = v.steps_apart;
  steps_owned = v.steps_owned;
  notifications_owned = h;
  events_owned = v.events_owned;
  history_owned = v.history_owned;
  streams_owned = v.streams_owned;
}

pub send_notification-IsValid :
    (dest topic : String) (message : Option String) (serialization message_uuid : String) (now : ℕ)
    {db : Database}
    → IsValid db
    → IsValid (send_notification dest topic message serialization message_uuid now db).1
unfolding send_notification
send_notification-IsValid dest topic none serialization message_uuid now v = v
send_notification-IsValid dest topic (some message) serialization message_uuid now {db} v =
    elim (Bool-cases (exists (has_uuid message_uuid) db.notifications)) [
      | inl t ↦ rw t v
      | inr f ↦ elim (Bool-cases (exists (has_id dest) db.workflow_status)) [
        | inr g ↦ rw f (rw g v)
        | inl t ↦ rw f (
            rw t (
              notifications-IsValid _ (All-insert_row _ _ db.notifications v.notifications_owned t)
                v))
      ]
    ]

mark_consumed-IsValid :
    (n : NotificationRow) {db : Database}
    → IsValid db
    → IsValid (record db {
      notifications = update_where (has_uuid n.message_uuid) as_consumed db.notifications;
    })
unfolding as_consumed
mark_consumed-IsValid n {db} v =
    notifications-IsValid _
      (All-map _ _ _ db.notifications
        (λ m h. elim (Bool-cases (has_uuid n.message_uuid m)) [ inl t ↦ rw t h | inr f ↦ rw f h ])
        v.notifications_owned)
      v

pub consume_oldest_notification-IsValid :
    (dest topic : String) {db : Database}
    → IsValid db
    → IsValid (consume_oldest_notification dest topic db).1
unfolding consume_oldest_notification
consume_oldest_notification-IsValid dest topic {db} v = elim (Option-cases (oldest dest topic db)) [
  | inl e ↦ rw (e, consume_oldest_notification) v
  | inr (n, e) ↦ rw (e, consume_oldest_notification) (mark_consumed-IsValid n v)
]

put_row-All {ℓ κ} :
    {A : Type ℓ} (P : A → Type κ) (p : A → Bool) (f : A → A) (r : A) (rs : List A)
    → ((s : A) → P s → P (f s))
    → P r
    → All P rs
    → All P (put_row p f r rs)
put_row-All P p f r rs keep h all = elim (Bool-cases (exists p rs)) [
  | inr e ↦ rw e (All-insert_row P r rs all h)
  | inl e ↦ rw e (
      All-map P P (λ s. if p s then f s else s) rs
        (λ s k. elim (Bool-cases (p s)) [ inl t ↦ rw t (keep s k) | inr t ↦ rw t k ]) all)
]

pub set_event-IsValid :
    (id : String) (step : ℤ) (key : String) (value : Option String) (serialization : String)
    {db : Database}
    → IsValid db
    → IsValid (set_event id step key value serialization db).1
unfolding set_event
set_event-IsValid id step key none serialization v = v
set_event-IsValid id step key (some value) serialization {db} v =
    elim (Bool-cases (exists (has_id id) db.workflow_status)) [
      | inr f ↦ rw f v
      | inl t ↦ rw t (record {
        rows_apart = v.rows_apart;
        steps_apart = v.steps_apart;
        steps_owned = v.steps_owned;
        notifications_owned = v.notifications_owned;
        events_owned = put_row-All _ _ _ _ db.workflow_events (λ e h. h) t v.events_owned;
        history_owned = put_row-All _ _ _ _ db.workflow_events_history (λ e h. h) t v.history_owned;
        streams_owned = v.streams_owned;
      })
    ]

streams-IsValid :
    (ss : List StreamRow) {db : Database}
    → All (λ s. Owned db.workflow_status s.workflow_uuid) ss
    → IsValid db
    → IsValid (record db { streams = ss })
streams-IsValid ss h v = record {
  rows_apart = v.rows_apart;
  steps_apart = v.steps_apart;
  steps_owned = v.steps_owned;
  notifications_owned = v.notifications_owned;
  events_owned = v.events_owned;
  history_owned = v.history_owned;
  streams_owned = h;
}

pub write_stream-IsValid :
    (id key value : String) (step : ℤ) (serialization : String) {db : Database}
    → IsValid db
    → IsValid (write_stream id key value step serialization db).1
unfolding write_stream
write_stream-IsValid id key value step serialization {db} v =
    elim (Bool-cases (exists (closes id key) db.streams)) [
      | inl t ↦ rw t v
      | inr f ↦ elim (Bool-cases (exists (has_id id) db.workflow_status)) [
        | inr g ↦ rw f (rw g v)
        | inl t ↦
            rw f (rw t (streams-IsValid _ (All-insert_row _ _ db.streams v.streams_owned t) v))
      ]
    ]
