-- ===== src/SystemDb/Comms.antt =====
-- Notifications, events and streams (crates/dbos-core/src/db/sqlite.rs).
pub mod Valid
pub mod Laws
use dbos_transact_rust.Prelude.{
  ℕ, zero, suc, ◌+◌, ℤ, pos, eq_ℤ, leb_ℤ, ltb, leb, String, Bool, true, false, not, ◌&&◌, ◌==◌,
  Option, none, some, List, [], ◌∷◌, concat, if◌then◌else◌,
}
use dbos_transact_rust.Error.{workflow_execution}
use dbos_transact_rust.Error.Chain.{DbosError, SqlxError, database}
use dbos_transact_rust.Error.Make
use dbos_transact_rust.Sql.{update_where, select, exists, first, insert_row, order_by}
use dbos_transact_rust.Database.{Result, ok, err, sql_err, foreign_key_violation, or_default}
use dbos_transact_rust.Database.Schema.{
  WorkflowRow, NotificationRow, EventRow, EventHistoryRow, StreamRow, Database,
}
use dbos_transact_rust.SystemDb.Insert.{has_id}

-- A NULL in a NOT NULL column.
abbrev pub null_violation : String → String → Result (Unit {0})
null_violation context column = err (
    sql_err context
      (concat
        ("error returned from database: (code: 1299) NOT NULL constraint failed: " ∷ column ∷ []))
      (database (some "1299")))

abbrev pub has_uuid : String → NotificationRow → Bool
has_uuid uuid n = n.message_uuid == uuid

-- A message id that is there already.
abbrev pub duplicate_notification : DbosError
duplicate_notification =
    sql_err "failed to insert notification"
      "error returned from database: (code: 1555) UNIQUE constraint failed: notifications.message_uuid"
      (database (some "1555"))

-- `message_uuid` is the fresh id.
unfoldable pub send_notification :
    String → String → Option String → String → String → ℕ → Database → Result (Unit {0}) × Database
send_notification dest topic none serialization message_uuid now db =
    (null_violation "failed to insert notification" "notifications.message", db)
send_notification dest topic (some message) serialization message_uuid now db =
    if exists (has_uuid message_uuid) db.notifications
    then (err duplicate_notification, db)
    else if exists (has_id dest) db.workflow_status
    then (
      ok tt,
      record db {
        notifications =
            insert_row
              (record {
                message_uuid = message_uuid;
                destination_uuid = dest;
                topic = topic;
                message = message;
                created_at_epoch_ms = now;
                serialization = some serialization;
                consumed = false;
              })
              db.notifications;
      },
    )
    else (err (Make.non_existent_workflow dest), db)

abbrev pub is_unconsumed : String → String → NotificationRow → Bool
is_unconsumed dest topic n = n.destination_uuid == dest && n.topic == topic && not n.consumed

unfoldable pub has_unconsumed_notification : String → String → Database → Bool
has_unconsumed_notification dest topic db = exists (is_unconsumed dest topic) db.notifications

abbrev pub head? {ℓ} : {A : Type ℓ} → List A → Option A
head? [] = none
head? (a ∷ as') = some a

unfoldable pub oldest : String → String → Database → Option NotificationRow
oldest dest topic db = head? (
    order_by (λ a b. leb a.created_at_epoch_ms b.created_at_epoch_ms)
      (select (is_unconsumed dest topic) db.notifications))

unfoldable pub as_consumed : NotificationRow → NotificationRow
as_consumed n = record n { consumed = true }

unfoldable pub consume_oldest_notification :
    String → String → Database → Option (String × String) × Database
unfolding oldest as_consumed
consume_oldest_notification dest topic db = elim (oldest dest topic db) [
  | none ↦ (none, db)
  | some n ↦ (
    some (n.message, or_default n.serialization),
    record db {
      notifications = update_where (has_uuid n.message_uuid) as_consumed db.notifications;
    },
  )
]

-- INSERT … ON CONFLICT DO UPDATE of one row.
abbrev pub put_row {ℓ} : {A : Type ℓ} → (A → Bool) → (A → A) → A → List A → List A
put_row p f r rows = if exists p rows then update_where p f rows else insert_row r rows

abbrev pub has_event : String → String → EventRow → Bool
has_event id key e = e.workflow_uuid == id && e.key == key

abbrev pub has_history : String → ℤ → String → EventHistoryRow → Bool
has_history id step key e = e.workflow_uuid == id && eq_ℤ e.function_id step && e.key == key

unfoldable pub put_event : String → String → String → String → List EventRow → List EventRow
put_event id key value serialization =
    put_row (has_event id key) (λ e. record e { value = value; serialization = some serialization })
      (record { workflow_uuid = id; key = key; value = value; serialization = some serialization })

unfoldable pub put_history :
    String → ℤ → String → String → String → List EventHistoryRow → List EventHistoryRow
put_history id step key value serialization =
    put_row (has_history id step key)
      (λ e. record e { value = value; serialization = some serialization })
      (record {
        workflow_uuid = id;
        function_id = step;
        key = key;
        value = value;
        serialization = some serialization;
      })

unfoldable pub set_event :
    String → ℤ → String → Option String → String → Database → Result (Unit {0}) × Database
unfolding put_event put_history
set_event id step key none serialization db =
    (null_violation "failed to set event" "workflow_events.value", db)
set_event id step key (some value) serialization db =
    if exists (has_id id) db.workflow_status
    then (
      ok tt,
      record db {
        workflow_events = put_event id key value serialization db.workflow_events;
        workflow_events_history =
            put_history id step key value serialization db.workflow_events_history;
      },
    )
    else (err (foreign_key_violation "failed to set event"), db)

unfoldable pub get_event : String → String → Database → Option (String × String)
get_event id key db = elim (first (has_event id key) db.workflow_events) [
  | none ↦ none
  | some e ↦ some (e.value, or_default e.serialization)
]

abbrev pub stream_closed_sentinel : String
stream_closed_sentinel = "__DBOS_STREAM_CLOSED__"

abbrev pub in_stream : String → String → StreamRow → Bool
in_stream id key s = s.workflow_uuid == id && s.key == key

abbrev pub closes : String → String → StreamRow → Bool
closes id key s = in_stream id key s && s.value == stream_closed_sentinel

-- `COALESCE(MAX(offset), -1) + 1`
unfoldable pub next_offset : List StreamRow → ℕ
next_offset [] = 0
next_offset (s ∷ ss) =
    let rest = next_offset ss in if ltb s.position rest then rest else suc s.position

unfoldable pub write_stream :
    String → String → String → ℤ → String → Database → Result (Unit {0}) × Database
unfolding next_offset
write_stream id key value step serialization db =
    if exists (closes id key) db.streams
    then (
      err (Make.new workflow_execution (concat ("stream '" ∷ key ∷ "' is already closed" ∷ []))),
      db,
    )
    else if exists (has_id id) db.workflow_status
    then (
      ok tt,
      record db {
        streams =
            insert_row
              (record {
                workflow_uuid = id;
                key = key;
                value = value;
                position = next_offset (select (in_stream id key) db.streams);
                function_id = step;
                serialization = some serialization;
              })
              db.streams;
      },
    )
    else (err (foreign_key_violation "failed to insert stream entry"), db)

-- The reading loop: up to the sentinel, and whether it was met.
unfoldable pub read_entries : List StreamRow → List (String × ℕ × String) × Bool
read_entries [] = ([], false)
read_entries (s ∷ ss) =
    if s.value == stream_closed_sentinel
    then ([], true)
    else let (out, closed) = read_entries ss in
      ((s.value, s.position, or_default s.serialization) ∷ out, closed)

unfoldable pub read_stream : String → String → ℤ → Database → List (String × ℕ × String) × Bool
unfolding read_entries
read_stream id key from_offset db = read_entries (
    order_by (λ a b. leb a.position b.position)
      (select (λ s. in_stream id key s && leb_ℤ from_offset (pos s.position)) db.streams))
