-- ===== src/Examples/Messages.antt =====
-- Messages and streams.
use dbos_transact_rust.Prelude.{
  ℕ, ◌≤◌, pos, String, ◌≡◌, refl, true, false, some, [], ◌∷◌, ◌==◌, concat,
}
use dbos_transact_rust.Error.{workflow_execution}
use dbos_transact_rust.Error.Make
use dbos_transact_rust.Status.{pending}
use dbos_transact_rust.Sql.Laws.{All}
use dbos_transact_rust.Database.{err}
use dbos_transact_rust.Database.Schema.{NotificationRow, Database}
use dbos_transact_rust.SystemDb.Insert.{new_row}
use dbos_transact_rust.SystemDb.Comms.{
  is_unconsumed, has_uuid, consume_oldest_notification, write_stream, stream_closed_sentinel,
}
use dbos_transact_rust.SystemDb.Comms.Laws.{write_closed}
use dbos_transact_rust.SystemDb.Comms.Laws.Oldest.{consume_oldest}
use dbos_transact_rust.Examples.{row_of, database_of}

abbrev running : Database
running = database_of (row_of "w1" pending ∷ [])

write_closed_example :
    let after = (write_stream "w1" "log" stream_closed_sentinel (pos 0) "DBOS_JSON" running).1 in
    write_stream "w1" "log" "late" (pos 1) "DBOS_JSON" after ≡ (
      err (Make.new workflow_execution (concat ("stream '" ∷ "log" ∷ "' is already closed" ∷ []))),
      after,
    )
unfolding new_row write_stream ◌==◌
write_closed_example =
    write_closed "w1" "log" (pos 0) "DBOS_JSON" running "late" (pos 1) "DBOS_JSON" refl

abbrev message_of : String → String → ℕ → NotificationRow
message_of uuid text at = record {
  message_uuid = uuid;
  destination_uuid = "w1";
  topic = "news";
  message = text;
  created_at_epoch_ms = at;
  serialization = some "DBOS_JSON";
  consumed = false;
}

abbrev inbox : Database
inbox = record running {
  notifications = message_of "m1" "second" 20 ∷ message_of "m2" "first" 10 ∷ [];
}

consume_oldest_example :
    (n : NotificationRow) × (is_unconsumed "w1" "news" n ≡ true)
    × (n.message ≡ "first")
    × All
        (λ k. is_unconsumed "w1" "news" k ≡ true → n.created_at_epoch_ms ≤ k.created_at_epoch_ms)
        inbox.notifications
    × All
        (λ k. has_uuid n.message_uuid k ≡ true → k.consumed ≡ true)
        (consume_oldest_notification "w1" "news" inbox).1.notifications
unfolding consume_oldest_notification ◌==◌
consume_oldest_example = consume_oldest "w1" "news" inbox "first" "DBOS_JSON" refl
