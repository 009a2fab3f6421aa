-- ===== src/Messaging/Once/Writes.antt =====
-- Replays of the calls that publish (crates/dbos-core/src/workflow/comms.rs).
use dbos_transact_rust.Prelude.{ℤ, String, ◌≡◌, refl, ap, false, Option, none, some, List}
use dbos_transact_rust.Status.{cancelled, ◌is◌}
use dbos_transact_rust.Sql.{first}
use dbos_transact_rust.Sql.Laws.{All}
use dbos_transact_rust.Database.{Result, ok, err, or_default}
use dbos_transact_rust.Database.Types.{RecordedResult}
use dbos_transact_rust.Database.Schema.{WorkflowRow, Database}
use dbos_transact_rust.SystemDb.Insert.{has_id}
use dbos_transact_rust.SystemDb.Steps.Durable.{IsUndeleting}
use dbos_transact_rust.SystemDb.Steps.Recall.{
  Recalls, checked-Recalls, RecallsAfter, record-RecallsAfter, recalled,
}
use dbos_transact_rust.SystemDb.Run.{Op, run}
use dbos_transact_rust.SystemDb.Comms.{set_event, write_stream, stream_closed_sentinel}
use dbos_transact_rust.Serialization.{
  Codecs, Typed, Serializer, encode, resolve_encoder, json_serializer_name,
}
use dbos_transact_rust.Step.{WorkflowState, Times, next_step_id}
use dbos_transact_rust.Messaging.{
  Meanwhile, mark, marked, encoded_or, write_unless, write_once, close_stream, set_event_step,
  write_stream_raw,
}

abbrev Write : Type 0
Write = Database → Result (Unit {0}) × Database

module _ (s : WorkflowState) (step : ℤ) (name : String) where
  -- A write that succeeded is recorded.
  abbrev Written : Result (Unit {0}) × Database → Type 0
  Written (ok u, db) = (rec : RecordedResult) × Recalls s.workflow_id step name rec db
  Written (err e, db) = Unit

  stored-Written :
      (times : Times) (serialization : String) (q : Result (Unit {0}) × Database)
      → RecallsAfter (mark s step name times serialization) q
      → Written q
  unfolding mark
  stored-Written times serialization (ok u, db) k = (_, k)
  stored-Written times serialization (err e, db) k = tt

  marked-Written :
      (times : Times) (serialization : String) (q : Result (Unit {0}) × Database)
      → Written (marked s step name times serialization q)
  unfolding marked
  marked-Written times serialization (err e, db) = tt
  marked-Written times serialization (ok u, db) =
      stored-Written times serialization _
        (record-RecallsAfter (mark s step name times serialization) db)

  unless-Written :
      (times : Times) (serialization : String) (others : Meanwhile) (write : Write) (db : Database)
      (x : Result (Option RecordedResult))
      → ((rec : RecordedResult) → x ≡ ok (some rec) → Recalls s.workflow_id step name rec db)
      → Written (write_unless s step name times serialization others write db x)
  unfolding write_unless
  unless-Written times serialization others write db (err e) k = tt
  unless-Written times serialization others write db (ok (some rec)) k = (rec, k rec refl)
  unless-Written times serialization others write db (ok none) k =
      let (r, written) = write (others.writing db) in
      marked-Written times serialization (r, others.recording written)

  of_Written :
      (q : Result (Unit {0}) × Database)
      → Written q
      → q.0 ≡ ok tt
      → (rec : RecordedResult) × Recalls s.workflow_id step name rec q.1
  of_Written (ok u, db) k e = k
  of_Written (err d, db) k e = absurd (cc e)

  -- The second write does nothing.
  written_once :
      (times later_times : Times) (serialization later_serialization : String)
      (others later_others : Meanwhile) (write again : Write) (db : Database) (ops : List Op)
      (row : WorkflowRow)
      → (write_once s step name times serialization others write db).0 ≡ ok tt
      → All IsUndeleting ops
      → let later = run ops (write_once s step name times serialization others write db).1 in
        first (has_id s.workflow_id) later.workflow_status ≡ some row
        → (row.status is cancelled) ≡ false
        → write_once s step name later_times later_serialization later_others again later
          ≡ (ok tt, later)
  unfolding write_once
  written_once times later_times serialization later_serialization others later_others write again
        db ops row h u r n =
      let (rec, k) =
        of_Written (write_once s step name times serialization others write db)
          (unless-Written times serialization others write db _
            (λ rec. checked-Recalls s.workflow_id step name rec db))
          h in
      rw
        (recalled s.workflow_id step name rec ops
          (write_once s step name times serialization others write db).1 row k u r n)
        refl

-- The writes of a workflow.
pub data Publication (P : Type 0) : Type 0 where
  event : String → P → Publication P
  entry : String → P → Publication P
  closing : String → Publication P

-- The same call with another key and another value.
abbrev pub changed : {P : Type 0} → Publication P → String → P → Publication P
changed (event key v) key' v' = event key' v'
changed (entry key v) key' v' = entry key' v'
changed (closing key) key' v' = closing key'

-- `set_event`, `write_stream` or `close_stream`, outside a step.
unfoldable pub publish :
    {P V : Type 0}
    → Codecs V
    → Option (Serializer V)
    → Typed P V
    → Publication P
    → Times
    → Meanwhile
    → WorkflowState
    → Database
    → (Result (Unit {0}) × Database) × WorkflowState
unfolding set_event_step write_stream_raw close_stream
publish c custom t (event key v) = set_event_step c custom t false key v
publish c custom t (entry key v) = write_stream_raw c custom t false key v "DBOS.writeStream"
publish c custom t (closing key) = close_stream false key

-- A workflow publishes once: when a `set_event`, a `write_stream` or a `close_stream` succeeded,
-- a call of the same function at the same point of the workflow, with any key and any value, after
-- any history of operations that deletes no workflow, succeeds and changes nothing, when the
-- workflow is there and not cancelled.
pub publish_once :
    {P V : Type 0} (c : Codecs V) (custom : Option (Serializer V)) (t : Typed P V)
    (p : Publication P) (key' : String) (v' : P) (times later_times : Times)
    (others later_others : Meanwhile) (s : WorkflowState) (db : Database) (ops : List Op)
    (row : WorkflowRow)
    → (publish c custom t p times others s db).0.0 ≡ ok tt
    → All IsUndeleting ops
    → let later = run ops (publish c custom t p times others s db).0.1 in
      first (has_id s.workflow_id) later.workflow_status ≡ some row
      → (row.status is cancelled) ≡ false
      → publish c custom t (changed p key' v') later_times later_others s later
        ≡ ((ok tt, later), (next_step_id s).1)
unfolding publish next_step_id
publish_once {P} c custom t (event key v) key' v' times later_times others later_others s db ops row
      h u r n =
    let tag = (resolve_encoder c s.is_portable custom).name in
    let write = λ (k : String) (x : P) (d : Database).
      encoded_or (encode t (resolve_encoder c s.is_portable custom) x)
        (λ encoded. set_event s.workflow_id (next_step_id s).0 k encoded tag) d in
    ap (λ q. (q, (next_step_id s).1))
      (written_once s (next_step_id s).0 "DBOS.setEvent" times later_times tag tag others
        later_others (write key v) (write key' v') db ops row h u r n)
publish_once {P} c custom t (entry key v) key' v' times later_times others later_others s db ops row
      h u r n =
    let tag = (resolve_encoder c s.is_portable custom).name in
    let write = λ (k : String) (x : P) (d : Database).
      encoded_or (encode t (resolve_encoder c s.is_portable custom) x)
        (λ encoded. write_stream s.workflow_id k (or_default encoded) (next_step_id s).0 tag) d in
    ap (λ q. (q, (next_step_id s).1))
      (written_once s (next_step_id s).0 "DBOS.writeStream" times later_times json_serializer_name
        json_serializer_name others later_others (write key v) (write key' v') db ops row h u r n)
publish_once {P} c custom t (closing key) key' v' times later_times others later_others s db ops row
      h u r n =
    let write = λ (k : String).
      write_stream s.workflow_id k stream_closed_sentinel (next_step_id s).0 json_serializer_name in
    ap (λ q. (q, (next_step_id s).1))
      (written_once s (next_step_id s).0 "DBOS.closeStream" times later_times json_serializer_name
        json_serializer_name others later_others (write key) (write key') db ops row h u r n)
