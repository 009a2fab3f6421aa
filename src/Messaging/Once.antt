-- ===== src/Messaging/Once.antt =====
-- Replays of `recv` (crates/dbos-core/src/workflow/comms.rs).
pub mod Writes
pub mod Reads
use dbos_transact_rust.Prelude.{
  ℕ, ℤ, String, ◌≡◌, refl, sym, ap, ◌∙◌, subst, false, Option, none, some, List,
}
use dbos_transact_rust.Error.Chain.{DbosError}
use dbos_transact_rust.Status.{cancelled, ◌is◌}
use dbos_transact_rust.Sql.{first}
use dbos_transact_rust.Sql.Laws.{All}
use dbos_transact_rust.Database.{Result, ok, err}
use dbos_transact_rust.Database.Types.{RecordOperationResultInput, RecordedResult}
use dbos_transact_rust.Database.Schema.{WorkflowRow, Database}
use dbos_transact_rust.SystemDb.Insert.{has_id}
use dbos_transact_rust.SystemDb.Outcome.{filter_empty}
use dbos_transact_rust.SystemDb.Steps.{record_operation_result, check_operation_execution}
use dbos_transact_rust.SystemDb.Steps.Durable.{IsUndeleting}
use dbos_transact_rust.SystemDb.Steps.Recall.{
  Recalls, checked-Recalls, record_of, RecallsAfter, record-RecallsAfter, recalled,
}
use dbos_transact_rust.SystemDb.Comms.{consume_oldest_notification, get_event}
use dbos_transact_rust.SystemDb.Run.{Op, run}
use dbos_transact_rust.Serialization.{Codecs, Typed, Serializer, resolve_encoder}
use dbos_transact_rust.Step.{WorkflowState, Times, next_step_id}
use dbos_transact_rust.Step.Sleep.{sleep_end}
use dbos_transact_rust.Messaging.{resolve_topic}
use dbos_transact_rust.Messaging.Receive.{
  Surroundings, no_deadline, outcome, once_recorded, decode_stored, replay_message_with,
  replay_message, recv_timeout, received, consume_in, recv_by, recv_unless, recv,
}

module _ {R V : Type 0} (c : Codecs V) (custom : Option (Serializer V)) (t : Typed R V)
    (id : String) (step : ℤ) (name : String) where
  -- The step is recorded, and its record is read as this value.
  abbrev Yields : R → Database → Type 0
  Yields v db =
      (rec : RecordedResult) × Recalls id step name rec db × (replay_message c custom t rec ≡ ok v)

  abbrev Holds : Option (Result R × Database) → Type 0
  Holds (some (ok v, db)) = Yields v db
  Holds _ = Unit

  answered-Holds :
      (rec : RecordedResult) (db : Database)
      → Recalls id step name rec db
      → Holds (some (replay_message c custom t rec, db))
  answered-Holds rec db k = of_answer (replay_message c custom t rec) refl
    where
      of_answer : (r : Result R) → replay_message c custom t rec ≡ r → Holds (some (r, db))
      of_answer (ok v) e = (rec, k, e)
      of_answer (err d) e = tt

  of_Holds :
      (o : Option (Result R × Database)) (v : R) (db : Database)
      → Holds o
      → o ≡ some (ok v, db)
      → Yields v db
  of_Holds none v db h e = absurd (cc e)
  of_Holds (some (err d, after)) v db h e = absurd (cc e)
  of_Holds (some (ok w, after)) v db h e = subst Holds e h

module _ {R V : Type 0} (c : Codecs V) (custom : Option (Serializer V)) (t : Typed R V)
    (s : WorkflowState) (step : ℤ) (name : String) where
  -- What is recorded is read as the answer that was given.
  stored-Holds :
      (times : Times) (output : Option String) (serialization : String) (db : Database)
      (q : Result (Unit {0}) × Database)
      → RecallsAfter (outcome s step name times output none serialization) q
      → Holds c custom t s.workflow_id step name
          (some (once_recorded (decode_stored c custom t output serialization) q))
  unfolding outcome replay_message replay_message_with
  stored-Holds times output serialization db (err e, after) k = tt
  stored-Holds times output serialization db (ok u, after) k =
      answered-Holds c custom t s.workflow_id step name
        (record { output = output; error = none; serialization = serialization }) after k

  failed-Holds :
      (e : DbosError) (q : Result (Unit {0}) × Database)
      → Holds c custom t s.workflow_id step name (some (once_recorded (err e) q))
  failed-Holds e (ok u, db) = tt
  failed-Holds e (err d, db) = tt

module _ {R V : Type 0} (c : Codecs V) (custom : Option (Serializer V)) (t : Typed R V)
    (s : WorkflowState) (step : ℤ) where
  received-Holds :
      (described : String) (times : Times) (q : Option (String × String) × Database)
      → Holds c custom t s.workflow_id step "DBOS.recv"
          (some (received c custom t s step described times q))
  unfolding received
  received-Holds described times (none, db) =
      failed-Holds c custom t s step "DBOS.recv" (recv_timeout c custom t s.workflow_id described) _
  received-Holds described times (some (message, serialization), db) =
      stored-Holds c custom t s step "DBOS.recv" times (some message) serialization db _ (
        record-RecallsAfter (outcome s step "DBOS.recv" times (some message) none serialization) db)

  recv_by-Holds :
      (topic described : String) (times : Times) (env : Surroundings) (q : Result ℕ × Database)
      → Holds c custom t s.workflow_id step "DBOS.recv"
          (recv_by c custom t s step topic described times env q)
  unfolding recv_by
  recv_by-Holds topic described times env (err e, db) = tt
  recv_by-Holds topic described times env (ok deadline, db) = consumed _
    where
      consumed :
          (o : Option Database)
          → Holds c custom t s.workflow_id step "DBOS.recv"
              (consume_in c custom t s step topic described times env o)
      consumed none = tt
      consumed (some after) =
          let (message, taken) = consume_oldest_notification s.workflow_id topic (env.late after) in
          received-Holds described times (message, env.recording taken)

  recv_unless-Holds :
      (ms : Typed ℕ V) (sleep_step : ℤ) (topic : String) (timeout : ℕ) (described : String)
      (times : Times) (env : Surroundings) (db : Database) (x : Result (Option RecordedResult))
      → ((rec : RecordedResult) → x ≡ ok (some rec) → Recalls s.workflow_id step "DBOS.recv" rec db)
      → Holds c custom t s.workflow_id step "DBOS.recv"
          (recv_unless c custom t ms s step sleep_step topic timeout described times env db x)
  unfolding recv_unless
  recv_unless-Holds ms sleep_step topic timeout described times env db (err e) k = tt
  recv_unless-Holds ms sleep_step topic timeout described times env db (ok (some rec)) k =
      answered-Holds c custom t s.workflow_id step "DBOS.recv" rec db (k rec refl)
  recv_unless-Holds ms sleep_step topic timeout described times env db (ok none) k =
      recv_by-Holds topic described times env
        (sleep_end c ms no_deadline s sleep_step timeout env.start env.before db)

-- A message is received once: when a `recv` returned a message, the same `recv` at the same point
-- of the workflow, after any history of operations that deletes no workflow, returns that message
-- again and takes no other, whatever is waiting, when the workflow is there and not cancelled.
pub recv_once :
    {R V : Type 0} (c : Codecs V) (custom : Option (Serializer V)) (t : Typed R V) (ms : Typed ℕ V)
    (topic : String) (timeout later_timeout : ℕ) (described later_described : String)
    (times later_times : Times) (env later_env : Surroundings) (s : WorkflowState)
    (db after : Database) (v : R) (ops : List Op) (row : WorkflowRow)
    → (recv c custom t ms false topic timeout described times env s db).0 ≡ some (ok v, after)
    → All IsUndeleting ops
    → first (has_id s.workflow_id) (run ops after).workflow_status ≡ some row
    → (row.status is cancelled) ≡ false
    → recv c custom t ms false topic later_timeout later_described later_times later_env s
        (run ops after)
      ≡ (some (ok v, run ops after), (next_step_id (next_step_id s).1).1)
unfolding recv recv_unless next_step_id
recv_once c custom t ms topic timeout later_timeout described later_described times later_times env
      later_env s db after v ops row h u r n =
    let (step, s') = next_step_id s in
    let (sleep_step, s'') = next_step_id s' in
    let (rec, k, e) =
      of_Holds c custom t s.workflow_id step "DBOS.recv" _ v after
        (recv_unless-Holds c custom t s step ms sleep_step (resolve_topic topic) timeout described
          times env db (check_operation_execution s.workflow_id step "DBOS.recv" db)
          (λ rec. checked-Recalls s.workflow_id step "DBOS.recv" rec db))
        h in
    rw (recalled s.workflow_id step "DBOS.recv" rec ops after row k u r n) (rw e refl)
