-- ===== src/Messaging/Once/Reads.antt =====
-- Replays of `get_event` (crates/dbos-core/src/workflow/comms.rs).
use dbos_transact_rust.Prelude.{ℕ, ℤ, String, ◌≡◌, refl, false, Option, none, some, List}
use dbos_transact_rust.Status.{cancelled, ◌is◌}
use dbos_transact_rust.Sql.{first}
use dbos_transact_rust.Sql.Laws.{All}
use dbos_transact_rust.Database.{Result, ok, err}
use dbos_transact_rust.Database.Types.{RecordedResult}
use dbos_transact_rust.Database.Schema.{WorkflowRow, Database}
use dbos_transact_rust.SystemDb.Insert.{has_id}
use dbos_transact_rust.SystemDb.Steps.{check_operation_execution}
use dbos_transact_rust.SystemDb.Steps.Durable.{IsUndeleting}
use dbos_transact_rust.SystemDb.Steps.Recall.{
  Recalls, checked-Recalls, record-RecallsAfter, recalled,
}
use dbos_transact_rust.SystemDb.Comms.{get_event}
use dbos_transact_rust.SystemDb.Run.{Op, run}
use dbos_transact_rust.Serialization.{Codecs, Typed, Serializer, resolve_encoder}
use dbos_transact_rust.Step.{WorkflowState, Times, next_step_id}
use dbos_transact_rust.Step.Sleep.{sleep_end}
use dbos_transact_rust.Messaging.Receive.{Surroundings, no_deadline, outcome}
use dbos_transact_rust.Messaging.Events.{got, get_in, get_by, get_unless, get_event_step}
use dbos_transact_rust.Messaging.Once.{Holds, answered-Holds, of_Holds, stored-Holds}

module _ {R V : Type 0} (c : Codecs V) (custom : Option (Serializer V)) (t : Typed R V)
    (s : WorkflowState) (step : ℤ) where
  abbrev Kept : Option (Result R × Database) → Type 0
  Kept = Holds c custom t s.workflow_id step "DBOS.getEvent"

  got-Holds :
      (times : Times) (event : Option (String × String)) (db : Database)
      → Kept (some (got c custom t s step times event db))
  unfolding got
  got-Holds times (some (value, serialization)) db =
      stored-Holds c custom t s step "DBOS.getEvent" times (some value) serialization db _ (
        record-RecallsAfter (outcome s step "DBOS.getEvent" times (some value) none serialization)
          db)
  got-Holds times none db =
      let receiver = (resolve_encoder c s.is_portable custom).name in
      stored-Holds c custom t s step "DBOS.getEvent" times none receiver db _
        (record-RecallsAfter (outcome s step "DBOS.getEvent" times none none receiver) db)

  get_by-Holds :
      (target key : String) (times : Times) (env : Surroundings) (q : Result ℕ × Database)
      → Kept (get_by c custom t s step target key times env q)
  unfolding get_by
  get_by-Holds target key times env (err e, db) = tt
  get_by-Holds target key times env (ok deadline, db) = looked _
    where
      looked : (o : Option Database) → Kept (get_in c custom t s step target key times env o)
      looked none = tt
      looked (some after) =
          got-Holds times (get_event target key (env.late after)) (env.recording (env.late after))

  get_unless-Holds :
      (ms : Typed ℕ V) (sleep_step : ℤ) (target key : String) (timeout : ℕ) (times : Times)
      (env : Surroundings) (db : Database) (x : Result (Option RecordedResult))
      → ((rec : RecordedResult)
          → x ≡ ok (some rec)
          → Recalls s.workflow_id step "DBOS.getEvent" rec db)
      → Kept (get_unless c custom t ms s step sleep_step target key timeout times env db x)
  unfolding get_unless
  get_unless-Holds ms sleep_step target key timeout times env db (err e) k = tt
  get_unless-Holds ms sleep_step target key timeout times env db (ok (some rec)) k =
      answered-Holds c custom t s.workflow_id step "DBOS.getEvent" rec db (k rec refl)
  get_unless-Holds ms sleep_step target key timeout times env db (ok none) k =
      get_by-Holds target key times env
        (sleep_end c ms no_deadline s sleep_step timeout env.start env.before db)

-- An event is read once: when a `get_event` of a workflow returned a value, be it that of the event
-- or the null that stands for none by the deadline, a `get_event` at the same point of the workflow,
-- after any history of operations that deletes no workflow, returns that value again and changes
-- nothing, whatever target, key and timeout it asks for and whatever the event has become, when the
-- workflow is there and not cancelled.
pub get_event_once :
    {R V : Type 0} (c : Codecs V) (custom : Option (Serializer V)) (t : Typed R V) (ms : Typed ℕ V)
    (target later_target key later_key : String) (timeout later_timeout : ℕ)
    (times later_times : Times) (env later_env : Surroundings) (s : WorkflowState)
    (db after : Database) (v : R) (ops : List Op) (row : WorkflowRow)
    → (get_event_step c custom t ms false target key timeout times env s db).0 ≡ some (ok v, after)
    → All IsUndeleting ops
    → first (has_id s.workflow_id) (run ops after).workflow_status ≡ some row
    → (row.status is cancelled) ≡ false
    → get_event_step c custom t ms false later_target later_key later_timeout later_times later_env
        s
        (run ops after)
      ≡ (some (ok v, run ops after), (next_step_id (next_step_id s).1).1)
unfolding get_event_step get_unless next_step_id
get_event_once c custom t ms target later_target key later_key timeout later_timeout times
      later_times env later_env s db after v ops row h u r n =
    let (step, s') = next_step_id s in
    let (sleep_step, s'') = next_step_id s' in
    let (rec, k, e) =
      of_Holds c custom t s.workflow_id step "DBOS.getEvent" _ v after
        (get_unless-Holds c custom t s step ms sleep_step target key timeout times env db
          (check_operation_execution s.workflow_id step "DBOS.getEvent" db)
          (λ rec. checked-Recalls s.workflow_id step "DBOS.getEvent" rec db))
        h in
    rw (recalled s.workflow_id step "DBOS.getEvent" rec ops after row k u r n) (rw e refl)
