-- ===== src/Step/Replay.antt =====
-- Replays of `run_step` (crates/dbos-core/src/workflow/step.rs).
use dbos_transact_rust.Prelude.{
  ℤ, String, ◌≡◌, refl, ap, ◌∙◌, subst, false, ==_refl, Option, none, some, List,
}
use dbos_transact_rust.Error.Chain.{DbosError}
use dbos_transact_rust.Status.{cancelled, ◌is◌}
use dbos_transact_rust.Sql.{first}
use dbos_transact_rust.Sql.Laws.{All}
use dbos_transact_rust.Database.{Result, ok, err, ◌>>=◌}
use dbos_transact_rust.Database.Types.{RecordOperationResultInput}
use dbos_transact_rust.Database.Schema.{WorkflowRow, OutputRow, Database}
use dbos_transact_rust.SystemDb.Insert.{has_id, has_key}
use dbos_transact_rust.SystemDb.Steps.{
  output_row, record_operation_result, recorded_result, check_operation_execution,
}
use dbos_transact_rust.SystemDb.Steps.Laws.{Recorded, record-Recorded, check_found, check_cases}
use dbos_transact_rust.SystemDb.Steps.Durable.{IsUndeleting, run_keeps_step}
use dbos_transact_rust.SystemDb.Run.{Op, run}
use dbos_transact_rust.Serialization.{Codecs, Typed, Serializer, resolve_encoder, encode}
use dbos_transact_rust.Serialization.Laws.{IsFaithful, ReadsBack, CustomFits, decode-encode}
use dbos_transact_rust.Step.{
  WorkflowState, Body, Times, next_step_id, replay_with, replay, check_step, record_input,
  record_encoded, recorded_as, record_step, finished, execute, replay_or, durable_step, run_step,
}

module _ {R V : Type 0} (c : Codecs V) (custom : Option (Serializer V)) (t : Typed R V) where
  -- The step is recorded, and its row is read back as this value.
  abbrev pub Remembered : String → ℤ → String → R → Database → Type 0
  Remembered id step name v db =
      (o : OutputRow) × (first (has_key id step) db.operation_outputs ≡ some o)
      × ((recorded_result id step name o >>= replay c custom t id name) ≡ ok (some (ok v)))

  -- A remembered step is replayed.
  replayed :
      {W : Type 0} (s : WorkflowState) (step : ℤ) (name : String) (v : R) (db : Database)
      (row : WorkflowRow) (g : Body R W) (times : Times) (w : W)
      → first (has_id s.workflow_id) db.workflow_status ≡ some row
      → (row.status is cancelled) ≡ false
      → Remembered s.workflow_id step name v db
      → durable_step c custom t s step name g times db w ≡ (ok v, (db, w))
  unfolding durable_step check_step
  replayed s step name v db row g times w e n (o, k, m) = rw checked refl
    where
      checked :
          (check_operation_execution s.workflow_id step name db
            >>= replay c custom t s.workflow_id name)
          ≡ ok (some (ok v))
      checked =
          ap (λ x. x >>= replay c custom t s.workflow_id name)
            (check_found s.workflow_id step name db row o e n k)
          ∙ m

  -- What a check that answers with a value rests on.
  checked-Remembered :
      (id : String) (step : ℤ) (name : String) (v : R) (db : Database)
      → (check_operation_execution id step name db >>= replay c custom t id name) ≡ ok (some (ok v))
      → Remembered id step name v db
  unfolding replay
  checked-Remembered id step name v db =
      check_cases
        (λ x. (x >>= replay c custom t id name) ≡ ok (some (ok v)) → Remembered id step name v db)
        id step name db (λ e h. absurd (cc h)) (λ h. absurd (cc h)) (λ o k h. (o, k, h))

  -- A step that ends with a value is remembered.
  abbrev Remembers : {W : Type 0} → String → ℤ → String → Result R × (Database × W) → Type 0
  Remembers id step name (ok v, (db, w)) = Remembered id step name v db
  Remembers id step name (err e, (db, w)) = Unit

  module _ (s : WorkflowState) (step : ℤ) (name : String) (f : IsFaithful V c) (b : ReadsBack t)
      (h : CustomFits custom) where
    failed-Remembers :
        {W : Type 0} (e : DbosError) (w : W) (q : Result (Unit {0}) × Database)
        → Remembers s.workflow_id step name (finished c custom t {W = W} (err e) w q)
    failed-Remembers e w (ok u, db) = tt
    failed-Remembers e w (err d, db) = tt

    -- What is recorded of a value.
    abbrev value_input : Times → Option String → RecordOperationResultInput
    value_input times output = record {
      workflow_id = s.workflow_id;
      step_id = step;
      step_name = name;
      output = output;
      error = none;
      child_workflow_id = none;
      started_at_ms = times.started;
      completed_at_ms = times.completed;
      serialization = (resolve_encoder c s.is_portable custom).name;
    }

    reads_back :
        (v : R) (times : Times) (output : Option String)
        → encode t (resolve_encoder c s.is_portable custom) v ≡ ok output
        → (recorded_result s.workflow_id step name (output_row (value_input times output))
            >>= replay c custom t s.workflow_id name)
          ≡ ok (some (ok v))
    unfolding recorded_result output_row replay replay_with
    reads_back v times output e =
        let (decoder, r, d) = decode-encode c t s.is_portable custom v output f b h e in
        rw (==_refl name) (rw r (rw d refl))

    stored-Remembers :
        {W : Type 0} (v : R) (w : W) (times : Times) (output : Option String) (db : Database)
        (q : Result (Unit {0}) × Database)
        → encode t (resolve_encoder c s.is_portable custom) v ≡ ok output
        → Recorded (value_input times output) db q
        → Remembers s.workflow_id step name
            (finished c custom t (ok v) w (recorded_as c custom t s.workflow_id name q))
    stored-Remembers v w times output db (ok u, after) e m =
        (output_row (value_input times output), m.0, reads_back v times output e)
    stored-Remembers v w times output db (err d, after) e m = tt

    encoded-Remembers :
        {W : Type 0} (v : R) (w : W) (times : Times) (db : Database) (x : Result (Option String))
        → encode t (resolve_encoder c s.is_portable custom) v ≡ x
        → Remembers s.workflow_id step name (
            finished c custom t (ok v) w (
              record_encoded c custom t s.workflow_id name
                (x >>= λ output. ok (value_input times output))
                db))
    encoded-Remembers v w times db (ok output) e =
        stored-Remembers v w times output db (record_operation_result (value_input times output) db)
          e (record-Recorded (value_input times output) db)
    encoded-Remembers v w times db (err d) e = tt

    executed-Remembers :
        {W : Type 0} (times : Times) (r : Result R × (Database × W))
        → Remembers s.workflow_id step name (execute c custom t s step name times r)
    unfolding execute record_step record_input
    executed-Remembers times (ok v, (db, w)) = encoded-Remembers v w times db _ refl
    executed-Remembers times (err e, (db, w)) =
        failed-Remembers e w (record_step c custom t s step name times (err e) db)

    replay_or-Remembers :
        {W : Type 0} (db : Database) (w : W) (executed : Result R × (Database × W))
        (x : Result (Option (Result R)))
        → ((v : R) → x ≡ ok (some (ok v)) → Remembered s.workflow_id step name v db)
        → Remembers s.workflow_id step name executed
        → Remembers s.workflow_id step name (replay_or c custom t (db, w) executed x)
    replay_or-Remembers db w executed (ok none) k m = m
    replay_or-Remembers db w executed (ok (some (ok v))) k m = k v refl
    replay_or-Remembers db w executed (ok (some (err e))) k m = tt
    replay_or-Remembers db w executed (err e) k m = tt

    durable_step-Remembers :
        {W : Type 0} (g : Body R W) (times : Times) (db : Database) (w : W)
        → Remembers s.workflow_id step name (durable_step c custom t s step name g times db w)
    unfolding durable_step check_step
    durable_step-Remembers g times db w =
        replay_or-Remembers db w _ (check_step c custom t s step name db)
          (λ v. checked-Remembered s.workflow_id step name v db) (executed-Remembers times _)

  of_Remembers :
      {W : Type 0} (id : String) (step : ℤ) (name : String) (q : Result R × (Database × W)) (v : R)
      → Remembers id step name q
      → q.0 ≡ ok v
      → Remembered id step name v q.1.0
  of_Remembers id step name (ok u, (db, w)) v m e =
      subst (λ (x : R). Remembered id step name x db) (cc e) m
  of_Remembers id step name (err d, (db, w)) v m e = absurd (cc e)

-- A step whose call returned a value is not run again: after any history of operations that
-- deletes no workflow, the same call at the same point of the workflow, with any body, returns
-- that value and changes neither the database nor the world, when the workflow is there and not
-- cancelled. `serde_json` and base64 are faithful, and a custom serializer reads back what it
-- wrote and is not named `portable_json`.
pub run_step_once :
    {R V W : Type 0} (c : Codecs V) (custom : Option (Serializer V)) (t : Typed R V) (name : String)
    (body again : Body R W) (times later_times : Times) (s : WorkflowState) (db : Database)
    (w later_w : W) (v : R) (ops : List Op) (row : WorkflowRow)
    → IsFaithful V c
    → ReadsBack t
    → CustomFits custom
    → (run_step c custom t false name body times s db w).0.0 ≡ ok v
    → All IsUndeleting ops
    → let later = run ops (run_step c custom t false name body times s db w).0.1.0 in
      first (has_id s.workflow_id) later.workflow_status ≡ some row
      → (row.status is cancelled) ≡ false
      → run_step c custom t false name again later_times s later later_w
        ≡ ((ok v, (later, later_w)), (next_step_id s).1)
unfolding run_step next_step_id
run_step_once c custom t name body again times later_times s db w later_w v ops row f b h e k r n =
    let step = (next_step_id s).0 in
    let after = durable_step c custom t (next_step_id s).1 step name body times db w in
    let (o, found, reads) =
      of_Remembers c custom t s.workflow_id step name after v
        (durable_step-Remembers c custom t (next_step_id s).1 step name f b h body times db w) e in
    ap (λ q. (q, (next_step_id s).1))
      (replayed c custom t (next_step_id s).1 step name v (run ops after.1.0) row again later_times
        later_w r n (o, run_keeps_step ops after.1.0 s.workflow_id step o k found, reads))
