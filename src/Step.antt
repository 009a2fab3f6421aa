-- ===== src/Step.antt =====
-- Durable steps (crates/dbos-core/src/workflow/step.rs) and the state of a run
-- (crates/dbos-core/src/context/state.rs).
pub mod Retrying
pub mod Replay
pub mod Sleep
use dbos_transact_rust.Prelude.{
  ℕ, ℤ, pos, ◌+ℤ◌, String, Bool, true, false, Option, none, some, List, [], ◌∷◌, if◌then◌else◌,
}
use dbos_transact_rust.Error.{conflicting_id}
use dbos_transact_rust.Error.Chain.{DbosError, foreign, is_code}
use dbos_transact_rust.Error.Make
use dbos_transact_rust.Database.{Result, ok, err, ◌>>=◌}
use dbos_transact_rust.Database.Types.{RecordOperationResultInput, RecordedResult}
use dbos_transact_rust.Database.Schema.{Database}
use dbos_transact_rust.SystemDb.Insert.{get_or}
use dbos_transact_rust.SystemDb.Steps.{record_operation_result, check_operation_execution}
use dbos_transact_rust.Serialization.{
  Codecs, Typed, Serializer, resolve_encoder, resolve_decoder, encode, decode, lift,
  serialize_workflow_error, deserialize_workflow_error,
}

pub record WorkflowState : Type 0 where
  pub workflow_id : String
  pub step_id : ℤ
  pub is_portable : Bool
  pub authenticated_user : String
  pub assumed_role : String
  pub authenticated_roles : List String

-- `fetch_add(1) + 1`; the counter starts at -1.
unfoldable pub next_step_id : WorkflowState → ℤ × WorkflowState
next_step_id s = let next = s.step_id +ℤ pos 1 in (next, record s { step_id = next })

-- What a step's body is handed.
pub record StepCtx : Type 0 where
  pub workflow_id : String
  pub step_id : ℤ

-- What a step's body does: it runs while other executors work on the database, and it changes the
-- world `W` outside.
abbrev pub Body : Type 0 → Type 0 → Type 0
Body R W = StepCtx → Database × W → Result R × (Database × W)

-- The clock before and after the body.
pub record Times : Type 0 where
  pub started : ℕ
  pub completed : ℕ

module _ {R V : Type 0} (c : Codecs V) (custom : Option (Serializer V)) (t : Typed R V) where
  -- What a recorded result is read back as.
  abbrev pub replay_output : RecordedResult → Result (Option (Result R))
  replay_output recorded = lift (resolve_decoder c recorded.serialization custom) >>= λ decoder.
      decode t decoder recorded.output >>= λ v. ok (some (ok v))

  unfoldable pub replay_with :
      String → String → RecordedResult → Option String → Result (Option (Result R))
  replay_with id name recorded none = replay_output recorded
  replay_with id name recorded (some err_str) = ok (
      some (
        err (
          get_or (Make.step_execution id name "recorded step error" (foreign "recorded step error"))
            (deserialize_workflow_error c (some err_str) recorded.serialization))))

  unfoldable pub replay : String → String → Option RecordedResult → Result (Option (Result R))
  unfolding replay_with
  replay id name none = ok none
  replay id name (some recorded) = replay_with id name recorded recorded.error

  unfoldable pub check_step : WorkflowState → ℤ → String → Database → Result (Option (Result R))
  unfolding replay
  check_step s step name db =
      check_operation_execution s.workflow_id step name db >>= replay s.workflow_id name

  -- What is stored of a result.
  unfoldable pub record_input :
      WorkflowState → ℤ → String → Times → Result R → Result RecordOperationResultInput
  record_input s step name times (ok v) =
      let encoder = resolve_encoder c s.is_portable custom in
      encode t encoder v >>= λ output. ok (record {
        workflow_id = s.workflow_id;
        step_id = step;
        step_name = name;
        output = output;
        error = none;
        child_workflow_id = none;
        started_at_ms = times.started;
        completed_at_ms = times.completed;
        serialization = encoder.name;
      })
  record_input s step name times (err e) =
      let encoder = resolve_encoder c s.is_portable custom in
      ok (record {
        workflow_id = s.workflow_id;
        step_id = step;
        step_name = name;
        output = none;
        error = some (serialize_workflow_error c e encoder.name);
        child_workflow_id = none;
        started_at_ms = times.started;
        completed_at_ms = times.completed;
        serialization = encoder.name;
      })

  -- A conflict is returned as it is; other failures are wrapped.
  abbrev wrap_failure : String → String → DbosError → DbosError
  wrap_failure id name e =
      if is_code e conflicting_id then e else Make.step_execution_dbos id name e

  abbrev recorded_as : String → String → Result (Unit {0}) × Database → Result (Unit {0}) × Database
  recorded_as id name (ok u, db) = (ok tt, db)
  recorded_as id name (err e, db) = (err (wrap_failure id name e), db)

  abbrev record_encoded :
      String → String → Result RecordOperationResultInput → Database → Result (Unit {0}) × Database
  record_encoded id name (err e) db = (err e, db)
  record_encoded id name (ok input) db = recorded_as id name (record_operation_result input db)

  unfoldable pub record_step :
      WorkflowState → ℤ → String → Times → Result R → Database → Result (Unit {0}) × Database
  unfolding record_input
  record_step s step name times result db =
      record_encoded s.workflow_id name (record_input s step name times result) db

  module _ {W : Type 0} where
    abbrev pub finished : Result R → W → Result (Unit {0}) × Database → Result R × (Database × W)
    finished result w (ok u, db) = (result, (db, w))
    finished result w (err e, db) = (err e, (db, w))

    -- Run the body and record its result.
    unfoldable pub execute :
        WorkflowState → ℤ → String → Times → Result R × (Database × W) → Result R × (Database × W)
    unfolding record_step
    execute s step name times (result, (db, w)) =
        finished result w (record_step s step name times result db)

    abbrev replay_or :
        (Database × W)
        → Result R × (Database × W)
        → Result (Option (Result R))
        → Result R × (Database × W)
    replay_or (db, w) executed (err e) = (err e, (db, w))
    replay_or (db, w) executed (ok (some result)) = (result, (db, w))
    replay_or (db, w) executed (ok none) = executed

    -- A step outside another step, once its id is taken.
    unfoldable pub durable_step :
        WorkflowState → ℤ → String → Body R W → Times → Database → W → Result R × (Database × W)
    unfolding check_step execute
    durable_step s step name f times db w =
        replay_or (db, w)
          (execute s step name times
            (f (record { workflow_id = s.workflow_id; step_id = step }) (db, w)))
          (check_step s step name db)

    -- Within a step, the body runs inline.
    unfoldable pub run_step :
        Bool
        → String
        → Body R W
        → Times
        → WorkflowState
        → Database
        → W
        → (Result R × (Database × W)) × WorkflowState
    unfolding next_step_id durable_step
    run_step is_within_step name f times s db w =
        if is_within_step
        then (f (record { workflow_id = s.workflow_id; step_id = s.step_id }) (db, w), s)
        else let (step, s') = next_step_id s in (durable_step s step name f times db w, s')
