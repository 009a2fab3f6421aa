-- ===== src/Step/Sleep.antt =====
-- Durable sleep (crates/dbos-core/src/workflow/step.rs). The wait itself, which a shutdown cuts
-- short, is not modelled: the result is the time to wait.
pub mod Laws
use dbos_transact_rust.Prelude.{
  ℕ, ◌+◌, ◌-◌, ℤ, String, Bool, true, false, Option, none, some, if◌then◌else◌,
}
use dbos_transact_rust.Error.{conflicting_id}
use dbos_transact_rust.Error.Chain.{DbosError, foreign, is_code}
use dbos_transact_rust.Error.Make
use dbos_transact_rust.Database.{Result, ok, err, ◌>>=◌}
use dbos_transact_rust.Database.Types.{RecordOperationResultInput, RecordedResult}
use dbos_transact_rust.Database.Schema.{Database}
use dbos_transact_rust.SystemDb.Steps.{record_operation_result, check_operation_execution}
use dbos_transact_rust.Serialization.{
  Codecs, Typed, json_serializer, json_serializer_name, encode, decode,
}
use dbos_transact_rust.Step.{WorkflowState, next_step_id}

abbrev pub sleep_name : String
sleep_name = "DBOS.sleep"

abbrev sleep_error : String → String → DbosError
sleep_error id text = Make.step_execution id sleep_name text (foreign text)

-- The readings of the clock: for the wake time, for the record, and before the wait.
pub record SleepClock : Type 0 where
  pub called : ℕ
  pub started : ℕ
  pub completed : ℕ
  pub waiting : ℕ

abbrev pub remaining : SleepClock → Result ℕ × Database → Result ℕ × Database
remaining clock (ok end, db) = (ok (end - clock.waiting), db)
remaining clock (err e, db) = (err e, db)

-- `missing` is the text of the error when a conflicting record cannot be found.
module _ {V : Type 0} (c : Codecs V) (t : Typed ℕ V) (missing : String) where
  unfoldable pub sleep_input :
      WorkflowState → ℤ → SleepClock → Option String → RecordOperationResultInput
  sleep_input s step clock encoded = record {
    workflow_id = s.workflow_id;
    step_id = step;
    step_name = sleep_name;
    output = encoded;
    error = none;
    child_workflow_id = none;
    started_at_ms = clock.started;
    completed_at_ms = clock.completed;
    serialization = json_serializer_name;
  }

  -- The wake time of a record.
  unfoldable pub recorded_end : RecordedResult → Result ℕ
  recorded_end r = decode t (json_serializer c) r.output

  abbrev pub required : String → Option RecordedResult → Result ℕ
  unfolding recorded_end
  required id none = err (sleep_error id missing)
  required id (some r) = recorded_end r

  -- Another process recorded the wake time first: it is read.
  abbrev pub conflict_end : WorkflowState → ℤ → DbosError → Database → Result ℕ
  conflict_end s step e db =
      if is_code e conflicting_id
      then check_operation_execution s.workflow_id step sleep_name db >>= required s.workflow_id
      else err e

  abbrev pub recorded_or :
      WorkflowState → ℤ → ℕ → Result (Unit {0}) × Database → Result ℕ × Database
  recorded_or s step end (ok u, db) = (ok end, db)
  recorded_or s step end (err e, db) = (conflict_end s step e db, db)

  abbrev pub record_encoded_end :
      WorkflowState → ℤ → SleepClock → ℕ → Result (Option String) → Database → Result ℕ × Database
  unfolding sleep_input
  record_encoded_end s step clock end (err e) db = (err e, db)
  record_encoded_end s step clock end (ok encoded) db =
      recorded_or s step end (record_operation_result (sleep_input s step clock encoded) db)

  -- `others` is what other executors do between the check and the record.
  abbrev pub end_from :
      WorkflowState
      → ℤ
      → ℕ
      → SleepClock
      → (Database → Database)
      → Database
      → Result (Option RecordedResult)
      → Result ℕ × Database
  unfolding record_encoded_end recorded_end
  end_from s step duration clock others db (err e) = (err e, db)
  end_from s step duration clock others db (ok (some r)) = (recorded_end r, db)
  end_from s step duration clock others db (ok none) =
      let end = clock.called + duration in
      record_encoded_end s step clock end (encode t (json_serializer c) end) (others db)

  -- When to wake, and the database.
  unfoldable pub sleep_end :
      WorkflowState → ℤ → ℕ → SleepClock → (Database → Database) → Database → Result ℕ × Database
  unfolding end_from
  sleep_end s step duration clock others db =
      end_from s step duration clock others db
        (check_operation_execution s.workflow_id step sleep_name db)

module _ {V : Type 0} (c : Codecs V) (t : Typed ℕ V) where
  unfoldable pub sleep :
      Bool
      → ℕ
      → SleepClock
      → (Database → Database)
      → WorkflowState
      → Database
      → (Result ℕ × Database) × WorkflowState
  unfolding next_step_id sleep_end
  sleep is_within_step duration clock others s db =
      if is_within_step
      then ((err (sleep_error s.workflow_id "cannot call Sleep within a step"), db), s)
      else let (step, s') = next_step_id s in
        (
          remaining clock
              (sleep_end c t "no recorded sleep end time" s step duration clock others db),
          s',
        )
