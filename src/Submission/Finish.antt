-- ===== src/Submission/Finish.antt =====
-- What the task of a started workflow does with the body's result: the end of
-- `run_workflow_erased` (crates/dbos-core/src/workflow/run.rs).
use dbos_transact_rust.Prelude.{
  ℕ, String, ◌≡◌, refl, false, not, ◌==◌, Option, none, some, List, ◌∷◌, if◌then◌else◌,
}
use dbos_transact_rust.Error.{conflicting_id}
use dbos_transact_rust.Error.Chain.{DbosError, is_code}
use dbos_transact_rust.Status.{success, error, cancelled, ◌is◌}
use dbos_transact_rust.Sql.{first, select}
use dbos_transact_rust.Database.{Result, ok, err, or_default}
use dbos_transact_rust.Database.Types.{AwaitResult}
use dbos_transact_rust.Database.Schema.{WorkflowRow, Database}
use dbos_transact_rust.SystemDb.Insert.{has_id, get_or}
use dbos_transact_rust.SystemDb.Outcome.{
  filter_empty, update_workflow_outcome, await_workflow_result,
}
use dbos_transact_rust.SystemDb.Outcome.Laws.{await-outcome}
use dbos_transact_rust.Serialization.{Codecs, serialize_workflow_error, deserialize_workflow_error}
use dbos_transact_rust.Submission.{ActiveEntry}

pub record EncodedOutcome : Type 0 where
  pub output : Option String
  pub serialization : String

-- The two clock readings of `update_workflow_outcome`.
pub record Clock : Type 0 where
  pub updated : ℕ
  pub completed : ℕ

module _ {V : Type 0} (c : Codecs V) where
  abbrev awaited_with : DbosError → AwaitResult → Option String → Result EncodedOutcome
  awaited_with e r none = ok (record { output = r.output; serialization = r.serialization })
  awaited_with e r (some text) =
      err (get_or e (deserialize_workflow_error c (some text) r.serialization))

  -- What the durable result of another execution makes of the conflict `e`.
  unfoldable pub awaited : DbosError → Result AwaitResult → Result EncodedOutcome
  awaited e (ok r) = awaited_with e r r.error
  awaited e (err d) = err d

  abbrev awaited_later : DbosError → Option (Result AwaitResult) → Option (Result EncodedOutcome)
  unfolding awaited
  awaited_later e none = none
  awaited_later e (some r) = some (awaited e r)

  -- The active workflows once the task is done; a task that still polls is active.
  abbrev left :
      String
      → List (String × ActiveEntry)
      → Option (Result EncodedOutcome)
      → List (String × ActiveEntry)
  left id active none = active
  left id active (some outcome) = select (λ a. not (a.0 == id)) active

  abbrev leaving :
      String
      → List (String × ActiveEntry)
      → Option (Result EncodedOutcome) × Database
      → Option (Result EncodedOutcome) × Database × List (String × ActiveEntry)
  leaving id active (outcome, db) = (outcome, db, left id active outcome)

  -- The outcome that the handle gets, the database, and the active workflows; `later` are the
  -- databases that polling for another execution's result sees, and `none` is a task that still
  -- polls.
  unfoldable pub finish :
      String
      → String
      → Result (Option String)
      → Clock
      → List Database
      → List (String × ActiveEntry)
      → Database
      → Option (Result EncodedOutcome) × Database × List (String × ActiveEntry)
  unfolding awaited_later
  finish id serialization (ok output) t later active db = leaving id active (
    some (ok (record { output = output; serialization = serialization })),
    update_workflow_outcome id success output "" t.updated t.completed db,
  )
  finish id serialization (err e) t later active db = leaving id active (
      if is_code e conflicting_id then (awaited_later e (await_workflow_result id later), db) else (
        some (err e),
        update_workflow_outcome id error none (serialize_workflow_error c e serialization) t.updated
            t.completed db,
      ))

  -- What waits of others answer after the task has stored a result.
  abbrev pub stored_answer : String → WorkflowRow → Result (Option String) → AwaitResult
  stored_answer serialization r (ok output) = record {
    output = output;
    error = none;
    serialization = or_default r.serialization;
  }
  stored_answer serialization r (err e) = record {
    output = none;
    error = filter_empty (some (serialize_workflow_error c e serialization));
    serialization = or_default r.serialization;
  }

  -- A result that is not an error with the code of a conflict.
  abbrev pub IsOwnResult : Result (Option String) → Type 0
  IsOwnResult (ok output) = Unit
  IsOwnResult (err e) = is_code e conflicting_id ≡ false

  -- When the body of a workflow that is not cancelled ends, other than by a conflict, whoever
  -- waits for the workflow gets at the next poll the output that the body returned, or the text
  -- of its error.
  pub await-finish :
      (id serialization : String) (result : Result (Option String)) (t : Clock)
      (seen later : List Database) (active : List (String × ActiveEntry)) (db : Database)
      (r : WorkflowRow)
      → first (has_id id) db.workflow_status ≡ some r
      → (r.status is cancelled) ≡ false
      → IsOwnResult result
      → await_workflow_result id ((finish id serialization result t seen active db).1 ∷ later)
        ≡ some (ok (stored_answer serialization r result))
  unfolding finish ◌==◌
  await-finish id serialization (ok output) t seen later active db r e n o =
      await-outcome id success output "" t.updated t.completed db later r e n refl
  await-finish id serialization (err d) t seen later active db r e n o = rw o (
      await-outcome id error none (serialize_workflow_error c d serialization) t.updated t.completed
        db later r e n refl)
