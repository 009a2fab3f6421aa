-- ===== src/SystemDb/Steps/Recall.antt =====
-- What a recorded step answers, now and later (crates/dbos-core/src/db/sqlite.rs).
use dbos_transact_rust.Prelude.{ℤ, String, ◌≡◌, refl, ◌∙◌, false, ==_refl, some, List}
use dbos_transact_rust.Status.{cancelled, ◌is◌}
use dbos_transact_rust.Sql.{first}
use dbos_transact_rust.Sql.Laws.{All}
use dbos_transact_rust.Database.{Result, ok, err}
use dbos_transact_rust.Database.Types.{RecordOperationResultInput, RecordedResult}
use dbos_transact_rust.Database.Schema.{WorkflowRow, OutputRow, Database}
use dbos_transact_rust.SystemDb.Insert.{has_id, has_key}
use dbos_transact_rust.SystemDb.Outcome.{filter_empty}
use dbos_transact_rust.SystemDb.Steps.{
  output_row, record_operation_result, recorded_result, check_operation_execution,
}
use dbos_transact_rust.SystemDb.Steps.Laws.{Recorded, record-Recorded, check_found, check_cases}
use dbos_transact_rust.SystemDb.Steps.Durable.{IsUndeleting, run_keeps_step}
use dbos_transact_rust.SystemDb.Run.{Op, run}

-- The step is recorded with this result.
abbrev pub Recalls : String → ℤ → String → RecordedResult → Database → Type 0
Recalls id step name rec db =
    (o : OutputRow) × (first (has_key id step) db.operation_outputs ≡ some o)
    × (recorded_result id step name o ≡ ok (some rec))

pub checked-Recalls :
    (id : String) (step : ℤ) (name : String) (rec : RecordedResult) (db : Database)
    → check_operation_execution id step name db ≡ ok (some rec)
    → Recalls id step name rec db
checked-Recalls id step name rec db =
    check_cases (λ x. x ≡ ok (some rec) → Recalls id step name rec db) id step name db
      (λ e h. absurd (cc h)) (λ h. absurd (cc h)) (λ o k h. (o, k, h))

-- What a check reads of the record that this input makes.
abbrev pub record_of : RecordOperationResultInput → RecordedResult
record_of i = record {
  output = i.output;
  error = filter_empty i.error;
  serialization = i.serialization;
}

-- What a successful record leaves.
abbrev pub RecallsAfter : RecordOperationResultInput → Result (Unit {0}) × Database → Type 0
RecallsAfter i (ok u, after) = Recalls i.workflow_id i.step_id i.step_name (record_of i) after
RecallsAfter i (err e, after) = Unit

of_Recorded :
    (i : RecordOperationResultInput) (db : Database) (q : Result (Unit {0}) × Database)
    → Recorded i db q
    → RecallsAfter i q
unfolding recorded_result output_row
of_Recorded i db (ok u, after) k = (output_row i, k.0, rw (==_refl i.step_name) refl)
of_Recorded i db (err e, after) k = tt

pub record-RecallsAfter :
    (i : RecordOperationResultInput) (db : Database) → RecallsAfter i (record_operation_result i db)
record-RecallsAfter i db = of_Recorded i db (record_operation_result i db) (record-Recorded i db)

-- After any history without deletions, the check of a workflow that is there and not cancelled
-- answers with the recorded result.
pub recalled :
    (id : String) (step : ℤ) (name : String) (rec : RecordedResult) (ops : List Op) (db : Database)
    (row : WorkflowRow)
    → Recalls id step name rec db
    → All IsUndeleting ops
    → first (has_id id) (run ops db).workflow_status ≡ some row
    → (row.status is cancelled) ≡ false
    → check_operation_execution id step name (run ops db) ≡ ok (some rec)
recalled id step name rec ops db row (o, k, m) u r n =
    check_found id step name (run ops db) row o r n (run_keeps_step ops db id step o u k) ∙ m

of_RecallsAfter :
    (i : RecordOperationResultInput) (q : Result (Unit {0}) × Database)
    → RecallsAfter i q
    → q.0 ≡ ok tt
    → Recalls i.workflow_id i.step_id i.step_name (record_of i) q.1
of_RecallsAfter i (ok u, after) k h = k
of_RecallsAfter i (err e, after) k h = absurd (cc h)

pub record-Recalls :
    (i : RecordOperationResultInput) (db : Database)
    → (record_operation_result i db).0 ≡ ok tt
    → Recalls i.workflow_id i.step_id i.step_name (record_of i) (record_operation_result i db).1
record-Recalls i db = of_RecallsAfter i (record_operation_result i db) (record-RecallsAfter i db)
