-- ===== src/SystemDb/Steps/Laws.antt =====
-- What a workflow that runs again relies on: `record_operation_result` and
-- `check_operation_execution` (crates/dbos-core/src/db/sqlite.rs).
use dbos_transact_rust.Prelude.{
  ℤ, eq_ℤ, eq_ℤ_iff, String, ◌≡◌, refl, ap, ◌∙◌, inl, inr, Bool, true, false, ◌==◌, ==_refl, Option,
  none, some, List, [], ◌∷◌, arith, Option-cases, Bool-cases,
}
use dbos_transact_rust.Error.Make
use dbos_transact_rust.Error.Chain.{DbosError}
use dbos_transact_rust.Status.{cancelled, ◌is◌}
use dbos_transact_rust.Sql.{exists, first, insert_row}
use dbos_transact_rust.Sql.Laws.{first-some, first-insert_row-none}
use dbos_transact_rust.Database.{Result, ok, err, foreign_key_violation}
use dbos_transact_rust.Database.Types.{RecordOperationResultInput, RecordedResult}
use dbos_transact_rust.Database.Schema.{WorkflowRow, OutputRow, Database}
use dbos_transact_rust.SystemDb.Insert.{has_id, has_key}
use dbos_transact_rust.SystemDb.Outcome.{filter_empty}
use dbos_transact_rust.SystemDb.Steps.{
  output_row, record_operation_result, recorded_result, check_recorded, check_operation_execution,
}

pub eq_ℤ_refl : (a : ℤ) → eq_ℤ a a ≡ true
eq_ℤ_refl a = (eq_ℤ_iff a a).1 refl

pub exists-first {ℓ} :
    {A : Type ℓ} (p : A → Bool) (rs : List A) → exists p rs ≡ false → first p rs ≡ none
exists-first p [] h = refl
exists-first p (r ∷ rs) h = ground (arith, exists-first p rs)

-- The branches of `record_operation_result`.
pub record_cases {ℓ} :
    (P : Result (Unit {0}) × Database → Type ℓ) (i : RecordOperationResultInput) (db : Database)
    → (exists (has_key i.workflow_id i.step_id) db.operation_outputs ≡ true
        → P (err (Make.workflow_conflict_id i.workflow_id), db))
    → (exists (has_key i.workflow_id i.step_id) db.operation_outputs ≡ false
        → exists (has_id i.workflow_id) db.workflow_status ≡ true
        → P (
          ok tt,
          record db { operation_outputs = insert_row (output_row i) db.operation_outputs },
        ))
    → P (err (foreign_key_violation "failed to record operation result"), db)
    → P (record_operation_result i db)
unfolding record_operation_result
record_cases P i db taken added unowned =
    elim (Bool-cases (exists (has_key i.workflow_id i.step_id) db.operation_outputs)) [
      | inl t ↦ rw t (taken t)
      | inr f ↦ elim (Bool-cases (exists (has_id i.workflow_id) db.workflow_status)) [
        | inl t ↦ rw f (rw t (added f t))
        | inr g ↦ rw f (rw g unowned)
      ]
    ]

abbrev pub Recorded : RecordOperationResultInput → Database → Result (Unit {0}) × Database → Type 0
Recorded i db (ok u, after) =
    (first (has_key i.workflow_id i.step_id) after.operation_outputs ≡ some (output_row i))
    × (after.workflow_status ≡ db.workflow_status)
Recorded i db (err e, after) = Unit

pub record-Recorded :
    (i : RecordOperationResultInput) (db : Database) → Recorded i db (record_operation_result i db)
record-Recorded i db =
    record_cases (Recorded i db) i db (λ t. tt)
      (λ f t. (
        unfold output_row in
            ground (
              arith,
              first-insert_row-none (has_key i.workflow_id i.step_id) (output_row i)
                  db.operation_outputs
                  (exists-first (has_key i.workflow_id i.step_id) db.operation_outputs f),
              ==_refl i.workflow_id,
              eq_ℤ_refl i.step_id,
            ),
        refl,
      ))
      tt

of_Recorded :
    (i : RecordOperationResultInput) (db : Database) (q : Result (Unit {0}) × Database)
    → Recorded i db q
    → q.0 ≡ ok tt
    → (first (has_key i.workflow_id i.step_id) q.1.operation_outputs ≡ some (output_row i))
      × (q.1.workflow_status ≡ db.workflow_status)
of_Recorded i db (ok u, after) k h = k
of_Recorded i db (err e, after) k h = absurd (cc h)

pub check_found :
    (id : String) (step : ℤ) (name : String) (db : Database) (r : WorkflowRow) (o : OutputRow)
    → first (has_id id) db.workflow_status ≡ some r
    → (r.status is cancelled) ≡ false
    → first (has_key id step) db.operation_outputs ≡ some o
    → check_operation_execution id step name db ≡ recorded_result id step name o
unfolding check_operation_execution check_recorded
check_found id step name db r o e c f = rw (e, check_operation_execution) (rw c (rw f refl))

-- The branches of `check_operation_execution`.
pub check_cases {ℓ} :
    (P : Result (Option RecordedResult) → Type ℓ) (id : String) (step : ℤ) (name : String)
    (db : Database)
    → ((e : DbosError) → P (err e))
    → P (ok none)
    → ((o : OutputRow)
        → first (has_key id step) db.operation_outputs ≡ some o
        → P (recorded_result id step name o))
    → P (check_operation_execution id step name db)
unfolding check_operation_execution check_recorded
check_cases P id step name db failed nothing found =
    elim (Option-cases (first (has_id id) db.workflow_status)) [
      | inl e ↦ rw (e, check_operation_execution) (failed _)
      | inr (r, e) ↦ elim (Bool-cases (r.status is cancelled)) [
        | inl t ↦ rw (e, check_operation_execution) (rw t (failed _))
        | inr f ↦ elim (Option-cases (first (has_key id step) db.operation_outputs)) [
          | inl k ↦ rw (e, check_operation_execution) (rw f (rw k nothing))
          | inr (o, k) ↦ rw (e, check_operation_execution) (rw f (rw k (found o k)))
        ]
      ]
    ]

-- A step that is recorded successfully, of a workflow that is there and not cancelled, is what
-- the check for a step of this name and id then answers: its output, its error unless that is
-- empty, and its serialization.
pub check-record :
    (i : RecordOperationResultInput) (db : Database) (r : WorkflowRow)
    → first (has_id i.workflow_id) db.workflow_status ≡ some r
    → (r.status is cancelled) ≡ false
    → (record_operation_result i db).0 ≡ ok tt
    → check_operation_execution i.workflow_id i.step_id i.step_name (record_operation_result i db).1
      ≡ ok (
          some (record {
            output = i.output;
            error = filter_empty i.error;
            serialization = i.serialization;
          }))
check-record i db r e c h =
    let (f, same) = of_Recorded i db (record_operation_result i db) (record-Recorded i db) h in
    check_found i.workflow_id i.step_id i.step_name (record_operation_result i db).1 r
      (output_row i) (ap (first (has_id i.workflow_id)) same ∙ e) c f
    ∙ (unfold recorded_result output_row in rw (==_refl i.step_name) refl)

-- A second result for a step that is recorded is refused as a conflict, and changes nothing.
pub record-record :
    (i j : RecordOperationResultInput) (db : Database)
    → j.workflow_id ≡ i.workflow_id
    → j.step_id ≡ i.step_id
    → (record_operation_result i db).0 ≡ ok tt
    → let after = (record_operation_result i db).1 in
      record_operation_result j after ≡ (err (Make.workflow_conflict_id j.workflow_id), after)
unfolding record_operation_result
record-record i j db e k h = taken j _ (rw (e, k) there)
  where
    there :
        exists (has_key i.workflow_id i.step_id) (record_operation_result i db).1.operation_outputs
        ≡ true
    there =
        (first-some (has_key i.workflow_id i.step_id)
          (record_operation_result i db).1.operation_outputs (output_row i)
          (of_Recorded i db (record_operation_result i db) (record-Recorded i db) h).0).1

    taken :
        (j : RecordOperationResultInput) (after : Database)
        → exists (has_key j.workflow_id j.step_id) after.operation_outputs ≡ true
        → record_operation_result j after ≡ (err (Make.workflow_conflict_id j.workflow_id), after)
    taken j after t = rw t

-- A step that is recorded under another name is an unexpected step, when its workflow is there
-- and not cancelled.
pub check_unexpected :
    (id : String) (step : ℤ) (name : String) (db : Database) (r : WorkflowRow) (o : OutputRow)
    → first (has_id id) db.workflow_status ≡ some r
    → (r.status is cancelled) ≡ false
    → first (has_key id step) db.operation_outputs ≡ some o
    → (name == o.function_name) ≡ false
    → check_operation_execution id step name db
      ≡ err (Make.unexpected_step id step name o.function_name)
check_unexpected id step name db r o e c f n =
    check_found id step name db r o e c f ∙ (unfold recorded_result in rw n refl)
