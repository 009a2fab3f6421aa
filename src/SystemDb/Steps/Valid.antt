-- ===== src/SystemDb/Steps/Valid.antt =====
-- `record_operation_result` and the invariant of the tables
-- (crates/dbos-core/src/db/sqlite.rs).
use dbos_transact_rust.Prelude.{inl, inr, Bool-cases}
use dbos_transact_rust.Sql.{exists}
use dbos_transact_rust.Database.Types.{RecordOperationResultInput}
use dbos_transact_rust.Database.Schema.{Database}
use dbos_transact_rust.SystemDb.Insert.{has_id, has_key}
use dbos_transact_rust.SystemDb.Steps.{output_row, record_operation_result}
use dbos_transact_rust.SystemDb.Invariant.{IsValid, insert_step-IsValid}

pub record_operation_result-IsValid :
    (i : RecordOperationResultInput) {db : Database}
    → IsValid db
    → IsValid (record_operation_result i db).1
unfolding record_operation_result
record_operation_result-IsValid i {db} v =
    elim (Bool-cases (exists (has_key i.workflow_id i.step_id) db.operation_outputs)) [
      | inl t ↦ rw t v
      | inr f ↦ elim (Bool-cases (exists (has_id i.workflow_id) db.workflow_status)) [
        | inl t ↦ rw f (rw t (insert_step-IsValid (output_row i) f t v))
        | inr g ↦ rw f (rw g v)
      ]
    ]
