-- ===== src/SystemDb/Outcome/Valid.antt =====
-- `update_workflow_outcome` and the invariant of the tables
-- (crates/dbos-core/src/db/sqlite.rs).
use dbos_transact_rust.Prelude.{ℕ, String, refl, inl, Option}
use dbos_transact_rust.Status.{WorkflowStatusType}
use dbos_transact_rust.Database.Schema.{Database}
use dbos_transact_rust.SystemDb.Outcome.{with_outcome, update_workflow_outcome}
use dbos_transact_rust.SystemDb.Invariant.{IsValid, KeepsKeys, update_where-IsValid}

pub with_outcome-KeepsKeys :
    (status : WorkflowStatusType) (output : Option String) (err_str : String) (u c : ℕ)
    → KeepsKeys (with_outcome status output err_str u c)
unfolding with_outcome
with_outcome-KeepsKeys status output err_str u c = record { id = λ r. refl; slot = λ r. inl refl }

pub update_workflow_outcome-IsValid :
    (id : String) (status : WorkflowStatusType) (output : Option String) (err_str : String)
    (u c : ℕ) {db : Database}
    → IsValid db
    → IsValid (update_workflow_outcome id status output err_str u c db)
unfolding update_workflow_outcome
update_workflow_outcome-IsValid id status output err_str u c v =
    update_where-IsValid _ _ (with_outcome-KeepsKeys status output err_str u c) v
