-- ===== src/SystemDb/Insert/Valid.antt =====
-- `insert_workflow_status` and the invariant of the tables
-- (crates/dbos-core/src/db/sqlite.rs).
use dbos_transact_rust.Prelude.{ℕ, refl, inl, inr, subst, Bool, none, some, Option, String}
use dbos_transact_rust.Sql.Laws.{first-none}
use dbos_transact_rust.Database.{Result, ok, err}
use dbos_transact_rust.Database.Types.{ChildRecord, InsertWorkflowStatusInput, InsertWorkflowResult}
use dbos_transact_rust.Database.Schema.{WorkflowRow, Database}
use dbos_transact_rust.SystemDb.Insert.{
  merge, add_child, child_row, dead_letter, park, complete, insert_workflow_status, new_row,
}
use dbos_transact_rust.SystemDb.Insert.Cases.{add_child_cases, complete_cases, insert_cases}
use dbos_transact_rust.SystemDb.Invariant.{
  IsValid, KeepsKeys, update_where-IsValid, insert_row-IsValid, insert_step-IsValid,
}

pub merge-KeepsKeys : (i : Bool) (new : WorkflowRow) → KeepsKeys (merge i new)
unfolding merge
merge-KeepsKeys i new = record { id = λ r. refl; slot = λ r. inr (refl, refl) }

pub dead_letter-KeepsKeys : KeepsKeys dead_letter
unfolding dead_letter
dead_letter-KeepsKeys = record { id = λ r. refl; slot = λ r. inl refl }

pub park-IsValid : (id : String) {db : Database} → IsValid db → IsValid (park id db)
unfolding park
park-IsValid id v = update_where-IsValid _ _ dead_letter-KeepsKeys v

abbrev ValidIfOk : Result Database → Type 0
ValidIfOk (ok db) = IsValid db
ValidIfOk (err e) = Unit

add_child-ValidIfOk :
    (c : Option ChildRecord) {db : Database} → IsValid db → ValidIfOk (add_child c db)
unfolding add_child
add_child-ValidIfOk none v = v
add_child-ValidIfOk (some c) {db} v =
    add_child_cases ValidIfOk c db (λ e. tt)
      (λ fresh owned. unfold child_row in insert_step-IsValid (child_row c) fresh owned v)

complete-IsValid :
    (input : InsertWorkflowStatusInput) (result : InsertWorkflowResult) (after db : Database)
    → IsValid after
    → IsValid db
    → IsValid (complete input result after db).1
complete-IsValid input result after db va v =
    complete_cases (λ p. IsValid p.1) input result after db (λ e. v)
      (λ done c a x. park-IsValid input.status.id (subst ValidIfOk a (add_child-ValidIfOk _ va)))
      (λ done c a x. subst ValidIfOk a (add_child-ValidIfOk _ va))

-- Whatever the outcome, the database after an insert has unique workflow ids, at most one holder
-- of each deduplication slot, unique step ids, and no row without its workflow, if it did before.
pub insert_workflow_status-IsValid :
    (input : InsertWorkflowStatusInput) (now : ℕ) (db : Database)
    → IsValid db
    → IsValid (insert_workflow_status input now db).1
insert_workflow_status-IsValid input now db v =
    insert_cases (λ p. IsValid p.1) input now db
      (λ old e.
        complete-IsValid input _ _ db
          (update_where-IsValid _ _ (merge-KeepsKeys input.increment_attempts (new_row input now))
            v)
          v)
      (λ e f.
        complete-IsValid input _ _ db
          (insert_row-IsValid (new_row input now) (first-none _ db.workflow_status e) f v) v)
      (λ e f. v)
