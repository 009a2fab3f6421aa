-- ===== src/Examples/Deletions.antt =====
-- A workflow with one child.
use dbos_transact_rust.Prelude.{
  ℕ, ◌<◌, String, ◌≡◌, subst, true, ◌==◌, ==_iff, inl, inr, some, [], ◌∷◌, arith, if◌then◌else◌,
  Bool-cases,
}
use dbos_transact_rust.Status.{success}
use dbos_transact_rust.Database.Schema.{WorkflowRow, Database}
use dbos_transact_rust.SystemDb.Insert.{new_row}
use dbos_transact_rust.SystemDb.Manage.{get_workflow_children}
use dbos_transact_rust.Management.{delete_with_children}
use dbos_transact_rust.Management.Deletion.{Descends, Ranked, Gone, delete_with_children_all}
use dbos_transact_rust.Examples.{row_of, database_of}

abbrev child_row : WorkflowRow
child_row = record (row_of "w2" success) { parent_workflow_id = some "w1" }

abbrev family : Database
family = database_of (row_of "w1" success ∷ child_row ∷ [])

abbrev height : String → ℕ
height id = if id == "w1" then 1 else 0

family-Ranked : Ranked family height
unfolding get_workflow_children new_row ◌==◌
family-Ranked x y h = elim (Bool-cases ("w1" == x)) [
  | inl t ↦
      subst (λ z. height y < height z) ((==_iff "w1" x).0 t)
        (subst (λ z. height z < 1) ((==_iff "w2" y).0 (ground (arith, rw t at h))) (omega arith))
  | inr n ↦ absurd (cc (rw n at h))
]

delete_with_children_all_example :
    (fuel : ℕ) × (after : Database) × (delete_with_children fuel "w1" true family ≡ some after)
    × Gone "w1" after
    × ((x : String) → Descends family "w1" x → Gone x after)
delete_with_children_all_example = delete_with_children_all family "w1" height family-Ranked
