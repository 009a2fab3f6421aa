-- ===== src/SystemDb/Transitions/Rows.antt =====
-- How one statement moves the row of a workflow.
use dbos_transact_rust.Prelude.{
  String, ◌≡◌, refl, Bool, true, none, some, List, [], ◌∷◌, arith, if◌then◌else◌, Bool-cases, inl,
  inr, ◌⊎◌, ==_iff,
}
use dbos_transact_rust.Status.{WorkflowStatusType}
use dbos_transact_rust.Sql.{update_where, first, insert_row, delete_where}
use dbos_transact_rust.Sql.Laws.{All, Pairs, first-map, first-insert_row-some}
use dbos_transact_rust.Database.Schema.{WorkflowRow}
use dbos_transact_rust.SystemDb.Insert.{has_id}
use dbos_transact_rust.SystemDb.Invariant.{Apart, KeepsKeys}
use dbos_transact_rust.SystemDb.Transitions.{Cause, Moves, here, step}

pub join_moves : {k : Cause} {s t u : WorkflowStatusType} → Moves k s t → Moves k t u → Moves k s u
join_moves here q = q
join_moves (step e p) q = step e (join_moves p q)

-- Every row is still there, at a status that the moves of an operation reach.
abbrev pub Follows : Cause → List WorkflowRow → List WorkflowRow → Type 0
Follows k rows rows' =
    (id : String) (r : WorkflowRow)
    → first (has_id id) rows ≡ some r
    → (s : WorkflowRow) × (first (has_id id) rows' ≡ some s) × Moves k r.status s.status

module _ (k : Cause) where
  pub Follows-refl : (rows : List WorkflowRow) → Follows k rows rows
  Follows-refl rows id r e = (r, e, here)

  pub Follows-trans :
      (xs ys zs : List WorkflowRow) → Follows k xs ys → Follows k ys zs → Follows k xs zs
  Follows-trans xs ys zs p q id r e =
      let a = p id r e in let b = q id a.0 a.1 in (b.0, b.1, join_moves a.2 b.2)

  pub Follows-insert_row :
      (r : WorkflowRow) (rows : List WorkflowRow) → Follows k rows (insert_row r rows)
  Follows-insert_row r rows id s e = (s, first-insert_row-some (has_id id) r rows s e, here)

-- An UPDATE whose condition allows a move makes it.
pub Follows-update_where :
    (c : Cause) (p : WorkflowRow → Bool) (f : WorkflowRow → WorkflowRow)
    → KeepsKeys f
    → ((r : WorkflowRow) → p r ≡ true → Moves c r.status (f r).status)
    → (rows : List WorkflowRow) → Follows c rows (update_where p f rows)
Follows-update_where c p f k edge rows id r e = (
  if p r then f r else r,
  first-map (has_id id) (λ s. if p s then f s else s) rows r
      (λ s. elim (Bool-cases (p s)) [ inl t ↦ rw t (rw (k.id s)) | inr t ↦ rw t ]) e,
  elim (Bool-cases (p r)) [ inl t ↦ rw t (edge r t) | inr t ↦ rw t here ],
)

module _ (p : WorkflowRow → Bool) (id : String) where
  pub first-delete_none :
      (rows : List WorkflowRow)
      → first (has_id id) rows ≡ none
      → first (has_id id) (delete_where p rows) ≡ none
  first-delete_none [] e = refl
  first-delete_none (r ∷ rows) e = ground (arith, first-delete_none rows)

  Apart-none :
      (r : WorkflowRow) (rows : List WorkflowRow)
      → has_id id r ≡ true
      → All (Apart r) rows
      → first (has_id id) (delete_where p rows) ≡ none
  Apart-none r [] h a = refl
  Apart-none r (s ∷ rows) h a = ground (
    arith,
    Apart-none r rows h a.1,
    ==_iff r.workflow_uuid id,
    ==_iff s.workflow_uuid id,
    ==_iff r.workflow_uuid s.workflow_uuid,
  )

  -- A DELETE leaves a row as it was, or takes it away.
  pub first-delete_where :
      (rows : List WorkflowRow) (r : WorkflowRow)
      → Pairs Apart rows
      → first (has_id id) rows ≡ some r
      → (first (has_id id) (delete_where p rows) ≡ some r)
        ⊎ (first (has_id id) (delete_where p rows) ≡ none)
  first-delete_where [] r a e = absurd (ground arith)
  first-delete_where (s ∷ rows) r a e =
      ground (arith, first-delete_where rows r a.1, Apart-none s rows)
