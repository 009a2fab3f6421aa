-- ===== src/SystemDb/Manage/Fork.antt =====
-- `fork_workflow` and the invariant of the tables
-- (crates/dbos-core/src/db/sqlite.rs).
use dbos_transact_rust.Prelude.{
  ◌++◌, ℕ, ℤ, pos, ltb_ℤ, String, ◌≡◌, refl, inl, inr, true, false, ◌==◌, ==_iff, ==_refl, none,
  some, List, [], ◌∷◌, map, arith, Option-cases, Bool-cases, subst,
}
use dbos_transact_rust.Sql.{exists, first, select, update_where, insert_row}
use dbos_transact_rust.Sql.Laws.{All, Pairs, exists-insert_row}
use dbos_transact_rust.Error.Chain.{DbosError}
use dbos_transact_rust.Database.{Result, ok, err}
use dbos_transact_rust.Database.Types.{ForkInput}
use dbos_transact_rust.Database.Schema.{WorkflowRow, OutputRow, Database}
use dbos_transact_rust.SystemDb.Insert.{has_id, same_slot, get_or}
use dbos_transact_rust.SystemDb.Invariant.{
  IsValid, StepApart, Owned, KeepsKeys, update_where-IsValid, insert_row-IsValid, Owned-map,
  where-KeepsKeys,
}
use dbos_transact_rust.SystemDb.Manage.{
  forked_row, mark_forked, copy_step, is_copied, fork_rows, fork_workflow,
}

module _ {ℓ κ} {A : Type ℓ} where
  All-append : (P : A → Type κ) (xs ys : List A) → All P xs → All P ys → All P (xs ++ ys)
  All-append P [] ys h k = k
  All-append P (x ∷ xs) ys h k = (h.0, All-append P xs ys h.1 k)

  Pairs-append :
      (R : A → A → Type κ) (xs ys : List A)
      → Pairs R xs
      → Pairs R ys
      → All (λ x. All (R x) ys) xs
      → Pairs R (xs ++ ys)
  Pairs-append R [] ys h k c = k
  Pairs-append R (x ∷ xs) ys h k c =
      (All-append (R x) xs ys h.0 c.0, Pairs-append R xs ys h.1 k c.1)

-- Copies of one workflow's steps are as far apart as the steps.
copies_apart :
    (original forked : String) (start : ℤ) (os : List OutputRow)
    → Pairs StepApart os
    → Pairs StepApart (map (copy_step forked) (select (is_copied original start) os))
unfolding copy_step
copies_apart original forked start [] h = tt
copies_apart original forked start (o ∷ os) h = elim (Bool-cases (is_copied original start o)) [
  | inl t ↦ rw t (from o t os h.0, copies_apart original forked start os h.1)
  | inr f ↦ rw f (copies_apart original forked start os h.1)
]
  where
    from :
        (o : OutputRow)
        → is_copied original start o ≡ true
        → (ps : List OutputRow) → All (StepApart o) ps
        → All
            (StepApart (copy_step forked o))
            (map (copy_step forked) (select (is_copied original start) ps))
    from o t [] k = tt
    from o t (p ∷ ps) k = elim (Bool-cases (is_copied original start p)) [
      | inl u ↦ rw u (
        ground (
          arith,
          ==_iff o.workflow_uuid original,
          ==_iff p.workflow_uuid original,
          ==_iff o.workflow_uuid p.workflow_uuid,
        ),
        from o t ps k.1,
      )
      | inr u ↦ rw u (from o t ps k.1)
    ]

-- The new workflow holds no deduplication slot.
no_slot :
    (r : WorkflowRow) (rows : List WorkflowRow)
    → r.deduplication_id ≡ none
    → exists (same_slot r) rows ≡ false
no_slot r [] h = refl
no_slot r (s ∷ rows) h = ground (arith, no_slot r rows h)

-- A workflow that is not there has no steps.
pub stranger :
    (forked : String) (rows : List WorkflowRow) (id : String)
    → exists (has_id forked) rows ≡ false
    → Owned rows id
    → (id == forked) ≡ false
stranger forked rows id h k = elim (Bool-cases (id == forked)) [
  | inr f ↦ f
  | inl t ↦ absurd (clash (subst (Owned rows) ((==_iff id forked).0 t) k))
]
  where
    clash : exists (has_id forked) rows ≡ true → ⊥
    clash e = cc

module _ (forked : String) where
  copies_foreign :
      (o : OutputRow) (cs : List OutputRow)
      → (o.workflow_uuid == forked) ≡ false
      → All (StepApart o) (map (copy_step forked) cs)
  unfolding copy_step
  copies_foreign o [] h = tt
  copies_foreign o (c ∷ cs) h = (rw h refl, copies_foreign o cs h)

  copies-Owned :
      (rows : List WorkflowRow) (cs : List OutputRow)
      → Owned rows forked
      → All (λ o. Owned rows o.workflow_uuid) (map (copy_step forked) cs)
  unfolding copy_step
  copies-Owned rows [] h = tt
  copies-Owned rows (c ∷ cs) h = (h, copies-Owned rows cs h)

  All-foreign :
      (rows : List WorkflowRow) (cs os : List OutputRow)
      → exists (has_id forked) rows ≡ false
      → All (λ o. Owned rows o.workflow_uuid) os
      → All (λ o. All (StepApart o) (map (copy_step forked) cs)) os
  All-foreign rows cs [] h k = tt
  All-foreign rows cs (o ∷ os) h k = (
    copies_foreign o cs (stranger forked rows o.workflow_uuid h k.0),
    All-foreign rows cs os h k.1,
  )

pub mark_forked-KeepsKeys : KeepsKeys mark_forked
unfolding mark_forked
mark_forked-KeepsKeys = record { id = λ r. refl; slot = λ r. inr (refl, refl) }

-- Adding copied steps to a valid database that has their new workflow.
add_copies-IsValid :
    (cs : List OutputRow) {db : Database}
    → IsValid db
    → Pairs StepApart cs
    → All (λ o. All (StepApart o) cs) db.operation_outputs
    → All (λ o. Owned db.workflow_status o.workflow_uuid) cs
    → IsValid (record db { operation_outputs = db.operation_outputs ++ cs })
add_copies-IsValid cs {db} v apart foreign owned = record {
  rows_apart = v.rows_apart;
  steps_apart = Pairs-append StepApart db.operation_outputs cs v.steps_apart apart foreign;
  steps_owned = All-append _ db.operation_outputs cs v.steps_owned owned;
  notifications_owned = v.notifications_owned;
  events_owned = v.events_owned;
  history_owned = v.history_owned;
  streams_owned = v.streams_owned;
}

module _ (input : ForkInput) (forked : String) (now : ℕ) (orig : WorkflowRow) {db : Database}
    (fresh : exists (has_id forked) db.workflow_status ≡ false) (v : IsValid db) where
  with_fork : Database
  with_fork = record db {
    workflow_status =
        update_where (has_id input.original_workflow_id) mark_forked
          (insert_row (forked_row input forked now orig) db.workflow_status);
  }

  with_fork-IsValid : IsValid with_fork
  unfolding with_fork forked_row
  with_fork-IsValid = update_where-IsValid _ _ mark_forked-KeepsKeys (
      insert_row-IsValid (forked_row input forked now orig) fresh
        (no_slot (forked_row input forked now orig) db.workflow_status refl) v)

  with_fork_owns : Owned with_fork.workflow_status forked
  unfolding with_fork forked_row
  with_fork_owns =
      Owned-map _ (where-KeepsKeys (has_id input.original_workflow_id) mark_forked-KeepsKeys)
        (insert_row (forked_row input forked now orig) db.workflow_status) forked
        (ground (
          arith,
          exists-insert_row (has_id forked) (forked_row input forked now orig) db.workflow_status,
          ==_refl forked,
        ))

  fork_rows-IsValid : IsValid (fork_rows input forked now orig db)
  unfolding fork_rows with_fork
  fork_rows-IsValid = elim (Bool-cases (ltb_ℤ (pos 0) input.start_step)) [
    | inr f ↦ rw f with_fork-IsValid
    | inl t ↦ rw t (
        add_copies-IsValid _ with_fork-IsValid
          (copies_apart input.original_workflow_id forked input.start_step db.operation_outputs
            v.steps_apart)
          (All-foreign forked db.workflow_status _ db.operation_outputs fresh v.steps_owned)
          (copies-Owned forked _ _ with_fork_owns))
  ]

pub fork_cases {ℓ} :
    (P : Result String × Database → Type ℓ) (input : ForkInput) (fresh_id : String) (now : ℕ)
    (db : Database)
    → let forked = get_or fresh_id input.forked_workflow_id in
      ((e : DbosError) → P (err e, db))
      → ((orig : WorkflowRow)
          → ltb_ℤ input.start_step (pos 0) ≡ false
          → first (has_id input.original_workflow_id) db.workflow_status ≡ some orig
          → exists (has_id forked) db.workflow_status ≡ false
          → P (ok forked, fork_rows input forked now orig db))
      → P (fork_workflow input fresh_id now db)
unfolding fork_workflow
fork_cases P input fresh_id now db failed forks =
    let forked = get_or fresh_id input.forked_workflow_id in
    elim (Bool-cases (ltb_ℤ input.start_step (pos 0))) [
      | inl t ↦ rw t (failed _)
      | inr f ↦ elim (Option-cases (first (has_id input.original_workflow_id) db.workflow_status)) [
        | inl e ↦ rw f (rw e (failed _))
        | inr (orig, e) ↦ elim (Bool-cases (exists (has_id forked) db.workflow_status)) [
          | inl t ↦ rw f (rw e (rw t (failed _)))
          | inr g ↦ rw f (rw e (rw g (forks orig f e g)))
        ]
      ]
    ]

pub fork_workflow-IsValid :
    (input : ForkInput) (fresh_id : String) (now : ℕ) {db : Database}
    → IsValid db
    → IsValid (fork_workflow input fresh_id now db).1
fork_workflow-IsValid input fresh_id now {db} v =
    fork_cases (λ p. IsValid p.1) input fresh_id now db (λ e. v)
      (λ orig f e g. fork_rows-IsValid input _ now orig g v)
