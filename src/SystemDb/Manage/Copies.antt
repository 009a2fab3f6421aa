-- ===== src/SystemDb/Manage/Copies.antt =====
-- What a fork starts from: the copied steps of `fork_workflow`
-- (crates/dbos-core/src/db/sqlite.rs).
use dbos_transact_rust.Prelude.{
  ◌++◌, ℕ, ℤ, pos, negsuc, ltb_ℤ, eq_ℤ, eq_ℤ_iff, String, ◌≡◌, refl, ap, ◌∙◌, subst, Bool, true,
  false, ◌==◌, ==_refl, inl, inr, Option, none, some, List, [], ◌∷◌, map, if◌then◌else◌, arith,
  Bool-cases,
}
use dbos_transact_rust.Sql.{exists, first, select}
use dbos_transact_rust.Sql.Laws.{All}
use dbos_transact_rust.Database.{Result, ok, err}
use dbos_transact_rust.Database.Types.{ForkInput}
use dbos_transact_rust.Database.Schema.{WorkflowRow, OutputRow, Database}
use dbos_transact_rust.SystemDb.Insert.{has_id, has_key}
use dbos_transact_rust.SystemDb.Invariant.{IsValid, Owned}
use dbos_transact_rust.SystemDb.Manage.{copy_step, is_copied, fork_rows, fork_workflow}
use dbos_transact_rust.SystemDb.Manage.Fork.{stranger, fork_cases}

-- The copy of a step.
abbrev pub copied : String → Option OutputRow → Option OutputRow
copied forked none = none
copied forked (some o) = some (copy_step forked o)

-- A workflow that is not there has no step recorded.
no_steps :
    (forked : String) (step : ℤ) (rows : List WorkflowRow) (os : List OutputRow)
    → exists (has_id forked) rows ≡ false
    → All (λ o. Owned rows o.workflow_uuid) os
    → first (has_key forked step) os ≡ none
no_steps forked step rows [] h k = refl
no_steps forked step rows (o ∷ os) h k =
    rw (stranger forked rows o.workflow_uuid h k.0) (no_steps forked step rows os h k.1)

first-append-none {ℓ} :
    {A : Type ℓ} (p : A → Bool) (xs ys : List A)
    → first p xs ≡ none
    → first p (xs ++ ys) ≡ first p ys
first-append-none p [] ys h = refl
first-append-none p (x ∷ xs) ys h = ground (arith, first-append-none p xs ys)

same_side : (a b start : ℤ) → eq_ℤ a b ≡ true → ltb_ℤ a start ≡ ltb_ℤ b start
same_side a b start e = ap (λ c. ltb_ℤ c start) ((eq_ℤ_iff a b).0 e)

copies_found :
    (original forked : String) (start step : ℤ) (os : List OutputRow)
    → ltb_ℤ step start ≡ true
    → first (has_key forked step) (map (copy_step forked) (select (is_copied original start) os))
      ≡ copied forked (first (has_key original step) os)
unfolding copy_step
copies_found original forked start step [] h = refl
copies_found original forked start step (o ∷ os) h =
    let rest = copies_found original forked start step os h in
    elim (Bool-cases (o.workflow_uuid == original)) [
      | inr f ↦ rw f rest
      | inl t ↦ elim (Bool-cases (eq_ℤ o.function_id step)) [
        | inl e ↦ rw (t, same_side o.function_id step start e ∙ h, ==_refl forked, e) refl
        | inr g ↦ elim (Bool-cases (ltb_ℤ o.function_id start)) [
          | inl l ↦ rw (t, l, ==_refl forked, g) rest
          | inr l ↦ rw (t, l, g) rest
        ]
      ]
    ]

copies_none :
    (original forked : String) (start step : ℤ) (os : List OutputRow)
    → ltb_ℤ step start ≡ false
    → first (has_key forked step) (map (copy_step forked) (select (is_copied original start) os))
      ≡ none
unfolding copy_step
copies_none original forked start step [] h = refl
copies_none original forked start step (o ∷ os) h =
    let rest = copies_none original forked start step os h in
    elim (Bool-cases (is_copied original start o)) [
      | inr f ↦ rw f rest
      | inl t ↦ elim (Bool-cases (eq_ℤ o.function_id step)) [
        | inl e ↦ absurd (past t (same_side o.function_id step start e))
        | inr g ↦ rw (t, ==_refl forked, g) rest
      ]
    ]
  where
    past : is_copied original start o ≡ true → ltb_ℤ o.function_id start ≡ ltb_ℤ step start → ⊥
    past t e = ground arith

abbrev Copies : ForkInput → ℕ → Database → Result String × Database → Type 0
Copies input n db (ok forked, after) = first (has_key forked (pos n)) after.operation_outputs ≡ (
    if ltb_ℤ (pos n) input.start_step
    then copied forked (first (has_key input.original_workflow_id (pos n)) db.operation_outputs)
    else none)
Copies input n db (err e, after) = Unit

positive_start : (n : ℕ) (start : ℤ) → ltb_ℤ (pos n) start ≡ true → ltb_ℤ (pos 0) start ≡ true
positive_start n (pos m) l = ground arith
positive_start n (negsuc m) l = absurd (ground arith)

rows-Copies :
    (input : ForkInput) (forked : String) (n now : ℕ) (orig : WorkflowRow) (db : Database)
    → IsValid db
    → exists (has_id forked) db.workflow_status ≡ false
    → Copies input n db (ok forked, fork_rows input forked now orig db)
unfolding fork_rows
rows-Copies input forked n now orig db v g =
    let original = input.original_workflow_id in
    let start = input.start_step in
    let os = db.operation_outputs in
    let fresh = no_steps forked (pos n) db.workflow_status os g v.steps_owned in
    let skip =
      first-append-none (has_key forked (pos n)) os
        (map (copy_step forked) (select (is_copied original start) os)) fresh in
    elim (Bool-cases (ltb_ℤ (pos n) start)) [
      | inl l ↦
          rw (l, positive_start n start l) (skip ∙ copies_found original forked start (pos n) os l)
      | inr l ↦ elim (Bool-cases (ltb_ℤ (pos 0) start)) [
        | inl u ↦ rw (l, u) (skip ∙ copies_none original forked start (pos n) os l)
        | inr u ↦ rw (l, u) fresh
      ]
    ]

-- A fork that succeeds on a valid database starts from the steps of the original before the start
-- step, copied, and from no other.
pub fork_workflow_copies :
    (input : ForkInput) (fresh_id : String) (n now : ℕ) (db : Database) (forked : String)
    → IsValid db
    → (fork_workflow input fresh_id now db).0 ≡ ok forked
    → first (has_key forked (pos n)) (fork_workflow input fresh_id now db).1.operation_outputs ≡ (
        if ltb_ℤ (pos n) input.start_step
        then copied forked (first (has_key input.original_workflow_id (pos n)) db.operation_outputs)
        else none)
fork_workflow_copies input fresh_id n now db forked v h =
    of_copies (fork_workflow input fresh_id now db)
      (fork_cases (Copies input n db) input fresh_id now db (λ e. tt)
        (λ orig f e g. rows-Copies input _ n now orig db v g))
      h
  where
    of_copies :
        (q : Result String × Database)
        → Copies input n db q
        → q.0 ≡ ok forked
        → first (has_key forked (pos n)) q.1.operation_outputs ≡ (
            if ltb_ℤ (pos n) input.start_step
            then copied forked
                (first (has_key input.original_workflow_id (pos n)) db.operation_outputs)
            else none)
    of_copies (ok id, after) k e = subst (λ (s : String). Copies input n db (ok s, after)) (cc e) k
    of_copies (err d, after) k e = absurd (cc e)
