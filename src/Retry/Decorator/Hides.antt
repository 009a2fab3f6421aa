-- ===== src/Retry/Decorator/Hides.antt =====
-- Transient faults under the retrying database (crates/dbos-core/src/db/retry.rs).
use dbos_transact_rust.Prelude.{
  ℕ, zero, suc, ◌+◌, ◌<◌, ltb, subst, ◌∙◌, ◌≡◌, refl, true, false, some, arith,
}
use dbos_transact_rust.Error.Chain.{DbosError}
use dbos_transact_rust.Database.{Result, err}
use dbos_transact_rust.Retry.{is_transient, goes_on, retry}
use dbos_transact_rust.Retry.Decorator.{Request, SystemDatabase, retrying}

module _ {ℓ κ} {A : Type ℓ} {S : Type κ} (max_elapsed : ℕ) (f : ℕ → S → Result A × S)
    (elapsed : ℕ → ℕ) (s : S) where
  -- The `k`-th attempt fails on its way to the database, in time for another.
  abbrev pub Faults : ℕ → Type (ℓ ⊔ κ)
  Faults k =
      (e : DbosError) × (f k s ≡ (err e, s)) × (is_transient e ≡ true) × (elapsed k < max_elapsed)

  retry_fault :
      (fuel k : ℕ)
      → Faults k
      → retry max_elapsed f elapsed (suc fuel) k s ≡ retry max_elapsed f elapsed fuel (suc k) s
  unfolding retry goes_on
  retry_fault fuel k (e, h, t, l) =
      let c : ltb (elapsed k) max_elapsed ≡ true = ground arith in rw h (rw t (rw c refl))

  retry_ends :
      (fuel k : ℕ) (r : Result A) (t : S)
      → f k s ≡ (r, t)
      → goes_on max_elapsed (elapsed k) r ≡ false
      → retry max_elapsed f elapsed (suc fuel) k s
        ≡ some (record { result = r; state = t; attempts = suc k })
  unfolding retry
  retry_ends fuel k r t h g = rw h (rw g refl)

  shifted :
      (n k : ℕ) → ((j : ℕ) → j < suc n → Faults (j + k)) → (j : ℕ) → j < n → Faults (j + suc k)
  shifted n k h j l = subst (λ (m : ℕ). Faults m) (omega arith) (h (suc j) (omega arith))

  pub retry_hides :
      (n fuel k last : ℕ) (r : Result A) (t : S)
      → n < fuel
      → last ≡ n + k
      → ((j : ℕ) → j < n → Faults (j + k))
      → f last s ≡ (r, t)
      → goes_on max_elapsed (elapsed last) r ≡ false
      → retry max_elapsed f elapsed fuel k s
        ≡ some (record { result = r; state = t; attempts = suc last })
  retry_hides n zero k last r t l q h e g = absurd (omega arith)
  retry_hides zero (suc fuel) k last r t l q h e g =
      subst
        (λ (m : ℕ).
          f m s ≡ (r, t)
          → goes_on max_elapsed (elapsed m) r ≡ false
          → retry max_elapsed f elapsed (suc fuel) k s
            ≡ some (record { result = r; state = t; attempts = suc m }))
        (omega arith) (retry_ends fuel k r t) e g
  retry_hides (suc n) (suc fuel) k last r t l q h e g =
      retry_fault fuel k (subst (λ (m : ℕ). Faults m) (omega arith) (h 0 (omega arith)))
      ∙ retry_hides n fuel (suc k) last r t (omega arith) (omega arith) (shifted n k h) e g

-- The retrying database is, to its callers, a database without transient faults: whatever the
-- method, if the first `n` attempts fail with a transient error before the time is over and change
-- nothing, and the next does what `exact` does, with a result that is not retried, then the call
-- ends with what `exact` answers and leaves, after `n + 1` attempts.
pub retrying_hides {ℓ} :
    {S : Type ℓ} (max_elapsed : ℕ) (exact : SystemDatabase S) (inner : ℕ → SystemDatabase S)
    (elapsed : ℕ → ℕ) (fuel n : ℕ) (s : S) (r : Request)
    → n < fuel
    → ((j : ℕ) → j < n → Faults max_elapsed (λ k. inner k r) elapsed s j)
    → inner n r s ≡ exact r s
    → goes_on max_elapsed (elapsed n) (exact r s).0 ≡ false
    → retrying max_elapsed inner elapsed fuel r s
      ≡ some (record { result = (exact r s).0; state = (exact r s).1; attempts = suc n })
unfolding retrying
retrying_hides max_elapsed exact inner elapsed fuel n s r l h =
    retry_hides max_elapsed (λ k. inner k r) elapsed s n fuel 0 n (exact r s).0 (exact r s).1 l
      (omega arith)
      (λ j m.
        subst (λ (i : ℕ). Faults max_elapsed (λ k. inner k r) elapsed s i) (omega arith) (h j m))
