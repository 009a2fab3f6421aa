-- ===== src/Retry/Laws.antt =====
-- The retry loop: its end, logical errors and transient ones (crates/dbos-core/src/db/retry.rs).
use dbos_transact_rust.Prelude.{
  ℕ, zero, suc, ◌+◌, ◌*◌, ◌≤◌, ◌≡◌, refl, true, false, Option, some, arith, Bool-cases, inl, inr,
  subst, sym,
}
use dbos_transact_rust.Error.Chain.{DbosError}
use dbos_transact_rust.Database.{Result, ok, err}
use dbos_transact_rust.Retry.{is_transient, next_delay, delay_at, Ended, goes_on, retry}

-- No delay is shorter than 50 ms or longer than 2 s.
pub delay_bounds : (k : ℕ) → (50 ≤ delay_at k) × (delay_at k ≤ 2000)
unfolding delay_at next_delay
delay_bounds zero = ground arith
delay_bounds (suc k) = ground (arith, delay_bounds k)

module _ {ℓ κ} {A : Type ℓ} {S : Type κ} (max_elapsed : ℕ) (f : ℕ → S → Result A × S)
    (elapsed : ℕ → ℕ) where
  -- After each attempt the clock has advanced at least by the delay that was slept.
  abbrev pub Sleeps : Type 0
  Sleeps = (k : ℕ) → elapsed k + delay_at k ≤ elapsed (suc k)

  slept : Sleeps → (k : ℕ) → 50 * k ≤ elapsed k
  slept h zero = omega arith
  slept h (suc k) = omega (arith, h k, slept h k, (delay_bounds k).0)

  goes_on-false : (now : ℕ) (r : Result A) → max_elapsed ≤ now → goes_on max_elapsed now r ≡ false
  unfolding goes_on
  goes_on-false now (ok v) h = refl
  goes_on-false now (err e) h = ground arith

  -- An attempt after which the loop goes round again changes nothing: its transaction is rolled
  -- back.
  abbrev pub RollsBack : Type κ
  RollsBack = (k : ℕ) (s : S) → goes_on max_elapsed (elapsed k) (f k s).0 ≡ true → (f k s).1 ≡ s

  -- The loop ended with its `n`-th attempt, which is what a single run from `s` does.
  abbrev pub EndsWith : S → Option (Ended A S) → Type (ℓ ⊔ κ)
  EndsWith s o =
      (e : Ended A S) × (n : ℕ) × (o ≡ some e)
      × (e.attempts ≡ suc n)
      × (f n s ≡ (e.result, e.state))
      × (goes_on max_elapsed (elapsed n) e.result ≡ false)

  ends_now :
      (fuel k : ℕ) (s : S)
      → goes_on max_elapsed (elapsed k) (f k s).0 ≡ false
      → EndsWith s (retry max_elapsed f elapsed (suc fuel) k s)
  unfolding retry
  ends_now fuel k s g =
      rw g
        (record { result = (f k s).0; state = (f k s).1; attempts = suc k }, k, refl, refl, refl, g)

  ends_from :
      (fuel k : ℕ) (s : S)
      → Sleeps
      → RollsBack
      → max_elapsed ≤ 50 * (fuel + k)
      → EndsWith s (retry max_elapsed f elapsed (suc fuel) k s)
  unfolding retry
  ends_from zero k s h b m =
      ends_now zero k s (goes_on-false (elapsed k) (f k s).0 (omega (arith, slept h k)))
  ends_from (suc fuel) k s h b m = elim (Bool-cases (goes_on max_elapsed (elapsed k) (f k s).0)) [
    | inr g ↦ ends_now (suc fuel) k s g
    | inl g ↦ rw g (
        subst (λ (t : S). EndsWith s (retry max_elapsed f elapsed (suc fuel) (suc k) t))
          (sym (b k s g)) (ends_from fuel (suc k) s h b (omega arith)))
  ]

-- A retried call always ends: with the clock advancing by at least what is slept and with
-- transient failures rolled back, `max_elapsed / 50 + 1` attempts are enough, and the call does
-- what one attempt alone does, which succeeded, failed with an error that is not transient, or
-- came after `max_elapsed`.
pub retry-EndsWith {ℓ κ} :
    {A : Type ℓ} {S : Type κ} (max_elapsed : ℕ) (f : ℕ → S → Result A × S) (elapsed : ℕ → ℕ)
    (fuel : ℕ) (s : S)
    → Sleeps max_elapsed f elapsed
    → RollsBack max_elapsed f elapsed
    → max_elapsed ≤ 50 * fuel
    → EndsWith max_elapsed f elapsed s (retry max_elapsed f elapsed (suc fuel) 0 s)
retry-EndsWith max_elapsed f elapsed fuel s h b m =
    ends_from max_elapsed f elapsed fuel 0 s h b (omega arith)

-- An error that is not transient is passed on at once, after a single run.
pub retry_logical {ℓ κ} :
    {A : Type ℓ} {S : Type κ} (max_elapsed : ℕ) (f : ℕ → S → Result A × S) (elapsed : ℕ → ℕ)
    (fuel : ℕ) (s t : S) (e : DbosError)
    → f 0 s ≡ (err e, t)
    → is_transient e ≡ false
    → retry max_elapsed f elapsed (suc fuel) 0 s
      ≡ some (record { result = err e; state = t; attempts = 1 })
unfolding retry goes_on
retry_logical max_elapsed f elapsed fuel s t e h n = rw h (rw n refl)
