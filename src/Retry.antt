-- ===== src/Retry.antt =====
-- The retrying decorator of the system database (crates/dbos-core/src/db/retry.rs).
pub mod Laws
pub mod Decorator
use text.Mathlib.Text.{starts_with}
use dbos_transact_rust.Prelude.{
  ℕ, zero, suc, ◌*◌, ltb, String, Bool, true, false, ◌&&◌, ◌||◌, Option, none, some, if◌then◌else◌,
}
use dbos_transact_rust.Error.Chain.{
  DbosError, dbos_error, Source, no_source, dbos, portable, sqlx, foreign, SqlxError, database,
  row_not_found, type_not_found, column_index_out_of_bounds, column_not_found, column_decode,
  decode, configuration, transport,
}
use dbos_transact_rust.Database.{Result, ok, err}

-- Connection-class SQLSTATEs (08xxx, 57Pxx), and every variant that is not a logical error.
unfoldable pub is_transient_sqlx : SqlxError → Bool
is_transient_sqlx (database none) = false
is_transient_sqlx (database (some c)) = starts_with c "08" || starts_with c "57P"
is_transient_sqlx row_not_found = false
is_transient_sqlx type_not_found = false
is_transient_sqlx column_index_out_of_bounds = false
is_transient_sqlx column_not_found = false
is_transient_sqlx column_decode = false
is_transient_sqlx decode = false
is_transient_sqlx configuration = false
is_transient_sqlx (transport what) = true

-- The walk down the chain, to its first driver error.
unfoldable mutual
  unfolding is_transient_sqlx

  pub is_transient : DbosError → Bool
  is_transient (dbos_error c m x s) = is_transient_source s

  pub is_transient_source : Source → Bool
  is_transient_source no_source = false
  is_transient_source (dbos e) = is_transient e
  is_transient_source (portable p) = false
  is_transient_source (sqlx e) = is_transient_sqlx e
  is_transient_source (foreign t) = false

-- `Duration::from_secs(120)`, in milliseconds.
abbrev pub default_max_elapsed : ℕ
default_max_elapsed = 120000

abbrev pub initial_delay : ℕ
initial_delay = 50

-- `(delay * 2).min(Duration::from_secs(2))`
unfoldable pub next_delay : ℕ → ℕ
next_delay delay = if ltb (delay * 2) 2000 then delay * 2 else 2000

-- The delay before the attempt after the `k`-th.
unfoldable pub delay_at : ℕ → ℕ
unfolding next_delay
delay_at zero = initial_delay
delay_at (suc k) = next_delay (delay_at k)

-- What a retried call ends with: its result, what it leaves, and how often it was run.
pub record Ended {ℓ κ} (A : Type ℓ) (S : Type κ) : Type (ℓ ⊔ κ) where
  pub result : Result A
  pub state : S
  pub attempts : ℕ

-- Whether the loop goes round again after this result.
unfoldable pub goes_on {ℓ} : {A : Type ℓ} → ℕ → ℕ → Result A → Bool
unfolding is_transient
goes_on max_elapsed now (ok v) = false
goes_on max_elapsed now (err e) = is_transient e && ltb now max_elapsed

-- The loop from the `k`-th attempt: `f k` is what the call does then, and `elapsed k` is what
-- `start.elapsed()` reads after it. `none` is a loop that the fuel cut short.
unfoldable pub retry {ℓ κ} :
    {A : Type ℓ} {S : Type κ}
    → ℕ
    → (ℕ → S → Result A × S)
    → (ℕ → ℕ)
    → ℕ
    → ℕ
    → S
    → Option (Ended A S)
unfolding goes_on
retry max_elapsed f elapsed zero k s = none
retry max_elapsed f elapsed (suc fuel) k s =
    let (r, t) = f k s in
    let later = retry max_elapsed f elapsed fuel (suc k) t in
    if goes_on max_elapsed (elapsed k) r
    then later
    else some (record { result = r; state = t; attempts = suc k })
