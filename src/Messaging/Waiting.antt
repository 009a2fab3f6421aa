-- ===== src/Messaging/Waiting.antt =====
-- The polling loop of `recv` and `get_event` (crates/dbos-core/src/workflow/comms.rs).
use dbos_transact_rust.Prelude.{
  ℕ, zero, suc, ◌+◌, ◌-◌, ◌*◌, ◌≤◌, ◌<◌, subst, min, leb, ◌≡◌, refl, Bool, true, false, ◌⊎◌, inl,
  inr, Option, none, some, if◌then◌else◌, Bool-cases, arith,
}
use dbos_transact_rust.Database.Schema.{Database}

abbrev pub poll_interval : ℕ
poll_interval = 50

-- `deadline` is the time to give up, `others k` what other executors do during the nap after
-- round `k`, `clock k` the reading of the clock in round `k`, and `stops k` whether the context is
-- cancelled during that nap. `none` is a loop that the fuel cut short.
module _ (deadline : ℕ) (ready : Database → Bool) (others : ℕ → Database → Database) (clock : ℕ → ℕ)
    (stops : ℕ → Bool) where
  unfoldable pub wait_until : ℕ → ℕ → Database → Option Database
  wait_until zero k db = none
  wait_until (suc fuel) k db =
      let later = wait_until fuel (suc k) (others k db) in
      if ready db
      then some db
      else if leb deadline (clock k)
      then some db
      else if stops k
      then some (others k db)
      else later

  -- The database that round `n` of the loop sees, from round `k` on.
  abbrev pub seen : ℕ → ℕ → Database → Database
  seen zero k db = db
  seen (suc n) k db = seen n (suc k) (others k db)

  -- A reason for the loop to end in round `k`.
  abbrev pub Done : ℕ → Database → Type 0
  Done k db = (ready db ≡ true) ⊎ (deadline ≤ clock k)

  -- The clock advances by at least what is slept: the polling interval, or what remains.
  abbrev pub Naps : Type 0
  Naps = (k : ℕ) → clock k + min poll_interval (deadline - clock k) ≤ clock (suc k)

  -- The loop ends in its `n`-th round, the first in which something is there: with the database
  -- of that round, where something is there or the time is over, or, when the context is
  -- cancelled, with that after the nap.
  abbrev pub EndsAt : ℕ → Database → Option Database → Type 0
  EndsAt k db o =
      (n : ℕ) × ((j : ℕ) → j < n → ready (seen j k db) ≡ false)
      × (((o ≡ some (seen n k db)) × Done (n + k) (seen n k db))
          ⊎ ((o ≡ some (seen (suc n) k db)) × (stops (n + k) ≡ true)))

  one_later :
      (k : ℕ) (db : Database) (n : ℕ)
      → ready db ≡ false
      → ((j : ℕ) → j < n → ready (seen j (suc k) (others k db)) ≡ false)
      → (j : ℕ) → j < suc n
      → ready (seen j k db) ≡ false
  one_later k db n f w zero h = f
  one_later k db n f w (suc j) h = w j (omega arith)

  later-EndsAt :
      (k : ℕ) (db : Database) (o : Option Database)
      → ready db ≡ false
      → EndsAt (suc k) (others k db) o
      → EndsAt k db o
  later-EndsAt k db o f (n, w, inl (e, d)) = (
    suc n,
    one_later k db n f w,
    inl (e, subst (λ (m : ℕ). Done m (seen n (suc k) (others k db))) (omega arith) d),
  )
  later-EndsAt k db o f (n, w, inr (e, s)) =
      (suc n, one_later k db n f w, inr (e, subst (λ (m : ℕ). stops m ≡ true) (omega arith) s))

  ends_now :
      (k : ℕ) (db : Database) (o : Option Database)
      → ((o ≡ some db) × Done k db) ⊎ ((o ≡ some (others k db)) × (stops k ≡ true))
      → EndsAt k db o
  ends_now k db o (inl (e, d)) =
      (0, λ j h. absurd (omega arith), inl (e, subst (λ (m : ℕ). Done m db) (omega arith) d))
  ends_now k db o (inr (e, s)) =
      (0, λ j h. absurd (omega arith), inr (e, subst (λ (m : ℕ). stops m ≡ true) (omega arith) s))

  stops-EndsAt :
      (fuel k : ℕ) (db : Database)
      → ((ready db ≡ true) ⊎ (deadline ≤ clock k)) ⊎ (stops k ≡ true)
      → EndsAt k db (wait_until (suc fuel) k db)
  unfolding wait_until
  stops-EndsAt fuel k db d = elim (Bool-cases (ready db)) [
    | inl r ↦ ends_now k db _ (inl (rw r refl, inl r))
    | inr f ↦ elim (Bool-cases (leb deadline (clock k))) [
      | inl o ↦ ends_now k db _ (inl (rw f (rw o refl), inr (ground arith)))
      | inr u ↦
          let c : stops k ≡ true = ground arith in
          ends_now k db _ (inr (rw f (rw u (rw c refl)), c))
    ]
  ]

  time_left :
      (fuel k : ℕ)
      → Naps
      → deadline ≤ clock k + 50 * suc fuel
      → deadline ≤ clock (suc k) + 50 * fuel
  time_left fuel k naps m = ground (arith, naps k)

  ends_from :
      (fuel k : ℕ) (db : Database)
      → Naps
      → deadline ≤ clock k + 50 * fuel
      → EndsAt k db (wait_until (suc fuel) k db)
  unfolding wait_until
  ends_from zero k db naps m = stops-EndsAt zero k db (inl (inr (omega arith)))
  ends_from (suc fuel) k db naps m = elim (Bool-cases (ready db)) [
    | inl r ↦ stops-EndsAt (suc fuel) k db (inl (inl r))
    | inr f ↦ elim (Bool-cases (leb deadline (clock k))) [
      | inl o ↦ stops-EndsAt (suc fuel) k db (inl (inr (ground arith)))
      | inr u ↦ elim (Bool-cases (stops k)) [
        | inl c ↦ stops-EndsAt (suc fuel) k db (inr c)
        | inr g ↦ rw f (
            rw u (
              rw g (
                later-EndsAt k db _ f
                  (ends_from fuel (suc k) (others k db) naps (time_left fuel k naps m)))))
      ]
    ]
  ]

-- A wait always ends, at the first round in which something is there, if not before: with the
-- clock advancing by at least what is slept, `ceil(timeout / 50) + 1` rounds are enough. It ends
-- when something is there, when the deadline has passed, or when the context is cancelled.
pub wait-EndsAt :
    (deadline : ℕ) (ready : Database → Bool) (others : ℕ → Database → Database) (clock : ℕ → ℕ)
    (stops : ℕ → Bool) (fuel : ℕ) (db : Database)
    → Naps deadline ready others clock stops
    → deadline ≤ clock 0 + 50 * fuel
    → EndsAt deadline ready others clock stops 0 db
        (wait_until deadline ready others clock stops (suc fuel) 0 db)
wait-EndsAt deadline ready others clock stops fuel db =
    ends_from deadline ready others clock stops fuel 0 db
