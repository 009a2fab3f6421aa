-- ===== src/Debouncer/Capped.antt =====
-- How far the start of a debounced workflow is pushed back (crates/dbos-core/src/debouncer.rs).
use dbos_transact_rust.Prelude.{
  ℕ, zero, suc, ◌+◌, ◌≤◌, ◌<◌, leb, ◌≡◌, inl, inr, subst, Option, none, some, arith, Bool-cases,
}
use dbos_transact_rust.Database.{Result, ok, err}
use dbos_transact_rust.Database.Schema.{Database}
use dbos_transact_rust.Serialization.{Codecs, Serializer}
use dbos_transact_rust.Step.{WorkflowState}
use dbos_transact_rust.Debouncer.{DebouncerInput, DebounceMessage, Stored}
use dbos_transact_rust.Debouncer.Body.{
  Moment, Pending, Collected, capped, clock_step, acknowledge, pushed_back, after_recv, after_clock,
  collect, collect_from,
}

capped_le : (timeout max_start t : ℕ) → 0 < timeout → capped timeout max_start t ≤ max_start
unfolding capped
capped_le timeout max_start t h = ground arith

module _ {P V : Type 0} (c : Codecs V) (custom : Option (Serializer V)) (stored : Stored P V)
    (timeout max_start : ℕ) (cap : 0 < timeout) where
  abbrev Keeps : Collected c custom stored → Type 0
  Keeps none = Unit
  Keeps (some ((err e, db), s)) = Unit
  Keeps (some ((ok p, db), s)) = p.target_start ≤ max_start

  abbrev Later : (Pending P → WorkflowState → Database → Collected c custom stored) → Type 0
  Later later =
      (p : Pending P) (s : WorkflowState) (db : Database)
      → p.target_start ≤ max_start
      → Keeps (later p s db)

  after_recv-Keeps :
      (later : Pending P → WorkflowState → Database → Collected c custom stored) (now : ℕ)
      (p : Pending P) (m : Moment)
      (q : Option (Result (DebounceMessage P) × Database) × WorkflowState)
      → Later later
      → p.target_start ≤ max_start
      → Keeps (after_recv c custom stored later timeout max_start now p m q)
  unfolding after_recv pushed_back
  after_recv-Keeps later now p m (none, s) k h = tt
  after_recv-Keeps later now p m (some (err e, db), s) k h = h
  after_recv-Keeps later now p m (some (ok msg, db), s) k h =
      let (db', s') = acknowledge c custom stored msg m s db in
      k (pushed_back c custom stored timeout max_start now msg) s' db'
        (capped_le timeout max_start (now + msg.delay_ms) cap)

  after_clock-Keeps :
      (later : Pending P → WorkflowState → Database → Collected c custom stored) (p : Pending P)
      (m : Moment) (q : (Result ℕ × Database) × WorkflowState)
      → Later later
      → p.target_start ≤ max_start
      → Keeps (after_clock c custom stored later timeout max_start p m q)
  unfolding after_clock
  after_clock-Keeps later p m ((err e, db), s) k h = tt
  after_clock-Keeps later p m ((ok now, db), s) k h = elim (Bool-cases (leb p.target_start now)) [
    | inl t ↦ rw t h
    | inr f ↦ rw f (after_recv-Keeps later now p m _ k h)
  ]

  collect-Keeps :
      (fuel : ℕ) (moments : ℕ → Moment) (p : Pending P) (s : WorkflowState) (db : Database)
      → p.target_start ≤ max_start
      → Keeps (collect c custom stored timeout max_start fuel moments p s db)
  unfolding collect
  collect-Keeps zero moments p s db h = tt
  collect-Keeps (suc fuel) moments p s db h =
      after_clock-Keeps (collect c custom stored timeout max_start fuel (λ n. moments (suc n))) p
        (moments 0) (clock_step c custom stored "DBOS.debounce.loopTime" (moments 0) s db)
        (λ p' s' db' h'. collect-Keeps fuel (λ n. moments (suc n)) p' s' db' h') h

  kept :
      (q : Collected c custom stored) (p : Pending P) (after : Database) (s : WorkflowState)
      → Keeps q
      → q ≡ some ((ok p, after), s)
      → p.target_start ≤ max_start
  kept q p after s k e = subst Keeps e k

-- With a timeout, the target time that the loop of the internal workflow ends with is at most the
-- workflow's own first reading of the clock plus the timeout, whatever messages arrive and whatever
-- delay they ask for.
pub collect_from_capped :
    {P V : Type 0} (c : Codecs V) (custom : Option (Serializer V)) (stored : Stored P V)
    (input : DebouncerInput P) (fuel start : ℕ) (moments : ℕ → Moment) (s later : WorkflowState)
    (db after : Database) (p : Pending P)
    → 0 < input.timeout_ms
    → collect_from c custom stored input fuel moments ((ok start, db), s)
      ≡ some ((ok p, after), later)
    → p.target_start ≤ start + input.timeout_ms
unfolding collect_from
collect_from_capped c custom stored input fuel start moments s later db after p h e =
    let max_start = start + input.timeout_ms in
    kept c custom stored input.timeout_ms max_start h _ p after later
      (collect-Keeps c custom stored input.timeout_ms max_start h fuel moments _ s db
        (capped_le input.timeout_ms max_start (start + input.delay_ms) h))
      e
