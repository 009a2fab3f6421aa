-- ===== src/Step/Retrying/Laws.antt =====
-- The runs of the retry loop of a step (crates/dbos-core/src/workflow/step.rs).
use dbos_transact_rust.Prelude.{
  ℕ, zero, suc, ◌+◌, ◌≤◌, ◌<◌, ℤ, pos, negsuc, pos_part, ltb_ℤ, String, ◌≡◌, refl, Bool, false, inl,
  inr, Option, some, List, [], arith, Bool-cases,
}
use dbos_transact_rust.Error.Chain.{DbosError}
use dbos_transact_rust.Database.{Result, ok, err}
use dbos_transact_rust.Step.{StepCtx}
use dbos_transact_rust.Step.Retrying.{
  StepOptions, Execution, refuses, after_failure, joined_with, after_run, execute_with_retry,
  retry_fuel,
}

below_cap : (m : ℤ) (n : ℕ) → ltb_ℤ m (pos n) ≡ false → n ≤ pos_part m
below_cap (pos m) n h = ground arith
below_cap (negsuc m) n h = ground arith

module _ {R S : Type 0} (name : String) (opts : StepOptions) (f : StepCtx → S → Result R × S)
    (ctx : StepCtx) (cancelled : ℕ → Bool) where
  -- The loop ends, and the body ran at most `n` times.
  abbrev pub EndsWithin : ℕ → Option (Execution R S) → Type 0
  EndsWithin n o = (e : Execution R S) × (o ≡ some e) × (e.runs ≤ n)

  -- A failure ends the loop, or it was within the cap and the loop goes on.
  failure-EndsWithin :
      (n runs : ℕ) (e : DbosError) (joined : List String) (s : S) (later : Option (Execution R S))
      → runs ≤ n
      → (runs ≤ pos_part opts.max_retries → EndsWithin n later)
      → EndsWithin n (after_failure name opts f ctx cancelled runs e joined s later)
  unfolding after_failure
  failure-EndsWithin n runs e joined s later b goes =
      elim (Bool-cases (ltb_ℤ opts.max_retries (pos runs))) [
        | inl t ↦ rw t (_, refl, b)
        | inr u ↦ elim (Bool-cases (refuses opts.retry_predicate e)) [
          | inl t ↦ rw (u, t) (_, refl, b)
          | inr v ↦ elim (Bool-cases (cancelled runs)) [
            | inl t ↦ rw (u, v, t) (_, refl, b)
            | inr w ↦ rw (u, v, w) (goes (below_cap opts.max_retries runs u))
          ]
        ]
      ]

  run-EndsWithin :
      (n runs : ℕ) (joined : List String) (later : Option (Execution R S)) (r : Result R × S)
      → runs ≤ n
      → (runs ≤ pos_part opts.max_retries → EndsWithin n later)
      → EndsWithin n (after_run name opts f ctx cancelled runs joined later r)
  unfolding after_run
  run-EndsWithin n runs joined later (ok v, s) b goes = (_, refl, b)
  run-EndsWithin n runs joined later (err e, s) b goes =
      failure-EndsWithin n runs e joined s later b goes

  execute-EndsWithin_from :
      (fuel runs : ℕ) (joined : List String) (s : S)
      → pos_part opts.max_retries < fuel + runs
      → runs ≤ pos_part opts.max_retries
      → EndsWithin
          (suc (pos_part opts.max_retries))
          (execute_with_retry name opts f ctx cancelled fuel runs joined s)
  unfolding execute_with_retry
  execute-EndsWithin_from zero runs joined s enough b = absurd (omega (arith, enough, b))
  execute-EndsWithin_from (suc fuel) runs joined s enough b =
      run-EndsWithin _ (suc runs) (joined_with name opts f ctx cancelled joined (f ctx s).0) _
        (f ctx s) (omega (arith, b))
        (λ k. execute-EndsWithin_from fuel (suc runs) _ (f ctx s).1 (omega (arith, enough)) k)

  -- The retry loop of a step ends, whatever the body, the predicate and the cancellation do, and
  -- runs the body at most once more than `max_retries` (once, if that is not positive).
  pub execute-EndsWithin :
      (s : S)
      → EndsWithin (suc (pos_part opts.max_retries)) (
          execute_with_retry name opts f ctx cancelled
            (retry_fuel name opts f ctx cancelled)
            0
            []
            s)
  execute-EndsWithin s = execute-EndsWithin_from _ 0 [] s (omega arith) (omega arith)
