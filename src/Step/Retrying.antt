-- ===== src/Step/Retrying.antt =====
-- `StepOptions`, `execute_with_retry` and `run_step_opts`
-- (crates/dbos-core/src/workflow/step.rs). The length of a delay is not modelled: `cancelled`
-- says for each run whether the cancellation token fires during the delay after it.
pub mod Laws
use dbos_transact_rust.Prelude.{
  ℕ, zero, suc, ◌+◌, ◌≤◌, ℤ, pos, pos_part, ltb_ℤ, leb_ℤ, String, Bool, true, false, not, join,
  Option, none, some, List, [], ◌∷◌, ◌++◌, if◌then◌else◌,
}
use dbos_transact_rust.Error.Chain.{DbosError, foreign, display}
use dbos_transact_rust.Error.Make
use dbos_transact_rust.Database.{Result, ok, err}
use dbos_transact_rust.Database.Schema.{Database}
use dbos_transact_rust.Serialization.{Codecs, Typed, Serializer}
use dbos_transact_rust.Step.{WorkflowState, StepCtx, Body, Times, next_step_id, durable_step}

pub record StepOptions : Type 0 where
  pub max_retries : ℤ
  pub retry_predicate : Option (DbosError → Bool)

-- How a run of the loop ends: its result, what it leaves, and how often the body ran.
pub record Execution (R S : Type 0) : Type 0 where
  pub result : Result R
  pub state : S
  pub runs : ℕ

abbrev pub refuses : Option (DbosError → Bool) → DbosError → Bool
refuses none e = false
refuses (some pred) e = not (pred e)

unfoldable pub exhausted : String → String → StepOptions → DbosError → List String → DbosError
exhausted id name opts e joined =
    if leb_ℤ opts.max_retries (pos 0)
    then e
    else Make.max_step_retries_exceeded id name opts.max_retries (join "; " joined)
        (foreign (join "; " joined))

abbrev pub cancelled_error : String → String → DbosError
cancelled_error id name =
    Make.step_execution id name "context cancelled during retry"
      (foreign "context cancelled during retry")

module _ {R S : Type 0} (name : String) (opts : StepOptions) (f : StepCtx → S → Result R × S)
    (ctx : StepCtx) (cancelled : ℕ → Bool) where
  -- After the `runs`-th run failed with `e`; `later` is the rest of the loop.
  unfoldable pub after_failure :
      ℕ → DbosError → List String → S → Option (Execution R S) → Option (Execution R S)
  unfolding exhausted
  after_failure runs e joined s later =
      if ltb_ℤ opts.max_retries (pos runs)
      then some (record {
        result = err (exhausted ctx.workflow_id name opts e joined);
        state = s;
        runs = runs;
      })
      else if refuses opts.retry_predicate e
      then some (record { result = err e; state = s; runs = runs })
      else if cancelled runs
      then some
          (record { result = err (cancelled_error ctx.workflow_id name); state = s; runs = runs })
      else later

  abbrev joined_with : List String → Result R → List String
  joined_with joined (ok v) = joined
  joined_with joined (err e) = joined ++ display e ∷ []

  abbrev after_run :
      ℕ → List String → Option (Execution R S) → Result R × S → Option (Execution R S)
  unfolding after_failure
  after_run runs joined later (ok v, s) = some (record { result = ok v; state = s; runs = runs })
  after_run runs joined later (err e, s) = after_failure runs e joined s later

  -- The loop; `none` is a loop that the fuel cut short.
  unfoldable pub execute_with_retry : ℕ → ℕ → List String → S → Option (Execution R S)
  unfolding after_run
  execute_with_retry zero runs joined s = none
  execute_with_retry (suc fuel) runs joined s =
      let r = f ctx s in
      let joined' = joined_with joined r.0 in
      let later = execute_with_retry fuel (suc runs) joined' r.1 in
      after_run (suc runs) joined' later r

  -- The fuel that is enough.
  abbrev pub retry_fuel : ℕ
  retry_fuel = suc (pos_part opts.max_retries)

  abbrev result_of : S → Option (Execution R S) → Result R × S
  result_of s none = (err (cancelled_error ctx.workflow_id name), s)
  result_of s (some e) = (e.result, e.state)

  -- The body as the loop runs it.
  unfoldable pub retried : S → Result R × S
  unfolding execute_with_retry
  retried s = result_of s (execute_with_retry retry_fuel 0 [] s)

module _ {R V W : Type 0} (c : Codecs V) (custom : Option (Serializer V)) (t : Typed R V) where
  -- Within a step, the body runs inline and once.
  unfoldable pub run_step_opts :
      Bool
      → String
      → StepOptions
      → Body R W
      → (ℕ → Bool)
      → Times
      → WorkflowState
      → Database
      → W
      → (Result R × (Database × W)) × WorkflowState
  unfolding next_step_id durable_step retried
  run_step_opts is_within_step name opts f cancelled times s db w =
      if is_within_step
      then (f (record { workflow_id = s.workflow_id; step_id = s.step_id }) (db, w), s)
      else let (step, s') = next_step_id s in
        (
          durable_step c custom t s step name (λ ctx. retried name opts f ctx cancelled) times db w,
          s',
        )
