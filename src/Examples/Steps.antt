-- ===== src/Examples/Steps.antt =====
-- Recorded steps, outcomes and retries.
use dbos_transact_rust.Prelude.{ℕ, zero, suc, ◌*◌, ◌≡◌, refl, some, [], ◌∷◌, ◌==◌, arith}
use dbos_transact_rust.Error.{step_execution as step_failed}
use dbos_transact_rust.Error.Chain.{sqlx, transport, with_source}
use dbos_transact_rust.Error.Make
use dbos_transact_rust.Status.{success, pending, cancelled}
use dbos_transact_rust.Sql.{first}
use dbos_transact_rust.Database.{Result, ok, err}
use dbos_transact_rust.Database.Schema.{Database}
use dbos_transact_rust.SystemDb.Insert.{new_row, has_id}
use dbos_transact_rust.SystemDb.Outcome.{update_workflow_outcome, await_workflow_result}
use dbos_transact_rust.SystemDb.Outcome.Laws.{outcome_cancelled}
use dbos_transact_rust.Retry.{goes_on, retry}
use dbos_transact_rust.Retry.Laws.{Sleeps, RollsBack, EndsWith, delay_bounds, retry-EndsWith}
use dbos_transact_rust.Examples.{row_of, database_of}

abbrev running : Database
running = database_of (row_of "w1" pending ∷ [])

abbrev stopped : Database
stopped = database_of (row_of "w1" cancelled ∷ [])

outcome_cancelled_example :
    let after = update_workflow_outcome "w1" success (some "7") "" 50 51 stopped in
    (first (has_id "w1") after.workflow_status ≡ some (row_of "w1" cancelled))
    × (await_workflow_result "w1" (after ∷ []) ≡ some (err (Make.awaited_workflow_cancelled "w1")))
unfolding new_row ◌==◌
outcome_cancelled_example =
    outcome_cancelled "w1" success (some "7") "" 50 51 stopped [] (row_of "w1" cancelled) refl refl
      refl

-- A connection that fails once and then works; the call counts its runs that commit.
abbrev flaky : ℕ → ℕ → Result ℕ × ℕ
flaky zero s = (err (with_source (Make.new step_failed "no connection") (sqlx (transport "io"))), s)
flaky (suc k) s = (ok s, suc s)

abbrev two_seconds_each : ℕ → ℕ
two_seconds_each k = 2000 * k

flaky_sleeps : Sleeps 120000 flaky two_seconds_each
flaky_sleeps k = omega (arith, (delay_bounds k).1)

flaky_rolls_back : RollsBack 120000 flaky two_seconds_each
unfolding goes_on
flaky_rolls_back zero s h = refl
flaky_rolls_back (suc k) s h = absurd (cc h)

retry-EndsWith_example :
    EndsWith 120000 flaky two_seconds_each 5 (retry 120000 flaky two_seconds_each (suc 2400) 0 5)
retry-EndsWith_example =
    retry-EndsWith 120000 flaky two_seconds_each 2400 5 flaky_sleeps flaky_rolls_back (omega arith)
