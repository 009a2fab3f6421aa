-- ===== src/Scheduler/Firing/Missed.antt =====
-- The ticks that a backfill enqueues (crates/dbos-core/src/scheduler/engine.rs).
use dbos_transact_rust.Prelude.{ℕ, suc, ◌-◌, ◌<◌, ◌≤◌, String, ◌≡◌, ◌⊎◌, inr, Option, some}
use dbos_transact_rust.Database.{Result, ok}
use dbos_transact_rust.Database.Schema.{Database}
use dbos_transact_rust.SystemDb.Schedules.{
  ScheduleRow, ScheduleTables, get_latest_application_version,
}
use dbos_transact_rust.Serialization.{Codecs, Typed, Serializer}
use dbos_transact_rust.Submission.{Draws, Engine}
use dbos_transact_rust.Submission.Presence.{Has}
use dbos_transact_rust.Scheduler.Firing.{tick_id, ScheduledWorkflowInput, backfill}
use dbos_transact_rust.Scheduler.Firing.Covers.{
  Tick, Advances, of_Ends, loop-Ends, loop_quiet, ended,
}

-- A backfill always ends: with ticks that advance, `end - start + 1` rounds are enough.
pub backfill_ends :
    {V : Type 0} (c : Codecs V) (custom : Option (Serializer V)) (to_rfc3339 : ℕ → String)
    (t : Typed (ScheduledWorkflowInput V) V) (cron : String → String ⊎ (ℕ → Option ℕ))
    (next : ℕ → Option ℕ) (engine : Engine) (row : ScheduleRow) (start end : ℕ) (draws : ℕ → Draws)
    (fuel : ℕ) (db : Database) (tables : ScheduleTables)
    → cron row.schedule ≡ inr next
    → Advances next
    → end - start ≤ fuel
    → (q : Result (Unit {0}) × Engine × Database) × (backfill c custom to_rfc3339 t cron engine row
          start end draws
          (suc fuel)
          db
          tables
        ≡ some q)
unfolding backfill
backfill_ends c custom to_rfc3339 t cron next engine row start end draws fuel db tables e a f =
    let version = get_latest_application_version tables in
    rw (e, backfill)
      (ended c custom to_rfc3339 t row version next a end draws start db _
        (loop-Ends c custom to_rfc3339 t row version next a end draws fuel start engine db f))

-- No tick is missed: with ticks that advance, when a backfill from `start` to `end` succeeded, every
-- tick between them has its workflow, and a second backfill of the same times, from the context and
-- the database that the first one left, succeeds and changes neither.
pub backfill_covers :
    {V : Type 0} (c : Codecs V) (custom : Option (Serializer V)) (to_rfc3339 : ℕ → String)
    (t : Typed (ScheduledWorkflowInput V) V) (cron : String → String ⊎ (ℕ → Option ℕ))
    (next : ℕ → Option ℕ) (engine later_engine : Engine) (row : ScheduleRow) (start end : ℕ)
    (draws later_draws : ℕ → Draws) (fuel : ℕ) (db after : Database) (tables : ScheduleTables)
    (time : ℕ)
    → cron row.schedule ≡ inr next
    → Advances next
    → end - start ≤ fuel
    → backfill c custom to_rfc3339 t cron engine row start end draws (suc fuel) db tables
      ≡ some (ok tt, later_engine, after)
    → Tick next start time
    → time < end
    → Has (tick_id to_rfc3339 row.schedule_name time) after
      × (backfill c custom to_rfc3339 t cron later_engine row start end later_draws
            (suc fuel)
            after
            tables
          ≡ some (ok tt, later_engine, after))
unfolding backfill
backfill_covers c custom to_rfc3339 t cron next engine later_engine row start end draws later_draws
      fuel db after tables time e a f h i l =
    let version = get_latest_application_version tables in
    let covered =
      of_Ends c custom to_rfc3339 t row version next a end draws start db _ later_engine after
        (loop-Ends c custom to_rfc3339 t row version next a end draws fuel start engine db f)
        (rw (e, backfill) at h) in
    (
      covered time i l,
      rw (e, backfill)
          (loop_quiet c custom to_rfc3339 t row version next a end later_draws fuel start
            later_engine after f covered),
    )
