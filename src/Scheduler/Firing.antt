-- ===== src/Scheduler/Firing.antt =====
-- What a tick of a schedule does (crates/dbos-core/src/scheduler/engine.rs): the two firing paths
-- and the backfill of missed ticks.
pub mod Covers
pub mod Missed
use dbos_transact_rust.Prelude.{
  ℕ, zero, suc, leb, String, Bool, true, false, ◌⊎◌, inl, inr, Option, none, some, List, [], ◌∷◌,
  concat, if◌then◌else◌,
}
use dbos_transact_rust.Error.Chain.{DbosError}
use dbos_transact_rust.Error.Make
use dbos_transact_rust.Database.{Result, ok, err}
use dbos_transact_rust.Database.Schema.{Database}
use dbos_transact_rust.SystemDb.Insert.{get_or}
use dbos_transact_rust.SystemDb.Queue.{is_some}
use dbos_transact_rust.SystemDb.Listing.{get_workflow_status}
use dbos_transact_rust.SystemDb.Manage.{internal_queue_name}
use dbos_transact_rust.SystemDb.Schedules.{
  ScheduleRow, ScheduleTables, get_latest_application_version, update_schedule_last_fired,
}
use dbos_transact_rust.Serialization.{Codecs, Typed, Serializer, resolve_encoder, encode}
use dbos_transact_rust.Submission.{
  Draws, no_flags, default_options, RunOptions, RunFlags, Engine, ErasedHandle, reject,
  run_workflow_erased,
}
use dbos_transact_rust.Scheduler.{filled}

-- `sched-{name}-{RFC3339}`
unfoldable pub tick_id : (ℕ → String) → String → ℕ → String
tick_id to_rfc3339 name time = concat ("sched-" ∷ name ∷ "-" ∷ to_rfc3339 time ∷ [])

unfoldable pub tick_options : String → String → Option String → RunOptions
tick_options id queue version = record default_options {
  workflow_id = some id;
  queue = some queue;
  application_version = version;
}

pub record ScheduledWorkflowInput (V : Type 0) : Type 0 where
  pub scheduled_time : ℕ
  pub context : V

unfoldable pub queue_of : ScheduleRow → String
queue_of row = get_or internal_queue_name (filled row.queue_name)

-- The submission of a tick.
unfoldable pub enqueue :
    Engine
    → String
    → String
    → String
    → Option String
    → Draws
    → Option String
    → String
    → Database
    → Result ErasedHandle × Engine × Database
unfolding tick_options
enqueue engine name id queue version draws encoded serialization db =
    run_workflow_erased engine name encoded serialization (tick_options id queue version) no_flags
      none draws.fresh_id draws.owner_xid draws.clock db

module _ {V : Type 0} (c : Codecs V) (custom : Option (Serializer V))
    (to_rfc3339 : ℕ → String) where
  -- A tick of a registered schedule: a failure is logged. `times` is how a time is stored.
  unfoldable pub fire : Typed ℕ V → Engine → String → ℕ → Draws → Database → Engine × Database
  unfolding tick_id
  fire times engine name time draws db =
      let encoder = resolve_encoder c false custom in
      elim (encode times encoder time) [
        | err e ↦ (engine, db)
        | ok encoded ↦
            let (handle, engine', db') =
              enqueue engine name (tick_id to_rfc3339 name time) internal_queue_name none draws
                encoded encoder.name db in
            (engine', db')
      ]

  abbrev context_or : V → String ⊎ V → V
  context_or null (inl e) = null
  context_or null (inr v) = v

  unfoldable pub decode_context : String → V
  decode_context raw = context_or c.null (c.from_text raw)

  unfoldable pub tick_input : ScheduleRow → ℕ → ScheduledWorkflowInput V
  unfolding decode_context
  tick_input row time = record { scheduled_time = time; context = decode_context row.context }

  module _ (t : Typed (ScheduledWorkflowInput V) V) where
    -- The last fired time is updated once the tick is enqueued.
    abbrev pub fired :
        String
        → ℕ
        → ScheduleTables
        → Result ErasedHandle × Engine × Database
        → Engine × Database × ScheduleTables
    fired name time tables (err e, engine, db) = (engine, db, tables)
    fired name time tables (ok h, engine, db) =
        (engine, db, update_schedule_last_fired name (to_rfc3339 time) tables)

    -- A tick of a schedule of the table.
    unfoldable pub fire_db :
        Engine
        → ScheduleRow
        → ℕ
        → Draws
        → Database
        → ScheduleTables
        → Engine × Database × ScheduleTables
    unfolding tick_id tick_input queue_of
    fire_db engine row time draws db tables =
        let encoder = resolve_encoder c false custom in
        elim (encode t encoder (tick_input row time)) [
          | err e ↦ (engine, db, tables)
          | ok encoded ↦ fired row.schedule_name time tables (
              enqueue engine row.workflow_name (tick_id to_rfc3339 row.schedule_name time)
                (queue_of row) (get_latest_application_version tables) draws encoded encoder.name
                db)
        ]

    -- What one round of the backfill leads to: a failure, or the next round.
    pub data Round : Type 0 where
      fails : DbosError → Engine → Database → Round
      goes : Engine → Database → Round

    abbrev pub round_of : Result ErasedHandle × Engine × Database → Round
    round_of (err e, engine, db) = fails e engine db
    round_of (ok h, engine, db) = goes engine db

    abbrev pub submitted :
        Engine → ScheduleRow → Option String → ℕ → Draws → Database → Result (Option String) → Round
    submitted engine row version time draws db (err e) = fails e engine db
    submitted engine row version time draws db (ok encoded) = round_of (
        enqueue engine row.workflow_name (tick_id to_rfc3339 row.schedule_name time) (queue_of row)
          version draws encoded (resolve_encoder c false custom).name db)

    unfoldable pub backfill_round :
        Engine → ScheduleRow → Option String → ℕ → Draws → Database → Round
    unfolding tick_id tick_input
    backfill_round engine row version time draws db =
        if is_some (get_workflow_status (tick_id to_rfc3339 row.schedule_name time) db)
        then goes engine db
        else submitted engine row version time draws db
            (encode t (resolve_encoder c false custom) (tick_input row time))

    abbrev pub and_then :
        Round
        → (Engine → Database → Option (Result (Unit {0}) × Engine × Database))
        → Option (Result (Unit {0}) × Engine × Database)
    and_then (fails e engine db) k = some (err e, engine, db)
    and_then (goes engine db) k = k engine db

    -- The loop over the ticks after `after`: `next` is the first tick after a time. `none` is a loop
    -- that the fuel cut short.
    unfoldable pub backfill_from :
        (ℕ → Option ℕ)
        → ℕ
        → ScheduleRow
        → Option String
        → (ℕ → Draws)
        → ℕ
        → ℕ
        → Engine
        → Database
        → Option (Result (Unit {0}) × Engine × Database)
    backfill_from next end row version draws zero after engine db = none
    backfill_from next end row version draws (suc fuel) after engine db = elim (next after) [
      | none ↦ some (ok tt, engine, db)
      | some time ↦
          let later =
            and_then (backfill_round engine row version time (draws time) db)
              (backfill_from next end row version draws fuel time) in
          if leb end time then some (ok tt, engine, db) else later
    ]

    -- `cron` is `parse_cron`: the ticks of a schedule, or the text of the failure.
    unfoldable pub backfill :
        (String → String ⊎ (ℕ → Option ℕ))
        → Engine
        → ScheduleRow
        → ℕ
        → ℕ
        → (ℕ → Draws)
        → ℕ
        → Database
        → ScheduleTables
        → Option (Result (Unit {0}) × Engine × Database)
    unfolding backfill_from
    backfill cron engine row start end draws fuel db tables = elim (cron row.schedule) [
      | inl e ↦
          some (err (Make.initialization (concat ("invalid cron schedule: " ∷ e ∷ []))), engine, db)
      | inr next ↦
          backfill_from next end row (get_latest_application_version tables) draws fuel start engine
            db
    ]
