-- ===== src/Examples/Schedules.antt =====
-- Schedules, and a database that fails now and then.
use dbos_transact_rust.Prelude.{
  ℕ, zero, suc, ◌*◌, ◌<◌, ltb, String, ◌≡◌, refl, true, ◌⊎◌, inr, Option, none, some, [], ◌∷◌, ◌==◌,
  arith, if◌then◌else◌,
}
use dbos_transact_rust.Error.{workflow_execution}
use dbos_transact_rust.Error.Chain.{sqlx, transport, with_source}
use dbos_transact_rust.Error.Make
use dbos_transact_rust.Database.{Result, ok, err}
use dbos_transact_rust.Database.Schema.{Database}
use dbos_transact_rust.SystemDb.Run.{migrated}
use dbos_transact_rust.SystemDb.Listing.{get_workflow_status}
use dbos_transact_rust.SystemDb.Schedules.{
  ScheduleRow, ScheduleTables, get_latest_application_version, set_latest_application_version,
}
use dbos_transact_rust.SystemDb.Schedules.Latest.{latest-set_latest}
use dbos_transact_rust.Scheduler.{installed_id, reconcile}
use dbos_transact_rust.Scheduler.Matches.{wanted, reconcile-wanted}
use dbos_transact_rust.Scheduler.Actions.{perform}
use dbos_transact_rust.Scheduler.Firing.{
  ScheduledWorkflowInput, tick_id, enqueue, queue_of, backfill_round, backfill,
}
use dbos_transact_rust.Scheduler.Firing.Covers.{Advances, soon}
use dbos_transact_rust.Scheduler.Firing.Missed.{backfill_ends, backfill_covers}
use dbos_transact_rust.Serialization.{Typed, resolve_encoder, json_serializer, encode}
use dbos_transact_rust.Submission.{Draws, Engine, dispatch, run_workflow_erased}
use dbos_transact_rust.Submission.Presence.{Has}
use dbos_transact_rust.SystemDb.Insert.{insert_workflow_status}
use dbos_transact_rust.Examples.Runs.{Value, codecs}
use dbos_transact_rust.Examples.Submissions.{engine_of}
use dbos_transact_rust.Retry.{goes_on, is_transient}
use dbos_transact_rust.Retry.Decorator.{
  message, set_latest_application_version as set_latest_request, SystemDatabase, retrying,
}
use dbos_transact_rust.Retry.Decorator.Hides.{Faults, retrying_hides}

abbrev nightly : String → String → ScheduleRow
nightly id status = record {
  schedule_id = id;
  schedule_name = "nightly";
  workflow_name = "send_mail";
  workflow_class_name = none;
  schedule = "0 0 * * *";
  status = status;
  context = "null";
  last_fired_at = none;
  automatic_backfill = true;
  cron_timezone = none;
  queue_name = none;
}

-- The schedule was replaced since it was installed.
reconcile-wanted_example :
    let q =
      reconcile
        (λ s. none)
        9
        (nightly "s2" "ACTIVE" ∷ [])
        (record { name = "nightly"; schedule_id = "s1" } ∷ []) in
    (perform q.1 (record { name = "nightly"; schedule_id = "s1" } ∷ []) ≡ q.0)
    × ((k : String) → installed_id k q.0 ≡ wanted k (nightly "s2" "ACTIVE" ∷ []))
unfolding ◌==◌
reconcile-wanted_example =
    reconcile-wanted (λ s. none) 9 (nightly "s2" "ACTIVE" ∷ [])
      (record { name = "nightly"; schedule_id = "s1" } ∷ []) (tt, tt)

-- A database that counts its calls and answers nothing useful.
abbrev exact : SystemDatabase ℕ
exact r calls = (err (Make.new workflow_execution "not there"), suc calls)

-- Its first two connections fail.
abbrev flaky : ℕ → SystemDatabase ℕ
flaky k r calls =
    if ltb k 2
    then (
      err (with_source (Make.new workflow_execution "no connection") (sqlx (transport "io"))),
      calls,
    )
    else exact r calls

flaky-Faults :
    (j : ℕ)
    → j < 2
    → Faults 120000 (λ k. flaky k (message (set_latest_request "v2"))) (λ k. 2000 * k) 7 j
unfolding is_transient with_source
flaky-Faults zero l = (_, refl, refl, omega arith)
flaky-Faults (suc zero) l = (_, refl, refl, omega arith)
flaky-Faults (suc (suc j)) l = absurd (omega arith)

retrying_hides_example :
    retrying 120000 flaky (λ k. 2000 * k) 5 (message (set_latest_request "v2")) 7
    ≡ some
        (record { result = err (Make.new workflow_execution "not there"); state = 8; attempts = 3 })
unfolding goes_on
retrying_hides_example =
    retrying_hides 120000 exact flaky (λ k. 2000 * k) 5 2 7 (message (set_latest_request "v2"))
      (omega arith) flaky-Faults refl refl

-- A tick at every full millisecond.
abbrev cron : String → String ⊎ (ℕ → Option ℕ)
cron s = inr (λ t. some (suc t))

cron-Advances : Advances (λ t. some (suc t))
cron-Advances t u e = ground arith

abbrev as_text : ℕ → String
as_text zero = "midnight"
as_text (suc n) = "later"

abbrev inputs : Typed (ScheduledWorkflowInput Value) Value
inputs = record {
  to_value = λ i. inr i.context;
  from_value = λ v. inr (record { scheduled_time = 0; context = v });
}

abbrev draws : ℕ → Draws
draws n = record { fresh_id = "u"; owner_xid = "o"; clock = λ k. k }

abbrev no_tables : ScheduleTables
no_tables = record { workflow_schedules = []; application_versions = [] }

abbrev engine_after : Option (Result (Unit {0}) × Engine × Database) → Engine
engine_after none = engine_of "e1"
engine_after (some (r, engine, db)) = engine

abbrev database_after : Option (Result (Unit {0}) × Engine × Database) → Database
database_after none = migrated
database_after (some (r, engine, db)) = db

backfill_covers_example :
    let engine = engine_after (
      backfill codecs none as_text inputs cron
        (engine_of "e1")
        (nightly "s2" "ACTIVE")
        0
        2
        draws
        3
        migrated
        no_tables) in
    let db = database_after (
      backfill codecs none as_text inputs cron
        (engine_of "e1")
        (nightly "s2" "ACTIVE")
        0
        2
        draws
        3
        migrated
        no_tables) in
    Has (tick_id as_text "nightly" 1) db
    × (backfill codecs none as_text inputs cron engine
          (nightly "s2" "ACTIVE")
          0
          2
          draws
          3
          db
          no_tables
        ≡ some (ok tt, engine, db))
unfolding backfill backfill_round enqueue run_workflow_erased dispatch insert_workflow_status
    resolve_encoder json_serializer encode ◌==◌ queue_of get_workflow_status
backfill_covers_example =
    backfill_covers codecs none as_text inputs cron (λ t. some (suc t)) (engine_of "e1")
      (engine_after (
        backfill codecs none as_text inputs cron (engine_of "e1") (nightly "s2" "ACTIVE") 0 2 draws
          3 migrated no_tables))
      (nightly "s2" "ACTIVE") 0 2 draws draws 2 migrated
      (database_after (
        backfill codecs none as_text inputs cron (engine_of "e1") (nightly "s2" "ACTIVE") 0 2 draws
          3 migrated no_tables))
      no_tables 1 refl cron-Advances (omega arith) refl (soon refl) (omega arith)

backfill_ends_example :
    (q : Result (Unit {0}) × Engine × Database) × (backfill codecs none as_text inputs cron
        (engine_of "e1")
        (nightly "s2" "ACTIVE")
        0
        2
        draws
        3
        migrated
        no_tables
      ≡ some q)
backfill_ends_example =
    backfill_ends codecs none as_text inputs cron (λ t. some (suc t)) (engine_of "e1")
      (nightly "s2" "ACTIVE") 0 2 draws 2 migrated no_tables refl cron-Advances (omega arith)

abbrev versions : ScheduleTables
versions = record {
  workflow_schedules = [];
  application_versions =
      record { version_id = "1"; version_name = "a"; version_timestamp = 10; created_at = 10 }
      ∷ record { version_id = "2"; version_name = "b"; version_timestamp = 20; created_at = 20 }
      ∷ [];
}

latest-set_latest_example :
    get_latest_application_version (set_latest_application_version "a" 30 versions) ≡ some "a"
unfolding ◌==◌
latest-set_latest_example = latest-set_latest "a" 30 versions refl (omega arith, (omega arith, tt))
