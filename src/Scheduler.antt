-- ===== src/Scheduler.antt =====
-- Dynamic schedules (crates/dbos-core/src/scheduler/engine.rs, dynamic.rs): the calls that manage
-- the table, and the reconciler that keeps the firing tasks in step with it.
pub mod Actions
pub mod Matches
pub mod Firing
use dbos_transact_rust.Prelude.{
  ℕ, ◌+◌, ltb, String, Bool, true, false, not, ◌&&◌, ◌||◌, ◌==◌, is_empty, ◌⊎◌, inl, inr, Option,
  none, some, List, [], ◌∷◌, ◌++◌, map, concat, if◌then◌else◌,
}
use dbos_transact_rust.Error.Chain.{DbosError}
use dbos_transact_rust.Error.Make
use dbos_transact_rust.Sql.{delete_where, exists, first}
use dbos_transact_rust.Database.{Result, ok, err, opt}
use dbos_transact_rust.SystemDb.Insert.{get_or, sql_eq}
use dbos_transact_rust.SystemDb.Queue.{is_some}
use dbos_transact_rust.SystemDb.Schedules.{
  ScheduleRow, ScheduleTables, is_schedule, create_schedule, list_schedules, get_schedule,
  set_schedule_status, delete_schedule,
}

abbrev pub status_active : String
status_active = "ACTIVE"

abbrev pub status_paused : String
status_paused = "PAUSED"

pub record CreateScheduleOptions : Type 0 where
  pub schedule_name : String
  pub workflow_name : String
  pub schedule : String
  pub context : Option String
  pub automatic_backfill : Bool
  pub cron_timezone : Option String
  pub queue_name : Option String
  pub workflow_class_name : Option String

-- `.filter(|s| !s.is_empty())`
abbrev pub filled : Option String → Option String
filled none = none
filled (some s) = opt s

-- `context` is its JSON text; `json_null` is what a missing one is stored as.
unfoldable pub schedule_row : CreateScheduleOptions → String → String → ScheduleRow
schedule_row opts schedule_id json_null = record {
  schedule_id = schedule_id;
  schedule_name = opts.schedule_name;
  workflow_name = opts.workflow_name;
  workflow_class_name = filled opts.workflow_class_name;
  schedule = opts.schedule;
  status = status_active;
  context = get_or json_null opts.context;
  last_fired_at = none;
  automatic_backfill = opts.automatic_backfill;
  cron_timezone = filled opts.cron_timezone;
  queue_name = filled opts.queue_name;
}

abbrev pub refusal : String → Result String
refusal text = err (Make.initialization text)

abbrev pub created : String → Result (Unit {0}) × ScheduleTables → Result String × ScheduleTables
created id (ok u, db) = (ok id, db)
created id (err e, db) = (err e, db)

-- `trim` is `str::trim`, and `cron_error` the text of the failure to parse a cron spec, if any.
unfoldable pub create_schedule_checked :
    (String → String)
    → (String → Option String)
    → CreateScheduleOptions
    → String
    → ScheduleTables
    → Result String × ScheduleTables
unfolding schedule_row
create_schedule_checked trim cron_error opts fresh_id db =
    if is_empty (trim opts.schedule_name)
    then (refusal "schedule_name is required", db)
    else if is_empty (trim opts.workflow_name)
    then (refusal "workflow_name is required", db)
    else if is_empty (trim opts.schedule)
    then (refusal "schedule is required", db)
    else elim (cron_error opts.schedule) [
      | some text ↦ (refusal text, db)
      | none ↦ created fresh_id (create_schedule (schedule_row opts fresh_id "null") db)
    ]

unfoldable pub set_status : String → String → ScheduleTables → Result (Unit {0}) × ScheduleTables
set_status name status db =
    if is_empty name
    then (err (Make.initialization "schedule_name is required"), db)
    else if is_some (get_schedule name db)
    then (ok tt, set_schedule_status name status db)
    else (err (Make.initialization (concat ("schedule not found: " ∷ name ∷ []))), db)

unfoldable pub pause_schedule : String → ScheduleTables → Result (Unit {0}) × ScheduleTables
unfolding set_status
pause_schedule name = set_status name status_paused

unfoldable pub resume_schedule : String → ScheduleTables → Result (Unit {0}) × ScheduleTables
unfolding set_status
resume_schedule name = set_status name status_active

unfoldable pub delete_schedule_checked :
    String → ScheduleTables → Result (Unit {0}) × ScheduleTables
delete_schedule_checked name db =
    if is_empty name
    then (err (Make.initialization "schedule_name is required"), db)
    else (ok tt, delete_schedule name db)

-- A firing task that the scheduler holds, and what a pass does besides.
pub record Installed : Type 0 where
  pub name : String
  pub schedule_id : String

pub data Action : Type 0 where
  cancels : String → Action
  backfills : ScheduleRow → ℕ → ℕ → Action
  spawns : ScheduleRow → Action

abbrev pub is_named : String → Installed → Bool
is_named name i = i.name == name

unfoldable pub installed_id : String → List Installed → Option String
installed_id name [] = none
installed_id name (i ∷ is') = if is_named name i then some i.schedule_id else installed_id name is'

unfoldable pub remove : String → List Installed → List Installed
remove name m = delete_where (is_named name) m

-- The name replaces what was there under it.
unfoldable pub insert_task : String → String → List Installed → List Installed
insert_task name id m = record { name = name; schedule_id = id } ∷ remove name m

abbrev pub is_active : ScheduleRow → Bool
is_active r = r.status == status_active

-- Deleted, paused, or replaced.
abbrev pub is_stale : Option ScheduleRow → Option String → Bool
is_stale none id = true
is_stale (some r) id = not (is_active r) || not (sql_eq id (some r.schedule_id))

-- Phase 1, over the names installed at its start. `current` holds each schedule under its name.
unfoldable pub remove_stale :
    List ScheduleRow → List String → List Installed → List Installed × List Action
unfolding installed_id remove
remove_stale current [] m = (m, [])
remove_stale current (name ∷ names) m =
    let gone = is_stale (first (is_schedule name) current) (installed_id name m) in
    let (m', actions) = remove_stale current names (if gone then remove name m else m) in
    (m', if gone then cancels name ∷ actions else actions)

-- The missed ticks lie after `last` and before `now`, in milliseconds.
unfoldable pub backfill_of : (String → Option ℕ) → ℕ → ScheduleRow → List Action
backfill_of parse_rfc3339 now row =
    if row.automatic_backfill
    then elim row.last_fired_at [
      | none ↦ []
      | some text ↦ elim (parse_rfc3339 text) [
        | none ↦ []
        | some last ↦ if ltb (last + 1000) now then backfills row (last + 1000) now ∷ [] else []
      ]
    ]
    else []

-- Phase 2.
unfoldable pub add_active :
    (String → Option ℕ) → ℕ → List ScheduleRow → List Installed → List Installed × List Action
unfolding installed_id insert_task backfill_of
add_active parse_rfc3339 now [] m = (m, [])
add_active parse_rfc3339 now (row ∷ rows) m =
    let fresh = is_active row && not (is_some (installed_id row.schedule_name m)) in
    let (m', actions) =
      add_active parse_rfc3339 now rows
        (if fresh then insert_task row.schedule_name row.schedule_id m else m) in
    (m', if fresh then backfill_of parse_rfc3339 now row ++ spawns row ∷ actions else actions)

unfoldable pub reconcile :
    (String → Option ℕ) → ℕ → List ScheduleRow → List Installed → List Installed × List Action
unfolding remove_stale add_active
reconcile parse_rfc3339 now schedules m =
    let (kept, removed) = remove_stale schedules (map (λ i. i.name) m) m in
    let (m', added) = add_active parse_rfc3339 now schedules kept in (m', removed ++ added)
