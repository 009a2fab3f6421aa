-- ===== src/SystemDb/Schedules.antt =====
-- The tables of schedules and of application versions, and the operations on them
-- (crates/dbos-core/src/db/sqlite.rs). No other operation reads or writes these tables.
pub mod Latest
use dbos_transact_rust.Prelude.{
  ℕ, ltb, leb, String, Bool, ◌||◌, ◌==◌, Option, none, some, List, [], ◌∷◌, map, concat,
  if◌then◌else◌,
}
use dbos_transact_rust.Error.{conflicting_id}
use dbos_transact_rust.Error.Make
use dbos_transact_rust.Sql.{update_where, delete_where, exists, first, insert_row, order_by}
use dbos_transact_rust.Database.{Result, ok, err}
use dbos_transact_rust.SystemDb.Comms.{head?}

-- A row, and what is read of it: `row_to_schedule` reads every column.
pub record ScheduleRow : Type 0 where
  pub schedule_id : String
  pub schedule_name : String
  pub workflow_name : String
  pub workflow_class_name : Option String
  pub schedule : String
  pub status : String
  pub context : String
  pub last_fired_at : Option String
  pub automatic_backfill : Bool
  pub cron_timezone : Option String
  pub queue_name : Option String

pub record VersionRow : Type 0 where
  pub version_id : String
  pub version_name : String
  pub version_timestamp : ℕ
  pub created_at : ℕ

pub record ScheduleTables : Type 0 where
  pub workflow_schedules : List ScheduleRow
  pub application_versions : List VersionRow

abbrev pub is_version : String → VersionRow → Bool
is_version name v = v.version_name == name

-- ON CONFLICT (version_name) DO NOTHING; `fresh_id` is a new UUID.
unfoldable pub create_application_version : String → String → ℕ → ScheduleTables → ScheduleTables
create_application_version name fresh_id now db =
    if exists (is_version name) db.application_versions then db else record db {
      application_versions =
          insert_row
            (record {
              version_id = fresh_id;
              version_name = name;
              version_timestamp = now;
              created_at = now;
            })
            db.application_versions;
    }

-- ORDER BY version_timestamp DESC
abbrev pub is_newer : VersionRow → VersionRow → Bool
is_newer a b = leb b.version_timestamp a.version_timestamp

abbrev pub name_of : Option VersionRow → Option String
name_of none = none
name_of (some v) = some v.version_name

unfoldable pub get_latest_application_version : ScheduleTables → Option String
get_latest_application_version db = name_of (head? (order_by is_newer db.application_versions))

unfoldable pub list_application_versions : ScheduleTables → List (String × String × ℕ × ℕ)
list_application_versions db =
    map (λ v. (v.version_id, v.version_name, v.version_timestamp, v.created_at))
      (order_by is_newer db.application_versions)

unfoldable pub stamped : ℕ → VersionRow → VersionRow
stamped now v = record v { version_timestamp = now }

unfoldable pub set_latest_application_version : String → ℕ → ScheduleTables → ScheduleTables
unfolding stamped
set_latest_application_version name now db = record db {
  application_versions = update_where (is_version name) (stamped now) db.application_versions;
}

abbrev pub is_schedule : String → ScheduleRow → Bool
is_schedule name r = r.schedule_name == name

-- The id and the name are unique; `last_fired_at` is left to its default, NULL.
unfoldable pub create_schedule : ScheduleRow → ScheduleTables → Result (Unit {0}) × ScheduleTables
create_schedule row db =
    if exists (λ r. r.schedule_id == row.schedule_id || is_schedule row.schedule_name r)
      db.workflow_schedules
    then (
      err (Make.new conflicting_id (concat ("schedule already exists: " ∷ row.schedule_name ∷ []))),
      db,
    )
    else (
      ok tt,
      record db {
        workflow_schedules = insert_row (record row { last_fired_at = none }) db.workflow_schedules;
      },
    )

unfoldable pub list_schedules : ScheduleTables → List ScheduleRow
list_schedules db = db.workflow_schedules

unfoldable pub get_schedule : String → ScheduleTables → Option ScheduleRow
get_schedule name db = first (is_schedule name) db.workflow_schedules

unfoldable pub set_schedule_status : String → String → ScheduleTables → ScheduleTables
set_schedule_status name status db = record db {
  workflow_schedules =
      update_where (is_schedule name) (λ r. record r { status = status; last_fired_at = none })
        db.workflow_schedules;
}

unfoldable pub update_schedule_last_fired : String → String → ScheduleTables → ScheduleTables
update_schedule_last_fired name stamp db = record db {
  workflow_schedules =
      update_where (is_schedule name) (λ r. record r { last_fired_at = some stamp })
        db.workflow_schedules;
}

unfoldable pub delete_schedule : String → ScheduleTables → ScheduleTables
delete_schedule name db = record db {
  workflow_schedules = delete_where (is_schedule name) db.workflow_schedules;
}
