-- ===== src/Scheduler/Actions.antt =====
-- What the actions of a pass of the reconciler make of the firing tasks that run
-- (crates/dbos-core/src/scheduler/engine.rs).
use dbos_transact_rust.Prelude.{
  ℕ, String, ◌≡◌, refl, sym, ap, ◌∙◌, false, not, ◌&&◌, Option, List, [], ◌∷◌, ◌++◌, Bool-cases,
  inl, inr, arith,
}
use dbos_transact_rust.Sql.{first, delete_where}
use dbos_transact_rust.SystemDb.Queue.{is_some}
use dbos_transact_rust.SystemDb.Schedules.{ScheduleRow, is_schedule}
use dbos_transact_rust.Scheduler.{
  Installed, Action, cancels, backfills, spawns, is_named, backfill_of, installed_id, insert_task,
  remove, is_active, is_stale, remove_stale, add_active,
}

abbrev pub task : ScheduleRow → Installed
task row = record { name = row.schedule_name; schedule_id = row.schedule_id }

-- The firing tasks that run once the actions of a pass are taken: a cancelled one stops, a spawned
-- one runs beside those that do, whatever their names are.
abbrev pub perform : List Action → List Installed → List Installed
perform [] tasks = tasks
perform (cancels name ∷ actions) tasks = perform actions (delete_where (is_named name) tasks)
perform (backfills row start end_ ∷ actions) tasks = perform actions tasks
perform (spawns row ∷ actions) tasks = perform actions (task row ∷ tasks)

pub perform-append :
    (xs ys : List Action) (tasks : List Installed)
    → perform (xs ++ ys) tasks ≡ perform ys (perform xs tasks)
perform-append [] ys tasks = refl
perform-append (cancels name ∷ xs) ys tasks = perform-append xs ys _
perform-append (backfills row start end_ ∷ xs) ys tasks = perform-append xs ys tasks
perform-append (spawns row ∷ xs) ys tasks = perform-append xs ys _

pub perform-remove_stale :
    (current : List ScheduleRow) (names : List String) (m : List Installed)
    → perform (remove_stale current names m).1 m ≡ (remove_stale current names m).0
unfolding remove_stale remove
perform-remove_stale current [] m = refl
perform-remove_stale current (n ∷ names) m =
    elim (Bool-cases (is_stale (first (is_schedule n) current) (installed_id n m))) [
      | inl t ↦ rw t (perform-remove_stale current names (remove n m))
      | inr f ↦ rw f (perform-remove_stale current names m)
    ]

-- Nothing is removed under a name that is free.
remove_free :
    (name : String) (m : List Installed) → is_some (installed_id name m) ≡ false → remove name m ≡ m
unfolding installed_id remove
remove_free name [] h = refl
remove_free name (i ∷ m) h = ground (arith, remove_free name m)

perform-backfill_of :
    (parse_rfc3339 : String → Option ℕ) (now : ℕ) (row : ScheduleRow) (tasks : List Installed)
    → perform (backfill_of parse_rfc3339 now row) tasks ≡ tasks
unfolding backfill_of
perform-backfill_of parse_rfc3339 now row tasks = ground arith

pub perform-add_active :
    (parse_rfc3339 : String → Option ℕ) (now : ℕ) (rows : List ScheduleRow) (m : List Installed)
    → perform (add_active parse_rfc3339 now rows m).1 m ≡ (add_active parse_rfc3339 now rows m).0
unfolding add_active insert_task
perform-add_active parse_rfc3339 now [] m = refl
perform-add_active parse_rfc3339 now (r ∷ rows) m =
    elim (Bool-cases (is_active r && not (is_some (installed_id r.schedule_name m)))) [
      | inl f ↦ rw f (
          perform-append (backfill_of parse_rfc3339 now r) (spawns r ∷ (added r m).1) m
          ∙ ap (perform (spawns r ∷ (added r m).1)) (perform-backfill_of parse_rfc3339 now r m)
          ∙ ap (λ tasks. perform (added r m).1 (task r ∷ tasks))
              (sym (remove_free r.schedule_name m (ground arith)))
          ∙ perform-add_active parse_rfc3339 now rows (insert_task r.schedule_name r.schedule_id m))
      | inr f ↦ rw f (perform-add_active parse_rfc3339 now rows m)
    ]
  where
    added : ScheduleRow → List Installed → List Installed × List Action
    added r m = add_active parse_rfc3339 now rows (insert_task r.schedule_name r.schedule_id m)
