-- ===== src/Scheduler/Matches.antt =====
-- A pass of the reconciler against the table (crates/dbos-core/src/scheduler/engine.rs).
use dbos_transact_rust.Prelude.{
  ℕ, String, ◌≡◌, refl, ap, ◌∙◌, Bool, true, false, not, ◌&&◌, ◌==◌, ==_iff, Option, none, some,
  List, [], ◌∷◌, map, if◌then◌else◌, Bool-cases, inl, inr, arith,
}
use dbos_transact_rust.Sql.{exists, first}
use dbos_transact_rust.Sql.Laws.{All, Pairs}
use dbos_transact_rust.SystemDb.Queue.{is_some}
use dbos_transact_rust.SystemDb.Schedules.{ScheduleRow, is_schedule}
use dbos_transact_rust.Scheduler.{
  Installed, installed_id, insert_task, remove, is_active, is_stale, remove_stale, add_active,
  reconcile,
}
use dbos_transact_rust.Scheduler.Actions.{
  perform, perform-append, perform-remove_stale, perform-add_active,
}

installed_id-remove :
    (k name : String) (m : List Installed)
    → installed_id k (remove name m) ≡ (if k == name then none else installed_id k m)
unfolding installed_id remove
installed_id-remove k name [] = ground arith
installed_id-remove k name (i ∷ m) =
    ground (arith, ==_iff k name, ==_iff i.name name, ==_iff i.name k, installed_id-remove k name m)

installed_id-insert :
    (k name id : String) (m : List Installed)
    → installed_id k (insert_task name id m) ≡ (if k == name then some id else installed_id k m)
unfolding insert_task installed_id
installed_id-insert k name id m =
    ground (arith, ==_iff k name, ==_iff name k, installed_id-remove k name m)

-- The task that should run under a name.
abbrev pub wanted : String → List ScheduleRow → Option String
wanted k [] = none
wanted k (r ∷ rs) =
    if is_schedule k r then (if is_active r then some r.schedule_id else none) else wanted k rs

-- Schedule names are unique.
abbrev pub NamesApart : List ScheduleRow → Type 0
NamesApart = Pairs (λ r s. (r.schedule_name == s.schedule_name) ≡ false)

module _ (current : List ScheduleRow) (k : String) where
  kept_id :
      (names : List String) (m : List Installed)
      → installed_id k (remove_stale current names m).0 ≡ (
          if exists (λ n. n == k) names
            && is_stale (first (is_schedule k) current) (installed_id k m)
          then none
          else installed_id k m)
  unfolding remove_stale
  kept_id [] m = refl
  kept_id (n ∷ names) m =
      elim (Bool-cases (is_stale (first (is_schedule n) current) (installed_id n m))) [
        | inl g ↦ rw g (
            ground (
              arith,
              ==_iff k n,
              ==_iff n k,
              installed_id-remove k n m,
              kept_id names (remove n m),
              g,
            ))
        | inr g ↦ rw g (ground (arith, ==_iff n k, kept_id names m, g))
      ]

  all_named :
      (m : List Installed) (id : String)
      → installed_id k m ≡ some id
      → exists (λ n. n == k) (map (λ i. i.name) m) ≡ true
  unfolding installed_id
  all_named [] id h = absurd (cc h)
  all_named (i ∷ m) id h = ground (arith, all_named m id)

abbrev or_else : Option String → Option String → Option String
or_else none o = o
or_else (some s) o = some s

module _ (parse_rfc3339 : String → Option ℕ) (now : ℕ) (k : String) where
  abbrev first_active : List ScheduleRow → Option String
  first_active [] = none
  first_active (r ∷ rs) =
      if is_active r && is_schedule k r then some r.schedule_id else first_active rs

  added_id :
      (rows : List ScheduleRow) (m : List Installed)
      → installed_id k (add_active parse_rfc3339 now rows m).0
        ≡ or_else (installed_id k m) (first_active rows)
  unfolding add_active
  added_id [] m = ground arith
  added_id (r ∷ rows) m =
      elim (Bool-cases (is_active r && not (is_some (installed_id r.schedule_name m)))) [
        | inl f ↦ rw f (
            ground (
              arith,
              ==_iff k r.schedule_name,
              ==_iff r.schedule_name k,
              installed_id-insert k r.schedule_name r.schedule_id m,
              added_id rows (insert_task r.schedule_name r.schedule_id m),
              f,
            ))
        | inr f ↦ rw f (ground (arith, ==_iff r.schedule_name k, added_id rows m, f))
      ]

  none_later :
      (r : ScheduleRow) (rows : List ScheduleRow)
      → All (λ s. (r.schedule_name == s.schedule_name) ≡ false) rows
      → r.schedule_name ≡ k
      → first_active rows ≡ none
  none_later r [] a e = refl
  none_later r (s ∷ rows) a e = ground (
    arith,
    ==_iff s.schedule_name k,
    ==_iff r.schedule_name s.schedule_name,
    none_later r rows a.1 e,
  )

  first_active-wanted :
      (rows : List ScheduleRow) → NamesApart rows → first_active rows ≡ wanted k rows
  first_active-wanted [] a = refl
  first_active-wanted (r ∷ rows) a =
      ground (arith, ==_iff r.schedule_name k, first_active-wanted rows a.1, none_later r rows a.0)

settled :
    (k : String) (rows : List ScheduleRow) (o held : Option String)
    → o ≡ (if is_stale (first (is_schedule k) rows) held then none else held)
    → or_else o (wanted k rows) ≡ wanted k rows
settled k [] o held h = ground arith
settled k (r ∷ rows) o none h = let e : o ≡ none = ground arith in rw e refl
settled k (r ∷ rows) o (some id) h = elim (Bool-cases (is_schedule k r)) [
  | inr n ↦ rw n (settled k rows o (some id) (ground arith))
  | inl t ↦ ground (arith, ==_iff id r.schedule_id)
]

held-wanted :
    (parse_rfc3339 : String → Option ℕ) (now : ℕ) (schedules : List ScheduleRow)
    (m : List Installed) (k : String)
    → NamesApart schedules
    → installed_id k (reconcile parse_rfc3339 now schedules m).0 ≡ wanted k schedules
unfolding reconcile
held-wanted parse_rfc3339 now schedules m k a =
    added_id parse_rfc3339 now k schedules (remove_stale schedules (map (λ i. i.name) m) m).0
    ∙ ap (or_else (installed_id k (remove_stale schedules (map (λ i. i.name) m) m).0))
        (first_active-wanted parse_rfc3339 now k schedules a)
    ∙ settled k schedules _ (installed_id k m)
        (kept_id schedules k (map (λ i. i.name) m) m ∙ visited (installed_id k m) refl)
  where
    stale : Bool
    stale = is_stale (first (is_schedule k) schedules) (installed_id k m)

    visited :
        (held : Option String)
        → installed_id k m ≡ held
        → (if exists (λ n. n == k) (map (λ i. i.name) m) && stale then none else installed_id k m)
          ≡ (if stale then none else installed_id k m)
    visited none e = ground (arith, e)
    visited (some id) e = rw (all_named schedules k m id e) refl

-- A pass of the reconciler makes what runs what the table asks for: when its actions are taken, in
-- their order, on the firing tasks that ran before it, exactly the tasks that the scheduler then
-- holds run, and under every name the scheduler holds the task of the schedule of that name and id
-- if the table has one that is ACTIVE, and no task otherwise. Schedule names are unique in the
-- table.
pub reconcile-wanted :
    (parse_rfc3339 : String → Option ℕ) (now : ℕ) (schedules : List ScheduleRow)
    (m : List Installed)
    → NamesApart schedules
    → let q = reconcile parse_rfc3339 now schedules m in
      (perform q.1 m ≡ q.0) × ((k : String) → installed_id k q.0 ≡ wanted k schedules)
unfolding reconcile
reconcile-wanted parse_rfc3339 now schedules m a = (
  perform-append (remove_stale schedules (map (λ i. i.name) m) m).1
        (add_active parse_rfc3339 now schedules
          (remove_stale schedules (map (λ i. i.name) m) m).0).1
        m
      ∙ ap
          (perform
            (add_active parse_rfc3339 now schedules
              (remove_stale schedules (map (λ i. i.name) m) m).0).1)
          (perform-remove_stale schedules (map (λ i. i.name) m) m)
      ∙ perform-add_active parse_rfc3339 now schedules
          (remove_stale schedules (map (λ i. i.name) m) m).0,
  λ k. held-wanted parse_rfc3339 now schedules m k a,
)
