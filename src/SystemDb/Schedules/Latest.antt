-- ===== src/SystemDb/Schedules/Latest.antt =====
-- The latest application version (crates/dbos-core/src/db/sqlite.rs).
use dbos_transact_rust.Prelude.{
  ℕ, ◌<◌, String, ◌≡◌, refl, ap, true, false, ==_iff, some, List, [], ◌∷◌, map, arith,
  if◌then◌else◌,
}
use dbos_transact_rust.Sql.{exists, order_by, insert_sorted}
use dbos_transact_rust.Sql.Laws.{All}
use dbos_transact_rust.SystemDb.Comms.{head?}
use dbos_transact_rust.SystemDb.Schedules.{
  VersionRow, ScheduleTables, is_version, is_newer, name_of, get_latest_application_version,
  stamped, set_latest_application_version,
}

module _ (name : String) (now : ℕ) where
  abbrev stamp : VersionRow → VersionRow
  stamp v = if is_version name v then stamped now v else v

  -- The first row of the listing, if there is one, is stamped if the version is there.
  abbrev Leads : List VersionRow → List VersionRow → Type 0
  Leads rows [] = rows ≡ []
  Leads rows (v ∷ vs) =
      (exists (is_version name) rows ≡ true → (v.version_name ≡ name) × (v.version_timestamp ≡ now))
      × (exists (is_version name) rows ≡ false → v.version_timestamp < now)

  insert-Leads :
      (r : VersionRow) (rows sorted : List VersionRow)
      → r.version_timestamp < now
      → Leads rows sorted
      → Leads (r ∷ rows) (insert_sorted is_newer (stamp r) sorted)
  unfolding stamped
  insert-Leads r rows [] h k = ground (arith, ==_iff r.version_name name)
  insert-Leads r rows (v ∷ vs) h k = ground (arith, ==_iff r.version_name name)

  order-Leads :
      (rows : List VersionRow)
      → All (λ v. v.version_timestamp < now) rows
      → Leads rows (order_by is_newer (map stamp rows))
  order-Leads [] h = refl
  order-Leads (r ∷ rows) h =
      insert-Leads r rows (order_by is_newer (map stamp rows)) h.0 (order-Leads rows h.1)

  leading :
      (rows sorted : List VersionRow)
      → Leads rows sorted
      → exists (is_version name) rows ≡ true
      → name_of (head? sorted) ≡ some name
  leading rows [] k h = absurd (cc (k, h))
  leading rows (v ∷ vs) k h = ap some (k.0 h).0

-- A version that is registered and made the latest is the one that is read as the latest, when
-- the clock is past every recorded timestamp.
pub latest-set_latest :
    (name : String) (now : ℕ) (db : ScheduleTables)
    → exists (is_version name) db.application_versions ≡ true
    → All (λ v. v.version_timestamp < now) db.application_versions
    → get_latest_application_version (set_latest_application_version name now db) ≡ some name
unfolding get_latest_application_version set_latest_application_version
latest-set_latest name now db h a =
    leading name now db.application_versions _ (order-Leads name now db.application_versions a) h
