-- ===== src/SystemDb/Reports.antt =====
-- The reporting queries (crates/dbos-core/src/db/sqlite.rs). `key_before` is SQLite's order of
-- texts, which the source leaves to it.
use dbos_transact_rust.Prelude.{
  ℕ, suc, leb, String, Bool, not, ◌&&◌, ◌||◌, ◌==◌, Option, some, List, [], ◌∷◌, map, if◌then◌else◌,
}
use dbos_transact_rust.Status.{as_str}
use dbos_transact_rust.Sql.{select, exists, order_by}
use dbos_transact_rust.Database.{or_default}
use dbos_transact_rust.Database.Schema.{StreamRow, Database}

-- SELECT k, COUNT(*) … GROUP BY k
unfoldable pub count_by {ℓ} : {A : Type ℓ} → (A → String) → List A → List (String × ℕ)
count_by k [] = []
count_by k (r ∷ rs) =
    let rest = count_by k rs in
    if exists (λ s. k s == k r) rs
    then map (λ (c : String × ℕ). if c.0 == k r then (c.0, suc c.1) else c) rest
    else (k r, 1) ∷ rest

unfoldable pub get_workflow_status_counts : Database → List (String × ℕ)
unfolding count_by
get_workflow_status_counts db = count_by (λ r. as_str r.status) db.workflow_status

unfoldable pub get_step_aggregates : Database → List (String × ℕ)
unfolding count_by
get_step_aggregates db = count_by (λ o. o.function_name) db.operation_outputs

unfoldable pub get_workflow_events : String → Database → List (String × Option String × String)
get_workflow_events id db =
    map (λ e. (e.key, some e.value, or_default e.serialization))
      (select (λ e. e.workflow_uuid == id) db.workflow_events)

unfoldable pub get_workflow_notifications :
    String → Database → List (String × Option String × ℕ × String × Bool)
get_workflow_notifications id db =
    map
      (λ n.
        (n.topic, some n.message, n.created_at_epoch_ms, or_default n.serialization, n.consumed))
      (order_by (λ a b. leb a.created_at_epoch_ms b.created_at_epoch_ms)
        (select (λ n. n.destination_uuid == id) db.notifications))

-- ORDER BY key ASC, "offset" ASC
abbrev pub entry_before : (String → String → Bool) → StreamRow → StreamRow → Bool
entry_before key_before a b =
    (key_before a.key b.key && not (key_before b.key a.key))
    || ((a.key == b.key) && leb a.position b.position)

unfoldable pub get_workflow_streams :
    (String → String → Bool) → String → Database → List (String × ℕ × String × String)
get_workflow_streams key_before id db =
    map (λ s. (s.key, s.position, s.value, or_default s.serialization))
      (order_by (entry_before key_before) (select (λ s. s.workflow_uuid == id) db.streams))
