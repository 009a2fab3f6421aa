-- ===== src/SystemDb/Invariant.antt =====
-- What the schema promises of the tables (the keys of 0001_initial_schema.sql), and the
-- statements that keep it.
use dbos_transact_rust.Prelude.{
  String, ◌≡◌, refl, ◌⊎◌, inl, inr, Bool, true, false, ◌&&◌, Option, none, List, [], ◌∷◌, map,
  arith, if◌then◌else◌, Bool-cases,
}
use dbos_transact_rust.Sql.{update_where, exists, insert_row}
use dbos_transact_rust.Sql.Laws.{
  All, Pairs, All-imp, All-insert_row, Pairs-map, Pairs-insert_row, exists-map, exists-insert_row,
  exists-none,
}
use dbos_transact_rust.Database.Schema.{WorkflowRow, OutputRow, Database}
use dbos_transact_rust.SystemDb.Insert.{has_id, has_key, sql_eq, same_slot}

-- Two rows with different ids and different deduplication slots.
abbrev pub Apart : WorkflowRow → WorkflowRow → Type 0
Apart a b = (has_id b.workflow_uuid a ≡ false) × (same_slot b a ≡ false)

abbrev pub StepApart : OutputRow → OutputRow → Type 0
StepApart a b = has_key b.workflow_uuid b.function_id a ≡ false

abbrev pub Owned : List WorkflowRow → String → Type 0
Owned rows id = exists (has_id id) rows ≡ true

pub record IsValid (db : Database) : Type 0 where
  pub rows_apart : Pairs Apart db.workflow_status
  pub steps_apart : Pairs StepApart db.operation_outputs
  pub steps_owned : All (λ o. Owned db.workflow_status o.workflow_uuid) db.operation_outputs
  pub notifications_owned : All (λ n. Owned db.workflow_status n.destination_uuid) db.notifications
  pub events_owned : All (λ e. Owned db.workflow_status e.workflow_uuid) db.workflow_events
  pub history_owned : All (λ e. Owned db.workflow_status e.workflow_uuid) db.workflow_events_history
  pub streams_owned : All (λ s. Owned db.workflow_status s.workflow_uuid) db.streams

-- A change of a row that keeps its id, and keeps its deduplication slot or gives it up.
pub record KeepsKeys (f : WorkflowRow → WorkflowRow) : Type 0 where
  pub id : (r : WorkflowRow) → (f r).workflow_uuid ≡ r.workflow_uuid
  pub slot :
      (r : WorkflowRow)
      → ((f r).deduplication_id ≡ none)
        ⊎ (((f r).queue_name ≡ r.queue_name) × ((f r).deduplication_id ≡ r.deduplication_id))

same_slot-frees :
    (q d q' d' p e p' e' : Option String)
    → (d' ≡ none) ⊎ ((q' ≡ q) × (d' ≡ d))
    → (e' ≡ none) ⊎ ((p' ≡ p) × (e' ≡ e))
    → (sql_eq q p && sql_eq d e) ≡ false
    → (sql_eq q' p' && sql_eq d' e') ≡ false
same_slot-frees q d q' d' p e p' e' h k s = ground arith

pub where-KeepsKeys :
    {f : WorkflowRow → WorkflowRow} (p : WorkflowRow → Bool)
    → KeepsKeys f
    → KeepsKeys (λ r. if p r then f r else r)
where-KeepsKeys p k = record {
  id = λ r. ground (arith, k.id r);
  slot = λ r. elim (Bool-cases (p r)) [ inl e ↦ rw e (k.slot r) | inr e ↦ rw e (inr (refl, refl)) ];
}

module _ (g : WorkflowRow → WorkflowRow) (k : KeepsKeys g) where
  has_id-map : (id : String) (r : WorkflowRow) → has_id id (g r) ≡ has_id id r
  has_id-map id r = rw (k.id r)

  pub Pairs-Apart-map : (rows : List WorkflowRow) → Pairs Apart rows → Pairs Apart (map g rows)
  Pairs-Apart-map rows h =
      Pairs-map Apart g rows
        (λ r s a. (
          rw (k.id r, k.id s) a.0,
          same_slot-frees s.queue_name s.deduplication_id (g s).queue_name (g s).deduplication_id
              r.queue_name r.deduplication_id (g r).queue_name (g r).deduplication_id (k.slot s)
              (k.slot r) a.1,
        ))
        h

  pub Owned-map : (rows : List WorkflowRow) (id : String) → Owned rows id → Owned (map g rows) id
  Owned-map rows id h = rw (exists-map (has_id id) g rows (has_id-map id)) h

pub Owned-insert_row :
    (r : WorkflowRow) (rows : List WorkflowRow) (id : String)
    → Owned rows id
    → Owned (insert_row r rows) id
Owned-insert_row r rows id h = ground (arith, exists-insert_row (has_id id) r rows)

-- Replacing the workflow table by one with the same owners, and no two rows in conflict.
pub rows-IsValid :
    (rows : List WorkflowRow) {db : Database}
    → Pairs Apart rows
    → ((id : String) → Owned db.workflow_status id → Owned rows id)
    → IsValid db
    → IsValid (record db { workflow_status = rows })
rows-IsValid rows {db} apart owned v = record {
  rows_apart = apart;
  steps_apart = v.steps_apart;
  steps_owned = All-imp _ _ db.operation_outputs (λ o. owned o.workflow_uuid) v.steps_owned;
  notifications_owned =
      All-imp _ _ db.notifications (λ o. owned o.destination_uuid) v.notifications_owned;
  events_owned = All-imp _ _ db.workflow_events (λ o. owned o.workflow_uuid) v.events_owned;
  history_owned =
      All-imp _ _ db.workflow_events_history (λ o. owned o.workflow_uuid) v.history_owned;
  streams_owned = All-imp _ _ db.streams (λ o. owned o.workflow_uuid) v.streams_owned;
}

-- An UPDATE that keeps the keys keeps the schema's promises.
pub update_where-IsValid :
    (p : WorkflowRow → Bool) (f : WorkflowRow → WorkflowRow) {db : Database}
    → KeepsKeys f
    → IsValid db
    → IsValid (record db { workflow_status = update_where p f db.workflow_status })
update_where-IsValid p f {db} k v =
    let k' = where-KeepsKeys p k in
    rows-IsValid (update_where p f db.workflow_status)
      (Pairs-Apart-map _ k' db.workflow_status v.rows_apart) (Owned-map _ k' db.workflow_status) v

-- An INSERT of a workflow that no key forbids.
pub insert_row-IsValid :
    (r : WorkflowRow) {db : Database}
    → exists (has_id r.workflow_uuid) db.workflow_status ≡ false
    → exists (same_slot r) db.workflow_status ≡ false
    → IsValid db
    → IsValid (record db { workflow_status = insert_row r db.workflow_status })
insert_row-IsValid r {db} fresh free v =
    rows-IsValid (insert_row r db.workflow_status)
      (Pairs-insert_row Apart r db.workflow_status v.rows_apart (
        All-both db.workflow_status (exists-none _ db.workflow_status fresh)
          (exists-none _ db.workflow_status free)))
      (Owned-insert_row r db.workflow_status) v
  where
    All-both :
        (rows : List WorkflowRow)
        → All (λ s. has_id r.workflow_uuid s ≡ false) rows
        → All (λ s. same_slot r s ≡ false) rows
        → All (λ s. Apart s r) rows
    All-both [] h k = tt
    All-both (s ∷ rows) h k = ((h.0, k.0), All-both rows h.1 k.1)

-- An INSERT of a step that no key forbids.
pub insert_step-IsValid :
    (o : OutputRow) {db : Database}
    → exists (has_key o.workflow_uuid o.function_id) db.operation_outputs ≡ false
    → Owned db.workflow_status o.workflow_uuid
    → IsValid db
    → IsValid (record db { operation_outputs = insert_row o db.operation_outputs })
insert_step-IsValid o {db} fresh owned v = record {
  rows_apart = v.rows_apart;
  steps_apart =
      Pairs-insert_row StepApart o db.operation_outputs v.steps_apart
        (exists-none _ db.operation_outputs fresh);
  steps_owned = All-insert_row _ o db.operation_outputs v.steps_owned owned;
  notifications_owned = v.notifications_owned;
  events_owned = v.events_owned;
  history_owned = v.history_owned;
  streams_owned = v.streams_owned;
}
