-- ===== src/SystemDb/Listing/Laws.antt =====
-- What a listing promises (crates/dbos-core/src/db/sqlite.rs).
use dbos_transact_rust.Prelude.{
  String, ◌≡◌, refl, ap, ◌∙◌, Bool, true, false, ==_iff, inl, inr, Option, none, some, List, [],
  ◌∷◌, map, arith, Bool-cases,
}
use dbos_transact_rust.Sql.{select, exists, first, insert_sorted, order_by}
use dbos_transact_rust.Sql.Laws.{All, Pairs}
use dbos_transact_rust.Database.Types.{WorkflowStatus, ListWorkflowsInput}
use dbos_transact_rust.Database.Schema.{WorkflowRow, Database}
use dbos_transact_rust.SystemDb.Insert.{has_id}
use dbos_transact_rust.SystemDb.Invariant.{IsValid, Apart}
use dbos_transact_rust.SystemDb.Queue.{is_some}
use dbos_transact_rust.SystemDb.Comms.{head?}
use dbos_transact_rust.SystemDb.Listing.{
  row_to_status, matches, sorts_before, list_workflows, default_list, get_workflow_status,
}

-- Rows of one id are one row at most.
none_other :
    (id : String) (r : WorkflowRow) (rows : List WorkflowRow)
    → has_id id r ≡ true
    → All (Apart r) rows
    → select (has_id id) rows ≡ []
none_other id r [] h a = refl
none_other id r (s ∷ rows) h a = ground (
  arith,
  none_other id r rows h a.1,
  ==_iff r.workflow_uuid id,
  ==_iff s.workflow_uuid id,
  ==_iff r.workflow_uuid s.workflow_uuid,
)

abbrev found : Option WorkflowRow → List WorkflowRow
found none = []
found (some r) = r ∷ []

select-first :
    (id : String) (rows : List WorkflowRow)
    → Pairs Apart rows
    → select (has_id id) rows ≡ found (first (has_id id) rows)
select-first id [] a = refl
select-first id (r ∷ rows) a = elim (Bool-cases (has_id id r)) [
  | inl t ↦ rw t (ap (λ s. r ∷ s) (none_other id r rows t a.0))
  | inr f ↦ rw f (select-first id rows a.1)
]

select-same {ℓ} :
    {A : Type ℓ} (p q : A → Bool) (rs : List A) → ((r : A) → p r ≡ q r) → select p rs ≡ select q rs
select-same p q [] h = refl
select-same p q (r ∷ rs) h = ground (arith, h r, select-same p q rs h)

abbrev pub read_status : Option WorkflowRow → Option WorkflowStatus
read_status none = none
read_status (some r) = some (row_to_status true true r)

abbrev by_id : String → ListWorkflowsInput
by_id id = record default_list { workflow_ids = id ∷ []; load_input = true; load_output = true }

matches_id : (id : String) (r : WorkflowRow) → matches (by_id id) r ≡ has_id id r
unfolding matches
matches_id id r = ground arith

-- The answer that the rows which match make.
abbrev answer : List WorkflowRow → Option WorkflowStatus
answer rows = head? (map (row_to_status true true) (order_by (sorts_before false) rows))

answer-found : (o : Option WorkflowRow) → answer (found o) ≡ read_status o
answer-found none = refl
answer-found (some r) = refl

-- In a valid database, the status of a workflow is what its row reads as, with its input and
-- output; a workflow that is not there has none.
pub get_workflow_status_lem :
    (id : String) (db : Database)
    → IsValid db
    → get_workflow_status id db ≡ read_status (first (has_id id) db.workflow_status)
unfolding get_workflow_status list_workflows
get_workflow_status_lem id db v =
    ap answer (
      select-same (matches (by_id id)) (has_id id) db.workflow_status (matches_id id)
      ∙ select-first id db.workflow_status v.rows_apart)
    ∙ answer-found (first (has_id id) db.workflow_status)

module _ {ℓ κ} {A : Type ℓ} {B : Type κ} (f : A → B) (le : A → A → Bool) where
  head-insert_sorted :
      (r : A) (rs : List A) → is_some (head? (map f (insert_sorted le r rs))) ≡ true
  head-insert_sorted r [] = refl
  head-insert_sorted r (s ∷ rs) = elim (Bool-cases (le r s)) [
    | inl t ↦ rw t refl
    | inr n ↦ rw n refl
  ]

  head-order_by :
      (p : A → Bool) (rs : List A)
      → is_some (head? (map f (order_by le (select p rs)))) ≡ exists p rs
  head-order_by p [] = refl
  head-order_by p (r ∷ rs) = elim (Bool-cases (p r)) [
    | inl t ↦ rw t (head-insert_sorted r (order_by le (select p rs)))
    | inr n ↦ rw n (head-order_by p rs)
  ]

-- In any database, a workflow has a status exactly when it has a row.
pub is_some-get_workflow_status :
    (id : String) (db : Database)
    → is_some (get_workflow_status id db) ≡ exists (has_id id) db.workflow_status
unfolding get_workflow_status list_workflows
is_some-get_workflow_status id db =
    ap (λ rows. is_some (answer rows))
      (select-same (matches (by_id id)) (has_id id) db.workflow_status (matches_id id))
    ∙ head-order_by (row_to_status true true) (sorts_before false) (has_id id) db.workflow_status
