-- ===== src/SystemDb/Listing/Exact.antt =====
-- Which workflows a listing reports, and in which order (crates/dbos-core/src/db/sqlite.rs).
use dbos_transact_rust.Prelude.{
  ◌≤◌, String, ◌≡◌, ◌≢◌, refl, sym, ap, ◌∙◌, ◌↔◌, Bool, true, false, not, ◌&&◌, ◌||◌, ◌==◌, ==_iff,
  inl, inr, Option, none, some, List, [], ◌∷◌, map, arith, Bool-cases,
}
use dbos_transact_rust.Status.{WorkflowStatusType, as_str, parse}
use dbos_transact_rust.Status.Laws.{parse-as_str}
use dbos_transact_rust.Sql.{select, exists, order_by}
use dbos_transact_rust.Sql.Laws.{All, All-imp, Pairs, Pairs-select}
use dbos_transact_rust.Sql.Order.{
  OneOf, Among, OneOf-select, OneOf-order_by, Pairs-order_by, sorted-order_by,
}
use dbos_transact_rust.Database.Types.{ListWorkflowsInput}
use dbos_transact_rust.Database.Schema.{WorkflowRow, Database}
use dbos_transact_rust.SystemDb.Invariant.{IsValid, Apart}
use dbos_transact_rust.SystemDb.Queue.{is_some}
use dbos_transact_rust.SystemDb.Listing.{
  add_any, limited, skipped, row_to_status, matches, sorts_before, list_workflows,
}

exists_iff : (v : String) (xs : List String) → (exists (λ y. v == y) xs ≡ true) ↔ OneOf v xs
exists_iff v [] = (λ h. absurd (cc h), λ h. absurd h)
exists_iff v (x ∷ xs) = elim (Bool-cases (v == x)) [
  | inl t ↦ (λ h. inl ((==_iff v x).0 t), λ h. rw t refl)
  | inr f ↦ (
    rw f (λ h. inr ((exists_iff v xs).0 h)),
    λ h. elim h [
      | inl e ↦ absurd (cc (sym f ∙ (==_iff v x).1 e))
      | inr k ↦ rw f ((exists_iff v xs).1 k)
    ],
  )
]

add_any_iff : (xs : List String) (v : Option String) → (add_any xs v ≡ true) ↔ Among xs v
add_any_iff [] v = (λ h. tt, λ h. refl)
add_any_iff (x ∷ xs) none = (λ h. absurd (cc h), λ h. absurd h)
add_any_iff (x ∷ xs) (some v) = exists_iff v (x ∷ xs)

-- Statuses are told apart by their texts.
as_str_one : (s t : WorkflowStatusType) → as_str s ≡ as_str t → s ≡ t
as_str_one s t h = some_inj (sym (parse-as_str s) ∙ ap parse h ∙ parse-as_str t)
  where
    some_inj : {s t : WorkflowStatusType} → some s ≡ some t → s ≡ t
    some_inj e = cc e

OneOf-as_str :
    (s : WorkflowStatusType) (ts : List WorkflowStatusType)
    → OneOf (as_str s) (map as_str ts) ↔ OneOf s ts
OneOf-as_str s ts = (of_text ts, to_text ts)
  where
    of_text : (ts : List WorkflowStatusType) → OneOf (as_str s) (map as_str ts) → OneOf s ts
    of_text [] h = h
    of_text (t ∷ ts) (inl e) = inl (as_str_one s t e)
    of_text (t ∷ ts) (inr h) = inr (of_text ts h)

    to_text : (ts : List WorkflowStatusType) → OneOf s ts → OneOf (as_str s) (map as_str ts)
    to_text [] h = h
    to_text (t ∷ ts) (inl e) = inl (ap as_str e)
    to_text (t ∷ ts) (inr h) = inr (to_text ts h)

Among-as_str :
    (ts : List WorkflowStatusType) (s : WorkflowStatusType)
    → Among (map as_str ts) (some (as_str s)) ↔ Among ts (some s)
Among-as_str [] s = (λ h. h, λ h. h)
Among-as_str (t ∷ ts) s = OneOf-as_str s (t ∷ ts)

-- What a listing asks for.
abbrev pub QueueFits : Bool → Option String → Type 0
QueueFits false q = Unit
QueueFits true none = ⊥
QueueFits true (some q) = Unit

pub record Fits (input : ListWorkflowsInput) (r : WorkflowRow) : Type 0 where
  pub id_fits : Among input.workflow_ids (some r.workflow_uuid)
  pub name_fits : Among input.workflow_name (some r.name)
  pub status_fits : Among input.status (some r.status)
  pub executor_fits : Among input.executor_ids r.executor_id
  pub version_fits : Among input.application_version r.application_version
  pub queue_fits : QueueFits input.queues_only r.queue_name

queue_iff : (b : Bool) (q : Option String) → ((not b || is_some q) ≡ true) ↔ QueueFits b q
queue_iff false q = (λ h. tt, λ h. refl)
queue_iff true none = (λ h. absurd (cc h), λ h. absurd h)
queue_iff true (some q) = (λ h. tt, λ h. refl)

six :
    (a b c d e f : Bool)
    → (a && b && c && d && e && f) ≡ true
    → (a ≡ true) × (b ≡ true) × (c ≡ true) × (d ≡ true) × (e ≡ true) × (f ≡ true)
six a b c d e f h = ground arith

matches_iff :
    (input : ListWorkflowsInput) (r : WorkflowRow) → (matches input r ≡ true) ↔ Fits input r
unfolding matches
matches_iff input r = (
  λ h.
      let (a, b, c, d, e, f) = six _ _ _ _ _ _ h in
      record {
        id_fits = (add_any_iff input.workflow_ids (some r.workflow_uuid)).0 a;
        name_fits = (add_any_iff input.workflow_name (some r.name)).0 b;
        status_fits =
            (Among-as_str input.status r.status).0
              ((add_any_iff (map as_str input.status) (some (as_str r.status))).0 c);
        executor_fits = (add_any_iff input.executor_ids r.executor_id).0 d;
        version_fits = (add_any_iff input.application_version r.application_version).0 e;
        queue_fits = (queue_iff input.queues_only r.queue_name).0 f;
      },
  λ k.
      rw
        (
          (add_any_iff input.workflow_ids (some r.workflow_uuid)).1 k.id_fits,
          (add_any_iff input.workflow_name (some r.name)).1 k.name_fits,
          (add_any_iff (map as_str input.status) (some (as_str r.status))).1
              ((Among-as_str input.status r.status).1 k.status_fits),
          (add_any_iff input.executor_ids r.executor_id).1 k.executor_fits,
          (add_any_iff input.application_version r.application_version).1 k.version_fits,
          (queue_iff input.queues_only r.queue_name).1 k.queue_fits,
        )
        refl,
)

-- The order of two rows of a listing, newest first or oldest first.
abbrev pub InOrder : Bool → WorkflowRow → WorkflowRow → Type 0
InOrder true a b = b.created_at ≤ a.created_at
InOrder false a b = a.created_at ≤ b.created_at

in_order :
    (desc : Bool) (rows : List WorkflowRow)
    → Pairs (InOrder desc) (order_by (sorts_before desc) rows)
in_order true rows =
    sorted-order_by (sorts_before true) (InOrder true) rows (λ a b c h k. omega arith)
      (λ a b h. ground arith) (λ a b h. ground arith)
in_order false rows =
    sorted-order_by (sorts_before false) (InOrder false) rows (λ a b c h k. omega arith)
      (λ a b h. ground arith) (λ a b h. ground arith)

abbrev pub Distinct : WorkflowRow → WorkflowRow → Type 0
Distinct a b = a.workflow_uuid ≢ b.workflow_uuid

All-Distinct :
    (r : WorkflowRow) (rows : List WorkflowRow) → All (Apart r) rows → All (Distinct r) rows
All-Distinct r rows =
    All-imp (Apart r) (Distinct r) rows
      (λ s h e. absurd (cc (sym h.0 ∙ (==_iff r.workflow_uuid s.workflow_uuid).1 e)))

Pairs-Distinct : (rows : List WorkflowRow) → Pairs Apart rows → Pairs Distinct rows
Pairs-Distinct [] h = tt
Pairs-Distinct (r ∷ rows) h = (All-Distinct r rows h.0, Pairs-Distinct rows h.1)

-- In a valid database, a listing reports the page that its limit and offset cut out of rows that
-- are exactly those that it asks for, each once, in the order of their creation or the reverse: a
-- row is among them if and only if it is in the table, its id, name, status, executor and version
-- are each among the values that the listing gives for it, if it gives any, and it has a queue if
-- only those are asked for.
pub list_workflows_lists :
    (input : ListWorkflowsInput) (db : Database)
    → IsValid db
    → (rows : List WorkflowRow) × (list_workflows input db
        ≡ map
            (row_to_status input.load_input input.load_output)
            (limited input.limit (skipped input.offset rows)))
      × ((r : WorkflowRow) → OneOf r rows ↔ (OneOf r db.workflow_status × Fits input r))
      × Pairs Distinct rows
      × Pairs (InOrder input.sort_desc) rows
unfolding list_workflows
list_workflows_lists input db v =
    let found = select (matches input) db.workflow_status in
    (
      order_by (sorts_before input.sort_desc) found,
      refl,
      λ r. (
        λ h.
            let (k, m) =
              (OneOf-select (matches input) r db.workflow_status).0
                ((OneOf-order_by (sorts_before input.sort_desc) r found).0 h) in
            (k, (matches_iff input r).0 m),
        λ h. (OneOf-order_by (sorts_before input.sort_desc) r found).1 (
            (OneOf-select (matches input) r db.workflow_status).1
              (h.0, (matches_iff input r).1 h.1)),
      ),
      Pairs-order_by (sorts_before input.sort_desc) Distinct found (λ a b h e. h (sym e))
          (Pairs-Distinct found
            (Pairs-select Apart (matches input) db.workflow_status v.rows_apart)),
      in_order input.sort_desc found,
    )
