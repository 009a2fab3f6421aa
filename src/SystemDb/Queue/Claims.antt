-- ===== src/SystemDb/Queue/Claims.antt =====
-- The workflows that a dequeue hands out (crates/dbos-core/src/db/sqlite.rs).
use dbos_transact_rust.Prelude.{
  ℕ, suc, pos, pos_part, String, ◌≡◌, ◌≢◌, refl, sym, subst, inl, inr, true, ==_iff, none, some,
  List, [], ◌∷◌, ◌++◌, arith, if◌then◌else◌, Bool-cases,
}
use dbos_transact_rust.Status.{pending}
use dbos_transact_rust.Sql.{update_where, first}
use dbos_transact_rust.Sql.Laws.{All, Pairs, All-imp, All-insert_row, first-map}
use dbos_transact_rust.Database.Types.{DequeueInput, DequeuedWorkflow}
use dbos_transact_rust.Database.Schema.{WorkflowRow, Database}
use dbos_transact_rust.SystemDb.Insert.{has_id}
use dbos_transact_rust.SystemDb.Invariant.{IsValid, Apart, Pairs-Apart-map, where-KeepsKeys}
use dbos_transact_rust.SystemDb.Queue.{
  is_claimable, claimed, dequeued, claim_all, candidates, claim_up_to, room, dequeue_workflows,
}
use dbos_transact_rust.SystemDb.Queue.Valid.{
  claimed-KeepsKeys, claim_all_cases, dequeue_cases, dequeue_workflows-IsValid,
}

-- The workflow is PENDING at this executor.
abbrev pub IsRunning : String → String → List WorkflowRow → Type 0
IsRunning executor id rows =
    (r : WorkflowRow) × (first (has_id id) rows ≡ some r)
    × (r.status ≡ pending)
    × (r.executor_id ≡ some executor)

pub All-snoc {ℓ κ} :
    {A : Type ℓ} (P : A → Type κ) (xs : List A) (a : A) → All P xs → P a → All P (xs ++ a ∷ [])
All-snoc P xs a h p = All-insert_row P a xs h p

module _ (input : DequeueInput) (now : ℕ) where
  has_id-claim :
      (id j : String) (s : WorkflowRow)
      → has_id id (if is_claimable j s then claimed input now s else s) ≡ has_id id s
  unfolding claimed
  has_id-claim id j s = ground arith

  -- Claims do not touch a running workflow.
  claim-IsRunning :
      (executor id j : String) (rows : List WorkflowRow)
      → IsRunning executor id rows
      → IsRunning executor id (update_where (is_claimable j) (claimed input now) rows)
  claim-IsRunning executor id j rows (r, e, p, x) = (
    r,
    subst
        (λ (s : WorkflowRow).
          first (has_id id) (update_where (is_claimable j) (claimed input now) rows) ≡ some s)
        same (first-map (has_id id) _ rows r (has_id-claim id j) e),
    p,
    x,
  )
    where
      same : (if is_claimable j r then claimed input now r else r) ≡ r
      same = ground arith

  only_row :
      (id : String) (r : WorkflowRow) (rows : List WorkflowRow)
      → has_id id r ≡ true
      → All (Apart r) rows
      → first (is_claimable id) rows ≡ none
  only_row id r [] h a = refl
  only_row id r (s ∷ rows) h a = ground (
    arith,
    only_row id r rows h a.1,
    ==_iff r.workflow_uuid id,
    ==_iff s.workflow_uuid id,
    ==_iff r.workflow_uuid s.workflow_uuid,
  )

  claimable_row :
      (id : String) (r : WorkflowRow) (rows : List WorkflowRow)
      → Pairs Apart rows
      → first (is_claimable id) rows ≡ some r
      → (first (has_id id) rows ≡ some r) × (is_claimable id r ≡ true)
  claimable_row id r [] a e = absurd (ground arith)
  claimable_row id r (s ∷ rows) a e = elim (Bool-cases (has_id id s)) [
    | inl t ↦ ground (arith, only_row id s rows t a.0)
    | inr f ↦ ground (arith, claimable_row id r rows a.1)
  ]

  -- A claimed workflow runs at the claiming executor.
  claimed-IsRunning :
      (id : String) (r : WorkflowRow) (rows : List WorkflowRow)
      → Pairs Apart rows
      → first (is_claimable id) rows ≡ some r
      → IsRunning input.executor_id id (update_where (is_claimable id) (claimed input now) rows)
  claimed-IsRunning id r rows a e =
      let (found, t) = claimable_row id r rows a e in
      (
        claimed input now r,
        subst
            (λ (s : WorkflowRow).
              first (has_id id) (update_where (is_claimable id) (claimed input now) rows) ≡ some s)
            (same t) (first-map (has_id id) _ rows r (has_id-claim id id) found),
        unfold claimed in refl,
        unfold claimed in refl,
      )
    where
      same :
          is_claimable id r ≡ true
          → (if is_claimable id r then claimed input now r else r) ≡ claimed input now r
      same t = rw t

claim-Apart :
    (input : DequeueInput) (now : ℕ) (id : String) (rows : List WorkflowRow)
    → Pairs Apart rows
    → Pairs Apart (update_where (is_claimable id) (claimed input now) rows)
claim-Apart input now id rows a =
    Pairs-Apart-map _ (where-KeepsKeys (is_claimable id) (claimed-KeepsKeys input now)) rows a

claim_all-IsRunning :
    (input : DequeueInput) (recent : ℕ) (clock : ℕ → ℕ) (ids : List String)
    (out : List DequeuedWorkflow) (rows : List WorkflowRow)
    → Pairs Apart rows
    → All (λ d. IsRunning input.executor_id d.id rows) out
    → let p = claim_all input recent clock ids out rows in
      All (λ d. IsRunning input.executor_id d.id p.1) p.0
unfolding claim_all
claim_all-IsRunning input recent clock [] out rows a h = h
claim_all-IsRunning input recent clock (id ∷ ids) out rows a h =
    let later = claim_all-IsRunning input recent (λ i. clock (suc i)) ids in
    claim_all_cases (λ p. All (λ d. IsRunning input.executor_id d.id p.1) p.0) input recent clock id
      ids out rows (λ t. h) (λ f. later out rows a h)
      (λ r f e. later _ _ (claim-Apart input (clock 0) id rows a) (
        All-snoc _ out (dequeued id r)
          (All-imp _ _ out (λ d. claim-IsRunning input (clock 0) input.executor_id d.id id rows) h)
          (unfold dequeued in claimed-IsRunning input (clock 0) id r rows a e)))

-- Every workflow that a dequeue hands out is PENDING afterwards, at the executor that asked.
pub dequeue-IsRunning :
    (input : DequeueInput) (clock : ℕ → ℕ) (db : Database)
    → IsValid db
    → let p = dequeue_workflows input clock db in
      All (λ d. IsRunning input.executor_id d.id p.1.workflow_status) p.0
dequeue-IsRunning input clock db v =
    dequeue_cases (λ p. All (λ d. IsRunning input.executor_id d.id p.1.workflow_status) p.0) input
      clock db tt
      (λ f g.
        unfold claim_up_to in
        claim_all-IsRunning input _ _ (candidates input (pos_part (room input db)) db) []
          db.workflow_status v.rows_apart tt)

-- A workflow that runs already is not claimed.
running_unclaimed :
    (executor id : String) (r : WorkflowRow) (rows : List WorkflowRow)
    → Pairs Apart rows
    → IsRunning executor id rows
    → first (is_claimable id) rows ≡ some r
    → ⊥
running_unclaimed executor id r rows a (s, e, p, x) c =
    let input : DequeueInput = no_input in
    let (found, t) = claimable_row no_input 0 id r rows a c in ground arith
  where
    no_input : DequeueInput
    no_input = record {
      queue_name = "";
      global_concurrency = none;
      worker_concurrency = none;
      rate_limit = none;
      max_tasks = pos 0;
      local_running_count = 0;
      application_version = "";
      executor_id = "";
    }

claim_all-avoids :
    (input : DequeueInput) (executor j : String) (recent : ℕ) (clock : ℕ → ℕ) (ids : List String)
    (out : List DequeuedWorkflow) (rows : List WorkflowRow)
    → Pairs Apart rows
    → IsRunning executor j rows
    → All (λ d. d.id ≢ j) out
    → All (λ d. d.id ≢ j) (claim_all input recent clock ids out rows).0
unfolding claim_all
claim_all-avoids input executor j recent clock [] out rows a k h = h
claim_all-avoids input executor j recent clock (id ∷ ids) out rows a k h =
    let later = claim_all-avoids input executor j recent (λ i. clock (suc i)) ids in
    claim_all_cases (λ p. All (λ d. d.id ≢ j) p.0) input recent clock id ids out rows (λ t. h)
      (λ f. later out rows a k h)
      (λ r f e.
        later _ _ (claim-Apart input (clock 0) id rows a)
          (claim-IsRunning input (clock 0) executor j id rows k)
          (All-snoc _ out (dequeued id r) h (
            unfold dequeued in
            (λ (same : id ≡ j).
              running_unclaimed executor id r rows a
                (subst (λ (i : String). IsRunning executor i rows) (sym same) k) e))))

dequeue_avoids :
    (input : DequeueInput) (clock : ℕ → ℕ) (executor j : String) (db : Database)
    → IsValid db
    → IsRunning executor j db.workflow_status
    → All (λ d. d.id ≢ j) (dequeue_workflows input clock db).0
dequeue_avoids input clock executor j db v k =
    dequeue_cases (λ p. All (λ d. d.id ≢ j) p.0) input clock db tt
      (λ f g.
        unfold claim_up_to in
        claim_all-avoids input executor j _ _ (candidates input (pos_part (room input db)) db) []
          db.workflow_status v.rows_apart k tt)

-- Two dequeues in a row, by any two executors on any two queues, hand out no workflow twice.
pub dequeue_disjoint :
    (a b : DequeueInput) (clock later : ℕ → ℕ) (db : Database)
    → IsValid db
    → let p = dequeue_workflows a clock db in
      All (λ d. All (λ e. e.id ≢ d.id) (dequeue_workflows b later p.1).0) p.0
dequeue_disjoint a b clock later db v =
    let p = dequeue_workflows a clock db in
    All-imp _ _ p.0
      (λ d. dequeue_avoids b later a.executor_id d.id p.1 (dequeue_workflows-IsValid a clock v))
      (dequeue-IsRunning a clock db v)
