-- ===== src/SystemDb/Queue/Bounds.antt =====
-- The limits of a dequeue (crates/dbos-core/src/db/sqlite.rs).
pub mod Unread
use dbos_transact_rust.Prelude.{
  ℕ, suc, ◌+◌, ◌≤◌, ◌<◌, ℤ, pos, pos_part, leb_ℤ, String, ◌≡◌, refl, inl, inr, true, false, ==_iff,
  some, List, [], ◌∷◌, ◌++◌, map, arith, ap, Bool-cases, Option-cases,
}
use dbos_transact_rust.Sql.{update_where, select, count_where, first, order_by, take, length}
use dbos_transact_rust.Sql.Laws.{All, Pairs, length-take_le}
use dbos_transact_rust.Database.Types.{DequeueInput, DequeuedWorkflow}
use dbos_transact_rust.Database.Schema.{WorkflowRow, Database}
use dbos_transact_rust.SystemDb.Insert.{has_id}
use dbos_transact_rust.SystemDb.Invariant.{IsValid, Apart, Pairs-Apart-map, where-KeepsKeys}
use dbos_transact_rust.SystemDb.Queue.{
  is_running, is_claimable, is_candidate, is_used_up, is_before, claimed, dequeued, claim_all,
  candidates, claim_up_to, recent_starts, room, worker_room, dequeue_workflows,
}
use dbos_transact_rust.SystemDb.Queue.Valid.{claimed-KeepsKeys, claim_all_cases, dequeue_cases}

length-snoc {ℓ} : {A : Type ℓ} (xs : List A) (a : A) → length (xs ++ a ∷ []) ≡ suc (length xs)
length-snoc [] a = refl
length-snoc (x ∷ xs) a = omega (arith, length-snoc xs a)

length-map {ℓ κ} :
    {A : Type ℓ} {B : Type κ} (f : A → B) (xs : List A) → length (map f xs) ≡ length xs
length-map f [] = refl
length-map f (x ∷ xs) = omega (arith, length-map f xs)

length-claim_all :
    (input : DequeueInput) (recent : ℕ) (clock : ℕ → ℕ) (ids : List String)
    (out : List DequeuedWorkflow) (rows : List WorkflowRow)
    → length (claim_all input recent clock ids out rows).0 ≤ length out + length ids
unfolding claim_all
length-claim_all input recent clock [] out rows = omega arith
length-claim_all input recent clock (id ∷ ids) out rows =
    let later = length-claim_all input recent (λ i. clock (suc i)) ids in
    claim_all_cases (λ p. length p.0 ≤ length out + length (id ∷ ids)) input recent clock id ids out
      rows (λ t. omega arith) (λ f. omega (arith, later out rows))
      (λ r f e. omega (
        arith,
        later (out ++ dequeued id r ∷ [])
            (update_where (is_claimable id) (claimed input (clock 0)) rows),
        length-snoc out (dequeued id r),
      ))

length-candidates :
    (input : DequeueInput) (n : ℕ) (db : Database) → length (candidates input n db) ≤ n
unfolding candidates
length-candidates input n db =
    let sorted = order_by is_before (select (is_candidate input) db.workflow_status) in
    omega (
      arith,
      length-map {0, 0} (λ (r : WorkflowRow). r.workflow_uuid) (take n sorted),
      length-take_le {0} n sorted,
    )

-- A dequeue claims no more workflows than the room that the limits leave.
pub length-dequeue :
    (input : DequeueInput) (clock : ℕ → ℕ) (db : Database)
    → length (dequeue_workflows input clock db).0 ≤ pos_part (room input db)
length-dequeue input clock db =
    dequeue_cases (λ p. length p.0 ≤ pos_part (room input db)) input clock db (omega arith)
      (λ f g.
        unfold claim_up_to in
        omega (
          arith,
          length-claim_all input (recent_starts input (clock 0) db) (λ i. clock (suc i))
              (candidates input (pos_part (room input db)) db) [] db.workflow_status,
          length-candidates input (pos_part (room input db)) db,
        ))

-- The starts in the window and the new ones together stay within the rate limit.
claim_all-rate :
    (input : DequeueInput) (limit period recent : ℕ) (clock : ℕ → ℕ) (ids : List String)
    (out : List DequeuedWorkflow) (rows : List WorkflowRow)
    → input.rate_limit ≡ some (pos limit, period)
    → length out + recent ≤ limit
    → length (claim_all input recent clock ids out rows).0 + recent ≤ limit
unfolding claim_all
claim_all-rate input limit period recent clock [] out rows e h = h
claim_all-rate input limit period recent clock (id ∷ ids) out rows e h =
    let later = claim_all-rate input limit period recent (λ i. clock (suc i)) ids in
    claim_all_cases (λ p. length p.0 + recent ≤ limit) input recent clock id ids out rows (λ t. h)
      (λ f. later out rows e h)
      (λ r f x.
        later _ _ e (omega (arith, length-snoc out (dequeued id r), below (length out + recent) f)))
  where
    below : (n : ℕ) → is_used_up input.rate_limit n ≡ false → n < limit
    below n f = ground arith

-- With a rate limit that the starts in the window keep to, those and the workflows that a dequeue
-- claims together keep to it.
pub dequeue_rate :
    (input : DequeueInput) (clock : ℕ → ℕ) (db : Database) (limit period : ℕ)
    → input.rate_limit ≡ some (pos limit, period)
    → recent_starts input (clock 0) db ≤ limit
    → length (dequeue_workflows input clock db).0 + recent_starts input (clock 0) db ≤ limit
dequeue_rate input clock db limit period e h =
    dequeue_cases (λ p. length p.0 + recent_starts input (clock 0) db ≤ limit) input clock db
      (omega arith)
      (λ f g.
        unfold claim_up_to in
        claim_all-rate input limit period (recent_starts input (clock 0) db) _
          (candidates input (pos_part (room input db)) db) [] db.workflow_status e (omega arith))

module _ (input : DequeueInput) (queue id : String) (now : ℕ) where
  -- Rows of other ids are claimed by no claim of this one.
  claim_others :
      (r : WorkflowRow) (rows : List WorkflowRow)
      → has_id id r ≡ true
      → All (Apart r) rows
      → count_where (is_running queue) (update_where (is_claimable id) (claimed input now) rows)
        ≡ count_where (is_running queue) rows
  unfolding claimed
  claim_others r [] h a = refl
  claim_others r (s ∷ rows) h a = ground (
    arith,
    claim_others r rows h a.1,
    ==_iff r.workflow_uuid id,
    ==_iff s.workflow_uuid id,
    ==_iff r.workflow_uuid s.workflow_uuid,
  )

  -- A claim adds at most one running workflow.
  claim_count :
      (rows : List WorkflowRow)
      → Pairs Apart rows
      → count_where (is_running queue) (update_where (is_claimable id) (claimed input now) rows)
        ≤ suc (count_where (is_running queue) rows)
  unfolding claimed
  claim_count [] a = omega arith
  claim_count (r ∷ rows) a = elim (Bool-cases (has_id id r)) [
    | inl t ↦ ground (arith, claim_others r rows t a.0)
    | inr f ↦ ground (arith, claim_count rows a.1)
  ]

claim_all-count :
    (input : DequeueInput) (queue : String) (recent : ℕ) (clock : ℕ → ℕ) (ids : List String)
    (out : List DequeuedWorkflow) (rows : List WorkflowRow)
    → Pairs Apart rows
    → let p = claim_all input recent clock ids out rows in
      count_where (is_running queue) p.1 + length out
      ≤ count_where (is_running queue) rows + length p.0
unfolding claim_all
claim_all-count input queue recent clock [] out rows a = omega arith
claim_all-count input queue recent clock (id ∷ ids) out rows a =
    let later = claim_all-count input queue recent (λ i. clock (suc i)) ids in
    claim_all_cases
      (λ p.
        count_where (is_running queue) p.1 + length out
        ≤ count_where (is_running queue) rows + length p.0)
      input recent clock id ids out rows (λ t. omega arith) (λ f. later out rows a)
      (λ r f e. omega (
        arith,
        later (out ++ dequeued id r ∷ [])
            (update_where (is_claimable id) (claimed input (clock 0)) rows)
            (Pairs-Apart-map _
              (where-KeepsKeys (is_claimable id) (claimed-KeepsKeys input (clock 0))) rows a),
        length-snoc out (dequeued id r),
        claim_count input queue id (clock 0) rows a,
      ))

room-global :
    (input : DequeueInput) (db : Database) (limit : ℕ)
    → input.global_concurrency ≡ some (pos limit)
    → count_where (is_running input.queue_name) db.workflow_status ≤ limit
    → count_where (is_running input.queue_name) db.workflow_status + pos_part (room input db)
      ≤ limit
unfolding room
room-global input db limit e h = ground arith

-- A queue with a global concurrency limit that runs no more workflows than the limit runs no more
-- after a dequeue, whichever executor makes it.
pub dequeue_global :
    (input : DequeueInput) (clock : ℕ → ℕ) (db : Database) (limit : ℕ)
    → IsValid db
    → input.global_concurrency ≡ some (pos limit)
    → count_where (is_running input.queue_name) db.workflow_status ≤ limit
    → count_where (is_running input.queue_name) (dequeue_workflows input clock db).1.workflow_status
      ≤ limit
dequeue_global input clock db limit v e h =
    dequeue_cases (λ p. count_where (is_running input.queue_name) p.1.workflow_status ≤ limit) input
      clock db h
      (λ f g.
        unfold claim_up_to in
        let recent = recent_starts input (clock 0) db in
        let ids = candidates input (pos_part (room input db)) db in
        omega (
          arith,
          claim_all-count input input.queue_name recent (λ i. clock (suc i)) ids []
              db.workflow_status v.rows_apart,
          length-claim_all input recent (λ i. clock (suc i)) ids [] db.workflow_status,
          length-candidates input (pos_part (room input db)) db,
          room-global input db limit e h,
        ))

room-worker :
    (input : DequeueInput) (db : Database) (limit : ℕ)
    → input.worker_concurrency ≡ some (pos limit)
    → input.local_running_count ≤ limit
    → pos_part (room input db) + input.local_running_count ≤ limit
unfolding room
room-worker input db limit e h = ground arith

-- With a worker limit that the local runs keep to, the workflows that a dequeue claims and the
-- local runs together keep to it.
pub dequeue_worker :
    (input : DequeueInput) (clock : ℕ → ℕ) (db : Database) (limit : ℕ)
    → input.worker_concurrency ≡ some (pos limit)
    → input.local_running_count ≤ limit
    → length (dequeue_workflows input clock db).0 + input.local_running_count ≤ limit
dequeue_worker input clock db limit e h =
    omega (arith, length-dequeue input clock db, room-worker input db limit e h)
