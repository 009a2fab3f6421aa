-- ===== src/SystemDb/Queue/Bounds/Unread.antt =====
-- The maximum of tasks of a dequeue beside a worker limit (crates/dbos-core/src/db/sqlite.rs).
use dbos_transact_rust.Prelude.{
  ℕ, suc, ◌+◌, ℤ, pos, pos_part, leb_ℤ, String, ◌≡◌, refl, inl, inr, some, List, [], ◌∷◌, ◌++◌,
  arith, ap, Bool-cases, Option-cases,
}
use dbos_transact_rust.Sql.{update_where, first, length}
use dbos_transact_rust.Database.Types.{DequeueInput, DequeuedWorkflow}
use dbos_transact_rust.Database.Schema.{WorkflowRow, Database}
use dbos_transact_rust.SystemDb.Queue.{
  is_claimable, is_used_up, claimed, dequeued, claim_all, candidates, claim_up_to, recent_starts,
  room, worker_room, dequeue_workflows,
}

worker_room_unread :
    (input : DequeueInput) (w m : ℤ)
    → input.worker_concurrency ≡ some w
    → worker_room (record input { max_tasks = m }) ≡ worker_room input
unfolding worker_room
worker_room_unread input w m e = ground arith

room_unread :
    (input : DequeueInput) (db : Database) (w m : ℤ)
    → input.worker_concurrency ≡ some w
    → room (record input { max_tasks = m }) db ≡ room input db
unfolding room
room_unread input db w m e = ground (arith, worker_room_unread input w m e)

claim_all_unread :
    (input : DequeueInput) (m : ℤ) (recent : ℕ) (clock : ℕ → ℕ) (ids : List String)
    (out : List DequeuedWorkflow) (rows : List WorkflowRow)
    → claim_all (record input { max_tasks = m }) recent clock ids out rows
      ≡ claim_all input recent clock ids out rows
unfolding claim_all
claim_all_unread input m recent clock [] out rows = refl
claim_all_unread input m recent clock (id ∷ ids) out rows =
    let later = claim_all_unread input m recent (λ i. clock (suc i)) ids in
    elim (Bool-cases (is_used_up input.rate_limit (length out + recent))) [
      | inl t ↦ rw t
      | inr f ↦ elim (Option-cases (first (is_claimable id) rows)) [
        | inl e ↦ rw f (rw e (later out rows))
        | inr (r, e) ↦ rw f (
            rw e (
              later (out ++ dequeued id r ∷ [])
                (update_where (is_claimable id) (claimed input (clock 0)) rows)))
      ]
    ]

claim_up_to_unread :
    (input : DequeueInput) (m : ℤ) (recent : ℕ) (clock : ℕ → ℕ) (n : ℕ) (db : Database)
    → claim_up_to (record input { max_tasks = m }) recent clock n db
      ≡ claim_up_to input recent clock n db
unfolding claim_up_to
claim_up_to_unread input m recent clock n db =
    ap
      (λ (p : List DequeuedWorkflow × List WorkflowRow). (p.0, record db { workflow_status = p.1 }))
      (claim_all_unread input m recent clock (candidates input n db) [] db.workflow_status)

-- A queue with a worker limit dequeues the same, whatever its maximum of tasks per iteration is:
-- `max_tasks` bounds nothing there.
pub dequeue_max_tasks_unread :
    (input : DequeueInput) (clock : ℕ → ℕ) (db : Database) (w m : ℤ)
    → input.worker_concurrency ≡ some w
    → dequeue_workflows (record input { max_tasks = m }) clock db ≡ dequeue_workflows input clock db
unfolding dequeue_workflows
dequeue_max_tasks_unread input clock db w m e =
    elim (Bool-cases (is_used_up input.rate_limit (recent_starts input (clock 0) db))) [
      | inl t ↦ rw t
      | inr f ↦
          rw (f, room_unread input db w m e)
            (elim (Bool-cases (leb_ℤ (room input db) (pos 0))) [
              | inl t ↦ rw t
              | inr g ↦ rw g (
                  claim_up_to_unread input m (recent_starts input (clock 0) db) (λ i. clock (suc i))
                    (pos_part (room input db)) db)
            ])
    ]
