-- ===== src/SystemDb/Queue/Valid.antt =====
-- The queue operations and the invariant of the tables
-- (crates/dbos-core/src/db/sqlite.rs).
use dbos_transact_rust.Prelude.{
  ℕ, suc, ◌+◌, String, ◌≡◌, refl, inr, true, false, List, [], ◌∷◌, ◌++◌, Option-cases, Bool-cases,
  inl, some, pos, pos_part, leb_ℤ,
}
use dbos_transact_rust.Sql.{update_where, first, length}
use dbos_transact_rust.Database.Types.{DequeueInput, DequeuedWorkflow}
use dbos_transact_rust.Database.Schema.{WorkflowRow, Database}
use dbos_transact_rust.SystemDb.Invariant.{IsValid, KeepsKeys, update_where-IsValid}
use dbos_transact_rust.SystemDb.Queue.{
  unassigned, clear_queue_assignment, promoted, transition_delayed_workflows, claimed, claim_all,
  claim_up_to, candidates, dequeue_workflows, is_used_up, is_claimable, dequeued, recent_starts,
  room,
}

pub unassigned-KeepsKeys : KeepsKeys unassigned
unfolding unassigned
unassigned-KeepsKeys = record { id = λ r. refl; slot = λ r. inr (refl, refl) }

pub clear_queue_assignment-IsValid :
    (id : String) {db : Database} → IsValid db → IsValid (clear_queue_assignment id db).1
unfolding clear_queue_assignment
clear_queue_assignment-IsValid id v = update_where-IsValid _ _ unassigned-KeepsKeys v

pub promoted-KeepsKeys : KeepsKeys promoted
unfolding promoted
promoted-KeepsKeys = record { id = λ r. refl; slot = λ r. inr (refl, refl) }

pub transition_delayed_workflows-IsValid :
    (now : ℕ) {db : Database} → IsValid db → IsValid (transition_delayed_workflows now db)
unfolding transition_delayed_workflows
transition_delayed_workflows-IsValid now v = update_where-IsValid _ _ promoted-KeepsKeys v

pub claimed-KeepsKeys : (input : DequeueInput) (now : ℕ) → KeepsKeys (claimed input now)
unfolding claimed
claimed-KeepsKeys input now = record { id = λ r. refl; slot = λ r. inr (refl, refl) }

-- A claim that stops, passes an id over, or takes its row.
pub claim_all_cases {ℓ} :
    (P : List DequeuedWorkflow × List WorkflowRow → Type ℓ) (input : DequeueInput) (recent : ℕ)
    (clock : ℕ → ℕ) (id : String) (ids : List String) (out : List DequeuedWorkflow)
    (rows : List WorkflowRow)
    → (is_used_up input.rate_limit (length out + recent) ≡ true → P (out, rows))
    → (is_used_up input.rate_limit (length out + recent) ≡ false
        → P (claim_all input recent (λ i. clock (suc i)) ids out rows))
    → ((r : WorkflowRow)
        → is_used_up input.rate_limit (length out + recent) ≡ false
        → first (is_claimable id) rows ≡ some r
        → P (
            claim_all input recent
              (λ i. clock (suc i))
              ids
              (out ++ dequeued id r ∷ [])
              (update_where (is_claimable id) (claimed input (clock 0)) rows)))
    → P (claim_all input recent clock (id ∷ ids) out rows)
unfolding claim_all
claim_all_cases P input recent clock id ids out rows stopped skipped taken =
    elim (Bool-cases (is_used_up input.rate_limit (length out + recent))) [
      | inl t ↦ rw t (stopped t)
      | inr f ↦ elim (Option-cases (first (is_claimable id) rows)) [
        | inl e ↦ rw f (rw e (skipped f))
        | inr (r, e) ↦ rw f (rw e (taken r f e))
      ]
    ]

pub claim_all-IsValid :
    (input : DequeueInput) (recent : ℕ) (clock : ℕ → ℕ) (ids : List String)
    (out : List DequeuedWorkflow) (db : Database)
    → IsValid db
    → IsValid (record db {
      workflow_status = (claim_all input recent clock ids out db.workflow_status).1;
    })
unfolding claim_all
claim_all-IsValid input recent clock [] out db v = v
claim_all-IsValid input recent clock (id ∷ ids) out db v =
    let skip = claim_all-IsValid input recent (λ i. clock (suc i)) ids in
    claim_all_cases (λ p. IsValid (record db { workflow_status = p.1 })) input recent clock id ids
      out db.workflow_status (λ t. v) (λ f. skip out db v)
      (λ r f e. skip _ _ (update_where-IsValid _ _ (claimed-KeepsKeys input (clock 0)) v))

-- A dequeue that claims nothing, or claims up to the room that the limits leave.
pub dequeue_cases {ℓ} :
    (P : List DequeuedWorkflow × Database → Type ℓ) (input : DequeueInput) (clock : ℕ → ℕ)
    (db : Database)
    → P ([], db)
    → (is_used_up input.rate_limit (recent_starts input (clock 0) db) ≡ false
        → leb_ℤ (room input db) (pos 0) ≡ false
        → P (
            claim_up_to input
              (recent_starts input (clock 0) db)
              (λ i. clock (suc i))
              (pos_part (room input db))
              db))
    → P (dequeue_workflows input clock db)
unfolding dequeue_workflows
dequeue_cases P input clock db nothing claims =
    elim (Bool-cases (is_used_up input.rate_limit (recent_starts input (clock 0) db))) [
      | inl t ↦ rw t nothing
      | inr f ↦ elim (Bool-cases (leb_ℤ (room input db) (pos 0))) [
        | inl t ↦ rw f (rw t nothing)
        | inr g ↦ rw f (rw g (claims f g))
      ]
    ]

pub dequeue_workflows-IsValid :
    (input : DequeueInput) (clock : ℕ → ℕ) {db : Database}
    → IsValid db
    → IsValid (dequeue_workflows input clock db).1
dequeue_workflows-IsValid input clock {db} v =
    dequeue_cases (λ p. IsValid p.1) input clock db v
      (λ f g.
        unfold claim_up_to in
        claim_all-IsValid input _ _ (candidates input (pos_part (room input db)) db) [] db v)
