-- ===== src/SystemDb/Transitions/Ops.antt =====
-- The moves that each operation makes (crates/dbos-core/src/db/sqlite.rs).
use dbos_transact_rust.Prelude.{
  ℕ, String, ◌≡◌, sym, subst, suc, not, ◌&&◌, ◌||◌, Bool, true, Option, List, [], ◌∷◌, arith,
}
use dbos_transact_rust.Status.{WorkflowStatusType, pending, enqueued, delayed, cancelled, ◌is◌}
use dbos_transact_rust.Status.Laws.{is_iff}
use dbos_transact_rust.Sql.{update_where}
use dbos_transact_rust.Database.{ok}
use dbos_transact_rust.Database.Types.{
  InsertWorkflowStatusInput, InsertWorkflowResult, ForkInput, DequeueInput, DequeuedWorkflow,
}
use dbos_transact_rust.Database.Schema.{WorkflowRow, Database}
use dbos_transact_rust.SystemDb.Insert.{
  has_id, new_row, merge, add_child, park, complete, insert_workflow_status,
}
use dbos_transact_rust.SystemDb.Insert.Valid.{merge-KeepsKeys, dead_letter-KeepsKeys}
use dbos_transact_rust.SystemDb.Insert.Cases.{
  complete_cases, insert_cases, ChildFollows, add_child-rows,
}
use dbos_transact_rust.SystemDb.Outcome.{has_ended, with_outcome, update_workflow_outcome}
use dbos_transact_rust.SystemDb.Outcome.Valid.{with_outcome-KeepsKeys}
use dbos_transact_rust.SystemDb.Queue.{
  clear_queue_assignment, transition_delayed_workflows, claimed, claim_all, claim_up_to,
  dequeue_workflows, is_claimable, is_some,
}
use dbos_transact_rust.SystemDb.Queue.Valid.{
  unassigned-KeepsKeys, promoted-KeepsKeys, claimed-KeepsKeys, claim_all_cases, dequeue_cases,
}
use dbos_transact_rust.SystemDb.Manage.{
  as_cancelled, cancel_workflow, as_resumed, resume_workflow, mark_forked, fork_rows, fork_workflow,
}
use dbos_transact_rust.SystemDb.Manage.Valid.{as_cancelled-KeepsKeys, as_resumed-KeepsKeys}
use dbos_transact_rust.SystemDb.Manage.Fork.{mark_forked-KeepsKeys, fork_cases}
use dbos_transact_rust.SystemDb.Transitions.{
  Cause, submission, claim, promotion, release, cancellation, resumption, ending, nothing, Edge,
  Moves, here, step, dispatch, promote, requeue, dead_letter, cancel, resume, finish,
}
use dbos_transact_rust.SystemDb.Transitions.Rows.{
  Follows, Follows-refl, Follows-trans, Follows-insert_row, Follows-update_where,
}

one : {k : Cause} {s t : WorkflowStatusType} → Edge k s t → Moves k s t
one e = step e here

-- The edge out of the status that a condition names.
from_status :
    {k : Cause} {s t : WorkflowStatusType} (u : WorkflowStatusType) (b : Bool)
    → (b && (s is u)) ≡ true
    → Moves k u t
    → Moves k s t
from_status {k} {s} {t} u b h p = subst (λ (v : WorkflowStatusType). Moves k v t) same p
  where
    same : u ≡ s
    same = ground (arith, is_iff s u)

park-Follows :
    (id : String) (db : Database)
    → Follows submission db.workflow_status (park id db).workflow_status
unfolding park
park-Follows id db =
    Follows-update_where submission _ _ dead_letter-KeepsKeys
      (λ r t. from_status pending (has_id id r) t (one dead_letter)) db.workflow_status

merge-Follows :
    (id : String) (i : Bool) (new : WorkflowRow) (rows : List WorkflowRow)
    → Follows submission rows (update_where (has_id id) (merge i new) rows)
unfolding merge
merge-Follows id i new rows =
    Follows-update_where submission (has_id id) (merge i new) (merge-KeepsKeys i new) (λ r t. here)
      rows

complete-Follows :
    (input : InsertWorkflowStatusInput) (result : InsertWorkflowResult) (after db : Database)
    → Follows submission db.workflow_status after.workflow_status
    → Follows submission db.workflow_status (complete input result after db).1.workflow_status
complete-Follows input result after db f =
    complete_cases (λ p. Follows submission db.workflow_status p.1.workflow_status) input result
      after db (λ e. Follows-refl submission db.workflow_status)
      (λ done c a x.
        Follows-trans submission db.workflow_status done.workflow_status _ (reaches done a)
          (park-Follows input.status.id done))
      (λ done c a x. reaches done a)
  where
    reaches :
        (done : Database)
        → add_child input.record_child after ≡ ok done
        → Follows submission db.workflow_status done.workflow_status
    reaches done a =
        subst (Follows submission db.workflow_status)
          (sym (subst (ChildFollows after) a (add_child-rows input.record_child after))) f

pub insert-Follows :
    (input : InsertWorkflowStatusInput) (now : ℕ) (db : Database)
    → Follows submission db.workflow_status (insert_workflow_status input now db).1.workflow_status
insert-Follows input now db =
    insert_cases (λ p. Follows submission db.workflow_status p.1.workflow_status) input now db
      (λ old e.
        complete-Follows input _ _ db
          (merge-Follows _ input.increment_attempts (new_row input now) db.workflow_status))
      (λ e f. complete-Follows input _ _ db (Follows-insert_row submission _ db.workflow_status))
      (λ e f. Follows-refl submission db.workflow_status)

-- An outcome that ends a workflow does not touch a cancelled one.
outcome_edge :
    (s t : WorkflowStatusType) (b : Bool)
    → has_ended t ≡ true
    → (b && not ((s is cancelled) && has_ended t)) ≡ true
    → Moves ending s t
outcome_edge s t b ends h = one (finish (ground arith) ends)

pub outcome-Follows :
    (id : String) (t : WorkflowStatusType) (output : Option String) (err_str : String) (u c : ℕ)
    (db : Database)
    → has_ended t ≡ true
    → Follows ending db.workflow_status
        (update_workflow_outcome id t output err_str u c db).workflow_status
unfolding update_workflow_outcome
outcome-Follows id t output err_str u c db ends =
    Follows-update_where ending _ _ (with_outcome-KeepsKeys t output err_str u c)
      (λ r h. unfold with_outcome in outcome_edge r.status t (has_id id r) ends h)
      db.workflow_status

pub clear-Follows :
    (id : String) (db : Database)
    → Follows release db.workflow_status (clear_queue_assignment id db).1.workflow_status
unfolding clear_queue_assignment
clear-Follows id db =
    Follows-update_where release _ _ unassigned-KeepsKeys
      (λ r h.
        from_status pending (has_id id r && is_some r.queue_name) (ground arith) (one requeue))
      db.workflow_status

promote_edge :
    (s : WorkflowStatusType) (b : Bool) → ((s is delayed) && b) ≡ true → Moves promotion s enqueued
promote_edge s b h = from_status delayed true (ground arith) (one promote)

pub transition-Follows :
    (now : ℕ) (db : Database)
    → Follows promotion db.workflow_status (transition_delayed_workflows now db).workflow_status
unfolding transition_delayed_workflows
transition-Follows now db =
    Follows-update_where promotion _ _ promoted-KeepsKeys (λ r h. promote_edge r.status _ h)
      db.workflow_status

claim-Follows :
    (input : DequeueInput) (now : ℕ) (id : String) (rows : List WorkflowRow)
    → Follows claim rows (update_where (is_claimable id) (claimed input now) rows)
unfolding claimed
claim-Follows input now id rows =
    Follows-update_where claim (is_claimable id) (claimed input now) (claimed-KeepsKeys input now)
      (λ r h. from_status enqueued (has_id id r) h (one dispatch)) rows

claim_all-Follows :
    (input : DequeueInput) (recent : ℕ) (clock : ℕ → ℕ) (ids : List String)
    (out : List DequeuedWorkflow) (rows : List WorkflowRow)
    → Follows claim rows (claim_all input recent clock ids out rows).1
unfolding claim_all
claim_all-Follows input recent clock [] out rows = Follows-refl claim rows
claim_all-Follows input recent clock (id ∷ ids) out rows =
    let later = claim_all-Follows input recent (λ i. clock (suc i)) ids in
    claim_all_cases (λ p. Follows claim rows p.1) input recent clock id ids out rows
      (λ t. Follows-refl claim rows) (λ f. later out rows)
      (λ r f e. Follows-trans claim rows _ _ (claim-Follows input (clock 0) id rows) (later _ _))

pub dequeue-Follows :
    (input : DequeueInput) (clock : ℕ → ℕ) (db : Database)
    → Follows claim db.workflow_status (dequeue_workflows input clock db).1.workflow_status
dequeue-Follows input clock db =
    dequeue_cases (λ p. Follows claim db.workflow_status p.1.workflow_status) input clock db
      (Follows-refl claim db.workflow_status)
      (λ f g. unfold claim_up_to in claim_all-Follows input _ _ _ [] db.workflow_status)

cancel_edge :
    (s : WorkflowStatusType) (b : Bool)
    → (b && not (has_ended s || (s is cancelled))) ≡ true
    → Moves cancellation s cancelled
cancel_edge s b h = one (cancel (ground arith) (ground arith))

pub cancel-Follows :
    (id : String) (now : ℕ) (db : Database)
    → Follows cancellation db.workflow_status (cancel_workflow id now db).1.workflow_status
unfolding cancel_workflow
cancel-Follows id now db =
    Follows-update_where cancellation _ _ (as_cancelled-KeepsKeys now)
      (λ r h. unfold as_cancelled in cancel_edge r.status (has_id id r) h) db.workflow_status

resume_edge :
    (s : WorkflowStatusType) (b : Bool)
    → (b && not (has_ended s)) ≡ true
    → Moves resumption s enqueued
resume_edge s b h = one (resume (ground arith))

pub resume-Follows :
    (id : String) (now : ℕ) (db : Database)
    → Follows resumption db.workflow_status (resume_workflow id now db).workflow_status
unfolding resume_workflow
resume-Follows id now db =
    Follows-update_where resumption _ _ (as_resumed-KeepsKeys now)
      (λ r h. unfold as_resumed in resume_edge r.status (has_id id r) h) db.workflow_status

mark-Follows :
    (id : String) (rows : List WorkflowRow)
    → Follows nothing rows (update_where (has_id id) mark_forked rows)
unfolding mark_forked
mark-Follows id rows =
    Follows-update_where nothing (has_id id) mark_forked mark_forked-KeepsKeys (λ r h. here) rows

pub fork-Follows :
    (input : ForkInput) (fresh_id : String) (now : ℕ) (db : Database)
    → Follows nothing db.workflow_status (fork_workflow input fresh_id now db).1.workflow_status
fork-Follows input fresh_id now db =
    fork_cases (λ p. Follows nothing db.workflow_status p.1.workflow_status) input fresh_id now db
      (λ e. Follows-refl nothing db.workflow_status)
      (λ orig f e g.
        unfold fork_rows in
        Follows-trans nothing db.workflow_status _ _
          (Follows-insert_row nothing _ db.workflow_status)
          (mark-Follows input.original_workflow_id _))
