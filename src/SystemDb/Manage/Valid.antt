-- ===== src/SystemDb/Manage/Valid.antt =====
-- Cancelling, resuming, deleting and collecting and the invariant of the tables
-- (crates/dbos-core/src/db/sqlite.rs).
use dbos_transact_rust.Prelude.{
  ℕ, ℤ, String, refl, inl, inr, Bool, not, ◌&&◌, Option, none, some, List, [], ◌∷◌, arith,
}
use dbos_transact_rust.Sql.{exists, delete_where}
use dbos_transact_rust.Sql.Laws.{All, Pairs-select, exists-delete_where}
use dbos_transact_rust.Database.Schema.{WorkflowRow, Database}
use dbos_transact_rust.SystemDb.Insert.{has_id}
use dbos_transact_rust.SystemDb.Invariant.{
  IsValid, Apart, StepApart, Owned, KeepsKeys, update_where-IsValid,
}
use dbos_transact_rust.SystemDb.Manage.{
  as_cancelled, cancel_workflow, as_resumed, resume_workflow, delete_rows, delete_workflow,
  collect_old, collect_surplus, garbage_collect, as_pending, set_workflow_status_pending,
}

pub as_cancelled-KeepsKeys : (now : ℕ) → KeepsKeys (as_cancelled now)
unfolding as_cancelled
as_cancelled-KeepsKeys now = record { id = λ r. refl; slot = λ r. inl refl }

pub cancel_workflow-IsValid :
    (id : String) (now : ℕ) {db : Database} → IsValid db → IsValid (cancel_workflow id now db).1
unfolding cancel_workflow
cancel_workflow-IsValid id now v = update_where-IsValid _ _ (as_cancelled-KeepsKeys now) v

pub as_resumed-KeepsKeys : (now : ℕ) → KeepsKeys (as_resumed now)
unfolding as_resumed
as_resumed-KeepsKeys now = record { id = λ r. refl; slot = λ r. inl refl }

pub resume_workflow-IsValid :
    (id : String) (now : ℕ) {db : Database} → IsValid db → IsValid (resume_workflow id now db)
unfolding resume_workflow
resume_workflow-IsValid id now v = update_where-IsValid _ _ (as_resumed-KeepsKeys now) v

pub as_pending-KeepsKeys : (now : ℕ) → KeepsKeys (as_pending now)
unfolding as_pending
as_pending-KeepsKeys now = record { id = λ r. refl; slot = λ r. inr (refl, refl) }

pub set_workflow_status_pending-IsValid :
    (id : String) (now : ℕ) {db : Database}
    → IsValid db
    → IsValid (set_workflow_status_pending id now db)
unfolding set_workflow_status_pending
set_workflow_status_pending-IsValid id now v = update_where-IsValid _ _ (as_pending-KeepsKeys now) v

-- What is left of a child table has its workflow among the rows that are left.
kept-Owned {ℓ} :
    {C : Type ℓ} (owner : C → String) (p : WorkflowRow → Bool) (rows : List WorkflowRow)
    (cs : List C)
    → All (λ c. Owned rows (owner c)) cs
    → All
        (λ c. Owned (delete_where p rows) (owner c))
        (delete_where (λ c. exists (λ r. p r && has_id (owner c) r) rows) cs)
kept-Owned owner p rows [] h = tt
kept-Owned owner p rows (c ∷ cs) h =
    ground
      (arith, kept-Owned owner p rows cs h.1, exists-delete_where p (has_id (owner c)) rows h.0)

pub delete_rows-IsValid :
    (p : WorkflowRow → Bool) {db : Database} → IsValid db → IsValid (delete_rows p db)
unfolding delete_rows
delete_rows-IsValid p {db} v =
    let rows = db.workflow_status in
    record {
      rows_apart = Pairs-select Apart (λ r. not (p r)) rows v.rows_apart;
      steps_apart = Pairs-select StepApart _ db.operation_outputs v.steps_apart;
      steps_owned = kept-Owned (λ o. o.workflow_uuid) p rows db.operation_outputs v.steps_owned;
      notifications_owned =
          kept-Owned (λ n. n.destination_uuid) p rows db.notifications v.notifications_owned;
      events_owned = kept-Owned (λ e. e.workflow_uuid) p rows db.workflow_events v.events_owned;
      history_owned =
          kept-Owned (λ e. e.workflow_uuid) p rows db.workflow_events_history v.history_owned;
      streams_owned = kept-Owned (λ s. s.workflow_uuid) p rows db.streams v.streams_owned;
    }

pub delete_workflow-IsValid :
    (id : String) {db : Database} → IsValid db → IsValid (delete_workflow id db)
unfolding delete_workflow
delete_workflow-IsValid id v = delete_rows-IsValid (has_id id) v

collect_old-IsValid :
    (cutoff : Option ℕ) {db : Database} → IsValid db → IsValid (collect_old cutoff db).1
unfolding collect_old
collect_old-IsValid none v = v
collect_old-IsValid (some cutoff) v = delete_rows-IsValid _ v

collect_surplus-IsValid :
    (threshold : Option ℤ) {db : Database} → IsValid db → IsValid (collect_surplus threshold db).1
unfolding collect_surplus
collect_surplus-IsValid none v = v
collect_surplus-IsValid (some threshold) v = delete_rows-IsValid _ v

pub garbage_collect-IsValid :
    (cutoff : Option ℕ) (threshold : Option ℤ) {db : Database}
    → IsValid db
    → IsValid (garbage_collect cutoff threshold db).1
unfolding garbage_collect
garbage_collect-IsValid cutoff threshold v =
    collect_surplus-IsValid threshold (collect_old-IsValid cutoff v)
