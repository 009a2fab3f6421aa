-- ===== src/SystemDb/Run/Moves.antt =====
-- What a history can do to the status of one workflow.
use dbos_transact_rust.Prelude.{
  ℕ, ℤ, String, ◌≡◌, refl, sym, subst, Bool, true, ◌⊎◌, inl, inr, Option, none, some, List, [], ◌∷◌,
}
use dbos_transact_rust.Status.{WorkflowStatusType}
use dbos_transact_rust.Sql.{first}
use dbos_transact_rust.Sql.Laws.{All, Pairs, Pairs-select}
use dbos_transact_rust.Database.Schema.{WorkflowRow, Database}
use dbos_transact_rust.SystemDb.Insert.{has_id}
use dbos_transact_rust.SystemDb.Invariant.{IsValid, Apart}
use dbos_transact_rust.SystemDb.Outcome.{has_ended}
use dbos_transact_rust.SystemDb.Manage.{
  delete_rows, delete_workflow, collect_old, collect_surplus, garbage_collect,
}
use dbos_transact_rust.SystemDb.Transitions.{
  Cause, deletion, Edge, dispatch, promote, requeue, dead_letter, cancel, resume, finish, Moves,
  here, step,
}
use dbos_transact_rust.SystemDb.Transitions.Rows.{Follows, first-delete_none, first-delete_where}
use dbos_transact_rust.SystemDb.Run.{
  Op, inserts, finishes, records, clears, dequeues, promotes, cancels, resumes, deletes, forks,
  collects, resets, sends, consumes, sets_event, writes_stream, apply, run,
}
use dbos_transact_rust.SystemDb.Run.Follows.{cause, IsKeepingOp, apply-Follows}

-- The operations as the engine calls them: an outcome is SUCCESS or ERROR, and the test hook
-- `set_workflow_status_pending` is not used.
abbrev pub IsEngineOp : Op → Type 0
IsEngineOp (finishes id t output err_str u c) = has_ended t ≡ true
IsEngineOp (resets id now) = ⊥
IsEngineOp _ = Unit {0}

-- One move at most: what one operation does twice, it could have done at once.
compose : {k : Cause} {s t u : WorkflowStatusType} → Edge k s t → Edge k t u → Edge k s u
compose dead_letter f = elim f [ ]
compose dispatch f = elim f [ ]
compose promote f = elim f [ ]
compose requeue f = elim f [ ]
compose (cancel e n) (cancel e' n') = cancel e n
compose (resume e) (resume e') = resume e
compose (finish n e) (finish n' e') = finish n e'

one_edge :
    {k : Cause} {s t u : WorkflowStatusType}
    → Edge k s t
    → (t ≡ u) ⊎ Edge k t u
    → (s ≡ u) ⊎ Edge k s u
one_edge {k} {s} e (inl q) = inr (subst (λ (v : WorkflowStatusType). Edge k s v) q e)
one_edge e (inr f) = inr (compose e f)

at_most_one : {k : Cause} {s t : WorkflowStatusType} → Moves k s t → (s ≡ t) ⊎ Edge k s t
at_most_one here = inl refl
at_most_one (step e p) = one_edge e (at_most_one p)

abbrev IsDeletion : Cause → Type 0
IsDeletion deletion = Unit
IsDeletion _ = ⊥

-- The row is there with its status, or with the one that a move of the operation leads to; a
-- deletion may take it away.
abbrev pub Moved : Op → WorkflowRow → Option WorkflowRow → Type 0
Moved op r none = IsDeletion (cause op)
Moved op r (some s) = (r.status ≡ s.status) ⊎ Edge (cause op) r.status s.status

module _ (id : String) (r : WorkflowRow) where
  of_Follows :
      (op : Op) (rows rows' : List WorkflowRow)
      → first (has_id id) rows ≡ some r
      → Follows (cause op) rows rows'
      → Moved op r (first (has_id id) rows')
  of_Follows op rows rows' e f = let s = f id r e in subst (Moved op r) (sym s.1) (at_most_one s.2)

  -- Gone, or as it was.
  abbrev Left : Option WorkflowRow → Type 0
  Left o = (o ≡ some r) ⊎ (o ≡ none)

  of_Left : (op : Op) (o : Option WorkflowRow) → IsDeletion (cause op) → Left o → Moved op r o
  of_Left op o d (inl e) = subst (Moved op r) (sym e) (inl refl)
  of_Left op o d (inr e) = subst (Moved op r) (sym e) d

  delete_rows-Left :
      (p : WorkflowRow → Bool) (db : Database)
      → Pairs Apart db.workflow_status
      → Left (first (has_id id) db.workflow_status)
      → Left (first (has_id id) (delete_rows p db).workflow_status)
  unfolding delete_rows
  delete_rows-Left p db a (inl e) = first-delete_where p id db.workflow_status r a e
  delete_rows-Left p db a (inr e) = inr (first-delete_none p id db.workflow_status e)

  collect_old-Left :
      (cutoff : Option ℕ) (db : Database)
      → Pairs Apart db.workflow_status
      → Left (first (has_id id) db.workflow_status)
      → Left (first (has_id id) (collect_old cutoff db).1.workflow_status)
        × Pairs Apart (collect_old cutoff db).1.workflow_status
  unfolding collect_old
  collect_old-Left none db a e = (e, a)
  collect_old-Left (some cutoff) db a e =
      (delete_rows-Left _ db a e, unfold delete_rows in Pairs-select Apart _ db.workflow_status a)

  collect_surplus-Left :
      (threshold : Option ℤ) (db : Database)
      → Pairs Apart db.workflow_status
      → Left (first (has_id id) db.workflow_status)
      → Left (first (has_id id) (collect_surplus threshold db).1.workflow_status)
  unfolding collect_surplus
  collect_surplus-Left none db a e = e
  collect_surplus-Left (some threshold) db a e = delete_rows-Left _ db a e

  collect-Moved :
      (cutoff : Option ℕ) (threshold : Option ℤ) (db : Database)
      → Pairs Apart db.workflow_status
      → first (has_id id) db.workflow_status ≡ some r
      → Moved
          (collects cutoff threshold)
          r
          (first (has_id id) (garbage_collect cutoff threshold db).1.workflow_status)
  unfolding garbage_collect
  collect-Moved cutoff threshold db a e =
      let (kept, apart) = collect_old-Left cutoff db a (inl e) in
      of_Left (collects cutoff threshold) _ tt
        (collect_surplus-Left threshold (collect_old cutoff db).1 apart kept)

  -- An operation of the engine on a valid database leaves the status of a workflow as it was, or
  -- makes one move that this operation may make: a submission dead-letters a PENDING workflow, a
  -- dequeue starts an ENQUEUED one, a promotion enqueues a DELAYED one, a release requeues a
  -- PENDING one, a cancellation and a resumption change none that is SUCCESS or ERROR and a
  -- cancellation no cancelled one, an outcome changes no cancelled one, and the others none. Only
  -- a deletion or a garbage collection takes a workflow away.
  pub apply-Moved :
      (op : Op) (db : Database)
      → IsEngineOp op
      → IsValid db
      → first (has_id id) db.workflow_status ≡ some r
      → Moved op r (first (has_id id) (apply op db).workflow_status)
  unfolding apply delete_workflow
  apply-Moved (deletes j) db o v e =
      of_Left (deletes j) _ tt (delete_rows-Left (has_id j) db v.rows_apart (inl e))
  apply-Moved (collects cutoff threshold) db o v e =
      collect-Moved cutoff threshold db v.rows_apart e
  apply-Moved (resets j now) db o v e = absurd o
  apply-Moved (finishes j t output err_str u c) db o v e =
      of_Follows (finishes j t output err_str u c) _ _ e
        (apply-Follows (finishes j t output err_str u c) db o)
  apply-Moved (inserts input now) db o v e =
      of_Follows (inserts input now) _ _ e (apply-Follows (inserts input now) db tt)
  apply-Moved (records input) db o v e =
      of_Follows (records input) _ _ e (apply-Follows (records input) db tt)
  apply-Moved (clears j) db o v e = of_Follows (clears j) _ _ e (apply-Follows (clears j) db tt)
  apply-Moved (dequeues input clock) db o v e =
      of_Follows (dequeues input clock) _ _ e (apply-Follows (dequeues input clock) db tt)
  apply-Moved (promotes now) db o v e =
      of_Follows (promotes now) _ _ e (apply-Follows (promotes now) db tt)
  apply-Moved (cancels j now) db o v e =
      of_Follows (cancels j now) _ _ e (apply-Follows (cancels j now) db tt)
  apply-Moved (resumes j now) db o v e =
      of_Follows (resumes j now) _ _ e (apply-Follows (resumes j now) db tt)
  apply-Moved (forks input fresh_id now) db o v e =
      of_Follows (forks input fresh_id now) _ _ e (apply-Follows (forks input fresh_id now) db tt)
  apply-Moved (sends dest topic m ser uuid now) db o v e =
      of_Follows (sends dest topic m ser uuid now) _ _ e
        (apply-Follows (sends dest topic m ser uuid now) db tt)
  apply-Moved (consumes dest topic) db o v e =
      of_Follows (consumes dest topic) _ _ e (apply-Follows (consumes dest topic) db tt)
  apply-Moved (sets_event j k key value ser) db o v e =
      of_Follows (sets_event j k key value ser) _ _ e
        (apply-Follows (sets_event j k key value ser) db tt)
  apply-Moved (writes_stream j key value k ser) db o v e =
      of_Follows (writes_stream j key value k ser) _ _ e
        (apply-Follows (writes_stream j key value k ser) db tt)

ended_edge :
    {k : Cause} {s t : WorkflowStatusType} → Edge k s t → has_ended s ≡ true → has_ended t ≡ true
ended_edge dead_letter h = cc
ended_edge dispatch h = cc
ended_edge promote h = cc
ended_edge requeue h = cc
ended_edge (cancel e n) h = cc
ended_edge (resume e) h = cc
ended_edge (finish n e) h = e

ended_moves :
    {k : Cause} {s t : WorkflowStatusType} → Moves k s t → has_ended s ≡ true → has_ended t ≡ true
ended_moves here h = h
ended_moves (step e p) h = ended_moves p (ended_edge e h)

-- A workflow that is SUCCESS or ERROR is SUCCESS or ERROR after any history of operations that
-- neither deletes workflows nor uses the test hook: it is not cancelled, resumed, requeued or
-- dead-lettered.
pub run_keeps_ended :
    (ops : List Op) (db : Database) (id : String) (r : WorkflowRow)
    → All IsKeepingOp ops
    → first (has_id id) db.workflow_status ≡ some r
    → has_ended r.status ≡ true
    → (s : WorkflowRow) × (first (has_id id) (run ops db).workflow_status ≡ some s)
      × (has_ended s.status ≡ true)
unfolding run
run_keeps_ended [] db id r k e h = (r, e, h)
run_keeps_ended (op ∷ ops) db id r k e h =
    let (s, f, m) = apply-Follows op db k.0 id r e in
    run_keeps_ended ops (apply op db) id s k.1 f (ended_moves m h)
