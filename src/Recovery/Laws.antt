-- ===== src/Recovery/Laws.antt =====
-- Recovery of queue-backed workflows (crates/dbos-core/src/recovery.rs).
use dbos_transact_rust.Prelude.{
  ℕ, suc, String, ◌≡◌, refl, sym, ap, subst, false, is_empty, none, some, List, [], ◌∷◌, arith,
  if◌then◌else◌,
}
use dbos_transact_rust.Sql.{exists, update_where}
use dbos_transact_rust.Sql.Laws.{All}
use dbos_transact_rust.Database.{Result, ok, err}
use dbos_transact_rust.Database.Types.{WorkflowStatus}
use dbos_transact_rust.Database.Schema.{WorkflowRow, Database}
use dbos_transact_rust.SystemDb.Queue.{unassigned, is_assigned, clear_queue_assignment}
use dbos_transact_rust.Submission.{Draws, Engine}
use dbos_transact_rust.Recovery.{and_then, requeued, recover_one, recover_all, with_handle}

-- The workflows are queue-backed.
abbrev pub IsQueued : WorkflowStatus → Type 0
IsQueued wf = is_empty wf.queue_name ≡ false

-- No row of the id is PENDING on a queue.
abbrev pub Released : Database → WorkflowStatus → Type 0
Released db wf = exists (is_assigned wf.id) db.workflow_status ≡ false

released_rows :
    (id : String) (rows : List WorkflowRow)
    → exists (is_assigned id) (update_where (is_assigned id) unassigned rows) ≡ false
unfolding unassigned
released_rows id [] = refl
released_rows id (r ∷ rows) = ground (arith, released_rows id rows)

stays_released :
    (id other : String) (rows : List WorkflowRow)
    → exists (is_assigned id) rows ≡ false
    → exists (is_assigned id) (update_where (is_assigned other) unassigned rows) ≡ false
unfolding unassigned
stays_released id other [] h = refl
stays_released id other (r ∷ rows) h = ground (arith, stays_released id other rows)

clear_one :
    (engine : Engine) (wf : WorkflowStatus) (draws : Draws) (db : Database)
    → IsQueued wf
    → recover_one engine wf draws db ≡ requeued engine wf.id (clear_queue_assignment wf.id db)
unfolding recover_one
clear_one engine wf draws db q = rw q refl

recover_cons :
    (wf : WorkflowStatus) (wfs : List WorkflowStatus) (draws : ℕ → Draws) (handles : List String)
    (engine : Engine) (db : Database)
    → IsQueued wf
    → let cleared = clear_queue_assignment wf.id db in
      recover_all (wf ∷ wfs) draws handles engine db
      ≡ recover_all wfs
          (λ i. draws (suc i))
          (with_handle handles (if cleared.0 then some wf.id else none))
          engine
          cleared.1
unfolding recover_all
recover_cons wf wfs draws handles engine db q =
    ap (and_then (λ h. recover_all wfs (λ i. draws (suc i)) (with_handle handles h)))
      (clear_one engine wf (draws 0) db q)

-- Recovery went through, and these are released.
abbrev pub Releases : List WorkflowStatus → Result (List String) × Engine × Database → Type 0
Releases wfs (ok handles, engine, db) = All (Released db) wfs
Releases wfs (err e, engine, db) = ⊥

abbrev StillReleased : WorkflowStatus → Result (List String) × Engine × Database → Type 0
StillReleased wf (ok handles, engine, db) = Released db wf
StillReleased wf (err e, engine, db) = ⊥

cleared-Released :
    (wf other : WorkflowStatus) (db : Database)
    → Released db wf
    → Released (clear_queue_assignment other.id db).1 wf
unfolding clear_queue_assignment
cleared-Released wf other db h = stays_released wf.id other.id db.workflow_status h

recover_all-StillReleased :
    (wf : WorkflowStatus) (wfs : List WorkflowStatus) (draws : ℕ → Draws) (handles : List String)
    (engine : Engine) (db : Database)
    → All IsQueued wfs
    → Released db wf
    → StillReleased wf (recover_all wfs draws handles engine db)
unfolding recover_all
recover_all-StillReleased wf [] draws handles engine db q h = h
recover_all-StillReleased wf (other ∷ wfs) draws handles engine db q h =
    subst (StillReleased wf) (sym (recover_cons other wfs draws handles engine db q.0)) (
      recover_all-StillReleased wf wfs (λ i. draws (suc i)) _ engine
        (clear_queue_assignment other.id db).1 q.1 (cleared-Released wf other db h))

both :
    (wf : WorkflowStatus) (wfs : List WorkflowStatus) (p : Result (List String) × Engine × Database)
    → StillReleased wf p
    → Releases wfs p
    → Releases (wf ∷ wfs) p
both wf wfs (ok handles, engine, db) h k = (h, k)
both wf wfs (err e, engine, db) h k = h

-- Recovery of queue-backed workflows goes through, whatever rows the database has, and leaves no
-- row with the id of one of them PENDING on a queue.
pub recover_all-Releases :
    (wfs : List WorkflowStatus) (draws : ℕ → Draws) (handles : List String) (engine : Engine)
    (db : Database)
    → All IsQueued wfs
    → Releases wfs (recover_all wfs draws handles engine db)
unfolding recover_all
recover_all-Releases [] draws handles engine db q = tt
recover_all-Releases (wf ∷ wfs) draws handles engine db q =
    subst (Releases (wf ∷ wfs)) (sym (recover_cons wf wfs draws handles engine db q.0)) (
      both wf wfs _
        (recover_all-StillReleased wf wfs (λ i. draws (suc i)) _ engine
          (clear_queue_assignment wf.id db).1 q.1
          (unfold clear_queue_assignment in released_rows wf.id db.workflow_status))
        (recover_all-Releases wfs (λ i. draws (suc i)) _ engine (clear_queue_assignment wf.id db).1
          q.1))
