-- ===== src/SystemDb/Insert/Laws.antt =====
-- What callers of `insert_workflow_status` rely on.
use dbos_transact_rust.Prelude.{
  ℕ, ◌+◌, ◌≤◌, ◌<◌, ℤ, pos, String, ◌≡◌, ◌≢◌, refl, sym, subst, ◌⊎◌, inl, inr, Bool, true, false,
  ==_refl, none, some, List, arith, if◌then◌else◌, Option-cases,
}
use dbos_transact_rust.Error.{dead_letter_queue as dead_letter_code}
use dbos_transact_rust.Error.Chain.{DbosError, code_of}
use dbos_transact_rust.Error.Make
use dbos_transact_rust.Status.{success, error}
use dbos_transact_rust.Status.Laws.{is_iff}
use dbos_transact_rust.Sql.{first, update_where}
use dbos_transact_rust.Sql.Laws.{first-map, first-some, first-insert_row-none}
use dbos_transact_rust.Database.{Result, ok, err, or_default}
use dbos_transact_rust.Database.Types.{InsertWorkflowStatusInput, InsertWorkflowResult}
use dbos_transact_rust.Database.Schema.{WorkflowRow, Database}
use dbos_transact_rust.SystemDb.Insert.{
  has_id, new_row, merge, returned, exceeded, complete, insert_workflow_status,
}
use dbos_transact_rust.SystemDb.Insert.Cases.{
  complete_cases, insert_cases, ChildFollows, add_child-rows,
}

abbrev RolledBack : Database → Result InsertWorkflowResult × Database → Type 0
RolledBack db (ok r, after) = Unit
RolledBack db (err e, after) = (after ≡ db) ⊎ (code_of e ≡ dead_letter_code)

complete-RolledBack :
    (input : InsertWorkflowStatusInput) (result : InsertWorkflowResult) (after db : Database)
    → RolledBack db (complete input result after db)
complete-RolledBack input result after db =
    complete_cases (RolledBack db) input result after db (λ e. inl refl)
      (λ done c a x. inr (unfold Make.dead_letter_queue in refl)) (λ done c a x. tt)

-- An insert that fails leaves the database as it was, unless it fails by dead-lettering.
pub insert_error :
    (input : InsertWorkflowStatusInput) (now : ℕ) (db : Database) (e : DbosError)
    → (insert_workflow_status input now db).0 ≡ err e
    → ((insert_workflow_status input now db).1 ≡ db) ⊎ (code_of e ≡ dead_letter_code)
insert_error input now db e h =
    of_rolled (insert_workflow_status input now db)
      (insert_cases (RolledBack db) input now db (λ old x. complete-RolledBack input _ _ db)
        (λ x f. complete-RolledBack input _ _ db) (λ x f. inl refl))
      h
  where
    of_rolled :
        (p : Result InsertWorkflowResult × Database)
        → RolledBack db p
        → p.0 ≡ err e
        → (p.1 ≡ db) ⊎ (code_of e ≡ dead_letter_code)
    of_rolled (ok r, after) k h = cc
    of_rolled (err d, after) k h = ground arith

abbrev Capped : ℤ → Result InsertWorkflowResult × Database → Type 0
Capped cap (ok r, after) = exceeded cap r ≡ false
Capped cap (err e, after) = Unit

complete-Capped :
    (input : InsertWorkflowStatusInput) (result : InsertWorkflowResult) (after db : Database)
    → Capped input.max_retries (complete input result after db)
complete-Capped input result after db =
    complete_cases (Capped input.max_retries) input result after db (λ e. tt) (λ done c a x. tt)
      (λ done c a x. x)

exceeded_within :
    (cap : ℕ) (r : InsertWorkflowResult)
    → 0 < cap
    → r.status ≢ success
    → r.status ≢ error
    → exceeded (pos cap) r ≡ false
    → r.attempts ≤ cap + 1
unfolding exceeded
exceeded_within cap r p s x h = ground (arith, is_iff r.status success, is_iff r.status error)

-- With a positive cap, an insert that succeeds on a workflow that is not SUCCESS or ERROR reports
-- at most one attempt more than the cap.
pub insert_attempts :
    (input : InsertWorkflowStatusInput) (now : ℕ) (db : Database) (r : InsertWorkflowResult)
    (cap : ℕ)
    → input.max_retries ≡ pos cap
    → 0 < cap
    → r.status ≢ success
    → r.status ≢ error
    → (insert_workflow_status input now db).0 ≡ ok r
    → r.attempts ≤ cap + 1
insert_attempts input now db r cap e p s x h =
    of_capped (insert_workflow_status input now db)
      (insert_cases (Capped input.max_retries) input now db (λ old x. complete-Capped input _ _ db)
        (λ x f. complete-Capped input _ _ db) (λ x f. tt))
      h
  where
    of_capped :
        (q : Result InsertWorkflowResult × Database)
        → Capped input.max_retries q
        → q.0 ≡ ok r
        → r.attempts ≤ cap + 1
    of_capped (ok d, after) k h = ground (arith, exceeded_within cap r, exceeded_within cap d)
    of_capped (err d, after) k h = cc

-- The workflow is there, with this owner.
abbrev pub OwnedBy : String → String → Database → Type 0
OwnedBy id owner db =
    (r : WorkflowRow) × (first (has_id id) db.workflow_status ≡ some r)
    × (or_default r.owner_xid ≡ owner)

abbrev pub TellsOwner : String → String → Result InsertWorkflowResult × Database → Type 0
TellsOwner id owner (ok r, after) = (r.owner_xid ≡ owner) × OwnedBy id owner after
TellsOwner id owner (err e, after) = Unit

complete-TellsOwner :
    (id owner : String) (input : InsertWorkflowStatusInput) (result : InsertWorkflowResult)
    (after db : Database)
    → result.owner_xid ≡ owner
    → OwnedBy id owner after
    → TellsOwner id owner (complete input result after db)
complete-TellsOwner id owner input result after db e (r, f, o) =
    complete_cases (TellsOwner id owner) input result after db (λ x. tt) (λ done c a x. tt)
      (λ done c a x. (
        e,
        (
          r,
          subst (λ (rows : List WorkflowRow). first (has_id id) rows ≡ some r)
              (sym (subst (ChildFollows after) a (add_child-rows input.record_child after))) f,
          o,
        ),
      ))

merge_keeps_id :
    (id j : String) (i : Bool) (new s : WorkflowRow)
    → has_id id (if has_id j s then merge i new s else s) ≡ has_id id s
unfolding merge
merge_keeps_id id j i new s = ground arith

merge_hit :
    (id : String) (i : Bool) (new r : WorkflowRow)
    → has_id id r ≡ true
    → (if has_id id r then merge i new r else r) ≡ merge i new r
merge_hit id i new r t = rw t

-- An insert on a workflow that is there tells the owner that it has.
pub insert_existing :
    (input : InsertWorkflowStatusInput) (now : ℕ) (db : Database) (owner : String)
    → OwnedBy input.status.id owner db
    → TellsOwner input.status.id owner (insert_workflow_status input now db)
unfolding new_row
insert_existing input now db owner (r, e, o) =
    let id = input.status.id in
    insert_cases (TellsOwner id owner) input now db
      (λ old x. complete-TellsOwner id owner input _ _ db (unfold returned merge in ground arith) (
        merge input.increment_attempts (new_row input now) r,
        subst
            (λ (s : WorkflowRow).
              first (has_id id) (
                update_where (has_id id) (merge input.increment_attempts (new_row input now))
                  db.workflow_status)
              ≡ some s)
            (merge_hit id input.increment_attempts (new_row input now) r
              (first-some (has_id id) db.workflow_status r e).0)
            (first-map (has_id id) _ db.workflow_status r
              (merge_keeps_id id id input.increment_attempts (new_row input now)) e),
        unfold merge in o,
      ))
      (λ x f. absurd (cc e)) (λ x f. tt)

insert_fresh :
    (input : InsertWorkflowStatusInput) (now : ℕ) (db : Database)
    → first (has_id input.status.id) db.workflow_status ≡ none
    → TellsOwner input.status.id input.owner_xid (insert_workflow_status input now db)
unfolding new_row
insert_fresh input now db e =
    let id = input.status.id in
    insert_cases (TellsOwner id input.owner_xid) input now db (λ old x. absurd (cc e))
      (λ x f. complete-TellsOwner id input.owner_xid input _ _ db (unfold returned in refl) (
        new_row input now,
        ground (
          arith,
          first-insert_row-none (has_id id) (new_row input now) db.workflow_status e,
          ==_refl id,
        ),
        refl,
      ))
      (λ x f. tt)

abbrev AgreesOn : String → Result InsertWorkflowResult → String → Type 0
AgreesOn id (ok r) owner = r.owner_xid ≡ owner
AgreesOn id (err e) owner = Unit

of_tells :
    (id owner : String) (q : Result InsertWorkflowResult × Database) (r : InsertWorkflowResult)
    → TellsOwner id owner q
    → q.0 ≡ ok r
    → (r.owner_xid ≡ owner) × OwnedBy id owner q.1
of_tells id owner (ok d, after) r k h = (ground (arith, k.0), k.1)
of_tells id owner (err d, after) r k h = absurd (cc h)

-- The row is there after a successful insert, with the owner that the insert reports.
pub insert_owned :
    (input : InsertWorkflowStatusInput) (now : ℕ) (db : Database) (r : InsertWorkflowResult)
    → (insert_workflow_status input now db).0 ≡ ok r
    → OwnedBy input.status.id r.owner_xid (insert_workflow_status input now db).1
insert_owned input now db r h =
    let id = input.status.id in
    let owned = λ (owner : String) (t : TellsOwner id owner (insert_workflow_status input now db)).
      let (e, o) = of_tells id owner (insert_workflow_status input now db) r t h in
      subst (λ (s : String). OwnedBy id s (insert_workflow_status input now db).1) (sym e) o in
    elim (Option-cases (first (has_id id) db.workflow_status)) [
      | inl e ↦ owned input.owner_xid (insert_fresh input now db e)
      | inr (s, e) ↦
          owned (or_default s.owner_xid)
            (insert_existing input now db (or_default s.owner_xid) (s, e, refl))
    ]

-- Of two inserts of one workflow that succeed one after the other, the second reports the owner
-- that the first reports.
pub insert_unique_owner :
    (first_input second_input : InsertWorkflowStatusInput) (now later : ℕ) (db : Database)
    (r s : InsertWorkflowResult)
    → second_input.status.id ≡ first_input.status.id
    → (insert_workflow_status first_input now db).0 ≡ ok r
    → (insert_workflow_status second_input later (insert_workflow_status first_input now db).1).0
      ≡ ok s
    → s.owner_xid ≡ r.owner_xid
insert_unique_owner first_input second_input now later db r s same h k =
    let after = (insert_workflow_status first_input now db).1 in
    let owned =
      subst (λ (id : String). OwnedBy id r.owner_xid after) (sym same)
        (insert_owned first_input now db r h) in
    (of_tells second_input.status.id r.owner_xid _ s
      (insert_existing second_input later after r.owner_xid owned) k).0
