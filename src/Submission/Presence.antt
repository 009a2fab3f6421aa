-- ===== src/Submission/Presence.antt =====
-- The rows that a submission leaves (crates/dbos-core/src/workflow/run.rs,
-- crates/dbos-core/src/db/sqlite.rs).
use dbos_transact_rust.Prelude.{
  ℕ, String, ◌≡◌, ap, ◌∙◌, subst, true, ==_refl, Option, Bool-cases, inl, inr, arith,
}
use dbos_transact_rust.Sql.{exists, update_where}
use dbos_transact_rust.Sql.Laws.{exists-map, exists-insert_row, first-some}
use dbos_transact_rust.Database.{Result, ok, err}
use dbos_transact_rust.Database.Types.{InsertWorkflowStatusInput, InsertWorkflowResult}
use dbos_transact_rust.Database.Schema.{Database}
use dbos_transact_rust.SystemDb.Insert.{
  has_id, new_row, merge, add_child, dead_letter, park, complete, insert_workflow_status,
}
use dbos_transact_rust.SystemDb.Insert.Cases.{
  ChildFollows, add_child-rows, complete_cases, insert_cases,
}
use dbos_transact_rust.Submission.Once.{run_cases}
use dbos_transact_rust.Submission.{
  RunOptions, RunFlags, ChildSpawn, Engine, ErasedHandle, new_status, should_skip, workflow_id_of,
  dispatch, submission, start, run_workflow_erased,
}

-- The workflow is there.
abbrev pub Has : String → Database → Type 0
Has id db = exists (has_id id) db.workflow_status ≡ true

-- Every workflow that is there stays.
abbrev pub Stays : Database → Database → Type 0
Stays db after = (x : String) → Has x db → Has x after

module _ (input : InsertWorkflowStatusInput) (db : Database) where
  abbrev Made : Result InsertWorkflowResult × Database → Type 0
  Made (ok r, after) = Stays db after × Has input.status.id after
  Made (err e, after) = Stays db after

  followed :
      (after done : Database)
      → add_child input.record_child after ≡ ok done
      → done.workflow_status ≡ after.workflow_status
  followed after done e = subst (ChildFollows after) e (add_child-rows input.record_child after)

  park-Stays : (done : Database) → Stays done (park input.status.id done)
  unfolding park dead_letter
  park-Stays done x h = exists-map (has_id x) _ done.workflow_status (λ r. ground arith) ∙ h

  complete-Made :
      (result : InsertWorkflowResult) (after : Database)
      → Stays db after
      → Has input.status.id after
      → Made (complete input result after db)
  complete-Made result after k h =
      complete_cases Made input result after db (λ e x p. p)
        (λ done c a t x p.
          park-Stays done x (ap (exists (has_id x)) (followed after done a) ∙ k x p))
        (λ done c a f. (
          λ x p. ap (exists (has_id x)) (followed after done a) ∙ k x p,
          ap (exists (has_id input.status.id)) (followed after done a) ∙ h,
        ))

  merged-Stays :
      (now : ℕ)
      → Stays db (record db {
        workflow_status =
            update_where
              (has_id (new_row input now).workflow_uuid)
              (merge input.increment_attempts (new_row input now))
              db.workflow_status;
      })
  unfolding merge
  merged-Stays now x h = exists-map (has_id x) _ db.workflow_status (λ r. ground arith) ∙ h

  insert-Made : (now : ℕ) → Made (insert_workflow_status input now db)
  unfolding new_row
  insert-Made now =
      insert_cases Made input now db
        (λ old e. complete-Made _ _ (merged-Stays now) (
          merged-Stays now input.status.id
            (first-some (has_id input.status.id) db.workflow_status old e).1))
        (λ n f.
          complete-Made _ _
            (λ x h.
              ground (arith, exists-insert_row (has_id x) (new_row input now) db.workflow_status))
            (ground (
              arith,
              exists-insert_row (has_id input.status.id) (new_row input now) db.workflow_status,
              ==_refl input.status.id,
            )))
        (λ n t x p. p)

-- What a submission under `id` leaves.
abbrev pub Ran : String → Database → Result ErasedHandle × Engine × Database → Type 0
Ran id db (ok h, engine, after) = Stays db after × Has id after
Ran id db (err e, engine, after) = Stays db after

dispatched-Ran :
    (engine : Engine) (opts : RunOptions) (flags : RunFlags) (owner_xid : String)
    (input : InsertWorkflowStatusInput) (db : Database) (q : Result InsertWorkflowResult × Database)
    → Made input db q
    → let d = dispatch engine opts flags input.status.id owner_xid q.0 in
      Ran input.status.id db (d.0, d.1, q.1)
unfolding dispatch
dispatched-Ran engine opts flags owner_xid input db (err e, after) m = m
dispatched-Ran engine opts flags owner_xid input db (ok r, after) m =
    elim (Bool-cases (should_skip engine opts flags input.status.id owner_xid r)) [
      | inl t ↦ rw t m
      | inr f ↦ rw f m
    ]

pub run-Ran :
    (engine : Engine) (name : String) (encoded : Option String) (serialization : String)
    (opts : RunOptions) (flags : RunFlags) (child : Option ChildSpawn) (fresh_id owner_xid : String)
    (clock : ℕ → ℕ) (db : Database)
    → Ran (workflow_id_of opts child fresh_id) db (
        run_workflow_erased engine name encoded serialization opts flags child fresh_id owner_xid
          clock db)
unfolding start submission new_status
run-Ran engine name encoded serialization opts flags child fresh_id owner_xid clock db =
    let id = workflow_id_of opts child fresh_id in
    run_cases (Ran id db) engine name encoded serialization opts flags child fresh_id owner_xid
      clock db (λ e x h. h)
      (λ entry.
        let input =
          submission engine entry opts flags child id encoded serialization owner_xid clock in
        dispatched-Ran engine opts flags owner_xid input db _ (insert-Made input db (clock 3)))
