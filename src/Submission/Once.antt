-- ===== src/Submission/Once.antt =====
-- Several submitters of one workflow (crates/dbos-core/src/workflow/run.rs).
use dbos_transact_rust.Prelude.{
  ℕ, String, ◌≡◌, ◌≢◌, refl, subst, sym, ◌∙◌, false, ==_iff, inl, inr, Option, Bool-cases,
  Option-cases, arith,
}
use dbos_transact_rust.Error.Chain.{DbosError}
use dbos_transact_rust.Database.{Result, ok, err}
use dbos_transact_rust.Database.Types.{InsertWorkflowResult}
use dbos_transact_rust.Database.Schema.{Database}
use dbos_transact_rust.SystemDb.Insert.Laws.{OwnedBy, TellsOwner, insert_owned, insert_existing}
use dbos_transact_rust.Step.{WorkflowState}
use dbos_transact_rust.Submission.{
  no_flags, RunOptions, RunFlags, WorkflowEntry, Engine, ChildSpawn, ErasedHandle, channel, polling,
  validate, workflow_id_of, new_status, should_skip, dispatch, submission, entry_of, start,
  run_workflow_erased,
}

abbrev pub Outcome : Type 0
Outcome = Result ErasedHandle × Engine × Database

-- A submission is refused, or starts.
pub run_cases {ℓ} :
    (P : Outcome → Type ℓ) (engine : Engine) (name : String) (encoded_input : Option String)
    (input_serialization : String) (opts : RunOptions) (flags : RunFlags)
    (child : Option ChildSpawn) (fresh_id owner_xid : String) (clock : ℕ → ℕ) (db : Database)
    → ((e : DbosError) → P (err e, engine, db))
    → ((entry : WorkflowEntry)
        → P (
            start engine entry opts flags child
              (workflow_id_of opts child fresh_id)
              encoded_input
              input_serialization
              owner_xid
              clock
              db))
    → P (
        run_workflow_erased engine name encoded_input input_serialization opts flags child fresh_id
          owner_xid clock db)
unfolding run_workflow_erased
run_cases P engine name encoded_input input_serialization opts flags child fresh_id owner_xid clock
      db refused started =
    elim (Option-cases (entry_of name engine.registry)) [
      | inl e ↦ rw (e, run_workflow_erased) (refused _)
      | inr (entry, e) ↦ elim (Option-cases (validate opts)) [
        | inr (d, k) ↦ rw (e, run_workflow_erased) (rw k (refused d))
        | inl k ↦ rw (e, run_workflow_erased) (rw k (started entry))
      ]
    ]

-- If the body starts, the submission owns the workflow.
abbrev StartsOwned : String → String → Outcome → Type 0
StartsOwned id owner (ok (channel s), engine, db) = OwnedBy id owner db
StartsOwned id owner (ok (polling j), engine, db) = Unit
StartsOwned id owner (err e, engine, db) = Unit

-- The body does not start.
abbrev Waits : Outcome → Type 0
Waits (ok (channel s), engine, db) = ⊥
Waits (ok (polling j), engine, db) = Unit
Waits (err e, engine, db) = Unit

abbrev dispatched :
    Engine → RunOptions → String → String → Result InsertWorkflowResult × Database → Outcome
dispatched engine opts id owner_xid (inserted, after) =
    let (handle, engine') = dispatch engine opts no_flags id owner_xid inserted in
    (handle, engine', after)

module _ (engine : Engine) (opts : RunOptions) (id owner_xid : String) where
  not_skipped :
      (r : InsertWorkflowResult)
      → should_skip engine opts no_flags id owner_xid r ≡ false
      → r.owner_xid ≡ owner_xid
  unfolding should_skip
  not_skipped r h = ground (arith, ==_iff r.owner_xid owner_xid)

  dispatched-StartsOwned :
      (q : Result InsertWorkflowResult × Database)
      → ((r : InsertWorkflowResult) → q.0 ≡ ok r → OwnedBy id r.owner_xid q.1)
      → StartsOwned id owner_xid (dispatched engine opts id owner_xid q)
  unfolding dispatch
  dispatched-StartsOwned (err e, after) h = tt
  dispatched-StartsOwned (ok r, after) h =
      elim (Bool-cases (should_skip engine opts no_flags id owner_xid r)) [
        | inl t ↦ rw t tt
        | inr f ↦ rw f (subst (λ (o : String). OwnedBy id o after) (not_skipped r f) (h r refl))
      ]

  dispatched-Waits :
      (other : String) (q : Result InsertWorkflowResult × Database)
      → other ≢ owner_xid
      → TellsOwner id other q
      → Waits (dispatched engine opts id owner_xid q)
  unfolding dispatch
  dispatched-Waits other (err e, after) n h = tt
  dispatched-Waits other (ok r, after) n h =
      elim (Bool-cases (should_skip engine opts no_flags id owner_xid r)) [
        | inl t ↦ rw t tt
        | inr f ↦ absurd (n (sym h.0 ∙ not_skipped r f))
      ]

run-StartsOwned :
    (engine : Engine) (name : String) (encoded_input : Option String) (input_serialization : String)
    (opts : RunOptions) (child : Option ChildSpawn) (fresh_id owner_xid : String) (clock : ℕ → ℕ)
    (db : Database)
    → StartsOwned (workflow_id_of opts child fresh_id) owner_xid (
        run_workflow_erased engine name encoded_input input_serialization opts no_flags child
          fresh_id owner_xid clock db)
run-StartsOwned engine name encoded_input input_serialization opts child fresh_id owner_xid clock
      db =
    let id = workflow_id_of opts child fresh_id in
    run_cases (StartsOwned id owner_xid) engine name encoded_input input_serialization opts no_flags
      child fresh_id owner_xid clock db (λ e. tt)
      (λ entry.
        unfold start in
        dispatched-StartsOwned engine opts id owner_xid _ (
          unfold submission new_status in
          insert_owned
            (submission engine entry opts no_flags child id encoded_input input_serialization
              owner_xid clock)
            (clock 3) db))

run-Waits :
    (engine : Engine) (name : String) (encoded_input : Option String) (input_serialization : String)
    (opts : RunOptions) (child : Option ChildSpawn) (fresh_id owner_xid other : String)
    (clock : ℕ → ℕ) (db : Database)
    → other ≢ owner_xid
    → OwnedBy (workflow_id_of opts child fresh_id) other db
    → Waits (
        run_workflow_erased engine name encoded_input input_serialization opts no_flags child
          fresh_id owner_xid clock db)
run-Waits engine name encoded_input input_serialization opts child fresh_id owner_xid other clock db
      n o =
    let id = workflow_id_of opts child fresh_id in
    run_cases Waits engine name encoded_input input_serialization opts no_flags child fresh_id
      owner_xid clock db (λ e. tt)
      (λ entry.
        unfold start in
        dispatched-Waits engine opts id owner_xid other _ n (
          unfold submission new_status in
          insert_existing
            (submission engine entry opts no_flags child id encoded_input input_serialization
              owner_xid clock)
            (clock 3) db other o))

started :
    (id owner : String) (q : Outcome) (s : WorkflowState)
    → StartsOwned id owner q
    → q.0 ≡ ok (channel s)
    → OwnedBy id owner q.2
started id owner (ok (channel u), engine, db) s k h = k
started id owner (ok (polling j), engine, db) s k h = absurd (cc h)
started id owner (err e, engine, db) s k h = absurd (cc h)

waits : (q : Outcome) (s : WorkflowState) → Waits q → q.0 ≢ ok (channel s)
waits (ok (channel u), engine, db) s k h = k
waits (ok (polling j), engine, db) s k h = cc h
waits (err e, engine, db) s k h = cc h

-- When one caller's submission of a workflow starts its body, the next caller's submission of a
-- workflow with the same id starts none, on any executor and under any name and options, if the
-- ids that the two submissions draw for their ownership differ.
pub run_workflow_once :
    (a b : Engine) (name other_name : String) (input other_input : Option String)
    (serialization other_serialization : String) (opts other_opts : RunOptions)
    (child other_child : Option ChildSpawn) (fresh_id other_fresh_id owner other_owner : String)
    (clock other_clock : ℕ → ℕ) (db : Database) (s t : WorkflowState)
    → workflow_id_of other_opts other_child other_fresh_id ≡ workflow_id_of opts child fresh_id
    → owner ≢ other_owner
    → (run_workflow_erased a name input serialization opts no_flags child fresh_id owner clock db).0
      ≡ ok (channel s)
    → (run_workflow_erased b other_name other_input other_serialization other_opts no_flags
        other_child other_fresh_id other_owner other_clock
        (run_workflow_erased a name input serialization opts no_flags child fresh_id owner clock
          db).2).0
      ≢ ok (channel t)
run_workflow_once a b name other_name input other_input serialization other_serialization opts
      other_opts child other_child fresh_id other_fresh_id owner other_owner clock other_clock db s
      t same n h =
    let first_run =
      run_workflow_erased a name input serialization opts no_flags child fresh_id owner clock db in
    let owned =
      started (workflow_id_of opts child fresh_id) owner first_run s
        (run-StartsOwned a name input serialization opts child fresh_id owner clock db) h in
    waits _ t (
      run-Waits b other_name other_input other_serialization other_opts other_child other_fresh_id
        other_owner owner other_clock first_run.2 n
        (subst (λ (id : String). OwnedBy id owner first_run.2) (sym same) owned))
