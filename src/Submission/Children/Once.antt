-- ===== src/Submission/Children/Once.antt =====
-- Replays of `run_child_workflow` (crates/dbos-core/src/workflow/run.rs).
use dbos_transact_rust.Prelude.{
  ℕ, ℤ, String, ◌≡◌, refl, sym, subst, ap, ◌∙◌, false, inl, inr, ==_refl, Option, none, some, List,
  arith, Bool-cases, Option-cases,
}
use dbos_transact_rust.Sql.{first}
use dbos_transact_rust.Sql.Laws.{All, first-insert_row-none}
use dbos_transact_rust.Database.{Result, ok, err}
use dbos_transact_rust.Database.Types.{ChildRecord, InsertWorkflowStatusInput, InsertWorkflowResult}
use dbos_transact_rust.Database.Schema.{OutputRow, Database}
use dbos_transact_rust.SystemDb.Insert.{
  has_key, child_row, add_child, complete, insert_workflow_status,
}
use dbos_transact_rust.SystemDb.Insert.Cases.{add_child_cases, complete_cases, insert_cases}
use dbos_transact_rust.SystemDb.Steps.{check_child_workflow}
use dbos_transact_rust.SystemDb.Steps.Laws.{eq_ℤ_refl, exists-first}
use dbos_transact_rust.SystemDb.Steps.Durable.{IsUndeleting, run_keeps_step}
use dbos_transact_rust.SystemDb.Run.{Op, run}
use dbos_transact_rust.Serialization.{Codecs, Typed, Serializer}
use dbos_transact_rust.Serialization.Arguments.{Envelopes}
use dbos_transact_rust.Step.{WorkflowState, next_step_id}
use dbos_transact_rust.Submission.{
  Draws, no_flags, RunOptions, RunFlags, ChildSpawn, Engine, ErasedHandle, polling, handle_id,
  should_skip, initial_state, dispatch, submission, child_record, start, workflow_id_of,
}
use dbos_transact_rust.Submission.Once.{run_cases}
use dbos_transact_rust.Submission.Typed.{encode_input, submit}
use dbos_transact_rust.Submission.Children.{inherited, spawn, run_child_workflow}

module _ (k : ChildRecord) where
  abbrev Adopts : Result Database → Type 0
  Adopts (ok done) =
      first (has_key k.parent_workflow_id k.step_id) done.operation_outputs ≡ some (child_row k)
  Adopts (err e) = Unit

  add_child-Adopts : (db : Database) → Adopts (add_child (some k) db)
  unfolding child_row
  add_child-Adopts db =
      add_child_cases Adopts k db (λ e. tt)
        (λ f t. ground (
          arith,
          first-insert_row-none (has_key k.parent_workflow_id k.step_id) (child_row k)
              db.operation_outputs
              (exists-first (has_key k.parent_workflow_id k.step_id) db.operation_outputs f),
          ==_refl k.parent_workflow_id,
          eq_ℤ_refl k.step_id,
        ))

  -- A successful insert has recorded the child.
  abbrev Adopted : Result InsertWorkflowResult × Database → Type 0
  Adopted (ok r, after) = Adopts (ok after)
  Adopted (err e, after) = Unit

  complete-Adopted :
      (input : InsertWorkflowStatusInput) (result : InsertWorkflowResult) (after db : Database)
      → input.record_child ≡ some k
      → Adopted (complete input result after db)
  complete-Adopted input result after db h =
      complete_cases Adopted input result after db (λ e. tt) (λ done c a t. tt)
        (λ done c a f.
          subst Adopts a (subst (λ x. Adopts (add_child x after)) (sym h) (add_child-Adopts after)))

  insert-Adopted :
      (input : InsertWorkflowStatusInput) (now : ℕ) (db : Database)
      → input.record_child ≡ some k
      → Adopted (insert_workflow_status input now db)
  insert-Adopted input now db h =
      insert_cases Adopted input now db (λ old e. complete-Adopted input _ _ db h)
        (λ n f. complete-Adopted input _ _ db h) (λ n t. tt)

-- The step of the parent is recorded with the child that the handle is of.
abbrev Spawned : String → ℤ → Result ErasedHandle × Engine × Database → Type 0
Spawned parent step (ok h, engine, after) =
    (o : OutputRow) × (first (has_key parent step) after.operation_outputs ≡ some o)
    × (o.child_workflow_id ≡ some (handle_id h))
Spawned parent step (err e, engine, after) = Unit

dispatched-Spawned :
    (k : ChildRecord) (engine : Engine) (opts : RunOptions) (flags : RunFlags) (owner_xid : String)
    (q : Result InsertWorkflowResult × Database)
    → Adopted k q
    → let d = dispatch engine opts flags k.child_workflow_id owner_xid q.0 in
      Spawned k.parent_workflow_id k.step_id (d.0, d.1, q.1)
unfolding dispatch initial_state child_row
dispatched-Spawned k engine opts flags owner_xid (err e, after) a = tt
dispatched-Spawned k engine opts flags owner_xid (ok r, after) a =
    elim (Bool-cases (should_skip engine opts flags k.child_workflow_id owner_xid r)) [
      | inl t ↦ rw t (child_row k, a, refl)
      | inr f ↦ rw f (child_row k, a, refl)
    ]

module _ {P V : Type 0} (c : Codecs V) (custom : Option (Serializer V)) (envelopes : Envelopes V)
    (t : Typed P V) where
  submit-Spawned :
      (engine : Engine) (name : String) (opts : RunOptions) (parent : String) (step : ℤ)
      (drawn : Draws) (db : Database) (x : Result (Option String × String))
      → Spawned parent step (
          submit c custom envelopes t engine name opts
            (some (record { parent_workflow_id = parent; step_id = step }))
            drawn
            db
            x)
  unfolding start
  submit-Spawned engine name opts parent step drawn db (err e) = tt
  submit-Spawned engine name opts parent step drawn db (ok (encoded, tag)) =
      let child : ChildSpawn = record { parent_workflow_id = parent; step_id = step } in
      let id = workflow_id_of opts (some child) drawn.fresh_id in
      run_cases (Spawned parent step) engine name encoded tag opts no_flags (some child)
        drawn.fresh_id drawn.owner_xid drawn.clock db (λ e. tt)
        (λ entry.
          let k : ChildRecord = record {
            parent_workflow_id = parent;
            step_id = step;
            step_name = entry.name;
            child_workflow_id = id;
          } in
          dispatched-Spawned k engine opts no_flags drawn.owner_xid _
            (insert-Adopted k _ (drawn.clock 3) db (unfold submission child_record in refl)))

  looked_up :
      (parent : String) (step : ℤ) (id : String) (engine : Engine) (db : Database)
      → check_child_workflow parent step db ≡ some id
      → Spawned parent step (ok (polling id), engine, db)
  unfolding check_child_workflow
  looked_up parent step id engine db h =
      elim (Option-cases (first (has_key parent step) db.operation_outputs)) [
        | inl n ↦ absurd (ground (arith, h, n))
        | inr (o, e) ↦ (o, e, ground (arith, h, e))
      ]

  spawn-Spawned :
      (name : String) (input : P) (opts : RunOptions) (drawn : Draws) (others : Database → Database)
      (s : WorkflowState) (step : ℤ) (engine : Engine) (db : Database) (x : Option String)
      → check_child_workflow s.workflow_id step db ≡ x
      → Spawned s.workflow_id step
          (spawn c custom envelopes t name input opts drawn others s step engine db x)
  unfolding spawn
  spawn-Spawned name input opts drawn others s step engine db (some id) h =
      looked_up s.workflow_id step id engine db h
  spawn-Spawned name input opts drawn others s step engine db none h =
      submit-Spawned engine name (inherited s opts) s.workflow_id step drawn (others db)
        (encode_input c custom envelopes t opts.portable input)

-- What a successful spawn left is found again after any history without deletions.
found_again :
    (parent : String) (step : ℤ) (q : Result ErasedHandle × Engine × Database) (h : ErasedHandle)
    (ops : List Op)
    → Spawned parent step q
    → q.0 ≡ ok h
    → All IsUndeleting ops
    → check_child_workflow parent step (run ops q.2) ≡ some (handle_id h)
unfolding check_child_workflow
found_again parent step (err e, engine, after) h ops k r u = absurd (cc r)
found_again parent step (ok g, engine, after) h ops (o, there, child) r u =
    rw (run_keeps_step ops after parent step o u there, check_child_workflow)
      (child ∙ ap (λ x. some (handle_id x)) {x = g} {y = h} (cc r))

-- A child workflow is spawned once: when `run_child_workflow` returned a handle, the same call at
-- the same point of the parent, with any input, after any history of operations that deletes no
-- workflow, returns a handle to the same child and submits nothing.
pub run_child_workflow_once :
    {P V : Type 0} (c : Codecs V) (custom : Option (Serializer V)) (envelopes : Envelopes V)
    (t : Typed P V) (name : String) (input later_input : P) (opts later_opts : RunOptions)
    (drawn later_drawn : Draws) (others later_others : Database → Database) (s : WorkflowState)
    (engine later_engine : Engine) (db : Database) (h : ErasedHandle) (ops : List Op)
    → let q =
        (run_child_workflow c custom envelopes t false name input opts drawn others s engine
          db).0 in
      q.0 ≡ ok h
      → All IsUndeleting ops
      → run_child_workflow c custom envelopes t false name later_input later_opts later_drawn
          later_others s later_engine
          (run ops q.2)
        ≡ ((ok (polling (handle_id h)), later_engine, run ops q.2), (next_step_id s).1)
unfolding run_child_workflow spawn next_step_id
run_child_workflow_once c custom envelopes t name input later_input opts later_opts drawn
      later_drawn others later_others s engine later_engine db h ops r u =
    let step = (next_step_id s).0 in
    let k =
      spawn-Spawned c custom envelopes t name input opts drawn others s step engine db
        (check_child_workflow s.workflow_id step db) refl in
    rw (found_again s.workflow_id step _ h ops k r u) refl
