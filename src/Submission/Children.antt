-- ===== src/Submission/Children.antt =====
-- Child workflows: `run_child_workflow` (crates/dbos-core/src/workflow/run.rs).
pub mod Once
use dbos_transact_rust.Prelude.{ℤ, String, Bool, Option, none, some, List, [], ◌∷◌, if◌then◌else◌}
use dbos_transact_rust.Error.Chain.{DbosError, foreign}
use dbos_transact_rust.Error.Make
use dbos_transact_rust.Database.{Result, ok, err}
use dbos_transact_rust.Database.Schema.{Database}
use dbos_transact_rust.SystemDb.Steps.{check_child_workflow}
use dbos_transact_rust.Serialization.{Codecs, Typed, Serializer}
use dbos_transact_rust.Serialization.Arguments.{Envelopes}
use dbos_transact_rust.Step.{WorkflowState, next_step_id}
use dbos_transact_rust.Submission.{Draws, RunOptions, ChildSpawn, Engine, ErasedHandle, polling}
use dbos_transact_rust.Submission.Typed.{encode_input, submit}

abbrev pub or_own : String → Option String → Option String
or_own own none = some own
or_own own (some s) = some s

abbrev pub or_roles : List String → List String → List String
or_roles own [] = own
or_roles own (r ∷ rs) = r ∷ rs

abbrev pub spawn_error : String → String → String → DbosError
spawn_error id name text = Make.step_execution id name text (foreign text)

-- The parent's identity, unless the caller gave one.
unfoldable pub inherited : WorkflowState → RunOptions → RunOptions
inherited s opts = record opts {
  authenticated_user = or_own s.authenticated_user opts.authenticated_user;
  assumed_role = or_own s.assumed_role opts.assumed_role;
  authenticated_roles = or_roles s.authenticated_roles opts.authenticated_roles;
}

module _ {P V : Type 0} (c : Codecs V) (custom : Option (Serializer V)) (envelopes : Envelopes V)
    (t : Typed P V) where
  -- Once the record of the child is looked up. `others` is what other executors do meanwhile.
  unfoldable pub spawn :
      String
      → P
      → RunOptions
      → Draws
      → (Database → Database)
      → WorkflowState
      → ℤ
      → Engine
      → Database
      → Option String
      → Result ErasedHandle × Engine × Database
  unfolding inherited
  spawn name input opts drawn others s step engine db (some child_id) =
      (ok (polling child_id), engine, db)
  spawn name input opts drawn others s step engine db none =
      submit c custom envelopes t engine name (inherited s opts)
        (some (record { parent_workflow_id = s.workflow_id; step_id = step })) drawn (others db)
        (encode_input c custom envelopes t opts.portable input)

  unfoldable pub run_child_workflow :
      Bool
      → String
      → P
      → RunOptions
      → Draws
      → (Database → Database)
      → WorkflowState
      → Engine
      → Database
      → (Result ErasedHandle × Engine × Database) × WorkflowState
  unfolding next_step_id spawn
  run_child_workflow within name input opts drawn others s engine db =
      if within
      then (
        (
          err (spawn_error s.workflow_id name "cannot spawn child workflow from within a step"),
          engine,
          db,
        ),
        s,
      )
      else let (step, s') = next_step_id s in
        (
          spawn name input opts drawn others s step engine db
              (check_child_workflow s.workflow_id step db),
          s',
        )
