-- ===== src/Recovery.antt =====
-- `recover_pending_workflows` (crates/dbos-core/src/recovery.rs).
pub mod Laws
use dbos_transact_rust.Prelude.{
  ℕ, suc, String, Bool, true, false, not, ◌==◌, is_empty, Option, none, some, List, [], ◌∷◌, ◌++◌,
  if◌then◌else◌,
}
use dbos_transact_rust.Error.Chain.{DbosError}
use dbos_transact_rust.Status.{pending}
use dbos_transact_rust.Database.{Result, ok, err}
use dbos_transact_rust.Database.Types.{WorkflowStatus, ListWorkflowsInput}
use dbos_transact_rust.Database.Schema.{Database}
use dbos_transact_rust.SystemDb.Queue.{clear_queue_assignment, is_some}
use dbos_transact_rust.SystemDb.Listing.{list_workflows, default_list}
use dbos_transact_rust.Serialization.{portable_serializer_name}
use dbos_transact_rust.Submission.{
  Draws, default_options, RunOptions, RunFlags, Engine, ErasedHandle, handle_id, reject, entry_of,
  run_workflow_erased,
}

unfoldable pub recovery_options : WorkflowStatus → RunOptions
recovery_options wf = record default_options {
  workflow_id = some wf.id;
  authenticated_user = some wf.authenticated_user;
  assumed_role = some wf.assumed_role;
  authenticated_roles = wf.authenticated_roles;
  portable = wf.serialization == portable_serializer_name;
}

abbrev pub by_recovery : RunFlags
by_recovery = record { is_recovery = true; is_dequeue = false }

-- Recovery makes polling handles.
abbrev pub handled :
    Result ErasedHandle × Engine × Database → Result (Option String) × Engine × Database
handled (ok h, engine, db) = (ok (some (handle_id h)), engine, db)
handled (err e, engine, db) = (err e, engine, db)

-- Directly-run work is run again.
unfoldable pub rerun :
    Engine → WorkflowStatus → Draws → Database → Result (Option String) × Engine × Database
unfolding run_workflow_erased recovery_options
rerun engine wf draws db =
    if is_some (entry_of wf.name engine.registry)
    then handled (
        run_workflow_erased engine wf.name wf.input wf.serialization (recovery_options wf)
          by_recovery none draws.fresh_id draws.owner_xid draws.clock db)
    else (ok none, engine, db)

-- Queue-backed work is reset for the runner.
abbrev pub requeued : Engine → String → Bool × Database → Result (Option String) × Engine × Database
requeued engine id (cleared, db) = (ok (if cleared then some id else none), engine, db)

-- One workflow. The result is the id of a handle, if there is one.
unfoldable pub recover_one :
    Engine → WorkflowStatus → Draws → Database → Result (Option String) × Engine × Database
unfolding clear_queue_assignment rerun
recover_one engine wf draws db =
    if not (is_empty wf.queue_name)
    then requeued engine wf.id (clear_queue_assignment wf.id db)
    else rerun engine wf draws db

abbrev pub with_handle : List String → Option String → List String
with_handle handles none = handles
with_handle handles (some id) = handles ++ id ∷ []

-- `?`, and then the rest of the loop.
abbrev pub and_then :
    (Option String → Engine → Database → Result (List String) × Engine × Database)
    → Result (Option String) × Engine × Database
    → Result (List String) × Engine × Database
and_then later (ok h, engine, db) = later h engine db
and_then later (err e, engine, db) = (err e, engine, db)

-- The loop; `draws i` is for the `i`-th workflow still to come.
unfoldable pub recover_all :
    List WorkflowStatus
    → (ℕ → Draws)
    → List String
    → Engine
    → Database
    → Result (List String) × Engine × Database
unfolding recover_one
recover_all [] draws handles engine db = (ok handles, engine, db)
recover_all (wf ∷ wfs) draws handles engine db =
    and_then (λ h. recover_all wfs (λ i. draws (suc i)) (with_handle handles h))
      (recover_one engine wf (draws 0) db)

unfoldable pub pending_of : Engine → List String → ListWorkflowsInput
pending_of engine executor_ids = record default_list {
  status = pending ∷ [];
  executor_ids = executor_ids;
  application_version =
      if is_empty engine.application_version then [] else engine.application_version ∷ [];
  load_input = true;
}

unfoldable pub recover_pending_workflows :
    Engine → List String → (ℕ → Draws) → Database → Result (List String) × Engine × Database
unfolding pending_of recover_all list_workflows
recover_pending_workflows engine executor_ids draws db =
    recover_all (list_workflows (pending_of engine executor_ids) db) draws [] engine db
