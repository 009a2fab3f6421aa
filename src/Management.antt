-- ===== src/Management.antt =====
-- Managing workflows from outside (crates/dbos-core/src/workflow/manage.rs). The calls that only
-- pass their arguments on to the database are its operations.
pub mod Deletion
use dbos_transact_rust.Prelude.{
  ℕ, zero, suc, ℤ, String, Bool, true, false, Option, none, some, List, [], ◌∷◌, ◌++◌,
  if◌then◌else◌,
}
use dbos_transact_rust.Error.Make
use dbos_transact_rust.Database.{Result, ok, err}
use dbos_transact_rust.Database.Types.{ForkInput}
use dbos_transact_rust.Database.Schema.{Database}
use dbos_transact_rust.SystemDb.Queue.{is_some}
use dbos_transact_rust.SystemDb.Manage.{
  cancel_workflow, resume_workflow, delete_workflow, get_workflow_children,
}
use dbos_transact_rust.SystemDb.Listing.{get_workflow_status}

unfoldable pub cancel_existing : String → ℕ → Database → Result (Unit {0}) × Database
cancel_existing id now db =
    let (there, after) = cancel_workflow id now db in
    if there then (ok tt, after) else (err (Make.non_existent_workflow id), after)

-- The result is the id that the returned handle polls.
unfoldable pub resume_existing : String → ℕ → Database → Result String × Database
resume_existing id now db =
    if is_some (get_workflow_status id db)
    then (ok id, resume_workflow id now db)
    else (err (Make.non_existent_workflow id), db)

pub record ForkOptions : Type 0 where
  pub original_workflow_id : String
  pub start_step : ℤ
  pub application_version : Option String
  pub queue : Option String
  pub forked_workflow_id : Option String

unfoldable pub fork_input : ForkOptions → ForkInput
fork_input opts = record {
  original_workflow_id = opts.original_workflow_id;
  forked_workflow_id = opts.forked_workflow_id;
  start_step = opts.start_step;
  application_version = opts.application_version;
  queue_name = opts.queue;
}

-- The breadth-first walk over the children: the queue, and the ids to delete; nothing else changes
-- the database meanwhile. `none` is a walk that the fuel cut short.
unfoldable pub descend : ℕ → List String → List String → Database → Option (List String)
descend zero queue to_delete db = none
descend (suc fuel) [] to_delete db = some to_delete
descend (suc fuel) (id ∷ queue) to_delete db =
    let children = get_workflow_children id db in
    descend fuel (queue ++ children) (to_delete ++ children) db

unfoldable pub delete_all : List String → Database → Database
delete_all [] db = db
delete_all (id ∷ ids) db = delete_all ids (delete_workflow id db)

abbrev pub deleted : Database → Option (List String) → Option Database
unfolding delete_all
deleted db none = none
deleted db (some ids) = some (delete_all ids db)

unfoldable pub delete_with_children : ℕ → String → Bool → Database → Option Database
unfolding descend
delete_with_children fuel id delete_children db =
    deleted db (if delete_children then descend fuel (id ∷ []) (id ∷ []) db else some (id ∷ []))
