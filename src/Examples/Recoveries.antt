-- ===== src/Examples/Recoveries.antt =====
-- Listing the workflows of an executor that is gone, and recovering them.
use dbos_transact_rust.Prelude.{
  ℕ, ◌+◌, pos, ◌≡◌, refl, ◌↔◌, map, none, true, false, ◌==◌, some, List, [], ◌∷◌,
}
use dbos_transact_rust.Status.{pending}
use dbos_transact_rust.Database.Types.{WorkflowStatus, ListWorkflowsInput}
use dbos_transact_rust.Database.Schema.{WorkflowRow, Database}
use dbos_transact_rust.SystemDb.Insert.{new_row}
use dbos_transact_rust.SystemDb.Invariant.{IsValid}
use dbos_transact_rust.SystemDb.Listing.{
  row_to_status, list_workflows, default_list, limited, skipped,
}
use dbos_transact_rust.Sql.Laws.{Pairs}
use dbos_transact_rust.Sql.Order.{OneOf}
use dbos_transact_rust.SystemDb.Listing.Exact.{Fits, Distinct, InOrder, list_workflows_lists}
use dbos_transact_rust.Submission.{Draws}
use dbos_transact_rust.Recovery.{recover_all}
use dbos_transact_rust.Recovery.Laws.{Releases, recover_all-Releases}
use dbos_transact_rust.Examples.{row_of, database_of}
use dbos_transact_rust.Examples.Submissions.{engine_of}

abbrev left_behind : Database
left_behind = database_of (row_of "w1" pending ∷ row_of "w2" pending ∷ [])

left_behind-IsValid : IsValid left_behind
unfolding new_row ◌==◌
left_behind-IsValid = record {
  rows_apart = (((refl, refl), tt), (tt, tt));
  steps_apart = tt;
  steps_owned = tt;
  notifications_owned = tt;
  events_owned = tt;
  history_owned = tt;
  streams_owned = tt;
}

abbrev oldest_pending : ListWorkflowsInput
oldest_pending = record default_list {
  status = pending ∷ [];
  executor_ids = "e1" ∷ [];
  limit = some (pos 1);
}

list_workflows_lists_example :
    (rows : List WorkflowRow) × (list_workflows oldest_pending left_behind
      ≡ map (row_to_status false false) (limited (some (pos 1)) (skipped none rows)))
    × ((r : WorkflowRow)
        → OneOf r rows ↔ (OneOf r left_behind.workflow_status × Fits oldest_pending r))
    × Pairs Distinct rows
    × Pairs (InOrder false) rows
list_workflows_lists_example = list_workflows_lists oldest_pending left_behind left_behind-IsValid

abbrev draws : ℕ → Draws
draws i = record { fresh_id = "u"; owner_xid = "x"; clock = λ k. i + k }

abbrev found : List WorkflowStatus
unfolding row_to_status new_row
found =
    row_to_status true false (row_of "w1" pending)
    ∷ row_to_status true false (row_of "w2" pending)
    ∷ []

recover_all-Releases_example :
    Releases found (recover_all found draws [] (engine_of "e2") left_behind)
unfolding found ◌==◌
recover_all-Releases_example =
    recover_all-Releases found draws [] (engine_of "e2") left_behind (refl, (refl, tt))
