-- ===== src/Examples/Inserts.antt =====
-- Inserting workflows.
use dbos_transact_rust.Prelude.{ℕ, String, ◌≡◌, refl, none, some, [], ◌∷◌, ◌==◌}
use dbos_transact_rust.Error.Chain.{DbosError}
use dbos_transact_rust.Error.Make
use dbos_transact_rust.Status.{pending}
use dbos_transact_rust.Database.Types.{InsertWorkflowStatusInput, InsertWorkflowResult}
use dbos_transact_rust.Database.Schema.{Database}
use dbos_transact_rust.SystemDb.Insert.{insert_workflow_status}
use dbos_transact_rust.SystemDb.Insert.Laws.{insert_unique_owner}
use dbos_transact_rust.Examples.{submitted, insert_of, row_of, database_of}

abbrev result_of : String → ℕ → InsertWorkflowResult
result_of owner attempts = record {
  attempts = attempts;
  status = pending;
  name = "send_mail";
  queue_name = some "mail";
  queue_partition_key = none;
  timeout_ms = none;
  deadline_ms = none;
  owner_xid = owner;
}

insert_unique_owner_example : (result_of "x1" 1).owner_xid ≡ (result_of "x1" 1).owner_xid
unfolding insert_workflow_status ◌==◌
insert_unique_owner_example =
    insert_unique_owner (insert_of "w1" none "x1") (insert_of "w1" none "x2") 20 30 (database_of [])
      (result_of "x1" 1) (result_of "x1" 1) refl refl refl

-- The same workflow under another name.
abbrev renamed : InsertWorkflowStatusInput
renamed = record (insert_of "w1" none "x2") {
  status = record (submitted "w1" none) { name = "other" };
}

abbrev present : Database
present = database_of (row_of "w1" pending ∷ [])

abbrev refusal : DbosError
refusal =
    Make.conflicting_workflow "w1"
      "Workflow already exists with a different name: send_mail, but the provided name is: other"
