-- ===== src/Examples/Submissions.antt =====
-- Two executors that submit one workflow.
use dbos_transact_rust.Prelude.{
  ℕ, ◌+◌, pos, negsuc, String, ◌≡◌, ◌≢◌, refl, true, ◌==◌, ==_iff, none, some, [], ◌∷◌, decimal,
}
use dbos_transact_rust.Status.{pending}
use dbos_transact_rust.Error.{workflow_execution, number}
use dbos_transact_rust.Error.Chain.{is_code, display}
use dbos_transact_rust.Serialization.{serialize_workflow_error, portable_from_source}
use dbos_transact_rust.Error.Make
use dbos_transact_rust.Database.{ok, err}
use dbos_transact_rust.SystemDb.Insert.{new_row, insert_workflow_status}
use dbos_transact_rust.SystemDb.Outcome.{await_workflow_result}
use dbos_transact_rust.Step.{WorkflowState}
use dbos_transact_rust.Submission.{
  no_flags, default_options, RunOptions, Engine, channel, workflow_id_of, validate, start, dispatch,
  should_skip, submission, new_status, initial_state, run_workflow_erased,
}
use dbos_transact_rust.Submission.Once.{run_workflow_once}
use dbos_transact_rust.Submission.Finish.{finish, await-finish}
use dbos_transact_rust.Examples.{row_of, database_of}
use dbos_transact_rust.Examples.Runs.{codecs}

abbrev pub engine_of : String → Engine
engine_of executor = record {
  registry =
      (
        "send_mail",
        record { name = "send_mail"; max_retries = pos 3; class_name = ""; config_name = none },
      )
      ∷ [];
  application_version = "v1";
  application_id = "shop";
  executor_id = executor;
  active_workflow_ids = [];
}

abbrev direct : RunOptions
direct = record default_options { workflow_id = some "w1"; portable = true }

abbrev clock : ℕ → ℕ
clock i = 10 + i

abbrev begun : WorkflowState
begun = record {
  workflow_id = "w1";
  step_id = negsuc 0;
  is_portable = true;
  authenticated_user = "";
  assumed_role = "";
  authenticated_roles = [];
}

abbrev owner : String
owner = "x1"

abbrev other_owner : String
other_owner = "x2"

owners_differ : owner ≢ other_owner
unfolding ◌==◌
owners_differ e = absurd (cc ((==_iff owner other_owner).1 e))

run_workflow_once_example :
    (run_workflow_erased
      (engine_of "e2")
      "send_mail"
      none
      "portable_json"
      direct
      no_flags
      none
      "u2"
      other_owner
      clock
      (run_workflow_erased
        (engine_of "e1")
        "send_mail"
        none
        "portable_json"
        direct
        no_flags
        none
        "u1"
        owner
        clock
        (database_of [])).2).0
    ≢ ok (channel begun)
unfolding run_workflow_erased validate start dispatch should_skip submission new_status
    initial_state workflow_id_of insert_workflow_status ◌==◌
run_workflow_once_example =
    run_workflow_once (engine_of "e1") (engine_of "e2") "send_mail" "send_mail" none none
      "portable_json" "portable_json" direct direct none none "u1" "u2" owner other_owner clock
      clock (database_of []) begun begun refl owners_differ refl

await-finish_example :
    await_workflow_result "w1" (
      (finish codecs "w1" "portable_json"
        (err (Make.new workflow_execution "no mail server"))
        (record { updated = 40; completed = 41 })
        []
        (("w1", record { queue_name = ""; queue_partition_key = "" }) ∷ [])
        (database_of (row_of "w1" pending ∷ []))).1
      ∷ [])
    ≡ some (
        ok (record {
          output = none;
          error = some "DBOS Error 10: no mail server";
          serialization = "portable_json";
        }))
unfolding new_row is_code serialize_workflow_error portable_from_source display number decimal ◌==◌
await-finish_example =
    await-finish codecs "w1" "portable_json" (err (Make.new workflow_execution "no mail server"))
      (record { updated = 40; completed = 41 }) [] []
      (("w1", record { queue_name = ""; queue_partition_key = "" }) ∷ [])
      (database_of (row_of "w1" pending ∷ [])) (row_of "w1" pending) refl refl refl
