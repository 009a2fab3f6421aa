-- ===== src/Examples/Spawns.antt =====
-- Typed workflows, their handles and their children, and a round of the queue runner.
use dbos_transact_rust.Prelude.{
  ℕ, suc, ◌+◌, ◌≤◌, pos, String, ◌≡◌, refl, Bool, true, false, not, none, some, [], ◌∷◌, ◌==◌,
  arith,
}
use dbos_transact_rust.Status.{pending, enqueued}
use dbos_transact_rust.Database.{Result, ok}
use dbos_transact_rust.Database.Schema.{Database}
use dbos_transact_rust.SystemDb.Insert.{insert_workflow_status, new_row}
use dbos_transact_rust.SystemDb.Steps.{check_child_workflow}
use dbos_transact_rust.SystemDb.Run.{promotes, run}
use dbos_transact_rust.Serialization.{portable_serializer, resolve_encoder, encode}
use dbos_transact_rust.Serialization.Arguments.{encode_portable_args, decode_portable_args}
use dbos_transact_rust.Step.{WorkflowState, next_step_id}
use dbos_transact_rust.Submission.{
  Draws, default_options, RunOptions, Engine, ErasedHandle, channel, polling, handle_id, validate,
  workflow_id_of, new_status, should_skip, submission, dispatch, start, initial_state,
  run_workflow_erased,
}
use dbos_transact_rust.Submission.Typed.{
  BodyEnd, returned, encode_input, decode_input, output_of, erased,
}
use dbos_transact_rust.Submission.Typed.Faithful.{erased_lem}
use dbos_transact_rust.Submission.Finish.{finish}
use dbos_transact_rust.Submission.Handles.{sent, decode_output, poll_result, get_result}
use dbos_transact_rust.Submission.Handles.Agree.{get_result-poll_result}
use dbos_transact_rust.Submission.Children.{inherited, spawn, run_child_workflow}
use dbos_transact_rust.Submission.Children.Once.{run_child_workflow_once}
use dbos_transact_rust.Queues.{WorkflowQueue}
use dbos_transact_rust.Queues.Runner.{local_running, dequeue_and_dispatch}
use dbos_transact_rust.Queues.Runner.Limits.{dequeue_and_dispatch_worker}
use dbos_transact_rust.Examples.{row_of, database_of}
use dbos_transact_rust.Examples.Runs.{at_start, codecs, booleans}
use dbos_transact_rust.Examples.Submissions.{engine_of}
use dbos_transact_rust.Examples.Json.{
  json_codecs, envelopes, json-IsFaithful, envelopes-Envelops, flags, flags-ReadsBack,
}

-- A body that negates its input, and counts its calls.
abbrev negate : Bool → ℕ → BodyEnd Bool × ℕ
negate b calls = (returned (ok (not b)), suc calls)

erased_lem_example :
    (r : Bool) × (negate true 0 ≡ (returned (ok r), 1))
    × (decode_output json_codecs none flags (some "false") "portable_json" ≡ ok r)
unfolding encode_input encode_portable_args erased decode_input output_of portable_serializer encode
    decode_portable_args resolve_encoder ◌==◌
erased_lem_example =
    erased_lem json_codecs none envelopes flags flags negate at_start true (some "{[true]}")
      (some "false") "portable_json" 0 1 json-IsFaithful flags-ReadsBack flags-ReadsBack
      envelopes-Envelops tt refl refl

get_result-poll_result_example :
    get_result codecs none booleans
      (sent (ok (record { output = some "true"; serialization = "portable_json" })))
      "w1"
      []
    ≡ poll_result codecs none booleans "w1" (
        (finish codecs "w1" "portable_json"
          (ok (some "true"))
          (record { updated = 40; completed = 41 })
          []
          []
          (database_of (row_of "w1" pending ∷ []))).1
        ∷ [])
unfolding finish new_row ◌==◌
get_result-poll_result_example =
    get_result-poll_result codecs none booleans "w1" "portable_json" (ok (some "true"))
      (record { updated = 40; completed = 41 }) [] [] [] (database_of (row_of "w1" pending ∷ []))
      (row_of "w1" pending) (ok (record { output = some "true"; serialization = "portable_json" }))
      refl refl refl tt tt refl

abbrev by_name : RunOptions
by_name = record default_options { workflow_id = some "w9"; portable = true }

abbrev drawn : String → Draws
drawn owner = record { fresh_id = "u"; owner_xid = owner; clock = λ k. 50 + k }

abbrev parent : Database
parent = database_of (row_of "w1" pending ∷ [])

abbrev first_spawn : Result ErasedHandle × Engine × Database
first_spawn =
    (run_child_workflow json_codecs none envelopes flags false "send_mail" true by_name (drawn "o1")
      (λ db. db) at_start (engine_of "e1") parent).0

abbrev child_state : WorkflowState
child_state = initial_state (inherited at_start by_name) "w9"

run_child_workflow_once_example :
    run_child_workflow json_codecs none envelopes flags false "send_mail" false by_name
      (drawn "o2")
      (λ db. db)
      at_start
      (engine_of "e2")
      (run (promotes 90 ∷ []) first_spawn.2)
    ≡ (
      (
        ok (polling (handle_id (channel child_state))),
        engine_of "e2",
        run (promotes 90 ∷ []) first_spawn.2,
      ),
      (next_step_id at_start).1,
    )
unfolding run_child_workflow spawn encode_input encode_portable_args portable_serializer
    run_workflow_erased validate start dispatch should_skip submission new_status initial_state
    workflow_id_of insert_workflow_status check_child_workflow inherited ◌==◌
run_child_workflow_once_example =
    run_child_workflow_once json_codecs none envelopes flags "send_mail" true false by_name by_name
      (drawn "o1") (drawn "o2") (λ db. db) (λ db. db) at_start (engine_of "e1") (engine_of "e2")
      parent (channel child_state) (promotes 90 ∷ []) refl (tt, tt)

abbrev mail_queue : WorkflowQueue
mail_queue = record {
  name = "mail";
  worker_concurrency = some (pos 1);
  global_concurrency = none;
  priority_enabled = false;
  rate_limit = none;
  max_tasks_per_iteration = pos 100;
}

abbrev two_waiting : Database
two_waiting = database_of (row_of "w1" enqueued ∷ row_of "w2" enqueued ∷ [])

abbrev draws : ℕ → Draws
draws n = record { fresh_id = "u"; owner_xid = "o"; clock = λ k. 60 + k }

dequeue_and_dispatch_worker_example :
    local_running "mail"
      (dequeue_and_dispatch mail_queue (λ k. 50 + k) draws (engine_of "e1") two_waiting).0
    ≤ 1
unfolding local_running
dequeue_and_dispatch_worker_example =
    dequeue_and_dispatch_worker mail_queue (λ k. 50 + k) draws (engine_of "e1") two_waiting 1 refl
      (omega arith)
