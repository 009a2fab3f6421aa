-- ===== src/Examples/Histories.antt =====
-- Histories of operations.
use dbos_transact_rust.Prelude.{none, ◌+◌, pos, ◌≡◌, refl, true, some, List, [], ◌∷◌, ◌==◌}
use dbos_transact_rust.Status.{success, pending, enqueued}
use dbos_transact_rust.Sql.{first}
use dbos_transact_rust.Database.Schema.{WorkflowRow, Database}
use dbos_transact_rust.SystemDb.Insert.{new_row, has_id, has_key}
use dbos_transact_rust.SystemDb.Invariant.{IsValid}
use dbos_transact_rust.SystemDb.Outcome.{has_ended}
use dbos_transact_rust.SystemDb.Steps.{output_row}
use dbos_transact_rust.SystemDb.Steps.Durable.{run_keeps_step}
use dbos_transact_rust.SystemDb.Run.{
  Op, inserts, finishes, records, dequeues, cancels, resumes, apply, run, migrated,
  run-migrated-IsValid,
}
use dbos_transact_rust.SystemDb.Run.Moves.{Moved, apply-Moved, run_keeps_ended}
use dbos_transact_rust.Database.Types.{ForkInput}
use dbos_transact_rust.SystemDb.Manage.{copy_step, fork_workflow}
use dbos_transact_rust.SystemDb.Manage.Copies.{fork_workflow_copies}
use dbos_transact_rust.Examples.{insert_of, row_of, database_of, dequeue_of, step_of}

-- A workflow is submitted, claimed, runs a step and ends.
abbrev history : List Op
history =
    inserts (insert_of "w1" (some enqueued) "x1") 20
    ∷ dequeues (dequeue_of "e1") (λ i. 100 + i)
    ∷ records (step_of "w1" (pos 0))
    ∷ finishes "w1" success (some "7") "" 50 51
    ∷ []

run-migrated-IsValid_example : IsValid (run history migrated)
run-migrated-IsValid_example = run-migrated-IsValid history

abbrev one_workflow : Database
one_workflow = database_of (row_of "w1" enqueued ∷ [])

one_workflow-IsValid : IsValid one_workflow
one_workflow-IsValid = record {
  rows_apart = (tt, tt);
  steps_apart = tt;
  steps_owned = tt;
  notifications_owned = tt;
  events_owned = tt;
  history_owned = tt;
  streams_owned = tt;
}

apply-Moved_example : Moved (dequeues (dequeue_of "e1") (λ i. 100 + i)) (row_of "w1" enqueued) (
    first
      (has_id "w1")
      (apply (dequeues (dequeue_of "e1") (λ i. 100 + i)) one_workflow).workflow_status)
unfolding new_row ◌==◌
apply-Moved_example =
    apply-Moved "w1" (row_of "w1" enqueued) (dequeues (dequeue_of "e1") (λ i. 100 + i)) one_workflow
      tt one_workflow-IsValid refl

-- A workflow that succeeded meets a cancellation and a resumption.
run_keeps_ended_example :
    (s : WorkflowRow) × (first
        (has_id "w1")
        (run
          (cancels "w1" 60 ∷ resumes "w1" 61 ∷ [])
          (database_of (row_of "w1" success ∷ []))).workflow_status
      ≡ some s)
    × (has_ended s.status ≡ true)
unfolding new_row ◌==◌
run_keeps_ended_example =
    run_keeps_ended (cancels "w1" 60 ∷ resumes "w1" 61 ∷ [])
      (database_of (row_of "w1" success ∷ [])) "w1" (row_of "w1" success) (tt, (tt, tt)) refl refl

abbrev with_step : Database
with_step = record (database_of (row_of "w1" pending ∷ [])) {
  operation_outputs = output_row (step_of "w1" (pos 0)) ∷ [];
}

run_keeps_step_example :
    first (has_key "w1" (pos 0)) (run history with_step).operation_outputs
    ≡ some (output_row (step_of "w1" (pos 0)))
unfolding output_row ◌==◌
run_keeps_step_example =
    run_keeps_step history with_step "w1" (pos 0) (output_row (step_of "w1" (pos 0)))
      (tt, (tt, (tt, (tt, tt)))) refl

with_step-IsValid : IsValid with_step
unfolding output_row new_row ◌==◌
with_step-IsValid = record {
  rows_apart = (tt, tt);
  steps_apart = (tt, tt);
  steps_owned = (refl, tt);
  notifications_owned = tt;
  events_owned = tt;
  history_owned = tt;
  streams_owned = tt;
}

abbrev fork_of : ForkInput
fork_of = record {
  original_workflow_id = "w1";
  forked_workflow_id = some "w2";
  start_step = pos 1;
  application_version = none;
  queue_name = none;
}

fork_workflow_copies_example :
    first (has_key "w2" (pos 0)) (fork_workflow fork_of "u" 70 with_step).1.operation_outputs
    ≡ some (copy_step "w2" (output_row (step_of "w1" (pos 0))))
unfolding fork_workflow output_row new_row ◌==◌
fork_workflow_copies_example =
    fork_workflow_copies fork_of "u" 0 70 with_step "w2" with_step-IsValid refl
