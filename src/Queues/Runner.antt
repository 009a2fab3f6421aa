-- ===== src/Queues/Runner.antt =====
-- The queue runner: what a round claims and dispatches (crates/dbos-core/src/queue/runner.rs).
pub mod Limits
use dbos_transact_rust.Prelude.{
  ℕ, suc, ℤ, String, Bool, true, false, ◌==◌, Option, none, some, List, [], ◌∷◌, if◌then◌else◌,
}
use dbos_transact_rust.Sql.{count_where}
use dbos_transact_rust.Database.{Result}
use dbos_transact_rust.Database.Types.{DequeueInput, DequeuedWorkflow}
use dbos_transact_rust.Database.Schema.{Database}
use dbos_transact_rust.SystemDb.Queue.{dequeue_workflows, transition_delayed_workflows}
use dbos_transact_rust.Serialization.{portable_serializer_name}
use dbos_transact_rust.Submission.{
  default_options, Draws, RunOptions, RunFlags, Engine, ActiveEntry, ErasedHandle, reject,
  run_workflow_erased,
}
use dbos_transact_rust.Queues.{RateLimiter, WorkflowQueue}

abbrev pub is_active_in : String → String × ActiveEntry → Bool
is_active_in queue a = a.1.queue_name == queue

unfoldable pub local_running : String → Engine → ℕ
local_running queue engine = count_where (is_active_in queue) engine.active_workflow_ids

abbrev pub limit_of : Option RateLimiter → Option (ℤ × ℕ)
limit_of none = none
limit_of (some r) = some (r.limit, r.period)

unfoldable pub dequeue_input : Engine → WorkflowQueue → DequeueInput
unfolding local_running
dequeue_input engine queue = record {
  queue_name = queue.name;
  global_concurrency = queue.global_concurrency;
  worker_concurrency = queue.worker_concurrency;
  rate_limit = limit_of queue.rate_limit;
  max_tasks = queue.max_tasks_per_iteration;
  local_running_count = local_running queue.name engine;
  application_version = engine.application_version;
  executor_id = engine.executor_id;
}

unfoldable pub dispatch_options : DequeuedWorkflow → RunOptions
dispatch_options dq = record default_options {
  workflow_id = some dq.id;
  portable = dq.serialization == portable_serializer_name;
}

abbrev pub by_runner : RunFlags
by_runner = record { is_recovery = false; is_dequeue = true }

unfoldable pub dispatch_one :
    DequeuedWorkflow → Draws → Engine → Database → Result ErasedHandle × Engine × Database
unfolding dispatch_options
dispatch_one dq draws engine db =
    run_workflow_erased engine dq.name dq.input dq.serialization (dispatch_options dq) by_runner
      none draws.fresh_id draws.owner_xid draws.clock db

-- A dispatch that fails is logged, and the loop goes on.
unfoldable pub dispatch_all :
    List DequeuedWorkflow → (ℕ → Draws) → Engine → Database → Engine × Database
unfolding dispatch_one
dispatch_all [] draws engine db = (engine, db)
dispatch_all (dq ∷ dqs) draws engine db =
    let (r, engine', after) = dispatch_one dq (draws 0) engine db in
    dispatch_all dqs (λ i. draws (suc i)) engine' after

-- `clock` is read by the dequeue.
unfoldable pub dequeue_and_dispatch :
    WorkflowQueue → (ℕ → ℕ) → (ℕ → Draws) → Engine → Database → Engine × Database
unfolding dequeue_input dispatch_all
dequeue_and_dispatch queue clock draws engine db =
    let (dqs, after) = dequeue_workflows (dequeue_input engine queue) clock db in
    dispatch_all dqs draws engine after

-- The queues of a round, one after the other; `n` counts them.
unfoldable pub dispatch_queues :
    List WorkflowQueue → (ℕ → ℕ → ℕ) → (ℕ → ℕ → Draws) → Engine → Database → Engine × Database
unfolding dequeue_and_dispatch
dispatch_queues [] clocks draws engine db = (engine, db)
dispatch_queues (queue ∷ queues) clocks draws engine db =
    let (engine', after) = dequeue_and_dispatch queue (clocks 0) (draws 0) engine db in
    dispatch_queues queues (λ n. clocks (suc n)) (λ n. draws (suc n)) engine' after

-- A round of the runner; one that finds the context not launched does nothing.
unfoldable pub run_queue_round :
    Bool
    → List WorkflowQueue
    → ℕ
    → (ℕ → ℕ → ℕ)
    → (ℕ → ℕ → Draws)
    → Engine
    → Database
    → Engine × Database
unfolding transition_delayed_workflows dispatch_queues
run_queue_round launched queues now clocks draws engine db =
    if launched
    then dispatch_queues queues clocks draws engine (transition_delayed_workflows now db)
    else (engine, db)
