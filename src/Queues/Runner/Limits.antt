-- ===== src/Queues/Runner/Limits.antt =====
-- What a round of the queue runner keeps to (crates/dbos-core/src/queue/runner.rs).
use dbos_transact_rust.Prelude.{
  ℕ, suc, ◌+◌, ◌≤◌, pos, String, ◌≡◌, inl, inr, none, some, List, [], ◌∷◌, arith, Bool-cases,
}
use dbos_transact_rust.Sql.{length}
use dbos_transact_rust.Database.{Result, ok, err}
use dbos_transact_rust.Database.Types.{DequeuedWorkflow, InsertWorkflowResult}
use dbos_transact_rust.Database.Schema.{Database}
use dbos_transact_rust.SystemDb.Queue.{dequeue_workflows}
use dbos_transact_rust.SystemDb.Queue.Bounds.{dequeue_worker}
use dbos_transact_rust.Submission.{
  Draws, RunOptions, RunFlags, Engine, should_skip, dispatch, active_entry, start, workflow_id_of,
}
use dbos_transact_rust.Submission.Once.{run_cases}
use dbos_transact_rust.Queues.{WorkflowQueue}
use dbos_transact_rust.Queues.Runner.{
  is_active_in, local_running, dequeue_input, dispatch_options, by_runner, dispatch_one,
  dispatch_all, dequeue_and_dispatch,
}

module _ (queue : String) where
  -- A submission makes at most one workflow active.
  dispatched_one :
      (engine : Engine) (opts : RunOptions) (flags : RunFlags) (id owner_xid : String)
      (r : Result InsertWorkflowResult)
      → local_running queue (dispatch engine opts flags id owner_xid r).1
        ≤ suc (local_running queue engine)
  unfolding local_running dispatch
  dispatched_one engine opts flags id owner_xid (err e) = omega arith
  dispatched_one engine opts flags id owner_xid (ok r) =
      elim (Bool-cases (should_skip engine opts flags id owner_xid r)) [
        | inl t ↦ rw t (omega arith)
        | inr f ↦ elim (Bool-cases (is_active_in queue (id, active_entry r))) [
          | inl t ↦ rw f (rw t (omega arith))
          | inr n ↦ rw f (rw n (omega arith))
        ]
      ]

  one_more :
      (dq : DequeuedWorkflow) (draws : Draws) (engine : Engine) (db : Database)
      → local_running queue (dispatch_one dq draws engine db).1 ≤ suc (local_running queue engine)
  unfolding dispatch_one start
  one_more dq draws engine db =
      let opts = dispatch_options dq in
      run_cases (λ p. local_running queue p.1 ≤ suc (local_running queue engine)) engine dq.name
        dq.input dq.serialization opts by_runner none draws.fresh_id draws.owner_xid draws.clock db
        (λ e. omega arith)
        (λ entry.
          dispatched_one engine opts by_runner (workflow_id_of opts none draws.fresh_id)
            draws.owner_xid _)

  all_more :
      (dqs : List DequeuedWorkflow) (draws : ℕ → Draws) (engine : Engine) (db : Database)
      → local_running queue (dispatch_all dqs draws engine db).0
        ≤ length dqs + local_running queue engine
  unfolding dispatch_all
  all_more [] draws engine db = omega arith
  all_more (dq ∷ dqs) draws engine db =
      let (r, engine', after) = dispatch_one dq (draws 0) engine db in
      omega
        (arith, one_more dq (draws 0) engine db, all_more dqs (λ i. draws (suc i)) engine' after)

-- The worker limit holds end to end: if the workflows of a queue that run on this executor keep to
-- the queue's worker concurrency, they still do once a round has claimed and dispatched more.
pub dequeue_and_dispatch_worker :
    (queue : WorkflowQueue) (clock : ℕ → ℕ) (draws : ℕ → Draws) (engine : Engine) (db : Database)
    (limit : ℕ)
    → queue.worker_concurrency ≡ some (pos limit)
    → local_running queue.name engine ≤ limit
    → local_running queue.name (dequeue_and_dispatch queue clock draws engine db).0 ≤ limit
unfolding dequeue_and_dispatch dequeue_input
dequeue_and_dispatch_worker queue clock draws engine db limit e h =
    let (dqs, after) = dequeue_workflows (dequeue_input engine queue) clock db in
    omega (
      arith,
      all_more queue.name dqs draws engine after,
      dequeue_worker (dequeue_input engine queue) clock db limit e h,
    )
