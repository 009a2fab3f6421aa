-- ===== src/Queues.antt =====
-- Queues: their registration (crates/dbos-core/src/queue/mod.rs).
pub mod Runner
use dbos_transact_rust.Prelude.{
  ℕ, ℤ, pos, String, Bool, true, false, ◌==◌, Option, none, some, List, [], ◌∷◌, if◌then◌else◌,
}
use dbos_transact_rust.Error.Make
use dbos_transact_rust.Sql.{exists}
use dbos_transact_rust.Database.{Result, ok, err}
use dbos_transact_rust.SystemDb.Insert.{get_or}
use dbos_transact_rust.SystemDb.Manage.{internal_queue_name}

-- At most `limit` starts per `period`, in milliseconds.
pub record RateLimiter : Type 0 where
  pub limit : ℤ
  pub period : ℕ

pub record WorkflowQueue : Type 0 where
  pub name : String
  pub worker_concurrency : Option ℤ
  pub global_concurrency : Option ℤ
  pub priority_enabled : Bool
  pub rate_limit : Option RateLimiter
  pub max_tasks_per_iteration : ℤ

pub record QueueOptions : Type 0 where
  pub worker_concurrency : Option ℤ
  pub global_concurrency : Option ℤ
  pub priority_enabled : Bool
  pub rate_limit : Option RateLimiter
  pub max_tasks_per_iteration : Option ℤ

unfoldable pub new_queue : String → QueueOptions → WorkflowQueue
new_queue name opts = record {
  name = name;
  worker_concurrency = opts.worker_concurrency;
  global_concurrency = opts.global_concurrency;
  priority_enabled = opts.priority_enabled;
  rate_limit = opts.rate_limit;
  max_tasks_per_iteration = get_or (pos 100) opts.max_tasks_per_iteration;
}

abbrev pub is_registered : String → List WorkflowQueue → Bool
is_registered name queues = exists (λ q. q.name == name) queues

-- The queues of the context, and whether it is launched.
unfoldable pub register_queue :
    Bool → String → QueueOptions → List WorkflowQueue → Result (Unit {0}) × List WorkflowQueue
unfolding new_queue
register_queue launched name opts queues =
    if launched
    then (
      err (Make.initialization "cannot register a queue after the context has been launched"),
      queues,
    )
    else if is_registered name queues
    then (err (Make.conflicting_registration name), queues)
    else (ok tt, new_queue name opts ∷ queues)

abbrev pub internal_queue : WorkflowQueue
internal_queue = record {
  name = internal_queue_name;
  worker_concurrency = none;
  global_concurrency = none;
  priority_enabled = false;
  rate_limit = none;
  max_tasks_per_iteration = pos 100;
}

unfoldable pub register_internal_queue : List WorkflowQueue → List WorkflowQueue
register_internal_queue queues =
    if is_registered internal_queue_name queues then queues else internal_queue ∷ queues
