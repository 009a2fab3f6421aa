-- ===== src/Examples/Queues.antt =====
-- Two executors on a queue of three workflows.
use dbos_transact_rust.Prelude.{ℕ, ◌+◌, ◌≤◌, pos, ◌≡◌, ◌≢◌, refl, [], ◌∷◌, ◌==◌, arith}
use dbos_transact_rust.Status.{pending, enqueued}
use dbos_transact_rust.Sql.{count_where, length}
use dbos_transact_rust.Sql.Laws.{All}
use dbos_transact_rust.Database.Schema.{Database}
use dbos_transact_rust.SystemDb.Insert.{new_row}
use dbos_transact_rust.SystemDb.Invariant.{IsValid}
use dbos_transact_rust.SystemDb.Queue.{dequeue_workflows, is_running, recent_starts}
use dbos_transact_rust.SystemDb.Queue.Bounds.{dequeue_global, dequeue_rate}
use dbos_transact_rust.SystemDb.Queue.Bounds.Unread.{dequeue_max_tasks_unread}
use dbos_transact_rust.SystemDb.Queue.Claims.{dequeue_disjoint}
use dbos_transact_rust.Examples.{row_of, database_of, dequeue_of}

abbrev waiting : Database
waiting = database_of (row_of "w1" enqueued ∷ row_of "w2" enqueued ∷ row_of "w3" pending ∷ [])

abbrev clock : ℕ → ℕ
clock i = 100 + i

waiting-IsValid : IsValid waiting
unfolding new_row ◌==◌
waiting-IsValid = record {
  rows_apart = (((refl, refl), ((refl, refl), tt)), (((refl, refl), tt), (tt, tt)));
  steps_apart = tt;
  steps_owned = tt;
  notifications_owned = tt;
  events_owned = tt;
  history_owned = tt;
  streams_owned = tt;
}

dequeue_global_example :
    count_where
      (is_running "mail")
      (dequeue_workflows (dequeue_of "e1") clock waiting).1.workflow_status
    ≤ 2
unfolding new_row ◌==◌
dequeue_global_example =
    dequeue_global (dequeue_of "e1") clock waiting 2 waiting-IsValid refl (omega arith)

dequeue_rate_example :
    length (dequeue_workflows (dequeue_of "e1") clock waiting).0
      + recent_starts (dequeue_of "e1") 100 waiting
    ≤ 5
unfolding recent_starts new_row ◌==◌
dequeue_rate_example = dequeue_rate (dequeue_of "e1") clock waiting 5 1000 refl (omega arith)

dequeue_max_tasks_unread_example :
    dequeue_workflows (record (dequeue_of "e1") { max_tasks = pos 0 }) clock waiting
    ≡ dequeue_workflows (dequeue_of "e1") clock waiting
dequeue_max_tasks_unread_example =
    dequeue_max_tasks_unread (dequeue_of "e1") clock waiting (pos 1) (pos 0) refl

dequeue_disjoint_example :
    let p = dequeue_workflows (dequeue_of "e1") clock waiting in
    All (λ d. All (λ e. e.id ≢ d.id) (dequeue_workflows (dequeue_of "e2") clock p.1).0) p.0
dequeue_disjoint_example =
    dequeue_disjoint (dequeue_of "e1") (dequeue_of "e2") clock clock waiting waiting-IsValid
