-- ===== src/SystemDb/Queue.antt =====
-- The queue (crates/dbos-core/src/db/sqlite.rs): `clear_queue_assignment`, `dequeue_workflows`,
-- `get_deduplicated_workflow` and `transition_delayed_workflows`.
pub mod Valid
pub mod Bounds
pub mod Claims
use dbos_transact_rust.Prelude.{
  ℕ, zero, suc, ◌+◌, ◌*◌, ℤ, pos, pos_part, ◌+ℤ◌, ◌-ℤ◌, leb_ℤ, ltb_ℤ, ltb, leb, max_zero, String,
  Bool, true, false, not, ◌&&◌, ◌||◌, ◌==◌, Option, none, some, List, [], ◌∷◌, ◌++◌, map,
  if◌then◌else◌,
}
use dbos_transact_rust.Status.{WorkflowStatusType, pending, enqueued, delayed, ◌is◌}
use dbos_transact_rust.Sql.{
  update_where, select, count_where, exists, first, order_by, take, length,
}
use dbos_transact_rust.Database.{or_default}
use dbos_transact_rust.Database.Types.{DequeueInput, DequeuedWorkflow}
use dbos_transact_rust.Database.Schema.{WorkflowRow, Database}
use dbos_transact_rust.SystemDb.Insert.{has_id, is_waiting, sql_eq}

abbrev pub is_some {ℓ} : {A : Type ℓ} → Option A → Bool
is_some none = false
is_some (some a) = true

unfoldable pub unassigned : WorkflowRow → WorkflowRow
unassigned r = record r { status = enqueued; started_at_epoch_ms = none }

abbrev pub is_assigned : String → WorkflowRow → Bool
is_assigned id r = has_id id r && is_some r.queue_name && (r.status is pending)

unfoldable pub clear_queue_assignment : String → Database → Bool × Database
unfolding unassigned
clear_queue_assignment id db = (
  exists (is_assigned id) db.workflow_status,
  record db { workflow_status = update_where (is_assigned id) unassigned db.workflow_status },
)

-- `queue_name = ?`
abbrev pub in_queue : String → WorkflowRow → Bool
in_queue queue r = sql_eq r.queue_name (some queue)

abbrev pub after : ℤ → Option ℕ → Bool
after cutoff none = false
after cutoff (some t) = ltb_ℤ cutoff (pos t)

-- Starts that count against the rate limit.
abbrev pub is_recent : String → ℤ → WorkflowRow → Bool
is_recent queue cutoff r =
    in_queue queue r
    && r.rate_limited
    && not (is_waiting r.status)
    && after cutoff r.started_at_epoch_ms

unfoldable pub recent_starts : DequeueInput → ℕ → Database → ℕ
recent_starts input now db = elim input.rate_limit [
  | none ↦ 0
  | some (limit, period) ↦
      count_where (is_recent input.queue_name (pos now -ℤ pos period)) db.workflow_status
]

-- The rate limit is used up by `n` starts.
abbrev pub is_used_up : Option (ℤ × ℕ) → ℕ → Bool
is_used_up none n = false
is_used_up (some (limit, period)) n = leb_ℤ limit (pos n)

abbrev pub is_running : String → WorkflowRow → Bool
is_running queue r = in_queue queue r && (r.status is pending)

abbrev pub min_ℤ : ℤ → ℤ → ℤ
min_ℤ a b = if leb_ℤ a b then a else b

-- The room that the concurrency limits leave.
unfoldable pub worker_room : DequeueInput → ℤ
worker_room input = elim input.worker_concurrency [
  | none ↦ input.max_tasks
  | some wc ↦ pos (max_zero (wc -ℤ pos input.local_running_count))
]

unfoldable pub room : DequeueInput → Database → ℤ
unfolding worker_room
room input db = elim input.global_concurrency [
  | none ↦ worker_room input
  | some gc ↦
      min_ℤ (worker_room input)
        (pos (max_zero (gc -ℤ pos (count_where (is_running input.queue_name) db.workflow_status))))
]

-- `application_version = ? OR application_version IS NULL`
abbrev pub version_fits : String → Option String → Bool
version_fits version none = true
version_fits version (some v) = v == version

abbrev pub is_candidate : DequeueInput → WorkflowRow → Bool
is_candidate input r =
    in_queue input.queue_name r
    && (r.status is enqueued)
    && version_fits input.application_version r.application_version

-- ORDER BY priority ASC, created_at ASC
abbrev pub is_before : WorkflowRow → WorkflowRow → Bool
is_before a b =
    ltb a.priority b.priority || (leb a.priority b.priority && leb a.created_at b.created_at)

unfoldable pub candidates : DequeueInput → ℕ → Database → List String
candidates input n db =
    map (λ r. r.workflow_uuid)
      (take n (order_by is_before (select (is_candidate input) db.workflow_status)))

abbrev pub deadline_at : ℕ → Option ℕ → Option ℕ → Option ℕ
deadline_at now (some timeout) none = some (now + timeout)
deadline_at now timeout deadline = deadline

unfoldable pub claimed : DequeueInput → ℕ → WorkflowRow → WorkflowRow
claimed input now r = record r {
  status = pending;
  application_version = some input.application_version;
  executor_id = some input.executor_id;
  started_at_epoch_ms = some now;
  rate_limited = is_some input.rate_limit;
  workflow_deadline_epoch_ms = deadline_at now r.workflow_timeout_ms r.workflow_deadline_epoch_ms;
}

abbrev pub is_claimable : String → WorkflowRow → Bool
is_claimable id r = has_id id r && (r.status is enqueued)

unfoldable pub dequeued : String → WorkflowRow → DequeuedWorkflow
dequeued id r = record {
  id = id;
  name = r.name;
  input = r.inputs;
  serialization = or_default r.serialization;
  config_name = r.config_name;
}

-- The claiming loop, with the clock readings still to come.
unfoldable pub claim_all :
    DequeueInput
    → ℕ
    → (ℕ → ℕ)
    → List String
    → List DequeuedWorkflow
    → List WorkflowRow
    → List DequeuedWorkflow × List WorkflowRow
unfolding claimed dequeued
claim_all input recent clock [] out rows = (out, rows)
claim_all input recent clock (id ∷ ids) out rows =
    let later = λ (i : ℕ). clock (suc i) in
    let skip = claim_all input recent later ids out rows in
    let take_it = λ (r : WorkflowRow).
      claim_all input recent later ids (out ++ dequeued id r ∷ [])
        (update_where (is_claimable id) (claimed input (clock 0)) rows) in
    if is_used_up input.rate_limit (length out + recent)
    then (out, rows)
    else elim (first (is_claimable id) rows) [ none ↦ skip | some r ↦ take_it r ]

unfoldable pub claim_up_to :
    DequeueInput → ℕ → (ℕ → ℕ) → ℕ → Database → List DequeuedWorkflow × Database
unfolding claim_all candidates
claim_up_to input recent clock n db =
    let (out, rows) = claim_all input recent clock (candidates input n db) [] db.workflow_status in
    (out, record db { workflow_status = rows })

-- `clock 0` is read for the rate limiter's window, the rest by the claims.
unfoldable pub dequeue_workflows :
    DequeueInput → (ℕ → ℕ) → Database → List DequeuedWorkflow × Database
unfolding recent_starts room claim_up_to
dequeue_workflows input clock db =
    let recent = recent_starts input (clock 0) db in
    if is_used_up input.rate_limit recent
    then ([], db)
    else if leb_ℤ (room input db) (pos 0)
    then ([], db)
    else claim_up_to input recent (λ i. clock (suc i)) (pos_part (room input db)) db

abbrev pub holds_slot : String → String → WorkflowRow → Bool
holds_slot queue dedup r = in_queue queue r && sql_eq r.deduplication_id (some dedup)

unfoldable pub get_deduplicated_workflow : String → String → Database → Option String
get_deduplicated_workflow queue dedup db =
    elim (first (holds_slot queue dedup) db.workflow_status) [
      | none ↦ none
      | some r ↦ some r.workflow_uuid
    ]

abbrev pub is_due : ℕ → Option ℕ → Bool
is_due now none = false
is_due now (some t) = leb t now

abbrev pub delay_elapsed : ℕ → WorkflowRow → Bool
delay_elapsed now r = (r.status is delayed) && is_due now r.delay_until_epoch_ms

unfoldable pub promoted : WorkflowRow → WorkflowRow
promoted r = record r { status = enqueued }

unfoldable pub transition_delayed_workflows : ℕ → Database → Database
unfolding promoted
transition_delayed_workflows now db = record db {
  workflow_status = update_where (delay_elapsed now) promoted db.workflow_status;
}
