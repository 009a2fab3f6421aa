-- ===== src/Messaging/Events.antt =====
-- `get_event`, in a workflow and outside (crates/dbos-core/src/workflow/comms.rs).
use dbos_transact_rust.Prelude.{
  ℕ, zero, suc, leb, ℤ, String, Bool, Option, none, some, if◌then◌else◌,
}
use dbos_transact_rust.Database.{Result, ok, err, ◌>>=◌}
use dbos_transact_rust.Database.Types.{RecordedResult}
use dbos_transact_rust.Database.Schema.{Database}
use dbos_transact_rust.SystemDb.Queue.{is_some}
use dbos_transact_rust.SystemDb.Steps.{record_operation_result, check_operation_execution}
use dbos_transact_rust.SystemDb.Comms.{get_event}
use dbos_transact_rust.Serialization.{Codecs, Typed, Serializer, resolve_encoder}
use dbos_transact_rust.Step.{WorkflowState, Times, next_step_id}
use dbos_transact_rust.Messaging.{within_step_error}
use dbos_transact_rust.Messaging.Waiting.{wait_until}
use dbos_transact_rust.Messaging.Receive.{
  Surroundings, durable_deadline_ms, outcome, once_recorded, decode_stored, replay_message,
}

module _ {R V : Type 0} (c : Codecs V) (custom : Option (Serializer V)) (t : Typed R V) where
  -- No event by the deadline reads as a null value.
  unfoldable pub got :
      WorkflowState → ℤ → Times → Option (String × String) → Database → Result R × Database
  unfolding decode_stored outcome
  got s step times (some (value, serialization)) db =
      once_recorded (decode_stored c custom t (some value) serialization) (
        record_operation_result
          (outcome s step "DBOS.getEvent" times (some value) none serialization) db)
  got s step times none db =
      let receiver = (resolve_encoder c s.is_portable custom).name in
      once_recorded (decode_stored c custom t none receiver)
        (record_operation_result (outcome s step "DBOS.getEvent" times none none receiver) db)

  abbrev pub get_in :
      WorkflowState
      → ℤ
      → String
      → String
      → Times
      → Surroundings
      → Option Database
      → Option (Result R × Database)
  get_in s step target key times env none = none
  get_in s step target key times env (some db) =
      let db' = env.late db in
      some (got s step times (get_event target key db') (env.recording db'))

  unfoldable pub get_by :
      WorkflowState
      → ℤ
      → String
      → String
      → Times
      → Surroundings
      → Result ℕ × Database
      → Option (Result R × Database)
  get_by s step target key times env (err e, db) = some (err e, db)
  get_by s step target key times env (ok deadline, db) = get_in s step target key times env (
      wait_until deadline (λ d. is_some (get_event target key d)) env.others env.clock env.stops
        env.fuel 0 db)

  unfoldable pub get_unless :
      Typed ℕ V
      → WorkflowState
      → ℤ
      → ℤ
      → String
      → String
      → ℕ
      → Times
      → Surroundings
      → Database
      → Result (Option RecordedResult)
      → Option (Result R × Database)
  get_unless ms s step sleep_step target key timeout times env db (err e) = some (err e, db)
  get_unless ms s step sleep_step target key timeout times env db (ok (some rec)) =
      some (replay_message c custom t rec, db)
  get_unless ms s step sleep_step target key timeout times env db (ok none) =
      get_by s step target key times env
        (durable_deadline_ms c ms s sleep_step timeout env.start env.before db)

  -- `get_event` of a workflow.
  unfoldable pub get_event_step :
      Typed ℕ V
      → Bool
      → String
      → String
      → ℕ
      → Times
      → Surroundings
      → WorkflowState
      → Database
      → Option (Result R × Database) × WorkflowState
  unfolding next_step_id get_unless
  get_event_step ms within target key timeout times env s db =
      if within
      then (
        some (
          err (
              within_step_error s.workflow_id "DBOS.getEvent" "cannot call GetEvent within a step"),
          db,
        ),
        s,
      )
      else let (step, s') = next_step_id s in
        let (sleep_step, s'') = next_step_id s' in
        (
          get_unless ms s step sleep_step target key timeout times env db
              (check_operation_execution s.workflow_id step "DBOS.getEvent" db),
          s'',
        )

  -- The loop of `get_event` from outside a workflow, from round `k` on; `none` is a loop that the
  -- fuel cut short.
  abbrev pub decoded_event : String × String → Result (Option R)
  unfolding decode_stored
  decoded_event (value, serialization) =
      decode_stored c custom t (some value) serialization >>= λ v. ok (some v)

  unfoldable pub poll_event :
      String
      → String
      → ℕ
      → (ℕ → Database → Database)
      → (ℕ → ℕ)
      → (ℕ → Bool)
      → ℕ
      → ℕ
      → Database
      → Option (Result (Option R) × Database)
  unfolding decoded_event
  poll_event target key deadline others clock stops zero k db = none
  poll_event target key deadline others clock stops (suc fuel) k db =
      let later = poll_event target key deadline others clock stops fuel (suc k) (others k db) in
      elim (get_event target key db) [
        | some event ↦ some (decoded_event event, db)
        | none ↦
            if leb deadline (clock k)
            then some (ok none, db)
            else if stops k
            then some (ok none, others k db)
            else later
      ]
