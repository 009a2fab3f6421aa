-- ===== src/Messaging/TimedOut.antt =====
-- What becomes of the timeout of a `recv` (crates/dbos-core/src/workflow/comms.rs).
use text.Mathlib.TextLemmas.{append-eq-nil_iff}
use dbos_transact_rust.Prelude.{
  ℕ, ℤ, String, ◌≡◌, refl, true, false, ◌==◌, ==_ne, is_empty, Option, none, some, List,
}
use dbos_transact_rust.Error.{DbosErrorCode, workflow_execution, code_eq, timeout as timeout_code}
use dbos_transact_rust.Error.Chain.{DbosError, dbos_error, display, is_code}
use dbos_transact_rust.Error.Make
use dbos_transact_rust.Status.{cancelled, ◌is◌}
use dbos_transact_rust.Sql.{first}
use dbos_transact_rust.Sql.Laws.{All}
use dbos_transact_rust.Database.{Result, ok, err}
use dbos_transact_rust.Database.Types.{RecordOperationResultInput}
use dbos_transact_rust.Database.Schema.{WorkflowRow, Database}
use dbos_transact_rust.SystemDb.Insert.{has_id}
use dbos_transact_rust.SystemDb.Steps.{record_operation_result}
use dbos_transact_rust.SystemDb.Steps.Durable.{IsUndeleting}
use dbos_transact_rust.SystemDb.Steps.Recall.{record_of, record-Recalls, recalled}
use dbos_transact_rust.SystemDb.Run.{Op, run}
use dbos_transact_rust.Serialization.{
  Codecs, Typed, Serializer, resolve_encoder, portable_serializer_name, serialize_workflow_error,
  deserialize_workflow_error, plain_error,
}
use dbos_transact_rust.Serialization.Errors.{deserialize-is_code}
use dbos_transact_rust.Step.{WorkflowState, Times, next_step_id}
use dbos_transact_rust.Messaging.Receive.{
  Surroundings, outcome, once_recorded, replay_message_with, replay_message, recv_timeout, received,
  recv_unless, recv,
}

display_nonempty : (e : DbosError) → is_empty (display e) ≡ false
unfolding display
display_nonempty (dbos_error c m x s) = ==_ne _ "" (λ h. apart (append-eq-nil_iff.0 h).0)
  where
    apart : ◌≡◌ {A = String} "DBOS Error " "" → ⊥
    apart h = absurd (cc h)

module _ {R V : Type 0} (c : Codecs V) (custom : Option (Serializer V)) (t : Typed R V)
    (s : WorkflowState) (step : ℤ) (described : String) (times : Times) where
  receiver : String
  receiver = (resolve_encoder c s.is_portable custom).name

  -- What a `recv` records when no message came.
  abbrev pub timed_out : RecordOperationResultInput
  timed_out =
      outcome s step "DBOS.recv" times none
        (some (
          serialize_workflow_error c (recv_timeout c custom t s.workflow_id described)
            (resolve_encoder c s.is_portable custom).name))
        (resolve_encoder c s.is_portable custom).name

  recv_timeout-is_code :
      is_code (recv_timeout c custom t s.workflow_id described) timeout_code ≡ true
  unfolding recv_timeout is_code code_eq Make.timeout
  recv_timeout-is_code = refl

  received-none :
      (db : Database)
      → (record_operation_result timed_out db).0 ≡ ok tt
      → received c custom t s step described times (none, db) ≡ (
        err (recv_timeout c custom t s.workflow_id described),
        (record_operation_result timed_out db).1,
      )
  unfolding received
  received-none db h = of_record (record_operation_result timed_out db) h
    where
      of_record :
          (q : Result (Unit {0}) × Database)
          → q.0 ≡ ok tt
          → once_recorded {A = R} (err (recv_timeout c custom t s.workflow_id described)) q
            ≡ (err (recv_timeout c custom t s.workflow_id described), q.1)
      of_record (ok u, after) h = refl
      of_record (err e, after) h = absurd (cc h)

  -- The error that is read is a plain one.
  replayed-is_code :
      ((resolve_encoder c s.is_portable custom).name == portable_serializer_name) ≡ false
      → (e : DbosError) × (replay_message c custom t (record_of timed_out) ≡ err e)
        × ((k : DbosErrorCode) → is_code e k ≡ code_eq workflow_execution k)
  unfolding outcome replay_message replay_message_with serialize_workflow_error
      deserialize_workflow_error plain_error
  replayed-is_code n = (
    plain_error c (display (recv_timeout c custom t s.workflow_id described)),
    rw n (
        rw (display_nonempty (recv_timeout c custom t s.workflow_id described))
          (rw (display_nonempty (recv_timeout c custom t s.workflow_id described)) (rw n refl))),
    λ k.
        deserialize-is_code c (some (display (recv_timeout c custom t s.workflow_id described)))
          (resolve_encoder c s.is_portable custom).name _ k
          (rw (display_nonempty (recv_timeout c custom t s.workflow_id described)) (rw n refl)),
  )

-- A timeout changes on replay: a `recv` that finds no message by its deadline and records that
-- fails with the code Timeout, but the same `recv`, made again after any history without
-- deletions, fails with an error that answers to WorkflowExecution and to no other code, when the
-- workflow is there and not cancelled and its serializer is not the portable one.
pub recv_timeout_forgotten :
    {R V : Type 0} (c : Codecs V) (custom : Option (Serializer V)) (t : Typed R V) (ms : Typed ℕ V)
    (topic : String) (timeout : ℕ) (described later_described : String) (times later_times : Times)
    (env : Surroundings) (s : WorkflowState) (db : Database) (ops : List Op) (row : WorkflowRow)
    → ((resolve_encoder c s.is_portable custom).name == portable_serializer_name) ≡ false
    → let step = (next_step_id s).0 in
      let after = (record_operation_result (timed_out c custom t s step described times) db).1 in
      (record_operation_result (timed_out c custom t s step described times) db).0 ≡ ok tt
      → All IsUndeleting ops
      → first (has_id s.workflow_id) (run ops after).workflow_status ≡ some row
      → (row.status is cancelled) ≡ false
      → (first_error later_error : DbosError) × (received c custom t s step described times
            (none, db)
          ≡ (err first_error, after))
        × (is_code first_error timeout_code ≡ true)
        × ((recv c custom t ms false topic timeout later_described later_times env s
              (run ops after)).0
            ≡ some (err later_error, run ops after))
        × ((k : DbosErrorCode) → is_code later_error k ≡ code_eq workflow_execution k)
unfolding recv recv_unless outcome
recv_timeout_forgotten c custom t ms topic timeout described later_described times later_times env s
      db ops row n h u r live =
    let step = (next_step_id s).0 in
    let input = timed_out c custom t s step described times in
    let (e, reads, codes) = replayed-is_code c custom t s step described times n in
    (
      recv_timeout c custom t s.workflow_id described,
      e,
      received-none c custom t s step described times db h,
      recv_timeout-is_code c custom t s step described times,
      rw
          (recalled s.workflow_id step "DBOS.recv" (record_of input) ops
            (record_operation_result input db).1 row (record-Recalls input db h) u r live)
          (rw reads refl),
      codes,
    )
