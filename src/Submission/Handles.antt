-- ===== src/Submission/Handles.antt =====
-- Handles: waiting for a workflow's result (crates/dbos-core/src/workflow/handle.rs).
pub mod Agree
use dbos_transact_rust.Prelude.{String, Option, none, some, List}
use dbos_transact_rust.Error.Chain.{DbosError}
use dbos_transact_rust.Error.Make
use dbos_transact_rust.Database.{Result, ok, err, ◌>>=◌}
use dbos_transact_rust.Database.Types.{AwaitResult, WorkflowStatus}
use dbos_transact_rust.Database.Schema.{Database}
use dbos_transact_rust.SystemDb.Outcome.{await_workflow_result}
use dbos_transact_rust.SystemDb.Listing.{get_workflow_status}
use dbos_transact_rust.Serialization.{
  Codecs, Typed, Serializer, lift, resolve_decoder, decode, deserialize_workflow_error,
}
use dbos_transact_rust.Submission.Finish.{EncodedOutcome}

-- What a handle's channel holds: the task's outcome, nothing because the task was dropped, or
-- nothing any more.
pub data Receiver : Type 0 where
  sent : Result EncodedOutcome → Receiver
  dropped taken : Receiver

module _ {R V : Type 0} (c : Codecs V) (custom : Option (Serializer V)) (t : Typed R V) where
  unfoldable pub decode_output : Option String → String → Result R
  decode_output output tag =
      lift (resolve_decoder c tag custom) >>= λ decoder. decode t decoder output

  abbrev pub or_output : AwaitResult → Option DbosError → Result R
  unfolding decode_output
  or_output r none = decode_output r.output r.serialization
  or_output r (some e) = err e

  -- What the stored result of a workflow reads as.
  unfoldable pub read_result : Result AwaitResult → Result R
  read_result (err e) = err e
  read_result (ok r) = or_output r (deserialize_workflow_error c r.error r.serialization)

  abbrev pub polled : Option (Result AwaitResult) → Option (Result R)
  unfolding read_result
  polled none = none
  polled (some r) = some (read_result r)

  -- `later` are the databases that the rounds of polling see; `none` still polls.
  unfoldable pub poll_result : String → List Database → Option (Result R)
  unfolding polled
  poll_result id later = polled (await_workflow_result id later)

  -- `get_result` of a channel handle; that of a polling handle is `poll_result`.
  unfoldable pub get_result : Receiver → String → List Database → Option (Result R)
  unfolding decode_output poll_result
  get_result (sent (ok outcome)) id later =
      some (decode_output outcome.output outcome.serialization)
  get_result (sent (err e)) id later = some (err e)
  get_result dropped id later = poll_result id later
  get_result taken id later = poll_result id later

abbrev pub found_status : String → Option WorkflowStatus → Result WorkflowStatus
found_status id none = err (Make.non_existent_workflow id)
found_status id (some s) = ok s

unfoldable pub get_status : String → Database → Result WorkflowStatus
get_status id db = found_status id (get_workflow_status id db)
