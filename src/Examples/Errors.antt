-- ===== src/Examples/Errors.antt =====
-- Errors on their way through the database.
use dbos_transact_rust.Prelude.{String, ◌≡◌, refl, inr, none, some, ◌==◌}
use dbos_transact_rust.Error.{timeout}
use dbos_transact_rust.Error.Chain.{DbosError, PortableWorkflowError, portable, with_source}
use dbos_transact_rust.Error.Make
use dbos_transact_rust.Serialization.{
  Codecs, portable_serializer_name, portable_from_source, serialize_workflow_error,
  deserialize_workflow_error,
}
use dbos_transact_rust.Serialization.Errors.{deserialize-serialize}
use dbos_transact_rust.Examples.Runs.{Value, codecs}

-- Envelopes that hold a message only.
abbrev message_of : String → PortableWorkflowError
message_of s = record { name = "Error"; message = s; code = none; details = none }

abbrev messages : Codecs Value
messages = record codecs { error_from_text = λ s. inr (message_of s) }

deserialize-serialize_example :
    let e = with_source (Make.new timeout "late") (portable (message_of "card declined")) in
    let stored = serialize_workflow_error messages e portable_serializer_name in
    (out : DbosError) × (deserialize_workflow_error messages (some stored) portable_serializer_name
      ≡ some out)
    × (portable_from_source out ≡ some (message_of "card declined"))
    × (serialize_workflow_error messages out portable_serializer_name ≡ stored)
unfolding with_source portable_from_source ◌==◌
deserialize-serialize_example =
    deserialize-serialize messages
      (with_source (Make.new timeout "late") (portable (message_of "card declined")))
      (message_of "card declined") "card declined" refl refl refl refl
