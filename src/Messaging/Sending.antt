-- ===== src/Messaging/Sending.antt =====
-- What a workflow or another caller sends, and what a stream's reader decodes
-- (crates/dbos-core/src/workflow/comms.rs).
use dbos_transact_rust.Prelude.{
  ℕ, pos, String, Bool, false, Option, some, List, [], ◌∷◌, if◌then◌else◌,
}
use dbos_transact_rust.Database.{Result, ok, err, ◌>>=◌}
use dbos_transact_rust.Database.Schema.{Database}
use dbos_transact_rust.SystemDb.Comms.{send_notification, read_stream}
use dbos_transact_rust.Serialization.{
  Codecs, Typed, Serializer, resolve_encoder, resolve_decoder, encode, decode, lift,
}
use dbos_transact_rust.Step.{WorkflowState, Body, Times, run_step}
use dbos_transact_rust.Messaging.{resolve_topic, within_step_error, encoded_or}

module _ {P V : Type 0} (c : Codecs V) (custom : Option (Serializer V)) (t : Typed P V) where
  -- The body of the step that `send` runs; `uuid` is fresh.
  unfoldable pub delivery :
      String → String → Option String → String → String → ℕ → Body (Unit {0}) (Unit {0})
  unfolding resolve_topic
  delivery dest topic encoded serialization uuid now ctx (db, w) =
      let (r, db') =
        send_notification dest (resolve_topic topic) encoded serialization uuid now db in
      (r, (db', w))

  abbrev pub send_encoded :
      Typed (Unit {0}) V
      → Result (Option String)
      → String
      → String
      → String
      → ℕ
      → Times
      → WorkflowState
      → Database
      → (Result (Unit {0}) × Database) × WorkflowState
  unfolding delivery
  send_encoded units (err e) dest topic uuid now times s db = ((err e, db), s)
  send_encoded units (ok encoded) dest topic uuid now times s db =
      let encoder = resolve_encoder c s.is_portable custom in
      let q =
        run_step c custom units false "DBOS.send"
          (delivery dest topic encoded encoder.name uuid now) times s db tt in
      ((q.0.0, q.0.1.0), q.1)

  -- `send` of a workflow. `units` is how `()`, the result of the step, is stored.
  unfoldable pub send_step :
      Typed (Unit {0}) V
      → Bool
      → String
      → P
      → String
      → String
      → ℕ
      → Times
      → WorkflowState
      → Database
      → (Result (Unit {0}) × Database) × WorkflowState
  unfolding send_encoded
  send_step units within dest message topic uuid now times s db =
      if within
      then (
        (err (within_step_error s.workflow_id "DBOS.send" "cannot call Send within a step"), db),
        s,
      )
      else send_encoded units (encode t (resolve_encoder c s.is_portable custom) message) dest topic
          uuid now times s db

  -- `send` from outside a workflow.
  unfoldable pub send : String → P → String → String → ℕ → Database → Result (Unit {0}) × Database
  unfolding resolve_topic
  send dest message topic uuid now db =
      let encoder = resolve_encoder c false custom in
      encoded_or (encode t encoder message)
        (λ encoded. send_notification dest (resolve_topic topic) encoded encoder.name uuid now) db

  -- The decoding loop of `read_stream`.
  unfoldable pub decode_entries : List (String × ℕ × String) → Result (List P)
  decode_entries [] = ok []
  decode_entries ((value, position, serialization) ∷ entries) =
      lift (resolve_decoder c serialization custom) >>= λ decoder.
      decode t decoder (some value) >>= λ v. decode_entries entries >>= λ vs. ok (v ∷ vs)

  unfoldable pub read_stream_values : String → String → Database → Result (List P × Bool)
  unfolding decode_entries
  read_stream_values id key db =
      let (entries, closed) = read_stream id key (pos 0) db in
      decode_entries entries >>= λ values. ok (values, closed)
