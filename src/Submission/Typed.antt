-- ===== src/Submission/Typed.antt =====
-- Typed submissions, `run_workflow` (crates/dbos-core/src/workflow/run.rs), and the wrapper around
-- a registered body, `register_workflow_opts` (crates/dbos-core/src/workflow/mod.rs).
pub mod Faithful
use dbos_transact_rust.Prelude.{
  ℕ, ℤ, pos, String, Bool, true, false, ◌==◌, Option, none, some, List, [], ◌∷◌, concat,
  if◌then◌else◌,
}
use dbos_transact_rust.Error.{workflow_execution}
use dbos_transact_rust.Error.Chain.{DbosError}
use dbos_transact_rust.Error.Make
use dbos_transact_rust.Database.{Result, ok, err, ◌>>=◌}
use dbos_transact_rust.Database.Schema.{Database}
use dbos_transact_rust.SystemDb.Insert.{get_or}
use dbos_transact_rust.SystemDb.Queue.{is_some}
use dbos_transact_rust.Serialization.{
  Codecs, Typed, Serializer, portable_serializer_name, lift, resolve_encoder, resolve_decoder,
  encode, decode,
}
use dbos_transact_rust.Serialization.Arguments.{
  Envelopes, encode_portable_args, decode_portable_args,
}
use dbos_transact_rust.Step.{WorkflowState}
use dbos_transact_rust.Submission.{
  entry_of, Draws, no_flags, RunOptions, RunFlags, ChildSpawn, Engine, ErasedHandle,
  run_workflow_erased,
}

-- Registration-time options, less the cron schedule.
pub record RegisterOptions : Type 0 where
  pub max_retries : ℤ
  pub custom_name : Option String

-- `RegisterOptions::default()`
abbrev pub default_registration : RegisterOptions
default_registration = record { max_retries = pos 100; custom_name = none }

-- The registration of a workflow, less its body.
unfoldable pub register_workflow_opts :
    Bool → String → RegisterOptions → Engine → Result (Unit {0}) × Engine
register_workflow_opts launched name opts engine =
    let key = get_or name opts.custom_name in
    if launched
    then (
      err (Make.initialization "cannot register a workflow after the context has been launched"),
      engine,
    )
    else if is_some (entry_of key engine.registry)
    then (err (Make.conflicting_registration key), engine)
    else (
      ok tt,
      record engine {
        registry =
            (
              key,
              record {
                name = key;
                max_retries = opts.max_retries;
                class_name = "";
                config_name = none;
              },
            )
            ∷ engine.registry;
      },
    )

-- How a body ends; a panic is caught.
pub data BodyEnd (R : Type 0) : Type 0 where
  returned : Result R → BodyEnd R
  panicked : BodyEnd R

module _ {R V : Type 0} (c : Codecs V) (custom : Option (Serializer V)) (u : Typed R V) where
  -- What the body ended with, as the stored output.
  unfoldable pub output_of : WorkflowState → BodyEnd R → Result (Option String)
  output_of s (returned (ok r)) = encode u (resolve_encoder c s.is_portable custom) r
  output_of s (returned (err e)) = err e
  output_of s panicked = err (
      Make.new workflow_execution
        (concat ("Workflow " ∷ s.workflow_id ∷ " execution error: workflow panicked" ∷ [])))

  abbrev pub ended : {S : Type 0} → WorkflowState → BodyEnd R × S → Result (Option String) × S
  unfolding output_of
  ended s (end, w) = (output_of s end, w)

abbrev pub tagged : String → Result (Option String) → Result (Option String × String)
tagged tag (err e) = err e
tagged tag (ok s) = ok (s, tag)

module _ {P V : Type 0} (c : Codecs V) (custom : Option (Serializer V)) (envelopes : Envelopes V)
    (t : Typed P V) where
  -- The stored input and its tag.
  unfoldable pub encode_input : Bool → P → Result (Option String × String)
  encode_input true input =
      tagged portable_serializer_name (encode_portable_args c envelopes t input)
  encode_input false input =
      let encoder = resolve_encoder c false custom in tagged encoder.name (encode t encoder input)

  unfoldable pub decode_input : Option String → String → Result P
  decode_input input tag =
      if tag == portable_serializer_name
      then decode_portable_args c envelopes t input
      else lift (resolve_decoder c tag custom) >>= λ decoder. decode t decoder input

  -- The submission of an encoded input.
  abbrev pub submit :
      Engine
      → String
      → RunOptions
      → Option ChildSpawn
      → Draws
      → Database
      → Result (Option String × String)
      → Result ErasedHandle × Engine × Database
  submit engine name opts child drawn db (err e) = (err e, engine, db)
  submit engine name opts child drawn db (ok (encoded, tag)) =
      run_workflow_erased engine name encoded tag opts no_flags child drawn.fresh_id drawn.owner_xid
        drawn.clock db

  unfoldable pub run_workflow :
      Engine → String → P → RunOptions → Draws → Database → Result ErasedHandle × Engine × Database
  unfolding encode_input
  run_workflow engine name input opts drawn db =
      submit engine name opts none drawn db (encode_input opts.portable input)

  module _ {R S : Type 0} (u : Typed R V) where
    abbrev pub called :
        WorkflowState → (P → S → BodyEnd R × S) → S → Result P → Result (Option String) × S
    called s f w (err e) = (err e, w)
    called s f w (ok input) = ended c custom u s (f input w)

    -- The registered function. The body `f` also changes `S`: the database, and the world.
    unfoldable pub erased :
        (P → S → BodyEnd R × S)
        → WorkflowState
        → Option String
        → String
        → S
        → Result (Option String) × S
    unfolding decode_input
    erased f s input tag w = called s f w (decode_input input tag)
