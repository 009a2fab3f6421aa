-- ===== src/Debouncer.antt =====
-- The debouncer (crates/dbos-core/src/debouncer.rs): a call of `debounce`, which starts the
-- internal workflow of its key or sends it the input. `Body` is the internal workflow.
pub mod Body
pub mod Capped
pub mod Slot
use dbos_transact_rust.Prelude.{
  ℕ, zero, suc, ◌+◌, String, Bool, true, false, ◌⊎◌, inl, inr, Option, none, some, List, [], ◌∷◌,
  concat, if◌then◌else◌,
}
use dbos_transact_rust.Error.{queue_deduplicated}
use dbos_transact_rust.Error.Chain.{DbosError, is_code}
use dbos_transact_rust.Error.Make
use dbos_transact_rust.Database.{Result, ok, err}
use dbos_transact_rust.Database.Types.{WorkflowStatus}
use dbos_transact_rust.Database.Schema.{Database}
use dbos_transact_rust.SystemDb.Insert.{get_or}
use dbos_transact_rust.Submission.Typed.{default_registration, register_workflow_opts}
use dbos_transact_rust.SystemDb.Queue.{is_some, get_deduplicated_workflow}
use dbos_transact_rust.SystemDb.Manage.{internal_queue_name}
use dbos_transact_rust.SystemDb.Listing.{get_workflow_status}
use dbos_transact_rust.Serialization.{
  Codecs, Typed, Serializer, resolve_encoder, resolve_decoder, encode, decode, lift,
}
use dbos_transact_rust.Submission.{
  entry_of, RunOptions, Engine, ErasedHandle, Draws, default_options, no_flags, run_workflow_erased,
}
use dbos_transact_rust.Messaging.Sending.{send}
use dbos_transact_rust.Messaging.Events.{poll_event}

abbrev pub debouncer_topic : String
debouncer_topic = "_dbos_debouncer_topic"

-- In milliseconds.
abbrev pub ack_timeout : ℕ
ack_timeout = 2000

pub record DebouncerInput (P : Type 0) : Type 0 where
  pub initial_input : P
  pub target_workflow_name : String
  pub target_workflow_id : String
  pub delay_ms : ℕ
  pub timeout_ms : ℕ

-- An empty `id` expects no answer.
pub record DebounceMessage (P : Type 0) : Type 0 where
  pub input : P
  pub delay_ms : ℕ
  pub id : String

pub record Debouncer : Type 0 where
  pub target_workflow_name : String
  pub internal_name : String
  pub timeout : ℕ

-- `serde` of what the debouncer stores.
pub record Stored (P V : Type 0) : Type 0 where
  pub inputs : Typed P V
  pub starts : Typed (DebouncerInput P) V
  pub messages : Typed (DebounceMessage P) V
  pub answers : Typed Bool V
  pub moments : Typed ℕ V

-- The internal workflow is registered once.
unfoldable pub register_internal_debouncer : String → Engine → Result (Unit {0}) × Engine
unfolding register_workflow_opts
register_internal_debouncer name engine =
    if is_some (entry_of name engine.registry)
    then (ok tt, engine)
    else register_workflow_opts false name default_registration engine

abbrev pub built : Debouncer → Result (Unit {0}) × Engine → Result Debouncer × Engine
built debouncer (err e, engine) = (err e, engine)
built debouncer (ok u, engine) = (ok debouncer, engine)

unfoldable pub new_debouncer : Bool → String → ℕ → Engine → Result Debouncer × Engine
unfolding register_internal_debouncer
new_debouncer launched target timeout engine =
    let internal_name = concat ("_dbos_internal_debouncer_" ∷ target ∷ []) in
    if launched
    then (
      err (Make.initialization "cannot create a debouncer after the context has been launched"),
      engine,
    )
    else built
        (record { target_workflow_name = target; internal_name = internal_name; timeout = timeout })
        (register_internal_debouncer internal_name engine)

abbrev pub dedup_of : String → String
dedup_of key = concat ("_dbos_debounce_" ∷ key ∷ [])

-- The options of the internal workflow of a key.
unfoldable pub cycle_options : String → String → RunOptions
cycle_options internal_id dedup_id = record default_options {
  workflow_id = some internal_id;
  queue = some internal_queue_name;
  deduplication_id = some dedup_id;
}

-- What one round of the loop draws, and what goes on while it waits for the answer.
pub record Round : Type 0 where
  pub internal_id : String
  pub target_uuid : String
  pub message_id : String
  pub message_uuid : String
  pub draws : Draws
  pub sent_at : ℕ
  pub waits_from : ℕ
  pub others : ℕ → Database → Database
  pub clock : ℕ → ℕ
  pub stops : ℕ → Bool
  pub fuel : ℕ

-- A round ends the loop with the id of the target, or is followed by another one; `cut` is a wait
-- that the fuel cut short.
pub data Ending : Type 0 where
  ends : Result String → Engine → Database → Ending
  again : Engine → Database → Ending
  cut : Ending

abbrev pub target_of : Round → String
target_of r = concat ("_dbos_debounce_target_" ∷ r.target_uuid ∷ [])

abbrev pub started : {P : Type 0} → Debouncer → ℕ → P → Round → DebouncerInput P
started debouncer delay input r = record {
  initial_input = input;
  target_workflow_name = debouncer.target_workflow_name;
  target_workflow_id = target_of r;
  delay_ms = delay;
  timeout_ms = debouncer.timeout;
}

module _ {P V : Type 0} (c : Codecs V) (custom : Option (Serializer V)) (stored : Stored P V) where
  -- A failure to decode is no id.
  abbrev id_of : Result (DebouncerInput P) → Option String
  id_of (err e) = none
  id_of (ok d) = some d.target_workflow_id

  abbrev decoded_by : String → Result (Serializer V) → Option String
  decoded_by raw (err e) = none
  decoded_by raw (ok decoder) = id_of (decode stored.starts decoder (some raw))

  unfoldable pub decode_target_id : String → String → Option String
  decode_target_id raw tag = decoded_by raw (lift (resolve_decoder c tag custom))

  abbrev pub target_in : Option WorkflowStatus → Option String
  unfolding decode_target_id
  target_in none = none
  target_in (some s) = elim s.input [
    | none ↦ none
    | some raw ↦ decode_target_id raw s.serialization
  ]

  -- Once the answer is there, or not.
  abbrev pub answered : String → String → Engine → Option (Result (Option Bool) × Database) → Ending
  answered existing target_id engine none = cut
  answered existing target_id engine (some (err e, db)) = ends (err e) engine db
  answered existing target_id engine (some (ok none, db)) = again engine db
  answered existing target_id engine (some (ok (some acked), db)) =
      ends (ok (get_or target_id (target_in (get_workflow_status existing db)))) engine db

  abbrev pub told : String → String → Round → Engine → Result (Unit {0}) × Database → Ending
  told existing target_id r engine (err e, db) = ends (err e) engine db
  told existing target_id r engine (ok u, db) = answered existing target_id engine (
      poll_event c custom stored.answers existing r.message_id (r.waits_from + ack_timeout) r.others
        r.clock r.stops r.fuel 0 db)

  -- The slot is held: send the holder the input.
  unfoldable pub attach : ℕ → P → String → Round → Engine → Database → Option String → Ending
  unfolding target_in
  attach delay input target_id r engine db none = again engine db
  attach delay input target_id r engine db (some existing) = told existing target_id r engine (
      send c custom stored.messages existing
        (record { input = input; delay_ms = delay; id = r.message_id }) debouncer_topic
        r.message_uuid r.sent_at db)

  unfoldable pub after_submission :
      String → ℕ → P → String → Round → Result ErasedHandle × Engine × Database → Ending
  unfolding attach
  after_submission dedup_id delay input target_id r (ok h, engine, db) =
      ends (ok target_id) engine db
  after_submission dedup_id delay input target_id r (err e, engine, db) =
      if is_code e queue_deduplicated
      then attach delay input target_id r engine db
          (get_deduplicated_workflow internal_queue_name dedup_id db)
      else ends (err e) engine db

  abbrev submitted :
      Debouncer
      → String
      → Round
      → Engine
      → Database
      → Result (Option String)
      → Result ErasedHandle × Engine × Database
  submitted debouncer dedup_id r engine db (err e) = (err e, engine, db)
  submitted debouncer dedup_id r engine db (ok encoded) =
      run_workflow_erased engine debouncer.internal_name encoded
        (resolve_encoder c false custom).name (cycle_options r.internal_id dedup_id) no_flags none
        r.draws.fresh_id r.draws.owner_xid r.draws.clock db

  abbrev round_with :
      Debouncer → String → ℕ → P → Round → Engine → Database → Result (Option String) → Ending
  unfolding after_submission cycle_options
  round_with debouncer key delay input r engine db (err e) = ends (err e) engine db
  round_with debouncer key delay input r engine db (ok encoded) =
      after_submission (dedup_of key) delay input (target_of r) r
        (submitted debouncer (dedup_of key) r engine db (ok encoded))

  -- One round of the loop.
  unfoldable pub debounce_round : Debouncer → String → ℕ → P → Round → Engine → Database → Ending
  unfolding round_with
  debounce_round debouncer key delay input r engine db =
      round_with debouncer key delay input r engine db
        (encode stored.starts (resolve_encoder c false custom) (started debouncer delay input r))

  abbrev or_again :
      (Engine → Database → Option (Result String × Engine × Database))
      → Ending
      → Option (Result String × Engine × Database)
  or_again later (ends r engine db) = some (r, engine, db)
  or_again later (again engine db) = later engine db
  or_again later cut = none

  -- The loop; `rounds n` is the `n`-th round still to come, and `none` a loop that goes on.
  unfoldable pub debounce :
      Debouncer
      → String
      → ℕ
      → P
      → ℕ
      → (ℕ → Round)
      → Engine
      → Database
      → Option (Result String × Engine × Database)
  unfolding debounce_round
  debounce debouncer key delay input zero rounds engine db = none
  debounce debouncer key delay input (suc fuel) rounds engine db =
      or_again (debounce debouncer key delay input fuel (λ n. rounds (suc n)))
        (debounce_round debouncer key delay input (rounds 0) engine db)
