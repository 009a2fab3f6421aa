-- ===== src/Debouncer/Body.antt =====
-- The internal workflow of the debouncer (crates/dbos-core/src/debouncer.rs).
use dbos_transact_rust.Prelude.{
  ℕ, zero, suc, ◌+◌, ◌-◌, ltb, leb, String, true, false, ◌&&◌, is_empty, Option, none, some,
  if◌then◌else◌,
}
use dbos_transact_rust.Database.{Result, ok, err}
use dbos_transact_rust.Database.Schema.{Database}
use dbos_transact_rust.SystemDb.Manage.{internal_queue_name}
use dbos_transact_rust.Serialization.{Codecs, Serializer, resolve_encoder, encode}
use dbos_transact_rust.Step.{WorkflowState, Times, Body, run_step}
use dbos_transact_rust.Submission.{
  RunOptions, Engine, ErasedHandle, Draws, default_options, no_flags, run_workflow_erased,
}
use dbos_transact_rust.Messaging.{Meanwhile, set_event_step}
use dbos_transact_rust.Messaging.Receive.{Surroundings, recv}
use dbos_transact_rust.Debouncer.{DebouncerInput, DebounceMessage, Stored, debouncer_topic}

-- What a round of the loop reads of the clock, and what goes on meanwhile.
pub record Moment : Type 0 where
  pub now : ℕ
  pub between : Database → Database
  pub step_times : Times
  pub described : String
  pub recv_times : Times
  pub env : Surroundings
  pub ack_times : Times
  pub others : Meanwhile

-- The input that the target will run on, and when.
pub record Pending (P : Type 0) : Type 0 where
  pub current_input : P
  pub target_start : ℕ

-- A timeout of zero is no cap.
unfoldable pub capped : ℕ → ℕ → ℕ → ℕ
capped timeout max_start target =
    if ltb 0 timeout && ltb max_start target then max_start else target

module _ {P V : Type 0} (c : Codecs V) (custom : Option (Serializer V)) (stored : Stored P V) where
  -- A reading of the clock, as a step.
  unfoldable pub clock_step :
      String → Moment → WorkflowState → Database → (Result ℕ × Database) × WorkflowState
  clock_step name m s db =
      let read : Body ℕ (Unit {0}) = λ ctx (d, w). (ok m.now, (m.between d, w)) in
      let q = run_step c custom stored.moments false name read m.step_times s db tt in
      ((q.0.0, q.0.1.0), q.1)

  -- A failure to answer is logged.
  unfoldable pub acknowledge :
      DebounceMessage P → Moment → WorkflowState → Database → Database × WorkflowState
  acknowledge msg m s db =
      if is_empty msg.id
      then (db, s)
      else let q =
          set_event_step c custom stored.answers false msg.id true m.ack_times m.others s db in
        (q.0.1, q.1)

  unfoldable pub pushed_back : ℕ → ℕ → ℕ → DebounceMessage P → Pending P
  unfolding capped
  pushed_back timeout max_start now msg = record {
    current_input = msg.input;
    target_start = capped timeout max_start (now + msg.delay_ms);
  }

  abbrev pub Collected : Type 0
  Collected = Option ((Result (Pending P) × Database) × WorkflowState)

  -- Once a message was waited for; a failure ends the loop as a timeout does.
  unfoldable pub after_recv :
      (Pending P → WorkflowState → Database → Collected)
      → ℕ
      → ℕ
      → ℕ
      → Pending P
      → Moment
      → Option (Result (DebounceMessage P) × Database) × WorkflowState
      → Collected
  unfolding acknowledge pushed_back
  after_recv later timeout max_start now p m (none, s) = none
  after_recv later timeout max_start now p m (some (err e, db), s) = some ((ok p, db), s)
  after_recv later timeout max_start now p m (some (ok msg, db), s) =
      let (db', s') = acknowledge msg m s db in later (pushed_back timeout max_start now msg) s' db'

  unfoldable pub after_clock :
      (Pending P → WorkflowState → Database → Collected)
      → ℕ
      → ℕ
      → Pending P
      → Moment
      → (Result ℕ × Database) × WorkflowState
      → Collected
  unfolding after_recv
  after_clock later timeout max_start p m ((err e, db), s) = some ((err e, db), s)
  after_clock later timeout max_start p m ((ok now, db), s) =
      if leb p.target_start now
      then some ((ok p, db), s)
      else after_recv later timeout max_start now p m (
          recv c custom stored.messages stored.moments false debouncer_topic (p.target_start - now)
            m.described m.recv_times m.env s db)

  -- The collect-and-delay loop; `none` is a loop or a wait that the fuel cut short.
  unfoldable pub collect :
      ℕ → ℕ → ℕ → (ℕ → Moment) → Pending P → WorkflowState → Database → Collected
  unfolding clock_step after_clock
  collect timeout max_start zero moments p s db = none
  collect timeout max_start (suc fuel) moments p s db =
      after_clock (collect timeout max_start fuel (λ n. moments (suc n))) timeout max_start p
        (moments 0) (clock_step "DBOS.debounce.loopTime" (moments 0) s db)

  abbrev pub target_options : String → RunOptions
  target_options id = record default_options {
    workflow_id = some id;
    queue = some internal_queue_name;
  }

  abbrev done : Result ErasedHandle × Engine × Database → Result (Unit {0}) × Engine × Database
  done (err e, engine, db) = (err e, engine, db)
  done (ok h, engine, db) = (ok tt, engine, db)

  abbrev enqueued_target :
      DebouncerInput P
      → WorkflowState
      → Draws
      → Engine
      → Database
      → Result (Option String)
      → Result (Unit {0}) × Engine × Database
  enqueued_target input s draws engine db (err e) = (err e, engine, db)
  enqueued_target input s draws engine db (ok encoded) = done (
      run_workflow_erased engine input.target_workflow_name encoded
        (resolve_encoder c s.is_portable custom).name (target_options input.target_workflow_id)
        no_flags none draws.fresh_id draws.owner_xid draws.clock db)

  unfoldable pub enqueue_target :
      DebouncerInput P
      → Draws
      → Engine
      → Result (Pending P) × Database
      → WorkflowState
      → Result (Unit {0}) × Engine × Database
  enqueue_target input draws engine (err e, db) s = (err e, engine, db)
  enqueue_target input draws engine (ok p, db) s =
      enqueued_target input s draws engine db
        (encode stored.inputs (resolve_encoder c s.is_portable custom) p.current_input)

  -- From the first reading of the clock on.
  unfoldable pub collect_from :
      DebouncerInput P → ℕ → (ℕ → Moment) → (Result ℕ × Database) × WorkflowState → Collected
  unfolding collect capped
  collect_from input fuel moments ((err e, db), s) = some ((err e, db), s)
  collect_from input fuel moments ((ok start, db), s) =
      collect input.timeout_ms (start + input.timeout_ms) fuel moments
        (record {
          current_input = input.initial_input;
          target_start =
              capped input.timeout_ms (start + input.timeout_ms) (start + input.delay_ms);
        })
        s db

  abbrev finished :
      DebouncerInput P → Draws → Engine → Collected → Option (Result (Unit {0}) × Engine × Database)
  unfolding enqueue_target
  finished input draws engine none = none
  finished input draws engine (some (q, s)) = some (enqueue_target input draws engine q s)

  unfoldable pub internal_debouncer_body :
      DebouncerInput P
      → ℕ
      → Moment
      → (ℕ → Moment)
      → Draws
      → WorkflowState
      → Engine
      → Database
      → Option (Result (Unit {0}) × Engine × Database)
  unfolding collect_from clock_step finished
  internal_debouncer_body input fuel first_moment moments draws s engine db =
      finished input draws engine
        (collect_from input fuel moments (clock_step "DBOS.debounce.startTime" first_moment s db))
