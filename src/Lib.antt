-- ===== src/Lib.antt =====
-- A model of the core of dbos-transact-rust, a library for durable workflows: a workflow is an
-- async function whose status, inputs, steps and outcome are rows of a system database, so that
-- another executor can take it over. Paths below are relative to the repository's root;
-- crates/dbos-core/src is written `core`.
--
-- The program's parts and their modules.
-- - Prelude: natural numbers and integers with Boolean tests, and texts as `format!` builds them.
-- - Status (core/db/mod.rs): `WorkflowStatusType`, `as_str`, `parse`, `is_terminal`.
-- - Error (core/error.rs): the codes, `DbosError` with its source chain (`Error/Chain`), and one
--   function per constructor (`Error/Make`). `anyhow`-like sources are the alternatives that the
--   program tells apart; any other error is its text.
-- - Sql: what one SQL statement does to one table. A table is the list of its rows.
-- - Database (core/db/mod.rs, crates/dbos-core/migrations/0001_initial_schema.sql): the inputs
--   and results of the operations, the rows, and the database as a record of six tables.
-- - SystemDb (core/db/sqlite.rs): one function per operation of `SqliteDb`, from the database to
--   its result and the database after it. `Insert` is `insert_workflow_status`, cut where the
--   transaction goes on or is rolled back; `Outcome` stores and awaits outcomes; `Steps` records and
--   checks step results; `Queue` is the claiming of queued workflows under the concurrency and rate
--   limits; `Manage` cancels, resumes, deletes, forks and collects workflows; `Comms` has
--   notifications, events and streams; `Listing` lists workflows; `Schedules` has the tables of
--   schedules and application versions, and `Reports` the queries that count and dump.
--   `SystemDb/Invariant` says when a database keeps the schema's promises, `SystemDb/Transitions` is
--   the diagram of statuses as an indexed data type, with the moves of each kind of operation, and
--   `SystemDb/Run` makes histories of all the operations.
-- - Retry (core/db/retry.rs): which errors are transient, and the loop that retries them;
--   `Retry/Decorator` is the database whose every method is retried.
-- - Serialization (core/serialization.rs): serializers, their selection by tag, stored errors.
-- - Step (core/workflow/step.rs, core/context/state.rs): `run_step` and `run_step_opts` on top of
--   `SystemDb/Steps` and `Serialization`; `Step/Sleep` is the durable `sleep`.
-- - Submission (core/workflow/run.rs, core/workflow/mod.rs): `run_workflow_erased` inserts the row
--   and decides whether the body starts here; `Submission/Finish` is what its task does with the
--   body's result, and `Submission/Presence` is about the rows that a submission leaves.
--   `Submission/Typed` encodes the inputs of `run_workflow` and wraps a registered body,
--   `Submission/Children` is `run_child_workflow`, and `Submission/Handles`
--   (core/workflow/handle.rs) waits for results. The context is the record `Engine`: the registry
--   without the bodies, the ids of the application, and the active workflows.
-- - Recovery (core/recovery.rs): `recover_pending_workflows`, the loop over the workflows that an
--   executor left PENDING.
-- - Queues (core/queue): registration of queues, and `Queues/Runner`, a round of the runner that
--   claims queued workflows and submits them.
-- - Messaging (core/workflow/comms.rs): what a workflow publishes and closes, each a recorded step;
--   `Messaging/Sending` is what it sends and the decoding of a stream, `Messaging/Receive` is
--   `recv`, with a durable deadline and the polling of `Messaging/Waiting`, and `Messaging/Events`
--   is `get_event`. The calls from outside a workflow stand beside those of a workflow.
-- - Scheduler (core/scheduler): the calls that manage schedules and the reconciler's pass over
--   them, which answers with the firing tasks and with what it does besides; `Scheduler/Firing` is
--   what a tick submits, and the backfill of missed ticks.
-- - Debouncer (core/debouncer.rs): the rounds of `debounce`, which win the slot of a key or send
--   the input to its holder, and `Debouncer/Body`, the internal workflow of a key.
-- - Management (core/workflow/manage.rs): cancelling, resuming, forking and deleting from outside.
-- - Examples: concrete workflows on which the theorems are applied.
--
-- How the source is read.
-- - Times are natural numbers of milliseconds; a clock reading is an argument. Signed values that
--   can be negative (limits, step ids) are integers. Overflow of 64-bit integers is not modelled:
--   the numbers are times, counters and limits far below it.
-- - A driver error other than a constraint that the schema declares does not happen in `SystemDb`;
--   it is what `Retry` is about, where a call's attempts are an arbitrary function.
-- - An operation's statements are not interleaved with those of another operation.
-- - `serde_json`, base64 and the `serde` implementation of a type are the records `Codecs` and
--   `Typed`; what is relied on is `IsFaithful` and `ReadsBack` of `Serialization/Laws`.
-- - A step's body is an arbitrary function that also changes the database, as other executors do
--   while it runs, and the world outside.
-- - The retry loops recurse on fuel: `max_elapsed / 50 + 1` attempts for a database call, since no
--   delay is shorter than 50 ms, and `max_retries + 1` runs for a step. The polling of
--   `await_workflow_result` recurses on the databases that its rounds see. A wait for a message has
--   `ceil(timeout / 50) + 1` rounds, since each sleeps 50 ms or what is left, and a backfill
--   `end - start + 1`, since ticks advance. The walk over the children of a workflow ends when no
--   workflow descends from itself.
-- - Cron specs, RFC 3339 texts, `str::trim`, SQLite's order of texts and the text of a `Duration`
--   are parameters.
-- - While a call of `Messaging` waits, `Surroundings` says what other executors do to the database
--   and what the clock reads; `Meanwhile` says what they do between the operations of a call that
--   publishes.
-- - `ORDER BY created_at` leaves the order of ties open in every query; `order_by` keeps the order of
--   the table.
--
-- Not modelled: core/db/postgres.rs (a second backend with the same operations), the deadline
-- watcher, the interval of the queue runner, the timers that sleep until a schedule's next tick, the
-- context's launch and shutdown, the client, the server in crates/dbos-server and the command line in
-- crates/dbos-cli.
mod Prelude
pub mod Status
pub mod Sql
pub mod Error
pub mod Database
pub mod SystemDb
pub mod Retry
pub mod Serialization
pub mod Step
pub mod Submission
pub mod Recovery
pub mod Messaging
pub mod Scheduler
pub mod Queues
pub mod Debouncer
pub mod Management
mod Examples
