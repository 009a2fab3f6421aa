-- ===== src/SystemDb.antt =====
-- The SQLite implementation of `SystemDatabase` (crates/dbos-core/src/db/sqlite.rs). An operation
-- maps the database to its result and the database after it; a transaction that is dropped on an
-- error leaves the database as it was. The clock readings and fresh ids that an operation takes
-- are arguments.
pub mod Insert
pub mod Outcome
pub mod Steps
pub mod Queue
pub mod Manage
pub mod Comms
pub mod Invariant
pub mod Transitions
pub mod Run
pub mod Listing
pub mod Schedules
pub mod Reports
