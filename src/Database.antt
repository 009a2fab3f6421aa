-- ===== src/Database.antt =====
-- The system database: the tables of crates/dbos-core/migrations/0001_initial_schema.sql that the
-- program reads or writes, the inputs and results of crates/dbos-core/src/db/mod.rs, and the
-- errors of crates/dbos-core/src/db/sqlite.rs.
mod Outcome
pub mod Types
pub mod Schema
pub use Outcome.{Result, ok, err, ◌>>=◌, sql_err, foreign_key_violation, opt, or_default}
