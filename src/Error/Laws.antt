-- ===== src/Error/Laws.antt =====
-- What callers rely on about error codes (crates/dbos-core/src/error.rs).
use dbos_transact_rust.Prelude.{String, ◌≡◌, true, arith}
use dbos_transact_rust.Error.Code.{DbosErrorCode}
use dbos_transact_rust.Error.Chain.{DbosError, is_code}
use dbos_transact_rust.Error.Make.{step_execution_dbos}

-- Wrapping a database error in a step error keeps every code that the wrapped error answers to.
pub is_code-step_execution_dbos :
    (id name : String) (e : DbosError) (k : DbosErrorCode)
    → is_code e k ≡ true
    → is_code (step_execution_dbos id name e) k ≡ true
unfolding is_code step_execution_dbos
is_code-step_execution_dbos id name e k h = ground arith
