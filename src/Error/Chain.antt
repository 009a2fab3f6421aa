-- ===== src/Error/Chain.antt =====
-- `DbosError`, its source chain and `is_code` (crates/dbos-core/src/error.rs), and the sqlx errors
-- that a chain can hold (db/retry.rs reads them).
use dbos_transact_rust.Prelude.{ℤ, String, Bool, false, ◌||◌, Option, [], ◌∷◌, concat, decimal}
use dbos_transact_rust.Error.Code.{DbosErrorCode, number, code_eq}

-- The variants of `sqlx::Error` that the program tells apart; a database error has its SQLSTATE.
pub data SqlxError : Type 0 where
  database : Option String → SqlxError
  row_not_found type_not_found column_index_out_of_bounds column_not_found : SqlxError
  column_decode decode configuration : SqlxError
  transport : String → SqlxError

-- `code` and `data` are JSON values, held as text.
pub record PortableWorkflowError : Type 0 where
  pub name : String
  pub message : String
  pub code : Option String
  pub details : Option String

-- The optional fields of `DbosError`.
pub record Context : Type 0 where
  pub workflow_id : Option String
  pub destination_id : Option String
  pub step_name : Option String
  pub queue_name : Option String
  pub deduplication_id : Option String
  pub step_id : Option ℤ
  pub expected_name : Option String
  pub recorded_name : Option String
  pub max_retries : Option ℤ

-- `foreign` is any other `std::error::Error`, by its text.
mutual
  pub data DbosError : Type 0 where
    dbos_error : DbosErrorCode → String → Context → Source → DbosError

  pub data Source : Type 0 where
    no_source : Source
    dbos : DbosError → Source
    portable : PortableWorkflowError → Source
    sqlx : SqlxError → Source
    foreign : String → Source

abbrev pub code_of : DbosError → DbosErrorCode
code_of (dbos_error c m x s) = c

abbrev pub message_of : DbosError → String
message_of (dbos_error c m x s) = m

abbrev pub context_of : DbosError → Context
context_of (dbos_error c m x s) = x

abbrev pub source_of : DbosError → Source
source_of (dbos_error c m x s) = s

-- The error's code, or that of a `DbosError` down its chain.
unfoldable mutual
  unfolding code_eq

  pub is_code : DbosError → DbosErrorCode → Bool
  is_code (dbos_error c m x s) k = code_eq c k || source_has_code s k

  pub source_has_code : Source → DbosErrorCode → Bool
  source_has_code no_source k = false
  source_has_code (dbos e) k = is_code e k
  source_has_code (portable p) k = false
  source_has_code (sqlx e) k = false
  source_has_code (foreign t) k = false

-- `Display`.
unfoldable pub display : DbosError → String
display (dbos_error c m x s) = concat ("DBOS Error " ∷ decimal (number c) ∷ ": " ∷ m ∷ [])

-- `==` on errors compares the codes.
unfoldable pub error_eq : DbosError → DbosError → Bool
error_eq a b = code_eq (code_of a) (code_of b)

unfoldable pub with_source : DbosError → Source → DbosError
with_source (dbos_error c m x s) t = dbos_error c m x t
