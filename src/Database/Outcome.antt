-- ===== src/Database/Outcome.antt =====
-- The outcome of a fallible operation, and the mapping of driver errors
-- (crates/dbos-core/src/db/sqlite.rs).
use dbos_transact_rust.Prelude.{
  String, Option, none, some, [], ◌∷◌, concat, if◌then◌else◌, is_empty,
}
use dbos_transact_rust.Error.{workflow_execution}
use dbos_transact_rust.Error.Chain.{DbosError, SqlxError, database, sqlx, with_source}
use dbos_transact_rust.Error.Make.{new}

pub data Result {ℓ} (A : Type ℓ) : Type ℓ where
  ok : A → Result A
  err : DbosError → Result A

infixl 5 ◌>>=◌
abbrev pub ◌>>=◌ {ℓ κ} : {A : Type ℓ} {B : Type κ} → Result A → (A → Result B) → Result B
ok a >>= f = f a
err e >>= f = err e

-- A driver error and the text that it displays, under what the operation was doing.
abbrev pub sql_err : String → String → SqlxError → DbosError
unfolding with_source
sql_err context text e =
    with_source (new workflow_execution (concat (context ∷ ": " ∷ text ∷ []))) (sqlx e)

-- SQLITE_CONSTRAINT_FOREIGNKEY, with its text.
abbrev pub foreign_key_violation : String → DbosError
unfolding with_source
foreign_key_violation context =
    sql_err context "error returned from database: (code: 787) FOREIGN KEY constraint failed"
      (database (some "787"))

-- The closure `opt`: an empty text is stored as NULL.
abbrev pub opt : String → Option String
opt v = if is_empty v then none else some v

-- `unwrap_or_default` on a text.
abbrev pub or_default : Option String → String
or_default none = ""
or_default (some s) = s
