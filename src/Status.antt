-- ===== src/Status.antt =====
-- `WorkflowStatusType` of crates/dbos-core/src/db/mod.rs: the status column and its text.
pub mod Laws
use mathlib.Core.Bool.{decide}
use dbos_transact_rust.Prelude.{String, Bool, true, false, Option, none, some, if◌then◌else◌, ◌==◌}

pub data WorkflowStatusType : Type 0 where
  pending enqueued delayed success error cancelled max_recovery_attempts_exceeded :
      WorkflowStatusType

unfoldable pub as_str : WorkflowStatusType → String
as_str pending = "PENDING"
as_str enqueued = "ENQUEUED"
as_str delayed = "DELAYED"
as_str success = "SUCCESS"
as_str error = "ERROR"
as_str cancelled = "CANCELLED"
as_str max_recovery_attempts_exceeded = "MAX_RECOVERY_ATTEMPTS_EXCEEDED"

unfoldable pub parse : String → Option WorkflowStatusType
parse s =
    if s == "PENDING"
    then some pending
    else if s == "ENQUEUED"
    then some enqueued
    else if s == "DELAYED"
    then some delayed
    else if s == "SUCCESS"
    then some success
    else if s == "ERROR"
    then some error
    else if s == "CANCELLED"
    then some cancelled
    else if s == "MAX_RECOVERY_ATTEMPTS_EXCEEDED"
    then some max_recovery_attempts_exceeded
    else none

unfoldable pub is_terminal : WorkflowStatusType → Bool
is_terminal success = true
is_terminal error = true
is_terminal cancelled = true
is_terminal _ = false

-- The derived `==`.
infix 50 ◌is◌
abbrev pub ◌is◌ : WorkflowStatusType → WorkflowStatusType → Bool
pending is pending = true
enqueued is enqueued = true
delayed is delayed = true
success is success = true
error is error = true
cancelled is cancelled = true
max_recovery_attempts_exceeded is max_recovery_attempts_exceeded = true
_ is _ = false
