-- ===== src/Error/Code.antt =====
-- `DbosErrorCode` of crates/dbos-core/src/error.rs.
use mathlib.Core.Bool.{decide, decide_iff}
use dbos_transact_rust.Prelude.{ℕ, ◌≡◌, ◌↔◌, Bool, true}

pub data DbosErrorCode : Type 0 where
  conflicting_id initialization non_existent_workflow conflicting_workflow workflow_cancelled :
      DbosErrorCode
  unexpected_step awaited_workflow_cancelled conflicting_registration : DbosErrorCode
  workflow_unexpected_type workflow_execution step_execution dead_letter_queue : DbosErrorCode
  max_step_retries_exceeded queue_deduplicated patching_not_enabled timeout : DbosErrorCode
  no_application_versions : DbosErrorCode

-- `*self as i32`.
unfoldable pub number : DbosErrorCode → ℕ
number conflicting_id = 1
number initialization = 2
number non_existent_workflow = 3
number conflicting_workflow = 4
number workflow_cancelled = 5
number unexpected_step = 6
number awaited_workflow_cancelled = 7
number conflicting_registration = 8
number workflow_unexpected_type = 9
number workflow_execution = 10
number step_execution = 11
number dead_letter_queue = 12
number max_step_retries_exceeded = 13
number queue_deduplicated = 14
number patching_not_enabled = 15
number timeout = 16
number no_application_versions = 17

unfoldable DbosErrorCode-discrete : Discrete DbosErrorCode
DbosErrorCode-discrete = hlevel

-- The derived `==`.
unfoldable pub code_eq : DbosErrorCode → DbosErrorCode → Bool
unfolding DbosErrorCode-discrete decide
code_eq a b = decide (DbosErrorCode-discrete a b)

pub code_eq_iff : (a b : DbosErrorCode) → (code_eq a b ≡ true) ↔ (a ≡ b)
unfolding code_eq
code_eq_iff a b = decide_iff (DbosErrorCode-discrete a b)
