-- ===== src/Status/Laws.antt =====
-- Statuses and the status column's text (crates/dbos-core/src/db/mod.rs).
use dbos_transact_rust.Prelude.{String, ◌≡◌, refl, ◌↔◌, true, some, arith, ==_iff, ◌==◌}
use dbos_transact_rust.Status.{
  WorkflowStatusType, pending, enqueued, delayed, success, error, cancelled,
  max_recovery_attempts_exceeded, as_str, parse, ◌is◌,
}

pub parse-as_str : (t : WorkflowStatusType) → parse (as_str t) ≡ some t
unfolding parse as_str ◌==◌
parse-as_str pending = refl
parse-as_str enqueued = refl
parse-as_str delayed = refl
parse-as_str success = refl
parse-as_str error = refl
parse-as_str cancelled = refl
parse-as_str max_recovery_attempts_exceeded = refl

as_str-parse : (s : String) (t : WorkflowStatusType) → parse s ≡ some t → s ≡ as_str t
unfolding parse as_str
as_str-parse s t h = ground (
  arith,
  ==_iff s "PENDING",
  ==_iff s "ENQUEUED",
  ==_iff s "DELAYED",
  ==_iff s "SUCCESS",
  ==_iff s "ERROR",
  ==_iff s "CANCELLED",
  ==_iff s "MAX_RECOVERY_ATTEMPTS_EXCEEDED",
)

-- A text is read as a status exactly when it is the text that the status is written as.
pub parse_iff : (s : String) (t : WorkflowStatusType) → (parse s ≡ some t) ↔ (s ≡ as_str t)
parse_iff s t = (as_str-parse s t, λ e. rw e (parse-as_str t))

pub is_iff : (a b : WorkflowStatusType) → ((a is b) ≡ true) ↔ (a ≡ b)
is_iff a b = ground arith

pub is_refl : (a : WorkflowStatusType) → (a is a) ≡ true
is_refl a = (is_iff a a).1 refl
