-- ===== src/Examples/Runs.antt =====
-- A workflow's steps, with a small JSON library.
use dbos_transact_rust.Prelude.{
  ℕ, zero, suc, pos, negsuc, String, ◌≡◌, refl, subst, Bool, true, false, ◌⊎◌, inl, inr, none, [],
  ◌∷◌, ◌==◌, if◌then◌else◌,
}
use dbos_transact_rust.Error.{workflow_execution}
use dbos_transact_rust.Error.Make
use dbos_transact_rust.Status.{pending}
use dbos_transact_rust.Database.{Result, ok, err}
use dbos_transact_rust.Database.Schema.{Database}
use dbos_transact_rust.SystemDb.Insert.{new_row}
use dbos_transact_rust.SystemDb.Steps.{
  record_operation_result, check_operation_execution, check_recorded,
}
use dbos_transact_rust.SystemDb.Run.{promotes, run, apply}
use dbos_transact_rust.SystemDb.Queue.{transition_delayed_workflows}
use dbos_transact_rust.Step.Replay.{run_step_once}
use dbos_transact_rust.Serialization.{Codecs, Typed, resolve_encoder, encode, portable_serializer}
use dbos_transact_rust.Serialization.Laws.{IsFaithful, ReadsBack}
use dbos_transact_rust.Step.{
  WorkflowState, StepCtx, Body, Times, next_step_id, run_step, durable_step, check_step, replay,
  record_input, record_step, execute,
}
use dbos_transact_rust.Step.Retrying.{StepOptions, execute_with_retry}
use dbos_transact_rust.Step.Retrying.Laws.{EndsWithin, execute-EndsWithin}
use dbos_transact_rust.Examples.{row_of, database_of}

-- JSON values without containers.
pub data Value : Type 0 where
  nil yes no : Value

abbrev pub text_of : Value → String ⊎ String
text_of nil = inr "null"
text_of yes = inr "true"
text_of no = inr "false"

abbrev pub value_of : String → String ⊎ Value
value_of s =
    if s == "true"
    then inr yes
    else if s == "false"
    then inr no
    else if s == "null"
    then inr nil
    else inl "expected value"

abbrev pub is_nil : Value → Bool
is_nil nil = true
is_nil _ = false

abbrev pub codecs : Codecs Value
codecs = record {
  is_null = is_nil;
  null = nil;
  to_text = text_of;
  from_text = value_of;
  base64 = λ s. s;
  from_base64 = inr;
  error_to_text = λ e. inr e.message;
  error_from_text = λ s. inl "expected value";
}

abbrev pub bool_of : Value → String ⊎ Bool
bool_of nil = inl "expected a boolean"
bool_of yes = inr true
bool_of no = inr false

abbrev pub booleans : Typed Bool Value
booleans = record { to_value = λ b. inr (if b then yes else no); from_value = bool_of }

same_text : (a s : String) → ◌≡◌ {A = String ⊎ String} (inr a) (inr s) → a ≡ s
same_text a s h = cc h

-- A property of the three texts holds of what a value prints as.
printed :
    (P : Value → String → Type 0)
    → P nil "null"
    → P yes "true"
    → P no "false"
    → (v : Value) (s : String) → text_of v ≡ inr s
    → P v s
printed P a b c nil s h = subst (P nil) (same_text "null" s h) a
printed P a b c yes s h = subst (P yes) (same_text "true" s h) b
printed P a b c no s h = subst (P no) (same_text "false" s h) c

is_nil_only : (v : Value) → is_nil v ≡ true → v ≡ nil
is_nil_only nil h = refl
is_nil_only yes h = absurd (cc h)
is_nil_only no h = absurd (cc h)

pub codecs-IsFaithful : IsFaithful Value codecs
unfolding ◌==◌
codecs-IsFaithful = record {
  null_value = is_nil_only;
  text_parses = printed (λ v s. value_of s ≡ inr v) refl refl refl;
  base64_decodes = λ s. refl;
  base64_no_marker = printed (λ v s. (s == "__DBOS_NIL") ≡ false) refl refl refl;
  only_null = λ v s n h.
      printed (λ v s. is_nil v ≡ false → (s == "null") ≡ false) (λ n. absurd (cc n)) (λ n. refl)
        (λ n. refl) v s h n;
}

pub same_value : (a v : Value) → ◌≡◌ {A = String ⊎ Value} (inr a) (inr v) → a ≡ v
same_value a v h = cc h

pub booleans-ReadsBack : ReadsBack booleans
booleans-ReadsBack true v h = subst (λ w. bool_of w ≡ inr true) (same_value yes v h) refl
booleans-ReadsBack false v h = subst (λ w. bool_of w ≡ inr false) (same_value no v h) refl

abbrev pub at_start : WorkflowState
at_start = record {
  workflow_id = "w1";
  step_id = negsuc 0;
  is_portable = true;
  authenticated_user = "";
  assumed_role = "";
  authenticated_roles = [];
}

-- The body charges a card, and counts the charges.
abbrev charge : Body Bool ℕ
charge ctx (db, charges) = (ok true, (db, suc charges))

abbrev pub times : Times
times = record { started = 1; completed = 2 }

abbrev pub running : Database
running = database_of (row_of "w1" pending ∷ [])

run_step_once_example :
    run_step codecs none booleans false "charge" charge times at_start
      (run
        (promotes 9 ∷ [])
        (run_step codecs none booleans false "charge" charge times at_start running 0).0.1.0)
      1
    ≡ (
      (
        ok true,
        (
          run
              (promotes 9 ∷ [])
              (run_step codecs none booleans false "charge" charge times at_start running 0).0.1.0,
          1,
        ),
      ),
      (next_step_id at_start).1,
    )
unfolding run_step durable_step check_step check_operation_execution check_recorded execute
    record_step record_input next_step_id record_operation_result run apply
    transition_delayed_workflows new_row resolve_encoder portable_serializer encode replay ◌==◌
run_step_once_example =
    run_step_once codecs none booleans "charge" charge charge times times at_start running 0 1 true
      (promotes 9 ∷ []) (row_of "w1" pending) codecs-IsFaithful booleans-ReadsBack tt refl (tt, tt)
      refl refl

-- A body that fails twice.
abbrev fails_twice : StepCtx → ℕ → Result Bool × ℕ
fails_twice ctx zero = (err (Make.new workflow_execution "busy"), 1)
fails_twice ctx (suc zero) = (err (Make.new workflow_execution "busy"), 2)
fails_twice ctx (suc (suc n)) = (ok true, suc (suc n))

abbrev three_retries : StepOptions
three_retries = record { max_retries = pos 3; retry_predicate = none }

abbrev first_step : StepCtx
first_step = record { workflow_id = "w1"; step_id = pos 0 }

execute-EndsWithin_example :
    EndsWithin "charge" three_retries fails_twice first_step
      (λ n. false)
      4
      (execute_with_retry "charge" three_retries fails_twice first_step (λ n. false) 4 0 [] 0)
execute-EndsWithin_example =
    execute-EndsWithin "charge" three_retries fails_twice first_step (λ n. false) 0
