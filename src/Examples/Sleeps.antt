-- ===== src/Examples/Sleeps.antt =====
-- A durable sleep by a clock that counts to one.
use dbos_transact_rust.Prelude.{
  ℕ, zero, suc, ◌-◌, String, ◌≡◌, refl, subst, false, ◌⊎◌, inl, inr, [], ◌∷◌, ◌==◌,
}
use dbos_transact_rust.Status.{pending}
use dbos_transact_rust.Database.{ok}
use dbos_transact_rust.SystemDb.Insert.{new_row}
use dbos_transact_rust.SystemDb.Queue.{transition_delayed_workflows}
use dbos_transact_rust.SystemDb.Steps.{
  record_operation_result, check_operation_execution, check_recorded,
}
use dbos_transact_rust.SystemDb.Run.{promotes, run, apply}
use dbos_transact_rust.Serialization.{Typed, json_serializer, encode}
use dbos_transact_rust.Serialization.Laws.{ReadsBack}
use dbos_transact_rust.Step.{next_step_id}
use dbos_transact_rust.Step.Sleep.{SleepClock, sleep_end, sleep_input, recorded_end, sleep}
use dbos_transact_rust.Step.Sleep.Laws.{sleep_once}
use dbos_transact_rust.Examples.{row_of}
use dbos_transact_rust.Examples.Runs.{
  Value, nil, yes, no, codecs, codecs-IsFaithful, same_value, at_start, running,
}

abbrev pub value_of_tick : ℕ → String ⊎ Value
value_of_tick zero = inr no
value_of_tick (suc zero) = inr yes
value_of_tick (suc (suc n)) = inl "out of range"

abbrev pub tick_of : Value → String ⊎ ℕ
tick_of nil = inl "expected a number"
tick_of yes = inr 1
tick_of no = inr 0

abbrev pub ticks : Typed ℕ Value
ticks = record { to_value = value_of_tick; from_value = tick_of }

pub ticks-ReadsBack : ReadsBack ticks
ticks-ReadsBack zero v h = subst (λ w. tick_of w ≡ inr 0) (same_value no v h) refl
ticks-ReadsBack (suc zero) v h = subst (λ w. tick_of w ≡ inr 1) (same_value yes v h) refl
ticks-ReadsBack (suc (suc n)) v h = absurd (cc h)

abbrev pub morning : SleepClock
morning = record { called = 0; started = 0; completed = 0; waiting = 0 }

abbrev after_crash : SleepClock
after_crash = record { called = 1; started = 1; completed = 1; waiting = 1 }

sleep_once_example :
    (end : ℕ) × (1 ≡ end - 0)
    × (sleep codecs ticks false 1 after_crash
          (λ db. db)
          at_start
          (run
            (promotes 9 ∷ [])
            (sleep codecs ticks false 1 morning (λ db. db) at_start running).0.1)
        ≡ (
          (
            ok (end - 1),
            run
                (promotes 9 ∷ [])
                (sleep codecs ticks false 1 morning (λ db. db) at_start running).0.1,
          ),
          (next_step_id at_start).1,
        ))
unfolding sleep sleep_end sleep_input recorded_end check_operation_execution check_recorded
    next_step_id record_operation_result run apply transition_delayed_workflows new_row
    json_serializer encode ◌==◌
sleep_once_example =
    sleep_once codecs ticks 1 1 morning after_crash (λ db. db) (λ db. db) at_start running 1
      (promotes 9 ∷ []) (row_of "w1" pending) codecs-IsFaithful ticks-ReadsBack refl (tt, tt) refl
      refl
