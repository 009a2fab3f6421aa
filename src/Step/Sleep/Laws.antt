-- ===== src/Step/Sleep/Laws.antt =====
-- Replays of a durable sleep (crates/dbos-core/src/workflow/step.rs).
use dbos_transact_rust.Prelude.{
  ℕ, ◌+◌, ◌-◌, ℤ, String, ◌≡◌, refl, ap, ◌∙◌, false, ◌==◌, inl, inr, Option, none, some, List,
  Bool-cases,
}
use dbos_transact_rust.Error.{conflicting_id}
use dbos_transact_rust.Error.Chain.{DbosError, is_code}
use dbos_transact_rust.Status.{cancelled, ◌is◌}
use dbos_transact_rust.Sql.{first}
use dbos_transact_rust.Sql.Laws.{All}
use dbos_transact_rust.Database.{Result, ok, err, ◌>>=◌}
use dbos_transact_rust.Database.Types.{RecordedResult}
use dbos_transact_rust.Database.Schema.{WorkflowRow, OutputRow, Database}
use dbos_transact_rust.SystemDb.Insert.{has_id, has_key}
use dbos_transact_rust.SystemDb.Steps.{
  output_row, record_operation_result, recorded_result, check_operation_execution,
}
use dbos_transact_rust.SystemDb.Steps.Laws.{Recorded, record-Recorded, check_found, check_cases}
use dbos_transact_rust.SystemDb.Steps.Durable.{IsUndeleting, run_keeps_step}
use dbos_transact_rust.SystemDb.Run.{Op, run}
use dbos_transact_rust.Serialization.{Codecs, Typed, json_serializer, encode}
use dbos_transact_rust.Serialization.Laws.{IsFaithful, ReadsBack, json-RoundTrips, decodes}
use dbos_transact_rust.Step.{WorkflowState, next_step_id}
use dbos_transact_rust.Step.Sleep.{
  SleepClock, sleep_name, sleep_input, recorded_end, required, conflict_end, recorded_or,
  record_encoded_end, end_from, sleep_end, remaining, sleep,
}

module _ {V : Type 0} (c : Codecs V) (t : Typed ℕ V) (missing : String) (s : WorkflowState)
    (step : ℤ) where
  -- The sleep is recorded, and its row is read as this wake time.
  abbrev Wakes : ℕ → Database → Type 0
  Wakes end db =
      (o : OutputRow) × (first (has_key s.workflow_id step) db.operation_outputs ≡ some o)
      × ((recorded_result s.workflow_id step sleep_name o >>= required c t missing s.workflow_id)
          ≡ ok end)

  checked-Wakes :
      (end : ℕ) (db : Database)
      → (check_operation_execution s.workflow_id step sleep_name db
          >>= required c t missing s.workflow_id)
        ≡ ok end
      → Wakes end db
  unfolding required
  checked-Wakes end db =
      check_cases (λ x. (x >>= required c t missing s.workflow_id) ≡ ok end → Wakes end db)
        s.workflow_id step sleep_name db (λ e h. absurd (cc h)) (λ h. absurd (cc h))
        (λ o k h. (o, k, h))

  answered :
      (end duration : ℕ) (clock : SleepClock) (others : Database → Database) (db : Database)
      (x : Result (Option RecordedResult))
      → (x >>= required c t missing s.workflow_id) ≡ ok end
      → end_from c t missing s step duration clock others db x ≡ (ok end, db)
  unfolding required end_from
  answered end duration clock others db (err e) h = absurd (cc h)
  answered end duration clock others db (ok none) h = absurd (cc h)
  answered end duration clock others db (ok (some r)) h = rw h refl

  -- A recorded sleep is read.
  woken_again :
      (end duration : ℕ) (clock : SleepClock) (others : Database → Database) (db : Database)
      (row : WorkflowRow)
      → first (has_id s.workflow_id) db.workflow_status ≡ some row
      → (row.status is cancelled) ≡ false
      → Wakes end db
      → sleep_end c t missing s step duration clock others db ≡ (ok end, db)
  unfolding sleep_end
  woken_again end duration clock others db row e n (o, k, m) =
      answered end duration clock others db _ (
        ap (λ x. x >>= required c t missing s.workflow_id)
          (check_found s.workflow_id step sleep_name db row o e n k)
        ∙ m)

  abbrev Kept : Result ℕ × Database → Type 0
  Kept (ok end, db) = Wakes end db
  Kept (err e, db) = Unit

  answer-Kept :
      (db : Database) (x : Result ℕ) → ((end : ℕ) → x ≡ ok end → Wakes end db) → Kept (x, db)
  answer-Kept db (ok end) h = h end refl
  answer-Kept db (err e) h = tt

  conflict-Kept : (d : DbosError) (db : Database) → Kept (conflict_end c t missing s step d db, db)
  conflict-Kept d db = elim (Bool-cases (is_code d conflicting_id)) [
    | inl y ↦ rw y (answer-Kept db _ (λ end. checked-Wakes end db))
    | inr n ↦ rw n tt
  ]

  module _ (f : IsFaithful V c) (b : ReadsBack t) where
    stored-Kept :
        (end : ℕ) (clock : SleepClock) (encoded : Option String) (db : Database)
        (q : Result (Unit {0}) × Database)
        → encode t (json_serializer c) end ≡ ok encoded
        → Recorded (sleep_input c t missing s step clock encoded) db q
        → Kept (recorded_or c t missing s step end q)
    unfolding sleep_input required recorded_end
    stored-Kept end clock encoded db (ok u, after) e m =
        (output_row (sleep_input c t missing s step clock encoded), m.0, reads)
      where
        reads :
            (recorded_result s.workflow_id step sleep_name
                (output_row (sleep_input c t missing s step clock encoded))
              >>= required c t missing s.workflow_id)
            ≡ ok end
        reads =
            unfold recorded_result output_row ◌==◌ in
            decodes t (json_serializer c) end encoded b (json-RoundTrips c f) e
    stored-Kept end clock encoded db (err d, after) e m = conflict-Kept d after

    encoded-Kept :
        (end : ℕ) (clock : SleepClock) (db : Database) (x : Result (Option String))
        → encode t (json_serializer c) end ≡ x
        → Kept (record_encoded_end c t missing s step clock end x db)
    unfolding record_encoded_end
    encoded-Kept end clock db (err e) k = tt
    encoded-Kept end clock db (ok encoded) k =
        stored-Kept end clock encoded db
          (record_operation_result (sleep_input c t missing s step clock encoded) db) k
          (record-Recorded (sleep_input c t missing s step clock encoded) db)

    from-Kept :
        (duration : ℕ) (clock : SleepClock) (others : Database → Database) (db : Database)
        (x : Result (Option RecordedResult))
        → ((end : ℕ) → (x >>= required c t missing s.workflow_id) ≡ ok end → Wakes end db)
        → Kept (end_from c t missing s step duration clock others db x)
    unfolding end_from required
    from-Kept duration clock others db (err e) h = tt
    from-Kept duration clock others db (ok (some r)) h =
        answer-Kept db (recorded_end c t missing r) h
    from-Kept duration clock others db (ok none) h =
        encoded-Kept (clock.called + duration) clock (others db) _ refl

    sleep_end-Kept :
        (duration : ℕ) (clock : SleepClock) (others : Database → Database) (db : Database)
        → Kept (sleep_end c t missing s step duration clock others db)
    unfolding sleep_end
    sleep_end-Kept duration clock others db =
        from-Kept duration clock others db _ (λ end. checked-Wakes end db)

  of_Kept :
      (clock : SleepClock) (d : ℕ) (q : Result ℕ × Database)
      → Kept q
      → (remaining clock q).0 ≡ ok d
      → (end : ℕ) × (d ≡ end - clock.waiting) × Wakes end (remaining clock q).1
  of_Kept clock d (ok end, db) k h = (end, cc h, k)
  of_Kept clock d (err e, db) k h = absurd (cc h)

-- A durable sleep wakes at one time: when a sleep answered how long to wait, some wake time is
-- recorded, the first wait ends at it, and after any history of operations that deletes no
-- workflow, the same sleep at the same point of the workflow, with any duration and clock, waits
-- until that time and changes nothing, when the workflow is there and not cancelled. `others` is
-- what other executors do while the sleep is recorded. `serde_json` and base64 are faithful.
pub sleep_once :
    {V : Type 0} (c : Codecs V) (t : Typed ℕ V) (duration later_duration : ℕ)
    (clock later_clock : SleepClock) (others later_others : Database → Database) (s : WorkflowState)
    (db : Database) (d : ℕ) (ops : List Op) (row : WorkflowRow)
    → IsFaithful V c
    → ReadsBack t
    → (sleep c t false duration clock others s db).0.0 ≡ ok d
    → All IsUndeleting ops
    → let later = run ops (sleep c t false duration clock others s db).0.1 in
      first (has_id s.workflow_id) later.workflow_status ≡ some row
      → (row.status is cancelled) ≡ false
      → (end : ℕ) × (d ≡ end - clock.waiting)
        × (sleep c t false later_duration later_clock later_others s later
            ≡ ((ok (end - later_clock.waiting), later), (next_step_id s).1))
unfolding sleep next_step_id
sleep_once c t duration later_duration clock later_clock others later_others s db d ops row f b h u
      r n =
    let missing : String = "no recorded sleep end time" in
    let step = (next_step_id s).0 in
    let s' = (next_step_id s).1 in
    let slept = remaining clock (sleep_end c t missing s step duration clock others db) in
    let (end, e, (o, k, m)) =
      of_Kept c t missing s step clock d (sleep_end c t missing s step duration clock others db)
        (sleep_end-Kept c t missing s step f b duration clock others db) h in
    (
      end,
      e,
      ap (λ q. (remaining later_clock q, s'))
          (woken_again c t missing s step end later_duration later_clock later_others
            (run ops slept.1) row r n (o, run_keeps_step ops slept.1 s.workflow_id step o u k, m)),
    )
