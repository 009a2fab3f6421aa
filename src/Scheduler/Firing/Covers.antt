-- ===== src/Scheduler/Firing/Covers.antt =====
-- The rounds of a backfill, up to the end of its loop
-- (crates/dbos-core/src/scheduler/engine.rs).
use dbos_transact_rust.Prelude.{
  ℕ, zero, suc, ◌-◌, ◌<◌, ◌≤◌, leb, String, ◌≡◌, refl, sym, ◌∙◌, subst, true, false, inl, inr,
  Option, none, some, Bool-cases, Option-cases, arith,
}
use dbos_transact_rust.Database.{Result, ok, err}
use dbos_transact_rust.Database.Schema.{Database}
use dbos_transact_rust.SystemDb.Queue.{is_some}
use dbos_transact_rust.SystemDb.Listing.{get_workflow_status}
use dbos_transact_rust.SystemDb.Listing.Laws.{is_some-get_workflow_status}
use dbos_transact_rust.SystemDb.Schedules.{ScheduleRow}
use dbos_transact_rust.Serialization.{Codecs, Typed, Serializer, resolve_encoder}
use dbos_transact_rust.Submission.{Draws, no_flags, Engine, ErasedHandle, workflow_id_of}
use dbos_transact_rust.Submission.Presence.{Has, Stays, Ran, run-Ran}
use dbos_transact_rust.Scheduler.Firing.{
  tick_id, tick_options, ScheduledWorkflowInput, queue_of, enqueue, Round, fails, goes, round_of,
  submitted, backfill_round, and_then, backfill_from,
}

-- `u` is a tick after `t`.
pub data Tick (next : ℕ → Option ℕ) : ℕ → ℕ → Type 0 where
  soon : {t u : ℕ} → next t ≡ some u → Tick next t u
  later : {t v u : ℕ} → next t ≡ some v → Tick next v u → Tick next t u

-- The first tick after a time is after it.
abbrev pub Advances : (ℕ → Option ℕ) → Type 0
Advances next = (t u : ℕ) → next t ≡ some u → t < u

Tick-lt : (next : ℕ → Option ℕ) {t u : ℕ} → Advances next → Tick next t u → t < u
Tick-lt next {t} {u} a (soon e) = a t u e
Tick-lt next {t} {u} a (later {v = v} e k) = omega (arith, a t v e, Tick-lt next a k)

one_next : (o : Option ℕ) (v u : ℕ) → o ≡ some v → o ≡ some u → v ≡ u
one_next o v u e k = cc

-- Every tick is at or after the next one.
Tick-next :
    (next : ℕ → Option ℕ) {t u : ℕ}
    → Advances next
    → Tick next t u
    → (v : ℕ) × (next t ≡ some v) × (v ≤ u)
Tick-next next {t} {u} a (soon e) = (u, e, omega arith)
Tick-next next {t} {u} a (later {v = v} e k) = (v, e, omega (arith, Tick-lt next a k))

module _ {V : Type 0} (c : Codecs V) (custom : Option (Serializer V)) (to_rfc3339 : ℕ → String)
    (t : Typed (ScheduledWorkflowInput V) V) (row : ScheduleRow) (version : Option String) where
  abbrev id_of : ℕ → String
  id_of = tick_id to_rfc3339 row.schedule_name

  abbrev RoundRan : ℕ → Database → Round c custom to_rfc3339 t → Type 0
  RoundRan time db (fails e engine after) = Stays db after
  RoundRan time db (goes engine after) = Stays db after × Has (id_of time) after

  of_Ran :
      (time : ℕ) (db : Database) (q : Result ErasedHandle × Engine × Database)
      → Ran (id_of time) db q
      → RoundRan time db (round_of c custom to_rfc3339 t q)
  of_Ran time db (ok h, engine, after) r = r
  of_Ran time db (err e, engine, after) r = r

  submitted-RoundRan :
      (engine : Engine) (time : ℕ) (draws : Draws) (db : Database) (x : Result (Option String))
      → RoundRan time db (submitted c custom to_rfc3339 t engine row version time draws db x)
  unfolding enqueue tick_options workflow_id_of
  submitted-RoundRan engine time draws db (err e) = λ x h. h
  submitted-RoundRan engine time draws db (ok encoded) = of_Ran time db _ (
      run-Ran engine row.workflow_name encoded (resolve_encoder c false custom).name
        (tick_options (id_of time) (queue_of row) version) no_flags none draws.fresh_id
        draws.owner_xid draws.clock db)

  round-RoundRan :
      (engine : Engine) (time : ℕ) (draws : Draws) (db : Database)
      → RoundRan time db (backfill_round c custom to_rfc3339 t engine row version time draws db)
  unfolding backfill_round
  round-RoundRan engine time draws db =
      elim (Bool-cases (is_some (get_workflow_status (id_of time) db))) [
        | inl h ↦ rw h ((λ x p. p), sym (is_some-get_workflow_status (id_of time) db) ∙ h)
        | inr n ↦ rw n (submitted-RoundRan engine time draws db _)
      ]

  module _ (next : ℕ → Option ℕ) (a : Advances next) (end : ℕ) (draws : ℕ → Draws) where
    abbrev pub loop : ℕ → ℕ → Engine → Database → Option (Result (Unit {0}) × Engine × Database)
    loop = backfill_from c custom to_rfc3339 t next end row version draws

    -- Every tick after `s` and before the end has its workflow.
    abbrev pub AllTicks : ℕ → Database → Type 0
    AllTicks s db = (u : ℕ) → Tick next s u → u < end → Has (id_of u) db

    -- The loop ended, and if it succeeded, every tick has its workflow.
    abbrev pub Ends : ℕ → Database → Option (Result (Unit {0}) × Engine × Database) → Type 0
    Ends s db none = ⊥
    Ends s db (some (ok u, engine, after)) = Stays db after × AllTicks s after
    Ends s db (some (err e, engine, after)) = Stays db after

    reached :
        (s v u : ℕ) (db after : Database)
        → next s ≡ some v
        → Has (id_of v) after
        → AllTicks v after
        → Tick next s u
        → u < end
        → Has (id_of u) after
    reached s v u db after e h k (soon d) l =
        subst (λ (w : ℕ). Has (id_of w) after) (one_next (next s) v u e d) h
    reached s v u db after e h k (later {v = w} d m) l =
        k u (subst (λ (x : ℕ). Tick next x u) (one_next (next s) w v d e) m) l

    earlier :
        (s v : ℕ) (db between : Database) (o : Option (Result (Unit {0}) × Engine × Database))
        → next s ≡ some v
        → Stays db between
        → Has (id_of v) between
        → Ends v between o
        → Ends s db o
    earlier s v db between none h k p m = elim m [ ]
    earlier s v db between (some (err e, engine, after)) h k p m = λ x q. m x (k x q)
    earlier s v db between (some (ok r, engine, after)) h k p m =
        (λ x q. m.0 x (k x q), λ u i l. reached s v u db after h (m.0 (id_of v) p) m.1 i l)

    round-Ends :
        (s v fuel : ℕ) (db : Database) (r : Round c custom to_rfc3339 t)
        → next s ≡ some v
        → RoundRan v db r
        → ((engine : Engine) (between : Database) → Ends v between (loop fuel v engine between))
        → Ends s db (and_then c custom to_rfc3339 t r (loop fuel v))
    round-Ends s v fuel db (fails e engine after) h k m = k
    round-Ends s v fuel db (goes engine after) h k m =
        earlier s v db after (loop fuel v engine after) h k.0 k.1 (m engine after)

    no-Tick : (s u : ℕ) → Tick next s u → next s ≡ none → ⊥
    no-Tick s u i e = cc (e, (Tick-next next a i).1)

    past : (s u v : ℕ) → Tick next s u → next s ≡ some v → leb end v ≡ true → u < end → ⊥
    past s u v i e o l =
        let (w, d, m) = Tick-next next a i in
        let q : v ≡ w = one_next (next s) v w e d in ground (arith, q, m, o, l)

    time_left : (s v fuel : ℕ) → next s ≡ some v → end - s ≤ suc fuel → end - v ≤ fuel
    time_left s v fuel e f = omega (arith, a s v e)

    no_time : (s v : ℕ) → next s ≡ some v → leb end v ≡ false → end - s ≤ 0 → ⊥
    no_time s v e o f = let m : s < v = a s v e in ground arith

    step-Ends :
        (fuel s : ℕ) (engine : Engine) (db : Database)
        → ((v : ℕ)
            → next s ≡ some v
            → leb end v ≡ false
            → (g : Engine) (between : Database) → Ends v between (loop fuel v g between))
        → Ends s db (loop (suc fuel) s engine db)
    unfolding backfill_from
    step-Ends fuel s engine db rest = elim (Option-cases (next s)) [
      | inl e ↦ rw (e, backfill_from) ((λ x p. p), λ u i l. absurd (no-Tick s u i e))
      | inr (v, e) ↦ elim (Bool-cases (leb end v)) [
        | inl o ↦ rw (e, backfill_from) (rw o ((λ x p. p), λ u i l. absurd (past s u v i e o l)))
        | inr n ↦
            rw (e, backfill_from)
              (rw n
                (round-Ends s v fuel db _ e (round-RoundRan engine v (draws v) db) (rest v e n)))
      ]
    ]

    pub loop-Ends :
        (fuel s : ℕ) (engine : Engine) (db : Database)
        → end - s ≤ fuel
        → Ends s db (loop (suc fuel) s engine db)
    loop-Ends zero s engine db f = step-Ends zero s engine db (λ v e n. absurd (no_time s v e n f))
    loop-Ends (suc fuel) s engine db f =
        step-Ends (suc fuel) s engine db
          (λ v e n g between. loop-Ends fuel v g between (time_left s v fuel e f))

    -- With every workflow there, the loop submits nothing.
    step_quiet :
        (fuel s : ℕ) (engine : Engine) (db : Database)
        → AllTicks s db
        → ((v : ℕ)
            → next s ≡ some v
            → leb end v ≡ false
            → loop fuel v engine db ≡ some (ok tt, engine, db))
        → loop (suc fuel) s engine db ≡ some (ok tt, engine, db)
    unfolding backfill_from backfill_round
    step_quiet fuel s engine db k rest = elim (Option-cases (next s)) [
      | inl e ↦ rw (e, backfill_from) refl
      | inr (v, e) ↦ elim (Bool-cases (leb end v)) [
        | inl o ↦ rw (e, backfill_from) (rw o refl)
        | inr n ↦
            let there : Has (id_of v) db = k v (soon e) (ground arith) in
            rw (e, backfill_from)
              (rw n (rw (is_some-get_workflow_status (id_of v) db ∙ there) (rest v e n)))
      ]
    ]

    pub loop_quiet :
        (fuel s : ℕ) (engine : Engine) (db : Database)
        → end - s ≤ fuel
        → AllTicks s db
        → loop (suc fuel) s engine db ≡ some (ok tt, engine, db)
    loop_quiet zero s engine db f k =
        step_quiet zero s engine db k (λ v e n. absurd (no_time s v e n f))
    loop_quiet (suc fuel) s engine db f k =
        step_quiet (suc fuel) s engine db k (λ v e n.
          loop_quiet fuel v engine db (time_left s v fuel e f) (λ u i l. k u (later e i) l))

    pub of_Ends :
        (s : ℕ) (db : Database) (o : Option (Result (Unit {0}) × Engine × Database))
        (engine : Engine) (after : Database)
        → Ends s db o
        → o ≡ some (ok tt, engine, after)
        → AllTicks s after
    of_Ends s db none engine after k e = elim k [ ]
    of_Ends s db (some (err d, g, b)) engine after k e = absurd (cc e)
    of_Ends s db (some (ok r, g, b)) engine after k e = (subst (Ends s db) e k).1

    pub ended :
        (s : ℕ) (db : Database) (o : Option (Result (Unit {0}) × Engine × Database))
        → Ends s db o
        → (q : Result (Unit {0}) × Engine × Database) × (o ≡ some q)
    ended s db none k = elim k [ ]
    ended s db (some q) k = (q, refl)
