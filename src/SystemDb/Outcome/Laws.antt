-- ===== src/SystemDb/Outcome/Laws.antt =====
-- What becomes of an outcome: `update_workflow_outcome` against `await_workflow_result`
-- (crates/dbos-core/src/db/sqlite.rs).
use dbos_transact_rust.Prelude.{
  ℕ, String, ◌≡◌, refl, subst, true, false, not, ◌&&◌, is_empty, Option, none, some, List, ◌∷◌,
  arith, if◌then◌else◌,
}
use dbos_transact_rust.Error.Make
use dbos_transact_rust.Status.{WorkflowStatusType, success, error, cancelled, ◌is◌}
use dbos_transact_rust.Sql.{first}
use dbos_transact_rust.Sql.Laws.{first-map, first-some}
use dbos_transact_rust.Database.{Result, ok, err, or_default}
use dbos_transact_rust.Database.Types.{AwaitResult}
use dbos_transact_rust.Database.Schema.{WorkflowRow, Database}
use dbos_transact_rust.SystemDb.Insert.{has_id}
use dbos_transact_rust.SystemDb.Outcome.{
  has_ended, filter_empty, with_outcome, update_workflow_outcome, poll_row, poll_once,
  await_workflow_result,
}

-- The row that the UPDATE leaves in place of `r`.
abbrev outcome_of :
    String → WorkflowStatusType → Option String → String → ℕ → ℕ → WorkflowRow → WorkflowRow
outcome_of id t output err_str u c r =
    if has_id id r && not ((r.status is cancelled) && has_ended t)
    then with_outcome t output err_str u c r
    else r

outcome_of_keeps_id :
    (id : String) (t : WorkflowStatusType) (output : Option String) (err_str : String) (u c : ℕ)
    (s : WorkflowRow)
    → has_id id (outcome_of id t output err_str u c s) ≡ has_id id s
unfolding with_outcome
outcome_of_keeps_id id t output err_str u c s = ground arith

outcome_first :
    (id : String) (t : WorkflowStatusType) (output : Option String) (err_str : String) (u c : ℕ)
    (db : Database) (r : WorkflowRow)
    → first (has_id id) db.workflow_status ≡ some r
    → first (has_id id) (update_workflow_outcome id t output err_str u c db).workflow_status
      ≡ some (outcome_of id t output err_str u c r)
unfolding update_workflow_outcome
outcome_first id t output err_str u c db r e =
    first-map (has_id id) (outcome_of id t output err_str u c) db.workflow_status r
      (outcome_of_keeps_id id t output err_str u c) e

filter_empty-stored :
    (s : String) → filter_empty (if is_empty s then none else some s) ≡ filter_empty (some s)
filter_empty-stored s = ground arith

poll_ended :
    (id : String) (t : WorkflowStatusType) (r : WorkflowRow)
    → has_ended t ≡ true
    → poll_row id t r
      ≡ some (
          ok (record {
            output = r.output;
            error = filter_empty r.error;
            serialization = or_default r.serialization;
          }))
unfolding poll_row
poll_ended id success r h = refl
poll_ended id error r h = refl
poll_ended id t r h = absurd (cc h)

poll_stored :
    (id : String) (t : WorkflowStatusType) (output : Option String) (err_str : String) (u c : ℕ)
    (r : WorkflowRow)
    → has_id id r ≡ true
    → (r.status is cancelled) ≡ false
    → has_ended t ≡ true
    → poll_row id
        (outcome_of id t output err_str u c r).status
        (outcome_of id t output err_str u c r)
      ≡ some (
          ok (record {
            output = output;
            error = filter_empty (some err_str);
            serialization = or_default r.serialization;
          }))
unfolding with_outcome
poll_stored id t output err_str u c r i n h =
    rw (i, n, poll_ended id t (with_outcome t output err_str u c r) h, filter_empty-stored err_str)
      refl

polls :
    (id : String) (db : Database) (r : WorkflowRow) (answer : Result AwaitResult)
    → first (has_id id) db.workflow_status ≡ some r
    → poll_row id r.status r ≡ some answer
    → poll_once id db ≡ some answer
unfolding poll_once
polls id db r answer e p = rw (e, poll_once) p

await_found :
    (id : String) (db : Database) (later : List Database) (r : WorkflowRow)
    (answer : Result AwaitResult)
    → first (has_id id) db.workflow_status ≡ some r
    → poll_row id r.status r ≡ some answer
    → await_workflow_result id (db ∷ later) ≡ some answer
unfolding await_workflow_result
await_found id db later r answer e p = rw (polls id db r answer e p, await_workflow_result) refl

-- Whoever waits for a workflow that is not cancelled when its SUCCESS or ERROR is stored gets, at
-- the next poll, the output and the error that were stored (no error for an empty text).
pub await-outcome :
    (id : String) (t : WorkflowStatusType) (output : Option String) (err_str : String) (u c : ℕ)
    (db : Database) (later : List Database) (r : WorkflowRow)
    → first (has_id id) db.workflow_status ≡ some r
    → (r.status is cancelled) ≡ false
    → has_ended t ≡ true
    → await_workflow_result id (update_workflow_outcome id t output err_str u c db ∷ later)
      ≡ some (
          ok (record {
            output = output;
            error = filter_empty (some err_str);
            serialization = or_default r.serialization;
          }))
await-outcome id t output err_str u c db later r e n h =
    await_found id (update_workflow_outcome id t output err_str u c db) later _ _
      (outcome_first id t output err_str u c db r e)
      (poll_stored id t output err_str u c r (first-some (has_id id) db.workflow_status r e).0 n h)

-- The SUCCESS or ERROR of a workflow that was cancelled meanwhile is not stored: its row stays as
-- it was, and whoever waits for it learns that it was cancelled.
pub outcome_cancelled :
    (id : String) (t : WorkflowStatusType) (output : Option String) (err_str : String) (u c : ℕ)
    (db : Database) (later : List Database) (r : WorkflowRow)
    → first (has_id id) db.workflow_status ≡ some r
    → r.status ≡ cancelled
    → has_ended t ≡ true
    → let after = update_workflow_outcome id t output err_str u c db in
      (first (has_id id) after.workflow_status ≡ some r)
      × (await_workflow_result id (after ∷ later) ≡ some (err (Make.awaited_workflow_cancelled id)))
unfolding poll_row
outcome_cancelled id t output err_str u c db later r e n h =
    (kept, await_found id _ later r _ kept (rw n refl))
  where
    kept :
        first (has_id id) (update_workflow_outcome id t output err_str u c db).workflow_status
        ≡ some r
    kept =
        subst
          (λ (s : WorkflowRow).
            first (has_id id) (update_workflow_outcome id t output err_str u c db).workflow_status
            ≡ some s)
          (rw ((first-some (has_id id) db.workflow_status r e).0, n, h))
          (outcome_first id t output err_str u c db r e)
