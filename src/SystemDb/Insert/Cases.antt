-- ===== src/SystemDb/Insert/Cases.antt =====
-- The branches of `insert_workflow_status`, as rules for a predicate on its outcome.
use dbos_transact_rust.Prelude.{
  ℕ, ◌≡◌, refl, inl, inr, Bool, true, false, Option, none, some, List, Option-cases, ◌⊎◌,
  Bool-cases,
}
use dbos_transact_rust.Sql.{exists, first, insert_row, update_where}
use dbos_transact_rust.Error.Make
use dbos_transact_rust.Error.Chain.{DbosError}
use dbos_transact_rust.Database.{Result, ok, err}
use dbos_transact_rust.Database.Types.{ChildRecord, InsertWorkflowStatusInput, InsertWorkflowResult}
use dbos_transact_rust.Database.Schema.{WorkflowRow, Database}
use dbos_transact_rust.SystemDb.Insert.{
  has_id, has_key, same_slot, new_row, merge, upsert, returned, conflict, child_row, add_child,
  exceeded, park, complete, insert_workflow_status,
}

Result-cases {ℓ} :
    {A : Type ℓ} (r : Result A) → ((e : DbosError) × (r ≡ err e)) ⊎ ((a : A) × (r ≡ ok a))
Result-cases (ok a) = inr (a, refl)
Result-cases (err e) = inl (e, refl)

pub upsert_cases {ℓ} :
    (P : Option (WorkflowRow × List WorkflowRow) → Type ℓ) (i : Bool) (new : WorkflowRow)
    (rows : List WorkflowRow)
    → ((old : WorkflowRow)
        → first (has_id new.workflow_uuid) rows ≡ some old
        → P (some (merge i new old, update_where (has_id new.workflow_uuid) (merge i new) rows)))
    → (first (has_id new.workflow_uuid) rows ≡ none
        → exists (same_slot new) rows ≡ false
        → P (some (new, insert_row new rows)))
    → (first (has_id new.workflow_uuid) rows ≡ none → exists (same_slot new) rows ≡ true → P none)
    → P (upsert i new rows)
unfolding upsert
upsert_cases P i new rows merged fresh taken =
    elim (Option-cases (first (has_id new.workflow_uuid) rows)) [
      | inr (old, e) ↦ rw (e, upsert) (merged old e)
      | inl e ↦ elim (Bool-cases (exists (same_slot new) rows)) [
        | inl t ↦ rw (e, upsert) (rw t (taken e t))
        | inr f ↦ rw (e, upsert) (rw f (fresh e f))
      ]
    ]

pub add_child_cases {ℓ} :
    (P : Result Database → Type ℓ) (c : ChildRecord) (db : Database)
    → ((e : DbosError) → P (err e))
    → (exists (has_key c.parent_workflow_id c.step_id) db.operation_outputs ≡ false
        → exists (has_id c.parent_workflow_id) db.workflow_status ≡ true
        → P (ok (record db { operation_outputs = insert_row (child_row c) db.operation_outputs })))
    → P (add_child (some c) db)
unfolding add_child
add_child_cases P c db refused added =
    elim (Bool-cases (exists (has_key c.parent_workflow_id c.step_id) db.operation_outputs)) [
      | inl t ↦ rw t (refused _)
      | inr f ↦ elim (Bool-cases (exists (has_id c.parent_workflow_id) db.workflow_status)) [
        | inl t ↦ rw f (rw t (added f t))
        | inr g ↦ rw f (rw g (refused _))
      ]
    ]

-- Recording a child leaves the workflows as they were.
abbrev pub ChildFollows : Database → Result Database → Type 0
ChildFollows db (ok done) = done.workflow_status ≡ db.workflow_status
ChildFollows db (err e) = Unit

pub add_child-rows : (c : Option ChildRecord) (db : Database) → ChildFollows db (add_child c db)
unfolding add_child
add_child-rows none db = refl
add_child-rows (some c) db = add_child_cases (ChildFollows db) c db (λ e. tt) (λ f t. refl)

pub complete_cases {ℓ} :
    (P : Result InsertWorkflowResult × Database → Type ℓ) (input : InsertWorkflowStatusInput)
    (result : InsertWorkflowResult) (after db : Database)
    → ((e : DbosError) → P (err e, db))
    → ((done : Database)
        → conflict input.status result ≡ none
        → add_child input.record_child after ≡ ok done
        → exceeded input.max_retries result ≡ true
        → P (
          err (Make.dead_letter_queue input.status.id input.max_retries),
          park input.status.id done,
        ))
    → ((done : Database)
        → conflict input.status result ≡ none
        → add_child input.record_child after ≡ ok done
        → exceeded input.max_retries result ≡ false
        → P (ok result, done))
    → P (complete input result after db)
unfolding complete
complete_cases P input result after db failed parked done =
    elim (Option-cases (conflict input.status result)) [
      | inr (e, c) ↦ rw (c, complete) (failed e)
      | inl c ↦ elim (Result-cases (add_child input.record_child after)) [
        | inl (e, a) ↦ rw (c, complete) (rw (a, complete) (failed e))
        | inr (d, a) ↦ elim (Bool-cases (exceeded input.max_retries result)) [
          | inl t ↦ rw (c, complete) (rw (a, complete) (rw t (parked d c a t)))
          | inr f ↦ rw (c, complete) (rw (a, complete) (rw f (done d c a f)))
        ]
      ]
    ]

-- The upsert either finds the row `old`, inserts a new one, or meets a taken slot.
pub insert_cases {ℓ} :
    (P : Result InsertWorkflowResult × Database → Type ℓ) (input : InsertWorkflowStatusInput)
    (now : ℕ) (db : Database)
    → let new = new_row input now in
      ((old : WorkflowRow)
        → first (has_id new.workflow_uuid) db.workflow_status ≡ some old
        → P (
            complete input
              (returned (merge input.increment_attempts new old))
              (record db {
                workflow_status =
                    update_where
                      (has_id new.workflow_uuid)
                      (merge input.increment_attempts new)
                      db.workflow_status;
              })
              db))
      → (first (has_id new.workflow_uuid) db.workflow_status ≡ none
          → exists (same_slot new) db.workflow_status ≡ false
          → P (
              complete input
                (returned new)
                (record db { workflow_status = insert_row new db.workflow_status })
                db))
      → (first (has_id new.workflow_uuid) db.workflow_status ≡ none
          → exists (same_slot new) db.workflow_status ≡ true
          → P (
            err (
                Make.queue_deduplicated input.status.id input.status.queue_name
                  input.status.deduplication_id),
            db,
          ))
      → P (insert_workflow_status input now db)
unfolding insert_workflow_status
insert_cases P input now db merged fresh taken =
    upsert_cases
      (λ u. P (elim u [
        | none ↦ (
          err (
              Make.queue_deduplicated input.status.id input.status.queue_name
                input.status.deduplication_id),
          db,
        )
        | some (row, rows) ↦ complete input (returned row) (record db { workflow_status = rows }) db
      ]))
      input.increment_attempts (new_row input now) db.workflow_status merged fresh taken
