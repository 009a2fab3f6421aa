-- ===== src/Submission/Handles/Agree.antt =====
-- The two kinds of handle (crates/dbos-core/src/workflow/handle.rs).
use dbos_transact_rust.Prelude.{
  String, ◌≡◌, refl, ap, false, ◌==◌, is_empty, Option, none, some, List, ◌∷◌, Bool-cases, inl, inr,
}
use dbos_transact_rust.Error.{DbosErrorCode, code_eq, workflow_execution, conflicting_id}
use dbos_transact_rust.Error.Chain.{DbosError, is_code}
use dbos_transact_rust.Status.{cancelled, ◌is◌}
use dbos_transact_rust.Sql.{first}
use dbos_transact_rust.Database.{Result, ok, err, or_default}
use dbos_transact_rust.Database.Types.{AwaitResult}
use dbos_transact_rust.Database.Schema.{WorkflowRow, Database}
use dbos_transact_rust.SystemDb.Insert.{has_id}
use dbos_transact_rust.Serialization.{
  Codecs, Typed, Serializer, portable_serializer_name, plain_error, recovered,
  serialize_workflow_error, deserialize_workflow_error,
}
use dbos_transact_rust.Serialization.Errors.{deserialize-is_code}
use dbos_transact_rust.Submission.{ActiveEntry}
use dbos_transact_rust.Submission.Finish.{EncodedOutcome, Clock, IsOwnResult, finish, await-finish}
use dbos_transact_rust.Submission.Handles.{
  sent, or_output, decode_output, read_result, poll_result, get_result,
}

-- A text that is there reads as an error.
reads_error :
    {V : Type 0} (c : Codecs V) (s tag : String)
    → is_empty s ≡ false
    → (e : DbosError) × (deserialize_workflow_error c (some s) tag ≡ some e)
unfolding deserialize_workflow_error
reads_error c s tag n = elim (Bool-cases (tag == portable_serializer_name)) [
  | inl t ↦ (recovered c s (c.error_from_text s), rw n (rw t refl))
  | inr f ↦ (plain_error c s, rw n (rw f refl))
]

-- An error is stored as some text.
abbrev pub IsStored : {V : Type 0} → Codecs V → String → Result (Option String) → Type 0
IsStored c tag (ok output) = Unit
IsStored c tag (err e) = is_empty (serialize_workflow_error c e tag) ≡ false

-- An output is the same for both handles; of an error only the handle of the run has the code.
abbrev pub Agrees :
    {R : Type 0} → Result (Option String) → Option (Result R) → Option (Result R) → Type 0
Agrees (ok output) got polled = got ≡ polled
Agrees (err e) got polled =
    (got ≡ some (err e))
    × ((d : DbosError) × (polled ≡ some (err d))
        × ((k : DbosErrorCode) → is_code d k ≡ code_eq workflow_execution k))

fails :
    {V : Type 0} (c : Codecs V) (id tag : String) (d : DbosError) (clock : Clock)
    (seen : List Database) (active : List (String × ActiveEntry)) (db : Database)
    (outcome : Result EncodedOutcome)
    → is_code d conflicting_id ≡ false
    → (finish c id tag (err d) clock seen active db).0 ≡ some outcome
    → some (err d) ≡ some outcome
unfolding finish
fails c id tag d clock seen active db outcome o = rw o (λ h. h)

-- Both handles of a workflow get the result of its body: when the body of a workflow that is not
-- cancelled ended, other than by a conflict, and the row has the serialization that the task was
-- started with, then for an output the handle that got the task's outcome reads what a handle that
-- polls the database reads at its next poll. For an error, which is stored as some text, both fail:
-- the handle of the run with the error itself, and the one that polls with an error that answers
-- to WorkflowExecution and to no other code.
pub get_result-poll_result :
    {R V : Type 0} (c : Codecs V) (custom : Option (Serializer V)) (t : Typed R V) (id tag : String)
    (result : Result (Option String)) (clock : Clock) (seen later : List Database)
    (active : List (String × ActiveEntry)) (db : Database) (r : WorkflowRow)
    (outcome : Result EncodedOutcome)
    → first (has_id id) db.workflow_status ≡ some r
    → (r.status is cancelled) ≡ false
    → or_default r.serialization ≡ tag
    → IsOwnResult c result
    → IsStored c tag result
    → let done = finish c id tag result clock seen active db in
      done.0 ≡ some outcome
      → Agrees result
          (get_result c custom t (sent outcome) id later)
          (poll_result c custom t id (done.1 ∷ later))
unfolding get_result poll_result finish read_result deserialize_workflow_error
get_result-poll_result c custom t id tag (ok output) clock seen later active db r (ok outcome) e n s
      o w h =
    rw (await-finish c id tag (ok output) clock seen later active db r e n tt) (
      rw s (
        ap (λ (o : EncodedOutcome). some (decode_output c custom t o.output o.serialization))
          {x = outcome} {y = record { output = output; serialization = tag }} (cc h)))
get_result-poll_result c custom t id tag (ok output) clock seen later active db r (err d) e n s o w
      h =
    absurd (cc h)
get_result-poll_result c custom t id tag (err d) clock seen later active db r (ok outcome) e n s o w
      h =
    absurd (cc (fails c id tag d clock seen active db (ok outcome) o h))
get_result-poll_result {R} c custom t id tag (err d) clock seen later active db r (err d') e n s o w
      h =
    let (read, k) = reads_error c (serialize_workflow_error c d tag) tag w in
    let stored : AwaitResult = record {
      output = none;
      error = some (serialize_workflow_error c d tag);
      serialization = tag;
    } in
    (
      cc (fails c id tag d clock seen active db (err d') o h),
      (
        read,
        rw (await-finish c id tag (err d) clock seen later active db r e n o)
            (rw s (rw w (ap (λ x. some (or_output c custom t stored x)) k))),
        λ j. deserialize-is_code c (some (serialize_workflow_error c d tag)) tag read j k,
      ),
    )
