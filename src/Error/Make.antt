-- ===== src/Error/Make.antt =====
-- The constructors of `DbosError` (crates/dbos-core/src/error.rs). The text that a wrapped error
-- displays is an argument beside the wrapped error.
use dbos_transact_rust.Prelude.{
  ℤ, String, Option, none, some, [], ◌∷◌, concat, decimal_ℤ, if◌then◌else◌, is_empty,
}
use dbos_transact_rust.Error.Code.{
  DbosErrorCode, conflicting_id, non_existent_workflow as non_existent,
  conflicting_workflow as conflicting, workflow_cancelled as cancelled,
  unexpected_step as unexpected, awaited_workflow_cancelled as awaited_cancelled,
  conflicting_registration as registration, initialization as init, workflow_unexpected_type,
  workflow_execution as execution, step_execution as step_failed, dead_letter_queue as dead_letter,
  max_step_retries_exceeded as step_retries, queue_deduplicated as deduplicated,
  patching_not_enabled as no_patching, timeout as timed_out, no_application_versions as no_versions,
}
use dbos_transact_rust.Error.Chain.{
  DbosError, dbos_error, Context, Source, no_source, dbos, display,
}

abbrev pub no_context : Context
no_context = record {
  workflow_id = none;
  destination_id = none;
  step_name = none;
  queue_name = none;
  deduplication_id = none;
  step_id = none;
  expected_name = none;
  recorded_name = none;
  max_retries = none;
}

-- `DbosError::new`.
abbrev pub new : DbosErrorCode → String → DbosError
new c m = dbos_error c m no_context no_source

unfoldable pub initialization : String → DbosError
initialization m = new init (concat ("Error initializing DBOS Transact: " ∷ m ∷ []))

unfoldable pub non_existent_workflow : String → DbosError
non_existent_workflow id =
    dbos_error non_existent (concat ("workflow " ∷ id ∷ " does not exist" ∷ []))
      (record no_context { destination_id = some id }) no_source

-- What `push_str(": ")` and the extra text add, if there is one.
abbrev pub with_extra : String → String → String
with_extra m extra = if is_empty extra then m else concat (m ∷ ": " ∷ extra ∷ [])

unfoldable pub conflicting_workflow : String → String → DbosError
conflicting_workflow id extra =
    dbos_error conflicting
      (with_extra (concat ("Conflicting workflow invocation with the same ID (" ∷ id ∷ ")" ∷ []))
        extra)
      (record no_context { workflow_id = some id }) no_source

unfoldable pub workflow_conflict_id : String → DbosError
workflow_conflict_id id =
    dbos_error conflicting_id (concat ("Conflicting workflow ID " ∷ id ∷ []))
      (record no_context { workflow_id = some id }) no_source

unfoldable pub conflicting_registration : String → DbosError
conflicting_registration name = new registration (concat (name ∷ " is already registered" ∷ []))

unfoldable pub unexpected_step : String → ℤ → String → String → DbosError
unexpected_step id step expected recorded =
    dbos_error unexpected
      (concat (
        "During execution of workflow "
        ∷ id
        ∷ " step "
        ∷ decimal_ℤ step
        ∷ ", function "
        ∷ recorded
        ∷ " was recorded when "
        ∷ expected
        ∷ " was expected. Check that your workflow is deterministic."
        ∷ []))
      (record no_context {
        workflow_id = some id;
        step_id = some step;
        expected_name = some expected;
        recorded_name = some recorded;
      })
      no_source

unfoldable pub awaited_workflow_cancelled : String → DbosError
awaited_workflow_cancelled id =
    dbos_error awaited_cancelled (concat ("Awaited workflow " ∷ id ∷ " was cancelled" ∷ []))
      (record no_context { workflow_id = some id }) no_source

unfoldable pub awaited_workflow_max_step_retries : String → DbosError
awaited_workflow_max_step_retries id =
    dbos_error step_retries
      (concat ("Awaited workflow " ∷ id ∷ " has exceeded the maximum number of step retries" ∷ []))
      (record no_context { workflow_id = some id }) no_source

unfoldable pub workflow_cancelled : String → DbosError
workflow_cancelled id = new cancelled (concat ("Workflow " ∷ id ∷ " was cancelled" ∷ []))

unfoldable pub workflow_unexpected_result_type : String → String → String → DbosError
workflow_unexpected_result_type id expected actual =
    dbos_error workflow_unexpected_type
      (concat (
        "Workflow " ∷ id ∷ " returned unexpected result type: expected " ∷ expected ∷ ", got "
        ∷ actual ∷ []))
      (record no_context { workflow_id = some id }) no_source

unfoldable pub workflow_unexpected_input_type : String → String → String → DbosError
workflow_unexpected_input_type name expected actual = new workflow_unexpected_type (
    concat (
      "Workflow " ∷ name ∷ " received unexpected input type: expected " ∷ expected ∷ ", got "
      ∷ actual ∷ []))

unfoldable pub workflow_execution : String → String → Source → DbosError
workflow_execution id text err =
    dbos_error execution (concat ("Workflow " ∷ id ∷ " execution error: " ∷ text ∷ []))
      (record no_context { workflow_id = some id }) err

unfoldable pub step_execution : String → String → String → Source → DbosError
step_execution id name text err =
    dbos_error step_failed
      (concat ("Step " ∷ name ∷ " in workflow " ∷ id ∷ " execution error: " ∷ text ∷ []))
      (record no_context { workflow_id = some id; step_name = some name }) err

unfoldable pub step_execution_dbos : String → String → DbosError → DbosError
unfolding step_execution
step_execution_dbos id name err = step_execution id name (display err) (dbos err)

unfoldable pub dead_letter_queue : String → ℤ → DbosError
dead_letter_queue id max_retries =
    dbos_error dead_letter
      (concat (
        "Workflow "
        ∷ id
        ∷ " has been moved to the dead-letter queue after exceeding the maximum of "
        ∷ decimal_ℤ max_retries
        ∷ " retries"
        ∷ []))
      (record no_context { workflow_id = some id; max_retries = some max_retries }) no_source

unfoldable pub max_step_retries_exceeded : String → String → ℤ → String → Source → DbosError
max_step_retries_exceeded id name max_retries text err =
    dbos_error step_retries
      (concat (
        "Step "
        ∷ name
        ∷ " has exceeded its maximum of "
        ∷ decimal_ℤ max_retries
        ∷ " retries: "
        ∷ text
        ∷ []))
      (record no_context {
        workflow_id = some id;
        step_name = some name;
        max_retries = some max_retries;
      })
      err

unfoldable pub queue_deduplicated : String → String → String → DbosError
queue_deduplicated id queue dedup =
    dbos_error deduplicated
      (concat (
        "Workflow " ∷ id ∷ " was deduplicated due to an existing workflow in queue " ∷ queue
        ∷ " with deduplication ID " ∷ dedup ∷ []))
      (record no_context {
        workflow_id = some id;
        queue_name = some queue;
        deduplication_id = some dedup;
      })
      no_source

unfoldable pub patching_not_enabled : DbosError
patching_not_enabled =
    new no_patching
      "Patching system is not enabled. Set EnablePatching to true in the DBOS context configuration to use Patch and DeprecatePatch"

unfoldable pub no_application_versions : DbosError
no_application_versions = new no_versions "No application versions are registered"

-- An empty text is a field that is not set.
abbrev pub non_empty : String → Option String
non_empty s = if is_empty s then none else some s

unfoldable pub timeout : String → String → String → DbosError
timeout id name extra =
    dbos_error timed_out (with_extra in_workflow extra)
      (record no_context { workflow_id = non_empty id; step_name = non_empty name }) no_source
  where
    base : String
    base =
        if is_empty name then "Operation timed out" else concat ("Step " ∷ name ∷ " timed out" ∷ [])

    in_workflow : String
    in_workflow = if is_empty id then base else concat (base ∷ " in workflow " ∷ id ∷ [])
