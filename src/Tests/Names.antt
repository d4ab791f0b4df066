-- ===== src/Tests/Names.antt =====
-- Object names for internal/workflow/journal.go.
use ctrldb.Tests.Journals.{transition_to, attempt}
use ctrldb.Prelude.{checks, reject_if, refl, List, ℕ, ◌≡◌, true, codes, arith, ok}
use ctrldb.Domain.Journal.{JournalEntry}
use ctrldb.Workflow.Journal.ObjectName.{journal_object_name, digits}
use ctrldb.Workflow.Journal.ObjectName.Sorted.{lexical, journal_object_name-lexical}
use ctrldb.Domain.Operation.{OperationState}
use ctrldb.Domain.Outcome.{StepOutcome}
use ctrldb.Workflow.Journal.Entry.{
  validate_journal_entry, validate_body, validate_journal_time, validate_journal_step,
  validate_journal_end, validate_transition_pause,
}
use ctrldb.Workflow.Patterns.{is_operation_id, is_plan_id, is_contract_digest, is_step_id}

abbrev ninth : JournalEntry
ninth = transition_to 9 OperationState.approved_waiting

abbrev tenth : JournalEntry
tenth = attempt 10 1 StepOutcome.done true

abbrev ninth_name : List ℕ
ninth_name = codes "00000000000000000009-state-approved-waiting.json"

abbrev tenth_name : List ℕ
tenth_name = codes "00000000000000000010-create-disk.json"

named : (journal_object_name ninth ≡ ok ninth_name) × (journal_object_name tenth ≡ ok tenth_name)
unfolding journal_object_name digits validate_journal_entry validate_body validate_journal_time
    validate_journal_step validate_journal_end validate_transition_pause is_operation_id is_plan_id
    is_contract_digest is_step_id checks reject_if
named = (refl, refl)

journal_object_name-lexical_example : lexical ninth_name tenth_name ≡ true
journal_object_name-lexical_example =
    journal_object_name-lexical ninth tenth (omega arith) (omega arith) named.0 named.1
