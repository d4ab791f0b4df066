-- ===== src/Tests/Journals.antt =====
-- Operation histories for internal/workflow/journal.go.
use ctrldb.Prelude.{
  ℕ, String, List, Bool, ◌∷◌, false, ◌+◌, [], true, none, some, checks, reject_if, ◌++◌, ◌≡◌, ok,
  refl,
}
use ctrldb.Domain.Time.{Time, zero_instant}
use ctrldb.Domain.Operation.{OperationState, state_terminal}
use ctrldb.Domain.Outcome.{StepOutcome}
use ctrldb.Domain.Journal.{JournalEntry, journal_schema_v1, JournalEntryKind}
use ctrldb.Workflow.Journal.Stream.{
  validate_journal, scan_journal, validate_from, validate_next, entry_guard, dispatch,
}
use ctrldb.Workflow.Journal.Entry.{
  validate_journal_entry, validate_body, validate_journal_time, validate_journal_step,
  validate_journal_end, validate_transition_pause, validate_journal_cancellation,
}
use ctrldb.Workflow.Machine.{
  transition, new_machine, can_transition, transition_check, restore_machine, Machine, has,
}
use ctrldb.Domain.Identity.{ExecutionIdentity}
use ctrldb.Workflow.Patterns.{is_operation_id, is_plan_id, is_contract_digest, is_step_id}
use ctrldb.Workflow.Journal.Handlers.{
  on_request, on_transition, on_step, transition_guard, step_guard, leave_paused, settle_pending,
  settle_pause, step_under_request, request_guard,
}
use ctrldb.Workflow.Journal.Cursor.{Cursor, start}
use ctrldb.Workflow.Journal.Stream.Evidence.{
  any_shows, validate_journal_cancelled, scan_journal_cancellation_unmutated, scan_journal-evidence,
}
use ctrldb.Workflow.Journal.Stream.Order.{
  IsNumbered, IsDated, validate_journal-IsNumbered, validate_journal-prefix,
}
use ctrldb.Domain.Retry.{MutationObservation}
use ctrldb.Workflow.Machine.Life.{drive, targets}
use ctrldb.Workflow.Route.{route_reachable, search_route}
use ctrldb.Workflow.Journal.Stream.Refinement.{
  recorded_moves, scan_journal-drive, scan_journal_gates,
}
use ctrldb.Workflow.Journal.Stream.Attempts.{IsAttempted}
use ctrldb.Workflow.Journal.Stream.Retries.{validate_journal-IsAttempted}

abbrev pub at : ℕ → Time
at n = record { instant = zero_instant + n; offset = 0 }

abbrev pub digest : String
digest = "00000000000000000000000000000000000000000000000000000000000000ab"

abbrev pub transition_to : ℕ → OperationState → JournalEntry
transition_to n state = record {
  schema = journal_schema_v1;
  operation_id = "op-00000000000000ff";
  plan_id = "plan-00000000000000aa";
  contract_hash = digest;
  sequence = n;
  kind = JournalEntryKind.transition;
  recorded_at = at n;
  operation_state = state;
  step = none;
  pause = none;
  cancellation = none;
}

-- An attempt at the step `create-disk` that begins and ends at entry `n`.
abbrev pub attempt : ℕ → ℕ → StepOutcome → Bool → JournalEntry
attempt n k outcome mutated = record (transition_to n OperationState.execute) {
  kind = JournalEntryKind.step;
  step = some (record {
    id = "create-disk";
    outcome = outcome;
    executing_identity = ExecutionIdentity.operator;
    attempt = k;
    started_at = at n;
    ended_at = some (at n);
    mutation_occurred = mutated;
    result_summary = record { value = "" };
  });
}

abbrev pub to_execute : List JournalEntry
to_execute =
    transition_to 2 OperationState.validate
    ∷ transition_to 3 OperationState.plan
    ∷ transition_to 4 OperationState.lock
    ∷ transition_to 5 OperationState.execute
    ∷ []

abbrev pub first : JournalEntry
first = transition_to 1 OperationState.discover

abbrev ends : List JournalEntry
ends =
    attempt 6 1 StepOutcome.failed false
    ∷ attempt 7 2 StepOutcome.done true
    ∷ transition_to 8 OperationState.verify
    ∷ transition_to 9 OperationState.document
    ∷ transition_to 10 OperationState.complete
    ∷ []

abbrev all_moves : List JournalEntry
all_moves = to_execute ++ ends

-- An operation that is cancelled on request before it changes anything.
abbrev request : JournalEntry
request = record (transition_to 6 OperationState.execute) {
  kind = JournalEntryKind.cancellation_request;
  cancellation = some (record {
    requested_at = at 6;
    current_step_id = "create-disk";
    execution_contract_hash = digest;
    mutation_observation = MutationObservation.not_occurred;
    required_route = OperationState.cancelled;
  });
}

abbrev before_cancel : List JournalEntry
before_cancel = to_execute ++ request ∷ []

abbrev cancel : JournalEntry
cancel = transition_to 7 OperationState.cancelled

abbrev pub machine_in : OperationState → ℕ → Machine
machine_in state n = record {
  operation_id = "op-00000000000000ff";
  plan_id = "plan-00000000000000aa";
  state = state;
  generation = n;
}

-- What the scan of the completed operation ends with.
abbrev final : Cursor
final = record start {
  machine = some (machine_in OperationState.complete 7);
  previous_time = at 10;
  attempts = ("create-disk", 2) ∷ [];
  completed = "create-disk" ∷ [];
  mutated = true;
}

-- What the scan of the operation has before its cancellation.
abbrev requested : Cursor
requested = record start {
  machine = some (machine_in OperationState.execute 4);
  previous_time = at 6;
  pending = some OperationState.cancelled;
  pending_step = some "create-disk";
  pending_start = at 5;
  pending_requested = at 6;
}

histories :
    (validate_journal (first ∷ all_moves) ≡ ok tt)
    × (validate_journal (first ∷ before_cancel ++ cancel ∷ []) ≡ ok tt)
    × (scan_journal (first ∷ all_moves) ≡ ok final)
    × (scan_journal (first ∷ before_cancel) ≡ ok requested)
unfolding validate_journal scan_journal validate_from validate_next entry_guard dispatch on_request
    request_guard on_transition on_step validate_journal_entry validate_body validate_journal_time
    validate_journal_step validate_journal_end validate_transition_pause transition_guard step_guard
    leave_paused settle_pending settle_pause step_under_request transition transition_check
    validate_journal_cancellation route_reachable search_route new_machine restore_machine checks
    reject_if is_operation_id is_plan_id is_contract_digest is_step_id can_transition
histories = (refl, refl, refl, refl)

validate_journal_cancelled_example :
    (◌≡◌ {A = List JournalEntry} [] []) × (any_shows (first ∷ before_cancel ++ cancel ∷ []) ≡ false)
validate_journal_cancelled_example =
    validate_journal_cancelled first before_cancel cancel [] histories.1 refl refl

scan_journal_cancellation_unmutated_example :
    (some OperationState.cancelled ≡ some OperationState.cancelled
      → any_shows (first ∷ before_cancel) ≡ false)
    × ((m : Machine)
        → some (machine_in OperationState.execute 4) ≡ some m
        → m.state ≡ OperationState.cancelled
        → any_shows (first ∷ before_cancel) ≡ false)
scan_journal_cancellation_unmutated_example =
    scan_journal_cancellation_unmutated first before_cancel histories.3

scan_journal-evidence_example :
    (final.mutated ≡ any_shows (first ∷ all_moves)) × ((m : Machine) × (final.machine ≡ some m))
scan_journal-evidence_example = scan_journal-evidence first all_moves histories.2

scan_journal-drive_example :
    (first.kind ≡ JournalEntryKind.transition)
    × (first.operation_state ≡ OperationState.discover)
    × ((m : Machine) × (new_machine first.operation_id first.plan_id ≡ ok m)
        × (drive (some m) (recorded_moves all_moves) ≡ ok final.machine))
scan_journal-drive_example = scan_journal-drive first all_moves histories.2

scan_journal_gates_example :
    (true ≡ true → has OperationState.lock (targets (recorded_moves all_moves)) ≡ true)
    × (true ≡ true → has OperationState.verify (targets (recorded_moves all_moves)) ≡ true)
    × (true ≡ true → has OperationState.document (targets (recorded_moves all_moves)) ≡ true)
    × (false ≡ true → has OperationState.rollback (targets (recorded_moves all_moves)) ≡ true)
scan_journal_gates_example = scan_journal_gates first all_moves histories.2 refl

validate_journal-IsNumbered_example :
    IsNumbered first 0 (first ∷ all_moves) × IsDated first.recorded_at all_moves
validate_journal-IsNumbered_example = validate_journal-IsNumbered first all_moves histories.0

validate_journal-prefix_example :
    (c : Cursor) × (scan_journal (first ∷ to_execute) ≡ ok c)
    × (validate_journal (first ∷ to_execute) ≡ ok tt)
    × ((m : Machine) → c.machine ≡ some m → state_terminal m.state ≡ true → ends ≡ [])
validate_journal-prefix_example = validate_journal-prefix first to_execute ends histories.0

validate_journal-IsAttempted_example : IsAttempted [] (first ∷ all_moves)
validate_journal-IsAttempted_example = validate_journal-IsAttempted (first ∷ all_moves) histories.0
