-- ===== src/Workflow/Cancellation/Context.antt =====
-- `validateCancellationFoundation` and `cancellationContext` of internal/workflow/cancellation.go.
use ctrldb.Workflow.Patterns.{is_operation_id, is_plan_id, is_contract_digest}
use ctrldb.Workflow.Machine.{Machine}
use ctrldb.Prelude.{
  ℕ, Option, List, Result, if◌then◌else◌, Bool, some, String, checks, false, err, ok, none,
  reject_if, ◌∷◌, map_err, ◌&&◌, ◌>>◌, ◌>>=◌, not, get_elem?, [], ◌==◌, ◌||◌, str_eq, ◌+◌, ◌%◌,
  length, ◌^◌, last?,
}
use ctrldb.Domain.Journal.{JournalStep, JournalEntry, JournalPause, JournalEntryKind}
use ctrldb.Domain.Contract.{ExecutionContract, ExecutionStepContract}
use ctrldb.Workflow.Cancellation.{
  CancellationRequest, CancellationCheck, CancellationError, state_eq, nil_entry,
  invalid_cancellation,
}
use ctrldb.Domain.Retry.{MutationObservation, mutation_observation_eq}
use ctrldb.Domain.Outcome.{step_outcome_eq, StepOutcome}
use ctrldb.Workflow.Cancellation.Restore.{
  restore_controller, point_of_no_return_reached, contradicts, bound_hash, after_step,
}
use ctrldb.Workflow.Journal.Stream.{validate_journal}
use ctrldb.Domain.Time.{is_zero, is_after}
use ctrldb.Domain.Contract.Build.{is_blank}

-- `validateCancellationRequest`
unfoldable pub validate_request : CancellationRequest → CancellationCheck
unfolding is_operation_id is_plan_id
validate_request request = checks (
    reject_if
      (not (is_operation_id request.operation_id)
        || (not (is_plan_id request.plan_id)
            || (request.sequence == 0 || is_zero request.requested_at)))
      (invalid_cancellation "invalid request identity")
    ∷ reject_if (not (request.requested_at.offset == 0))
        (invalid_cancellation "invalid request time")
    ∷ [])

-- Whether the first entry binds the operation, the plan and the contract of the machine.
abbrev pub first_binds : Machine → ExecutionContract → List JournalEntry → Bool
first_binds machine contract [] = false
first_binds machine contract (first ∷ entries) =
    first.sequence == 1
    && (str_eq first.operation_id machine.operation_id
        && (str_eq first.plan_id machine.plan_id && str_eq first.contract_hash contract.digest))

-- Whether the request extends the journal that ends with `last`.
abbrev pub extends_last : Machine → CancellationRequest → Option JournalEntry → Bool
extends_last machine request none = false
extends_last machine request (some last) =
    state_eq last.operation_state machine.state
    && (request.sequence == (last.sequence + 1) % 2 ^ 64
        && is_after request.requested_at last.recorded_at)

-- The variables of the loop of `cancellationContext`.
pub record Progress : Type 0 where
  pub next : ℕ
  pub observation : MutationObservation

abbrev pub observe_pause : Option JournalPause → MutationObservation → MutationObservation
observe_pause none observation = observation
observe_pause (some pause) observation =
    if pause.mutation_occurred then MutationObservation.occurred else observation

abbrev pub observe_step : JournalStep → MutationObservation → MutationObservation
observe_step step observation =
    if step_outcome_eq step.outcome StepOutcome.unknown
    then MutationObservation.unknown
    else if step.mutation_occurred
        && not (mutation_observation_eq observation MutationObservation.unknown)
    then MutationObservation.occurred
    else observation

unfoldable pub progress_step :
    ExecutionContract → Progress → Option JournalStep → Result CancellationError Progress
progress_step contract p none = err nil_entry
progress_step contract p (some step) = do
  reject_if (contradicts step (get_elem? contract.steps p.next))
      (invalid_cancellation "journal steps do not match the execution contract")
  ok (record { next = after_step step p.next; observation = observe_step step p.observation })

-- The body of the loop, by the kind of the entry.
unfoldable pub progress_entry :
    ExecutionContract
    → Progress
    → JournalEntryKind
    → JournalEntry
    → Result CancellationError Progress
unfolding progress_step
progress_entry contract p JournalEntryKind.cancellation_request entry =
    err (invalid_cancellation "durable journal already contains a cancellation request")
progress_entry contract p JournalEntryKind.step entry =
    progress_step contract (record p { observation = observe_pause entry.pause p.observation })
      entry.step
progress_entry contract p _ entry =
    ok (record p { observation = observe_pause entry.pause p.observation })

unfoldable pub progress_entries :
    ExecutionContract → Progress → List JournalEntry → Result CancellationError Progress
unfolding progress_entry
progress_entries contract p [] = ok p
progress_entries contract p (entry ∷ entries) =
    progress_entry contract p entry.kind entry >>= λ p'. progress_entries contract p' entries

abbrev pub current_step :
    Option ExecutionStepContract → Result CancellationError ExecutionStepContract
current_step none = err (invalid_cancellation "execution contract has no current step")
current_step (some step) = ok step

abbrev pub unobserved : Progress
unobserved = record { next = 0; observation = MutationObservation.not_occurred }

-- The checks of `validateCancellationFoundation`.
unfoldable pub foundation_check :
    Machine → CancellationRequest → ExecutionContract → List JournalEntry → CancellationCheck
unfolding is_contract_digest
foundation_check machine request contract entries = checks (
    map_err (λ e. invalid_cancellation "invalid durable journal") (validate_journal entries)
    ∷ reject_if
        (not (is_contract_digest contract.digest)
          || (is_blank contract.workflow_id || length contract.steps == 0))
        (invalid_cancellation "invalid execution contract")
    ∷ reject_if (not (first_binds machine contract entries)) (
        invalid_cancellation
          "initial journal entry does not bind the operation, plan, and contract")
    ∷ reject_if (not (extends_last machine request (last? entries)))
        (invalid_cancellation "request does not extend the current machine journal")
    ∷ [])

module _ (hash : List JournalEntry → Option String) where
  -- `validateCancellationFoundation`
  unfoldable pub validate_foundation :
      Machine
      → CancellationRequest
      → ExecutionContract
      → List JournalEntry
      → Result CancellationError String
  unfolding foundation_check restore_controller
  validate_foundation machine request contract entries = do
    foundation_check machine request contract entries
    _ ←
        map_err (λ e. invalid_cancellation "durable journal contradicts the execution contract")
          (restore_controller hash entries machine.operation_id machine.plan_id contract)
    bound_hash (hash entries)

  -- `cancellationContext`; the foundation has found the contract to have steps.
  unfoldable pub cancellation_context :
      Machine
      → ExecutionContract
      → List JournalEntry
      → CancellationRequest
      → Result CancellationError (ExecutionStepContract × MutationObservation)
  unfolding validate_foundation point_of_no_return_reached progress_entries
  cancellation_context machine contract entries request = do
    _ ← validate_foundation machine request contract entries
    reject_if (point_of_no_return_reached contract entries)
        (invalid_cancellation "point of no return has been reached")
    p ← progress_entries contract unobserved entries
    step ← current_step (get_elem? contract.steps p.next)
    ok (step, p.observation)
