-- ===== src/Workflow/Cancellation/Request.antt =====
-- `Request` of internal/workflow/cancellation.go.
pub mod Observed
pub mod Complete
pub mod Routes
pub mod Applied
pub mod Safe
pub mod Restored
pub mod Durable
pub mod Queued
pub mod RoundTrip
use ctrldb.Workflow.Cancellation.Context.{
  cancellation_context, validate_foundation, validate_request,
}
use ctrldb.Workflow.Machine.{Machine}
use ctrldb.Prelude.{
  Option, List, Result, Bool, some, String, checks, false, err, ok, none, reject_if, ◌∷◌, map_err,
  ◌&&◌, ◌>>◌, ◌>>=◌, not, [], ◌||◌, str_eq, true, ◌++◌,
}
use ctrldb.Domain.Journal.{JournalEntry, JournalEntryKind, journal_schema_v1}
use ctrldb.Domain.Contract.{ExecutionContract, ExecutionStepContract}
use ctrldb.Workflow.Cancellation.{
  CancellationRequest, CancellationBinding, OperationState, CancellationError,
  CancellationController, empty_binding, state_eq, invalid_cancellation, cancellation_target,
  occurred_or_unknown, MachineRef, state_valid, in_state, pre_mutation, state_terminal,
  CancellationDecision, persist_request, unavailable_ui,
}
use ctrldb.Domain.Retry.{MutationObservation}
use ctrldb.Workflow.Cancellation.Apply.{route_to, Cells, Routed}
use ctrldb.Workflow.Journal.Stream.{validate_journal}

-- `cancellationJournalEntry`
abbrev pub request_entry :
    CancellationRequest → OperationState → String → String → MutationObservation → JournalEntry
request_entry request state step_id contract_hash observation = record {
  schema = journal_schema_v1;
  operation_id = request.operation_id;
  plan_id = request.plan_id;
  contract_hash = contract_hash;
  sequence = request.sequence;
  kind = JournalEntryKind.cancellation_request;
  recorded_at = request.requested_at;
  operation_state = state;
  step = none;
  pause = none;
  cancellation = some (record {
    requested_at = request.requested_at;
    current_step_id = step_id;
    execution_contract_hash = contract_hash;
    mutation_observation = observation;
    required_route = cancellation_target (occurred_or_unknown observation);
  });
}

-- The binding of a request, before its step is known.
abbrev pub request_binding : CancellationRequest → ExecutionContract → String → CancellationBinding
request_binding request contract journal_hash = record empty_binding {
  operation_id = request.operation_id;
  plan_id = request.plan_id;
  contract_hash = contract.digest;
  journal_hash = journal_hash;
  sequence = request.sequence;
  requested_at = request.requested_at;
}

-- The durable record of a request that has to wait for a boundary.
unfoldable pub persist :
    CancellationController
    → Cells
    → MachineRef
    → CancellationRequest
    → ExecutionContract
    → List JournalEntry
    → ExecutionStepContract
    → MutationObservation
    → Routed
persist controller cells ref request contract entries step observation = do
  reject_if
      (not (state_eq ref.machine.state OperationState.protect)
        && not (state_eq ref.machine.state OperationState.execute))
      (in_state ref.machine.state "has no safe cancellation route")
  let entry : JournalEntry =
      request_entry request ref.machine.state step.id contract.digest observation
  map_err (λ e. invalid_cancellation "request does not extend the durable journal")
      (validate_journal (entries ++ entry ∷ []))
  let decision : CancellationDecision = record {
    action = persist_request;
    target = none;
    journal_entry = some entry;
    ui_state = unavailable_ui;
    authorization = none;
  }
  ok (controller, decision, cells)

-- A request in a state that mutations may have preceded.
unfoldable pub request_in_flight :
    CancellationController
    → Cells
    → MachineRef
    → CancellationRequest
    → ExecutionContract
    → List JournalEntry
    → CancellationBinding
    → ExecutionStepContract
    → MutationObservation
    → Routed
unfolding route_to persist
request_in_flight controller cells ref request contract entries binding step observation =
    reject_if (occurred_or_unknown observation && str_eq contract.rollback_boundary "none")
      (invalid_cancellation "execution contract has no rollback boundary")
    >> elim (state_eq ref.machine.state OperationState.paused) [
      | true ↦
          route_to cells ref (cancellation_target (occurred_or_unknown observation))
            (record binding { step_id = step.id; cancel_safe = step.cancel_safe })
      | false ↦ persist controller cells ref request contract entries step observation
    ]

module _ (hash : List JournalEntry → Option String) where
  -- The checks of `Request` before the states are told apart, with the hash of the journal.
  unfoldable pub request_check :
      CancellationController
      → Machine
      → CancellationRequest
      → ExecutionContract
      → List JournalEntry
      → Result CancellationError String
  unfolding validate_request validate_foundation
  request_check controller machine request contract entries = do
    reject_if
        (not (str_eq machine.operation_id request.operation_id)
          || not (str_eq machine.plan_id request.plan_id))
        (invalid_cancellation "request does not match machine binding")
    validate_request request
    reject_if (not (state_valid machine.state) || state_terminal machine.state)
        (in_state machine.state "cannot accept cancellation")
    journal_hash ← validate_foundation hash machine request contract entries
    reject_if controller.queued (invalid_cancellation "cancellation request already recorded")
    ok journal_hash

  -- `Request` on a machine that is not nil, by whether its state precedes every mutation.
  unfoldable pub request_by :
      Bool
      → CancellationController
      → Cells
      → MachineRef
      → CancellationRequest
      → ExecutionContract
      → List JournalEntry
      → String
      → Routed
  unfolding route_to cancellation_context request_in_flight
  request_by true controller cells ref request contract entries journal_hash =
      route_to cells ref OperationState.cancelled (request_binding request contract journal_hash)
  request_by false controller cells ref request contract entries journal_hash = do
    (step, observation) ← cancellation_context hash ref.machine contract entries request
    request_in_flight controller cells ref request contract entries
        (request_binding request contract journal_hash) step observation

  -- `Request`
  unfoldable pub request_cancellation :
      CancellationController
      → Cells
      → Option MachineRef
      → CancellationRequest
      → ExecutionContract
      → List JournalEntry
      → Routed
  unfolding request_check request_by
  request_cancellation controller cells none request contract entries =
      err (invalid_cancellation "nil machine")
  request_cancellation controller cells (some ref) request contract entries = do
    journal_hash ← request_check controller ref.machine request contract entries
    request_by (pre_mutation ref.machine.state) controller cells ref request contract entries
        journal_hash
