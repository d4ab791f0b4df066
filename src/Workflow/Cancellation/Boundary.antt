-- ===== src/Workflow/Cancellation/Boundary.antt =====
-- `AtBoundary` of internal/workflow/cancellation.go.
pub mod Held
use ctrldb.Workflow.Machine.{can_transition}
use ctrldb.Workflow.Cancellation.{
  CancellationController, Machine, OperationState, CancellationError, JournalEntry,
  CancellationCheck, invalid_cancellation, matches_machine, binding_eq, state_valid, state_terminal,
  in_state, holds, state_eq, MachineRef, CancellationBinding,
}
use ctrldb.Prelude.{
  Option, Result, List, some, err, none, checks, ok, reject_if, ◌>>◌, not, ◌||◌, ◌&&◌, ◌∷◌, last?,
  [], String, ◌>>=◌, Bool, ltb, false, str_eq, is_some,
}
use ctrldb.Workflow.Cancellation.Restore.{restore_controller}
use ctrldb.Workflow.Cancellation.Apply.{route_to, Cells, Routed}
use ctrldb.Domain.Contract.{ExecutionContract}
use ctrldb.Domain.Journal.{JournalEntryKind}

-- Whether an entry ends an attempt at the step of the binding, after the request.
abbrev pub ends_attempt : CancellationBinding → JournalEntryKind → JournalEntry → Bool
ends_attempt binding JournalEntryKind.step entry =
    ltb binding.sequence entry.sequence
    && holds (λ step. str_eq step.id binding.step_id && is_some step.ended_at) entry.step
ends_attempt binding _ entry = false

-- `cancellationBoundaryRecorded`
abbrev pub boundary_recorded : List JournalEntry → CancellationBinding → Bool
boundary_recorded [] binding = false
boundary_recorded (entry ∷ entries) binding =
    ends_attempt binding entry.kind entry || boundary_recorded entries binding

-- The checks of the controller and the machine.
unfoldable pub boundary_check :
    CancellationController → Machine → List JournalEntry → CancellationCheck
boundary_check controller machine entries = checks (
    reject_if (not (matches_machine controller.binding machine) && controller.queued)
      (invalid_cancellation "queued request does not match machine binding")
    ∷ reject_if (not (state_valid machine.state) || state_terminal machine.state)
        (in_state machine.state "cannot reach a cancellation boundary")
    ∷ reject_if (not controller.queued) (invalid_cancellation "no durable cancellation request")
    ∷ reject_if (not (holds (λ last. state_eq last.operation_state machine.state) (last? entries)))
        (invalid_cancellation "journal state does not match the current machine boundary")
    ∷ [])

-- The controller restored from the journal, if the request in it is still the same.
abbrev pub same_request :
    CancellationController
    → Result CancellationError CancellationController
    → Result CancellationError CancellationController
same_request controller (err e) = err (invalid_cancellation "durable cancellation request changed")
same_request controller (ok fresh) = do
  reject_if (not fresh.queued || not (binding_eq fresh.binding controller.binding))
      (invalid_cancellation "durable cancellation request changed")
  ok fresh

-- A queued controller has a target; "" is routed to no state.
abbrev pub queued_target : Option OperationState → OperationState
queued_target none = OperationState.other ""
queued_target (some target) = target

-- `AtBoundary`, with `cancellationJournalHash` as in the restoration.
unfoldable pub at_boundary :
    (List JournalEntry → Option String)
    → CancellationController
    → Cells
    → Option MachineRef
    → ExecutionContract
    → List JournalEntry
    → Routed
unfolding boundary_check restore_controller can_transition route_to
at_boundary hash controller cells none contract entries = err (invalid_cancellation "nil machine")
at_boundary hash controller cells (some ref) contract entries = do
  let machine = ref.machine
  boundary_check controller machine entries
  fresh ←
      same_request controller
        (restore_controller hash entries machine.operation_id machine.plan_id contract)
  reject_if (not (boundary_recorded entries controller.binding))
      (invalid_cancellation "no durable safe boundary after request")
  let target = queued_target fresh.target
  reject_if (not (can_transition machine.state target))
      (in_state machine.state "has no safe cancellation route")
  route_to cells ref target fresh.binding
