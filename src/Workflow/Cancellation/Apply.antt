-- ===== src/Workflow/Cancellation/Apply.antt =====
-- Routed decisions of internal/workflow/cancellation.go: `routeCancellationTo` and
-- `ApplyCancellation`, over the atomic cells that the copies of a decision share.
pub mod OneShot
use ctrldb.Prelude.{
  ℕ, Result, Option, ◌+◌, Bool, String, if◌then◌else◌, some, ◌==◌, ◌>>◌, false, true, reject_if,
  not, err, ◌&&◌, ◌||◌, none, map_err, ok,
}
use ctrldb.Domain.Operation.{OperationState, state_eq}
use ctrldb.Workflow.Machine.{can_transition, Machine, transition}
use ctrldb.Workflow.Cancellation.{
  CancellationAction, MachineRef, CancellationError, CancellationBinding, CancellationDecision,
  CancellationAuthorization, CancellationController, MachineError, CancellationCheck, roll_back,
  rollback_ui, cancel, cancel_ui, cannot_route, holds, invalid_cancellation, matches_machine,
  refused_transition, empty_controller,
}
use ctrldb.Workflow.Patterns.{is_contract_digest}
use ctrldb.Domain.Time.{is_zero}

-- The cells that were made, and which of them are set.
pub record Cells : Type 0 where
  pub next : ℕ
  pub used : ℕ → Bool

-- `&cancellationAuthorization{…}` makes a cell that is false.
abbrev pub new_cell : Cells → Cells
new_cell cells = record {
  next = cells.next + 1;
  used = λ i. if i == cells.next then false else cells.used i;
}

abbrev pub set_cell : ℕ → Cells → Cells
set_cell n cells = record cells { used = λ i. if i == n then true else cells.used i }

-- With an error the source returns the controller as it was and the zero decision.
abbrev pub Routed : Type 0
Routed = Result CancellationError (CancellationController × CancellationDecision × Cells)

abbrev pub action_for : OperationState → CancellationAction
action_for target = if state_eq target OperationState.rollback then roll_back else cancel

abbrev pub ui_for : OperationState → String
ui_for target = if state_eq target OperationState.rollback then rollback_ui else cancel_ui

-- The decision that routes the machine to the target, with a new cell.
abbrev pub decision_for :
    Cells → MachineRef → OperationState → CancellationBinding → CancellationDecision
decision_for cells ref target binding = record {
  action = action_for target;
  target = some target;
  journal_entry = none;
  ui_state = ui_for target;
  authorization = some (record {
    machine = ref.address;
    generation = ref.machine.generation;
    from = ref.machine.state;
    target = target;
    binding = binding;
    used = cells.next;
  });
}

-- `routeCancellationTo`
unfoldable pub route_to : Cells → MachineRef → OperationState → CancellationBinding → Routed
unfolding can_transition
route_to cells ref target binding = do
  reject_if (not (can_transition ref.machine.state target)) (cannot_route ref.machine.state target)
  ok (empty_controller, decision_for cells ref target binding, new_cell cells)

-- `cancellationActionMatchesTarget`
abbrev pub action_matches : CancellationAction → Option OperationState → Bool
action_matches cancel (some target) = state_eq target OperationState.cancelled
action_matches roll_back (some target) = state_eq target OperationState.rollback
action_matches _ _ = false

-- Whether the authorization is for this machine and this decision, and complete.
unfoldable pub authorized : MachineRef → CancellationDecision → CancellationAuthorization → Bool
unfolding is_contract_digest
authorized ref decision a =
    a.machine == ref.address
    && (holds (λ target. state_eq a.target target) decision.target
        && (matches_machine a.binding ref.machine
            && (is_contract_digest a.binding.contract_hash
                && (is_contract_digest a.binding.journal_hash
                    && (not (a.binding.sequence == 0)
                        && (not (is_zero a.binding.requested_at)
                            && action_matches decision.action decision.target))))))

-- What follows once the authorization is consumed; `moved` is what the transition returns.
abbrev pub at_same_boundary :
    Machine
    → CancellationAuthorization
    → Result MachineError (Unit {0}) × Option Machine
    → CancellationCheck × Option Machine
at_same_boundary machine a moved =
    if not (a.generation == machine.generation) || not (state_eq a.from machine.state)
    then (err (invalid_cancellation "cancellation boundary changed"), some machine)
    else (map_err refused_transition moved.0, moved.1)

abbrev pub consume :
    Cells
    → MachineRef
    → CancellationAuthorization
    → Result MachineError (Unit {0}) × Option Machine
    → CancellationCheck × Cells × Option Machine
consume cells ref a moved =
    if cells.used a.used
    then (
      err (invalid_cancellation "cancellation authorization already consumed"),
      cells,
      some ref.machine,
    )
    else let (result, machine) = at_same_boundary ref.machine a moved in
      (result, set_cell a.used cells, machine)

-- `ApplyCancellation` with the authorization of the decision.
unfoldable pub apply_authorization :
    Cells
    → MachineRef
    → CancellationDecision
    → Option CancellationAuthorization
    → CancellationCheck × Cells × Option Machine
unfolding authorized transition
apply_authorization cells ref decision none =
    (err (invalid_cancellation "missing or mismatched authorization"), cells, some ref.machine)
apply_authorization cells ref decision (some a) =
    if authorized ref decision a
    then consume cells ref a (transition (some ref.machine) a.target true)
    else (err (invalid_cancellation "missing or mismatched authorization"), cells, some ref.machine)

-- `ApplyCancellation`: the error, the cells and the machine afterwards. The authorization's target
-- is the decision's where it is applied.
unfoldable pub apply_cancellation :
    Cells → Option MachineRef → CancellationDecision → CancellationCheck × Cells × Option Machine
unfolding apply_authorization
apply_cancellation cells none decision =
    (err (invalid_cancellation "missing or mismatched authorization"), cells, none)
apply_cancellation cells (some ref) decision =
    apply_authorization cells ref decision decision.authorization
