-- ===== src/Workflow/Machine.antt =====
-- internal/workflow/machine.go: the transition table and the machine over it. A method on `*Machine`
-- takes the pointer's target, or `none` for nil, and returns its error with the target afterwards.
pub mod Laws
pub mod Life
use ctrldb.Prelude.{
  ℕ, String, ◌+◌, ◌%◌, ◌^◌, Bool, false, not, ◌&&◌, ◌||◌, Option, none, some, List, [], ◌∷◌, Result,
  ok, err, reject_if, ◌>>◌, if◌then◌else◌,
}
use ctrldb.Domain.Operation.{OperationState, state_valid, state_eq}
use ctrldb.Workflow.Patterns.{is_operation_id, is_plan_id}

-- The rows of the table, in the source's order.
abbrev pub transitions : OperationState → List OperationState
transitions OperationState.discover =
    OperationState.validate ∷ OperationState.cancelled ∷ OperationState.failed ∷ []
transitions OperationState.validate =
    OperationState.plan ∷ OperationState.cancelled ∷ OperationState.failed ∷ []
transitions OperationState.plan =
    OperationState.approved_waiting ∷ OperationState.lock ∷ OperationState.cancelled
    ∷ OperationState.failed ∷ []
transitions OperationState.approved_waiting = OperationState.lock ∷ OperationState.cancelled ∷ []
transitions OperationState.lock =
    OperationState.protect ∷ OperationState.execute ∷ OperationState.cancelled
    ∷ OperationState.failed ∷ []
transitions OperationState.protect =
    OperationState.execute ∷ OperationState.paused ∷ OperationState.rollback
    ∷ OperationState.cancelled ∷ OperationState.failed ∷ []
transitions OperationState.execute =
    OperationState.paused ∷ OperationState.verify ∷ OperationState.rollback
    ∷ OperationState.cancelled ∷ OperationState.failed ∷ []
transitions OperationState.paused =
    OperationState.discover ∷ OperationState.rollback ∷ OperationState.cancelled
    ∷ OperationState.failed ∷ []
transitions OperationState.verify =
    OperationState.document ∷ OperationState.complete_with_failed_verification
    ∷ OperationState.rollback ∷ []
transitions OperationState.document =
    OperationState.complete ∷ OperationState.complete_with_documentation_error ∷ []
transitions OperationState.rollback =
    OperationState.verified_rollback ∷ OperationState.failed_cleanup ∷ []
transitions _ = []

-- `_, ok := row[state]`
abbrev pub has : OperationState → List OperationState → Bool
has s [] = false
has s (t ∷ ts) = state_eq s t || has s ts

-- `CanTransition`
unfoldable pub can_transition : OperationState → OperationState → Bool
can_transition from to =
    if not (state_valid from) || not (state_valid to) then false else has to (transitions from)

-- `generation` is a uint64.
pub record Machine : Type 0 where
  pub operation_id : String
  pub plan_id : String
  pub state : OperationState
  pub generation : ℕ

pub data MachineError : Type 0 where
  invalid_binding : MachineError
  invalid_state : OperationState → MachineError
  nil_machine : MachineError
  invalid_transition : OperationState → OperationState → MachineError
  decision_required : MachineError

-- `RestoreMachine`
unfoldable pub restore_machine : String → String → OperationState → Result MachineError Machine
unfolding reject_if
restore_machine operation_id plan_id state = do
  reject_if (not (is_operation_id operation_id) || not (is_plan_id plan_id)) invalid_binding
  reject_if (not (state_valid state)) (invalid_state state)
  ok (record { operation_id = operation_id; plan_id = plan_id; state = state; generation = 0 })

-- `NewMachine`
unfoldable pub new_machine : String → String → Result MachineError Machine
unfolding restore_machine
new_machine operation_id plan_id = restore_machine operation_id plan_id OperationState.discover

-- `cancellationAuthorizationRequired`
abbrev pub authorization_required : OperationState → Bool
authorization_required s =
    state_eq s OperationState.protect
    || (state_eq s OperationState.execute || state_eq s OperationState.paused)

-- The guards of `transition`.
unfoldable pub transition_check : Machine → OperationState → Bool → Result MachineError (Unit {0})
unfolding reject_if
transition_check machine next authorized = do
  reject_if (not (state_valid next)) (invalid_state next)
  reject_if (not (can_transition machine.state next)) (invalid_transition machine.state next)
  reject_if
      (state_eq next OperationState.cancelled
        && authorization_required machine.state
        && not authorized)
      decision_required

-- `machine.state = next; machine.generation++`
abbrev pub advance : Machine → OperationState → Machine
advance machine next = record machine {
  state = next;
  generation = (machine.generation + 1) % 2 ^ 64;
}

-- `transition`
unfoldable pub transition :
    Option Machine → OperationState → Bool → Result MachineError (Unit {0}) × Option Machine
unfolding transition_check
transition none next authorized = (err nil_machine, none)
transition (some machine) next authorized = elim (transition_check machine next authorized) [
  | ok _ ↦ (ok tt, some (advance machine next))
  | err e ↦ (err e, some machine)
]

-- `Transition`
unfoldable pub transition_unauthorized :
    Option Machine → OperationState → Result MachineError (Unit {0}) × Option Machine
unfolding transition
transition_unauthorized machine next = transition machine next false
