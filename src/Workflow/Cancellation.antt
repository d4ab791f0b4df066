-- ===== src/Workflow/Cancellation.antt =====
-- internal/workflow/cancellation.go: the values of cancellation, and what the operator is shown.
-- A `*Machine` is an address with the machine there.
pub mod Restore
pub mod Apply
pub mod Context
pub mod Request
pub mod Boundary
use ctrldb.Prelude.{
  ℕ, String, Bool, false, Option, Result, not, str_eq, none, if◌then◌else◌, true, ◌&&◌, ◌==◌, ◌||◌,
  bool_eq,
}
use ctrldb.Domain.Time.{zero_time, Time, same_time}
use ctrldb.Domain.Retry.{MutationObservation, mutation_observation_eq}
use ctrldb.Workflow.Machine.{can_transition, Machine, MachineError}
use ctrldb.Domain.Operation.{OperationState, state_valid, state_eq, state_terminal}
use ctrldb.Domain.Journal.{JournalEntry}
use ctrldb.Workflow.Route.{route_reachable}
use ctrldb.Workflow.Journal.Cursor.{holds}

pub record MachineRef : Type 0 where
  pub address : ℕ
  pub machine : Machine

pub record CancellationBinding : Type 0 where
  pub operation_id : String
  pub plan_id : String
  pub contract_hash : String
  pub journal_hash : String
  pub sequence : ℕ
  pub requested_at : Time
  pub step_id : String
  pub cancel_safe : Bool

abbrev pub empty_binding : CancellationBinding
empty_binding = record {
  operation_id = "";
  plan_id = "";
  contract_hash = "";
  journal_hash = "";
  sequence = 0;
  requested_at = zero_time;
  step_id = "";
  cancel_safe = false;
}

-- `==` of two bindings.
abbrev pub binding_eq : CancellationBinding → CancellationBinding → Bool
binding_eq a b =
    str_eq a.operation_id b.operation_id
    && (str_eq a.plan_id b.plan_id
        && (str_eq a.contract_hash b.contract_hash
            && (str_eq a.journal_hash b.journal_hash
                && (a.sequence == b.sequence
                    && (same_time a.requested_at b.requested_at
                        && (str_eq a.step_id b.step_id && bool_eq a.cancel_safe b.cancel_safe))))))

-- The target that is "" in the source is `none`.
pub record CancellationController : Type 0 where
  pub queued : Bool
  pub target : Option OperationState
  pub binding : CancellationBinding

abbrev pub empty_controller : CancellationController
empty_controller = record { queued = false; target = none; binding = empty_binding }

pub record CancellationRequest : Type 0 where
  pub operation_id : String
  pub plan_id : String
  pub sequence : ℕ
  pub requested_at : Time

-- `unset` is the action "" of the zero decision.
pub data CancellationAction : Type 0 where
  unset no_action persist_request cancel roll_back : CancellationAction

-- `used` is the number of the authorization's atomic cell, which all copies of a decision share.
pub record CancellationAuthorization : Type 0 where
  pub machine : ℕ
  pub generation : ℕ
  pub from : OperationState
  pub target : OperationState
  pub binding : CancellationBinding
  pub used : ℕ

pub record CancellationDecision : Type 0 where
  pub action : CancellationAction
  pub target : Option OperationState
  pub journal_entry : Option JournalEntry
  pub ui_state : String
  pub authorization : Option CancellationAuthorization

pub data CancellationError : Type 0 where
  invalid_cancellation : String → CancellationError
  in_state : OperationState → String → CancellationError
  cannot_route : OperationState → OperationState → CancellationError
  refused_transition : MachineError → CancellationError
  nil_entry : CancellationError

abbrev pub CancellationCheck : Type 0
CancellationCheck = Result CancellationError (Unit {0})

-- `cancellationTarget`
abbrev pub cancellation_target : Bool → OperationState
cancellation_target mutated = if mutated then OperationState.rollback else OperationState.cancelled

abbrev pub occurred_or_unknown : MutationObservation → Bool
occurred_or_unknown observation =
    not (mutation_observation_eq observation MutationObservation.not_occurred)

abbrev pub available_ui : String
available_ui = "Cancellation is available at this safe boundary."

abbrev pub unavailable_ui : String
unavailable_ui = "Cancellation requires a durable request before the next safe boundary."

abbrev pub no_route_ui : String
no_route_ui = "Cancellation is unavailable in this operation state."

abbrev pub queued_ui : String
queued_ui = "Cancellation queued; operation will stop at the next safe boundary."

abbrev pub cancel_ui : String
cancel_ui = "Cancellation accepted; no mutation may have occurred."

abbrev pub rollback_ui : String
rollback_ui = "Cancellation accepted; rollback and independent verification are required."

-- The target that `UIState` asks about.
abbrev pub shown_target : CancellationController → Bool → OperationState
shown_target controller mutated =
    if controller.queued && holds (λ t. state_eq t OperationState.rollback) controller.target
    then OperationState.rollback
    else cancellation_target mutated

-- `UIState`
unfoldable pub ui_state_of : CancellationController → OperationState → Bool → Bool → String
unfolding can_transition route_reachable
ui_state_of controller current cancel_safe mutated =
    let target = shown_target controller mutated in
    if not (state_valid current)
      || (state_terminal current
          || ((cancel_safe && not (can_transition current target))
              || (not cancel_safe && not (route_reachable current target))))
    then no_route_ui
    else if controller.queued
    then queued_ui
    else if not cancel_safe
    then unavailable_ui
    else available_ui

-- `matchesMachine` of a machine that is not nil.
abbrev pub matches_machine : CancellationBinding → Machine → Bool
matches_machine binding machine =
    str_eq binding.operation_id machine.operation_id && str_eq binding.plan_id machine.plan_id

-- `cancellationStateIsStructurallyPreMutation`
abbrev pub pre_mutation : OperationState → Bool
pre_mutation OperationState.discover = true
pre_mutation OperationState.validate = true
pre_mutation OperationState.plan = true
pre_mutation OperationState.approved_waiting = true
pre_mutation OperationState.lock = true
pre_mutation _ = false
