-- ===== src/Workflow/Machine/Laws.antt =====
-- What one transition of the machine does, on every branch.
use ctrldb.Prelude.{
  Bool, true, false, some, ok, err, ◌≡◌, refl, arith, inl, inr, Result-cases, String,
}
use ctrldb.Domain.Operation.{OperationState, state_valid, state_terminal, state_eq→eq}
use ctrldb.Workflow.Machine.{
  Machine, MachineError, can_transition, transition, transition_check, authorization_required,
  advance, new_machine,
}

-- A transition joins canonical states.
pub can_transition-valid :
    (s t : OperationState)
    → can_transition s t ≡ true
    → (state_valid s ≡ true) × (state_valid t ≡ true)
unfolding can_transition
can_transition-valid s t h = ground arith

-- Exactly the terminal states have no way out: from a terminal state no transition is allowed, and
-- from any other canonical state one is.
pub terminal_iff_stuck :
    (s : OperationState)
    → state_valid s ≡ true
    → ((state_terminal s ≡ true) → (t : OperationState) → can_transition s t ≡ false)
      × ((state_terminal s ≡ false) → (t : OperationState) × (can_transition s t ≡ true))
unfolding can_transition
terminal_iff_stuck OperationState.discover v = (λ h. cc, λ h. (OperationState.validate, refl))
terminal_iff_stuck OperationState.validate v = (λ h. cc, λ h. (OperationState.plan, refl))
terminal_iff_stuck OperationState.plan v = (λ h. cc, λ h. (OperationState.lock, refl))
terminal_iff_stuck OperationState.approved_waiting v = (λ h. cc, λ h. (OperationState.lock, refl))
terminal_iff_stuck OperationState.lock v = (λ h. cc, λ h. (OperationState.execute, refl))
terminal_iff_stuck OperationState.protect v = (λ h. cc, λ h. (OperationState.execute, refl))
terminal_iff_stuck OperationState.execute v = (λ h. cc, λ h. (OperationState.verify, refl))
terminal_iff_stuck OperationState.paused v = (λ h. cc, λ h. (OperationState.discover, refl))
terminal_iff_stuck OperationState.verify v = (λ h. cc, λ h. (OperationState.document, refl))
terminal_iff_stuck OperationState.document v = (λ h. cc, λ h. (OperationState.complete, refl))
terminal_iff_stuck OperationState.rollback v =
    (λ h. cc, λ h. (OperationState.verified_rollback, refl))
terminal_iff_stuck (OperationState.other s) v = cc
terminal_iff_stuck s v = (λ h t. ground arith, λ h. cc)

-- What `transition` demands: an edge of the table, and the authorization of a cancellation out of
-- PROTECT, EXECUTE or PAUSED.
pub record IsAllowed (m : Machine) (next : OperationState) (authorized : Bool) : Type 0 where
  pub edge : can_transition m.state next ≡ true
  pub decided :
      next ≡ OperationState.cancelled → authorization_required m.state ≡ true → authorized ≡ true

pub allowed-transition :
    (m : Machine) (next : OperationState) (authorized : Bool)
    → IsAllowed m next authorized
    → transition (some m) next authorized ≡ (ok tt, some (advance m next))
unfolding transition
allowed-transition m next authorized h =
    ground (arith, can_transition-valid m.state next, state_eq→eq next OperationState.cancelled)

check_IsAllowed :
    (m : Machine) (next : OperationState) (authorized : Bool)
    → transition_check m next authorized ≡ ok tt
    → IsAllowed m next authorized
unfolding transition_check
check_IsAllowed m next authorized h = ground arith

pub transition-ok_IsAllowed :
    (m : Machine) (next : OperationState) (authorized : Bool)
    → (transition (some m) next authorized).0 ≡ ok tt
    → IsAllowed m next authorized
unfolding transition
transition-ok_IsAllowed m next authorized h =
    elim (Result-cases (transition_check m next authorized)) [
      | inl (u, passed) ↦ check_IsAllowed m next authorized passed
      | inr (e, failed) ↦ absurd (ground arith)
    ]

pub transition_exact :
    (m : Machine) (next : OperationState) (authorized : Bool)
    → (IsAllowed m next authorized
        → transition (some m) next authorized ≡ (ok tt, some (advance m next)))
      × (¬ IsAllowed m next authorized
          → (e : MachineError) × (transition (some m) next authorized ≡ (err e, some m)))
unfolding transition
transition_exact m next authorized = (
  allowed-transition m next authorized,
  λ refused. elim (Result-cases (transition_check m next authorized)) [
    | inl (u, passed) ↦ absurd (refused (check_IsAllowed m next authorized passed))
    | inr (e, failed) ↦ (e, rw (failed, transition))
  ],
)

-- A machine starts in DISCOVER with the binding that it was given.
pub new_machine_start :
    (operation_id plan_id : String) {m : Machine}
    → new_machine operation_id plan_id ≡ ok m
    → (m.state ≡ OperationState.discover)
      × (m.operation_id ≡ operation_id)
      × (m.plan_id ≡ plan_id)
      × (m.generation ≡ 0)
unfolding new_machine
new_machine_start operation_id plan_id h = ground arith
