-- ===== src/Workflow/Cancellation/Request/Routes.antt =====
-- Where `Request` of internal/workflow/cancellation.go sends an operation.
use ctrldb.Prelude.{
  >>=-ok, ok-injective, subst, ap, ◌∙◌, Bool, map_err-ok, Bool-cases, List, true, ◌≡◌, false, ok,
  some, reject_if, not, ◌⊎◌, none, ◌&&◌, str_eq, ◌++◌, ◌∷◌, inl, [], inr, map_err,
}
use ctrldb.Workflow.Cancellation.Apply.{route_to, Cells, decision_for, apply_cancellation, set_cell}
use ctrldb.Workflow.Cancellation.Apply.OneShot.{
  IsRoute, to_rollback, to_cancelled, IsComplete, route_to-apply_cancellation,
}
use ctrldb.Workflow.Cancellation.Request.{
  request_in_flight, MachineRef, cancellation_target, CancellationController, OperationState,
  CancellationRequest, CancellationBinding, ExecutionContract, CancellationDecision, JournalEntry,
  ExecutionStepContract, MutationObservation, persist, request_entry, validate_journal,
}
use ctrldb.Workflow.Machine.{can_transition, advance}
use ctrldb.Workflow.Cancellation.{
  cannot_route, occurred_or_unknown, invalid_cancellation, state_eq, in_state,
}

pub route_to-decision :
    (cells : Cells) (ref : MachineRef) (target : OperationState) (binding : CancellationBinding)
    {c : CancellationController} {d : CancellationDecision} {cells' : Cells}
    → route_to cells ref target binding ≡ ok (c, d, cells')
    → decision_for cells ref target binding ≡ d
unfolding route_to
route_to-decision cells ref target binding h =
    let (u, passed, same) =
      >>=-ok
        (reject_if (not (can_transition ref.machine.state target))
          (cannot_route ref.machine.state target))
        _ h in
    ap (λ x. x.1) (ok-injective same)

pub some_eq : {a b : OperationState} → some a ≡ some b → a ≡ b
some_eq h = cc

pub routed-apply_cancellation :
    (cells : Cells) (ref : MachineRef) (to : OperationState) (binding : CancellationBinding)
    {c : CancellationController} {d : CancellationDecision} {cells' : Cells}
    → IsRoute to
    → IsComplete ref.machine binding
    → route_to cells ref to binding ≡ ok (c, d, cells')
    → (target : OperationState) → d.target ≡ some target
    → IsRoute target
      × (apply_cancellation cells' (some ref) d
          ≡ (ok tt, set_cell cells.next cells', some (advance ref.machine target)))
routed-apply_cancellation cells ref to binding {d = d} {cells' = cells'} route complete h target t =
    let same : to ≡ target =
      some_eq (ap (λ x. x.target) (route_to-decision cells ref to binding h) ∙ t) in
    subst
      (λ x.
        IsRoute x
        × (apply_cancellation cells' (some ref) d
            ≡ (ok tt, set_cell cells.next cells', some (advance ref.machine x))))
      same (route, route_to-apply_cancellation cells ref to binding route complete h)

pub target_IsRoute : (mutated : Bool) → IsRoute (cancellation_target mutated)
target_IsRoute true = to_rollback
target_IsRoute false = to_cancelled

-- A request in flight is routed out of PAUSED, or it is made durable.
pub request_in_flight-ok :
    (controller : CancellationController) (cells : Cells) (ref : MachineRef)
    (request : CancellationRequest) (contract : ExecutionContract) (entries : List JournalEntry)
    (binding : CancellationBinding) (step : ExecutionStepContract)
    (observation : MutationObservation) {r : CancellationController × CancellationDecision × Cells}
    → request_in_flight controller cells ref request contract entries binding step observation
      ≡ ok r
    → (route_to cells ref
          (cancellation_target (occurred_or_unknown observation))
          (record binding { step_id = step.id; cancel_safe = step.cancel_safe })
        ≡ ok r)
      ⊎ (persist controller cells ref request contract entries step observation ≡ ok r)
unfolding request_in_flight
request_in_flight-ok controller cells ref request contract entries binding step observation h =
    let (u, passed, rest) =
      >>=-ok
        (reject_if (occurred_or_unknown observation && str_eq contract.rollback_boundary "none")
          (invalid_cancellation "execution contract has no rollback boundary"))
        _ h in
    elim (Bool-cases (state_eq ref.machine.state OperationState.paused)) [
      | inl paused ↦ inl (rw paused at rest)
      | inr running ↦ inr (rw running at rest)
    ]

-- What a durable request returns.
pub persist-ok :
    (controller : CancellationController) (cells : Cells) (ref : MachineRef)
    (request : CancellationRequest) (contract : ExecutionContract) (entries : List JournalEntry)
    (step : ExecutionStepContract) (observation : MutationObservation) {c : CancellationController}
    {d : CancellationDecision} {cells' : Cells}
    → persist controller cells ref request contract entries step observation ≡ ok (c, d, cells')
    → (none ≡ d.target)
      × (some (request_entry request ref.machine.state step.id contract.digest observation)
          ≡ d.journal_entry)
      × (validate_journal (
            entries
            ++ request_entry request ref.machine.state step.id contract.digest observation ∷ [])
          ≡ ok tt)
unfolding persist
persist-ok controller cells ref request contract entries step observation h =
    let (u, running, rest) =
      >>=-ok
        (reject_if
          (not (state_eq ref.machine.state OperationState.protect)
            && not (state_eq ref.machine.state OperationState.execute))
          (in_state ref.machine.state "has no safe cancellation route"))
        _ h in
    let stream =
      entries ++ request_entry request ref.machine.state step.id contract.digest observation ∷ [] in
    let (v, extended, same) =
      >>=-ok
        (map_err (λ e. invalid_cancellation "request does not extend the durable journal")
          (validate_journal stream))
        _ rest in
    let made = ok-injective same in
    (
      ap (λ x. x.1.target) made,
      ap (λ x. x.1.journal_entry) made,
      map_err-ok _ (validate_journal stream) extended,
    )
