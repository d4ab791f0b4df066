-- ===== src/Tests/Machines.antt =====
-- Machines and routes for internal/workflow.
use ctrldb.Workflow.Machine.{
  Machine, new_machine, restore_machine, transition, has, advance, transition_check, MachineError,
  can_transition,
}
use ctrldb.Prelude.{List, true, false, ◌≡◌, Bool, reject_if, ◌↔◌, ◌∷◌, some, [], ok, err, refl}
use ctrldb.Workflow.Route.{route_reachable}
use ctrldb.Domain.Operation.{OperationState, state_terminal}
use ctrldb.Workflow.Patterns.{is_operation_id, is_plan_id}
use ctrldb.Workflow.Machine.Life.{targets, new_machine-drive_gates, way_out, drive, transition_ends}
use ctrldb.Workflow.Route.Sound.{Route}
use ctrldb.Workflow.Route.Complete.{route_reachable_iff}

abbrev discovering : Machine
discovering = record {
  operation_id = "op-00000000000000ff";
  plan_id = "plan-00000000000000aa";
  state = OperationState.discover;
  generation = 0;
}

abbrev executing : Machine
executing = record discovering { state = OperationState.execute; generation = 4 }

abbrev moves : List (OperationState × Bool)
moves =
    (OperationState.validate, false)
    ∷ (OperationState.plan, false)
    ∷ (OperationState.lock, false)
    ∷ (OperationState.execute, false)
    ∷ (OperationState.verify, false)
    ∷ []

abbrev verifying : Machine
verifying = record discovering { state = OperationState.verify; generation = 5 }

driven :
    (new_machine "op-00000000000000ff" "plan-00000000000000aa" ≡ ok discovering)
    × (drive (some discovering) moves ≡ ok (some verifying))
unfolding new_machine restore_machine reject_if is_operation_id is_plan_id drive transition
    transition_check can_transition
driven = (refl, refl)

new_machine-drive_gates_example :
    (true ≡ true → has OperationState.lock (targets moves) ≡ true)
    × (false ≡ true → has OperationState.verify (targets moves) ≡ true)
    × (false ≡ true → has OperationState.document (targets moves) ≡ true)
    × (false ≡ true → has OperationState.rollback (targets moves) ≡ true)
new_machine-drive_gates_example =
    new_machine-drive_gates "op-00000000000000ff" "plan-00000000000000aa" moves driven.0 driven.1

transition_ends_example :
    (false ≡ false
      → (transition (some executing) (way_out OperationState.execute) false
          ≡ (ok tt, some (advance executing (way_out OperationState.execute))))
        × (state_terminal (way_out OperationState.execute) ≡ true))
    × (false ≡ true
        → (next : OperationState) (authorized : Bool)
        → (e : MachineError) × (transition (some executing) next authorized
            ≡ (err e, some executing)))
transition_ends_example = transition_ends executing refl

route_reachable_iff_example :
    (route_reachable OperationState.discover OperationState.verified_rollback ≡ true)
    ↔ Route OperationState.verified_rollback OperationState.discover
route_reachable_iff_example =
    route_reachable_iff OperationState.discover OperationState.verified_rollback
