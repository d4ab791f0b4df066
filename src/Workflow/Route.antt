-- ===== src/Workflow/Route.antt =====
-- `cancellationRouteReachable` of internal/workflow/cancellation.go: a breadth-first search of the
-- transition table for a state that may move to the target, through states that are not terminal.
pub mod Sound
pub mod Complete
use ctrldb.Prelude.{ℕ, zero, suc, Bool, true, false, not, ◌&&◌, List, [], ◌∷◌, ◌++◌, if◌then◌else◌}
use ctrldb.Domain.Operation.{OperationState, state_terminal}
use ctrldb.Workflow.Machine.{transitions, can_transition, has}

-- The inner loop: marks and enqueues the successors that are new and not terminal. Go ranges over
-- the row in an unspecified order; here it is the row's.
abbrev enqueue :
    List OperationState
    → List OperationState
    → List OperationState
    → List OperationState × List OperationState
enqueue [] visited pending = (visited, pending)
enqueue (next ∷ row) visited pending =
    let fresh = not (state_terminal next) && not (has next visited) in
    enqueue row (if fresh then next ∷ visited else visited)
      (if fresh then pending ++ next ∷ [] else pending)

-- The outer loop, on fuel. Each round takes one state, and a state is enqueued once.
unfoldable pub search_route : ℕ → List OperationState → List OperationState → OperationState → Bool
search_route zero visited pending target = false
search_route (suc fuel) visited [] target = false
search_route (suc fuel) visited (state ∷ pending) target =
    let (visited', pending') = enqueue (transitions state) visited pending in
    let rest = search_route fuel visited' pending' target in
    if can_transition state target then true else rest

-- There are eleven canonical states that are not terminal, and the start may be any string.
abbrev pub route_fuel : ℕ
route_fuel = 13

-- `cancellationRouteReachable`
unfoldable pub route_reachable : OperationState → OperationState → Bool
unfolding search_route
route_reachable current target = search_route route_fuel (current ∷ []) (current ∷ []) target
