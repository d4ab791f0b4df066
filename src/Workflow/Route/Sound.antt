-- ===== src/Workflow/Route/Sound.antt =====
-- The search finds only real routes.
use ctrldb.Prelude.{
  ℕ, ◌≡◌, All, List, true, suc, false, arith, ◌∷◌, Bool-cases, [], not, inl, inr, zero, ◌&&◌, ◌++◌,
  All-append, not-true, and_true, Bool, if◌then◌else◌, refl,
}
use ctrldb.Domain.Operation.{OperationState, state_terminal}
use ctrldb.Workflow.Machine.{can_transition, transitions, has}
use ctrldb.Workflow.Route.{route_reachable, search_route, enqueue, route_fuel}

-- A route of the table: an allowed transition to the target, or one to a state that is not terminal
-- and a route from there.
pub data Route (target : OperationState) : OperationState → Type 0 where
  last : {s : OperationState} → can_transition s target ≡ true → Route target s
  via :
      {s t : OperationState}
      → can_transition s t ≡ true
      → state_terminal t ≡ false
      → Route target t
      → Route target s

-- Every entry of a row is an allowed transition.
row_edges : (s : OperationState) → All (λ t. can_transition s t ≡ true) (transitions s)
unfolding can_transition
row_edges OperationState.discover = ground arith
row_edges s = ground arith

module _ (current target : OperationState) where
  -- Whatever is reached from `p` by the table is reached from where the search began.
  abbrev Back : OperationState → Type 0
  Back p = Route target p → Route target current

  All-if :
      (fresh : Bool) (next : OperationState) (pending : List OperationState)
      → All Back pending
      → (fresh ≡ true → Back next)
      → All Back (if fresh then pending ++ next ∷ [] else pending)
  All-if true next pending held back = All-append Back pending (next ∷ []) held (back refl, tt)
  All-if false next pending held back = held

  enqueue-Back :
      (s : OperationState) (row visited pending : List OperationState)
      → All (λ t. can_transition s t ≡ true) row
      → Back s
      → All Back pending
      → All Back (enqueue row visited pending).1
  enqueue-Back s [] visited pending edges back held = held
  enqueue-Back s (next ∷ row) visited pending (edge, edges) back held =
      let fresh = not (state_terminal next) && not (has next visited) in
      enqueue-Back s row (if fresh then next ∷ visited else visited)
        (if fresh then pending ++ next ∷ [] else pending) edges back
        (All-if fresh next pending held
          (λ f. λ r. back (via edge (not-true _ (and_true _ _ f).0) r)))

  search_route-Back :
      (fuel : ℕ) (visited pending : List OperationState)
      → All Back pending
      → search_route fuel visited pending target ≡ true
      → Route target current
  unfolding search_route
  search_route-Back zero visited pending held found = cc
  search_route-Back (suc fuel) visited [] held found = cc
  search_route-Back (suc fuel) visited (s ∷ pending) (back, held) found =
      elim (Bool-cases (can_transition s target)) [
        | inl edge ↦ back (last edge)
        | inr none_yet ↦
            search_route-Back fuel (enqueue (transitions s) visited pending).0
              (enqueue (transitions s) visited pending).1
              (enqueue-Back s (transitions s) visited pending (row_edges s) back held)
              (rw none_yet at found)
      ]

pub route_reachable-Route :
    (current target : OperationState) → route_reachable current target ≡ true → Route target current
unfolding route_reachable
route_reachable-Route current target found =
    search_route-Back current target route_fuel (current ∷ []) (current ∷ []) (λ r. r, tt) found
