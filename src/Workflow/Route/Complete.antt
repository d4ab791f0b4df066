-- ===== src/Workflow/Route/Complete.antt =====
-- The search finds every route, whatever the order of the rows: checked over the whole table.
use ctrldb.Prelude.{List, Bool, ◌∷◌, true, ◌≡◌, not, ◌&&◌, [], ◌||◌, arith, refl, false, ◌↔◌}
use ctrldb.Domain.Operation.{OperationState, state_valid, state_terminal}
use ctrldb.Workflow.Machine.{can_transition}
use ctrldb.Workflow.Route.{route_reachable}
use ctrldb.Workflow.Machine.Laws.{can_transition-valid}
use ctrldb.Workflow.Route.Sound.{Route, last, route_reachable-Route, via}

abbrev states : List OperationState
states =
    OperationState.discover ∷ OperationState.validate ∷ OperationState.plan
    ∷ OperationState.approved_waiting ∷ OperationState.lock ∷ OperationState.protect
    ∷ OperationState.execute ∷ OperationState.paused ∷ OperationState.verify
    ∷ OperationState.document ∷ OperationState.rollback ∷ OperationState.complete
    ∷ OperationState.complete_with_failed_verification
    ∷ OperationState.complete_with_documentation_error ∷ OperationState.verified_rollback
    ∷ OperationState.cancelled ∷ OperationState.failed ∷ OperationState.failed_cleanup ∷ []

all : (OperationState → Bool) → List OperationState → Bool
all p [] = true
all p (s ∷ ss) = p s && all p ss

all_sound :
    (p : OperationState → Bool) (s : OperationState)
    → all p states ≡ true
    → state_valid s ≡ true
    → p s ≡ true
unfolding all
all_sound p (OperationState.other s) h v = cc
all_sound p OperationState.discover h v = ground arith
all_sound p s h v = ground arith

abbrev implies : Bool → Bool → Bool
implies a b = not a || b

implies→ : (a b : Bool) → implies a b ≡ true → a ≡ true → b ≡ true
implies→ a b h t = ground arith

abbrev extends : OperationState → OperationState → OperationState → Bool
extends target s t =
    implies (can_transition s t && (not (state_terminal t) && route_reachable t target))
      (route_reachable s target)

-- Whatever is found from a successor is found from the state itself.
extends_table : all (λ target. all (λ s. all (extends target s) states) states) states ≡ true
unfolding all can_transition route_reachable
extends_table = refl

direct_table :
    all
      (λ target. all (λ s. implies (can_transition s target) (route_reachable s target)) states)
      states
    ≡ true
unfolding all can_transition route_reachable
direct_table = refl

found_directly :
    (target s : OperationState) → can_transition s target ≡ true → route_reachable s target ≡ true
found_directly target s edge =
    let (vs, vt) = can_transition-valid s target edge in
    let row =
      all_sound (λ t. all (λ u. implies (can_transition u t) (route_reachable u t)) states) target
        direct_table vt in
    implies→ _ _
      (all_sound (λ u. implies (can_transition u target) (route_reachable u target)) s row vs) edge

-- Only a successor from which something is found can be a target's neighbour, so it is canonical.
found_through :
    (target s t : OperationState)
    → state_valid target ≡ true
    → can_transition s t ≡ true
    → state_terminal t ≡ false
    → route_reachable t target ≡ true
    → route_reachable s target ≡ true
found_through target s t v edge live found =
    let (vs, vt) = can_transition-valid s t edge in
    let rows = all_sound (λ g. all (λ u. all (extends g u) states) states) target extends_table v in
    let row = all_sound (λ u. all (extends target u) states) s rows vs in
    implies→ (can_transition s t && (not (state_terminal t) && route_reachable t target))
      (route_reachable s target) (all_sound (extends target s) t row vt) (ground arith)

Route-target_valid : {target s : OperationState} → Route target s → state_valid target ≡ true
Route-target_valid {target = target} (last {s = s} edge) = (can_transition-valid s target edge).1
Route-target_valid (via edge live r) = Route-target_valid r

pub Route-route_reachable :
    {target current : OperationState} → Route target current → route_reachable current target ≡ true
Route-route_reachable {target = target} (last {s = s} edge) = found_directly target s edge
Route-route_reachable {target = target} (via {s = s} {t = t} edge live r) =
    found_through target s t (Route-target_valid r) edge live (Route-route_reachable r)

-- The search finds a route from a state exactly when there is one, so its thirteen rounds of fuel are
-- enough and the order in which a row is ranged over does not matter.
pub route_reachable_iff :
    (current target : OperationState)
    → (route_reachable current target ≡ true) ↔ Route target current
route_reachable_iff current target =
    (route_reachable-Route current target, λ r. Route-route_reachable r)
