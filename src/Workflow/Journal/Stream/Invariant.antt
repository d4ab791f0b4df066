-- ===== src/Workflow/Journal/Stream/Invariant.antt =====
-- What holds of the scan's variables after every accepted entry.
use ctrldb.Prelude.{
  ◌≡◌, String, ok, is_some, arith, false, not, ℕ, ◌||◌, ◌&&◌, Option, some, none, Bool, >>=-ok,
  refl, subst, true, ok-injective, not-false, reject_if-passed, checks-passed,
}
use ctrldb.Workflow.Journal.Cursor.{Cursor, start, holds, escalate}
use ctrldb.Workflow.Journal.Entry.{validate_journal_cancellation, route_of}
use ctrldb.Domain.Journal.{JournalCancellationRequest, JournalEntry, JournalStep}
use ctrldb.Domain.Time.{Time}
use ctrldb.Domain.Operation.{state_valid, state_eq, state_eq→eq, OperationState, state_terminal}
use ctrldb.Workflow.Journal.Handlers.{
  on_request, on_step, request_guard, request_update, step_guard, step_mutated, step_update,
}
use ctrldb.Workflow.Machine.{Machine}
use ctrldb.Domain.Retry.{MutationObservation, mutation_observation_eq}

-- The machine is canonical; a pause is held exactly in PAUSED; a pending cancellation leads to
-- CANCELLED or ROLLBACK, and to CANCELLED only while no mutation was seen; and no mutation was seen
-- if the operation is CANCELLED.
pub record Inv (c : Cursor) : Type 0 where
  pub canonical : holds (λ m. not (state_valid m.state)) c.machine ≡ false
  pub paused_held : is_some c.paused ≡ holds (λ m. state_eq m.state OperationState.paused) c.machine
  pub route_known :
      holds
        (λ route.
          not (state_eq route OperationState.cancelled || state_eq route OperationState.rollback))
        c.pending
      ≡ false
  pub cancel_unmutated :
      (c.mutated && holds (λ route. state_eq route OperationState.cancelled) c.pending) ≡ false
  pub cancelled_unmutated :
      (c.mutated && holds (λ m. state_eq m.state OperationState.cancelled) c.machine) ≡ false

pub start-Inv : Inv start
start-Inv = ground arith

-- A cancellation request that passed its own checks names the route of its observation.
pub request_route :
    (request : JournalCancellationRequest) (at : Time) (hash : String)
    → validate_journal_cancellation request at hash ≡ ok tt
    → request.required_route ≡ route_of request.mutation_observation
unfolding validate_journal_cancellation
request_route request at hash h =
    state_eq→eq _ _ (not-false _ (reject_if-passed _ _ (checks-passed _ h).1.1.1.1.1.1.0))

-- An operation that goes on is not CANCELLED.
pub live_not_cancelled :
    (p : Option Machine)
    → holds (λ m. state_terminal m.state) p ≡ false
    → holds (λ m. state_eq m.state OperationState.cancelled) p ≡ false
live_not_cancelled none h = refl
live_not_cancelled (some m) h = ground arith

pub and_false : (a b : Bool) → b ≡ false → (a && b) ≡ false
and_false a b h = ground arith

-- The pair of `route_known` and `cancel_unmutated`, for a scan that saw a mutation or not.
abbrev pub IsRouted : Bool → Option OperationState → Type 0
IsRouted mutated pending =
    (holds
        (λ route.
          not (state_eq route OperationState.cancelled || state_eq route OperationState.rollback))
        pending
      ≡ false)
    × ((mutated && holds (λ route. state_eq route OperationState.cancelled) pending) ≡ false)

route_of-IsRouted :
    (o : MutationObservation) (b : Bool)
    → (b && mutation_observation_eq o MutationObservation.not_occurred) ≡ false
    → IsRouted
        (b || not (mutation_observation_eq o MutationObservation.not_occurred))
        (some (route_of o))
route_of-IsRouted o true h = ground arith
route_of-IsRouted o false h = ground arith

pub escalate-IsRouted :
    (b more : Bool) (pending : Option OperationState)
    → IsRouted b pending
    → IsRouted (b || more) (escalate (b || more) pending)
escalate-IsRouted b more none h = ground arith
escalate-IsRouted true more (some route) h = ground arith
escalate-IsRouted false true (some route) h = ground arith
escalate-IsRouted false false (some route) h = h

request_observation :
    (n : ℕ) (state : OperationState) (c : Cursor) (entry : JournalEntry)
    (request : JournalCancellationRequest)
    → request_guard n state c entry request ≡ ok tt
    → (c.mutated
        && mutation_observation_eq request.mutation_observation MutationObservation.not_occurred)
      ≡ false
unfolding request_guard
request_observation n state c entry request h = reject_if-passed _ _ (checks-passed _ h).1.1.0

abbrev pub IsLive : Cursor → Type 0
IsLive c = holds (λ m. state_terminal m.state) c.machine ≡ false

module _ (c : Cursor) (inv : Inv c) (live : IsLive c) where
  pub on_request-Inv :
      (p : Option Machine) (n : ℕ) (prior : Time) (entry : JournalEntry)
      (request : JournalCancellationRequest) {c' : Cursor}
      → request.required_route ≡ route_of request.mutation_observation
      → on_request p n prior c entry request ≡ ok c'
      → Inv c'
  unfolding on_request
  on_request-Inv none n prior entry request route h = cc
  on_request-Inv (some m) n prior entry request route h =
      let (u, passed, rest) = >>=-ok (request_guard n m.state c entry request) _ h in
      let unseen = request_observation n m.state c entry request passed in
      let routed = route_of-IsRouted request.mutation_observation c.mutated unseen in
      let updated : Inv (request_update prior c request) = record {
        canonical = inv.canonical;
        paused_held = inv.paused_held;
        route_known = rw route routed.0;
        cancel_unmutated = rw route routed.1;
        cancelled_unmutated = and_false _ _ (live_not_cancelled c.machine live);
      } in
      subst Inv (ok-injective rest) updated

  pub on_step-Inv :
      (p : Option Machine) (n : ℕ) (prior : Time) (entry : JournalEntry) (step : JournalStep)
      {c' : Cursor}
      → on_step p n prior c entry step ≡ ok c'
      → Inv c'
  unfolding on_step
  on_step-Inv none n prior entry step h = cc
  on_step-Inv (some m) n prior entry step h =
      let (u, passed, rest) = >>=-ok (step_guard n m.state prior c entry step) _ h in
      let routed =
        escalate-IsRouted c.mutated (step_mutated step) c.pending
          (inv.route_known, inv.cancel_unmutated) in
      let updated : Inv (step_update c step) = record {
        canonical = inv.canonical;
        paused_held = inv.paused_held;
        route_known = routed.0;
        cancel_unmutated = routed.1;
        cancelled_unmutated = and_false _ _ (live_not_cancelled c.machine live);
      } in
      subst Inv (ok-injective rest) updated
