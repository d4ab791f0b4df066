-- ===== src/Workflow/Cancellation/Request/Queued.antt =====
-- A durable request of internal/workflow/cancellation.go is queued again by the restoration.
use ctrldb.Workflow.Cancellation.Restore.{
  restore_controller, point_of_no_return_reached, restore_check, replay_check, Replay,
  entry_crosses, step_index, binds, replay_entries, replay_entry, replay_request, contract_hash_of,
  unplayed,
}
use ctrldb.Prelude.{
  >>=-ok, Bool, refl, reject_if, checks, checks-passed, reject_if-passed, not-false, ◌&&◌, ◌≡◌,
  List, false, String, ok, true, ◌++◌, ◌∷◌, [], str_eq, some, ℕ, none, Option, ap, ok-injective,
  take,
}
use ctrldb.Workflow.Cancellation.Request.{
  request_in_flight, CancellationController, Cells, JournalEntry, MachineRef, state_eq,
  CancellationRequest, cancellation_target, ExecutionContract, CancellationBinding, OperationState,
  ExecutionStepContract, validate_journal, MutationObservation, CancellationDecision,
  occurred_or_unknown, invalid_cancellation, request_entry,
}
use ctrldb.Workflow.Cancellation.Request.Durable.{
  binds-append, contract_hash_of-append, reached_at-append,
}
use ctrldb.Workflow.Patterns.{is_contract_digest}
use ctrldb.Workflow.Journal.Cursor.{holds}

pub request_in_flight-bounded :
    (controller : CancellationController) (cells : Cells) (ref : MachineRef)
    (request : CancellationRequest) (contract : ExecutionContract) (entries : List JournalEntry)
    (binding : CancellationBinding) (step : ExecutionStepContract)
    (observation : MutationObservation) {r : CancellationController × CancellationDecision × Cells}
    → request_in_flight controller cells ref request contract entries binding step observation
      ≡ ok r
    → (occurred_or_unknown observation && str_eq contract.rollback_boundary "none") ≡ false
unfolding request_in_flight
request_in_flight-bounded controller cells ref request contract entries binding step observation h =
    let (u, passed, rest) =
      >>=-ok
        (reject_if (occurred_or_unknown observation && str_eq contract.rollback_boundary "none")
          (invalid_cancellation "execution contract has no rollback boundary"))
        _ h in
    reject_if-passed _ _ passed

target_bounded :
    (mutated no_boundary : Bool)
    → (mutated && no_boundary) ≡ false
    → (state_eq (cancellation_target mutated) OperationState.rollback && no_boundary) ≡ false
target_bounded true no_boundary h = h
target_bounded false no_boundary h = refl

restore_check-ok :
    (entries : List JournalEntry) (o p : String) (contract : ExecutionContract)
    → restore_check entries o p contract ≡ ok tt
    → (binds entries o p ≡ true)
      × (is_contract_digest contract.digest ≡ true)
      × (holds (λ x. str_eq x contract.digest) (contract_hash_of entries) ≡ true)
unfolding restore_check
restore_check-ok entries o p contract h =
    let all = checks-passed _ h in
    (
      not-false _ (reject_if-passed _ _ all.1.0),
      not-false _ (reject_if-passed _ _ all.1.1.0),
      not-false _ (reject_if-passed _ _ all.1.1.1.0),
    )

pub restore_check-append :
    (entries : List JournalEntry) (entry : JournalEntry) (o p : String)
    (contract : ExecutionContract)
    → restore_check entries o p contract ≡ ok tt
    → validate_journal (entries ++ entry ∷ []) ≡ ok tt
    → restore_check (entries ++ entry ∷ []) o p contract ≡ ok tt
unfolding restore_check checks reject_if
restore_check-append entries entry o p contract h extended =
    let (bound, digest, hashed) = restore_check-ok entries o p contract h in
    rw
      (
        extended,
        binds-append entries (entry ∷ []) o p bound,
        digest,
        contract_hash_of-append entries (entry ∷ []) (λ x. str_eq x contract.digest) hashed,
      )
      refl

pub replay_check-append :
    (contract : ExecutionContract) (entries : List JournalEntry) (entry : JournalEntry) (r : Replay)
    (observation : MutationObservation)
    → r.target ≡ some (cancellation_target (occurred_or_unknown observation))
    → ((point : ℕ) → entry_crosses contract point entry.kind entry ≡ false)
    → point_of_no_return_reached contract entries ≡ false
    → (occurred_or_unknown observation && str_eq contract.rollback_boundary "none") ≡ false
    → replay_check contract (entries ++ entry ∷ []) r ≡ ok tt
unfolding replay_check checks reject_if point_of_no_return_reached
replay_check-append contract entries entry r observation target quiet open_yet bounded =
    rw
      (
        target,
        reached_at-append contract entries entry
            (step_index 0 none contract.point_of_no_return contract.steps) quiet,
        open_yet,
        target_bounded (occurred_or_unknown observation) (str_eq contract.rollback_boundary "none")
            bounded,
      )
      refl

pub replay_entries-append :
    (hash : List JournalEntry → Option String) (contract : ExecutionContract)
    (all : List JournalEntry) (r : Replay) (xs ys : List JournalEntry) {s : Replay}
    → replay_entries hash contract all r xs ≡ ok s
    → replay_entries hash contract all r (xs ++ ys) ≡ replay_entries hash contract all s ys
unfolding replay_entries
replay_entries-append hash contract all r [] ys h =
    ap (λ x. replay_entries hash contract all x ys) (ok-injective h)
replay_entries-append hash contract all r (x ∷ xs) ys h =
    let (q, first, rest) = >>=-ok (replay_entry hash contract all r x.kind x) _ h in
    rw first (replay_entries-append hash contract all q xs ys rest)

-- The last entry of a replay, when it is a request.
pub replay_last :
    (hash : List JournalEntry → Option String) (contract : ExecutionContract)
    (all : List JournalEntry) (r : Replay) (request : CancellationRequest) (state : OperationState)
    (id : String) (observation : MutationObservation) {r' : Replay}
    → replay_request contract r
        (request_entry request state id contract.digest observation)
        (hash (take request.sequence all))
        (request_entry request state id contract.digest observation).cancellation
      ≡ ok r'
    → replay_entries hash contract all r
        (request_entry request state id contract.digest observation ∷ [])
      ≡ ok r'
unfolding replay_entries replay_entry
replay_last hash contract all r request state id observation h = rw h refl

pub restored :
    (hash : List JournalEntry → Option String) (entries : List JournalEntry) (o p : String)
    (contract : ExecutionContract) (r : Replay) (target : OperationState)
    → restore_check entries o p contract ≡ ok tt
    → replay_entries hash contract entries unplayed entries ≡ ok r
    → replay_check contract entries r ≡ ok tt
    → r.target ≡ some target
    → restore_controller hash entries o p contract
      ≡ ok (record { queued = true; target = some target; binding = r.binding })
unfolding restore_controller
restored hash entries o p contract r target checked played passed t =
    rw (checked, played, passed, t) refl
