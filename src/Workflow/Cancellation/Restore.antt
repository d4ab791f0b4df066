-- ===== src/Workflow/Cancellation/Restore.antt =====
-- `RestoreCancellationController` of internal/workflow/cancellation.go.
use ctrldb.Prelude.{
  Option, none, String, ℕ, List, if◌then◌else◌, Result, Bool, true, ◌∷◌, false, not, some, err, ◌+◌,
  str_eq, take, ok, checks, ◌||◌, ◌>>=◌, reject_if, map_err, [], ◌&&◌, ◌>>◌, get_elem?, ltb,
  is_some, ◌==◌,
}
use ctrldb.Domain.Journal.{JournalStep, JournalEntry, JournalEntryKind, JournalCancellationRequest}
use ctrldb.Domain.Contract.{
  ExecutionContract, PointOfNoReturnTrigger, ExecutionStepContract, trigger_valid,
}
use ctrldb.Domain.Operation.{OperationState, state_eq}
use ctrldb.Workflow.Cancellation.{
  CancellationBinding, empty_binding, CancellationError, holds, CancellationCheck,
  CancellationController, nil_entry, invalid_cancellation,
}
use ctrldb.Domain.Outcome.{step_outcome_eq, StepOutcome}
use ctrldb.Workflow.Patterns.{is_contract_digest}
use ctrldb.Domain.Contract.Build.{is_blank}
use ctrldb.Domain.Identity.{execution_identity_eq}
use ctrldb.Workflow.Journal.Handlers.{step_mutated}
use ctrldb.Workflow.Journal.Stream.{validate_journal}
use ctrldb.Workflow.Journal.Cursor.{escalate}

-- The variables of the loop of `RestoreCancellationController`; a target "" is `none`.
pub record Replay : Type 0 where
  pub target : Option OperationState
  pub binding : CancellationBinding
  pub next : ℕ  -- nextStep

abbrev pub unplayed : Replay
unplayed = record { target = none; binding = empty_binding; next = 0 }

-- `nextStep >= len(steps) || entry.Step.ID != … || entry.Step.ExecutingIdentity != …`
abbrev pub contradicts : JournalStep → Option ExecutionStepContract → Bool
contradicts step none = true
contradicts step (some want) =
    not (str_eq step.id want.id)
    || not (execution_identity_eq step.executing_identity want.executing_identity)

abbrev pub after_step : JournalStep → ℕ → ℕ
after_step step next = if step_outcome_eq step.outcome StepOutcome.done then next + 1 else next

unfoldable pub replay_step :
    ExecutionContract → Replay → Option JournalStep → Result CancellationError Replay
replay_step contract r none = err nil_entry
replay_step contract r (some step) = do
  reject_if (contradicts step (get_elem? contract.steps r.next))
      (invalid_cancellation "journal step contradicts the execution contract")
  ok (record r { next = after_step step r.next; target = escalate (step_mutated step) r.target })

-- The current step of the contract, with the ID that a request names.
abbrev pub requested_step :
    String → Option ExecutionStepContract → Result CancellationError ExecutionStepContract
requested_step id none =
    err (invalid_cancellation "cancellation step is outside the execution contract")
requested_step id (some step) = do
  reject_if (not (str_eq id step.id))
      (invalid_cancellation "cancellation step is outside the execution contract")
  ok step

abbrev pub bound_hash : Option String → Result CancellationError String
bound_hash none = err (invalid_cancellation "cannot bind the durable journal")
bound_hash (some hash) = ok hash

-- A request, where `hashed` is the hash of the entries up to it.
unfoldable pub replay_request :
    ExecutionContract
    → Replay
    → JournalEntry
    → Option String
    → Option JournalCancellationRequest
    → Result CancellationError Replay
replay_request contract r entry hashed none = err nil_entry
replay_request contract r entry hashed (some request) = do
  hash ← bound_hash hashed
  reject_if (not (str_eq request.execution_contract_hash contract.digest))
      (invalid_cancellation "cancellation request does not match the execution contract")
  step ← requested_step request.current_step_id (get_elem? contract.steps r.next)
  ok (record r {
    target = some request.required_route;
    binding = record {
      operation_id = entry.operation_id;
      plan_id = entry.plan_id;
      contract_hash = request.execution_contract_hash;
      journal_hash = hash;
      sequence = entry.sequence;
      requested_at = request.requested_at;
      step_id = step.id;
      cancel_safe = step.cancel_safe;
    };
  })

abbrev pub replay_transition : Replay → OperationState → Replay
replay_transition r state =
    if holds (λ target. state_eq state target) r.target
    then record r { target = none; binding = empty_binding }
    else r

-- The last index of a step with the ID, from the index `i` on.
abbrev pub step_index : ℕ → Option ℕ → String → List ExecutionStepContract → Option ℕ
step_index i found id [] = found
step_index i found id (step ∷ steps) =
    step_index (i + 1) (if str_eq step.id id then some i else found) id steps

-- Whether a step at the index `i` crosses the point of no return at the index `point`.
abbrev pub crosses : PointOfNoReturnTrigger → ℕ → JournalStep → Option ℕ → Bool
crosses trigger point step none = true
crosses trigger point step (some i) = ltb point i || (i == point && event trigger)
  where
    event : PointOfNoReturnTrigger → Bool
    event PointOfNoReturnTrigger.step_start = true
    event PointOfNoReturnTrigger.mutation_observed = step_mutated step
    event PointOfNoReturnTrigger.step_complete = step_outcome_eq step.outcome StepOutcome.done
    event _ = false

abbrev pub entry_crosses : ExecutionContract → ℕ → JournalEntryKind → JournalEntry → Bool
entry_crosses contract point JournalEntryKind.step entry =
    holds
      (λ step.
        crosses contract.point_of_no_return_trigger point step
          (step_index 0 none step.id contract.steps))
      entry.step
entry_crosses contract point _ entry = false

-- The loop of `pointOfNoReturnReached`.
abbrev pub any_crosses : ExecutionContract → ℕ → List JournalEntry → Bool
any_crosses contract point [] = false
any_crosses contract point (entry ∷ entries) =
    entry_crosses contract point entry.kind entry || any_crosses contract point entries

abbrev pub reached_at : ExecutionContract → List JournalEntry → Option ℕ → Bool
reached_at contract entries none = true
reached_at contract entries (some point) =
    not (trigger_valid contract.point_of_no_return_trigger) || any_crosses contract point entries

-- `pointOfNoReturnReached`, on entries of which every step entry has its step.
unfoldable pub point_of_no_return_reached : ExecutionContract → List JournalEntry → Bool
point_of_no_return_reached contract entries =
    not (is_blank contract.point_of_no_return)
    && reached_at contract entries (step_index 0 none contract.point_of_no_return contract.steps)

-- `entries[0].OperationID != operationID || entries[0].PlanID != planID`
abbrev pub binds : List JournalEntry → String → String → Bool
binds [] operation_id plan_id = false
binds (first ∷ entries) operation_id plan_id =
    str_eq first.operation_id operation_id && str_eq first.plan_id plan_id

abbrev pub contract_hash_of : List JournalEntry → Option String
contract_hash_of [] = none
contract_hash_of (first ∷ entries) = some first.contract_hash

-- The checks that follow the loop.
unfoldable pub replay_check : ExecutionContract → List JournalEntry → Replay → CancellationCheck
unfolding point_of_no_return_reached
replay_check contract entries r = checks (
    reject_if (is_some r.target && point_of_no_return_reached contract entries)
      (invalid_cancellation "point of no return has been reached")
    ∷ reject_if
        (holds (λ t. state_eq t OperationState.rollback) r.target
          && str_eq contract.rollback_boundary "none")
        (invalid_cancellation "execution contract has no rollback boundary")
    ∷ [])

-- The checks that precede the loop.
unfoldable pub restore_check :
    List JournalEntry → String → String → ExecutionContract → CancellationCheck
unfolding is_contract_digest
restore_check entries operation_id plan_id contract = checks (
    map_err (λ e. invalid_cancellation "invalid journal") (validate_journal entries)
    ∷ reject_if (not (binds entries operation_id plan_id))
        (invalid_cancellation "journal binding mismatch")
    ∷ reject_if (not (is_contract_digest contract.digest))
        (invalid_cancellation "invalid execution contract")
    ∷ reject_if (not (holds (λ h. str_eq h contract.digest) (contract_hash_of entries)))
        (invalid_cancellation "journal does not match the execution contract")
    ∷ [])

-- `hash` is `cancellationJournalHash`: the SHA-256 of the JSON of the entries, or no value if one
-- of them cannot be encoded.
module _ (hash : List JournalEntry → Option String) where
  -- The body of the loop over `all`, by the kind of the entry.
  unfoldable pub replay_entry :
      ExecutionContract
      → List JournalEntry
      → Replay
      → JournalEntryKind
      → JournalEntry
      → Result CancellationError Replay
  unfolding replay_step replay_request
  replay_entry contract all r JournalEntryKind.step entry = replay_step contract r entry.step
  replay_entry contract all r JournalEntryKind.cancellation_request entry =
      replay_request contract r entry (hash (take entry.sequence all)) entry.cancellation
  replay_entry contract all r JournalEntryKind.transition entry =
      ok (replay_transition r entry.operation_state)
  replay_entry contract all r _ entry = ok r

  unfoldable pub replay_entries :
      ExecutionContract
      → List JournalEntry
      → Replay
      → List JournalEntry
      → Result CancellationError Replay
  unfolding replay_entry
  replay_entries contract all r [] = ok r
  replay_entries contract all r (entry ∷ entries) =
      replay_entry contract all r entry.kind entry >>= λ r'. replay_entries contract all r' entries

  -- `RestoreCancellationController`
  unfoldable pub restore_controller :
      List JournalEntry
      → String
      → String
      → ExecutionContract
      → Result CancellationError CancellationController
  unfolding restore_check replay_entries replay_check
  restore_controller entries operation_id plan_id contract = do
    restore_check entries operation_id plan_id contract
    r ← replay_entries contract entries unplayed entries
    replay_check contract entries r
    ok (record { queued = is_some r.target; target = r.target; binding = r.binding })
