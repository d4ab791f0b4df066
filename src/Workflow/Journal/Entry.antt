-- ===== src/Workflow/Journal/Entry.antt =====
-- `ValidateJournalEntry` and its helpers in internal/workflow/journal.go.
use ctrldb.Prelude.{
  ℕ, String, Result, Option, Bool, err, some, reject_if, not, is_some, none, true, false, str_eq,
  ◌==◌, ◌||◌, ok, checks, ◌∷◌, [],
}
use ctrldb.Domain.Retry.{MutationObservation, mutation_observation_valid}
use ctrldb.Domain.Journal.{
  JournalCancellationRequest, JournalStep, JournalPause, JournalEntryKind, JournalEntry,
  journal_schema_v1, journal_entry_kind_valid,
}
use ctrldb.Workflow.Machine.{MachineError}
use ctrldb.Domain.Time.{Time, is_zero, same_instant, before, is_after}
use ctrldb.Domain.Operation.{OperationState, state_eq, state_valid}
use ctrldb.Domain.Outcome.{StepOutcome, step_outcome_eq, step_outcome_valid}
use ctrldb.Workflow.Patterns.{is_step_id, is_contract_digest, is_operation_id, is_plan_id}
use ctrldb.Domain.Identity.{execution_identity_valid}

-- `in_entry` and `in_transition` wrap the cause with the entry's number. `nil_dereference` is Go's
-- panic on a read through a nil pointer.
pub data JournalError : Type 0 where
  entry_error : String → String → JournalError
  stream_error : ℕ → String → JournalError
  in_entry : ℕ → JournalError → JournalError
  in_transition : ℕ → MachineError → JournalError
  nil_dereference : JournalError

abbrev pub Check : Type 0
Check = Result JournalError (Unit {0})

-- `validateJournalTime`
unfoldable pub validate_journal_time : String → Time → Check
validate_journal_time path value = checks (
    reject_if (is_zero value) (entry_error path "must not be zero")
    ∷ reject_if (not (value.offset == 0)) (entry_error path "must be UTC")
    ∷ [])

-- `wantRoute` of `validateJournalCancellation`
abbrev pub route_of : MutationObservation → OperationState
route_of MutationObservation.not_occurred = OperationState.cancelled
route_of _ = OperationState.rollback

-- `validateJournalCancellation`
unfoldable pub validate_journal_cancellation : JournalCancellationRequest → Time → String → Check
unfolding validate_journal_time
validate_journal_cancellation request recorded_at contract_hash = checks (
    validate_journal_time "cancellation.requestedAt" request.requested_at
    ∷ reject_if (not (same_instant request.requested_at recorded_at))
        (entry_error "cancellation.requestedAt" "must equal recordedAt")
    ∷ reject_if (not (is_step_id request.current_step_id))
        (entry_error "cancellation.currentStepId" "must be a canonical step identifier")
    ∷ reject_if (not (is_contract_digest request.execution_contract_hash))
        (entry_error "cancellation.executionContractHash" "must be a contract digest")
    ∷ reject_if (not (str_eq request.execution_contract_hash contract_hash))
        (entry_error "cancellation.executionContractHash" "must match the journal contract")
    ∷ reject_if (not (mutation_observation_valid request.mutation_observation))
        (entry_error "cancellation.mutationObservation" "unknown value")
    ∷ reject_if (not (state_eq request.required_route (route_of request.mutation_observation)))
        (entry_error "cancellation.requiredRoute" "does not match the mutation observation")
    ∷ [])

-- The end of an attempt: only an UNKNOWN outcome may lack it.
unfoldable pub validate_journal_end : Option Time → StepOutcome → Time → Time → Check
unfolding validate_journal_time
validate_journal_end none outcome started_at recorded_at =
    reject_if (not (step_outcome_eq outcome StepOutcome.unknown))
      (entry_error "step.endedAt" "is required for DONE and FAILED")
validate_journal_end (some ended_at) outcome started_at recorded_at = checks (
    validate_journal_time "step.endedAt" ended_at
    ∷ reject_if (before ended_at started_at)
        (entry_error "step.endedAt" "must not precede step.startedAt")
    ∷ reject_if (before recorded_at ended_at)
        (entry_error "recordedAt" "must not precede step.endedAt")
    ∷ [])

-- `validateJournalStep`
unfoldable pub validate_journal_step : JournalStep → Time → Check
unfolding validate_journal_time validate_journal_end
validate_journal_step step recorded_at = checks (
    reject_if (not (is_step_id step.id)) (entry_error "step.id" "must match [a-z][a-z0-9-]{0,63}")
    ∷ reject_if (not (step_outcome_valid step.outcome)) (entry_error "step.outcome" "unknown value")
    ∷ reject_if (not (execution_identity_valid step.executing_identity))
        (entry_error "step.executingIdentity" "unknown value")
    ∷ reject_if (step.attempt == 0) (entry_error "step.attempt" "must start at 1")
    ∷ validate_journal_time "step.startedAt" step.started_at
    ∷ reject_if (before recorded_at step.started_at)
        (entry_error "recordedAt" "must not precede step.startedAt")
    ∷ validate_journal_end step.ended_at step.outcome step.started_at recorded_at
    ∷ [])

-- `validateJournalPause`
unfoldable pub validate_journal_pause : JournalPause → Time → Check
unfolding validate_journal_time
validate_journal_pause pause recorded_at = checks (
    validate_journal_time "pause.pausedAt" pause.paused_at
    ∷ reject_if (before recorded_at pause.paused_at)
        (entry_error "recordedAt" "must not precede pause.pausedAt")
    ∷ reject_if (str_eq pause.pause_reason.value "")
        (entry_error "pause.pauseReason" "must not be empty")
    ∷ validate_journal_time "pause.resumeBy" pause.resume_by
    ∷ reject_if (not (is_after pause.resume_by pause.paused_at))
        (entry_error "pause.resumeBy" "must be later than pausedAt")
    ∷ [])

-- A check of what a pointer holds, with an error for nil.
abbrev pub required {ℓ} : {A : Type ℓ} → Option A → JournalError → (A → Check) → Check
required none e check = err e
required (some a) e check = check a

-- The pause of a transition, by whether it enters PAUSED.
unfoldable pub validate_transition_pause : Bool → Option JournalPause → Time → Check
unfolding validate_journal_pause
validate_transition_pause true pause recorded_at =
    required pause (entry_error "pause" "is required for a PAUSED transition")
      (λ p. validate_journal_pause p recorded_at)
validate_transition_pause false pause recorded_at =
    reject_if (is_some pause) (entry_error "pause" "is allowed only for a PAUSED transition")

-- The `switch entry.Kind` of `ValidateJournalEntry`, which has no default.
unfoldable pub validate_body : JournalEntryKind → JournalEntry → Check
unfolding validate_transition_pause validate_journal_step validate_journal_cancellation
validate_body JournalEntryKind.transition entry = checks (
    reject_if (is_some entry.step) (entry_error "step" "must be absent for a transition")
    ∷ validate_transition_pause (state_eq entry.operation_state OperationState.paused) entry.pause
        entry.recorded_at
    ∷ reject_if (is_some entry.cancellation)
        (entry_error "cancellation" "must be absent for a transition")
    ∷ [])
validate_body JournalEntryKind.step entry =
    required entry.step (entry_error "step" "is required for a step entry") (λ step. checks (
      reject_if (is_some entry.pause) (entry_error "pause" "must be absent for a step entry")
      ∷ reject_if (is_some entry.cancellation)
          (entry_error "cancellation" "must be absent for a step entry")
      ∷ validate_journal_step step entry.recorded_at
      ∷ []))
validate_body JournalEntryKind.cancellation_request entry = checks (
    reject_if (is_some entry.step || is_some entry.pause)
      (entry_error "cancellation" "request must not contain step or pause data")
    ∷ required entry.cancellation
        (entry_error "cancellation" "is required for a cancellation request")
        (λ request. validate_journal_cancellation request entry.recorded_at entry.contract_hash)
    ∷ [])
validate_body _ entry = ok tt

-- `ValidateJournalEntry`
unfoldable pub validate_journal_entry : JournalEntry → Check
unfolding validate_journal_time validate_body
validate_journal_entry entry = checks (
    reject_if (not (str_eq entry.schema journal_schema_v1))
      (entry_error "schema" "must be JournalEntryV1")
    ∷ reject_if (not (is_operation_id entry.operation_id))
        (entry_error "operationId" "must match op-<16 lowercase hex>")
    ∷ reject_if (not (is_plan_id entry.plan_id))
        (entry_error "planId" "must match plan-<16 lowercase hex>")
    ∷ reject_if (not (is_contract_digest entry.contract_hash))
        (entry_error "contractHash" "must be a contract digest")
    ∷ reject_if (entry.sequence == 0) (entry_error "sequence" "must start at 1")
    ∷ reject_if (not (journal_entry_kind_valid entry.kind)) (entry_error "kind" "unknown value")
    ∷ validate_journal_time "recordedAt" entry.recorded_at
    ∷ reject_if (not (state_valid entry.operation_state))
        (entry_error "operationState" "unknown value")
    ∷ validate_body entry.kind entry
    ∷ [])
