-- ===== src/Workflow/Journal/Handlers.antt =====
-- The three kinds of entry in the loop of `ValidateJournal`, internal/workflow/journal.go.
use ctrldb.Prelude.{
  ℕ, Option, none, String, some, Result, if◌then◌else◌, err, ok, ◌>>=◌, ◌∷◌, ◌>>◌, reject_if,
  map_err, ◌+◌, not, ◌&&◌, is_some, ◌||◌, contains, ◌==◌, str_eq, ◌%◌, ◌^◌, insert, when, Bool,
  checks, [],
}
use ctrldb.Domain.Time.{Time, zero_time, before, is_after}
use ctrldb.Domain.Operation.{OperationState, state_eq}
use ctrldb.Domain.Journal.{JournalEntry, JournalCancellationRequest, JournalPause, JournalStep}
use ctrldb.Workflow.Machine.{can_transition, transition, new_machine, Machine}
use ctrldb.Workflow.Journal.Entry.{Check, JournalError, stream_error, in_transition}
use ctrldb.Workflow.Route.{route_reachable}
use ctrldb.Domain.Retry.{mutation_observation_eq, MutationObservation}
use ctrldb.Domain.Outcome.{step_outcome_eq, StepOutcome}
use ctrldb.Workflow.Journal.Cursor.{Cursor, escalate, holds, count_at}

-- The guards of a cancellation request in the state `state`.
unfoldable pub request_guard :
    ℕ → OperationState → Cursor → JournalEntry → JournalCancellationRequest → Check
request_guard n state c entry request = checks (
    reject_if (not (state_eq entry.operation_state state))
      (stream_error n "cancellation request state does not match the current state")
    ∷ reject_if (is_some c.pending)
        (stream_error n "multiple pending cancellation requests are ambiguous")
    ∷ reject_if
        (c.mutated
          && mutation_observation_eq request.mutation_observation MutationObservation.not_occurred)
        (stream_error n "cancellation request discards observed mutation")
    ∷ reject_if (not (route_reachable state request.required_route))
        (stream_error n "cancellation request has no reachable route")
    ∷ [])

-- What a cancellation request records; `prior` is the previous entry's time.
abbrev pub request_update : Time → Cursor → JournalCancellationRequest → Cursor
request_update prior c request = record c {
  mutated =
      c.mutated
      || not
          (mutation_observation_eq request.mutation_observation MutationObservation.not_occurred);
  pending = some request.required_route;
  pending_step = some request.current_step_id;
  pending_start = prior;
  pending_requested = request.requested_at;
}

-- A cancellation request, by the machine of the scan.
unfoldable pub on_request :
    Option Machine
    → ℕ
    → Time
    → Cursor
    → JournalEntry
    → JournalCancellationRequest
    → Result JournalError Cursor
unfolding request_guard
on_request none n prior c entry request =
    err (stream_error n "cancellation request precedes the initial transition")
on_request (some machine) n prior c entry request = do
  request_guard n machine.state c entry request
  ok (request_update prior c request)

-- The guards of a transition out of PAUSED.
unfoldable pub leave_paused : ℕ → Option JournalPause → JournalEntry → Check
leave_paused n none entry = err (stream_error n "PAUSED state is missing its durable metadata")
leave_paused n (some pause) entry = checks (
    reject_if
      (state_eq entry.operation_state OperationState.discover
        && not (before entry.recorded_at pause.resume_by))
      (stream_error n "transition leaves PAUSED at or after resumeBy")
    ∷ reject_if
        (state_eq entry.operation_state OperationState.discover && pause.reapproval_required)
        (stream_error n
          "resume requires fresh approval evidence from the future resume coordinator")
    ∷ [])

-- What a transition to `next` does to a pending cancellation: it is routed, made unreachable, or
-- left pending without its step.
unfoldable pub settle_pending :
    ℕ → OperationState → Option OperationState → Cursor → Result JournalError Cursor
settle_pending n next none c = ok c
settle_pending n next (some route) c = do
  reject_if (not (state_eq next route) && not (route_reachable next route))
      (stream_error n "transition made the pending cancellation unreachable")
  ok (record c {
    pending = if state_eq next route then none else some route;
    pending_step = none;
    pending_start = zero_time;
    pending_requested = zero_time;
  })

-- The pause metadata of a transition.
unfoldable pub settle_pause : ℕ → Option JournalPause → Cursor → Result JournalError Cursor
settle_pause n none c = ok (record c { paused = none })
settle_pause n (some pause) c = do
  reject_if (c.mutated && not pause.mutation_occurred)
      (stream_error n "PAUSED metadata must not discard observed mutation")
  let mutated = c.mutated || pause.mutation_occurred
  ok (record c { mutated = mutated; pending = escalate mutated c.pending; paused = some pause })

-- The guards of a transition out of the state `state`.
unfoldable pub transition_guard : ℕ → OperationState → Cursor → JournalEntry → Check
unfolding leave_paused
transition_guard n state c entry = checks (
    reject_if
      (holds (λ route. can_transition state route && not (state_eq entry.operation_state route))
        c.pending)
      (stream_error n "pending cancellation was not honored at the first compatible boundary")
    ∷ when (state_eq state OperationState.paused) (leave_paused n c.paused entry)
    ∷ reject_if (state_eq entry.operation_state OperationState.cancelled && c.mutated)
        (stream_error n "CANCELLED after possible mutation must route through ROLLBACK")
    ∷ [])

-- A transition of the operation, by the machine of the scan.
unfoldable pub on_transition :
    Option Machine → String → String → ℕ → Cursor → JournalEntry → Result JournalError Cursor
unfolding transition_guard settle_pending settle_pause transition
on_transition none operation_id plan_id n c entry = do
  reject_if (not (state_eq entry.operation_state OperationState.discover))
      (stream_error n "first transition must be DISCOVER")
  machine ←
      map_err (λ _. stream_error n "initial transition has an invalid machine binding")
        (new_machine operation_id plan_id)
  ok (record c { machine = some machine })
on_transition (some machine) operation_id plan_id n c entry = do
  transition_guard n machine.state c entry
  let (result, machine') =
      transition (some machine) entry.operation_state
        (state_eq entry.operation_state OperationState.cancelled)
  map_err (in_transition n) result
  c' ← settle_pending n entry.operation_state c.pending (record c { machine = machine' })
  settle_pause n entry.pause c'

-- The guards of a step while a cancellation with the given route is pending.
unfoldable pub step_under_request :
    ℕ → OperationState → Option OperationState → Cursor → JournalStep → Check
step_under_request n state none c step = ok tt
step_under_request n state (some route) c step = checks (
    reject_if (not (is_some c.pending_step) && can_transition state route)
      (stream_error n "step follows a cancellation-safe boundary")
    ∷ reject_if (holds (λ id. not (str_eq step.id id)) c.pending_step)
        (stream_error n "cancellation request does not match the in-flight step")
    ∷ reject_if (is_some c.pending_step && is_after step.started_at c.pending_requested)
        (stream_error n "matched step started after the cancellation request")
    ∷ [])

-- The time that a step may not start before; `prior` is the previous entry's time.
abbrev pub step_boundary : Time → Cursor → Time
step_boundary prior c = if is_some c.pending_step then c.pending_start else prior

-- The guards of a step in the state `state`.
unfoldable pub step_guard : ℕ → OperationState → Time → Cursor → JournalEntry → JournalStep → Check
unfolding step_under_request
step_guard n state prior c entry step = checks (
    reject_if (state_eq state OperationState.paused)
      (stream_error n "step entry cannot execute while PAUSED")
    ∷ reject_if (not (state_eq entry.operation_state state))
        (stream_error n "step operationState does not match the current state")
    ∷ step_under_request n state c.pending c step
    ∷ reject_if (before step.started_at (step_boundary prior c))
        (stream_error n "step started before the current journal boundary")
    ∷ reject_if (contains c.completed step.id)
        (stream_error n "step attempt follows a DONE outcome")
    ∷ reject_if (not (step.attempt == (count_at step.id c.attempts + 1) % 2 ^ 32))
        (stream_error n "step attempts must start at 1 and increment without gaps")
    ∷ [])

abbrev pub step_mutated : JournalStep → Bool
step_mutated step = step.mutation_occurred || step_outcome_eq step.outcome StepOutcome.unknown

-- What a step records.
abbrev pub step_update : Cursor → JournalStep → Cursor
step_update c step =
    let mutated = c.mutated || step_mutated step in
    record c {
      attempts = insert step.id step.attempt c.attempts;
      completed =
          if step_outcome_eq step.outcome StepOutcome.done
          then step.id ∷ c.completed
          else c.completed;
      mutated = mutated;
      pending = escalate mutated c.pending;
      pending_step = none;
      pending_start = zero_time;
      pending_requested = zero_time;
    }

-- One attempt at a step, by the machine of the scan.
unfoldable pub on_step :
    Option Machine → ℕ → Time → Cursor → JournalEntry → JournalStep → Result JournalError Cursor
unfolding step_guard
on_step none n prior c entry step = err (stream_error n "step precedes the initial transition")
on_step (some machine) n prior c entry step = do
  step_guard n machine.state prior c entry step
  ok (step_update c step)
