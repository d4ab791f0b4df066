-- ===== src/Workflow/Journal/Stream/Attempts.antt =====
-- The attempts at the steps of an accepted history, for internal/workflow/journal.go.
use ctrldb.Prelude.{
  >>=-ok, ok-injective, ap, sym, ◌∙◌, Bool, reject_if-passed, checks-passed, not-false, String,
  List, Option, ℕ, ◌∷◌, false, str_eq, ◌+◌, ◌||◌, ◌≡◌, ◌&&◌, if◌then◌else◌, some, ◌%◌, ok, [], ◌^◌,
  reject_if, contains, not, ◌==◌, none, true,
}
use ctrldb.Workflow.Journal.Cursor.{Cursor, holds, count_at}
use ctrldb.Workflow.Journal.Handlers.{
  settle_pending, settle_pause, on_request, on_step, step_guard, on_transition, request_guard,
  step_update,
}
use ctrldb.Domain.Journal.{
  JournalEntryKind, JournalEntry, JournalPause, JournalStep, JournalCancellationRequest,
}
use ctrldb.Workflow.Machine.{Machine}
use ctrldb.Domain.Operation.{OperationState, state_eq}
use ctrldb.Domain.Time.{Time}
use ctrldb.Domain.Outcome.{step_outcome_eq, StepOutcome}
use ctrldb.Workflow.Journal.Stream.Effects.{on_transition-Begins}
use ctrldb.Workflow.Journal.Stream.Transitions.{on_transition-Passed}
use ctrldb.Workflow.Journal.Entry.{stream_error}
use ctrldb.Workflow.Route.{route_reachable}

-- Whether an entry is an attempt at the step, and one that is done.
abbrev pub attempted : String → JournalEntryKind → JournalEntry → Bool
attempted id JournalEntryKind.step entry = holds (λ step. str_eq step.id id) entry.step
attempted id _ entry = false

abbrev pub finished : String → JournalEntryKind → JournalEntry → Bool
finished id JournalEntryKind.step entry =
    holds (λ step. str_eq step.id id && step_outcome_eq step.outcome StepOutcome.done) entry.step
finished id _ entry = false

abbrev pub attempts_in : String → List JournalEntry → ℕ
attempts_in id [] = 0
attempts_in id (entry ∷ entries) =
    attempts_in id entries + (if attempted id entry.kind entry then 1 else 0)

abbrev pub finished_in : String → List JournalEntry → Bool
finished_in id [] = false
finished_in id (entry ∷ entries) = finished id entry.kind entry || finished_in id entries

-- Every attempt is numbered one above the attempts at the same step before it, modulo 2 ^ 32, and
-- none of these was done.
abbrev pub IsAttempted : List JournalEntry → List JournalEntry → Type 0
IsAttempted earlier [] = Unit
IsAttempted earlier (entry ∷ entries) =
    ((step : JournalStep)
      → entry.kind ≡ JournalEntryKind.step
      → entry.step ≡ some step
      → (step.attempt ≡ (attempts_in step.id earlier + 1) % 2 ^ 32)
        × (finished_in step.id earlier ≡ false))
    × IsAttempted (entry ∷ earlier) entries

-- The variables of the scan agree with the entries before.
abbrev pub Tallied : Cursor → List JournalEntry → Type 0
Tallied c earlier =
    (id : String)
    → (count_at id c.attempts ≡ attempts_in id earlier % 2 ^ 32)
      × (contains c.completed id ≡ finished_in id earlier)

abbrev pub tally : Cursor → List (String × ℕ) × List String
tally c = (c.attempts, c.completed)

settle_pending-tally :
    (n : ℕ) (next : OperationState) (p : Option OperationState) (c : Cursor) {c' : Cursor}
    → settle_pending n next p c ≡ ok c'
    → tally c ≡ tally c'
unfolding settle_pending
settle_pending-tally n next none c h = ap tally (ok-injective h)
settle_pending-tally n next (some route) c h =
    let (u, passed, rest) =
      >>=-ok
        (reject_if (not (state_eq next route) && not (route_reachable next route))
          (stream_error n "transition made the pending cancellation unreachable"))
        _ h in
    ap tally (ok-injective rest)

settle_pause-tally :
    (n : ℕ) (pause : Option JournalPause) (c : Cursor) {c' : Cursor}
    → settle_pause n pause c ≡ ok c'
    → tally c ≡ tally c'
unfolding settle_pause
settle_pause-tally n none c h = ap tally (ok-injective h)
settle_pause-tally n (some pause) c h =
    let (u, passed, rest) =
      >>=-ok
        (reject_if (c.mutated && not pause.mutation_occurred)
          (stream_error n "PAUSED metadata must not discard observed mutation"))
        _ h in
    ap tally (ok-injective rest)

pub on_transition-tally :
    (p : Option Machine) (operation_id plan_id : String) (n : ℕ) (c : Cursor) (entry : JournalEntry)
    {c' : Cursor}
    → on_transition p operation_id plan_id n c entry ≡ ok c'
    → tally c ≡ tally c'
on_transition-tally none operation_id plan_id n c entry h =
    sym (ap tally (on_transition-Begins operation_id plan_id n c entry h).result)
on_transition-tally (some m) operation_id plan_id n c entry h =
    let passed = on_transition-Passed m operation_id plan_id n c entry h in
    settle_pending-tally n entry.operation_state c.pending _ passed.pending_settled
    ∙ settle_pause-tally n entry.pause passed.settled passed.pause_settled

pub on_request-tally :
    (p : Option Machine) (n : ℕ) (prior : Time) (c : Cursor) (entry : JournalEntry)
    (request : JournalCancellationRequest) {c' : Cursor}
    → on_request p n prior c entry request ≡ ok c'
    → tally c ≡ tally c'
unfolding on_request
on_request-tally none n prior c entry request h = cc
on_request-tally (some m) n prior c entry request h =
    let (u, passed, rest) = >>=-ok (request_guard n m.state c entry request) _ h in
    ap tally (ok-injective rest)

pub on_step-tally :
    (p : Option Machine) (n : ℕ) (prior : Time) (c : Cursor) (entry : JournalEntry)
    (step : JournalStep) {c' : Cursor}
    → on_step p n prior c entry step ≡ ok c'
    → (tally (step_update c step) ≡ tally c')
      × ((step.attempt == (count_at step.id c.attempts + 1) % 2 ^ 32) ≡ true)
      × (contains c.completed step.id ≡ false)
unfolding on_step step_guard
on_step-tally none n prior c entry step h = cc
on_step-tally (some m) n prior c entry step h =
    let (u, passed, rest) = >>=-ok (step_guard n m.state prior c entry step) _ h in
    let all = checks-passed _ passed in
    (
      ap tally (ok-injective rest),
      not-false _ (reject_if-passed _ _ all.1.1.1.1.1.0),
      reject_if-passed _ _ all.1.1.1.1.0,
    )
