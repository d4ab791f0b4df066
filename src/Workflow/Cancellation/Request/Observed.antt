-- ===== src/Workflow/Cancellation/Request/Observed.antt =====
-- What `cancellationContext` of internal/workflow/cancellation.go observes of a journal.
use ctrldb.Prelude.{
  >>=-ok, ok-injective, ap, ◌∙◌, Bool, Option, ◌≡◌, false, if◌then◌else◌, ◌&&◌, ◌||◌, not, arith,
  List, some, ok, none, true, ◌∷◌, refl, reject_if, [], get_elem?,
}
use ctrldb.Domain.Retry.{MutationObservation, mutation_observation_eq}
use ctrldb.Workflow.Cancellation.Request.{
  ExecutionContract, JournalEntryKind, JournalEntry, invalid_cancellation,
}
use ctrldb.Workflow.Cancellation.Context.{
  progress_step, progress_entry, progress_entries, observe_pause, Progress,
}
use ctrldb.Workflow.Journal.Stream.Effects.{shows}
use ctrldb.Workflow.Journal.Stream.Evidence.{any_shows}
use ctrldb.Domain.Journal.{JournalPause, JournalStep}
use ctrldb.Workflow.Journal.Cursor.{holds}
use ctrldb.Domain.Outcome.{step_outcome_eq, StepOutcome}
use ctrldb.Workflow.Cancellation.Restore.{contradicts}

abbrev nothing : MutationObservation
nothing = MutationObservation.not_occurred

observe_pause-nothing :
    (q : Option JournalPause) (o : MutationObservation)
    → observe_pause q o ≡ nothing
    → (o ≡ nothing) × (holds (λ pause. pause.mutation_occurred) q ≡ false)
observe_pause-nothing none o h = (h, refl)
observe_pause-nothing (some pause) o h = by_mutation pause.mutation_occurred o h
  where
    by_mutation :
        (b : Bool) (o : MutationObservation)
        → (if b then MutationObservation.occurred else o) ≡ nothing
        → (o ≡ nothing) × (b ≡ false)
    by_mutation true o h = cc
    by_mutation false o h = (h, refl)

step_nothing :
    (u m : Bool) (o : MutationObservation)
    → (if u
        then MutationObservation.unknown
        else if m && not (mutation_observation_eq o MutationObservation.unknown)
        then MutationObservation.occurred
        else o)
      ≡ nothing
    → (o ≡ nothing) × ((m || u) ≡ false)
step_nothing true m o h = cc
step_nothing false false o h = (h, refl)
step_nothing false true MutationObservation.unknown h = cc
step_nothing false true _ h = cc

progress_step-nothing :
    (contract : ExecutionContract) (p : Progress) (step : Option JournalStep) {p' : Progress}
    → progress_step contract p step ≡ ok p'
    → p'.observation ≡ nothing
    → (p.observation ≡ nothing)
      × (holds (λ s. s.mutation_occurred || step_outcome_eq s.outcome StepOutcome.unknown) step
          ≡ false)
unfolding progress_step
progress_step-nothing contract p none h o = cc
progress_step-nothing contract p (some step) h o =
    let (u, passed, same) =
      >>=-ok
        (reject_if (contradicts step (get_elem? contract.steps p.next))
          (invalid_cancellation "journal steps do not match the execution contract"))
        _ h in
    step_nothing (step_outcome_eq step.outcome StepOutcome.unknown) step.mutation_occurred
      p.observation (ap (λ x. x.observation) (ok-injective same) ∙ o)

progress_entry-nothing :
    (contract : ExecutionContract) (p : Progress) (k : JournalEntryKind) (entry : JournalEntry)
    {p' : Progress}
    → progress_entry contract p k entry ≡ ok p'
    → p'.observation ≡ nothing
    → (p.observation ≡ nothing) × (shows k entry ≡ false)
unfolding progress_entry
progress_entry-nothing contract p JournalEntryKind.cancellation_request entry h o = cc
progress_entry-nothing contract p JournalEntryKind.step entry h o =
    let (before_step, quiet) = progress_step-nothing contract _ entry.step h o in
    ((observe_pause-nothing entry.pause p.observation before_step).0, quiet)
progress_entry-nothing contract p JournalEntryKind.transition entry h o =
    observe_pause-nothing entry.pause p.observation (ap (λ x. x.observation) (ok-injective h) ∙ o)
progress_entry-nothing contract p (JournalEntryKind.other k) entry h o = (
  (observe_pause-nothing entry.pause p.observation
      (ap (λ x. x.observation) (ok-injective h) ∙ o)).0,
  refl,
)

both_false : (a b : Bool) → a ≡ false → b ≡ false → (a || b) ≡ false
both_false a b h k = ground arith

-- Where the context observes no mutation, no entry of the journal is evidence of one.
pub progress_entries-nothing :
    (contract : ExecutionContract) (p : Progress) (entries : List JournalEntry) {p' : Progress}
    → progress_entries contract p entries ≡ ok p'
    → p'.observation ≡ nothing
    → (p.observation ≡ nothing) × (any_shows entries ≡ false)
unfolding progress_entries
progress_entries-nothing contract p [] h o = (ap (λ x. x.observation) (ok-injective h) ∙ o, refl)
progress_entries-nothing contract p (entry ∷ entries) h o =
    let (q, first, rest) = >>=-ok (progress_entry contract p entry.kind entry) _ h in
    let (so_far, quiet) = progress_entries-nothing contract q entries rest o in
    let (earlier, first_quiet) = progress_entry-nothing contract p entry.kind entry first so_far in
    (earlier, both_false (shows entry.kind entry) (any_shows entries) first_quiet quiet)
