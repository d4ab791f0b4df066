-- ===== src/Workflow/Cancellation/Request/Restored.antt =====
-- A durable request of internal/workflow/cancellation.go is restored from the journal.
use ctrldb.Prelude.{
  >>=-ok, ok-injective, ap, ◌∙◌, Bool, refl, reject_if, reject_if-passed, List, Option, String, ◌≡◌,
  ok, some, ℕ, ◌∷◌, [], if◌then◌else◌, get_elem?, none, false, true,
}
use ctrldb.Workflow.Cancellation.Request.{
  ExecutionContract, JournalEntry, JournalEntryKind, invalid_cancellation, empty_binding, state_eq,
}
use ctrldb.Workflow.Cancellation.Context.{progress_step, progress_entry, progress_entries, Progress}
use ctrldb.Workflow.Cancellation.Restore.{
  replay_step, replay_entry, replay_entries, Replay, replay_transition, contradicts, after_step,
}
use ctrldb.Workflow.Journal.Cursor.{escalate, holds}
use ctrldb.Workflow.Journal.Handlers.{step_mutated}
use ctrldb.Domain.Journal.{JournalStep}

replay_step-ok :
    (contract : ExecutionContract) (p : Progress) (r : Replay) (step : Option JournalStep)
    {p' : Progress}
    → r.next ≡ p.next
    → progress_step contract p step ≡ ok p'
    → (r' : Replay) × (replay_step contract r step ≡ ok r') × (r'.next ≡ p'.next)
unfolding progress_step replay_step reject_if
replay_step-ok contract p r none same h = cc
replay_step-ok contract p r (some step) same h =
    let (u, passed, done) =
      >>=-ok
        (reject_if (contradicts step (get_elem? contract.steps p.next))
          (invalid_cancellation "journal steps do not match the execution contract"))
        _ h in
    let agrees : contradicts step (get_elem? contract.steps r.next) ≡ false =
      ap (λ n. contradicts step (get_elem? contract.steps n)) same ∙ reject_if-passed _ _ passed in
    (
      record r { next = after_step step r.next; target = escalate (step_mutated step) r.target },
      rw agrees refl,
      ap (after_step step) same ∙ ap (λ x. x.next) (ok-injective done),
    )

-- Where the context can follow the journal, so can the replay, with the same current step.
replay_entry-ok :
    (hash : List JournalEntry → Option String) (contract : ExecutionContract)
    (all : List JournalEntry) (p : Progress) (r : Replay) (k : JournalEntryKind)
    (entry : JournalEntry) {p' : Progress}
    → r.next ≡ p.next
    → progress_entry contract p k entry ≡ ok p'
    → (r' : Replay) × (replay_entry hash contract all r k entry ≡ ok r') × (r'.next ≡ p'.next)
unfolding progress_entry replay_entry
replay_entry-ok hash contract all p r JournalEntryKind.cancellation_request entry same h = cc
replay_entry-ok hash contract all p r JournalEntryKind.transition entry same h = (
  replay_transition r entry.operation_state,
  refl,
  kept (holds (λ target. state_eq entry.operation_state target) r.target)
      ∙ same
      ∙ ap (λ x. x.next) (ok-injective h),
)
  where
    kept :
        (b : Bool)
        → ◌≡◌ {A = ℕ}
            (if b then record r { target = none; binding = empty_binding } else r).next
            r.next
    kept true = refl
    kept false = refl
replay_entry-ok hash contract all p r (JournalEntryKind.other s) entry same h =
    (r, refl, same ∙ ap (λ x. x.next) (ok-injective h))
replay_entry-ok hash contract all p r JournalEntryKind.step entry same h =
    replay_step-ok contract _ r entry.step same h

pub replay_entries-ok :
    (hash : List JournalEntry → Option String) (contract : ExecutionContract)
    (all : List JournalEntry) (p : Progress) (r : Replay) (entries : List JournalEntry)
    {p' : Progress}
    → r.next ≡ p.next
    → progress_entries contract p entries ≡ ok p'
    → (r' : Replay) × (replay_entries hash contract all r entries ≡ ok r') × (r'.next ≡ p'.next)
unfolding progress_entries replay_entries
replay_entries-ok hash contract all p r [] same h =
    (r, refl, same ∙ ap (λ x. x.next) (ok-injective h))
replay_entries-ok hash contract all p r (entry ∷ entries) same h =
    let (q, first, rest) = >>=-ok (progress_entry contract p entry.kind entry) _ h in
    let (s, played, next) = replay_entry-ok hash contract all p r entry.kind entry same first in
    let (r', later, last) = replay_entries-ok hash contract all q s entries next rest in
    (r', rw played later, last)
