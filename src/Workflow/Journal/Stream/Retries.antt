-- ===== src/Workflow/Journal/Stream/Retries.antt =====
-- Attempts in an accepted history are numbered and end with DONE, for internal/workflow/journal.go.
use ctrldb.Prelude.{
  >>=-ok, subst, ap, sym, ◌∙◌, refl, arith, List, ◌≡◌, some, String, ℕ, ok, false, ◌+◌, true, ◌∷◌,
  [], ◌%◌, ◌^◌, contains,
}
use ctrldb.Workflow.Journal.Stream.Refinement.{validate_next-kind}
use ctrldb.Workflow.Journal.Cursor.{Cursor, count_at, start}
use ctrldb.Domain.Journal.{JournalStep, JournalEntryKind, JournalEntry, journal_entry_kind_valid}
use ctrldb.Workflow.Journal.Stream.{
  dispatch, validate_journal, scan_journal, Time, validate_from, at_entry,
}
use ctrldb.Workflow.Journal.Stream.Attempts.{
  tally, attempts_in, attempted, Tallied, IsAttempted, finished, finished_in, on_request-tally,
  on_transition-tally, on_step-tally,
}
use ctrldb.Workflow.Journal.Stream.Steps.{
  dereferenced-ok, validate_from-cons, validate_next-ok, entry_guard-Guarded,
}
use ctrldb.Workflow.Journal.Stream.Numbered.{same_number, grown, next_number}

-- What is shown of one entry.
abbrev Numbered : List JournalEntry → JournalEntry → Type 0
Numbered earlier entry =
    (step : JournalStep)
    → entry.kind ≡ JournalEntryKind.step
    → entry.step ≡ some step
    → (step.attempt ≡ (attempts_in step.id earlier + 1) % 2 ^ 32)
      × (finished_in step.id earlier ≡ false)

unchanged :
    (c c' : Cursor) (earlier : List JournalEntry) (entry : JournalEntry)
    → tally c ≡ tally c'
    → ((id : String)
        → (attempted id entry.kind entry ≡ false) × (finished id entry.kind entry ≡ false))
    → Tallied c earlier
    → Tallied c' (entry ∷ earlier)
unchanged c c' earlier entry same quiet tallied id =
    let kept : attempts_in id earlier + 0 ≡ attempts_in id earlier = omega arith in
    (
      rw ((quiet id).0, kept) (ap (λ x. count_at id x.0) (sym same) ∙ (tallied id).0),
      rw (quiet id).1 (ap (λ x. contains x.1 id) (sym same) ∙ (tallied id).1),
    )

some_step : {a b : JournalStep} → some a ≡ some b → a ≡ b
some_step h = cc

no_step : {k : JournalEntryKind} → k ≡ JournalEntryKind.transition → ¬ (k ≡ JournalEntryKind.step)
no_step h k = cc

no_step_request :
    {k : JournalEntryKind}
    → k ≡ JournalEntryKind.cancellation_request
    → ¬ (k ≡ JournalEntryKind.step)
no_step_request h k = cc

dispatch-Tallied :
    (k : JournalEntryKind) (operation_id plan_id : String) (n : ℕ) (prior : Time) (c : Cursor)
    (entry : JournalEntry) (earlier : List JournalEntry) {c' : Cursor}
    → entry.kind ≡ k
    → journal_entry_kind_valid k ≡ true
    → Tallied c earlier
    → dispatch k operation_id plan_id n prior c entry ≡ ok c'
    → Numbered earlier entry × Tallied c' (entry ∷ earlier)
unfolding dispatch
dispatch-Tallied JournalEntryKind.cancellation_request operation_id plan_id n prior c entry earlier
      {c' = c'} e v tallied h =
    let (request, held, rest) = dereferenced-ok entry.cancellation _ h in
    (
      λ step kind. absurd (no_step_request e kind),
      unchanged c c' earlier entry (on_request-tally c.machine n prior c entry request rest)
          (λ id.
            subst (λ x. (attempted id x entry ≡ false) × (finished id x entry ≡ false)) (sym e)
              (refl, refl))
          tallied,
    )
dispatch-Tallied JournalEntryKind.transition operation_id plan_id n prior c entry earlier {c' = c'}
      e v tallied h =
    (
      λ step kind. absurd (no_step e kind),
      unchanged c c' earlier entry (on_transition-tally c.machine operation_id plan_id n c entry h)
          (λ id.
            subst (λ x. (attempted id x entry ≡ false) × (finished id x entry ≡ false)) (sym e)
              (refl, refl))
          tallied,
    )
dispatch-Tallied (JournalEntryKind.other k) operation_id plan_id n prior c entry earlier e v tallied
      h =
    cc
dispatch-Tallied JournalEntryKind.step operation_id plan_id n prior c entry earlier {c' = c'} e v
      tallied h =
    let (step, held, rest) = dereferenced-ok entry.step _ h in
    let (same, number, unfinished) = on_step-tally c.machine n prior c entry step rest in
    let numbered = same_number step.attempt _ number in
    let later = grown c earlier entry step tallied e held numbered in
    (
      λ other kind given.
          subst
            (λ s.
              (s.attempt ≡ (attempts_in s.id earlier + 1) % 4294967296)
              × (finished_in s.id earlier ≡ false))
            (some_step (sym held ∙ given))
            (
              next_number _ (attempts_in step.id earlier) step.attempt (tallied step.id).0 numbered,
              sym (tallied step.id).1 ∙ unfinished,
            ),
      λ id. (
        ap (λ x. count_at id x.0) (sym same) ∙ (later id).0,
        ap (λ x. contains x.1 id) (sym same) ∙ (later id).1,
      ),
    )

validate_from-IsAttempted :
    (first : JournalEntry) (i : ℕ) (c : Cursor) (earlier entries : List JournalEntry) {c' : Cursor}
    → Tallied c earlier
    → validate_from first i c entries ≡ ok c'
    → IsAttempted earlier entries
validate_from-IsAttempted first i c earlier [] tallied h = tt
validate_from-IsAttempted first i c earlier (entry ∷ entries) tallied h =
    let (d, next, rest) = validate_from-cons first i c entry entries h in
    let (passed, dispatched) = validate_next-ok first (i + 1) c entry next in
    let guarded = entry_guard-Guarded first (i + 1) c entry passed in
    let (numbered, after) =
      dispatch-Tallied entry.kind first.operation_id first.plan_id (i + 1) c.previous_time
        (at_entry c entry) entry earlier refl (validate_next-kind first (i + 1) c entry guarded)
        tallied dispatched in
    (numbered, validate_from-IsAttempted first (i + 1) d (entry ∷ earlier) entries after rest)

-- In an accepted history the attempts at each step are numbered from 1 without a gap, modulo 2 ^ 32,
-- and no attempt at a step follows one that was DONE.
pub validate_journal-IsAttempted :
    (entries : List JournalEntry) → validate_journal entries ≡ ok tt → IsAttempted [] entries
unfolding validate_journal scan_journal
validate_journal-IsAttempted [] h = tt
validate_journal-IsAttempted (first ∷ entries) h =
    let (c, scanned, u) = >>=-ok (scan_journal (first ∷ entries)) _ h in
    validate_from-IsAttempted first 0 start [] (first ∷ entries) (λ id. (refl, refl)) scanned
