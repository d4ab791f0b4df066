-- ===== src/Workflow/Journal/Stream/Numbered.antt =====
-- The numbers of the attempts in an accepted history, for internal/workflow/journal.go.
use ctrldb.Prelude.{
  ap, sym, ◌∙◌, Bool, refl, Bool-cases, lookup-insert, str_eq→eq, arith, String, ℕ, Option, ◌≡◌,
  ◌==◌, some, List, ◌%◌, true, contains, none, ◌+◌, lookup, if◌then◌else◌, insert, ◌∷◌, str_eq, inl,
  ◌&&◌, inr, ◌||◌, false,
}
use ctrldb.Workflow.Journal.Cursor.{Cursor, count_at}
use ctrldb.Domain.Journal.{JournalEntryKind, JournalEntry, JournalStep}
use ctrldb.Workflow.Journal.Stream.Attempts.{attempted, Tallied, finished, attempts_in, finished_in}
use ctrldb.Workflow.Journal.Handlers.{step_update}
use ctrldb.Domain.Outcome.{step_outcome_eq, StepOutcome}

attempted_step :
    (id : String) (k : JournalEntryKind) (entry : JournalEntry) (step : JournalStep)
    → k ≡ JournalEntryKind.step
    → entry.step ≡ some step
    → (attempted id k entry ≡ str_eq step.id id)
      × (finished id k entry ≡ (str_eq step.id id && step_outcome_eq step.outcome StepOutcome.done))
attempted_step id JournalEntryKind.step entry step h held = (rw held refl, rw held refl)
attempted_step id JournalEntryKind.transition entry step h held = cc
attempted_step id JournalEntryKind.cancellation_request entry step h held = cc
attempted_step id (JournalEntryKind.other k) entry step h held = cc

pub next_number :
    (count attempts a : ℕ)
    → count ≡ attempts % 4294967296
    → a ≡ (count + 1) % 4294967296
    → a ≡ (attempts + 1) % 4294967296
next_number count attempts a h k = omega (arith, h, k)

pub same_number : (a b : ℕ) → (a == b) ≡ true → a ≡ b
same_number a b h = ground arith

counted : Option ℕ → ℕ
counted none = 0
counted (some n) = n

counted_lem : (id : String) (m : List (String × ℕ)) → count_at id m ≡ counted (lookup id m)
unfolding counted
counted_lem id m = by_lookup (lookup id m)
  where
    by_lookup : (o : Option ℕ) → (elim o [ none ↦ 0 | some n ↦ n ]) ≡ counted o
    by_lookup none = refl
    by_lookup (some n) = refl

count_grown :
    (id own : String) (a attempts : ℕ) (m : List (String × ℕ))
    → count_at id m ≡ attempts % 4294967296
    → (own ≡ id → a ≡ (attempts + 1) % 4294967296)
    → count_at id (insert own a m) ≡ (attempts + (if str_eq own id then 1 else 0)) % 4294967296
unfolding counted
count_grown id own a attempts m h k =
    counted_lem id (insert own a m)
    ∙ ap counted (lookup-insert own id a m)
    ∙ elim (Bool-cases (str_eq own id)) [
      | inl same ↦ rw same (k (str_eq→eq own id same))
      | inr differs ↦
          let kept : attempts + 0 ≡ attempts = omega arith in
          rw (differs, kept) (sym (counted_lem id m) ∙ h)
    ]

done_grown :
    (id own : String) (done : Bool) (completed : List String) (before : Bool)
    → contains completed id ≡ before
    → contains (if done then own ∷ completed else completed) id
      ≡ ((str_eq own id && done) || before)
done_grown id own true completed before h = ground (arith, h)
done_grown id own false completed before h = ground (arith, h)

pub grown :
    (c : Cursor) (earlier : List JournalEntry) (entry : JournalEntry) (step : JournalStep)
    → Tallied c earlier
    → entry.kind ≡ JournalEntryKind.step
    → entry.step ≡ some step
    → step.attempt ≡ (count_at step.id c.attempts + 1) % 4294967296
    → Tallied (step_update c step) (entry ∷ earlier)
grown c earlier entry step tallied kind held number id =
    let (is_attempt, is_done) = attempted_step id entry.kind entry step kind held in
    let here =
      next_number _ (attempts_in step.id earlier) step.attempt (tallied step.id).0 number in
    (
      rw is_attempt (
          count_grown id step.id step.attempt (attempts_in id earlier) c.attempts (tallied id).0
            (λ same. here ∙ ap (λ x. (attempts_in x earlier + 1) % 4294967296) same)),
      rw is_done (
          done_grown id step.id (step_outcome_eq step.outcome StepOutcome.done) c.completed
            (finished_in id earlier) (tallied id).1),
    )
