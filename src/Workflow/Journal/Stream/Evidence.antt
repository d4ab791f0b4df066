-- ===== src/Workflow/Journal/Stream/Evidence.antt =====
-- Evidence of a mutation is never lost, and an operation that has any is never CANCELLED.
use ctrldb.Prelude.{
  ℕ, List, Bool, ◌≡◌, ◌∷◌, false, ok, ◌++◌, some, ◌||◌, ok-injective, true, [], ap, sym, ◌+◌, ◌∙◌,
  or_false_right, subst, refl, or_assoc, >>=-ok, ◌&&◌, arith, Option, length, is_some, none,
}
use ctrldb.Workflow.Journal.Stream.{
  validate_from, scan_journal, validate_journal, Cursor, state_terminal, start, holds, at_entry,
}
use ctrldb.Domain.Journal.{JournalEntryKind, JournalEntry, JournalPause}
use ctrldb.Workflow.Machine.{Machine, advance}
use ctrldb.Workflow.Journal.Stream.Effects.{shows_mutation, dispatch-Begins, machine_after, shows}
use ctrldb.Workflow.Journal.Stream.Steps.{
  validate_from-cons, validate_next-ok, entry_guard-Guarded, validate_journal_entry-body,
  scan_journal-append, scan_journal-Inv,
}
use ctrldb.Workflow.Journal.Stream.Refinement.{validate_next-Effect}
use ctrldb.Domain.Time.{zero_time}
use ctrldb.Domain.Operation.{OperationState}
use ctrldb.Workflow.Journal.Entry.{validate_body}
use ctrldb.Workflow.Journal.Stream.Transitions.{transition_pause}

-- Whether any entry of a history is evidence of a mutation.
abbrev pub any_shows : List JournalEntry → Bool
any_shows [] = false
any_shows (entry ∷ entries) = shows_mutation entry || any_shows entries

validate_from-evidence :
    (first : JournalEntry) (i : ℕ) (c : Cursor) (m : Machine) (entries : List JournalEntry)
    {c' : Cursor}
    → c.machine ≡ some m
    → validate_from first i c entries ≡ ok c'
    → (c'.mutated ≡ (c.mutated || any_shows entries)) × ((m' : Machine) × (c'.machine ≡ some m'))
unfolding validate_from
validate_from-evidence first i c m [] at h =
    let same = ok-injective h in
    (
      ap (λ x. x.mutated) (sym same) ∙ or_false_right c.mutated,
      (m, ap (λ x. x.machine) (sym same) ∙ at),
    )
validate_from-evidence first i c m (entry ∷ entries) at h =
    let (d, next, rest) = validate_from-cons first i c entry entries h in
    let effect = validate_next-Effect first (i + 1) m c entry at next in
    let (later, machine) =
      validate_from-evidence first (i + 1) d (machine_after entry.kind m entry) entries
        effect.machine rest in
    (
      later
          ∙ ap (λ b. b || any_shows entries) effect.evidence
          ∙ or_assoc c.mutated (shows_mutation entry) (any_shows entries),
      machine,
    )

-- The initial transition has no pause, so it shows nothing.
discover_shows :
    (k : JournalEntryKind) (entry : JournalEntry)
    → k ≡ JournalEntryKind.transition
    → entry.operation_state ≡ OperationState.discover
    → validate_body k entry ≡ ok tt
    → shows k entry ≡ false
discover_shows JournalEntryKind.transition entry t d body =
    no_pause entry.pause (transition_pause entry body ∙ rw d)
  where
    no_pause :
        (p : Option JournalPause)
        → is_some p ≡ false
        → holds (λ pause. pause.mutation_occurred) p ≡ false
    no_pause none h = refl
    no_pause (some pause) h = cc
discover_shows _ entry t d body = cc

-- The scan's flag is set exactly when an entry of the history is evidence of a mutation, and an
-- accepted history has a machine.
pub scan_journal-evidence :
    (first : JournalEntry) (entries : List JournalEntry) {c : Cursor}
    → scan_journal (first ∷ entries) ≡ ok c
    → (c.mutated ≡ any_shows (first ∷ entries)) × ((m : Machine) × (c.machine ≡ some m))
unfolding scan_journal
scan_journal-evidence first entries h =
    let (d, next, rest) = validate_from-cons first 0 start first entries h in
    let (passed, dispatched) = validate_next-ok first (0 + 1) start first next in
    let guarded = entry_guard-Guarded first (0 + 1) start first passed in
    let begins =
      dispatch-Begins first.kind first.operation_id first.plan_id (0 + 1) zero_time
        (at_entry start first) first refl dispatched in
    let nothing =
      discover_shows first.kind first begins.is_transition begins.is_discover
        (validate_journal_entry-body first guarded.valid) in
    let (later, machine) =
      validate_from-evidence first (0 + 1) d begins.machine entries
        (ap (λ x. x.machine) begins.result) rest in
    (
      later
          ∙ ap (λ b. b || any_shows entries) (ap (λ x. x.mutated) begins.result)
          ∙ ap (λ b. b || any_shows entries) (sym nothing),
      machine,
    )

-- While a cancellation is pending on the way to CANCELLED, and when the operation is CANCELLED, no
-- entry of the accepted history is evidence of a mutation.
pub scan_journal_cancellation_unmutated :
    (first : JournalEntry) (entries : List JournalEntry) {c : Cursor}
    → scan_journal (first ∷ entries) ≡ ok c
    → (c.pending ≡ some OperationState.cancelled → any_shows (first ∷ entries) ≡ false)
      × ((m : Machine)
          → c.machine ≡ some m
          → m.state ≡ OperationState.cancelled
          → any_shows (first ∷ entries) ≡ false)
scan_journal_cancellation_unmutated first entries {c = c} h =
    let inv = scan_journal-Inv (first ∷ entries) h in
    let (evidence, machine) = scan_journal-evidence first entries h in
    (
      λ pending. sym evidence ∙ unset c.mutated _ (rw pending) inv.cancel_unmutated,
      λ m at cancelled.
          sym evidence ∙ unset c.mutated _ (rw (at, cancelled)) inv.cancelled_unmutated,
    )
  where
    unset : (a b : Bool) → b ≡ true → (a && b) ≡ false → a ≡ false
    unset a b t h = ground arith

-- Nothing is accepted after a terminal state.
pub validate_from_terminal :
    (first : JournalEntry) (i : ℕ) (c : Cursor) (m : Machine) (entries : List JournalEntry)
    {c' : Cursor}
    → c.machine ≡ some m
    → state_terminal m.state ≡ true
    → validate_from first i c entries ≡ ok c'
    → entries ≡ []
validate_from_terminal first i c m [] at ended h = refl
validate_from_terminal first i c m (entry ∷ entries) at ended h =
    let (d, next, rest) = validate_from-cons first i c entry entries h in
    let (passed, dispatched) = validate_next-ok first (i + 1) c entry next in
    let live = (entry_guard-Guarded first (i + 1) c entry passed).live in
    absurd (clash (subst (λ p. holds (λ x. state_terminal x.state) p ≡ false) at live) ended)
  where
    clash : {b : Bool} → b ≡ false → b ≡ true → ⊥
    clash p q = cc

cancelled_machine :
    (k : JournalEntryKind) (m : Machine) (entry : JournalEntry)
    → k ≡ JournalEntryKind.transition
    → entry.operation_state ≡ OperationState.cancelled
    → machine_after k m entry ≡ advance m OperationState.cancelled
cancelled_machine JournalEntryKind.transition m entry t s = ap (advance m) s
cancelled_machine _ m entry t s = cc

validate_from_end :
    (first : JournalEntry) (i : ℕ) (e : Cursor) (ys : List JournalEntry) {c : Cursor}
    → ys ≡ []
    → validate_from first i e ys ≡ ok c
    → e ≡ c
unfolding validate_from
validate_from_end first i e ys {c = c} none_left h =
    ok-injective (subst (λ l. validate_from first i e l ≡ ok c) none_left h)

-- In an accepted history a transition to CANCELLED is the last entry, and no entry of the whole
-- history is evidence of a mutation.
pub validate_journal_cancelled :
    (first : JournalEntry) (xs : List JournalEntry) (entry : JournalEntry) (ys : List JournalEntry)
    → validate_journal ((first ∷ xs) ++ entry ∷ ys) ≡ ok tt
    → entry.kind ≡ JournalEntryKind.transition
    → entry.operation_state ≡ OperationState.cancelled
    → (ys ≡ []) × (any_shows ((first ∷ xs) ++ entry ∷ ys) ≡ false)
unfolding validate_journal
validate_journal_cancelled first xs entry ys h t s =
    let (c, scanned, u) = >>=-ok (scan_journal ((first ∷ xs) ++ entry ∷ ys)) _ h in
    let (d, begun, rest) = scan_journal-append first xs (entry ∷ ys) scanned in
    let (m, at) = (scan_journal-evidence first xs begun).1 in
    let i = length (first ∷ xs) in
    let (e, next, last) = validate_from-cons first i d entry ys rest in
    let effect = validate_next-Effect first (i + 1) m d entry at next in
    let after : machine_after entry.kind m entry ≡ advance m OperationState.cancelled =
      cancelled_machine entry.kind m entry t s in
    let ended =
      validate_from_terminal first (i + 1) e (advance m OperationState.cancelled) ys
        (effect.machine ∙ ap some after) refl last in
    let same = validate_from_end first (i + 1) e ys ended last in
    let machine = ap (λ x. x.machine) (sym same) ∙ effect.machine ∙ ap some after in
    (
      ended,
      (scan_journal_cancellation_unmutated first (xs ++ entry ∷ ys) scanned).1
          (advance m OperationState.cancelled) machine refl,
    )
