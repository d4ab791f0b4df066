-- ===== src/Workflow/Journal/Stream/Refinement.antt =====
-- An accepted history is a run of the machine.
use ctrldb.Prelude.{
  ℕ, List, Bool, String, ◌≡◌, ◌∷◌, some, ok, [], true, not-false, reject_if-passed, ◌∙◌,
  checks-passed, ap, subst, sym, ◌+◌, ok-injective, refl,
}
use ctrldb.Domain.Journal.{JournalEntryKind, JournalEntry, journal_entry_kind_valid}
use ctrldb.Workflow.Journal.Stream.{
  dispatch, validate_from, scan_journal, Cursor, Time, validate_next, at_entry, start,
  on_transition,
}
use ctrldb.Workflow.Journal.Entry.{validate_journal_entry}
use ctrldb.Domain.Operation.{OperationState, state_eq}
use ctrldb.Workflow.Machine.{Machine, new_machine, has}
use ctrldb.Workflow.Journal.Stream.Steps.{
  Guarded, validate_from-cons, validate_next-ok, entry_guard-Guarded,
}
use ctrldb.Workflow.Machine.Life.{
  drive, needs_lock, drive_nil, allowed-drive, targets, needs_verify, needs_document,
  needs_rollback, new_machine-drive_gates,
}
use ctrldb.Workflow.Journal.Stream.Effects.{machine_after, Effect, dispatch-Effect, dispatch-Begins}
use ctrldb.Workflow.Journal.Stream.Transitions.{on_transition-Passed}
use ctrldb.Domain.Time.{zero_time}

-- The transitions that a history records, each a cancellation with its authorization.
abbrev add_move :
    JournalEntryKind → JournalEntry → List (OperationState × Bool) → List (OperationState × Bool)
add_move JournalEntryKind.transition entry moves =
    (entry.operation_state, state_eq entry.operation_state OperationState.cancelled) ∷ moves
add_move _ entry moves = moves

abbrev pub recorded_moves : List JournalEntry → List (OperationState × Bool)
recorded_moves [] = []
recorded_moves (entry ∷ entries) = add_move entry.kind entry (recorded_moves entries)

drive-add_move :
    (k : JournalEntryKind) (m : Machine) (operation_id plan_id : String) (n : ℕ) (prior : Time)
    (c : Cursor) (entry : JournalEntry) (moves : List (OperationState × Bool)) {c' : Cursor}
    → c.machine ≡ some m
    → dispatch k operation_id plan_id n prior c entry ≡ ok c'
    → drive (some m) (add_move k entry moves) ≡ drive (some (machine_after k m entry)) moves
unfolding dispatch
drive-add_move JournalEntryKind.transition m operation_id plan_id n prior c entry moves {c' = c'} at
      h =
    allowed-drive m entry.operation_state (state_eq entry.operation_state OperationState.cancelled)
      moves
      (on_transition-Passed m operation_id plan_id n c entry
        (subst (λ p. on_transition p operation_id plan_id n c entry ≡ ok c') at h)).allowed
drive-add_move k m operation_id plan_id n prior c entry moves at h = refl

pub validate_next-kind :
    (first : JournalEntry) (n : ℕ) (c : Cursor) (entry : JournalEntry)
    → Guarded first n c entry
    → journal_entry_kind_valid entry.kind ≡ true
unfolding validate_journal_entry
validate_next-kind first n c entry g =
    not-false _ (reject_if-passed _ _ (checks-passed _ g.valid).1.1.1.1.1.0)

-- An accepted entry after the first.
pub validate_next-Effect :
    (first : JournalEntry) (n : ℕ) (m : Machine) (c : Cursor) (entry : JournalEntry) {c' : Cursor}
    → c.machine ≡ some m
    → validate_next first n c entry ≡ ok c'
    → Effect entry.kind m (at_entry c entry) entry c'
validate_next-Effect first n m c entry at h =
    let (passed, rest) = validate_next-ok first n c entry h in
    dispatch-Effect entry.kind m first.operation_id first.plan_id n c.previous_time
      (at_entry c entry) entry
      (validate_next-kind first n c entry (entry_guard-Guarded first n c entry passed)) at rest

pub validate_from-drive :
    (first : JournalEntry) (i : ℕ) (c : Cursor) (m : Machine) (entries : List JournalEntry)
    {c' : Cursor}
    → c.machine ≡ some m
    → validate_from first i c entries ≡ ok c'
    → drive (some m) (recorded_moves entries) ≡ ok c'.machine
unfolding validate_from
validate_from-drive first i c m [] at h =
    drive_nil (some m) ∙ ap ok (sym at) ∙ ap (λ x. ok x.machine) (ok-injective h)
validate_from-drive first i c m (entry ∷ entries) at h =
    let (d, next, rest) = validate_from-cons first i c entry entries h in
    let (passed, dispatched) = validate_next-ok first (i + 1) c entry next in
    drive-add_move entry.kind m first.operation_id first.plan_id (i + 1) c.previous_time
      (at_entry c entry) entry (recorded_moves entries) at dispatched
    ∙ validate_from-drive first (i + 1) d (machine_after entry.kind m entry) entries
        (validate_next-Effect first (i + 1) m c entry at next).machine rest

-- The first entry of an accepted history is the transition to DISCOVER, and the transitions that the
-- other entries record are a run of the machine that `NewMachine` builds from its binding: every one
-- is accepted by the machine, and the run ends in the machine that the scan holds.
pub scan_journal-drive :
    (first : JournalEntry) (entries : List JournalEntry) {c : Cursor}
    → scan_journal (first ∷ entries) ≡ ok c
    → (first.kind ≡ JournalEntryKind.transition)
      × (first.operation_state ≡ OperationState.discover)
      × ((m : Machine) × (new_machine first.operation_id first.plan_id ≡ ok m)
          × (drive (some m) (recorded_moves entries) ≡ ok c.machine))
unfolding scan_journal
scan_journal-drive first entries h =
    let (d, next, rest) = validate_from-cons first 0 start first entries h in
    let (passed, dispatched) = validate_next-ok first (0 + 1) start first next in
    let begins =
      dispatch-Begins first.kind first.operation_id first.plan_id (0 + 1) zero_time
        (at_entry start first) first refl dispatched in
    (
      begins.is_transition,
      begins.is_discover,
      (
        begins.machine,
        begins.built,
        validate_from-drive first (0 + 1) d begins.machine entries
            (ap (λ x. x.machine) begins.result) rest,
      ),
    )

-- An operation whose accepted history ends in PROTECT, EXECUTE or behind them has recorded LOCK; one
-- that ends in a completion has recorded VERIFY, and DOCUMENT if its verification passed; one that
-- ends a rollback has recorded ROLLBACK.
pub scan_journal_gates :
    (first : JournalEntry) (entries : List JournalEntry) {c : Cursor} {m : Machine}
    → scan_journal (first ∷ entries) ≡ ok c
    → c.machine ≡ some m
    → (needs_lock m.state ≡ true
        → has OperationState.lock (targets (recorded_moves entries)) ≡ true)
      × (needs_verify m.state ≡ true
          → has OperationState.verify (targets (recorded_moves entries)) ≡ true)
      × (needs_document m.state ≡ true
          → has OperationState.document (targets (recorded_moves entries)) ≡ true)
      × (needs_rollback m.state ≡ true
          → has OperationState.rollback (targets (recorded_moves entries)) ≡ true)
scan_journal_gates first entries h at =
    let (t, d, (m₀, built, run)) = scan_journal-drive first entries h in
    new_machine-drive_gates first.operation_id first.plan_id (recorded_moves entries) built
      (run ∙ ap ok at)
