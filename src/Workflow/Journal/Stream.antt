-- ===== src/Workflow/Journal/Stream.antt =====
-- `ValidateJournal` in internal/workflow/journal.go: the scan of a whole operation history.
pub mod Invariant
pub mod Transitions
pub mod Steps
pub mod Effects
pub mod Refinement
pub mod Evidence
pub mod Order
pub mod Attempts
pub mod Numbered
pub mod Retries
use ctrldb.Prelude.{
  ℕ, Option, none, String, List, some, Result, [], err, ok, ◌>>=◌, ◌∷◌, ◌>>◌, reject_if, map_err,
  ◌+◌, not, ◌&&◌, ◌||◌, ◌==◌, str_eq, ◌%◌, ◌^◌, checks,
}
use ctrldb.Domain.Time.{Time, before, is_zero}
use ctrldb.Domain.Operation.{state_terminal}
use ctrldb.Domain.Journal.{transition, JournalEntryKind, JournalEntry}
use ctrldb.Workflow.Journal.Entry.{
  Check, JournalError, stream_error, nil_dereference, in_entry, validate_journal_entry,
}
use ctrldb.Workflow.Journal.Cursor.{Cursor, holds, start}
use ctrldb.Workflow.Journal.Handlers.{on_request, on_transition, on_step}

-- What a non-nil pointer of the entry is handed to.
abbrev pub dereferenced {ℓ} :
    {A : Type ℓ} → Option A → (A → Result JournalError Cursor) → Result JournalError Cursor
dereferenced none f = err nil_dereference
dereferenced (some a) f = f a

-- The entry by its kind, where a kind other than the first two is taken for a step.
unfoldable pub dispatch :
    JournalEntryKind
    → String
    → String
    → ℕ
    → Time
    → Cursor
    → JournalEntry
    → Result JournalError Cursor
unfolding on_request on_transition on_step
dispatch JournalEntryKind.cancellation_request operation_id plan_id n prior c entry =
    dereferenced entry.cancellation (on_request c.machine n prior c entry)
dispatch JournalEntryKind.transition operation_id plan_id n prior c entry =
    on_transition c.machine operation_id plan_id n c entry
dispatch _ operation_id plan_id n prior c entry =
    dereferenced entry.step (on_step c.machine n prior c entry)

-- The checks of the loop that do not depend on the kind of the entry, for the entry with number `n`
-- of the operation that `first` began.
unfoldable pub entry_guard : JournalEntry → ℕ → Cursor → JournalEntry → Check
entry_guard first n c entry = checks (
    map_err (in_entry n) (validate_journal_entry entry)
    ∷ reject_if (not (entry.sequence == n % 2 ^ 64))
        (stream_error n "sequence must be contiguous and start at 1")
    ∷ reject_if
        (not (str_eq entry.operation_id first.operation_id)
          || (not (str_eq entry.plan_id first.plan_id)
              || not (str_eq entry.contract_hash first.contract_hash)))
        (stream_error n "operationId, planId, and contractHash must remain constant")
    ∷ reject_if (not (is_zero c.previous_time) && before entry.recorded_at c.previous_time)
        (stream_error n "recordedAt must not move backwards")
    ∷ reject_if (holds (λ machine. state_terminal machine.state) c.machine)
        (stream_error n "entry follows a terminal transition")
    ∷ [])

-- `previousTime = entry.RecordedAt`
abbrev pub at_entry : Cursor → JournalEntry → Cursor
at_entry c entry = record c { previous_time = entry.recorded_at }

-- The body of the loop.
unfoldable pub validate_next : JournalEntry → ℕ → Cursor → JournalEntry → Result JournalError Cursor
unfolding entry_guard dispatch
validate_next first n c entry = do
  entry_guard first n c entry
  dispatch entry.kind first.operation_id first.plan_id n c.previous_time (at_entry c entry) entry

-- The loop, from the entry with index `i` on.
unfoldable pub validate_from :
    JournalEntry → ℕ → Cursor → List JournalEntry → Result JournalError Cursor
validate_from first i c [] = ok c
validate_from first i c (entry ∷ entries) =
    validate_next first (i + 1) c entry >>= λ c'. validate_from first (i + 1) c' entries

-- The scan with its final variables.
unfoldable pub scan_journal : List JournalEntry → Result JournalError Cursor
unfolding validate_from
scan_journal [] = err (stream_error 0 "must contain the initial DISCOVER transition")
scan_journal (first ∷ entries) = validate_from first 0 start (first ∷ entries)

-- `ValidateJournal`
unfoldable pub validate_journal : List JournalEntry → Check
unfolding scan_journal
validate_journal entries = do _ ← scan_journal entries; ok tt
