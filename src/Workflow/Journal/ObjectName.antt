-- ===== src/Workflow/Journal/ObjectName.antt =====
-- `JournalObjectName` of internal/workflow/journal.go. A name is the list of its characters' codes.
pub mod Sorted
use ctrldb.Prelude.{
  none, some, ℕ, List, [], if◌then◌else◌, ◌∷◌, suc, is_upper, Result, ◌/◌, ◌+◌, ◌++◌, ◌==◌, ◌>>◌,
  ◌%◌, ◌>>=◌, ok, zero, codes, err,
}
use ctrldb.Domain.Journal.{JournalEntryKind, JournalEntry}
use ctrldb.Workflow.Journal.Entry.{validate_journal_entry, JournalError, nil_dereference}
use ctrldb.Domain.Operation.{state_text}

-- `%0kd`: the last `k` decimal digits, which are all of a number below 10 ^ k.
unfoldable pub digits : ℕ → ℕ → List ℕ
digits zero n = []
digits (suc k) n = digits k (n / 10) ++ (b'0' + n % 10) ∷ []

-- `strings.ToLower` and `strings.ReplaceAll(…, "_", "-")` on a character of a state's text.
abbrev pub name_char : ℕ → ℕ
name_char c = if is_upper c then c + 32 else if c == b'_' then b'-' else c

abbrev pub name_chars : List ℕ → List ℕ
name_chars [] = []
name_chars (c ∷ cs) = name_char c ∷ name_chars cs

-- `entryID`, by the kind of the entry.
abbrev pub entry_id : JournalEntryKind → JournalEntry → Result JournalError (List ℕ)
entry_id JournalEntryKind.step entry = elim entry.step [
  | none ↦ err nil_dereference
  | some step ↦ ok (codes step.id)
]
entry_id JournalEntryKind.cancellation_request entry = ok (codes "cancellation-request")
entry_id _ entry = ok (codes "state-" ++ name_chars (codes (state_text entry.operation_state)))

-- `JournalObjectName`: `%020d-%s.json`
unfoldable pub journal_object_name : JournalEntry → Result JournalError (List ℕ)
unfolding validate_journal_entry digits
journal_object_name entry = do
  validate_journal_entry entry
  id ← entry_id entry.kind entry
  ok (digits 20 entry.sequence ++ b'-' ∷ id ++ codes ".json")
