-- ===== src/Domain/Journal.antt =====
-- internal/domain/journal.go: the entries of an operation journal.
use ctrldb.Prelude.{String, Bool, true, false, Option, List, [], ◌∷◌, Result, ℕ, refl}
use ctrldb.Domain.Time.{Time}
use ctrldb.Domain.Operation.{OperationState}
use ctrldb.Domain.Identity.{ExecutionIdentity}
use ctrldb.Domain.Retry.{MutationObservation}
use ctrldb.Domain.Outcome.{StepOutcome}
use ctrldb.Domain.Enum.{Enum, InvalidValue, marshal_text, unmarshal_text}

-- The kind of a journal entry.
pub data JournalEntryKind : Type 0 where
  transition step cancellation_request : JournalEntryKind
  other : String → JournalEntryKind

abbrev pub journal_entry_kind_text : JournalEntryKind → String
journal_entry_kind_text transition = "transition"
journal_entry_kind_text step = "step"
journal_entry_kind_text cancellation_request = "cancellation-request"
journal_entry_kind_text (other s) = s

-- `Valid`
abbrev pub journal_entry_kind_valid : JournalEntryKind → Bool
journal_entry_kind_valid (other s) = false
journal_entry_kind_valid _ = true

abbrev journal_entry_kind_names : List (String × JournalEntryKind)
journal_entry_kind_names =
    ("transition", transition)
    ∷ ("step", step)
    ∷ ("cancellation-request", cancellation_request)
    ∷ []

abbrev pub journal_entry_kind_enum : Enum JournalEntryKind
journal_entry_kind_enum = record {
  names = journal_entry_kind_names;
  other = other;
  text = journal_entry_kind_text;
  valid = journal_entry_kind_valid;
  text-names = refl;
  text-other = λ s. refl;
}

unfoldable pub marshal_journal_entry_kind : JournalEntryKind → Result InvalidValue String
unfolding marshal_text
marshal_journal_entry_kind a = marshal_text journal_entry_kind_enum a

unfoldable pub unmarshal_journal_entry_kind :
    Option JournalEntryKind → String → Result InvalidValue (Unit {0}) × Option JournalEntryKind
unfolding unmarshal_text
unmarshal_journal_entry_kind d v = unmarshal_text journal_entry_kind_enum d v

-- The type of sanitized text; only its string is read here.
pub record Text : Type 0 where
  pub value : String

-- An attempt at a step, without its raw output. `attempt` is a uint32.
pub record JournalStep : Type 0 where
  pub id : String
  pub outcome : StepOutcome
  pub executing_identity : ExecutionIdentity
  pub attempt : ℕ
  pub started_at : Time
  pub ended_at : Option Time
  pub mutation_occurred : Bool
  pub result_summary : Text

pub record JournalPause : Type 0 where
  pub paused_at : Time
  pub pause_reason : Text
  pub mutation_occurred : Bool
  pub resume_by : Time
  pub reapproval_required : Bool

pub record JournalCancellationRequest : Type 0 where
  pub requested_at : Time
  pub current_step_id : String
  pub execution_contract_hash : String
  pub mutation_observation : MutationObservation
  pub required_route : OperationState

-- One boundary record of an operation. `sequence` is a uint64.
pub record JournalEntry : Type 0 where
  pub schema : String
  pub operation_id : String
  pub plan_id : String
  pub contract_hash : String
  pub sequence : ℕ
  pub kind : JournalEntryKind
  pub recorded_at : Time
  pub operation_state : OperationState
  pub step : Option JournalStep
  pub pause : Option JournalPause
  pub cancellation : Option JournalCancellationRequest

abbrev pub journal_schema_v1 : String
journal_schema_v1 = "JournalEntryV1"
