-- ===== src/Workflow/Journal/Cursor.antt =====
-- The variables of the loop of `ValidateJournal` in internal/workflow/journal.go.
use ctrldb.Prelude.{ℕ, Option, none, Bool, String, List, false, lookup, some, [], if◌then◌else◌}
use ctrldb.Domain.Time.{Time, zero_time}
use ctrldb.Domain.Operation.{OperationState}
use ctrldb.Domain.Journal.{JournalPause}
use ctrldb.Workflow.Machine.{Machine}

-- The variables of the scan. A state or step ID that is "" in the source is `none`, and `completed`
-- lists the keys of the source's set.
pub record Cursor : Type 0 where
  pub machine : Option Machine
  pub previous_time : Time
  pub attempts : List (String × ℕ)
  pub completed : List String
  pub mutated : Bool  -- mutationMayHaveOccurred
  pub paused : Option JournalPause
  pub pending : Option OperationState  -- pendingCancellation
  pub pending_step : Option String  -- pendingCurrentStepID
  pub pending_start : Time  -- pendingStepStartBoundary
  pub pending_requested : Time  -- pendingRequestedAt

abbrev pub start : Cursor
start = record {
  machine = none;
  previous_time = zero_time;
  attempts = [];
  completed = [];
  mutated = false;
  paused = none;
  pending = none;
  pending_step = none;
  pending_start = zero_time;
  pending_requested = zero_time;
}

-- Tests on a variable that may be "", and `m[key]` with its zero value.
abbrev pub holds {ℓ} : {A : Type ℓ} → (A → Bool) → Option A → Bool
holds p none = false
holds p (some a) = p a

abbrev pub count_at : String → List (String × ℕ) → ℕ
count_at k m = elim (lookup k m) [ none ↦ 0 | some n ↦ n ]

-- `pending != "" && mutated` sends a pending cancellation to ROLLBACK.
abbrev pub escalate : Bool → Option OperationState → Option OperationState
escalate mutated none = none
escalate mutated (some route) = some (if mutated then OperationState.rollback else route)
