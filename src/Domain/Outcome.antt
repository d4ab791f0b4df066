-- ===== src/Domain/Outcome.antt =====
-- internal/domain/journal.go: the outcome of one attempt at a step.
use ctrldb.Prelude.{String, Bool, true, false, Option, List, [], ◌∷◌, str_eq, Result, refl}
use ctrldb.Domain.Enum.{Enum, InvalidValue, marshal_text, unmarshal_text}

-- The observed result of one attempt.
pub data StepOutcome : Type 0 where
  done failed unknown : StepOutcome
  other : String → StepOutcome

abbrev pub step_outcome_text : StepOutcome → String
step_outcome_text done = "DONE"
step_outcome_text failed = "FAILED"
step_outcome_text unknown = "UNKNOWN"
step_outcome_text (other s) = s

-- `Valid`
abbrev pub step_outcome_valid : StepOutcome → Bool
step_outcome_valid (other s) = false
step_outcome_valid _ = true

-- `==` of two values.
abbrev pub step_outcome_eq : StepOutcome → StepOutcome → Bool
step_outcome_eq done done = true
step_outcome_eq failed failed = true
step_outcome_eq unknown unknown = true
step_outcome_eq (other s) (other t) = str_eq s t
step_outcome_eq _ _ = false

abbrev step_outcome_names : List (String × StepOutcome)
step_outcome_names = ("DONE", done) ∷ ("FAILED", failed) ∷ ("UNKNOWN", unknown) ∷ []

abbrev pub step_outcome_enum : Enum StepOutcome
step_outcome_enum = record {
  names = step_outcome_names;
  other = other;
  text = step_outcome_text;
  valid = step_outcome_valid;
  text-names = refl;
  text-other = λ s. refl;
}

unfoldable pub marshal_step_outcome : StepOutcome → Result InvalidValue String
unfolding marshal_text
marshal_step_outcome a = marshal_text step_outcome_enum a

unfoldable pub unmarshal_step_outcome :
    Option StepOutcome → String → Result InvalidValue (Unit {0}) × Option StepOutcome
unfolding unmarshal_text
unmarshal_step_outcome d v = unmarshal_text step_outcome_enum d v
