-- ===== src/Domain/Operation.antt =====
-- internal/domain/operation.go: the states of an operation and their text codec.
use ctrldb.Prelude.{
  String, Bool, true, false, Option, List, [], ◌∷◌, str_eq→eq, eq_refl, ap, str_eq, Result, ◌≡◌,
  refl,
}
use ctrldb.Domain.Enum.{Enum, InvalidValue, parse, marshal_text, unmarshal_text}

-- A durable state of the workflow lifecycle.
pub data OperationState : Type 0 where
  discover validate plan approved_waiting lock protect execute paused verify document rollback
        complete complete_with_failed_verification complete_with_documentation_error
        verified_rollback cancelled failed failed_cleanup :
      OperationState
  other : String → OperationState

abbrev pub state_text : OperationState → String
state_text discover = "DISCOVER"
state_text validate = "VALIDATE"
state_text plan = "PLAN"
state_text approved_waiting = "APPROVED_WAITING"
state_text lock = "LOCK"
state_text protect = "PROTECT"
state_text execute = "EXECUTE"
state_text paused = "PAUSED"
state_text verify = "VERIFY"
state_text document = "DOCUMENT"
state_text rollback = "ROLLBACK"
state_text complete = "COMPLETE"
state_text complete_with_failed_verification = "COMPLETE_WITH_FAILED_VERIFICATION"
state_text complete_with_documentation_error = "COMPLETE_WITH_DOCUMENTATION_ERROR"
state_text verified_rollback = "VERIFIED_ROLLBACK"
state_text cancelled = "CANCELLED"
state_text failed = "FAILED"
state_text failed_cleanup = "FAILED_CLEANUP"
state_text (other s) = s

-- `Valid`
abbrev pub state_valid : OperationState → Bool
state_valid (other s) = false
state_valid _ = true

-- `==` of two values.
abbrev pub state_eq : OperationState → OperationState → Bool
state_eq discover discover = true
state_eq validate validate = true
state_eq plan plan = true
state_eq approved_waiting approved_waiting = true
state_eq lock lock = true
state_eq protect protect = true
state_eq execute execute = true
state_eq paused paused = true
state_eq verify verify = true
state_eq document document = true
state_eq rollback rollback = true
state_eq complete complete = true
state_eq complete_with_failed_verification complete_with_failed_verification = true
state_eq complete_with_documentation_error complete_with_documentation_error = true
state_eq verified_rollback verified_rollback = true
state_eq cancelled cancelled = true
state_eq failed failed = true
state_eq failed_cleanup failed_cleanup = true
state_eq (other s) (other t) = str_eq s t
state_eq _ _ = false

abbrev state_names : List (String × OperationState)
state_names =
    ("DISCOVER", discover)
    ∷ ("VALIDATE", validate)
    ∷ ("PLAN", plan)
    ∷ ("APPROVED_WAITING", approved_waiting)
    ∷ ("LOCK", lock)
    ∷ ("PROTECT", protect)
    ∷ ("EXECUTE", execute)
    ∷ ("PAUSED", paused)
    ∷ ("VERIFY", verify)
    ∷ ("DOCUMENT", document)
    ∷ ("ROLLBACK", rollback)
    ∷ ("COMPLETE", complete)
    ∷ ("COMPLETE_WITH_FAILED_VERIFICATION", complete_with_failed_verification)
    ∷ ("COMPLETE_WITH_DOCUMENTATION_ERROR", complete_with_documentation_error)
    ∷ ("VERIFIED_ROLLBACK", verified_rollback)
    ∷ ("CANCELLED", cancelled)
    ∷ ("FAILED", failed)
    ∷ ("FAILED_CLEANUP", failed_cleanup)
    ∷ []

abbrev pub state_enum : Enum OperationState
state_enum = record {
  names = state_names;
  other = other;
  text = state_text;
  valid = state_valid;
  text-names = refl;
  text-other = λ s. refl;
}

unfoldable pub parse_operation_state : String → Result InvalidValue OperationState
unfolding parse
parse_operation_state v = parse state_enum v

unfoldable pub marshal_operation_state : OperationState → Result InvalidValue String
unfolding marshal_text
marshal_operation_state a = marshal_text state_enum a

unfoldable pub unmarshal_operation_state :
    Option OperationState → String → Result InvalidValue (Unit {0}) × Option OperationState
unfolding unmarshal_text
unmarshal_operation_state d v = unmarshal_text state_enum d v

-- `Terminal`: no transition leaves the state.
abbrev pub state_terminal : OperationState → Bool
state_terminal complete = true
state_terminal complete_with_failed_verification = true
state_terminal complete_with_documentation_error = true
state_terminal verified_rollback = true
state_terminal cancelled = true
state_terminal failed = true
state_terminal failed_cleanup = true
state_terminal _ = false

pub state_eq→eq : (s t : OperationState) → state_eq s t ≡ true → s ≡ t
state_eq→eq discover discover h = refl
state_eq→eq validate validate h = refl
state_eq→eq plan plan h = refl
state_eq→eq approved_waiting approved_waiting h = refl
state_eq→eq lock lock h = refl
state_eq→eq protect protect h = refl
state_eq→eq execute execute h = refl
state_eq→eq paused paused h = refl
state_eq→eq verify verify h = refl
state_eq→eq document document h = refl
state_eq→eq rollback rollback h = refl
state_eq→eq complete complete h = refl
state_eq→eq complete_with_failed_verification complete_with_failed_verification h = refl
state_eq→eq complete_with_documentation_error complete_with_documentation_error h = refl
state_eq→eq verified_rollback verified_rollback h = refl
state_eq→eq cancelled cancelled h = refl
state_eq→eq failed failed h = refl
state_eq→eq failed_cleanup failed_cleanup h = refl
state_eq→eq (other s) (other t) h = ap other (str_eq→eq s t h)
state_eq→eq _ _ h = cc

pub state_eq_refl : (s : OperationState) → state_eq s s ≡ true
state_eq_refl (other s) = eq_refl s
state_eq_refl _ = refl
