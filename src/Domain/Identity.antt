-- ===== src/Domain/Identity.antt =====
-- internal/domain/identity.go: the identities that execute steps.
use ctrldb.Prelude.{
  String, Bool, true, false, Option, List, [], ◌∷◌, str_eq→eq, eq_refl, ap, str_eq, Result, ◌≡◌,
  refl,
}
use ctrldb.Domain.Enum.{Enum, InvalidValue, parse, marshal_text, unmarshal_text}

-- A named execution identity.
pub data ExecutionIdentity : Type 0 where
  human operator provisioner destructive vm reconciler transfer restore recovery test_operator
        test_destructive host :
      ExecutionIdentity
  other : String → ExecutionIdentity

abbrev pub execution_identity_text : ExecutionIdentity → String
execution_identity_text human = "human"
execution_identity_text operator = "operator"
execution_identity_text provisioner = "provisioner"
execution_identity_text destructive = "destructive"
execution_identity_text vm = "vm"
execution_identity_text reconciler = "reconciler"
execution_identity_text transfer = "transfer"
execution_identity_text restore = "restore"
execution_identity_text recovery = "recovery"
execution_identity_text test_operator = "test-operator"
execution_identity_text test_destructive = "test-destructive"
execution_identity_text host = "host"
execution_identity_text (other s) = s

-- `Valid`
abbrev pub execution_identity_valid : ExecutionIdentity → Bool
execution_identity_valid (other s) = false
execution_identity_valid _ = true

-- `==` of two values.
abbrev pub execution_identity_eq : ExecutionIdentity → ExecutionIdentity → Bool
execution_identity_eq human human = true
execution_identity_eq operator operator = true
execution_identity_eq provisioner provisioner = true
execution_identity_eq destructive destructive = true
execution_identity_eq vm vm = true
execution_identity_eq reconciler reconciler = true
execution_identity_eq transfer transfer = true
execution_identity_eq restore restore = true
execution_identity_eq recovery recovery = true
execution_identity_eq test_operator test_operator = true
execution_identity_eq test_destructive test_destructive = true
execution_identity_eq host host = true
execution_identity_eq (other s) (other t) = str_eq s t
execution_identity_eq _ _ = false

abbrev execution_identity_names : List (String × ExecutionIdentity)
execution_identity_names =
    ("human", human)
    ∷ ("operator", operator)
    ∷ ("provisioner", provisioner)
    ∷ ("destructive", destructive)
    ∷ ("vm", vm)
    ∷ ("reconciler", reconciler)
    ∷ ("transfer", transfer)
    ∷ ("restore", restore)
    ∷ ("recovery", recovery)
    ∷ ("test-operator", test_operator)
    ∷ ("test-destructive", test_destructive)
    ∷ ("host", host)
    ∷ []

abbrev pub execution_identity_enum : Enum ExecutionIdentity
execution_identity_enum = record {
  names = execution_identity_names;
  other = other;
  text = execution_identity_text;
  valid = execution_identity_valid;
  text-names = refl;
  text-other = λ s. refl;
}

unfoldable pub parse_execution_identity : String → Result InvalidValue ExecutionIdentity
unfolding parse
parse_execution_identity v = parse execution_identity_enum v

unfoldable pub marshal_execution_identity : ExecutionIdentity → Result InvalidValue String
unfolding marshal_text
marshal_execution_identity a = marshal_text execution_identity_enum a

unfoldable pub unmarshal_execution_identity :
    Option ExecutionIdentity → String → Result InvalidValue (Unit {0}) × Option ExecutionIdentity
unfolding unmarshal_text
unmarshal_execution_identity d v = unmarshal_text execution_identity_enum d v

pub execution_identity_eq→eq : (s t : ExecutionIdentity) → execution_identity_eq s t ≡ true → s ≡ t
execution_identity_eq→eq human human h = refl
execution_identity_eq→eq operator operator h = refl
execution_identity_eq→eq provisioner provisioner h = refl
execution_identity_eq→eq destructive destructive h = refl
execution_identity_eq→eq vm vm h = refl
execution_identity_eq→eq reconciler reconciler h = refl
execution_identity_eq→eq transfer transfer h = refl
execution_identity_eq→eq restore restore h = refl
execution_identity_eq→eq recovery recovery h = refl
execution_identity_eq→eq test_operator test_operator h = refl
execution_identity_eq→eq test_destructive test_destructive h = refl
execution_identity_eq→eq host host h = refl
execution_identity_eq→eq (other s) (other t) h = ap other (str_eq→eq s t h)
execution_identity_eq→eq _ _ h = cc

pub execution_identity_eq_refl : (s : ExecutionIdentity) → execution_identity_eq s s ≡ true
execution_identity_eq_refl (other s) = eq_refl s
execution_identity_eq_refl _ = refl
