-- ===== src/Domain/Environment.antt =====
-- internal/domain/environment.go: the classes of environments.
use ctrldb.Prelude.{String, Bool, true, false, Option, List, [], ◌∷◌, Result, refl}
use ctrldb.Domain.Enum.{Enum, InvalidValue, parse, marshal_text, unmarshal_text}

-- The safety class of an environment.
pub data EnvironmentClass : Type 0 where
  production staging rehearsal disposable : EnvironmentClass
  other : String → EnvironmentClass

abbrev pub environment_class_text : EnvironmentClass → String
environment_class_text production = "production"
environment_class_text staging = "staging"
environment_class_text rehearsal = "rehearsal"
environment_class_text disposable = "disposable"
environment_class_text (other s) = s

-- `Valid`
abbrev pub environment_class_valid : EnvironmentClass → Bool
environment_class_valid (other s) = false
environment_class_valid _ = true

abbrev environment_class_names : List (String × EnvironmentClass)
environment_class_names =
    ("production", production)
    ∷ ("staging", staging)
    ∷ ("rehearsal", rehearsal)
    ∷ ("disposable", disposable)
    ∷ []

abbrev pub environment_class_enum : Enum EnvironmentClass
environment_class_enum = record {
  names = environment_class_names;
  other = other;
  text = environment_class_text;
  valid = environment_class_valid;
  text-names = refl;
  text-other = λ s. refl;
}

unfoldable pub parse_environment_class : String → Result InvalidValue EnvironmentClass
unfolding parse
parse_environment_class v = parse environment_class_enum v

unfoldable pub marshal_environment_class : EnvironmentClass → Result InvalidValue String
unfolding marshal_text
marshal_environment_class a = marshal_text environment_class_enum a

unfoldable pub unmarshal_environment_class :
    Option EnvironmentClass → String → Result InvalidValue (Unit {0}) × Option EnvironmentClass
unfolding unmarshal_text
unmarshal_environment_class d v = unmarshal_text environment_class_enum d v
