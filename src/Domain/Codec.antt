-- ===== src/Domain/Codec.antt =====
-- The text codecs of the closed string types of internal/domain are inverse to one another.
use ctrldb.Prelude.{
  String, ◌≡◌, Result, true, ok, ◌↔◌, >>=-ok, reject_if, refl, not, not-false, reject_if-passed,
  subst, ok-injective,
}
use ctrldb.Domain.Enum.{Enum, parse, marshal_text, InvalidValue, parse_ok, invalid_value}
use ctrldb.Domain.Operation.{
  parse_operation_state, marshal_operation_state, state_enum, OperationState,
}
use ctrldb.Domain.Identity.{
  execution_identity_enum, parse_execution_identity, marshal_execution_identity, ExecutionIdentity,
}
use ctrldb.Domain.Environment.{
  environment_class_enum, EnvironmentClass, parse_environment_class, marshal_environment_class,
}
use ctrldb.Domain.Exposure.{
  exposure_delta_enum, ExposureDelta, parse_exposure_delta, marshal_exposure_delta,
}

-- A canonical value is parsed from its own text.
abbrev IsParsed : {A : Type 0} → Enum A → Type 0
IsParsed {A} e = (a : A) → e.valid a ≡ true → parse e (e.text a) ≡ ok a

-- Parsing a text gives a value exactly when marshalling that value gives the text.
abbrev IsCodec :
    {A : Type 0} → (String → Result InvalidValue A) → (A → Result InvalidValue String) → Type 0
IsCodec {A} parses marshals = (v : String) (a : A) → (parses v ≡ ok a) ↔ (marshals a ≡ ok v)

module _ {A : Type 0} (e : Enum A) (own : IsParsed e) where
  parse→marshal : (v : String) (a : A) → parse e v ≡ ok a → marshal_text e a ≡ ok v
  unfolding marshal_text
  parse→marshal v a h = let (valid, text) = parse_ok e v h in rw (valid, text)

  marshal→parse : (v : String) (a : A) → marshal_text e a ≡ ok v → parse e v ≡ ok a
  unfolding marshal_text
  marshal→parse v a h =
      let (u, passed, rest) = >>=-ok (reject_if (not (e.valid a)) (invalid_value (e.text a))) _ h in
      let canonical = not-false _ (reject_if-passed _ _ passed) in
      subst (λ t. parse e t ≡ ok a) (ok-injective rest) (own a canonical)

  IsParsed-IsCodec : IsCodec (parse e) (marshal_text e)
  IsParsed-IsCodec v a = (parse→marshal v a, marshal→parse v a)

state-IsParsed : IsParsed state_enum
unfolding parse
state-IsParsed (OperationState.other s) v = cc
state-IsParsed OperationState.discover v = refl
state-IsParsed _ v = refl

identity-IsParsed : IsParsed execution_identity_enum
unfolding parse
identity-IsParsed (ExecutionIdentity.other s) v = cc
identity-IsParsed _ v = refl

environment-IsParsed : IsParsed environment_class_enum
unfolding parse
environment-IsParsed (EnvironmentClass.other s) v = cc
environment-IsParsed _ v = refl

exposure-IsParsed : IsParsed exposure_delta_enum
unfolding parse
exposure-IsParsed (ExposureDelta.other s) v = cc
exposure-IsParsed _ v = refl

-- For operation states, execution identities, environment classes and exposure deltas alike: parsing
-- a text succeeds with a value exactly when marshalling that value succeeds with the text. So only
-- the canonical texts parse, each to one value, and what is written is read back.
pub parse_marshal_codecs :
    IsCodec parse_operation_state marshal_operation_state
    × IsCodec parse_execution_identity marshal_execution_identity
    × IsCodec parse_environment_class marshal_environment_class
    × IsCodec parse_exposure_delta marshal_exposure_delta
unfolding parse_operation_state marshal_operation_state parse_execution_identity
    marshal_execution_identity parse_environment_class marshal_environment_class
    parse_exposure_delta marshal_exposure_delta
parse_marshal_codecs = (
  IsParsed-IsCodec state_enum state-IsParsed,
  IsParsed-IsCodec execution_identity_enum identity-IsParsed,
  IsParsed-IsCodec environment_class_enum environment-IsParsed,
  IsParsed-IsCodec exposure_delta_enum exposure-IsParsed,
)
