-- ===== src/Domain/Exposure.antt =====
-- internal/domain/exposure.go: what a plan adds to the reachable surface.
use ctrldb.Prelude.{
  String, Bool, true, false, Option, List, [], ◌∷◌, str_eq→eq, eq_refl, ap, str_eq, Result, ◌≡◌,
  refl,
}
use ctrldb.Domain.Enum.{Enum, InvalidValue, parse, marshal_text, unmarshal_text}

-- The access that a plan adds.
pub data ExposureDelta : Type 0 where
  no_exposure private tunnel external : ExposureDelta
  other : String → ExposureDelta

abbrev pub exposure_delta_text : ExposureDelta → String
exposure_delta_text no_exposure = "none"
exposure_delta_text private = "private"
exposure_delta_text tunnel = "tunnel"
exposure_delta_text external = "external"
exposure_delta_text (other s) = s

-- `Valid`
abbrev pub exposure_delta_valid : ExposureDelta → Bool
exposure_delta_valid (other s) = false
exposure_delta_valid _ = true

-- `==` of two values.
abbrev pub exposure_delta_eq : ExposureDelta → ExposureDelta → Bool
exposure_delta_eq no_exposure no_exposure = true
exposure_delta_eq private private = true
exposure_delta_eq tunnel tunnel = true
exposure_delta_eq external external = true
exposure_delta_eq (other s) (other t) = str_eq s t
exposure_delta_eq _ _ = false

abbrev exposure_delta_names : List (String × ExposureDelta)
exposure_delta_names =
    ("none", no_exposure) ∷ ("private", private) ∷ ("tunnel", tunnel) ∷ ("external", external) ∷ []

abbrev pub exposure_delta_enum : Enum ExposureDelta
exposure_delta_enum = record {
  names = exposure_delta_names;
  other = other;
  text = exposure_delta_text;
  valid = exposure_delta_valid;
  text-names = refl;
  text-other = λ s. refl;
}

unfoldable pub parse_exposure_delta : String → Result InvalidValue ExposureDelta
unfolding parse
parse_exposure_delta v = parse exposure_delta_enum v

unfoldable pub marshal_exposure_delta : ExposureDelta → Result InvalidValue String
unfolding marshal_text
marshal_exposure_delta a = marshal_text exposure_delta_enum a

unfoldable pub unmarshal_exposure_delta :
    Option ExposureDelta → String → Result InvalidValue (Unit {0}) × Option ExposureDelta
unfolding unmarshal_text
unmarshal_exposure_delta d v = unmarshal_text exposure_delta_enum d v

pub exposure_delta_eq→eq : (s t : ExposureDelta) → exposure_delta_eq s t ≡ true → s ≡ t
exposure_delta_eq→eq no_exposure no_exposure h = refl
exposure_delta_eq→eq private private h = refl
exposure_delta_eq→eq tunnel tunnel h = refl
exposure_delta_eq→eq external external h = refl
exposure_delta_eq→eq (other s) (other t) h = ap other (str_eq→eq s t h)
exposure_delta_eq→eq _ _ h = cc

pub exposure_delta_eq_refl : (s : ExposureDelta) → exposure_delta_eq s s ≡ true
exposure_delta_eq_refl (other s) = eq_refl s
exposure_delta_eq_refl _ = refl
