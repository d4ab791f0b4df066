-- ===== src/Domain/Enum.antt =====
-- The closed string types of internal/domain. A value is one of the named constants, or `other`
-- with the text of any other string; conversion, parsing and the text codec are alike for all.
use ctrldb.Prelude.{
  str_eq, ◌&&◌, String, Bool, true, Option, none, some, List, [], ◌∷◌, lookup, eq_iff, Result, ok,
  err, reject_if, ◌>>◌, not, ◌≡◌, arith, inl, inr, Option-cases,
}

-- Every constant has the text that it is listed with.
abbrev pub texts_fit : {A : Type 0} → (A → String) → List (String × A) → Bool
texts_fit text [] = true
texts_fit text ((k, a) ∷ table) = str_eq (text a) k && texts_fit text table

-- The constants with their texts, and how the other strings are held.
pub record Enum (A : Type 0) : Type 0 where
  pub names : List (String × A)
  pub other : String → A
  pub text : A → String
  pub valid : A → Bool
  pub text-names : texts_fit text names ≡ true
  pub text-other : (s : String) → text (other s) ≡ s

-- A rejected value: `%w: %q` of the type's error and the offending text.
pub data InvalidValue : Type 0 where
  invalid_value : String → InvalidValue
  nil_destination : InvalidValue

module _ {A : Type 0} where
  or_else : Enum A → String → Option A → A
  or_else e v none = e.other v
  or_else e v (some a) = a

  -- The conversion `T(value)`.
  unfoldable pub of_text : Enum A → String → A
  unfolding or_else
  of_text e v = or_else e v (lookup v e.names)

  -- `ParseT`, and the check that `UnmarshalText` makes.
  unfoldable pub parse : Enum A → String → Result InvalidValue A
  unfolding of_text reject_if
  parse e v = do let a = of_text e v; reject_if (not (e.valid a)) (invalid_value v); ok a

  -- `MarshalText`
  unfoldable pub marshal_text : Enum A → A → Result InvalidValue String
  unfolding reject_if
  marshal_text e a = do reject_if (not (e.valid a)) (invalid_value (e.text a)); ok (e.text a)

  -- `UnmarshalText` through a pointer that may be nil: the value that `*destination` holds after
  -- the call, with its error. On an error the destination keeps its value.
  unfoldable pub unmarshal_text :
      Enum A → Option A → String → Result InvalidValue (Unit {0}) × Option A
  unfolding parse
  unmarshal_text e none v = (err nil_destination, none)
  unmarshal_text e (some old) v = elim (parse e v) [
    | ok a ↦ (ok tt, some a)
    | err x ↦ (err x, some old)
  ]

  found :
      (e : Enum A) (v : String) (a : A) (table : List (String × A))
      → texts_fit e.text table ≡ true
      → lookup v table ≡ some a
      → e.text a ≡ v
  found e v a [] h l = cc
  found e v a ((k, b) ∷ table) h l =
      ground (arith, eq_iff k v, eq_iff (e.text b) k, found e v a table)

  -- A conversion keeps the text.
  pub text-of_text : (e : Enum A) (v : String) → e.text (of_text e v) ≡ v
  unfolding of_text
  text-of_text e v = elim (Option-cases (lookup v e.names)) [
    | inl missing ↦ rw (missing, or_else) (e.text-other v)
    | inr (a, hit) ↦ rw (hit, or_else) (found e v a e.names e.text-names hit)
  ]

  -- What parses is canonical and carries the very text that was parsed.
  pub parse_ok :
      (e : Enum A) (v : String) {a : A} → parse e v ≡ ok a → (e.valid a ≡ true) × (e.text a ≡ v)
  unfolding parse
  parse_ok e v h = ground (arith, text-of_text e v)
