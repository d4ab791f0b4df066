-- ===== src/Prelude/Outcome.antt =====
-- A Go function's `(value, error)`: the value, or the error with the value left zero.
use mathlib.Core.Path.{◌≡◌, refl}
use ctrldb.Prelude.Lists.{All}
use mathlib.Core.List.{List, [], ◌∷◌}
use mathlib.Core.Logic.{◌⊎◌, inl, inr}
use mathlib.Core.Bool.{Bool, true, false}

pub data Result {ℓ κ} (E : Type ℓ) (A : Type κ) : Type (ℓ ⊔ κ) where
  ok : A → Result E A
  err : E → Result E A

module _ {ℓ} {E : Type ℓ} where
  infixl 5 ◌>>=◌ ◌>>◌
  -- The rest of the function, or the early return.
  abbrev pub ◌>>=◌ {κ ι} : {A : Type κ} {B : Type ι} → Result E A → (A → Result E B) → Result E B
  err early >>= rest = err early
  ok value >>= rest = rest value

  abbrev pub ◌>>◌ {κ} : {B : Type κ} → Result E (Unit {0}) → Result E B → Result E B
  first >> rest = first >>= λ _. rest

  -- `if b { return e }`
  unfoldable pub reject_if : Bool → E → Result E (Unit {0})
  reject_if true e = err e
  reject_if false e = ok tt

  -- A sequence of checks, of which the first error is returned.
  unfoldable pub checks : List (Result E (Unit {0})) → Result E (Unit {0})
  checks [] = ok tt
  checks (m ∷ ms) = m >> checks ms

  -- `if b { if err := m; err != nil { return err } }`
  abbrev pub when : Bool → Result E (Unit {0}) → Result E (Unit {0})
  when true m = m
  when false m = ok tt

  -- Errors of a callee replaced by the caller's own.
  abbrev pub map_err {κ ι} : {F : Type ι} {A : Type κ} → (E → F) → Result E A → Result F A
  map_err f (ok a) = ok a
  map_err f (err e) = err (f e)

  -- A guard that let the run pass was false.
  pub reject_if-passed : (b : Bool) (e : E) → reject_if b e ≡ ok tt → b ≡ false
  unfolding reject_if
  reject_if-passed true e h = cc
  reject_if-passed false e h = refl

  -- Checks pass exactly when each of them does.
  pub checks-passed :
      (ms : List (Result E (Unit {0}))) → checks ms ≡ ok tt → All (λ m. m ≡ ok tt) ms
  unfolding checks
  checks-passed [] h = tt
  checks-passed (ok tt ∷ ms) h = (refl, checks-passed ms h)
  checks-passed (err e ∷ ms) h = cc

  -- A chain that succeeded has a first step that succeeded.
  pub >>=-ok {κ ι} :
      {A : Type κ} {B : Type ι} (m : Result E A) (f : A → Result E B) {b : B}
      → (m >>= f) ≡ ok b
      → (a : A) × (m ≡ ok a) × (f a ≡ ok b)
  >>=-ok (ok a) f h = (a, refl, h)
  >>=-ok (err e) f h = cc

  pub Result-cases {κ} :
      {A : Type κ} (r : Result E A) → ((a : A) × (r ≡ ok a)) ⊎ ((e : E) × (r ≡ err e))
  Result-cases (ok a) = inl (a, refl)
  Result-cases (err e) = inr (e, refl)

  pub ok-injective {κ} : {A : Type κ} {a b : A} → ◌≡◌ {A = Result E A} (ok a) (ok b) → a ≡ b
  ok-injective h = cc

  pub map_err-ok {κ ι} :
      {F : Type ι} {A : Type κ} (f : E → F) (r : Result E A) {a : A} → map_err f r ≡ ok a → r ≡ ok a
  map_err-ok f (ok b) h = cc
  map_err-ok f (err e) h = cc
