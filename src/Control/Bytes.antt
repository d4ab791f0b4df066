-- ===== src/Control/Bytes.antt =====
-- Byte sequences: contents, and the object and file names of internal/control. A name is the list
-- of its characters' codes.
use ctrldb.Prelude.{
  ℕ, Bool, true, false, List, [], ◌∷◌, ◌==◌, ◌&&◌, ◌≡◌, refl, Option, some, none, ==→eq, arith,
  if◌then◌else◌, and_true, ◌↔◌, subst,
}

-- `bytes.Equal`, and `==` on strings.
abbrev pub same_bytes : List ℕ → List ℕ → Bool
same_bytes [] [] = true
same_bytes [] (y ∷ ys) = false
same_bytes (x ∷ xs) [] = false
same_bytes (x ∷ xs) (y ∷ ys) = x == y && same_bytes xs ys

pub same_bytes_refl : (xs : List ℕ) → same_bytes xs xs ≡ true
same_bytes_refl [] = refl
same_bytes_refl (x ∷ xs) = ground (arith, same_bytes_refl xs)

pub same_bytes→eq : (xs ys : List ℕ) → same_bytes xs ys ≡ true → xs ≡ ys
same_bytes→eq [] [] h = refl
same_bytes→eq [] (y ∷ ys) h = cc
same_bytes→eq (x ∷ xs) [] h = cc
same_bytes→eq (x ∷ xs) (y ∷ ys) h =
    let (head, tail) = and_true (x == y) (same_bytes xs ys) h in
    let first = ==→eq x y head in let rest = same_bytes→eq xs ys tail in cc

pub same_bytes_iff : (xs ys : List ℕ) → (same_bytes xs ys ≡ true) ↔ (xs ≡ ys)
same_bytes_iff xs ys =
    (same_bytes→eq xs ys, λ e. subst (λ z. same_bytes xs z ≡ true) e (same_bytes_refl xs))

-- A map from names, as the list of its entries.
module _ {ℓ} {V : Type ℓ} where
  -- `value, exists := objects[name]`
  abbrev pub find : List ℕ → List (List ℕ × V) → Option V
  find name [] = none
  find name ((own, value) ∷ rest) = if same_bytes own name then some value else find name rest

  -- `objects[name] = value`
  abbrev pub write : List ℕ → V → List (List ℕ × V) → List (List ℕ × V)
  write name value [] = (name, value) ∷ []
  write name value ((own, old) ∷ rest) =
      if same_bytes own name then (own, value) ∷ rest else (own, old) ∷ write name value rest

  pub find-write :
      (name other : List ℕ) (value : V) (table : List (List ℕ × V))
      → find other (write name value table)
        ≡ (if same_bytes name other then some value else find other table)
  find-write name other value [] = refl
  find-write name other value ((own, old) ∷ rest) = ground (
    arith,
    same_bytes_iff own name,
    same_bytes_iff own other,
    same_bytes_iff name other,
    find-write name other value rest,
  )
