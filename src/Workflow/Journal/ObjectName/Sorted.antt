-- ===== src/Workflow/Journal/ObjectName/Sorted.antt =====
-- The order of the object names of internal/workflow/journal.go.
use ctrldb.Prelude.{
  >>=-ok, ok-injective, subst, refl, arith, ltb, ◌||◌, ◌&&◌, List, ℕ, Bool, ◌≡◌, ◌<◌, ◌^◌, true,
  ◌*◌, suc, ok, ◌/◌, ◌+◌, ◌⊎◌, inl, zero, ◌++◌, ◌∷◌, [], inr, ◌%◌, false, codes, ◌==◌, sym,
}
use ctrldb.Workflow.Journal.ObjectName.{
  digits, journal_object_name, validate_journal_entry, entry_id,
}
use ctrldb.Domain.Journal.{JournalEntry}

-- The lexical order of names.
abbrev pub lexical : List ℕ → List ℕ → Bool
lexical [] [] = false
lexical [] (y ∷ ys) = true
lexical (x ∷ xs) [] = false
lexical (x ∷ xs) (y ∷ ys) = ltb x y || (x == y && lexical xs ys)

abbrev pub same_length : List ℕ → List ℕ → Bool
same_length [] [] = true
same_length (x ∷ xs) (y ∷ ys) = same_length xs ys
same_length _ _ = false

pub lexical-append :
    (xs ys us vs : List ℕ)
    → same_length xs ys ≡ true
    → lexical xs ys ≡ true
    → lexical (xs ++ us) (ys ++ vs) ≡ true
lexical-append [] [] us vs s h = cc
lexical-append [] (y ∷ ys) us vs s h = cc
lexical-append (x ∷ xs) [] us vs s h = cc
lexical-append (x ∷ xs) (y ∷ ys) us vs s h = ground (arith, lexical-append xs ys us vs s)

lexical_same : (xs us vs : List ℕ) → lexical us vs ≡ true → lexical (xs ++ us) (xs ++ vs) ≡ true
lexical_same [] us vs h = h
lexical_same (x ∷ xs) us vs h = ground (arith, lexical_same xs us vs h)

same_length-append :
    (xs ys : List ℕ) (a b : ℕ)
    → same_length xs ys ≡ true
    → same_length (xs ++ a ∷ []) (ys ++ b ∷ []) ≡ true
same_length-append [] [] a b s = refl
same_length-append [] (y ∷ ys) a b s = cc
same_length-append (x ∷ xs) [] a b s = cc
same_length-append (x ∷ xs) (y ∷ ys) a b s = same_length-append xs ys a b s

pub digits-same_length : (k n m : ℕ) → same_length (digits k n) (digits k m) ≡ true
unfolding digits
digits-same_length zero n m = refl
digits-same_length (suc k) n m =
    same_length-append (digits k (n / 10)) (digits k (m / 10)) _ _
      (digits-same_length k (n / 10) (m / 10))

by_tens : (n m : ℕ) → n < m → (n / 10 < m / 10) ⊎ ((n / 10 ≡ m / 10) × (n % 10 < m % 10))
by_tens n m h = ground arith

below_tens : (m p : ℕ) → m < p * 10 → m / 10 < p
below_tens m p h = omega (arith, h)

pow_ten : (k : ℕ) → 10 ^ suc k ≡ 10 ^ k * 10
pow_ten k = grind arith

last_digit : (a b : ℕ) → a < b → lexical ((48 + a) ∷ []) ((48 + b) ∷ []) ≡ true
last_digit a b h = ground arith

pub digits-lexical : (k n m : ℕ) → n < m → m < 10 ^ k → lexical (digits k n) (digits k m) ≡ true
unfolding digits
digits-lexical zero n m h b = ground arith
digits-lexical (suc k) n m h b =
    let small = below_tens m (10 ^ k) (subst (λ p. m < p) (pow_ten k) b) in
    elim (by_tens n m h) [
      | inl tens ↦
          lexical-append (digits k (n / 10)) (digits k (m / 10)) _ _
            (digits-same_length k (n / 10) (m / 10)) (digits-lexical k (n / 10) (m / 10) tens small)
      | inr (same, ones) ↦
          subst
            (λ x.
              lexical (digits k x ++ (48 + n % 10) ∷ []) (digits k (m / 10) ++ (48 + m % 10) ∷ [])
              ≡ true)
            (sym same) (lexical_same (digits k (m / 10)) _ _ (last_digit (n % 10) (m % 10) ones))
    ]

name_shape :
    (entry : JournalEntry) {name : List ℕ}
    → journal_object_name entry ≡ ok name
    → (rest : List ℕ) × (digits 20 entry.sequence ++ rest ≡ name)
unfolding journal_object_name
name_shape entry h =
    let (u, valid, later) = >>=-ok (validate_journal_entry entry) _ h in
    let (id, named, last) = >>=-ok (entry_id entry.kind entry) _ later in
    (b'-' ∷ id ++ codes ".json", ok-injective last)

-- Of two entries that have object names, the one with the lower sequence number, a uint64, has the
-- name that is first in lexical order: listing a journal's objects by name gives its order.
pub journal_object_name-lexical :
    (a b : JournalEntry) {name_a name_b : List ℕ}
    → a.sequence < b.sequence
    → b.sequence < 2 ^ 64
    → journal_object_name a ≡ ok name_a
    → journal_object_name b ≡ ok name_b
    → lexical name_a name_b ≡ true
journal_object_name-lexical a b {name_b = name_b} less word h k =
    let (rest_a, is_a) = name_shape a h in
    let (rest_b, is_b) = name_shape b k in
    subst (λ x. lexical x name_b ≡ true) is_a
      (subst (λ y. lexical (digits 20 a.sequence ++ rest_a) y ≡ true) is_b
        (lexical-append (digits 20 a.sequence) (digits 20 b.sequence) rest_a rest_b
          (digits-same_length 20 a.sequence b.sequence)
          (digits-lexical 20 a.sequence b.sequence less (omega (arith, word)))))
