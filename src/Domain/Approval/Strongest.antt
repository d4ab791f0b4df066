-- ===== src/Domain/Approval/Strongest.antt =====
-- `MaxApprovalClass` of internal/domain/approval.go.
use ctrldb.Prelude.{
  reject_if, ltb, ◌≤◌, All, ◌≡◌, if◌then◌else◌, false, ◌<◌, ◌⊎◌, arith, true, ◌==◌, ◌||◌,
  ok-injective, [], inl, sym, >>=-ok, reject_if-passed,
}
use ctrldb.Domain.Approval.{
  ApprovalClass, strongest_of, max_approval_class, List, not, Bool, ok, ◌∷◌, approval_class_valid,
  unknown_class,
}

-- Whether a class is one of a list.
abbrev pub among : ApprovalClass → List ApprovalClass → Bool
among c [] = false
among c (d ∷ ds) = c == d || among c ds

-- Every class of a list is valid and at most `m`.
abbrev pub IsBounded : ApprovalClass → List ApprovalClass → Type 0
IsBounded m cs = All (λ c. (c < 6) × (c ≤ m)) cs

-- The step of the loop keeps the stronger of the two.
stronger :
    (s c : ApprovalClass)
    → (s ≤ (if ltb s c then c else s))
      × (c ≤ (if ltb s c then c else s))
      × (((if ltb s c then c else s) ≡ s) ⊎ ((if ltb s c then c else s) ≡ c))
stronger s c = ground arith

among_first :
    (m s c : ApprovalClass) (cs : List ApprovalClass) (x : ApprovalClass)
    → (x ≡ s) ⊎ (x ≡ c)
    → (m ≡ x) ⊎ (among m cs ≡ true)
    → (m ≡ s) ⊎ ((m == c || among m cs) ≡ true)
among_first m s c cs x a b = ground arith

valid_below : (c : ApprovalClass) → not (ltb c 6) ≡ false → c < 6
valid_below c h = ground arith

strongest_of_exact :
    (s : ApprovalClass) (cs : List ApprovalClass) {m : ApprovalClass}
    → strongest_of s cs ≡ ok m
    → (s ≤ m) × IsBounded m cs × ((m ≡ s) ⊎ (among m cs ≡ true))
unfolding strongest_of
strongest_of_exact s [] h = (omega (arith, ok-injective h), tt, inl (sym (ok-injective h)))
strongest_of_exact s (c ∷ cs) {m = m} h =
    let (u, passed, rest) =
      >>=-ok (reject_if (not (approval_class_valid c)) (unknown_class c)) _ h in
    let (s_up, c_up, one) = stronger s c in
    let (up, bounded, found) = strongest_of_exact (if ltb s c then c else s) cs rest in
    (
      omega (arith, s_up, up),
      ((valid_below c (reject_if-passed _ _ passed), omega (arith, c_up, up)), bounded),
      among_first m s c cs (if ltb s c then c else s) one found,
    )

zero_among :
    (m c : ApprovalClass) (cs : List ApprovalClass)
    → c ≤ m
    → (m ≡ 0) ⊎ ((m == c || among m cs) ≡ true)
    → (m == c || among m cs) ≡ true
zero_among m c cs h found = ground arith

-- `MaxApprovalClass` succeeds only on classes that are all valid, and then with the strongest of
-- them: one of the classes, which no other exceeds.
pub max_approval_class_exact :
    (cs : List ApprovalClass) {m : ApprovalClass}
    → max_approval_class cs ≡ ok m
    → IsBounded m cs × (among m cs ≡ true)
unfolding max_approval_class
max_approval_class_exact [] h = cc
max_approval_class_exact (c ∷ cs) {m = m} h =
    let (up, bounded, found) = strongest_of_exact 0 (c ∷ cs) h in
    (bounded, zero_among m c cs bounded.0.1 found)
