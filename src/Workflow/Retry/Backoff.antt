-- ===== src/Workflow/Retry/Backoff.antt =====
-- The delays of internal/workflow/retry.go.
use ctrldb.Prelude.Int.{times, half, of_word, pos}
use ctrldb.Prelude.{
  subst, leb, arith, Bool-cases, ℕ, ◌<◌, ◌*◌, ◌≤◌, ◌%◌, ◌≡◌, ◌^◌, suc, ◌⊎◌, ◌+◌, zero, inl, ◌/◌,
  inr, refl, false, true, sym,
}
use ctrldb.Workflow.Retry.{backoff}

word_lem : (x : ℕ) → x < 9223372036854775808 → of_word (x % 18446744073709551616) ≡ pos x
word_lem x h = ground arith

-- A product that fits is the product.
pub times-fits : (n k : ℕ) → n * k < 9223372036854775808 → times (pos n) k ≡ pos (n * k)
unfolding times
times-fits n k h = word_lem (n * k) h

pow_suc : (i k : ℕ) → i * 2 ^ suc k ≡ i * 2 * 2 ^ k
pow_suc i k = grind arith

doubled : (i k : ℕ) → i * 2 ≤ i * 2 ^ suc k
doubled i zero = omega arith
doubled i (suc k) = omega (arith, doubled (i * 2) k, pow_suc i (suc k))

room_left : (i m : ℕ) → leb (m / 2 + 0) (i + 0) ≡ false → i * 2 ≤ m
room_left i m h = ground arith

room_gone : (i k m : ℕ) → leb (m / 2 + 0) (i + 0) ≡ true → m ≤ i * 2 ^ suc k + 1
room_gone i k m h =
    let half_reached : m / 2 ≤ i = ground arith in omega (arith, half_reached, doubled i k)

doubling :
    (n i k m : ℕ)
    → (n ≡ i * 2 * 2 ^ k) ⊎ ((n ≡ m) × (m ≤ i * 2 * 2 ^ k + 1))
    → (n ≡ i * 2 ^ suc k) ⊎ ((n ≡ m) × (m ≤ i * 2 ^ suc k + 1))
doubling n i k m h = subst (λ x. (n ≡ x) ⊎ ((n ≡ m) × (m ≤ x + 1))) (sym (pow_suc i k)) h

-- The delay doubles, or it stops at a limit that the doubling has reached or is one short of.
pub backoff-doubles :
    (k i m : ℕ)
    → i ≤ m
    → m ≤ 3600
    → (n : ℕ) × (backoff k (pos m) (pos i) ≡ pos n)
      × (i ≤ n)
      × (n ≤ m)
      × ((n ≡ i * 2 ^ k) ⊎ ((n ≡ m) × (m ≤ i * 2 ^ k + 1)))
unfolding backoff half
backoff-doubles zero i m up small = (i, refl, omega arith, up, inl (omega arith))
backoff-doubles (suc k) i m up small = elim (Bool-cases (leb (m / 2 + 0) (i + 0))) [
  | inl full ↦ (m, rw full refl, up, omega arith, inr (refl, room_gone i k m full))
  | inr room ↦
      let below = room_left i m room in
      let (n, same, low, high, kind) = backoff-doubles k (i * 2) m below small in
      let twice = times-fits i 2 (omega (arith, below, small)) in
      (n, rw (room, twice) same, omega (arith, low), high, doubling n i k m kind)
]
