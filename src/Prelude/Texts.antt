-- ===== src/Prelude/Texts.antt =====
-- Go strings: equality, and the character classes and counts of the source's patterns.
use Prim.Native.Nat.{ℕ, zero, suc}
use Prim.Native.Char.{code}
use Prim.Native.String.{String}
use mathlib.Core.Path.{◌≡◌}
use mathlib.Core.Bool.{Bool, true, false, ◌&&◌, ◌||◌}
use mathlib.Core.List.{List, [], ◌∷◌}
use text.Mathlib.TextEquality.{eq_iff}
use ctrldb.Prelude.Tests.{leb, ◌==◌}
pub use text.Mathlib.Text.{◌==◌ as str_eq}
pub use text.Mathlib.TextEquality.{eq_iff}
pub use text.Mathlib.TextPositions.{eq_refl}

-- The code points of a text. A pattern of ASCII classes matches no other character, so a byte
-- sequence that is not UTF-8 matches as little as its replacement characters do.
abbrev pub codes : String → List ℕ
codes String.[] = []
codes (String.◌∷◌ head rest) = code head ∷ codes rest

pub str_eq→eq : (a b : String) → str_eq a b ≡ true → a ≡ b
str_eq→eq a b = (eq_iff a b).0

-- `[0-9]`
abbrev pub is_digit : ℕ → Bool
is_digit c = leb b'0' c && leb c b'9'

-- `[a-z]`
abbrev pub is_lower : ℕ → Bool
is_lower c = leb b'a' c && leb c b'z'

-- `[A-Z]`
abbrev pub is_upper : ℕ → Bool
is_upper c = leb b'A' c && leb c b'Z'

-- `[0-9a-f]`
abbrev pub is_hex : ℕ → Bool
is_hex c = is_digit c || (leb b'a' c && leb c b'f')

-- `[a-z0-9-]`
abbrev pub is_slug : ℕ → Bool
is_slug c = is_lower c || (is_digit c || c == b'-')

-- `class{n}$`
abbrev pub exactly : (ℕ → Bool) → ℕ → List ℕ → Bool
exactly p zero [] = true
exactly p zero (c ∷ cs) = false
exactly p (suc n) [] = false
exactly p (suc n) (c ∷ cs) = p c && exactly p n cs

-- `class{0,n}$`
abbrev pub at_most : (ℕ → Bool) → ℕ → List ℕ → Bool
at_most p n [] = true
at_most p zero (c ∷ cs) = false
at_most p (suc n) (c ∷ cs) = p c && at_most p n cs

-- `^literal rest`: the rest is matched by the continuation.
abbrev pub after : List ℕ → (List ℕ → Bool) → List ℕ → Bool
after [] k cs = k cs
after (p ∷ ps) k [] = false
after (p ∷ ps) k (c ∷ cs) = (p == c) && after ps k cs
