-- ===== src/Control/Names/Decoded.antt =====
-- An object name of internal/control/store.go determines what it names.
use ctrldb.Prelude.{
  refl, arith, List, ℕ, ◌≡◌, ◌==◌, if◌then◌else◌, [], ◌++◌, ◌||◌, and_true, ◌&&◌, zero, subst,
  ok-injective, ap, false, ◌∙◌, sym, ◌∷◌, Bool, true, not, is_slug, at_most, suc, is_lower, Result,
  ok, codes,
}
use ctrldb.Control.Names.{
  lock_object_name, harness_state_object_name, ownership_record_object_name,
  lifetime_record_object_name, ends_label, is_environment, is_canonical_id, adoption_object_name,
  approved_policy_object_name, cost_ceiling_object_name, named,
}
use ctrldb.Control.Store.{StoreError}

-- What a name of the control bucket stands for.
pub data ControlObject : Type 0 where
  harness_state : ControlObject
  lock adoption approved_policy cost_ceiling : List ℕ → ControlObject
  ownership_record lifetime_record : List ℕ → List ℕ → ControlObject

unfoldable pub control_object_name : ControlObject → Result StoreError (List ℕ)
unfolding lock_object_name harness_state_object_name ownership_record_object_name
    lifetime_record_object_name adoption_object_name approved_policy_object_name
    cost_ceiling_object_name
control_object_name harness_state = ok harness_state_object_name
control_object_name (lock environment) = lock_object_name environment
control_object_name (adoption environment) = adoption_object_name environment
control_object_name (approved_policy environment) = approved_policy_object_name environment
control_object_name (cost_ceiling environment) = cost_ceiling_object_name environment
control_object_name (ownership_record environment id) = ownership_record_object_name environment id
control_object_name (lifetime_record environment id) = lifetime_record_object_name environment id

-- The characters before and after the first `sep`.
abbrev until : ℕ → List ℕ → List ℕ
until sep [] = []
until sep (c ∷ cs) = if c == sep then [] else c ∷ until sep cs

abbrev beyond : ℕ → List ℕ → List ℕ
beyond sep [] = []
beyond sep (c ∷ cs) = if c == sep then cs else beyond sep cs

abbrev absent : ℕ → List ℕ → Bool
absent sep [] = true
absent sep (c ∷ cs) = not (c == sep) && absent sep cs

until-append : (sep : ℕ) (xs ys : List ℕ) → absent sep xs ≡ true → until sep (xs ++ sep ∷ ys) ≡ xs
until-append sep [] ys h = ground arith
until-append sep (x ∷ xs) ys h = ground (arith, until-append sep xs ys)

beyond-append : (sep : ℕ) (xs ys : List ℕ) → absent sep xs ≡ true → beyond sep (xs ++ sep ∷ ys) ≡ ys
beyond-append sep [] ys h = ground arith
beyond-append sep (x ∷ xs) ys h = ground (arith, beyond-append sep xs ys)

-- Neither `.` nor `/` is in the class `[a-z0-9-]`.
abbrev is_separator : ℕ → Bool
is_separator c = c == b'.' || c == b'/'

slug-absent : (sep c : ℕ) → is_separator sep ≡ true → is_slug c ≡ true → not (c == sep) ≡ true
slug-absent sep c s h = ground arith

label-absent :
    (sep n : ℕ) (cs : List ℕ)
    → is_separator sep ≡ true
    → ends_label n cs ≡ true
    → absent sep cs ≡ true
label-absent sep n [] s h = refl
label-absent sep n (c ∷ []) s h = ground arith
label-absent sep zero (c ∷ d ∷ cs) s h = cc
label-absent sep (suc n) (c ∷ d ∷ cs) s h =
    let (slug, rest) = and_true (is_slug c) (ends_label n (d ∷ cs)) h in
    rw (slug-absent sep c s slug) (label-absent sep n (d ∷ cs) s rest)

is_environment-absent :
    (sep : ℕ) (cs : List ℕ)
    → is_separator sep ≡ true
    → is_environment cs ≡ true
    → absent sep cs ≡ true
is_environment-absent sep [] s h = refl
is_environment-absent sep (c ∷ []) s h = ground arith
is_environment-absent sep (c ∷ d ∷ cs) s h =
    let (slug, rest) = and_true (is_lower c) (ends_label 61 (d ∷ cs)) h in
    rw (slug-absent sep c s (ground arith)) (label-absent sep 61 (d ∷ cs) s rest)

slugs-absent :
    (sep n : ℕ) (cs : List ℕ)
    → is_separator sep ≡ true
    → at_most is_slug n cs ≡ true
    → absent sep cs ≡ true
slugs-absent sep n [] s h = refl
slugs-absent sep zero (c ∷ cs) s h = cc
slugs-absent sep (suc n) (c ∷ cs) s h =
    let (slug, rest) = and_true (is_slug c) (at_most is_slug n cs) h in
    rw (slug-absent sep c s slug) (slugs-absent sep n cs s rest)

is_canonical_id-absent :
    (sep : ℕ) (cs : List ℕ)
    → is_separator sep ≡ true
    → is_canonical_id cs ≡ true
    → absent sep cs ≡ true
is_canonical_id-absent sep [] s h = refl
is_canonical_id-absent sep (c ∷ cs) s h =
    let (slug, rest) = and_true (is_lower c) (at_most is_slug 63 cs) h in
    rw (slug-absent sep c s (ground arith)) (slugs-absent sep 63 cs s rest)

abbrev drop : ℕ → List ℕ → List ℕ
drop zero cs = cs
drop (suc n) [] = []
drop (suc n) (c ∷ cs) = drop n cs

abbrev char : ℕ → List ℕ → ℕ
char n [] = 0
char zero (c ∷ cs) = c
char (suc n) (c ∷ cs) = char n cs

-- What the characters of a name say that it names, read off the layout of the bucket.
decode : List ℕ → ControlObject
decode name =
    if char 0 name == b'l'
    then lock (until b'.' (drop 6 name))
    else if char 0 name == b'a'
    then adoption (until b'.' (drop 9 name))
    else if char 0 name == b'p'
    then (if char 0 (beyond b'/' (drop 7 name)) == b'm'
        then approved_policy (until b'/' (drop 7 name))
        else cost_ceiling (until b'/' (drop 7 name)))
    else if char 5 name == b'h'
    then harness_state
    else if char 5 name == b'o'
    then ownership_record (until b'/' (drop 15 name)) (until b'.' (beyond b'/' (drop 15 name)))
    else lifetime_record (until b'/' (drop 14 name)) (until b'.' (beyond b'/' (drop 14 name)))

named-ok :
    (valid : Bool) (name : List ℕ) {result : List ℕ}
    → named valid name ≡ ok result
    → (valid ≡ true) × (name ≡ result)
named-ok true name h = (refl, ok-injective h)
named-ok false name h = cc

-- The two parts of a name that has an environment and an id.
parts :
    (environment id rest : List ℕ)
    → (is_environment environment && is_canonical_id id) ≡ true
    → (until b'/' (environment ++ b'/' ∷ (id ++ b'.' ∷ rest)) ≡ environment)
      × (until b'.' (beyond b'/' (environment ++ b'/' ∷ (id ++ b'.' ∷ rest))) ≡ id)
parts environment id rest valid =
    let (label, canonical) = and_true (is_environment environment) (is_canonical_id id) valid in
    let plain = is_environment-absent b'/' environment refl label in
    (
      until-append b'/' environment (id ++ b'.' ∷ rest) plain,
      ap (until b'.') (beyond-append b'/' environment (id ++ b'.' ∷ rest) plain)
          ∙ until-append b'.' id rest (is_canonical_id-absent b'.' id refl canonical),
    )

both : (f : List ℕ → List ℕ → ControlObject) {a b c d : List ℕ} → a ≡ b → c ≡ d → f a c ≡ f b d
both f h k = cc

-- The part of `decode` on the names under `policy/`.
policy :
    (environment rest : List ℕ)
    → absent b'/' environment ≡ true
    → (if char 0 (beyond b'/' (environment ++ b'/' ∷ rest)) == b'm'
        then approved_policy (until b'/' (environment ++ b'/' ∷ rest))
        else cost_ceiling (until b'/' (environment ++ b'/' ∷ rest)))
      ≡ (if char 0 rest == b'm' then approved_policy environment else cost_ceiling environment)
policy environment rest plain =
    rw (beyond-append b'/' environment rest plain, until-append b'/' environment rest plain) refl

decode-name :
    (object : ControlObject) {name : List ℕ}
    → control_object_name object ≡ ok name
    → decode name ≡ object
unfolding decode control_object_name lock_object_name harness_state_object_name
    ownership_record_object_name lifetime_record_object_name adoption_object_name
    approved_policy_object_name cost_ceiling_object_name
decode-name harness_state h = subst (λ n. decode n ≡ harness_state) (ok-injective h) refl
decode-name (lock environment) h =
    let (valid, is) = named-ok _ _ h in
    subst (λ n. decode n ≡ lock environment) is
      (ap lock
        (until-append b'.' environment _ (is_environment-absent b'.' environment refl valid)))
decode-name (adoption environment) h =
    let (valid, is) = named-ok _ _ h in
    subst (λ n. decode n ≡ adoption environment) is
      (ap adoption
        (until-append b'.' environment _ (is_environment-absent b'.' environment refl valid)))
decode-name (approved_policy environment) h =
    let (valid, is) = named-ok _ _ h in
    let plain = is_environment-absent b'/' environment refl valid in
    subst (λ n. decode n ≡ approved_policy environment) is
      (policy environment (codes "manifest-approved.json") plain)
decode-name (cost_ceiling environment) h =
    let (valid, is) = named-ok _ _ h in
    let plain = is_environment-absent b'/' environment refl valid in
    subst (λ n. decode n ≡ cost_ceiling environment) is
      (policy environment (codes "cost-ceiling.json") plain)
decode-name (ownership_record environment id) h =
    let (valid, is) = named-ok _ _ h in
    let (label, key) = parts environment id (codes "json") valid in
    subst (λ n. decode n ≡ ownership_record environment id) is (both ownership_record label key)
decode-name (lifetime_record environment id) h =
    let (valid, is) = named-ok _ _ h in
    let (label, key) = parts environment id (codes "json") valid in
    subst (λ n. decode n ≡ lifetime_record environment id) is (both lifetime_record label key)

-- Two names that the constructors of the control bucket form are equal only if the same constructor
-- formed them from the same arguments: no lock, seed or record can stand at another's name.
pub control_object_name-injective :
    (a b : ControlObject) {name : List ℕ}
    → control_object_name a ≡ ok name
    → control_object_name b ≡ ok name
    → a ≡ b
control_object_name-injective a b h k = sym (decode-name a h) ∙ decode-name b k
