-- ===== src/Control/Handoff/Chain/Listed.antt =====
-- The listing of a directory of records of internal/control/handoff.go, with one more file.
use ctrldb.Prelude.{
  some, true, refl, arith, All, ok-injective, Bool-cases, inl, inr, ◌≡◌, ◌++◌, ◌∷◌, ap, ◌∙◌, Bool,
  if◌then◌else◌, ◌+◌, ◌<◌, ◌^◌, Result, ◌||◌, List, false, [], ok, ℕ, Option, length, subst, sym,
  err, not,
}
use ctrldb.Control.Handoff.Records.{
  listed, sorted, record_file_name, read_chain, is_temporary, is_state_file_name, insert_sorted,
  listed_with,
}
use ctrldb.Control.Handoff.Chain.{read_chain_step}
use ctrldb.Control.Handoff.{
  File, BootstrapEnvelope, HandoffRecord, order, HandoffError, invalid_state_file,
}
use ctrldb.Control.Handoff.Step.{Surroundings}
use ctrldb.Prelude.Int.{ℤ}
use ctrldb.Control.Handoff.Chain.Bounds.{chained-facts, later_name}
use ctrldb.Workflow.Journal.ObjectName.Sorted.{lexical}
use ctrldb.Control.Handoff.Session.{private_file}

-- The file is not before any of the others.
abbrev IsLast : File → List File → Type 0
IsLast file = All (λ (f : File). lexical file.name f.name ≡ false)

insert_before_last :
    (f file : File) (files : List File)
    → lexical file.name f.name ≡ false
    → insert_sorted f (files ++ file ∷ []) ≡ insert_sorted f files ++ file ∷ []
insert_before_last f file [] h = rw h refl
insert_before_last f file (next ∷ files) h = elim (Bool-cases (lexical next.name f.name)) [
  | inl before ↦ rw before (ap (λ fs. next ∷ fs) (insert_before_last f file files h))
  | inr after_it ↦ rw after_it refl
]

pub sorted-append :
    (file : File) (files : List File)
    → IsLast file files
    → sorted (files ++ file ∷ []) ≡ sorted files ++ file ∷ []
unfolding sorted
sorted-append file [] h = refl
sorted-append file (f ∷ files) (first, rest) =
    ap (insert_sorted f) (sorted-append file files rest)
    ∙ insert_before_last f file (sorted files) first

module _ (P : File → Type 0) where
  branch :
      (b : Bool) (f next : File) (files more : List File)
      → (All P more → P f × All P files)
      → All P (if b then next ∷ more else f ∷ next ∷ files)
      → P f × All P (next ∷ files)
  branch true f next files more again (p, rest) = let (q, others) = again rest in (q, (p, others))
  branch false f next files more again (q, both) = (q, both)

  insert-All : (f : File) (files : List File) → All P (insert_sorted f files) → P f × All P files
  insert-All f [] (p, _) = (p, tt)
  insert-All f (next ∷ files) h =
      branch (lexical next.name f.name) f next files (insert_sorted f files) (insert-All f files) h

  -- What holds of the sorted files holds of the files.
  pub sorted-All : (files : List File) → All P (sorted files) → All P files
  unfolding sorted
  sorted-All [] h = tt
  sorted-All (f ∷ files) h =
      let (p, rest) = insert-All f (sorted files) h in (p, sorted-All files rest)

-- A round of the listing does the same with more files after it.
listed_with-append :
    (f : File) (rest : Result HandoffError (List File)) {entries : List File}
    → listed_with f rest ≡ ok entries
    → (others : List File) × (rest ≡ ok others)
      × ((more : List File) → listed_with f (ok (others ++ more)) ≡ ok (entries ++ more))
listed_with-append f (err e) {entries} h = absurd (fails (is_temporary f.name) h)
  where
    fails :
        (b : Bool)
        → (if b
            then err e
            else if not f.is_regular || not (is_state_file_name f.name)
            then err invalid_state_file
            else err e)
          ≡ ok entries
        → ⊥
    fails true h = cc
    fails false h = fails_too (not f.is_regular || not (is_state_file_name f.name)) h
      where
        fails_too : (b : Bool) → (if b then err invalid_state_file else err e) ≡ ok entries → ⊥
        fails_too true h = cc
        fails_too false h = cc
listed_with-append f (ok others) {entries} h = (
  others,
  refl,
  goes (is_temporary f.name) (not f.is_regular || not (is_state_file_name f.name)) h,
)
  where
    goes :
        (a b : Bool)
        → (if a then ok others else if b then err invalid_state_file else ok (f ∷ others))
          ≡ ok entries
        → (more : List File)
        → (if a
            then ok (others ++ more)
            else if b
            then err invalid_state_file
            else ok (f ∷ (others ++ more)))
          ≡ ok (entries ++ more)
    goes true b h more = ap (λ (es : List File). ok (es ++ more)) (ok-injective h)
    goes false true h more = cc
    goes false false h more = ap (λ (es : List File). ok (es ++ more)) (ok-injective h)

pub listed-append :
    (files : List File) (name content : List ℕ) {entries : List File}
    → listed files ≡ ok entries
    → is_temporary name ≡ false
    → is_state_file_name name ≡ true
    → listed (files ++ private_file name content ∷ [])
      ≡ ok (entries ++ private_file name content ∷ [])
unfolding listed
listed-append [] name content h visible fits =
    rw (visible, fits)
      (ap (λ (es : List File). ok (es ++ private_file name content ∷ [])) (ok-injective h))
listed-append (f ∷ files) name content h visible fits =
    let (others, is, extend) = listed_with-append f (listed files) h in
    ap (listed_with f) (listed-append files name content is visible fits)
    ∙ extend (private_file name content ∷ [])

module _ {W : Type 0} (around : Surroundings W) (e : BootstrapEnvelope) where
  -- A record with a number above those of the chain has a name after those of its files.
  pub read_chain-IsLast :
      (next : HandoffRecord) (content : List ℕ) (index : ℕ) (previous : ℤ)
      (before_it : Option HandoffRecord) (files : List File) {records : List HandoffRecord}
      → read_chain around e index previous before_it files ≡ ok records
      → index + length records < next.sequence
      → next.sequence < 2 ^ 64
      → IsLast (private_file (record_file_name next) content) files
  read_chain-IsLast next content index previous before_it [] h above word = tt
  read_chain-IsLast next content index previous before_it (file ∷ files) h above word =
      let (r, rest, okay, later, is) =
        read_chain_step around e index previous before_it file files h in
      let (number, _, named) = chained-facts around e index previous file.name r okay.chained in
      let count = ap (λ (rs : List HandoffRecord). length rs) is in
      let own : r.sequence < next.sequence = omega (arith, number, above, word, count) in
      (
        subst (λ n. lexical (record_file_name next) n ≡ false) (sym named)
            (later_name r next own word),
        read_chain-IsLast next content (index + 1) (order r.phase) (some r) files later
            (omega (arith, above, count)) word,
      )
