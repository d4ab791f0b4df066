-- ===== src/Tests/Handoffs/Codec.antt =====
-- A codec of records by their place in a table, which stands for the JSON codec of
-- internal/control/handoff.go in the tests.
use ctrldb.Control.Handoff.{
  HandoffRecord, HandoffPhase, BucketIdentity, envelope_sealed, audit_bucket_claimed,
  audit_bucket_created, envelope_uploaded, journal_uploaded, lifecycle_configured, same_identity,
  handoff_verified, retention_configured, retention_lock_claimed, retention_locked, HandoffError,
  order, invalid_handoff_record, other, phase_order_unknown, control_bucket_claimed,
  control_bucket_created,
}
use ctrldb.Control.Store.{ObjectDescriptor, same_descriptor}
use ctrldb.Prelude.{
  none, some, true, ok, err, false, [], ◌∷◌, Option, ℕ, List, Result, Bool, str_eq, if◌then◌else◌,
  ◌&&◌, ◌==◌, ◌≡◌, suc, arith, and_true, ◌≤◌, ==→eq, not, str_eq→eq, Bool-cases, subst, sym, inl,
  refl, ◌∙◌, ap, inr,
}
use ctrldb.Prelude.Int.{pos, ℤ, eqb_ℤ, negsuc}
use ctrldb.Domain.Time.{Time, same_time}

abbrev same_option : Option ObjectDescriptor → Option ObjectDescriptor → Bool
same_option none none = true
same_option (some a) (some b) = same_descriptor a b
same_option _ _ = false

ℤ→eq : (a b : ℤ) → eqb_ℤ a b ≡ true → a ≡ b
ℤ→eq (pos m) (pos n) h = let e : m ≡ n = ground arith in cc
ℤ→eq (negsuc m) (negsuc n) h = let e : m ≡ n = ground arith in cc
ℤ→eq (pos m) (negsuc n) h = ground arith
ℤ→eq (negsuc m) (pos n) h = ground arith

option→eq : (a b : Option ObjectDescriptor) → same_option a b ≡ true → a ≡ b
option→eq none none h = refl
option→eq none (some b) h = cc
option→eq (some a) none h = cc
option→eq (some a) (some b) h =
    let (generation, h1) = and_true _ _ h in
    let (size, sum) = and_true _ _ h1 in
    let e1 = ==→eq a.generation b.generation generation in
    let e2 = ℤ→eq a.size b.size size in let e3 = ==→eq a.crc32c b.crc32c sum in cc

-- Two records with the same order of a known phase, and the same other fields.
abbrev same_phase : HandoffPhase → HandoffPhase → Bool
same_phase a b = eqb_ℤ (order a) (order b) && not (eqb_ℤ (order a) phase_order_unknown)

phase_at : ℤ → HandoffPhase
phase_at (negsuc n) = other ""
phase_at (pos n) =
    if n == 0
    then envelope_sealed
    else if n == 1
    then audit_bucket_claimed
    else if n == 2
    then audit_bucket_created
    else if n == 3
    then envelope_uploaded
    else if n == 4
    then journal_uploaded
    else if n == 5
    then lifecycle_configured
    else if n == 6
    then handoff_verified
    else if n == 7
    then retention_configured
    else if n == 8
    then retention_lock_claimed
    else if n == 9
    then retention_locked
    else if n == 10
    then control_bucket_claimed
    else control_bucket_created

phase_at-order :
    (p : HandoffPhase) → eqb_ℤ (order p) phase_order_unknown ≡ false → phase_at (order p) ≡ p
unfolding phase_at
phase_at-order envelope_sealed h = refl
phase_at-order audit_bucket_claimed h = refl
phase_at-order audit_bucket_created h = refl
phase_at-order envelope_uploaded h = refl
phase_at-order journal_uploaded h = refl
phase_at-order lifecycle_configured h = refl
phase_at-order handoff_verified h = refl
phase_at-order retention_configured h = refl
phase_at-order retention_lock_claimed h = refl
phase_at-order retention_locked h = refl
phase_at-order control_bucket_claimed h = refl
phase_at-order control_bucket_created h = refl
phase_at-order (other s) h = cc

phase→eq : (a b : HandoffPhase) → same_phase a b ≡ true → a ≡ b
phase→eq a b h =
    let (same, known) = and_true _ _ h in
    let place = ℤ→eq (order a) (order b) same in
    let unknown : eqb_ℤ (order a) phase_order_unknown ≡ false = ground arith in
    sym (phase_at-order a unknown)
    ∙ ap phase_at place
    ∙ phase_at-order b (subst (λ z. eqb_ℤ z phase_order_unknown ≡ false) place unknown)

abbrev same_record : HandoffRecord → HandoffRecord → Bool
same_record a b =
    str_eq a.schema b.schema
    && (str_eq a.operation_id b.operation_id
        && (str_eq a.envelope_sha256 b.envelope_sha256
            && (a.sequence == b.sequence
                && (same_phase a.phase b.phase
                    && (same_time a.recorded_at b.recorded_at
                        && (same_identity a.bucket b.bucket
                            && (same_option a.envelope b.envelope
                                && (same_option a.journal b.journal
                                    && str_eq a.record_sha256 b.record_sha256))))))))

time→eq : (a b : Time) → same_time a b ≡ true → a ≡ b
time→eq a b h =
    let (instant, offset) = and_true _ _ h in
    let e1 = ==→eq a.instant b.instant instant in let e2 = ==→eq a.offset b.offset offset in cc

identity→eq : (a b : BucketIdentity) → same_identity a b ≡ true → a ≡ b
identity→eq a b h =
    let (name, h1) = and_true _ _ h in
    let (project, location) = and_true _ _ h1 in
    let e1 = str_eq→eq a.name b.name name in
    let e2 = str_eq→eq a.project b.project project in
    let e3 = str_eq→eq a.location b.location location in cc

record→eq : (a b : HandoffRecord) → same_record a b ≡ true → a ≡ b
record→eq a b h =
    let (schema, h1) = and_true _ _ h in
    let (op, h2) = and_true _ _ h1 in
    let (sha, h3) = and_true _ _ h2 in
    let (number, h4) = and_true _ _ h3 in
    let (phase, h5) = and_true _ _ h4 in
    let (time, h6) = and_true _ _ h5 in
    let (bucket, h7) = and_true _ _ h6 in
    let (envelope, h8) = and_true _ _ h7 in
    let (journal, own) = and_true _ _ h8 in
    fields (str_eq→eq _ _ schema) (str_eq→eq _ _ op) (str_eq→eq _ _ sha) (==→eq _ _ number)
      (phase→eq _ _ phase) (time→eq _ _ time) (identity→eq _ _ bucket) (option→eq _ _ envelope)
      (option→eq _ _ journal) (str_eq→eq _ _ own)
  where
    fields :
        a.schema ≡ b.schema
        → a.operation_id ≡ b.operation_id
        → a.envelope_sha256 ≡ b.envelope_sha256
        → a.sequence ≡ b.sequence
        → a.phase ≡ b.phase
        → a.recorded_at ≡ b.recorded_at
        → a.bucket ≡ b.bucket
        → a.envelope ≡ b.envelope
        → a.journal ≡ b.journal
        → a.record_sha256 ≡ b.record_sha256
        → a ≡ b
    fields e1 e2 e3 e4 e5 e6 e7 e8 e9 e10 = cc

-- A code is one byte and the place of the record in the table.
unfoldable pub encode_from : ℕ → List HandoffRecord → HandoffRecord → Option (List ℕ)
encode_from n [] r = none
encode_from n (x ∷ xs) r = if same_record r x then some (n ∷ []) else encode_from (suc n) xs r

unfoldable pub decode_at : ℕ → List HandoffRecord → ℕ → Result HandoffError HandoffRecord
decode_at n [] code = err invalid_handoff_record
decode_at n (x ∷ xs) code = if code == n then ok x else decode_at (suc n) xs code

pub encode_above :
    (n : ℕ) (xs : List HandoffRecord) (r : HandoffRecord) {c : List ℕ}
    → encode_from n xs r ≡ some c
    → (code : ℕ) × (c ≡ code ∷ []) × (n ≤ code) × (decode_at n xs code ≡ ok r)
unfolding encode_from decode_at
encode_above n [] r h = cc
encode_above n (x ∷ xs) r {c} h = elim (Bool-cases (same_record r x)) [
  | inl hit ↦
      let is = record→eq r x hit in
      (n, sym (some_eq (rw hit at h)), omega arith, rw (same_number n) (ap ok (sym is)))
  | inr miss ↦
      let (code, is, above, found) = encode_above (suc n) xs r (rw miss at h) in
      (code, is, omega (arith, above), rw (above_not code n above) found)
]
  where
    some_eq : {a b : List ℕ} → some a ≡ some b → a ≡ b
    some_eq h = cc

    same_number : (n : ℕ) → (n == n) ≡ true
    same_number n = ground arith

    above_not : (code n : ℕ) → suc n ≤ code → (code == n) ≡ false
    above_not code n h = ground arith
