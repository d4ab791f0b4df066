-- ===== src/Control/Handoff/Chain/Extends.antt =====
-- The record that `append` of internal/control/handoff.go makes is accepted after the records before
-- it, where the JSON codec and the hash do what they document.
use ctrldb.Prelude.{
  none, some, reject_if, true, refl, arith, ◌≡◌, ◌<◌, length, ◌≤◌, codes, ◌+◌, ◌%◌, ◌==◌, ◌^◌,
  subst, eq_refl, sym, last?, ltb, eq_iff, ap, ◌∙◌, List, ℕ, Option, String, str_eq, ok, false,
}
use ctrldb.Control.Names.{is_operation_text}
use ctrldb.Control.Handoff.Step.{Surroundings}
use ctrldb.Control.Handoff.Records.{
  has_invalid_fields, max_handoff_record_bytes, hash_json, parse_handoff_record, differs,
  read_private_file, is_out_of_chain, latest, record_file_name, earlier_than,
}
use ctrldb.Control.Handoff.Walk.{IsShaped, IsNext}
use ctrldb.Workflow.Patterns.{is_contract_digest, is_operation_id}
use ctrldb.Control.Handoff.{
  BootstrapEnvelope, HandoffRecord, HandoffPhase, audit_identity, valid_utc, phase_order_unknown,
  order, BucketIdentity, same_identity,
}
use ctrldb.Control.Store.{ObjectDescriptor}
use ctrldb.Domain.Time.{Time}
use ctrldb.Prelude.Int.{ℤ, leb_ℤ}
use ctrldb.Control.Handoff.Session.{draft, private_file}
use ctrldb.Control.Bytes.{same_bytes_refl}
use ctrldb.Control.Handoff.Chain.{order_after, last_after, IsAccepted, rank, rank_step}
use ctrldb.Control.Handoff.Chain.Order.{order_after-latest, last_after-none, is_behind-order}

-- A record of the sessions of an envelope.
abbrev pub IsBound : BootstrapEnvelope → HandoffRecord → Type 0
IsBound e r =
    (r.operation_id ≡ e.operation_id)
    × (r.envelope_sha256 ≡ e.sha256)
    × (r.bucket ≡ audit_identity e)

-- The JSON codec reads back what it wrote, a SHA-256 in hex is 64 hex digits, and the records of the
-- envelope are written in at least one and at most 64 KiB.
pub record IsFaithful {W : Type 0} (around : Surroundings W) (e : BootstrapEnvelope) : Type 0 where
  pub reads_back :
      (r : HandoffRecord) (encoded : List ℕ)
      → around.encode r ≡ some encoded
      → around.decode encoded ≡ ok r
  pub hex : (content : List ℕ) → is_contract_digest (around.sha256_hex content) ≡ true
  pub fits :
      (r : HandoffRecord) (encoded : List ℕ)
      → IsBound e r
      → around.encode r ≡ some encoded
      → (0 < length encoded) × (length encoded ≤ max_handoff_record_bytes)

-- The record that `append` writes.
abbrev pub made :
    BootstrapEnvelope
    → List HandoffRecord
    → HandoffPhase
    → Option ObjectDescriptor
    → Option ObjectDescriptor
    → Time
    → String
    → HandoffRecord
made e records phase eo jo now digest = record (draft e records phase eo jo now) {
  record_sha256 = digest;
}

pub small_word : (n : ℕ) → n < 12 → (n + 1) % 2 ^ 64 ≡ n + 1
small_word n small = omega (arith, small)

numbered : (n : ℕ) → n < 12 → ((n + 1) % 2 ^ 64 == 0) ≡ false
numbered n small = rw (small_word n small) (not_zero n)
  where
    not_zero : (n : ℕ) → (n + 1 == 0) ≡ false
    not_zero n = ground arith

made-valid :
    (e : BootstrapEnvelope) (records : List HandoffRecord) (phase : HandoffPhase)
    (eo jo : Option ObjectDescriptor) (now : Time) (digest : String)
    → IsShaped phase eo jo
    → valid_utc now ≡ true
    → is_contract_digest digest ≡ true
    → is_contract_digest e.sha256 ≡ true
    → is_operation_text (codes e.operation_id) ≡ true
    → length records < 12
    → has_invalid_fields (made e records phase eo jo now digest) ≡ false
unfolding has_invalid_fields is_operation_id
made-valid e records phase eo jo now digest (known, is_envelope, is_journal, ge, gj) time hex sha op
      small =
    rw (known, time, hex, sha, op, numbered (length records) small, is_envelope, is_journal, ge, gj)
      refl

-- A private file of a content within bounds is read.
read_lem :
    (name encoded : List ℕ)
    → (0 < length encoded) × (length encoded ≤ max_handoff_record_bytes)
    → read_private_file (private_file name encoded) max_handoff_record_bytes ≡ ok encoded
read_lem name encoded (low, high) =
    rw (within (length encoded) high, not_empty (length encoded) low) refl
  where
    within : (n : ℕ) → n ≤ 65536 → ltb 65536 n ≡ false
    within n h = ground arith

    not_empty : (n : ℕ) → 0 < n → (n == 0) ≡ false
    not_empty n h = ground arith

same_number : (a b : ℕ) → a ≡ b → (a == b) ≡ true
same_number a b h = ground arith

same_text : (a b : String) → a ≡ b → str_eq a b ≡ true
same_text a b h = (eq_iff a b).1 h

identity_refl : (a : BucketIdentity) → same_identity a a ≡ true
identity_refl a = rw (eq_refl a.name, eq_refl a.project, eq_refl a.location) refl

-- A bound record with the number of its place, an advancing phase and its own file name.
in_chain :
    (e : BootstrapEnvelope) (index : ℕ) (previous : ℤ) (r : HandoffRecord)
    → r.sequence ≡ (index + 1) % 2 ^ 64
    → IsBound e r
    → leb_ℤ (order r.phase) previous ≡ false
    → is_out_of_chain e index previous (record_file_name r) r ≡ false
unfolding is_out_of_chain
in_chain e index previous r number (op, sha, bucket) ahead =
    rw
      (
        same_number _ _ number,
        same_text _ _ op,
        same_text _ _ sha,
        ahead,
        same_bytes_refl (record_file_name r),
        bucket,
        identity_refl (audit_identity e),
      )
      refl

module _ {W : Type 0} (around : Surroundings W) (e : BootstrapEnvelope)
    (faithful : IsFaithful around e) (sealed : is_contract_digest e.sha256 ≡ true)
    (named : is_operation_text (codes e.operation_id) ≡ true) where
  hash-hex :
      (r : HandoffRecord) {digest : String}
      → hash_json around r ≡ some digest
      → is_contract_digest digest ≡ true
  hash-hex r {digest} h = hex_lem (around.encode r) h
    where
      hex_lem :
          (o : Option (List ℕ))
          → (elim o [ none ↦ none | some encoded ↦ some (around.sha256_hex encoded) ]) ≡ some digest
          → is_contract_digest digest ≡ true
      hex_lem none h = cc
      hex_lem (some encoded) h =
          subst (λ d. is_contract_digest d ≡ true) (some_eq h) (faithful.hex encoded)
        where
          some_eq : {a b : String} → some a ≡ some b → a ≡ b
          some_eq h = cc

  -- The record that is next is read back from its encoding.
  parse_next :
      (records : List HandoffRecord) (sampled : Time) {r : HandoffRecord} {encoded : List ℕ}
      → length records < 12
      → IsNext around e records sampled r encoded
      → parse_handoff_record around encoded ≡ ok r
  unfolding parse_handoff_record reject_if
  parse_next records sampled {r} {encoded} small next =
      let invalid : has_invalid_fields r ≡ false =
        subst (λ x. has_invalid_fields x ≡ false) (sym next.is)
          (made-valid e records next.phase next.envelope_object next.journal_object sampled
            next.digest next.shaped next.valid_time (hash-hex _ next.hashed) sealed named small) in
      let unhashed : differs r.record_sha256 (hash_json around (record r { record_sha256 = "" }))
          ≡ false =
        subst
          (λ (x : HandoffRecord).
            differs x.record_sha256 (hash_json around (record x { record_sha256 = "" })) ≡ false)
          (sym next.is) (same_digest next.hashed) in
      rw
        (
          faithful.reads_back r encoded next.coded,
          invalid,
          unhashed,
          next.coded,
          same_bytes_refl encoded,
        )
        refl
    where
      same_digest :
          {o : Option String} {digest : String} → o ≡ some digest → differs digest o ≡ false
      same_digest {digest = digest} h = rw (h, eq_refl digest) refl

  -- The phase that is next has its place after the chain.
  pub next_ahead :
      (records : List HandoffRecord) (sampled : Time) {r : HandoffRecord} {encoded : List ℕ}
      → IsNext around e records sampled r encoded
      → (rank (order_after phase_order_unknown records) < 12)
        × (r.sequence ≡ (length records + 1) % 2 ^ 64)
  next_ahead records sampled next =
      let ahead = is_behind-order next.phase (latest records) next.shaped.0 next.ahead in
      let (grows, top) =
        rank_step next.phase (order_after phase_order_unknown records) next.shaped.0 (
          subst (λ z. leb_ℤ (order next.phase) z ≡ false) (sym (order_after-latest records))
            ahead) in
      (omega (arith, grows, top), ap (λ (x : HandoffRecord). x.sequence) next.is)

  -- The record that is next is accepted at the end of the chain.
  pub next-IsAccepted :
      (records : List HandoffRecord) (sampled : Time) {r : HandoffRecord} {encoded : List ℕ}
      → length records < 12
      → IsNext around e records sampled r encoded
      → IsAccepted around e
          (0 + length records)
          (order_after phase_order_unknown records)
          (last_after none records)
          (private_file (record_file_name r) encoded)
          r
  next-IsAccepted records sampled {r} {encoded} small next =
      let number : r.sequence ≡ (0 + length records + 1) % 2 ^ 64 =
        ap (λ (x : HandoffRecord). x.sequence) next.is ∙ from_zero (length records) in
      let bound : IsBound e r = subst (λ x. IsBound e x) (sym next.is) (refl, refl, refl) in
      let ahead : leb_ℤ (order r.phase) (order_after phase_order_unknown records) ≡ false =
        subst (λ z. leb_ℤ (order r.phase) z ≡ false) (sym (order_after-latest records))
          (subst (λ (x : HandoffRecord). leb_ℤ (order x.phase) (order (latest records)) ≡ false)
            (sym next.is) (is_behind-order next.phase (latest records) next.shaped.0 next.ahead)) in
      let monotone : earlier_than r.recorded_at (last_after none records) ≡ false =
        subst (λ o. earlier_than r.recorded_at o ≡ false) (sym (last_after-none records))
          (subst (λ (x : HandoffRecord). earlier_than x.recorded_at (last? records) ≡ false)
            (sym next.is) next.timely) in
      record {
        encoded = encoded;
        read = read_lem (record_file_name r) encoded (faithful.fits r encoded bound next.coded);
        parsed = parse_next records sampled small next;
        chained = in_chain e (0 + length records) _ r number bound ahead;
        monotone = monotone;
      }
    where
      from_zero : (n : ℕ) → (n + 1) % 2 ^ 64 ≡ (0 + n + 1) % 2 ^ 64
      from_zero n = omega arith
