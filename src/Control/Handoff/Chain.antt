-- ===== src/Control/Handoff/Chain.antt =====
-- What `readHandoffRecords` of internal/control/handoff.go accepts, and that the record that `append`
-- makes extends it.
pub mod Order
pub mod Extends
pub mod Bounds
pub mod Listed
use ctrldb.Control.Handoff.{
  envelope_sealed, audit_bucket_claimed, audit_bucket_created, envelope_uploaded, journal_uploaded,
  lifecycle_configured, handoff_verified, retention_configured, retention_lock_claimed,
  retention_locked, control_bucket_claimed, control_bucket_created, other, HandoffPhase, order,
  BootstrapEnvelope, phase_order_unknown, HandoffRecord, File,
}
use ctrldb.Prelude.{
  refl, arith, reject_if, ◌∷◌, some, >>=-ok, suc, reject_if-passed, ℕ, ◌≤◌, ◌≡◌, ◌<◌, subst, ◌+◌,
  sym, length, [], ok-injective, ◌++◌, false, ok, Option, List,
}
use ctrldb.Prelude.Int.{ℤ, pos, negsuc, leb_ℤ, eqb_ℤ}
use ctrldb.Control.Handoff.Records.{
  read_chain, parse_handoff_record, is_out_of_chain, read_private_file, max_handoff_record_bytes,
  earlier_than,
}
use ctrldb.Control.Handoff.Step.{Surroundings}

-- The place of a phase in the order, from 1, and 0 for an unknown phase.
abbrev pub rank : ℤ → ℕ
rank (pos n) = suc n
rank (negsuc n) = 0

-- A known phase is one of the twelve.
pub known_order :
    (p : HandoffPhase)
    → eqb_ℤ (order p) phase_order_unknown ≡ false
    → (n : ℕ) × (order p ≡ pos n) × (n < 12)
known_order envelope_sealed h = (0, refl, omega arith)
known_order audit_bucket_claimed h = (1, refl, omega arith)
known_order audit_bucket_created h = (2, refl, omega arith)
known_order envelope_uploaded h = (3, refl, omega arith)
known_order journal_uploaded h = (4, refl, omega arith)
known_order lifecycle_configured h = (5, refl, omega arith)
known_order handoff_verified h = (6, refl, omega arith)
known_order retention_configured h = (7, refl, omega arith)
known_order retention_lock_claimed h = (8, refl, omega arith)
known_order retention_locked h = (9, refl, omega arith)
known_order control_bucket_claimed h = (10, refl, omega arith)
known_order control_bucket_created h = (11, refl, omega arith)
known_order (other s) h = cc

rank_above : (n : ℕ) (previous : ℤ) → leb_ℤ (pos n) previous ≡ false → rank previous < suc n
rank_above n (pos m) h = ground arith
rank_above n (negsuc m) h = omega arith

pub rank_step :
    (p : HandoffPhase) (previous : ℤ)
    → eqb_ℤ (order p) phase_order_unknown ≡ false
    → leb_ℤ (order p) previous ≡ false
    → (rank previous < rank (order p)) × (rank (order p) ≤ 12)
rank_step p previous known ahead =
    let (n, is, small) = known_order p known in
    subst (λ z. (rank previous < rank z) × (rank z ≤ 12)) (sym is)
      (rank_above n previous (rw is at ahead), omega (arith, small))

abbrev pub order_after : ℤ → List HandoffRecord → ℤ
order_after previous [] = previous
order_after previous (r ∷ rs) = order_after (order r.phase) rs

abbrev pub last_after : Option HandoffRecord → List HandoffRecord → Option HandoffRecord
last_after before_it [] = before_it
last_after before_it (r ∷ rs) = last_after (some r) rs

module _ {W : Type 0} (around : Surroundings W) (envelope : BootstrapEnvelope) where
  -- What one round of the loop has checked.
  pub record IsAccepted (index : ℕ) (previous : ℤ) (before_it : Option HandoffRecord) (file : File)
      (r : HandoffRecord) : Type 0 where
    pub encoded : List ℕ
    pub read : read_private_file file max_handoff_record_bytes ≡ ok encoded
    pub parsed : parse_handoff_record around encoded ≡ ok r
    pub chained : is_out_of_chain envelope index previous file.name r ≡ false
    pub monotone : earlier_than r.recorded_at before_it ≡ false

  pub read_chain_step :
      (index : ℕ) (previous : ℤ) (before_it : Option HandoffRecord) (file : File)
      (files : List File) {records : List HandoffRecord}
      → read_chain around envelope index previous before_it (file ∷ files) ≡ ok records
      → (r : HandoffRecord) × (rest : List HandoffRecord) × IsAccepted index previous before_it file
          r
        × (read_chain around envelope (index + 1) (order r.phase) (some r) files ≡ ok rest)
        × (records ≡ r ∷ rest)
  unfolding read_chain
  read_chain_step index previous before_it file files h =
      let (encoded, read, h1) = >>=-ok _ _ h in
      let (r, parsed, h2) = >>=-ok _ _ h1 in
      let (_, chained, h3) = >>=-ok _ _ h2 in
      let (_, monotone, h4) = >>=-ok _ _ h3 in
      let (rest, later, h5) = >>=-ok _ _ h4 in
      (
        r,
        rest,
        record {
          encoded = encoded;
          read = read;
          parsed = parsed;
          chained = reject_if-passed _ _ chained;
          monotone = reject_if-passed _ _ monotone;
        },
        later,
        sym (ok-injective h5),
      )

  -- An accepted file goes before what is accepted after it.
  pub read_chain_cons :
      (index : ℕ) (previous : ℤ) (before_it : Option HandoffRecord) (file : File)
      (files : List File) (r : HandoffRecord) (rest : List HandoffRecord)
      → IsAccepted index previous before_it file r
      → read_chain around envelope (index + 1) (order r.phase) (some r) files ≡ ok rest
      → read_chain around envelope index previous before_it (file ∷ files) ≡ ok (r ∷ rest)
  unfolding read_chain reject_if
  read_chain_cons index previous before_it file files r rest accepted later =
      rw (accepted.read, accepted.parsed, accepted.chained, accepted.monotone, later) refl

  -- One more accepted file at the end of a chain.
  pub read_chain-append :
      (index : ℕ) (previous : ℤ) (before_it : Option HandoffRecord) (files : List File)
      {records : List HandoffRecord} (file : File) (r : HandoffRecord)
      → read_chain around envelope index previous before_it files ≡ ok records
      → IsAccepted
          (index + length records)
          (order_after previous records)
          (last_after before_it records)
          file
          r
      → read_chain around envelope index previous before_it (files ++ file ∷ [])
        ≡ ok (records ++ r ∷ [])
  unfolding read_chain
  read_chain-append index previous before_it [] file r h accepted =
      subst
        (λ rs.
          IsAccepted (index + length rs) (order_after previous rs) (last_after before_it rs) file r
          → read_chain around envelope index previous before_it (file ∷ []) ≡ ok (rs ++ r ∷ []))
        (ok-injective h)
        (λ first.
          read_chain_cons index previous before_it file [] r []
            (subst (λ n. IsAccepted n previous before_it file r) (no_more index) first) refl)
        accepted
    where
      no_more : (n : ℕ) → n + 0 ≡ n
      no_more n = omega arith
  read_chain-append index previous before_it (f ∷ files) file r h accepted =
      let (first, rest, okay, later, is) = read_chain_step index previous before_it f files h in
      subst
        (λ rs.
          IsAccepted (index + length rs) (order_after previous rs) (last_after before_it rs) file r
          → read_chain around envelope index previous before_it (f ∷ (files ++ file ∷ []))
            ≡ ok (rs ++ r ∷ []))
        (sym is)
        (λ last.
          read_chain_cons index previous before_it f (files ++ file ∷ []) first (rest ++ r ∷ [])
            okay
            (read_chain-append (index + 1) (order first.phase) (some first) files file r later (
              subst
                (λ n.
                  IsAccepted n (order_after (order first.phase) rest) (last_after (some first) rest)
                    file r)
                (one_more index (length rest)) last)))
        accepted
    where
      one_more : (n k : ℕ) → n + suc k ≡ n + 1 + k
      one_more n k = omega arith
