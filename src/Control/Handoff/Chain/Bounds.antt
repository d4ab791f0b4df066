-- ===== src/Control/Handoff/Chain/Bounds.antt =====
-- How long a record chain of internal/control/handoff.go can be, and how its files are named.
use ctrldb.Prelude.{
  none, some, reject_if, true, refl, arith, >>=-ok, reject_if-passed, or_false, ==→eq, not-false,
  ok-injective, ◌<◌, ◌^◌, ◌≡◌, ◌≤◌, ◌+◌, ◌%◌, [], codes, ◌++◌, List, ℕ, Option, ok, false, subst,
  length, ◌∷◌, sym,
}
use ctrldb.Prelude.Int.{ℤ, eqb_ℤ, leb_ℤ}
use ctrldb.Control.Bytes.{same_bytes→eq}
use ctrldb.Control.Handoff.Records.{
  parse_handoff_record, has_invalid_fields, is_out_of_chain, record_file_name, read_handoff_records,
  read_chain, list_state_files, differs, hash_json, differs_bytes,
}
use ctrldb.Control.Handoff.Chain.{read_chain_step, rank_step, rank, order_after}
use ctrldb.Control.Handoff.Step.{Surroundings}
use ctrldb.Control.Handoff.{
  HandoffRecord, BootstrapEnvelope, File, order, phase_order_unknown, invalid_handoff_record,
  phase_text,
}
use ctrldb.Workflow.Journal.ObjectName.{digits}
use ctrldb.Workflow.Journal.ObjectName.Sorted.{
  lexical, lexical-append, digits-same_length, digits-lexical,
}

module _ {W : Type 0} (around : Surroundings W) where
  parsed-valid :
      (encoded : List ℕ) {r : HandoffRecord}
      → parse_handoff_record around encoded ≡ ok r
      → has_invalid_fields r ≡ false
  unfolding parse_handoff_record
  parsed-valid encoded {r} h =
      let (own, decoded, h1) = >>=-ok (around.decode encoded) _ h in
      let (_, fields, h2) =
        >>=-ok (reject_if (has_invalid_fields own) invalid_handoff_record) _ h1 in
      let (_, hash, h3) =
        >>=-ok
          (reject_if
            (differs own.record_sha256 (hash_json around (record own { record_sha256 = "" })))
            invalid_handoff_record)
          _ h2 in
      let (_, text, h4) =
        >>=-ok (reject_if (differs_bytes encoded (around.encode own)) invalid_handoff_record) _
          h3 in
      subst (λ x. has_invalid_fields x ≡ false) (ok-injective h4) (reject_if-passed _ _ fields)

  parsed-known :
      (encoded : List ℕ) {r : HandoffRecord}
      → parse_handoff_record around encoded ≡ ok r
      → eqb_ℤ (order r.phase) phase_order_unknown ≡ false
  unfolding has_invalid_fields
  parsed-known encoded {r} h = (or_false _ _ (or_false _ _ (parsed-valid encoded h)).1).0

  module _ (e : BootstrapEnvelope) where
    pub chained-facts :
        (index : ℕ) (previous : ℤ) (name : List ℕ) (r : HandoffRecord)
        → is_out_of_chain e index previous name r ≡ false
        → (r.sequence ≡ (index + 1) % 2 ^ 64)
          × (leb_ℤ (order r.phase) previous ≡ false)
          × (name ≡ record_file_name r)
    unfolding is_out_of_chain
    chained-facts index previous name r h =
        let (number, h1) = or_false _ _ h in
        let (op, h2) = or_false _ _ h1 in
        let (sha, h3) = or_false _ _ h2 in
        let (ahead, h4) = or_false _ _ h3 in
        let (named, bucket) = or_false _ _ h4 in
        (==→eq _ _ (not-false _ number), ahead, same_bytes→eq _ _ (not-false _ named))

    chain_bound :
        (index : ℕ) (previous : ℤ) (before_it : Option HandoffRecord) (files : List File)
        {records : List HandoffRecord}
        → rank previous ≤ 12
        → read_chain around e index previous before_it files ≡ ok records
        → rank previous + length records ≤ 12
    unfolding read_chain
    chain_bound index previous before_it [] small h =
        subst (λ (rs : List HandoffRecord). rank previous + length rs ≤ 12) (ok-injective h)
          (omega (arith, small))
    chain_bound index previous before_it (file ∷ files) small h =
        let (r, rest, okay, later, is) =
          read_chain_step around e index previous before_it file files h in
        let (_, ahead, _) = chained-facts index previous file.name r okay.chained in
        let (grows, top) =
          rank_step r.phase previous (parsed-known okay.encoded okay.parsed) ahead in
        let more = chain_bound (index + 1) (order r.phase) (some r) files top later in
        subst (λ (rs : List HandoffRecord). rank previous + length rs ≤ 12) (sym is)
          (omega (arith, grows, more))

    -- A chain is no longer than the place that its last phase has in the order.
    pub chain_rank :
        (index : ℕ) (previous : ℤ) (before_it : Option HandoffRecord) (files : List File)
        {records : List HandoffRecord}
        → read_chain around e index previous before_it files ≡ ok records
        → rank previous + length records ≤ rank (order_after previous records)
    unfolding read_chain
    chain_rank index previous before_it [] h =
        subst
          (λ (rs : List HandoffRecord). rank previous + length rs ≤ rank (order_after previous rs))
          (ok-injective h) (omega arith)
    chain_rank index previous before_it (file ∷ files) h =
        let (r, rest, okay, later, is) =
          read_chain_step around e index previous before_it file files h in
        let (_, ahead, _) = chained-facts index previous file.name r okay.chained in
        let (grows, _) = rank_step r.phase previous (parsed-known okay.encoded okay.parsed) ahead in
        let more = chain_rank (index + 1) (order r.phase) (some r) files later in
        subst
          (λ (rs : List HandoffRecord). rank previous + length rs ≤ rank (order_after previous rs))
          (sym is) (omega (arith, grows, more))

    -- A directory that is read as a chain of records has at most twelve, one for each phase.
    pub read_handoff_records-bound :
        (files : List File) {records : List HandoffRecord}
        → read_handoff_records around files e ≡ ok records
        → length records ≤ 12
    unfolding read_handoff_records
    read_handoff_records-bound files h =
        let (entries, listed, read) = >>=-ok (list_state_files files) _ h in
        omega (arith, chain_bound 0 phase_order_unknown none entries (omega arith) read)

-- A name with a later number is not before a name with an earlier one.
lexical_asym : (xs ys : List ℕ) → lexical xs ys ≡ true → lexical ys xs ≡ false
lexical_asym [] [] h = cc
lexical_asym [] (y ∷ ys) h = refl
lexical_asym (x ∷ xs) [] h = cc
lexical_asym (x ∷ xs) (y ∷ ys) h = ground (arith, lexical_asym xs ys)

abbrev name_end : HandoffRecord → List ℕ
name_end r = b'-' ∷ (codes (phase_text r.phase) ++ codes ".json")

pub later_name :
    (r next : HandoffRecord)
    → r.sequence < next.sequence
    → next.sequence < 2 ^ 64
    → lexical (record_file_name next) (record_file_name r) ≡ false
unfolding record_file_name
later_name r next less word = lexical_asym (record_file_name r) (record_file_name next) (
    lexical-append (digits 20 r.sequence) (digits 20 next.sequence) (name_end r) (name_end next)
      (digits-same_length 20 r.sequence next.sequence)
      (digits-lexical 20 r.sequence next.sequence less (omega (arith, word))))
