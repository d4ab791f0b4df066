-- ===== src/Control/Handoff/Walk/Session.antt =====
-- `append` of internal/control/handoff.go keeps what the primitive steps keep.
use ctrldb.Prelude.{
  refl, ◌≡◌, ◌++◌, ◌∷◌, subst, sym, ap, true, false, not-false, ◌∙◌, ◌||◌, or_false, List, ℕ, [],
  Bool, Option, not, String, some,
}
use ctrldb.Control.Handoff.Walk.{
  After, IsKept, IsNext, IsSame, after_bind, IsShaped, after_weaken, done, failed,
}
use ctrldb.Control.Handoff.Walk.Primitive.{
  bind_fail_if, after_disk, bind_held, after_clock, bind_demand,
}
use ctrldb.Control.Handoff.{
  HandoffPhase, BootstrapEnvelope, HandoffRecord, state_file_conflict, valid_utc,
}
use ctrldb.Control.Handoff.Step.{
  Surroundings, HandoffState, Publish, published, unsynced, refused, overtaken, fail_if, proceed,
}
use ctrldb.Control.Handoff.Records.{
  record_file_name, is_state_file_name, moved_backwards, hash_json,
}
use ctrldb.Control.Handoff.Session.{
  linked, private_file, write_ends, refuse_name, kept, holds_name, is_behind, draft,
}
use ctrldb.Control.Handoff.Session.Steps.{publish_file, write_private_file_exclusive, append}
use ctrldb.Control.Store.{ObjectDescriptor}
use ctrldb.Domain.Time.{Time}

-- What `append` has added.
abbrev pub IsGrown :
    {W : Type 0}
    → HandoffPhase
    → Option ObjectDescriptor
    → Option ObjectDescriptor
    → List HandoffRecord
    → HandoffState W
    → Type 0
IsGrown phase envelope_object journal_object records t =
    (r : HandoffRecord) × (t.records ≡ records ++ r ∷ [])
    × (r.phase ≡ phase)
    × (r.envelope ≡ envelope_object)
    × (r.journal ≡ journal_object)

module _ {W : Type 0} (around : Surroundings W) (envelope : BootstrapEnvelope)
    {I J : HandoffState W → Type 0} (keep : IsKept around envelope I J) where
  -- A state in which the file of a record is linked, and the record not yet held.
  abbrev IsLinked : List HandoffRecord → HandoffRecord → List ℕ → HandoffState W → Type 0
  IsLinked records r encoded t =
      (u : HandoffState W) × I u
      × IsNext around envelope u.records u.sampled r encoded
      × (u.records ≡ records)
      × (t ≡ linked (private_file (record_file_name r) encoded) u)

  publish_lem :
      (s : HandoffState W) {r : HandoffRecord} {encoded : List ℕ} (outcome : Publish × W)
      → IsNext around envelope s.records s.sampled r encoded
      → I s
      → After
          (IsLinked s.records r encoded)
          J
          (λ _ _. Unit {0})
          (write_ends (private_file (record_file_name r) encoded) outcome s)
  publish_lem s (published, w) next i =
      done (record s { world = w }, keep.moved s w i, next, refl, refl) tt
  publish_lem s (unsynced, w) next i = failed (keep.linked _ next (keep.moved s w i))
  publish_lem s (refused, w) next i = failed (keep.stopped _ (keep.moved s w i))
  publish_lem s (overtaken, w) next i = failed (keep.stopped _ (keep.moved s w i))

  publish_file_lem :
      (s : HandoffState W) {r : HandoffRecord} {encoded : List ℕ}
      → IsNext around envelope s.records s.sampled r encoded
      → I s
      → After
          (IsLinked s.records r encoded)
          J
          (λ _ _. Unit {0})
          (publish_file around (private_file (record_file_name r) encoded) s)
  unfolding publish_file
  publish_file_lem s next i = publish_lem s (around.publish s.world) next i

  refuse_name_lem :
      (name : List ℕ) (s : HandoffState W)
      → I s
      → After I J (λ _ t. IsSame s t) (refuse_name name s)
  unfolding refuse_name fail_if
  refuse_name_lem name s i = refuse_lem (holds_name name s.files)
    where
      refuse_lem : (b : Bool) → After I J (λ _ t. IsSame s t) (fail_if b state_file_conflict s)
      refuse_lem true = failed (keep.stopped s i)
      refuse_lem false = done i (refl, refl, refl)

  kept_lem :
      (records : List HandoffRecord) (r : HandoffRecord) (encoded : List ℕ) (t : HandoffState W)
      → IsLinked records r encoded t
      → After I J (λ _ t'. t'.records ≡ records ++ r ∷ []) (kept r t)
  unfolding kept
  kept_lem records r encoded t (u, i, next, same, is) =
      subst (λ x. After I J (λ _ t'. t'.records ≡ records ++ r ∷ []) (kept r x)) (sym is)
        (done (keep.appended u next i) (ap (λ rs. rs ++ r ∷ []) same))

  -- The same record is next in a state with the same records and reading.
  next_lem :
      (s t : HandoffState W) {r : HandoffRecord} {encoded : List ℕ}
      → IsSame s t
      → IsNext around envelope s.records s.sampled r encoded
      → IsNext around envelope t.records t.sampled r encoded
  next_lem s t {r} {encoded} (same, _, time) next =
      subst (λ x. IsNext around envelope t.records x r encoded) (sym time)
        (subst (λ x. IsNext around envelope x s.sampled r encoded) (sym same) next)

  write_lem :
      (s : HandoffState W) {r : HandoffRecord} {encoded : List ℕ}
      → ((is_state_file_name (record_file_name r) ≡ true)
          → IsNext around envelope s.records s.sampled r encoded)
      → I s
      → After
          (IsLinked s.records r encoded)
          J
          (λ _ _. Unit {0})
          (write_private_file_exclusive around (record_file_name r) encoded s)
  unfolding write_private_file_exclusive
  write_lem s {r} {encoded} next i = bind_fail_if keep.calm i _ _ _ λ fits.
      after_bind (after_disk keep.calm around s i) λ seen t i' same.
        bind_fail_if keep.calm i' _ _ _ λ fine.
          after_bind (refuse_name_lem (record_file_name r) t i') λ _ u i'' again.
            let here = next_lem t u again (next_lem s t same (next (not-false _ fits))) in
            subst
              (λ rs.
                After (IsLinked rs r encoded) J (λ _ _. Unit {0})
                  (publish_file around (private_file (record_file_name r) encoded) u))
              (again.0 ∙ same.0) (publish_file_lem u here i'')

  -- The end of `append`, with its record made.
  ended :
      {phase : HandoffPhase} {envelope_object journal_object : Option ObjectDescriptor}
      (s : HandoffState W) (now : Time)
      → IsShaped phase envelope_object journal_object
      → is_behind phase s.records ≡ false
      → not (valid_utc now) || moved_backwards now s.records ≡ false
      → (digest : String)
      → hash_json around (draft envelope s.records phase envelope_object journal_object now)
        ≡ some digest
      → (encoded : List ℕ)
      → let r : HandoffRecord =
          record (draft envelope s.records phase envelope_object journal_object now) {
            record_sha256 = digest;
          } in
        (around.encode r ≡ some encoded)
        → (u : HandoffState W) → I u
        → u.records ≡ s.records
        → u.sampled ≡ now
        → After I J
            (λ _ t. IsGrown phase envelope_object journal_object s.records t)
            (proceed
              (write_private_file_exclusive around (record_file_name r) encoded u)
              λ _. kept r)
  ended {phase} {envelope_object = eo} {journal_object = jo} s now shaped ahead valid digest hashed
        encoded coded u i same time =
      let r : HandoffRecord = record (draft envelope s.records phase eo jo now) {
        record_sha256 = digest;
      } in
      let (utc_time, timely) = or_false _ _ valid in
      let next = λ (fits : is_state_file_name (record_file_name r) ≡ true).
        subst (λ x. IsNext around envelope u.records x r encoded) (sym time)
          (subst (λ x. IsNext around envelope x now r encoded) (sym same)
            (record {
              phase = phase;
              envelope_object = eo;
              journal_object = jo;
              digest = digest;
              shaped = shaped;
              ahead = ahead;
              valid_time = not-false _ utc_time;
              timely = timely;
              hashed = hashed;
              is = refl;
              coded = coded;
              fits_name = fits;
            })) in
      after_bind (write_lem u next i) λ _ t is_linked _.
        after_weaken (λ _ v grown. (r, grown ∙ ap (λ rs. rs ++ r ∷ []) same, refl, refl, refl))
          (kept_lem u.records r encoded t is_linked)

  -- `append` adds one record of its phase.
  pub append_lem :
      (phase : HandoffPhase) (envelope_object journal_object : Option ObjectDescriptor)
      (s : HandoffState W)
      → IsShaped phase envelope_object journal_object
      → I s
      → After I J
          (λ _ t.
            (r : HandoffRecord) × (t.records ≡ s.records ++ r ∷ [])
            × (r.phase ≡ phase)
            × (r.envelope ≡ envelope_object)
            × (r.journal ≡ journal_object))
          (append around envelope phase envelope_object journal_object s)
  unfolding append
  append_lem phase envelope_object journal_object s shaped i = bind_held keep.calm i _ (
      bind_fail_if keep.calm i _ _ _ λ ahead.
        after_bind (after_clock keep.calm around s i) λ now t i' (same, disk, time).
          bind_fail_if keep.calm i' _ _ _ λ valid. bind_demand keep.calm i' _ _ _ λ digest hashed.
            bind_demand keep.calm i' _ _ _ λ encoded coded.
              after_bind (after_disk keep.calm around t i') λ made u i'' again.
                bind_fail_if keep.calm i'' _ _ _ λ fine.
                  ended s now shaped ahead valid digest hashed encoded coded u i'' (again.0 ∙ same)
                    (again.2 ∙ time))
