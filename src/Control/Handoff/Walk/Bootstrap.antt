-- ===== src/Control/Handoff/Walk/Bootstrap.antt =====
-- `Bootstrap` of internal/control/handoff.go keeps what its steps keep, and asks for each mutation
-- only where it is due.
use ctrldb.Prelude.{
  refl, ◌≡◌, subst, sym, ◌∙◌, ◌||◌, arith, eq_refl, ◌++◌, ◌∷◌, ℕ, not, some, Result, ok, err,
  Option, List, none, false, true, [],
}
use ctrldb.Control.Handoff.Session.{Session}
use ctrldb.Control.Handoff.Session.Steps.{append}
use ctrldb.Control.Store.{matches_content, ObjectDescriptor}
use ctrldb.Control.Handoff.{
  failure, PortError, HandoffError, precondition, HandoffPhase, order, phase_order_unknown,
  BucketState, HandoffRecord, audit_bucket_created, phase_eq, envelope_uploaded, journal_uploaded,
  phase_text, audit_bucket_claimed,
}
use ctrldb.Control.Handoff.Step.{
  upload_create_only, Surroundings, HandoffState, create_audit_bucket,
}
use ctrldb.Control.Handoff.Walk.{After, IsKept, IsShaped, after_bind, after_weaken, IsDue}
use ctrldb.Control.Handoff.Walk.Primitive.{
  bind_held, bind_demand, bind_fail_if, after_unless, after_pure, bind_unless, after_mutate,
  after_attempt, after_require, after_observe,
}
use ctrldb.Prelude.Int.{eqb_ℤ}
use ctrldb.Control.Handoff.Records.{reached, lacks_generation}
use ctrldb.Control.Handoff.Bootstrap.{
  verify_observation, adopt_existing_bucket, create_bucket, ensure_bucket, bucket_or_create,
  upload_ends, upload_create_only_object,
}
use ctrldb.Control.Handoff.Walk.Session.{IsGrown, append_lem}
use ctrldb.Control.Handoff.Walk.Observed.{
  observe_bucket_lem, verify_object_lem, remote_lem, authorize_lem,
}

-- An append adds its phase to what is reached, and nothing else.
reached-append :
    (phase : HandoffPhase) (records : List HandoffRecord) (r : HandoffRecord)
    → reached phase (records ++ r ∷ []) ≡ (reached phase records || phase_eq r.phase phase)
unfolding reached
reached-append phase [] r = ground arith
reached-append phase (x ∷ records) r = ground (arith, reached-append phase records r)

-- What is reached stays reached.
pub still :
    {W : Type 0} {phase : HandoffPhase} (p : HandoffPhase) (records : List HandoffRecord)
    (t : HandoffState W) {eo jo : Option ObjectDescriptor}
    → IsGrown phase eo jo records t
    → reached p records ≡ true
    → reached p t.records ≡ true
still p records t (r, is, same, _, _) h =
    subst (λ rs. reached p rs ≡ true) (sym is) (rw (reached-append p records r, h) refl)

-- The phase of the append is reached.
pub now_reached :
    {W : Type 0} (phase : HandoffPhase) (records : List HandoffRecord) (t : HandoffState W)
    {eo jo : Option ObjectDescriptor}
    → IsGrown phase eo jo records t
    → reached phase t.records ≡ true
now_reached phase records t (r, is, same, _, _) =
    subst (λ rs. reached phase rs ≡ true) (sym is)
      (reached-append phase records r
        ∙ subst (λ q. reached phase records || phase_eq q phase ≡ true) (sym same)
            (ground (arith, eq_refl (phase_text phase))))

-- Another phase is not.
pub not_yet :
    {W : Type 0} {phase : HandoffPhase} (p : HandoffPhase) (records : List HandoffRecord)
    (t : HandoffState W) {eo jo : Option ObjectDescriptor}
    → IsGrown phase eo jo records t
    → phase_eq phase p ≡ false
    → reached p records ≡ false
    → reached p t.records ≡ false
not_yet p records t (r, is, same, _, _) apart h =
    subst (λ rs. reached p rs ≡ false) (sym is)
      (reached-append p records r
        ∙ subst (λ q. reached p records || phase_eq q p ≡ false) (sym same) (rw (h, apart) refl))

pub plain_shape :
    (phase : HandoffPhase)
    → eqb_ℤ (order phase) phase_order_unknown ≡ false
    → phase_eq phase envelope_uploaded ≡ false
    → phase_eq phase journal_uploaded ≡ false
    → IsShaped phase none none
plain_shape phase known e j = (known, rw e refl, rw j refl, refl, refl)

with_generation :
    {W : Type 0} (around : Surroundings W) (d : ObjectDescriptor) (content : List ℕ)
    → not (matches_content around.checksum d content) ≡ false
    → lacks_generation (some d) ≡ false
unfolding matches_content
with_generation around d content match = ground arith

module _ {W : Type 0} (around : Surroundings W) (session : Session) {I J : HandoffState W → Type 0}
    (keep : IsKept around session.envelope I J) where
  -- A phase without a descriptor.
  pub append_plain :
      (phase : HandoffPhase) (s : HandoffState W)
      → IsShaped phase none none
      → I s
      → After I J
          (λ _ t. IsGrown phase none none s.records t)
          (append around session.envelope phase none none s)
  append_plain phase s shaped i = append_lem around session.envelope keep phase none none s shaped i

  pub verify_observation_lem :
      (s : HandoffState W)
      → I s
      → After I J (λ _ t. t.records ≡ s.records) (verify_observation around session s)
  unfolding verify_observation
  verify_observation_lem s i =
      after_bind (observe_bucket_lem around session.envelope keep s i) λ seen t i' same.
        bind_demand keep.calm i' _ _ _ λ state found. bind_fail_if keep.calm i' _ _ _ λ compliant.
          bind_fail_if keep.calm i' _ _ _ λ archived. bind_held keep.calm i' _ (
            bind_demand keep.calm i' _ _ _ λ eo has_envelope.
              bind_demand keep.calm i' _ _ _ λ jo has_journal.
                after_bind (verify_object_lem around session.envelope keep _ _ _ t i')
                  λ _ u j again.
                    after_bind (verify_object_lem around session.envelope keep _ _ _ u j)
                      λ _ v k last. after_pure keep.calm _ k (last ∙ again ∙ same))

  adopt_lem :
      (state : BucketState) (s : HandoffState W)
      → I s
      → After I J
          (λ _ t. reached audit_bucket_created t.records ≡ true)
          (adopt_existing_bucket around session state s)
  unfolding adopt_existing_bucket
  adopt_lem state s i = bind_fail_if keep.calm i _ _ _ λ fits. bind_held keep.calm i _ (
      after_unless keep.calm _ _ i (λ there. there)
        λ absent. after_bind (remote_lem around session.envelope keep _ _ s i) λ matches t i' same.
          bind_fail_if keep.calm i' _ _ _ λ it.
            after_weaken (λ _ u grown. now_reached audit_bucket_created t.records u grown)
              (append_plain audit_bucket_created t (plain_shape audit_bucket_created refl refl refl)
                i'))

  create_lem :
      (s : HandoffState W)
      → I s
      → After I J
          (λ _ t. reached audit_bucket_created t.records ≡ true)
          (create_bucket around session s)
  unfolding create_bucket
  create_lem s i = bind_held keep.calm i _ (
      bind_fail_if keep.calm i _ _ _ λ absent.
        bind_unless keep.calm i {Q = λ _ t. claimed t} _ _ _ (λ there. (there, absent))
          (λ new.
            after_weaken
              (λ _ u grown. (
                now_reached audit_bucket_claimed s.records u grown,
                not_yet audit_bucket_created s.records u grown refl absent,
              ))
              (append_plain audit_bucket_claimed s (plain_shape audit_bucket_claimed refl refl refl)
                i))
          λ t i' due.
            after_bind (authorize_lem around session.envelope keep t i') λ _ u j (same, timely).
              after_bind
                (after_mutate around session.envelope keep create_audit_bucket _ u
                  (
                    subst (λ rs. IsDue create_audit_bucket session.envelope rs) (sym same) due,
                    timely,
                  )
                  j)
                λ _ v k seen.
                  after_bind (observe_bucket_lem around session.envelope keep v k)
                    λ found w l again. bind_demand keep.calm l _ _ _ λ state it.
                      bind_fail_if keep.calm l _ _ _ λ fits.
                        after_weaken
                          (λ _ x grown. now_reached audit_bucket_created w.records x grown)
                          (append_plain audit_bucket_created w
                            (plain_shape audit_bucket_created refl refl refl) l))
    where
      claimed : HandoffState W → Type 0
      claimed t = IsDue create_audit_bucket session.envelope t.records

  pub ensure_bucket_lem :
      (s : HandoffState W)
      → I s
      → After I J
          (λ _ t. reached audit_bucket_created t.records ≡ true)
          (ensure_bucket around session s)
  unfolding ensure_bucket
  ensure_bucket_lem s i =
      after_bind (observe_bucket_lem around session.envelope keep s i)
        λ seen t i' same. bucket_lem seen t i'
    where
      bucket_lem :
          (seen : Option BucketState) (t : HandoffState W)
          → I t
          → After I J
              (λ _ u. reached audit_bucket_created u.records ≡ true)
              (bucket_or_create around session seen t)
      bucket_lem none t i' = create_lem t i'
      bucket_lem (some state) t i' = adopt_lem state t i'

  -- What an upload asks for, and that it ends with a generation other than zero.
  upload_ends_lem :
      (name content : List ℕ) (result : Result PortError ObjectDescriptor) (s : HandoffState W)
      → I s
      → After I J
          (λ d t. (t.records ≡ s.records) × (lacks_generation (some d) ≡ false))
          (upload_ends around session name content result s)
  unfolding upload_ends
  upload_ends_lem name content (ok d) s i =
      bind_fail_if keep.calm i _ _ _
        λ match. after_pure keep.calm _ i (refl, with_generation around d content match)
  upload_ends_lem name content (err (failure e)) s i =
      after_require keep.calm _ i λ a e. absurd (not_ok e)
    where
      not_ok :
          {A : Type 0} {e : HandoffError} {a : A}
          → ◌≡◌ {A = Result HandoffError A} (err e) (ok a)
          → ⊥
      not_ok h = cc
  upload_ends_lem name content (err precondition) s i =
      after_bind (remote_lem around session.envelope keep name content s i) λ matches t j same.
        bind_fail_if keep.calm j _ _ _ λ it.
          after_bind (after_observe keep.calm _ t j) λ seen u k again.
            bind_demand keep.calm k _ _ _ λ d found. bind_fail_if keep.calm k _ _ _ λ match.
              after_pure keep.calm _ k (again.0 ∙ same, with_generation around d content match)

  pub upload_lem :
      (name content : List ℕ) (s : HandoffState W)
      → IsDue (upload_create_only name content) session.envelope s.records
      → I s
      → After I J
          (λ d t. (t.records ≡ s.records) × (lacks_generation (some d) ≡ false))
          (upload_create_only_object around session name content s)
  unfolding upload_create_only_object
  upload_lem name content s due i =
      after_bind (authorize_lem around session.envelope keep s i) λ _ t j (same, timely).
        after_bind
          (after_attempt around session.envelope keep (upload_create_only name content) _ t
            (
              subst (λ rs. IsDue (upload_create_only name content) session.envelope rs) (sym same)
                  due,
              timely,
            )
            j)
          λ result u k again.
            after_weaken (λ d v (later, generation). (later ∙ again.0 ∙ same, generation))
              (upload_ends_lem name content result u k)
