-- ===== src/Control/Handoff/Walk/Locked.antt =====
-- `LockRetention` of internal/control/handoff.go keeps what its steps keep, and locks the bucket only
-- after its claim is recorded.
use ctrldb.Prelude.{refl, sym, subst, ◌∙◌, ◌≡◌, false, Bool, true, none}
use ctrldb.Control.Handoff.Step.{
  configure_retention, lock_retention, Surroundings, HandoffState, Step, proceed, held, unless,
  ◌>>=◌,
}
use ctrldb.Control.Handoff.Records.{reached}
use ctrldb.Control.Handoff.Lock.{
  resume_locked, set_retention, with_retention, lock_bucket, lock_or_resume,
}
use ctrldb.Control.Handoff.Walk.Bootstrap.{
  append_plain, plain_shape, still, now_reached, verify_observation_lem,
}
use ctrldb.Control.Handoff.Session.{Session}
use ctrldb.Control.Handoff.Session.Steps.{append}
use ctrldb.Control.Handoff.Walk.{IsKept, After, IsDue, after_bind, after_weaken}
use ctrldb.Control.Handoff.Walk.Primitive.{
  bind_fail_if, after_pure, bind_held, after_unless, after_mutate, bind_unless,
}
use ctrldb.Control.Handoff.{
  BucketState, handoff_verified, retention_locked, audit_retention_seconds, retention_configured,
  retention_lock_claimed,
}
use ctrldb.Prelude.Int.{pos}
use ctrldb.Control.Handoff.Walk.Observed.{authorize_lem}

module _ {W : Type 0} (around : Surroundings W) (session : Session) {I J : HandoffState W → Type 0}
    (keep : IsKept around session.envelope I J) where
  resume_lem :
      (state : BucketState) (s : HandoffState W)
      → I s
      → After I J
          (λ _ t. reached retention_locked t.records ≡ true)
          (resume_locked around session state s)
  unfolding resume_locked
  resume_lem state s i = bind_fail_if keep.calm i _ _ _ λ period. bind_held keep.calm i _ (
      bind_fail_if keep.calm i _ _ _ λ claimed.
        after_unless keep.calm _ _ i (λ there. there)
          λ new.
            after_weaken (λ _ u grown. now_reached retention_locked s.records u grown)
              (append_plain around session keep retention_locked s
                (plain_shape retention_locked refl refl refl) i))

  set_lem :
      (state : BucketState) (s : HandoffState W)
      → reached handoff_verified s.records ≡ true
      → I s
      → After I J
          (λ _ t. reached handoff_verified t.records ≡ true)
          (set_retention around session state s)
  unfolding set_retention
  set_lem state s verified i = bind_fail_if keep.calm i _ _ _ λ unset.
      after_bind (authorize_lem around session.envelope keep s i) λ _ t j (same, timely).
        after_bind
          (after_mutate around session.envelope keep (configure_retention audit_retention_seconds) _
            t ((refl, subst (λ rs. reached handoff_verified rs ≡ true) (sym same) verified), timely)
            j)
          λ _ u k again.
            after_bind (verify_observation_lem around session keep u k) λ next v l last.
              bind_fail_if keep.calm l _ _ _ λ converged. after_pure keep.calm _ l (
                subst (λ rs. reached handoff_verified rs ≡ true) (sym (last ∙ again.0 ∙ same))
                  verified)

  with_lem :
      (period : Bool) (state : BucketState) (s : HandoffState W)
      → reached handoff_verified s.records ≡ true
      → I s
      → After I J
          (λ _ t. reached handoff_verified t.records ≡ true)
          (with_retention around period session state s)
  unfolding with_retention
  with_lem true state s verified i = after_pure keep.calm _ i verified
  with_lem false state s verified i = set_lem state s verified i

  -- The two phases that are recorded before the lock.
  claims_lem :
      (s : HandoffState W) {R : Unit {0} → HandoffState W → Type 0}
      (rest : Unit {0} → Step W (Unit {0}))
      → reached handoff_verified s.records ≡ true
      → I s
      → ((t : HandoffState W)
          → I t
          → IsDue (lock_retention (pos 0)) session.envelope t.records
          → After I J R (rest tt t))
      → After I J R (
          proceed (held s) λ records.
            unless
              (reached retention_configured records)
              (append around session.envelope retention_configured none none)
            >>= λ _. held >>= λ later.
                unless
                  (reached retention_lock_claimed later)
                  (append around session.envelope retention_lock_claimed none none)
                >>= rest)
  claims_lem s {R} rest verified i next = bind_held keep.calm i _ (
      bind_unless keep.calm i {Q = λ _ t. configured t} _ _ _ (λ there. (verified, there))
        (λ new.
          after_weaken
            (λ _ u grown. (
              still handoff_verified s.records u grown verified,
              now_reached retention_configured s.records u grown,
            ))
            (append_plain around session keep retention_configured s
              (plain_shape retention_configured refl refl refl) i))
        λ t j (still_verified, set). bind_held keep.calm j _ (
          bind_unless keep.calm j {Q = λ _ u. claimed u} _ _ _
            (λ there. (still_verified, set, there))
            (λ new.
              after_weaken
                (λ _ u grown. (
                  still handoff_verified t.records u grown still_verified,
                  still retention_configured t.records u grown set,
                  now_reached retention_lock_claimed t.records u grown,
                ))
                (append_plain around session keep retention_lock_claimed t
                  (plain_shape retention_lock_claimed refl refl refl) j))
            λ u k due. next u k due))
    where
      configured : HandoffState W → Type 0
      configured t =
          (reached handoff_verified t.records ≡ true)
          × (reached retention_configured t.records ≡ true)

      claimed : HandoffState W → Type 0
      claimed t = IsDue (lock_retention (pos 0)) session.envelope t.records

  lock_bucket_lem :
      (state : BucketState) (s : HandoffState W)
      → reached handoff_verified s.records ≡ true
      → I s
      → After I J
          (λ _ t. reached retention_locked t.records ≡ true)
          (lock_bucket around session state s)
  unfolding lock_bucket
  lock_bucket_lem seen s verified i =
      after_bind (with_lem _ seen s verified i) λ state t j still_verified.
        claims_lem t _ still_verified j λ u k due.
          after_bind (authorize_lem around session.envelope keep u k) λ _ v l (same, timely).
            after_bind
              (after_mutate around session.envelope keep (lock_retention state.metageneration) _ v
                (
                  subst (λ rs. IsDue (lock_retention (pos 0)) session.envelope rs) (sym same) due,
                  timely,
                )
                l)
              λ _ w m again.
                after_bind (verify_observation_lem around session keep w m) λ last x n later.
                  bind_fail_if keep.calm n _ _ _ λ locked.
                    after_weaken (λ _ y grown. now_reached retention_locked x.records y grown)
                      (append_plain around session keep retention_locked x
                        (plain_shape retention_locked refl refl refl) n)

  -- `LockRetention` on a verified handoff ends with a recorded lock, or with an error.
  pub lock_or_resume_lem :
      (locked : Bool) (state : BucketState) (s : HandoffState W)
      → reached handoff_verified s.records ≡ true
      → I s
      → After I J
          (λ _ t. reached retention_locked t.records ≡ true)
          (lock_or_resume around locked session state s)
  unfolding lock_or_resume
  lock_or_resume_lem true state s verified i = resume_lem state s i
  lock_or_resume_lem false state s verified i = lock_bucket_lem state s verified i
