-- ===== src/Control/Handoff/Walk/Built.antt =====
-- The whole of `Bootstrap`, and the opening of a session, of internal/control/handoff.go keep what
-- their steps keep.
use ctrldb.Control.Handoff.Walk.Bootstrap.{
  upload_lem, ensure_bucket_lem, plain_shape, append_plain, still, now_reached,
  verify_observation_lem,
}
use ctrldb.Prelude.{refl, sym, subst, ◌∙◌, ◌≡◌, ok, inl, inr, true, false, some, none, Bool}
use ctrldb.Control.Handoff.Step.{configure_archive_lifecycle, Surroundings, HandoffState}
use ctrldb.Control.Handoff.Records.{reached}
use ctrldb.Control.Handoff.Session.{Session}
use ctrldb.Control.Handoff.Walk.{IsKept, After, after_bind, after_weaken, IsDue}
use ctrldb.Control.Handoff.Walk.Primitive.{
  bind_held, bind_unless, after_unless, bind_demand, bind_fail_if, after_mutate, after_pure,
}
use ctrldb.Control.Handoff.{
  audit_bucket_created, journal_uploaded, handoff_verified, envelope_uploaded, lifecycle_configured,
}
use ctrldb.Control.Handoff.Bootstrap.{
  upload_envelope, upload_journal, ensure_uploads, configure_lifecycle, ensure_lifecycle, verify,
  build, build_or_verify,
}
use ctrldb.Control.Handoff.Walk.Session.{append_lem}
use ctrldb.Control.Handoff.Walk.Observed.{observe_bucket_lem, authorize_lem}

-- A session whose envelope text is that of its envelope.
abbrev pub IsOpen : Session → Type 0
IsOpen session = session.envelope.canonical_json ≡ ok session.envelope_json

module _ {W : Type 0} (around : Surroundings W) (session : Session) (is_open : IsOpen session)
    {I J : HandoffState W → Type 0} (keep : IsKept around session.envelope I J) where
  upload_envelope_lem :
      (s : HandoffState W)
      → reached audit_bucket_created s.records ≡ true
      → reached envelope_uploaded s.records ≡ false
      → I s
      → After I J
          (λ _ t.
            (reached audit_bucket_created t.records ≡ true)
            × (reached envelope_uploaded t.records ≡ true))
          (upload_envelope around session s)
  unfolding upload_envelope
  upload_envelope_lem s created new i =
      after_bind
        (upload_lem around session keep session.envelope_name session.envelope_json s
          (created, inl (is_open, new)) i)
        λ d t j (same, generation).
          after_weaken
            (λ _ u grown. (
              still audit_bucket_created t.records u grown
                  (subst (λ rs. reached audit_bucket_created rs ≡ true) (sym same) created),
              now_reached envelope_uploaded t.records u grown,
            ))
            (append_lem around session.envelope keep envelope_uploaded (some d) none t
              (refl, refl, refl, generation, refl) j)

  upload_journal_lem :
      (s : HandoffState W)
      → reached audit_bucket_created s.records ≡ true
      → reached envelope_uploaded s.records ≡ true
      → reached journal_uploaded s.records ≡ false
      → I s
      → After I J
          (λ _ t. reached journal_uploaded t.records ≡ true)
          (upload_journal around session s)
  unfolding upload_journal
  upload_journal_lem s created uploaded new i =
      after_bind
        (upload_lem around session keep session.envelope.first_journal_object_name
          session.envelope.first_journal_entry_json s (created, inr (refl, refl, uploaded, new)) i)
        λ d t j (same, generation).
          after_weaken (λ _ u grown. now_reached journal_uploaded t.records u grown)
            (append_lem around session.envelope keep journal_uploaded none (some d) t
              (refl, refl, refl, refl, generation) j)

  ensure_uploads_lem :
      (s : HandoffState W)
      → reached audit_bucket_created s.records ≡ true
      → I s
      → After I J
          (λ _ t. reached journal_uploaded t.records ≡ true)
          (ensure_uploads around session s)
  unfolding ensure_uploads
  ensure_uploads_lem s created i = bind_held keep.calm i _ (
      bind_unless keep.calm i {Q = λ _ t. uploaded t} _ _ _ (λ there. (created, there))
        (λ new. upload_envelope_lem s created new i)
        λ t j (still_created, envelope_there). bind_held keep.calm j _ (
          after_unless keep.calm _ _ j (λ there. there)
            λ new. upload_journal_lem t still_created envelope_there new j))
    where
      uploaded : HandoffState W → Type 0
      uploaded t =
          (reached audit_bucket_created t.records ≡ true)
          × (reached envelope_uploaded t.records ≡ true)

  configure_lifecycle_lem :
      (s : HandoffState W)
      → reached journal_uploaded s.records ≡ true
      → reached lifecycle_configured s.records ≡ false
      → I s
      → After I J (λ _ t. Unit {0}) (configure_lifecycle around session s)
  unfolding configure_lifecycle
  configure_lifecycle_lem s uploaded new i =
      after_bind (observe_bucket_lem around session.envelope keep s i) λ seen t j same.
        bind_demand keep.calm j _ _ _ λ state found. bind_fail_if keep.calm j _ _ _ λ fits.
          bind_unless keep.calm j {Q = λ _ _. Unit {0}} _ _ _ (λ _. tt)
            (λ archive.
              after_bind (authorize_lem around session.envelope keep t j) λ _ u k (again, timely).
                after_weaken (λ _ _ _. tt)
                  (after_mutate around session.envelope keep configure_archive_lifecycle _ u
                    (
                      subst (λ rs. IsDue configure_archive_lifecycle session.envelope rs)
                          (sym (again ∙ same)) (uploaded, new),
                      timely,
                    )
                    k))
            λ u k _.
              after_weaken (λ _ _ _. tt)
                (append_plain around session keep lifecycle_configured u
                  (plain_shape lifecycle_configured refl refl refl) k)

  ensure_lifecycle_lem :
      (s : HandoffState W)
      → reached journal_uploaded s.records ≡ true
      → I s
      → After I J (λ _ t. Unit {0}) (ensure_lifecycle around session s)
  unfolding ensure_lifecycle
  ensure_lifecycle_lem s uploaded i =
      bind_held keep.calm i _
        (after_unless keep.calm _ _ i (λ _. tt) λ new. configure_lifecycle_lem s uploaded new i)

  verify_lem :
      (s : HandoffState W)
      → I s
      → After I J (λ _ t. reached handoff_verified t.records ≡ true) (verify around session s)
  unfolding verify
  verify_lem s i = after_bind (verify_observation_lem around session keep s i) λ _ t j _.
      after_weaken (λ _ u grown. now_reached handoff_verified t.records u grown)
        (append_plain around session keep handoff_verified t
          (plain_shape handoff_verified refl refl refl) j)

  build_lem :
      (s : HandoffState W)
      → I s
      → After I J (λ _ t. reached handoff_verified t.records ≡ true) (build around session s)
  unfolding build
  build_lem s i = after_bind (ensure_bucket_lem around session keep s i) λ _ t j created.
      after_bind (ensure_uploads_lem t created j)
        λ _ u k uploaded. after_bind (ensure_lifecycle_lem u uploaded k) λ _ v l _. verify_lem v l

  -- `Bootstrap` in an open session ends with a verified handoff, or with an error.
  pub build_or_verify_lem :
      (verified : Bool) (s : HandoffState W)
      → reached handoff_verified s.records ≡ verified
      → I s
      → After I J
          (λ _ t. reached handoff_verified t.records ≡ true)
          (build_or_verify around verified session s)
  unfolding build_or_verify
  build_or_verify_lem true s there i =
      after_bind (verify_observation_lem around session keep s i) λ _ t j same.
        after_pure keep.calm _ j (subst (λ rs. reached handoff_verified rs ≡ true) (sym same) there)
  build_or_verify_lem false s new i = build_lem s i
