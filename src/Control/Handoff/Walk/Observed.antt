-- ===== src/Control/Handoff/Walk/Observed.antt =====
-- The checks of the clock and the reads of the provider of internal/control/handoff.go keep what the
-- primitive steps keep.
use ctrldb.Prelude.{◌≡◌, subst, sym, false, ◌∙◌, List, ℕ, ok}
use ctrldb.Control.Handoff.Walk.{After, IsKept, after_bind, after_weaken, IsTimely}
use ctrldb.Control.Handoff.Walk.Primitive.{
  bind_fail_if, bind_held, after_clock, after_require, after_observe, after_fail_if,
}
use ctrldb.Control.Handoff.{BootstrapEnvelope, HandoffRecord, valid_at}
use ctrldb.Control.Handoff.Step.{Surroundings, HandoffState}
use ctrldb.Control.Handoff.Records.{moved_backwards}
use ctrldb.Control.Handoff.Session.Steps.{
  authorize_mutation, describe_bucket, remote_object_matches, verify_object,
}
use ctrldb.Control.Store.{ObjectDescriptor}
use ctrldb.Domain.Time.{Time}

module _ {W : Type 0} (around : Surroundings W) (envelope : BootstrapEnvelope)
    {I J : HandoffState W → Type 0} (keep : IsKept around envelope I J) where
  timely_lem :
      (t : HandoffState W) (now : Time) (records : List HandoffRecord)
      → t.sampled ≡ now
      → t.records ≡ records
      → valid_at envelope now ≡ ok tt
      → moved_backwards now records ≡ false
      → IsTimely envelope t.sampled t.records
  timely_lem t now records time same valid timely = (
    subst (λ x. valid_at envelope x ≡ ok tt) (sym time) valid,
    subst (λ x. moved_backwards x t.records ≡ false) (sym time)
        (subst (λ rs. moved_backwards now rs ≡ false) (sym same) timely),
  )

  pub authorize_lem :
      (s : HandoffState W)
      → I s
      → After I J
          (λ _ t. (t.records ≡ s.records) × IsTimely envelope t.sampled t.records)
          (authorize_mutation around envelope s)
  unfolding authorize_mutation
  authorize_lem s i = bind_held keep.calm i _ (
      after_bind (after_clock keep.calm around s i) λ now t i' (same, disk, time).
        bind_fail_if keep.calm i' _ _ _ λ timely.
          after_require keep.calm _ i'
            λ a valid. (same, timely_lem t now s.records time same valid timely))

  pub observe_bucket_lem :
      (s : HandoffState W)
      → I s
      → After I J (λ _ t. t.records ≡ s.records) (describe_bucket around envelope s)
  observe_bucket_lem s i = after_weaken (λ _ t same. same.0) (after_observe keep.calm _ s i)

  pub remote_lem :
      (name content : List ℕ) (s : HandoffState W)
      → I s
      → After I J
          (λ _ t. t.records ≡ s.records)
          (remote_object_matches around envelope name content s)
  unfolding remote_object_matches
  remote_lem name content s i =
      after_bind (after_observe keep.calm _ s i)
        λ remote t i' same. after_require keep.calm _ i' λ a e. same.0

  pub verify_object_lem :
      (name content : List ℕ) (recorded : ObjectDescriptor) (s : HandoffState W)
      → I s
      → After I J
          (λ _ t. t.records ≡ s.records)
          (verify_object around envelope name content recorded s)
  unfolding verify_object
  verify_object_lem name content recorded s i =
      after_bind (after_observe keep.calm _ s i) λ seen t i' same.
        bind_fail_if keep.calm i' _ _ _ λ match.
          after_bind (after_observe keep.calm _ t i') λ remote u i'' again.
            after_weaken (λ _ v same'. same' ∙ again.0 ∙ same.0) (after_fail_if keep.calm _ _ i'')
