-- ===== src/Control/Handoff/Lock.antt =====
-- `AuditHandoff.LockRetention` of internal/control/handoff.go: the retention of the verified audit
-- bucket is set, and then locked for good.
use ctrldb.Prelude.{true, false, not, ◌||◌, Bool, none}
use ctrldb.Control.Handoff.Step.{
  mutate, Surroundings, Step, fail_if, pure, held, configure_retention, unless, lock_retention,
  ◌>>=◌, ◌>>◌,
}
use ctrldb.Control.Handoff.Session.{Session}
use ctrldb.Control.Handoff.Session.Steps.{append, authorize_mutation, open_session}
use ctrldb.Control.Handoff.Bootstrap.{verify_observation, report}
use ctrldb.Control.Handoff.Records.{reached}
use ctrldb.Control.Handoff.{
  BucketState, BootstrapEnvelope, audit_retention_seconds, HandoffStatus, partial_bootstrap_blocked,
  retention_lock_claimed, handoff_verified, retention_locked, audit_identity, retention_configured,
  handoff_out_of_order, invalid_handoff_port,
}
use ctrldb.Prelude.Int.{eqb_ℤ, pos}
use ctrldb.Control.Store.{Context}

module _ {W : Type 0} (around : Surroundings W) where
  open around use {provider}

  -- `LockRetention` where the bucket is seen locked.
  unfoldable pub resume_locked : Session → BucketState → Step W (Unit {0})
  unfolding reached append
  resume_locked session state = do
    fail_if (not (eqb_ℤ state.retention_seconds audit_retention_seconds)) partial_bootstrap_blocked
    records ← held
    fail_if (not (reached retention_lock_claimed records)) partial_bootstrap_blocked
    unless (reached retention_locked records)
        (append around session.envelope retention_locked none none)

  -- `LockRetention` where the period is not set: it is, and the bucket is observed again.
  unfoldable pub set_retention : Session → BucketState → Step W BucketState
  unfolding authorize_mutation verify_observation
  set_retention session state = do
    fail_if (not (eqb_ℤ state.retention_seconds (pos 0))) partial_bootstrap_blocked
    authorize_mutation around session.envelope
    mutate session.envelope (configure_retention audit_retention_seconds)
        (provider.configure_retention (audit_identity session.envelope) audit_retention_seconds)
    next ← verify_observation around session
    fail_if (not (eqb_ℤ next.retention_seconds audit_retention_seconds) || next.retention_locked)
        invalid_handoff_port
    pure next

  unfoldable pub with_retention : Bool → Session → BucketState → Step W BucketState
  unfolding set_retention
  with_retention true session state = pure state
  with_retention false session state = set_retention session state

  -- `LockRetention` where the bucket is not locked: the claims, the lock and its observation.
  unfoldable pub lock_bucket : Session → BucketState → Step W (Unit {0})
  unfolding with_retention reached append authorize_mutation verify_observation
  lock_bucket session seen = do
    state ← with_retention (eqb_ℤ seen.retention_seconds audit_retention_seconds) session seen
    records ← held
    unless (reached retention_configured records)
        (append around session.envelope retention_configured none none)
    later ← held
    unless (reached retention_lock_claimed later)
        (append around session.envelope retention_lock_claimed none none)
    authorize_mutation around session.envelope
    mutate session.envelope (lock_retention state.metageneration)
        (provider.lock_retention (audit_identity session.envelope) state.metageneration)
    last ← verify_observation around session
    fail_if
        (not last.retention_locked || not (eqb_ℤ last.retention_seconds audit_retention_seconds))
        invalid_handoff_port
    append around session.envelope retention_locked none none

  unfoldable pub lock_or_resume : Bool → Session → BucketState → Step W (Unit {0})
  unfolding resume_locked lock_bucket
  lock_or_resume true session state = resume_locked session state
  lock_or_resume false session state = lock_bucket session state

  -- `LockRetention`
  unfoldable pub lock_audit_retention : Context → BootstrapEnvelope → Step W HandoffStatus
  unfolding open_session reached verify_observation lock_or_resume report
  lock_audit_retention ctx envelope = do
    session ← open_session around ctx envelope
    records ← held
    fail_if (not (reached handoff_verified records)) handoff_out_of_order
    state ← verify_observation around session
    lock_or_resume state.retention_locked session state
    report session
