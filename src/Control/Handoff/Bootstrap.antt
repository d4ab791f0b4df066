-- ===== src/Control/Handoff/Bootstrap.antt =====
-- `AuditHandoff.Bootstrap` of internal/control/handoff.go: the audit bucket, the two uploads, the
-- lifecycle and the verification, each made or resumed.
use ctrldb.Prelude.{ℕ, true, false, Option, Result, List, none, some, ok, err, not, Bool}
use ctrldb.Control.Handoff.Session.{
  status, Session, is_not_pre_lock, is_noncompliant, envelope_of, journal_of,
}
use ctrldb.Control.Handoff.Session.Steps.{
  append, authorize_mutation, describe_bucket, remote_object_matches, verify_object, open_session,
  load,
}
use ctrldb.Control.Handoff.Step.{
  Surroundings, Step, held, fail_if, unless, mutate, create_audit_bucket, demand, pure, attempt,
  require, upload_create_only, configure_archive_lifecycle, observe, ◌>>=◌, ◌>>◌,
}
use ctrldb.Control.Store.{matches_content, Context, ObjectDescriptor}
use ctrldb.Control.Handoff.Records.{reached, recorded}
use ctrldb.Control.Handoff.{
  BucketState, PortError, partial_bootstrap_blocked, audit_bucket_created, failure,
  audit_bucket_claimed, precondition, audit_identity, invalid_handoff_port, envelope_uploaded,
  journal_uploaded, lifecycle_configured, handoff_verified, HandoffStatus, BootstrapEnvelope,
  audit_archive_after_days, port, handoff_out_of_order,
}
use ctrldb.Prelude.Int.{eqb_ℤ}

-- `session.status()`
unfoldable pub report : {W : Type 0} → Session → Step W HandoffStatus
unfolding status
report session = do records ← held; pure (status session.envelope records)

module _ {W : Type 0} (around : Surroundings W) where
  open around use {provider, checksum}

  -- `adoptExistingBucket`
  unfoldable pub adopt_existing_bucket : Session → BucketState → Step W (Unit {0})
  unfolding is_not_pre_lock reached remote_object_matches append
  adopt_existing_bucket session state = do
    fail_if (is_not_pre_lock session.envelope state) partial_bootstrap_blocked
    records ← held
    unless (reached audit_bucket_created records) (do
      matches ←
          remote_object_matches around session.envelope session.envelope_name session.envelope_json
      fail_if (not matches) partial_bootstrap_blocked
      append around session.envelope audit_bucket_created none none)

  -- `ensureBucket` where the bucket does not exist yet.
  unfoldable pub create_bucket : Session → Step W (Unit {0})
  unfolding is_not_pre_lock reached append authorize_mutation
  create_bucket session = do
    records ← held
    fail_if (reached audit_bucket_created records) partial_bootstrap_blocked
    unless (reached audit_bucket_claimed records)
        (append around session.envelope audit_bucket_claimed none none)
    authorize_mutation around session.envelope
    mutate session.envelope create_audit_bucket
        (provider.create_audit_bucket (audit_identity session.envelope))
    seen ← describe_bucket around session.envelope
    state ← demand seen invalid_handoff_port
    fail_if (is_not_pre_lock session.envelope state) partial_bootstrap_blocked
    append around session.envelope audit_bucket_created none none

  abbrev pub bucket_or_create : Session → Option BucketState → Step W (Unit {0})
  bucket_or_create session none = create_bucket session
  bucket_or_create session (some state) = adopt_existing_bucket session state

  -- `ensureBucket`
  unfoldable pub ensure_bucket : Session → Step W (Unit {0})
  unfolding create_bucket adopt_existing_bucket
  ensure_bucket session = do
    seen ← describe_bucket around session.envelope
    bucket_or_create session seen

  -- `err == nil`, another error, or `errors.Is(err, ErrPreconditionFailed)`.
  unfoldable pub upload_ends :
      Session → List ℕ → List ℕ → Result PortError ObjectDescriptor → Step W ObjectDescriptor
  unfolding matches_content remote_object_matches
  upload_ends session name content (ok descriptor) = do
    fail_if (not (matches_content checksum descriptor content)) invalid_handoff_port
    pure descriptor
  upload_ends session name content (err (failure e)) = require (err (port (failure e)))
  upload_ends session name content (err precondition) = do
    matches ← remote_object_matches around session.envelope name content
    fail_if (not matches) partial_bootstrap_blocked
    seen ← observe (provider.describe_object (audit_identity session.envelope) name)
    existing ← demand seen partial_bootstrap_blocked
    fail_if (not (matches_content checksum existing content)) partial_bootstrap_blocked
    pure existing

  -- `uploadCreateOnly`
  unfoldable pub upload_create_only_object : Session → List ℕ → List ℕ → Step W ObjectDescriptor
  unfolding authorize_mutation upload_ends
  upload_create_only_object session name content = do
    authorize_mutation around session.envelope
    result ←
        attempt session.envelope (upload_create_only name content)
          (provider.upload_create_only (audit_identity session.envelope) name content)
    upload_ends session name content result

  -- `ensureUploads`, first half
  unfoldable pub upload_envelope : Session → Step W (Unit {0})
  unfolding upload_create_only_object append
  upload_envelope session = do
    descriptor ← upload_create_only_object session session.envelope_name session.envelope_json
    append around session.envelope envelope_uploaded (some descriptor) none

  -- `ensureUploads`, second half
  unfoldable pub upload_journal : Session → Step W (Unit {0})
  unfolding upload_create_only_object append
  upload_journal session = do
    descriptor ←
        upload_create_only_object session session.envelope.first_journal_object_name
          session.envelope.first_journal_entry_json
    append around session.envelope journal_uploaded none (some descriptor)

  -- `ensureUploads`
  unfoldable pub ensure_uploads : Session → Step W (Unit {0})
  unfolding reached upload_envelope upload_journal
  ensure_uploads session = do
    records ← held
    unless (reached envelope_uploaded records) (upload_envelope session)
    later ← held
    unless (reached journal_uploaded later) (upload_journal session)

  -- `ensureLifecycle` where it is not recorded yet.
  unfoldable pub configure_lifecycle : Session → Step W (Unit {0})
  unfolding is_not_pre_lock authorize_mutation append
  configure_lifecycle session = do
    seen ← describe_bucket around session.envelope
    state ← demand seen partial_bootstrap_blocked
    fail_if (is_not_pre_lock session.envelope state) partial_bootstrap_blocked
    unless (eqb_ℤ state.lifecycle_archive_after_day audit_archive_after_days) (do
      authorize_mutation around session.envelope
      mutate session.envelope configure_archive_lifecycle
          (provider.configure_archive_lifecycle (audit_identity session.envelope)))
    append around session.envelope lifecycle_configured none none

  -- `ensureLifecycle`
  unfoldable pub ensure_lifecycle : Session → Step W (Unit {0})
  unfolding reached configure_lifecycle
  ensure_lifecycle session = do
    records ← held
    unless (reached lifecycle_configured records) (configure_lifecycle session)

  -- `verifyObservation`
  unfoldable pub verify_observation : Session → Step W BucketState
  unfolding is_noncompliant recorded verify_object
  verify_observation session = do
    seen ← describe_bucket around session.envelope
    state ← demand seen partial_bootstrap_blocked
    fail_if (is_noncompliant session.envelope state) partial_bootstrap_blocked
    fail_if (not (eqb_ℤ state.lifecycle_archive_after_day audit_archive_after_days))
        partial_bootstrap_blocked
    records ← held
    envelope_object ← demand (envelope_of (recorded envelope_uploaded records)) handoff_out_of_order
    journal_object ← demand (journal_of (recorded journal_uploaded records)) handoff_out_of_order
    verify_object around session.envelope session.envelope_name session.envelope_json
        envelope_object
    verify_object around session.envelope session.envelope.first_journal_object_name
        session.envelope.first_journal_entry_json journal_object
    pure state

  -- `verify`
  unfoldable pub verify : Session → Step W (Unit {0})
  unfolding verify_observation append
  verify session = do
    _ ← verify_observation session
    append around session.envelope handoff_verified none none

  -- The body of `Bootstrap` where the handoff is not verified yet.
  unfoldable pub build : Session → Step W (Unit {0})
  unfolding ensure_bucket ensure_uploads ensure_lifecycle verify
  build session = do
    ensure_bucket session
    ensure_uploads session
    ensure_lifecycle session
    verify session

  -- `Bootstrap` in an open session: a verified handoff is only observed again.
  unfoldable pub build_or_verify : Bool → Session → Step W (Unit {0})
  unfolding verify_observation build
  build_or_verify true session = verify_observation session >>= λ _. pure tt
  build_or_verify false session = build session

  -- `Bootstrap`
  unfoldable pub bootstrap : Context → BootstrapEnvelope → Step W HandoffStatus
  unfolding open_session reached build_or_verify report
  bootstrap ctx envelope = do
    session ← open_session around ctx envelope
    records ← held
    build_or_verify (reached handoff_verified records) session
    report session

  -- `Status`
  unfoldable pub handoff_status : BootstrapEnvelope → Step W HandoffStatus
  unfolding load report
  handoff_status envelope = do session ← load around envelope; report session
