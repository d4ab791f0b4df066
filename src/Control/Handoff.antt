-- ===== src/Control/Handoff.antt =====
-- The values of internal/control/handoff.go, and of envelope.go what the handoff reads of a sealed
-- envelope.
pub mod Step
pub mod Records
pub mod Session
pub mod Bootstrap
pub mod Lock
pub mod Walk
pub mod Runs
pub mod Chain
pub mod Durable
use ctrldb.Prelude.{
  ℕ, String, Bool, List, Option, Result, err, str_eq, ◌&&◌, ◌||◌, not, reject_if, ◌*◌, ◌==◌,
  if◌then◌else◌,
}
use ctrldb.Prelude.Int.{ℤ, pos, negsuc}
use ctrldb.Domain.Time.{Time, is_zero, before}
use ctrldb.Control.Store.{ObjectDescriptor, StoreError}

pub data HandoffPhase : Type 0 where
  envelope_sealed audit_bucket_claimed audit_bucket_created envelope_uploaded : HandoffPhase
  journal_uploaded lifecycle_configured handoff_verified retention_configured : HandoffPhase
  retention_lock_claimed retention_locked control_bucket_claimed : HandoffPhase
  control_bucket_created : HandoffPhase
  other : String → HandoffPhase

abbrev pub phase_text : HandoffPhase → String
phase_text envelope_sealed = "envelope-sealed"
phase_text audit_bucket_claimed = "audit-bucket-create-claimed"
phase_text audit_bucket_created = "audit-bucket-created"
phase_text envelope_uploaded = "envelope-uploaded"
phase_text journal_uploaded = "journal-uploaded"
phase_text lifecycle_configured = "lifecycle-configured"
phase_text handoff_verified = "handoff-verified"
phase_text retention_configured = "retention-configured"
phase_text retention_lock_claimed = "retention-lock-claimed"
phase_text retention_locked = "retention-locked"
phase_text control_bucket_claimed = "control-bucket-create-claimed"
phase_text control_bucket_created = "control-bucket-created"
phase_text (other s) = s

-- `==` on phases.
abbrev pub phase_eq : HandoffPhase → HandoffPhase → Bool
phase_eq p q = str_eq (phase_text p) (phase_text q)

abbrev pub phase_order_unknown : ℤ
phase_order_unknown = negsuc 0

-- `order`: the index in `handoffPhaseOrder`.
abbrev pub order : HandoffPhase → ℤ
order envelope_sealed = pos 0
order audit_bucket_claimed = pos 1
order audit_bucket_created = pos 2
order envelope_uploaded = pos 3
order journal_uploaded = pos 4
order lifecycle_configured = pos 5
order handoff_verified = pos 6
order retention_configured = pos 7
order retention_lock_claimed = pos 8
order retention_locked = pos 9
order control_bucket_claimed = pos 10
order control_bucket_created = pos 11
order (other s) = phase_order_unknown

-- `AuditRetentionSeconds` and `AuditArchiveAfterDays`
abbrev pub audit_retention_seconds : ℤ
audit_retention_seconds = pos (365 * 24 * 60 * 60)

abbrev pub audit_archive_after_days : ℤ
audit_archive_after_days = pos 365

pub record BucketIdentity : Type 0 where
  pub name : String
  pub project : String
  pub location : String

-- `==` on identities.
abbrev pub same_identity : BucketIdentity → BucketIdentity → Bool
same_identity a b =
    str_eq a.name b.name && (str_eq a.project b.project && str_eq a.location b.location)

pub record BucketState : Type 0 where
  pub identity : BucketIdentity
  pub uniform_bucket_level_access : Bool
  pub public_access_prevention : String
  pub storage_class : String
  pub versioning : Bool
  pub retention_seconds : ℤ
  pub retention_locked : Bool
  pub lifecycle_archive_after_day : ℤ
  pub lifecycle_delete_rule : Bool
  pub soft_delete_seconds : ℤ
  pub metageneration : ℤ
  pub time_created : Time

-- `HandoffRecordV1`
pub record HandoffRecord : Type 0 where
  pub schema : String
  pub operation_id : String
  pub envelope_sha256 : String
  pub sequence : ℕ
  pub phase : HandoffPhase
  pub recorded_at : Time
  pub bucket : BucketIdentity
  pub envelope : Option ObjectDescriptor
  pub journal : Option ObjectDescriptor
  pub record_sha256 : String

pub record HandoffStatus : Type 0 where
  pub phase : HandoffPhase
  pub envelope_sha256 : String
  pub envelope : ObjectDescriptor
  pub journal : ObjectDescriptor
  pub retention_locked : Bool

-- How a call of the provider fails: `errors.Is(err, ErrPreconditionFailed)`, or otherwise.
pub data PortError : Type 0 where
  precondition : PortError
  failure : String → PortError

pub data HandoffError : Type 0 where
  invalid_envelope envelope_expired invalid_handoff_record invalid_handoff_port : HandoffError
  partial_bootstrap_blocked handoff_out_of_order : HandoffError
  invalid_state_directory invalid_state_file state_file_conflict : HandoffError
  store : StoreError → HandoffError
  port : PortError → HandoffError
  envelope_store : String → HandoffError

-- `BootstrapEnvelopeV1` as the handoff reads it: the hash, fields of the payload, the windows of the
-- approval and of the plan, and what `CanonicalJSON` gives.
pub record BootstrapEnvelope : Type 0 where
  pub sha256 : String
  pub operation_id : String
  pub environment : String
  pub project : String
  pub audit_bucket : String
  pub audit_bucket_location : String
  pub approved_at : Time
  pub valid_until : Time
  pub created_at : Time
  pub expires_at : Time
  pub canonical_json : Result HandoffError (List ℕ)
  pub first_journal_object_name : List ℕ
  pub first_journal_entry_json : List ℕ

-- `validUTC`
abbrev pub valid_utc : Time → Bool
valid_utc t = not (is_zero t) && t.offset == 0

-- `validAt`
unfoldable pub valid_at : BootstrapEnvelope → Time → Result HandoffError (Unit {0})
valid_at envelope now =
    if str_eq envelope.sha256 ""
    then err invalid_envelope
    else reject_if
        (not (valid_utc now)
          || (before now envelope.approved_at
              || (not (before now envelope.valid_until)
                  || (before now envelope.created_at || not (before now envelope.expires_at)))))
        envelope_expired

-- The identity of the audit bucket that the envelope approves.
abbrev pub audit_identity : BootstrapEnvelope → BucketIdentity
audit_identity envelope = record {
  name = envelope.audit_bucket;
  project = envelope.project;
  location = envelope.audit_bucket_location;
}

-- An entry of the directory that `handoffPath` names.
pub record File : Type 0 where
  pub name : List ℕ
  pub is_regular : Bool
  pub is_private : Bool
  pub content : List ℕ
