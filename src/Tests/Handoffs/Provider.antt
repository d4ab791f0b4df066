-- ===== src/Tests/Handoffs/Provider.antt =====
-- A small world for internal/control/handoff.go: a clock, a bucket and its objects.
use ctrldb.Control.Handoff.{
  BootstrapEnvelope, BucketIdentity, BucketState, PortError, failure, precondition,
}
use ctrldb.Control.Store.{ObjectDescriptor, StoredObject}
use ctrldb.Control.Handoff.Step.{AuditBucketPort}
use ctrldb.Prelude.{
  none, some, true, ok, err, false, [], ◌∷◌, Option, ◌+◌, ℕ, String, List, Result, length,
}
use ctrldb.Prelude.Int.{pos}
use ctrldb.Domain.Time.{Time, zero_instant}
use ctrldb.Control.Bytes.{find, write}

-- A clock that stands still, a bucket that may exist, and its objects.
pub record World : Type 0 where
  pub bucket : Option BucketState
  pub objects : List (List ℕ × StoredObject)

abbrev pub now : Time
now = record { instant = zero_instant + 100; offset = 0 }

abbrev pub at : ℕ → Time
at n = record { instant = zero_instant + n; offset = 0 }

abbrev pub digest_text : String
digest_text = "0123456789abcdef0123456789abcdef0123456789abcdef0123456789abcdef"

abbrev pub sealed_envelope : BootstrapEnvelope
sealed_envelope = record {
  sha256 = digest_text;
  operation_id = "op-0123456789abcdef";
  environment = "test";
  project = "p";
  audit_bucket = "audit";
  audit_bucket_location = "l";
  approved_at = at 50;
  valid_until = at 200;
  created_at = at 10;
  expires_at = at 300;
  canonical_json = ok (1 ∷ 2 ∷ []);
  first_journal_object_name = 9 ∷ [];
  first_journal_entry_json = 3 ∷ [];
}

abbrev pub fresh_bucket : BucketIdentity → BucketState
fresh_bucket identity = record {
  identity = identity;
  uniform_bucket_level_access = true;
  public_access_prevention = "enforced";
  storage_class = "STANDARD";
  versioning = true;
  retention_seconds = pos 0;
  retention_locked = false;
  lifecycle_archive_after_day = pos 0;
  lifecycle_delete_rule = false;
  soft_delete_seconds = pos 0;
  metageneration = pos 1;
  time_created = now;
}

abbrev pub described : List ℕ → ObjectDescriptor
described content = record { generation = 1; size = pos (length content); crc32c = 0 }

abbrev on_bucket : (BucketState → BucketState) → World → Result PortError (Unit {0}) × World
on_bucket f w = elim w.bucket [
  | none ↦ (err (failure "absent"), w)
  | some state ↦ (ok tt, record w { bucket = some (f state) })
]

abbrev upload : List ℕ → List ℕ → World → Result PortError ObjectDescriptor × World
upload name content w = elim (find name w.objects) [
  | some _ ↦ (err precondition, w)
  | none ↦ (
    ok (described content),
    record w {
      objects = write name (record { descriptor = described content; content = content }) w.objects;
    },
  )
]

abbrev descriptor_of : Option StoredObject → Option ObjectDescriptor
descriptor_of none = none
descriptor_of (some o) = some o.descriptor

abbrev contents_of : Option StoredObject → Option (List ℕ × ObjectDescriptor)
contents_of none = none
contents_of (some o) = some (o.content, o.descriptor)

abbrev pub small_provider : AuditBucketPort World
small_provider = record {
  describe_bucket = λ name w. (ok w.bucket, w);
  create_audit_bucket = λ identity w. (ok tt, record w { bucket = some (fresh_bucket identity) });
  configure_archive_lifecycle =
      λ identity w. on_bucket (λ s. record s { lifecycle_archive_after_day = pos 365 }) w;
  upload_create_only = λ identity name content w. upload name content w;
  describe_object = λ identity name w. (ok (descriptor_of (find name w.objects)), w);
  configure_retention =
      λ identity seconds w. on_bucket (λ s. record s { retention_seconds = seconds }) w;
  read_object = λ identity name w. (ok (contents_of (find name w.objects)), w);
  lock_retention =
      λ identity metageneration w. on_bucket (λ s. record s { retention_locked = true }) w;
}
