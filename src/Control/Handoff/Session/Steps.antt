-- ===== src/Control/Handoff/Session/Steps.antt =====
-- The steps of `handoffSession` of internal/control/handoff.go: loading, appending a record, the
-- reads of the provider, and the last check of the clock before a mutation.
use ctrldb.Prelude.{
  ℕ, Bool, true, false, List, Option, some, none, Result, ok, err, ◌||◌, not, if◌then◌else◌,
  map_err, codes,
}
use ctrldb.Domain.Time.{Time}
use ctrldb.Control.Bytes.{same_bytes}
use ctrldb.Control.Names.{bootstrap_envelope_object_name, is_operation_text}
use ctrldb.Control.Store.{
  ObjectDescriptor, matches_content, same_descriptor, Context, store_context,
}
use ctrldb.Control.Handoff.{
  HandoffPhase, HandoffError, BootstrapEnvelope, BucketState, File, audit_identity, valid_utc,
  valid_at, invalid_handoff_record, invalid_state_file, invalid_state_directory,
  partial_bootstrap_blocked, envelope_sealed, store,
}
use ctrldb.Control.Handoff.Step.{
  Step, Surroundings, pure, require, fail_if, unless, demand, held, observe, ◌>>=◌, ◌>>◌,
}
use ctrldb.Control.Handoff.Records.{
  reached, recorded, moved_backwards, record_file_name, is_state_file_name, hash_json,
  read_handoff_records,
}
use ctrldb.Control.Handoff.Session.{
  Session, draft, is_behind, private_file, ticked, accessed, write_ends, refuse_name, kept, ensured,
  read_into,
}

module _ {W : Type 0} (around : Surroundings W) where
  open around use {provider, clock, disk_ok, publish, checksum, encode}

  -- `session.handoff.clock().UTC()`
  unfoldable pub read_clock : Step W Time
  read_clock s = ticked (clock s.world) s

  -- The system calls of a read or of a mkdir.
  unfoldable pub access_disk : Step W Bool
  access_disk s = accessed (disk_ok s.world) s

  unfoldable pub publish_file : File → Step W (Unit {0})
  publish_file file s = write_ends file (publish s.world) s

  -- `writePrivateFileExclusive`
  unfoldable pub write_private_file_exclusive : List ℕ → List ℕ → Step W (Unit {0})
  write_private_file_exclusive name content = do
    fail_if (not (is_state_file_name name)) invalid_state_file
    seen ← access_disk
    fail_if (not seen) invalid_state_file
    refuse_name name
    publish_file (private_file name content)

  unfoldable pub load_records : BootstrapEnvelope → Step W (Unit {0})
  unfolding read_handoff_records
  load_records envelope s = read_into (read_handoff_records around s.files envelope) s

  -- `append`
  unfoldable pub append :
      BootstrapEnvelope
      → HandoffPhase
      → Option ObjectDescriptor
      → Option ObjectDescriptor
      → Step W (Unit {0})
  unfolding write_private_file_exclusive record_file_name
  append envelope phase envelope_object journal_object = do
    records ← held
    fail_if (is_behind phase records) invalid_handoff_record
    now ← read_clock
    fail_if (not (valid_utc now) || moved_backwards now records) invalid_handoff_record
    let unhashed = draft envelope records phase envelope_object journal_object now
    digest ← demand (hash_json around unhashed) invalid_handoff_record
    let r = record unhashed { record_sha256 = digest }
    encoded ← demand (encode r) invalid_handoff_record
    made ← access_disk
    fail_if (not made) invalid_state_directory
    write_private_file_exclusive (record_file_name r) encoded
    kept r

  -- `authorizeMutation`
  unfoldable pub authorize_mutation : BootstrapEnvelope → Step W (Unit {0})
  unfolding valid_at
  authorize_mutation envelope = do
    records ← held
    now ← read_clock
    fail_if (moved_backwards now records) invalid_handoff_record
    require (valid_at envelope now)

  -- `port.DescribeBucket` on the session's bucket
  abbrev pub describe_bucket : BootstrapEnvelope → Step W (Option BucketState)
  describe_bucket envelope = observe (provider.describe_bucket envelope.audit_bucket)

  -- `remoteObjectMatches` on what the provider read.
  abbrev matches_read : List ℕ → Option (List ℕ × ObjectDescriptor) → Result HandoffError Bool
  matches_read content none = ok false
  matches_read content (some (remote, descriptor)) =
      if not (matches_content checksum descriptor content) || not (same_bytes remote content)
      then err partial_bootstrap_blocked
      else ok true

  -- `remoteObjectMatches`
  unfoldable pub remote_object_matches : BootstrapEnvelope → List ℕ → List ℕ → Step W Bool
  unfolding matches_content
  remote_object_matches envelope name content = do
    remote ← observe (provider.read_object (audit_identity envelope) name)
    require (matches_read content remote)

  -- The tests of `verifyObject`.
  abbrev is_other_object : List ℕ → ObjectDescriptor → Option ObjectDescriptor → Bool
  is_other_object content recorded none = true
  is_other_object content recorded (some observed) =
      not (same_descriptor observed recorded) || not (matches_content checksum observed content)

  abbrev is_other_content : List ℕ → ObjectDescriptor → Option (List ℕ × ObjectDescriptor) → Bool
  is_other_content content recorded none = true
  is_other_content content recorded (some (remote, descriptor)) =
      not (same_descriptor descriptor recorded) || not (same_bytes remote content)

  -- `verifyObject`
  unfoldable pub verify_object :
      BootstrapEnvelope → List ℕ → List ℕ → ObjectDescriptor → Step W (Unit {0})
  unfolding matches_content
  verify_object envelope name content recorded = do
    observed ← observe (provider.describe_object (audit_identity envelope) name)
    fail_if (is_other_object content recorded observed) partial_bootstrap_blocked
    remote ← observe (provider.read_object (audit_identity envelope) name)
    fail_if (is_other_content content recorded remote) partial_bootstrap_blocked

  -- `load`, with `handoffPath` for a directory that `NewStateDirectory` made. A system call that
  -- fails on one of the files ends the reading as it would end the reading of that file.
  unfoldable pub load : BootstrapEnvelope → Step W Session
  unfolding bootstrap_envelope_object_name read_handoff_records
  load envelope = do
    envelope_json ← require envelope.canonical_json
    envelope_name ← require (
        map_err store (
          bootstrap_envelope_object_name (codes envelope.environment)
            (codes envelope.operation_id)))
    fail_if (not (is_operation_text (codes envelope.operation_id))) invalid_state_directory
    readable ← access_disk
    fail_if (not readable) invalid_state_file
    load_records envelope
    pure (record {
      envelope = envelope;
      envelope_json = envelope_json;
      envelope_name = envelope_name;
    })

  -- `EnsureBootstrapEnvelope`, a parameter
  unfoldable pub ensure_envelope : BootstrapEnvelope → Step W BootstrapEnvelope
  ensure_envelope envelope s = ensured (around.ensure_envelope envelope s.world) s

  -- `open`
  unfoldable pub open_session : Context → BootstrapEnvelope → Step W Session
  unfolding valid_at load append reached
  open_session ctx envelope = do
    require (map_err store (store_context ctx))
    now ← read_clock
    require (valid_at envelope now)
    stored ← ensure_envelope envelope
    session ← load stored
    records ← held
    unless (reached envelope_sealed records) (append stored envelope_sealed none none)
    pure session
