-- ===== src/Control/Handoff/Session.antt =====
-- What `handoffSession` of internal/control/handoff.go holds, its status, the record it makes next,
-- and the checks of the bucket that the provider shows.
pub mod Steps
use ctrldb.Prelude.{
  ℕ, Bool, true, false, List, [], ◌∷◌, ◌++◌, Option, some, none, Result, ok, err, ◌&&◌, ◌||◌, not,
  ◌+◌, ◌%◌, ◌^◌, length, str_eq,
}
use ctrldb.Prelude.Int.{leb_ℤ, eqb_ℤ, pos}
use ctrldb.Domain.Time.{Time}
use ctrldb.Control.Bytes.{same_bytes}
use ctrldb.Control.Store.{ObjectDescriptor}
use ctrldb.Control.Handoff.{
  HandoffPhase, HandoffRecord, HandoffStatus, HandoffError, BootstrapEnvelope, BucketState, File,
  audit_identity, order, phase_text, same_identity, invalid_state_file, state_file_conflict,
  envelope_uploaded, journal_uploaded, retention_locked, audit_retention_seconds,
  audit_archive_after_days,
}
use ctrldb.Control.Handoff.Step.{
  Step, HandoffState, Publish, fail_if, published, unsynced, refused, overtaken,
}
use ctrldb.Control.Handoff.Records.{reached, recorded, latest, handoff_record_schema}

-- `handoffSession`, with what it takes of the envelope. Its records are in the state.
pub record Session : Type 0 where
  pub envelope : BootstrapEnvelope
  pub envelope_json : List ℕ
  pub envelope_name : List ℕ

-- `time.Time.UTC`
abbrev pub utc : Time → Time
utc t = record t { offset = 0 }

-- `record.Envelope` and `record.Journal` of a record that may be missing.
abbrev pub envelope_of : Option HandoffRecord → Option ObjectDescriptor
envelope_of none = none
envelope_of (some r) = r.envelope

abbrev pub journal_of : Option HandoffRecord → Option ObjectDescriptor
journal_of none = none
journal_of (some r) = r.journal

abbrev or_zero : Option ObjectDescriptor → ObjectDescriptor
or_zero none = record { generation = 0; size = pos 0; crc32c = 0 }
or_zero (some d) = d

-- `status`
unfoldable pub status : BootstrapEnvelope → List HandoffRecord → HandoffStatus
unfolding reached recorded
status envelope records = record {
  phase = latest records;
  envelope_sha256 = envelope.sha256;
  envelope = or_zero (envelope_of (recorded envelope_uploaded records));
  journal = or_zero (journal_of (recorded journal_uploaded records));
  retention_locked = reached retention_locked records;
}

-- The record that `append` makes, before its own hash is set.
abbrev pub draft :
    BootstrapEnvelope
    → List HandoffRecord
    → HandoffPhase
    → Option ObjectDescriptor
    → Option ObjectDescriptor
    → Time
    → HandoffRecord
draft envelope records phase envelope_object journal_object now = record {
  schema = handoff_record_schema;
  operation_id = envelope.operation_id;
  envelope_sha256 = envelope.sha256;
  sequence = (length records + 1) % 2 ^ 64;
  phase = phase;
  recorded_at = now;
  bucket = audit_identity envelope;
  envelope = envelope_object;
  journal = journal_object;
  record_sha256 = "";
}

-- `phase.order() <= session.latest().order() && session.latest() != ""`
abbrev pub is_behind : HandoffPhase → List HandoffRecord → Bool
is_behind phase records =
    leb_ℤ (order phase) (order (latest records)) && not (str_eq (phase_text (latest records)) "")

abbrev pub holds_name : List ℕ → List File → Bool
holds_name name [] = false
holds_name name (file ∷ files) = same_bytes file.name name || holds_name name files

-- A private file, as the exclusive write leaves it.
abbrev pub private_file : List ℕ → List ℕ → File
private_file name content = record {
  name = name;
  is_regular = true;
  is_private = true;
  content = content;
}

-- `checkCommonState`
unfoldable pub is_noncompliant : BootstrapEnvelope → BucketState → Bool
is_noncompliant envelope state =
    not (same_identity state.identity (audit_identity envelope))
    || (not state.uniform_bucket_level_access
        || (not (str_eq state.public_access_prevention "enforced")
            || (not (str_eq state.storage_class "STANDARD")
                || (not state.versioning
                    || (state.lifecycle_delete_rule
                        || (not (eqb_ℤ state.lifecycle_archive_after_day (pos 0))
                            && not (
                                eqb_ℤ state.lifecycle_archive_after_day
                                  audit_archive_after_days)))))))

-- `checkPreLockState`
unfoldable pub is_not_pre_lock : BootstrapEnvelope → BucketState → Bool
unfolding is_noncompliant
is_not_pre_lock envelope state =
    is_noncompliant envelope state
    || (state.retention_locked
        || (not (eqb_ℤ state.retention_seconds (pos 0))
            && not (eqb_ℤ state.retention_seconds audit_retention_seconds)))

module _ {W : Type 0} where
  -- A reading of the clock, in UTC.
  abbrev pub ticked : Time × W → HandoffState W → Result HandoffError Time × HandoffState W
  ticked (t, w) s = (ok (utc t), record s { world = w; sampled = utc t })

  -- Whether system calls succeeded.
  abbrev pub accessed : Bool × W → HandoffState W → Result HandoffError Bool × HandoffState W
  accessed (fine, w) s = (ok fine, record s { world = w })

  abbrev pub linked : File → HandoffState W → HandoffState W
  linked file s = record s { files = s.files ++ file ∷ [] }

  abbrev pub write_ends :
      File → Publish × W → HandoffState W → Result HandoffError (Unit {0}) × HandoffState W
  write_ends file (published, w) s = (ok tt, linked file (record s { world = w }))
  write_ends file (unsynced, w) s = (err invalid_state_file, linked file (record s { world = w }))
  write_ends file (refused, w) s = (err invalid_state_file, record s { world = w })
  write_ends file (overtaken, w) s = (err state_file_conflict, record s { world = w })

  unfoldable pub refuse_name : List ℕ → Step W (Unit {0})
  refuse_name name s = fail_if (holds_name name s.files) state_file_conflict s

  -- `session.records = append(session.records, record)`
  unfoldable pub kept : HandoffRecord → Step W (Unit {0})
  kept r s = (ok tt, record s { records = s.records ++ r ∷ [] })

  abbrev pub ensured :
      Result HandoffError BootstrapEnvelope × W
      → HandoffState W
      → Result HandoffError BootstrapEnvelope × HandoffState W
  ensured (r, w) s = (r, record s { world = w })

  -- `session.records = records`
  abbrev pub read_into :
      Result HandoffError (List HandoffRecord)
      → HandoffState W
      → Result HandoffError (Unit {0}) × HandoffState W
  read_into (err e) s = (err e, s)
  read_into (ok records) s = (ok tt, record s { records = records })
