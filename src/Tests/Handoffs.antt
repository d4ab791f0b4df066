-- ===== src/Tests/Handoffs.antt =====
-- A bootstrap of internal/control/handoff.go run on a small world, and the witnesses on it.
mod Provider
mod Codec
use ctrldb.Control.Handoff.Session.{private_file, is_noncompliant, status, refuse_name, kept, draft}
use ctrldb.Control.Handoff.Session.Steps.{
  read_clock, access_disk, append, verify_object, load, load_records, ensure_envelope, open_session,
  publish_file, write_private_file_exclusive,
}
use ctrldb.Control.Handoff.Records.{
  record_file_name, has_invalid_fields, parse_handoff_record, read_handoff_records, read_chain,
  is_out_of_chain, sorted, listed, list_state_files, reached, recorded,
}
use ctrldb.Workflow.Journal.ObjectName.{digits}
use ctrldb.Control.Handoff.{
  File, valid_at, audit_identity, audit_retention_seconds, HandoffRecord, HandoffPhase,
  envelope_sealed, audit_bucket_claimed, audit_bucket_created, envelope_uploaded, journal_uploaded,
  lifecycle_configured, handoff_verified, retention_configured, retention_lock_claimed,
  retention_locked, HandoffError, invalid_handoff_record,
}
use ctrldb.Workflow.Patterns.{is_operation_id, is_contract_digest}
use ctrldb.Control.Handoff.Lock.{lock_audit_retention, lock_or_resume, resume_locked}
use ctrldb.Control.Store.{matches_content, running, ObjectDescriptor}
use ctrldb.Control.Handoff.Step.{
  proceed, pure, require, fail_if, unless, demand, held, observe, mutate, attempt, Surroundings,
  HandoffState, published,
}
use ctrldb.Control.Handoff.Bootstrap.{verify_observation, report}
use ctrldb.Control.Names.{bootstrap_envelope_object_name}
use ctrldb.Control.Handoff.Runs.{
  HandoffRun, bootstraps, locks, run_all, run_all-IsWarranted, lock_audit_retention-locks,
}
use ctrldb.Control.Handoff.Chain.Bounds.{read_handoff_records-bound}
use ctrldb.Control.Handoff.Walk.{IsWarranted}
use ctrldb.Prelude.{
  none, some, true, ok, err, reject_if, [], ◌∷◌, Option, ◌+◌, ℕ, String, List, Result, length, ◌≡◌,
  ◌≤◌, refl, codes, All,
}
use ctrldb.Prelude.Int.{pos}
use ctrldb.Tests.Handoffs.Provider.{
  World, now, digest_text, sealed_envelope, fresh_bucket, described, small_provider,
}
use ctrldb.Tests.Handoffs.Codec.{encode_from, decode_at}

-- The records of the runs, in a table that stands for the codec.
abbrev entry :
    ℕ → HandoffPhase → Option ObjectDescriptor → Option ObjectDescriptor → String → HandoffRecord
entry n phase eo jo digest = record (draft sealed_envelope [] phase eo jo now) {
  sequence = n;
  record_sha256 = digest;
}

abbrev both : ℕ → HandoffPhase → List HandoffRecord → List HandoffRecord
both n phase rest = entry n phase none none "" ∷ entry n phase none none digest_text ∷ rest

abbrev table : List HandoffRecord
table = both 1 envelope_sealed (
    both 2 audit_bucket_claimed (
      both 3 audit_bucket_created (
        entry 4 envelope_uploaded (some (described (1 ∷ 2 ∷ []))) none ""
        ∷ entry 4 envelope_uploaded (some (described (1 ∷ 2 ∷ []))) none digest_text
        ∷ entry 5 journal_uploaded none (some (described (3 ∷ []))) ""
        ∷ entry 5 journal_uploaded none (some (described (3 ∷ []))) digest_text
        ∷ both 6 lifecycle_configured (
            both 7 handoff_verified (
              both 8 retention_configured
                (both 9 retention_lock_claimed (both 10 retention_locked [])))))))

abbrev decode_bytes : List ℕ → Result HandoffError HandoffRecord
decode_bytes [] = err invalid_handoff_record
decode_bytes (code ∷ _) = decode_at 0 table code

abbrev around : Surroundings World
around = record {
  provider = small_provider;
  clock = λ w. (now, w);
  disk_ok = λ w. (true, w);
  publish = λ w. (published, w);
  checksum = λ content. 0;
  sha256_hex = λ content. digest_text;
  encode = encode_from 0 table;
  decode = decode_bytes;
  ensure_envelope = λ asked w. (ok sealed_envelope, w);
}

new_state : HandoffState World
new_state = record {
  files = [];
  records = [];
  sampled = now;
  world = record { bucket = none; objects = [] };
  calls = [];
}

-- The records and the directory of a locked handoff.
abbrev final : ℕ → HandoffPhase → HandoffRecord
final n phase = entry n phase none none digest_text

abbrev finals : List HandoffRecord
finals =
    final 1 envelope_sealed
    ∷ final 2 audit_bucket_claimed
    ∷ final 3 audit_bucket_created
    ∷ entry 4 envelope_uploaded (some (described (1 ∷ 2 ∷ []))) none digest_text
    ∷ entry 5 journal_uploaded none (some (described (3 ∷ []))) digest_text
    ∷ final 6 lifecycle_configured
    ∷ final 7 handoff_verified
    ∷ final 8 retention_configured
    ∷ final 9 retention_lock_claimed
    ∷ final 10 retention_locked
    ∷ []

own_files : ℕ → List HandoffRecord → List File
unfolding record_file_name
own_files code [] = []
own_files code (r ∷ rs) = private_file (record_file_name r) (code ∷ []) ∷ own_files (code + 2) rs

locked_read : read_handoff_records around (own_files 1 finals) sealed_envelope ≡ ok finals
unfolding has_invalid_fields parse_handoff_record is_operation_id is_contract_digest encode_from
    decode_at reject_if read_handoff_records read_chain is_out_of_chain record_file_name digits
    sorted listed list_state_files own_files
locked_read = refl

locked_start : HandoffState World
unfolding own_files
locked_start = record {
  files = own_files 1 finals;
  records = [];
  sampled = now;
  world = record {
    bucket = some (record (fresh_bucket (audit_identity sealed_envelope)) {
      retention_seconds = audit_retention_seconds;
      retention_locked = true;
      lifecycle_archive_after_day = pos 365;
    });
    objects =
        (envelope_file, record { descriptor = described (1 ∷ 2 ∷ []); content = 1 ∷ 2 ∷ [] })
        ∷ (9 ∷ [], record { descriptor = described (3 ∷ []); content = 3 ∷ [] })
        ∷ [];
  };
  calls = [];
}
  where
    envelope_file : List ℕ
    envelope_file = codes "operations/test/op-0123456789abcdef/bootstrap-envelope.json"

lock_runs :
    (lock_audit_retention around running sealed_envelope locked_start).0
    ≡ ok (status sealed_envelope finals)
unfolding proceed pure require fail_if unless demand held observe mutate attempt read_clock
    access_disk append verify_object load load_records ensure_envelope open_session
    verify_observation report reached recorded record_file_name digits sorted listed
    list_state_files has_invalid_fields parse_handoff_record is_out_of_chain read_chain
    read_handoff_records valid_at is_noncompliant matches_content status
    bootstrap_envelope_object_name is_operation_id is_contract_digest encode_from decode_at
    reject_if lock_audit_retention lock_or_resume resume_locked locked_start own_files
lock_runs = refl

-- The first record of a new directory.
seals :
    (append around sealed_envelope envelope_sealed none none new_state).1.records
    ≡ final 1 envelope_sealed ∷ []
unfolding proceed pure require fail_if unless demand held observe mutate attempt read_clock
    access_disk publish_file refuse_name write_private_file_exclusive kept append record_file_name
    digits encode_from new_state
seals = refl

abbrev both_runs : List HandoffRun
both_runs = bootstraps running sealed_envelope ∷ locks running sealed_envelope ∷ []

run_all-IsWarranted_example : All IsWarranted (run_all around both_runs new_state).calls
unfolding new_state
run_all-IsWarranted_example = run_all-IsWarranted around both_runs new_state tt

lock_audit_retention-locks_example :
    ((status sealed_envelope finals).retention_locked ≡ true)
    × (reached retention_locked
          (lock_audit_retention around running sealed_envelope locked_start).1.records
        ≡ true)
lock_audit_retention-locks_example =
    lock_audit_retention-locks around running sealed_envelope locked_start lock_runs

read_handoff_records-bound_example : length finals ≤ 12
read_handoff_records-bound_example =
    read_handoff_records-bound around sealed_envelope (own_files 1 finals) locked_read
