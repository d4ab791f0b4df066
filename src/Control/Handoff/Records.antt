-- ===== src/Control/Handoff/Records.antt =====
-- The record chain of internal/control/handoff.go, and the state files of statedir.go that hold it.
use ctrldb.Prelude.{
  ℕ, String, Bool, true, false, List, [], ◌∷◌, ◌++◌, Option, some, none, Result, ok, err, reject_if,
  ◌>>=◌, ◌>>◌, ◌&&◌, ◌||◌, not, ◌==◌, ◌+◌, ◌%◌, ◌^◌, length, last?, ltb, codes, is_digit, is_lower,
  at_most, bool_eq, str_eq, if◌then◌else◌, is_some,
}
use ctrldb.Prelude.Int.{ℤ, leb_ℤ, eqb_ℤ}
use ctrldb.Domain.Time.{Time, before}
use ctrldb.Control.Bytes.{same_bytes}
use ctrldb.Control.Store.{ObjectDescriptor}
use ctrldb.Control.Handoff.{
  HandoffPhase, HandoffRecord, HandoffError, BootstrapEnvelope, File, phase_eq, order, phase_text,
  same_identity, audit_identity, valid_utc, other, envelope_uploaded, journal_uploaded,
  invalid_handoff_record, invalid_state_file, phase_order_unknown,
}
use ctrldb.Control.Handoff.Step.{Surroundings}
use ctrldb.Workflow.Journal.ObjectName.{digits}
use ctrldb.Workflow.Journal.ObjectName.Sorted.{lexical}
use ctrldb.Workflow.Patterns.{is_operation_id, is_contract_digest}

-- `reached`
unfoldable pub reached : HandoffPhase → List HandoffRecord → Bool
reached phase [] = false
reached phase (r ∷ records) = phase_eq r.phase phase || reached phase records

-- `recorded`
unfoldable pub recorded : HandoffPhase → List HandoffRecord → Option HandoffRecord
recorded phase [] = none
recorded phase (r ∷ records) = if phase_eq r.phase phase then some r else recorded phase records

-- The phase of the last record, or the zero value.
abbrev phase_of : Option HandoffRecord → HandoffPhase
phase_of none = other ""
phase_of (some r) = r.phase

-- `latest`
abbrev pub latest : List HandoffRecord → HandoffPhase
latest records = phase_of (last? records)

-- Whether the clock is behind the last record.
abbrev pub earlier_than : Time → Option HandoffRecord → Bool
earlier_than now none = false
earlier_than now (some r) = before now r.recorded_at

abbrev pub moved_backwards : Time → List HandoffRecord → Bool
moved_backwards now records = earlier_than now (last? records)

-- `fmt.Sprintf("%020d-%s.json", record.Sequence, record.Phase)`, for a phase without outer blanks.
unfoldable pub record_file_name : HandoffRecord → List ℕ
unfolding digits
record_file_name r = digits 20 r.sequence ++ (b'-' ∷ (codes (phase_text r.phase) ++ codes ".json"))

-- `[a-z0-9]` and `[a-z0-9.-]`
abbrev is_name_start : ℕ → Bool
is_name_start c = is_lower c || is_digit c

abbrev is_name_char : ℕ → Bool
is_name_char c = is_name_start c || (c == b'.' || c == b'-')

-- `stateFileNamePattern`: `^[a-z0-9][a-z0-9.-]{0,127}$`
abbrev pub is_state_file_name : List ℕ → Bool
is_state_file_name [] = false
is_state_file_name (c ∷ cs) = is_name_start c && at_most is_name_char 127 cs

-- `strings.HasPrefix(name, temporaryNamePrefix)`
abbrev pub is_temporary : List ℕ → Bool
is_temporary [] = false
is_temporary (c ∷ cs) = c == b'.'

-- `sort.Strings`, on the entries by their names.
abbrev pub insert_sorted : File → List File → List File
insert_sorted file [] = file ∷ []
insert_sorted file (next ∷ files) =
    if lexical next.name file.name then next ∷ insert_sorted file files else file ∷ next ∷ files

unfoldable pub sorted : List File → List File
sorted [] = []
sorted (file ∷ files) = insert_sorted file (sorted files)

-- A round of the loop of `listStateFiles`, with the rest of the listing.
abbrev pub listed_with : File → Result HandoffError (List File) → Result HandoffError (List File)
listed_with file rest =
    if is_temporary file.name
    then rest
    else if not file.is_regular || not (is_state_file_name file.name)
    then err invalid_state_file
    else (rest >>= λ others. ok (file ∷ others))

-- The loop of `listStateFiles`.
unfoldable pub listed : List File → Result HandoffError (List File)
listed [] = ok []
listed (file ∷ files) = listed_with file (listed files)

-- `listStateFiles`, with the entries in place of their names, which no two of them share.
unfoldable pub list_state_files : List File → Result HandoffError (List File)
unfolding listed sorted
list_state_files files = do entries ← listed files; ok (sorted entries)

-- `maxHandoffRecordBytes`
abbrev pub max_handoff_record_bytes : ℕ
max_handoff_record_bytes = 65536

-- `readPrivateFile` where the file does not change during the read.
abbrev pub read_private_file : File → ℕ → Result HandoffError (List ℕ)
read_private_file file limit =
    if not file.is_regular
      || (not file.is_private || (ltb limit (length file.content) || length file.content == 0))
    then err invalid_state_file
    else ok file.content

-- `descriptor != nil && descriptor.Generation == 0`
abbrev pub lacks_generation : Option ObjectDescriptor → Bool
lacks_generation none = false
lacks_generation (some d) = d.generation == 0

-- `HandoffRecordSchemaV1`
abbrev pub handoff_record_schema : String
handoff_record_schema = "ctrldb.ctrlboard.dev/bootstrap-handoff-record/v1"

-- The test of the fields in `parseHandoffRecord`.
unfoldable pub has_invalid_fields : HandoffRecord → Bool
unfolding is_operation_id is_contract_digest
has_invalid_fields r =
    not (str_eq r.schema handoff_record_schema)
    || (eqb_ℤ (order r.phase) phase_order_unknown
        || (not (valid_utc r.recorded_at)
            || (not (is_contract_digest r.record_sha256)
                || (not (is_contract_digest r.envelope_sha256)
                    || (not (is_operation_id r.operation_id)
                        || (r.sequence == 0
                            || (not (
                                  bool_eq (phase_eq r.phase envelope_uploaded) (is_some r.envelope))
                                || (not (
                                      bool_eq (phase_eq r.phase journal_uploaded)
                                        (is_some r.journal))
                                    || (lacks_generation r.envelope
                                        || lacks_generation r.journal)))))))))

-- `digest, err := hashJSON(copy); err != nil || digest != record.RecordSHA256`
abbrev pub differs : String → Option String → Bool
differs text none = true
differs text (some digest) = not (str_eq digest text)

abbrev pub differs_bytes : List ℕ → Option (List ℕ) → Bool
differs_bytes encoded none = true
differs_bytes encoded (some canonical) = not (same_bytes canonical encoded)

-- The test of the loop of `readHandoffRecords` on the record of the file at `index`.
unfoldable pub is_out_of_chain : BootstrapEnvelope → ℕ → ℤ → List ℕ → HandoffRecord → Bool
unfolding record_file_name
is_out_of_chain envelope index previous name r =
    not (r.sequence == (index + 1) % 2 ^ 64)
    || (not (str_eq r.operation_id envelope.operation_id)
        || (not (str_eq r.envelope_sha256 envelope.sha256)
            || (leb_ℤ (order r.phase) previous
                || (not (same_bytes name (record_file_name r))
                    || not (same_identity r.bucket (audit_identity envelope))))))

module _ {W : Type 0} (around : Surroundings W) where
  -- `hashJSON`
  abbrev pub hash_json : HandoffRecord → Option String
  hash_json r = elim (around.encode r) [
    | none ↦ none
    | some encoded ↦ some (around.sha256_hex encoded)
  ]

  -- `parseHandoffRecord` after the decoder, whose failures are its own.
  unfoldable pub parse_handoff_record : List ℕ → Result HandoffError HandoffRecord
  unfolding has_invalid_fields reject_if
  parse_handoff_record encoded = do
    r ← around.decode encoded
    reject_if (has_invalid_fields r) invalid_handoff_record
    reject_if (differs r.record_sha256 (hash_json (record r { record_sha256 = "" })))
        invalid_handoff_record
    reject_if (differs_bytes encoded (around.encode r)) invalid_handoff_record
    ok r

  -- The loop of `readHandoffRecords`: what it has read, in order, goes before what is left.
  unfoldable pub read_chain :
      BootstrapEnvelope
      → ℕ
      → ℤ
      → Option HandoffRecord
      → List File
      → Result HandoffError (List HandoffRecord)
  unfolding is_out_of_chain parse_handoff_record reject_if
  read_chain envelope index previous before_it [] = ok []
  read_chain envelope index previous before_it (file ∷ files) = do
    encoded ← read_private_file file max_handoff_record_bytes
    r ← parse_handoff_record encoded
    reject_if (is_out_of_chain envelope index previous file.name r) invalid_handoff_record
    reject_if (earlier_than r.recorded_at before_it) invalid_handoff_record
    rest ← read_chain envelope (index + 1) (order r.phase) (some r) files
    ok (r ∷ rest)

  -- `readHandoffRecords`
  unfoldable pub read_handoff_records :
      List File → BootstrapEnvelope → Result HandoffError (List HandoffRecord)
  unfolding read_chain list_state_files
  read_handoff_records files envelope = do
    entries ← list_state_files files
    read_chain envelope 0 phase_order_unknown none entries
