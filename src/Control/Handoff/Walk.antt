-- ===== src/Control/Handoff/Walk.antt =====
-- One walk through internal/control/handoff.go for every invariant: what each of its steps may do to
-- the state, and that what all of them keep is kept by the whole.
pub mod Primitive
pub mod Session
pub mod Observed
pub mod Bootstrap
pub mod Built
pub mod Locked
pub mod Opened
use ctrldb.Prelude.{
  Result, ◌≡◌, ◌++◌, bool_eq, ◌∷◌, ◌⊎◌, is_some, Option, List, ok, ℕ, err, false, String, true, [],
  some,
}
use ctrldb.Control.Handoff.Step.{
  Step, HandoffState, Call, Mutation, Surroundings, proceed, upload_create_only, call_in, noted,
  configure_retention, lock_retention, create_audit_bucket, configure_archive_lifecycle,
}
use ctrldb.Control.Handoff.{
  valid_at, HandoffPhase, BootstrapEnvelope, HandoffError, HandoffRecord, audit_bucket_claimed,
  order, phase_order_unknown, audit_bucket_created, valid_utc, phase_eq, envelope_uploaded,
  journal_uploaded, lifecycle_configured, audit_retention_seconds, handoff_verified,
  retention_configured, retention_lock_claimed,
}
use ctrldb.Control.Store.{ObjectDescriptor}
use ctrldb.Domain.Time.{Time}
use ctrldb.Prelude.Int.{eqb_ℤ}
use ctrldb.Control.Handoff.Records.{
  reached, moved_backwards, record_file_name, hash_json, is_state_file_name, lacks_generation,
}
use ctrldb.Control.Handoff.Session.{is_behind, private_file, draft}

-- The mutation may be asked for with these records.
abbrev pub IsDue : Mutation → BootstrapEnvelope → List HandoffRecord → Type 0
IsDue create_audit_bucket envelope records =
    (reached audit_bucket_claimed records ≡ true) × (reached audit_bucket_created records ≡ false)
IsDue (upload_create_only name content) envelope records =
    (reached audit_bucket_created records ≡ true)
    × (((envelope.canonical_json ≡ ok content) × (reached envelope_uploaded records ≡ false))
        ⊎ ((envelope.first_journal_object_name ≡ name)
            × (envelope.first_journal_entry_json ≡ content)
            × (reached envelope_uploaded records ≡ true)
            × (reached journal_uploaded records ≡ false)))
IsDue configure_archive_lifecycle envelope records =
    (reached journal_uploaded records ≡ true) × (reached lifecycle_configured records ≡ false)
IsDue (configure_retention seconds) envelope records =
    (seconds ≡ audit_retention_seconds) × (reached handoff_verified records ≡ true)
IsDue (lock_retention metageneration) envelope records =
    (reached handoff_verified records ≡ true)
    × (reached retention_configured records ≡ true)
    × (reached retention_lock_claimed records ≡ true)

-- The clock as last read is inside the windows of the approval and of the plan, and no earlier than
-- the last record.
abbrev pub IsTimely : BootstrapEnvelope → Time → List HandoffRecord → Type 0
IsTimely envelope sampled records =
    (valid_at envelope sampled ≡ ok tt) × (moved_backwards sampled records ≡ false)

-- A mutation that is due, and authorised by the clock.
abbrev pub IsWarranted : Call → Type 0
IsWarranted call =
    IsDue call.mutation call.envelope call.held × IsTimely call.envelope call.sampled call.held

-- A known phase, with the descriptor of an upload exactly where the phase is one.
abbrev pub IsShaped : HandoffPhase → Option ObjectDescriptor → Option ObjectDescriptor → Type 0
IsShaped phase envelope_object journal_object =
    (eqb_ℤ (order phase) phase_order_unknown ≡ false)
    × (bool_eq (phase_eq phase envelope_uploaded) (is_some envelope_object) ≡ true)
    × (bool_eq (phase_eq phase journal_uploaded) (is_some journal_object) ≡ true)
    × (lacks_generation envelope_object ≡ false)
    × (lacks_generation journal_object ≡ false)

module _ {W : Type 0} where
  -- What an invariant has to admit of a step that writes nothing: `I` while a function runs, `J` when
  -- it has returned an error.
  pub record IsCalm (I J : HandoffState W → Type 0) : Type 0 where
    pub moved : (s : HandoffState W) (w : W) → I s → I (record s { world = w })
    pub ticked : (s : HandoffState W) (t : Time) → I s → I (record s { sampled = t })
    pub stopped : (s : HandoffState W) → I s → J s

module _ {W : Type 0} (around : Surroundings W) where
  -- A record that `append` may write in this state, and its encoding.
  pub record IsNext (envelope : BootstrapEnvelope) (records : List HandoffRecord) (sampled : Time)
      (r : HandoffRecord) (encoded : List ℕ) : Type 0 where
    pub phase : HandoffPhase
    pub envelope_object : Option ObjectDescriptor
    pub journal_object : Option ObjectDescriptor
    pub digest : String
    pub shaped : IsShaped phase envelope_object journal_object
    pub ahead : is_behind phase records ≡ false
    pub valid_time : valid_utc sampled ≡ true
    pub timely : moved_backwards sampled records ≡ false
    pub hashed :
        hash_json around (draft envelope records phase envelope_object journal_object sampled)
        ≡ some digest
    pub is : r ≡ record (draft envelope records phase envelope_object journal_object sampled) {
      record_sha256 = digest;
    }
    pub coded : around.encode r ≡ some encoded
    pub fits_name : is_state_file_name (record_file_name r) ≡ true

  -- What an invariant of the sessions of an envelope has to admit.
  pub record IsKept (envelope : BootstrapEnvelope) (I J : HandoffState W → Type 0) : Type 0 where
    pub calm : IsCalm I J
    pub open calm use *
    pub linked :
        (s : HandoffState W) {r : HandoffRecord} {encoded : List ℕ}
        → IsNext envelope s.records s.sampled r encoded
        → I s
        → J (record s { files = s.files ++ private_file (record_file_name r) encoded ∷ [] })
    pub appended :
        (s : HandoffState W) {r : HandoffRecord} {encoded : List ℕ}
        → IsNext envelope s.records s.sampled r encoded
        → I s
        → I (record s {
          files = s.files ++ private_file (record_file_name r) encoded ∷ [];
          records = s.records ++ r ∷ [];
        })
    pub called :
        (s : HandoffState W) (mutation : Mutation)
        → IsWarranted (call_in envelope mutation s)
        → I s
        → I (noted envelope mutation s)

-- Where a step ends: with a value, the invariant and what it guarantees, or with an error.
pub data After {W A : Type 0} (I J : HandoffState W → Type 0) (Q : A → HandoffState W → Type 0)
    : Result HandoffError A × HandoffState W → Type 0 where
  done : {a : A} {t : HandoffState W} → I t → Q a t → After I J Q (ok a, t)
  failed : {e : HandoffError} {t : HandoffState W} → J t → After I J Q (err e, t)

module _ {W : Type 0} {I J : HandoffState W → Type 0} where
  pub after_bind :
      {A B : Type 0} {K : HandoffState W → Type 0} {Q : A → HandoffState W → Type 0}
      {R : B → HandoffState W → Type 0} {m : Result HandoffError A × HandoffState W}
      {rest : A → Step W B}
      → After K J Q m
      → ((a : A) (t : HandoffState W) → K t → Q a t → After I J R (rest a t))
      → After I J R (proceed m rest)
  unfolding proceed
  after_bind (done i q) next = next _ _ i q
  after_bind (failed j) next = failed j

  pub after_weaken :
      {A : Type 0} {Q R : A → HandoffState W → Type 0} {m : Result HandoffError A × HandoffState W}
      → ((a : A) (t : HandoffState W) → Q a t → R a t)
      → After I J Q m
      → After I J R m
  after_weaken f (done i q) = done i (f _ _ q)
  after_weaken f (failed j) = failed j

-- The records, the disk and the last reading are as they were.
abbrev pub IsSame : {W : Type 0} → HandoffState W → HandoffState W → Type 0
IsSame s t = (t.records ≡ s.records) × (t.files ≡ s.files) × (t.sampled ≡ s.sampled)
