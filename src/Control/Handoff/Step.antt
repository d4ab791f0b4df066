-- ===== src/Control/Handoff/Step.antt =====
-- What internal/control/handoff.go runs on: the clock, the disk, the JSON and hash functions and the
-- provider are parameters over a world of any type, and a step passes the state on, errors included.
use ctrldb.Prelude.{
  ℕ, String, Bool, List, [], ◌∷◌, ◌++◌, Option, some, none, Result, ok, err, true, false,
}
use ctrldb.Prelude.Int.{ℤ}
use ctrldb.Domain.Time.{Time}
use ctrldb.Control.Store.{ObjectDescriptor}
use ctrldb.Control.Handoff.{
  HandoffRecord, BucketIdentity, BucketState, PortError, HandoffError, BootstrapEnvelope, File,
  port,
}

-- How the system calls of an exclusive write end: the file is linked and its directory synced, it is
-- linked and the sync fails, nothing is linked, or another writer was first.
pub data Publish : Type 0 where
  published unsynced refused overtaken : Publish

-- `AuditBucketPort`: each call may change the world, and reads what it likes of it.
pub record AuditBucketPort (W : Type 0) : Type 0 where
  pub describe_bucket : String → W → Result PortError (Option BucketState) × W
  pub create_audit_bucket : BucketIdentity → W → Result PortError (Unit {0}) × W
  pub configure_archive_lifecycle : BucketIdentity → W → Result PortError (Unit {0}) × W
  pub upload_create_only :
      BucketIdentity → List ℕ → List ℕ → W → Result PortError ObjectDescriptor × W
  pub describe_object : BucketIdentity → List ℕ → W → Result PortError (Option ObjectDescriptor) × W
  pub configure_retention : BucketIdentity → ℤ → W → Result PortError (Unit {0}) × W
  pub read_object :
      BucketIdentity → List ℕ → W → Result PortError (Option (List ℕ × ObjectDescriptor)) × W
  pub lock_retention : BucketIdentity → ℤ → W → Result PortError (Unit {0}) × W

pub record Surroundings (W : Type 0) : Type 0 where
  pub provider : AuditBucketPort W
  pub clock : W → Time × W
  pub disk_ok : W → Bool × W  -- whether the system calls of a read, or of a mkdir, succeed
  pub publish : W → Publish × W
  pub checksum : List ℕ → ℕ
  pub sha256_hex : List ℕ → String
  pub encode : HandoffRecord → Option (List ℕ)  -- `json.Marshal`
  pub decode : List ℕ → Result HandoffError HandoffRecord  -- the strict decoder, to the end of file
  pub ensure_envelope : BootstrapEnvelope → W → Result HandoffError BootstrapEnvelope × W

-- The provider calls that change something.
pub data Mutation : Type 0 where
  create_audit_bucket configure_archive_lifecycle : Mutation
  upload_create_only : List ℕ → List ℕ → Mutation
  configure_retention lock_retention : ℤ → Mutation

-- A provider call that was made: under which envelope, with which local records, and at which last
-- reading of the clock.
pub record Call : Type 0 where
  pub mutation : Mutation
  pub envelope : BootstrapEnvelope
  pub held : List HandoffRecord
  pub sampled : Time

-- The directory of the operation, the session's records, the last reading of the clock, the world,
-- and the mutations asked of the provider so far, in order.
pub record HandoffState (W : Type 0) : Type 0 where
  pub files : List File
  pub records : List HandoffRecord
  pub sampled : Time
  pub world : W
  pub calls : List Call

abbrev pub Step : Type 0 → Type 0 → Type 0
Step W A = HandoffState W → Result HandoffError A × HandoffState W

module _ {W : Type 0} where
  -- The rest of a function after a call, or its early return.
  unfoldable pub proceed :
      {A B : Type 0}
      → Result HandoffError A × HandoffState W
      → (A → Step W B)
      → Result HandoffError B × HandoffState W
  proceed (ok a, s) rest = rest a s
  proceed (err e, s) rest = (err e, s)

  infixl 5 ◌>>=◌ ◌>>◌
  abbrev pub ◌>>=◌ : {A B : Type 0} → Step W A → (A → Step W B) → Step W B
  (first >>= rest) s = proceed (first s) rest

  abbrev pub ◌>>◌ : {B : Type 0} → Step W (Unit {0}) → Step W B → Step W B
  first >> rest = first >>= λ _. rest

  unfoldable pub pure : {A : Type 0} → A → Step W A
  pure a s = (ok a, s)

  -- A check that reads no state.
  unfoldable pub require : {A : Type 0} → Result HandoffError A → Step W A
  require r s = (r, s)

  -- `if b { return e }`
  unfoldable pub fail_if : Bool → HandoffError → Step W (Unit {0})
  fail_if true e s = (err e, s)
  fail_if false e s = (ok tt, s)

  -- `if !b { if err := step; err != nil { return err } }`
  unfoldable pub unless : Bool → Step W (Unit {0}) → Step W (Unit {0})
  unless true step s = (ok tt, s)
  unless false step s = step s

  -- A value that may be missing.
  unfoldable pub demand : {A : Type 0} → Option A → HandoffError → Step W A
  demand none e s = (err e, s)
  demand (some a) e s = (ok a, s)

  unfoldable pub held : Step W (List HandoffRecord)
  held s = (ok s.records, s)

  -- A provider call.
  abbrev pub asked :
      {A : Type 0}
      → Result PortError A × W
      → HandoffState W
      → Result HandoffError A × HandoffState W
  asked (ok a, w) s = (ok a, record s { world = w })
  asked (err e, w) s = (err (port e), record s { world = w })

  unfoldable pub observe : {A : Type 0} → (W → Result PortError A × W) → Step W A
  observe call s = asked (call s.world) s

  -- The call as the state has it.
  abbrev pub call_in : BootstrapEnvelope → Mutation → HandoffState W → Call
  call_in envelope mutation s = record {
    mutation = mutation;
    envelope = envelope;
    held = s.records;
    sampled = s.sampled;
  }

  abbrev pub noted : BootstrapEnvelope → Mutation → HandoffState W → HandoffState W
  noted envelope mutation s = record s { calls = s.calls ++ call_in envelope mutation s ∷ [] }

  -- A provider call that changes something.
  unfoldable pub mutate :
      {A : Type 0} → BootstrapEnvelope → Mutation → (W → Result PortError A × W) → Step W A
  unfolding observe
  mutate envelope mutation call s = observe call (noted envelope mutation s)

  abbrev pub uncaught :
      {A : Type 0}
      → Result PortError A × W
      → HandoffState W
      → Result HandoffError (Result PortError A) × HandoffState W
  uncaught (r, w) s = (ok r, record s { world = w })

  -- Such a call whose error is not returned at once.
  unfoldable pub attempt :
      {A : Type 0}
      → BootstrapEnvelope
      → Mutation
      → (W → Result PortError A × W)
      → Step W (Result PortError A)
  attempt envelope mutation call s = uncaught (call s.world) (noted envelope mutation s)
