-- ===== src/Control/Handoff/Walk/Opened.antt =====
-- A session of internal/control/handoff.go from its opening to its report: `Bootstrap` and
-- `LockRetention` as a whole.
use ctrldb.Prelude.{refl, sym, subst, ok, err, codes, ◌≡◌, not-false, Result, List, true, none}
use ctrldb.Control.Names.{is_operation_text}
use ctrldb.Control.Handoff.Records.{reached, read_handoff_records}
use ctrldb.Control.Handoff.Bootstrap.{bootstrap, report}
use ctrldb.Control.Handoff.Lock.{lock_audit_retention}
use ctrldb.Control.Handoff.Session.{status, Session, read_into, ensured}
use ctrldb.Control.Handoff.Session.Steps.{load, open_session, load_records, ensure_envelope}
use ctrldb.Control.Handoff.Walk.Built.{IsOpen, build_or_verify_lem}
use ctrldb.Control.Handoff.Walk.Locked.{lock_or_resume_lem}
use ctrldb.Control.Handoff.Step.{Surroundings, HandoffState, pure, held, proceed}
use ctrldb.Control.Handoff.{
  BootstrapEnvelope, HandoffError, HandoffRecord, envelope_sealed, HandoffPhase, handoff_verified,
  retention_locked, HandoffStatus,
}
use ctrldb.Control.Handoff.Walk.{IsCalm, After, IsKept, after_bind, after_weaken, done, failed}
use ctrldb.Control.Handoff.Walk.Primitive.{
  bind_require, bind_fail_if, after_disk, after_clock, bind_held, after_pure, bind_unless,
}
use ctrldb.Control.Store.{Context}
use ctrldb.Control.Handoff.Walk.Session.{append_lem}
use ctrldb.Control.Handoff.Walk.Bootstrap.{plain_shape, verify_observation_lem}

module _ {W : Type 0} (around : Surroundings W) where
  -- An invariant `J` of the state between sessions, and `I` of the sessions of each stored envelope.
  pub record IsRested (Stored : BootstrapEnvelope → Type 0)
      (I : BootstrapEnvelope → HandoffState W → Type 0) (J : HandoffState W → Type 0) : Type 0 where
    pub rest : IsCalm J J
    pub keep : (e : BootstrapEnvelope) → Stored e → IsKept around e (I e) J
    pub given :
        (asked e : BootstrapEnvelope) (w : W) → (around.ensure_envelope asked w).0 ≡ ok e → Stored e
    pub loaded :
        (e : BootstrapEnvelope) (s : HandoffState W) {records : List HandoffRecord}
        → Stored e
        → is_operation_text (codes e.operation_id) ≡ true
        → read_handoff_records around s.files e ≡ ok records
        → J s
        → I e (record s { records = records })

  module _ {Stored : BootstrapEnvelope → Type 0} {I : BootstrapEnvelope → HandoffState W → Type 0}
      {J : HandoffState W → Type 0} (rested : IsRested Stored I J) where
    ensure_lem :
        (e : BootstrapEnvelope) (s : HandoffState W)
        → J s
        → After J J (λ stored _. Stored stored) (ensure_envelope around e s)
    unfolding ensure_envelope
    ensure_lem e s j =
        ended_lem (around.ensure_envelope e s.world) (λ stored h. rested.given e stored s.world h)
      where
        ended_lem :
            (r : Result HandoffError BootstrapEnvelope × W)
            → ((stored : BootstrapEnvelope) → r.0 ≡ ok stored → Stored stored)
            → After J J (λ stored _. Stored stored) (ensured r s)
        ended_lem (ok stored, w) it = done (rested.rest.moved s w j) (it stored refl)
        ended_lem (err x, w) it = failed (rested.rest.moved s w j)

    -- A session of a stored envelope, under its invariant.
    abbrev IsSession : Session → HandoffState W → Type 0
    IsSession session t = Stored session.envelope × IsOpen session × I session.envelope t

    records_lem :
        (e : BootstrapEnvelope) (s : HandoffState W)
        → Stored e
        → is_operation_text (codes e.operation_id) ≡ true
        → J s
        → After (I e) J (λ _ _. Unit {0}) (load_records around e s)
    unfolding load_records
    records_lem e s stored named j =
        read_lem (read_handoff_records around s.files e)
          λ records h. rested.loaded e s stored named h j
      where
        read_lem :
            (r : Result HandoffError (List HandoffRecord))
            → ((records : List HandoffRecord)
                → r ≡ ok records
                → I e (record s { records = records }))
            → After (I e) J (λ _ _. Unit {0}) (read_into r s)
        read_lem (ok records) it = done (it records refl) tt
        read_lem (err x) it = failed j

    load_lem :
        (e : BootstrapEnvelope) (s : HandoffState W)
        → Stored e
        → J s
        → After (I e) J (λ session _. (session.envelope ≡ e) × IsOpen session) (load around e s)
    unfolding load
    load_lem e s stored j = bind_require rested.rest j _ _ λ text is.
        bind_require rested.rest j _ _ λ name named. bind_fail_if rested.rest j _ _ _ λ pattern.
          after_bind (after_disk rested.rest around s j) λ seen t k _.
            bind_fail_if rested.rest k _ _ _ λ fine.
              after_bind (records_lem e t stored (not-false _ pattern) k)
                λ _ u i _. after_pure (rested.keep e stored).calm _ i (refl, is)

    opened_lem :
        (session : Session) (t : HandoffState W)
        → Stored session.envelope
        → IsOpen session
        → I session.envelope t
        → After (λ _. Unit {0}) J IsSession (pure session t)
    unfolding pure
    opened_lem session t stored is_open i = done tt (stored, is_open, i)

    -- A session is open under its invariant, whatever made the opening fail.
    open_lem :
        (ctx : Context) (e : BootstrapEnvelope) (s : HandoffState W)
        → J s
        → After (λ _. Unit {0}) J IsSession (open_session around ctx e s)
    unfolding open_session
    open_lem ctx e s j = bind_require rested.rest j _ _ λ _ alive.
        after_bind (after_clock rested.rest around s j) λ now t k _.
          bind_require rested.rest k _ _ λ _ valid.
            after_bind (ensure_lem e t k) λ stored u l given.
              after_bind (load_lem stored u given l) λ session v i (same, is_open).
                let keep = rested.keep stored given in
                bind_held keep.calm i _ (
                  bind_unless keep.calm i {Q = λ _ _. Unit {0}} _ _ _ (λ _. tt)
                    (λ new.
                      after_weaken (λ _ _ _. tt)
                        (append_lem around stored keep envelope_sealed none none v
                          (plain_shape envelope_sealed refl refl refl) i))
                    λ w m _.
                      opened_lem session w (subst Stored (sym same) given) is_open
                        (subst (λ x. I x w) (sym same) m))

    -- A run that reported a status: under the invariant of the session, with this phase reached.
    abbrev pub IsReported : HandoffPhase → HandoffStatus → HandoffState W → Type 0
    IsReported phase result t =
        (e : BootstrapEnvelope) × Stored e
        × I e t
        × (reached phase t.records ≡ true)
        × (result ≡ status e t.records)

    report_lem :
        (phase : HandoffPhase) (session : Session) (t : HandoffState W)
        → Stored session.envelope
        → I session.envelope t
        → reached phase t.records ≡ true
        → After (λ _. Unit {0}) J (IsReported phase) (report session t)
    unfolding report held proceed pure
    report_lem phase session t stored i there = done tt (session.envelope, stored, i, there, refl)

    -- `Bootstrap` ends with a reported status of a verified handoff, or with an error, in the
    -- invariants.
    pub bootstrap_lem :
        (ctx : Context) (e : BootstrapEnvelope) (s : HandoffState W)
        → J s
        → After (λ _. Unit {0}) J (IsReported handoff_verified) (bootstrap around ctx e s)
    unfolding bootstrap
    bootstrap_lem ctx e s j = after_bind (open_lem ctx e s j) λ session t _ (stored, is_open, i).
        let keep = rested.keep session.envelope stored in
        bind_held keep.calm i _ (
          after_bind (build_or_verify_lem around session is_open keep _ t refl i)
            λ _ u k there. report_lem handoff_verified session u stored k there)

    -- `LockRetention` ends with a reported status of a recorded lock, or with an error.
    pub lock_lem :
        (ctx : Context) (e : BootstrapEnvelope) (s : HandoffState W)
        → J s
        → After
            (λ _. Unit {0})
            J
            (IsReported retention_locked)
            (lock_audit_retention around ctx e s)
    unfolding lock_audit_retention
    lock_lem ctx e s j = after_bind (open_lem ctx e s j) λ session t _ (stored, is_open, i).
        let keep = rested.keep session.envelope stored in
        bind_held keep.calm i _ (
          bind_fail_if keep.calm i _ _ _ λ verified.
            after_bind (verify_observation_lem around session keep t i) λ state u k same.
              after_bind
                (lock_or_resume_lem around session keep _ state u
                  (subst (λ rs. reached handoff_verified rs ≡ true) (sym same)
                    (not-false _ verified))
                  k)
                λ _ v l there. report_lem retention_locked session v stored l there)

    -- A run leaves the state between sessions in its invariant, error or not.
    pub rests :
        (phase : HandoffPhase) {r : Result HandoffError HandoffStatus × HandoffState W}
        → After (λ _. Unit {0}) J (IsReported phase) r
        → J r.1
    rests phase (done _ (e, stored, i, _, _)) = (rested.keep e stored).calm.stopped _ i
    rests phase (failed j) = j
