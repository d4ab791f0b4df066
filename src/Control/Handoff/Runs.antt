-- ===== src/Control/Handoff/Runs.antt =====
-- Sequences of runs of `Bootstrap` and `LockRetention` of internal/control/handoff.go, each perhaps in
-- a new process, and the mutations that they ask the provider for.
use ctrldb.Prelude.{
  All, All-append, ok, List, Result, [], ◌≡◌, subst, sym, ◌∙◌, ok-injective, ◌∷◌, true,
}
use ctrldb.Control.Handoff.Bootstrap.{bootstrap}
use ctrldb.Control.Handoff.Session.{status}
use ctrldb.Control.Handoff.Lock.{lock_audit_retention}
use ctrldb.Control.Handoff.Walk.Opened.{IsRested, bootstrap_lem, lock_lem, rests, IsReported}
use ctrldb.Control.Store.{Context}
use ctrldb.Control.Handoff.Step.{Surroundings, HandoffState}
use ctrldb.Control.Handoff.{
  BootstrapEnvelope, HandoffError, HandoffStatus, retention_locked, handoff_verified,
}
use ctrldb.Control.Handoff.Walk.{IsCalm, IsWarranted, After, done, failed}
use ctrldb.Control.Handoff.Records.{reached}

pub data HandoffRun : Type 0 where
  bootstraps locks : Context → BootstrapEnvelope → HandoffRun

module _ {W : Type 0} (around : Surroundings W) where
  -- What a run leaves.
  unfoldable pub run_once : HandoffRun → HandoffState W → HandoffState W
  unfolding bootstrap lock_audit_retention
  run_once (bootstraps ctx e) s = (bootstrap around ctx e s).1
  run_once (locks ctx e) s = (lock_audit_retention around ctx e s).1

  unfoldable pub run_all : List HandoffRun → HandoffState W → HandoffState W
  unfolding run_once
  run_all [] s = s
  run_all (r ∷ runs) s = run_all runs (run_once r s)

  -- An invariant between sessions holds after any runs.
  pub run_all-rests :
      {Stored : BootstrapEnvelope → Type 0} {I : BootstrapEnvelope → HandoffState W → Type 0}
      {J : HandoffState W → Type 0}
      → IsRested around Stored I J
      → (runs : List HandoffRun) (s : HandoffState W) → J s
      → J (run_all runs s)
  unfolding run_all run_once
  run_all-rests rested [] s j = j
  run_all-rests rested (bootstraps ctx e ∷ runs) s j =
      run_all-rests rested runs _
        (rests around rested handoff_verified (bootstrap_lem around rested ctx e s j))
  run_all-rests rested (locks ctx e ∷ runs) s j =
      run_all-rests rested runs _
        (rests around rested retention_locked (lock_lem around rested ctx e s j))

  abbrev AreWarranted : HandoffState W → Type 0
  AreWarranted s = All IsWarranted s.calls

  warranted_rest : IsRested around (λ _. Unit {0}) (λ _ s. AreWarranted s) AreWarranted
  warranted_rest = record {
    rest = calm;
    keep = λ e _. record {
      calm = calm;
      linked = λ s next i. i;
      appended = λ s next i. i;
      called = λ s mutation due i. All-append IsWarranted s.calls _ i (due, tt);
    };
    given = λ asked e w h. tt;
    loaded = λ e s stored named h j. j;
  }
    where
      calm : IsCalm AreWarranted AreWarranted
      calm = record { moved = λ s w i. i; ticked = λ s t i. i; stopped = λ s i. i }

  -- Every mutation that runs of `Bootstrap` and `LockRetention` ask the provider for, under any
  -- provider, clock and disk, in any order and whatever fails, is warranted by the session's envelope
  -- and records at that moment: the clock as last read is inside the approval's and the plan's windows
  -- and no earlier than the last record, the bucket is created only after its claim is recorded and
  -- while its creation is not, an upload follows the bucket and carries the sealed text, the lifecycle
  -- follows the uploads, the retention period is the fixed one on a verified handoff, and the bucket is
  -- locked only after the verification, the period and the claim of the lock are recorded.
  pub run_all-IsWarranted :
      (runs : List HandoffRun) (s : HandoffState W)
      → All IsWarranted s.calls
      → All IsWarranted (run_all runs s).calls
  run_all-IsWarranted runs s i = run_all-rests warranted_rest runs s i

  nothing_rest : IsRested around (λ _. Unit {0}) (λ _ _. Unit {0}) (λ _. Unit {0})
  nothing_rest = record {
    rest = calm;
    keep = λ e _. record {
      calm = calm;
      linked = λ s next i. tt;
      appended = λ s next i. tt;
      called = λ s mutation due i. tt;
    };
    given = λ asked e w h. tt;
    loaded = λ e s stored named h j. tt;
  }
    where
      calm : IsCalm (λ (_ : HandoffState W). Unit {0}) (λ _. Unit {0})
      calm = record { moved = λ s w i. tt; ticked = λ s t i. tt; stopped = λ s i. tt }

  reported_locked :
      {r : Result HandoffError HandoffStatus × HandoffState W} {result : HandoffStatus}
      → After (λ _. Unit {0}) (λ _. Unit {0}) (IsReported around nothing_rest retention_locked) r
      → r.0 ≡ ok result
      → (result.retention_locked ≡ true) × (reached retention_locked r.1.records ≡ true)
  unfolding status
  reported_locked {result = result} (done {a = a} _ (e, stored, i, there, is)) h =
      (subst (λ x. x.retention_locked ≡ true) (sym is ∙ ok-injective h) there, there)
  reported_locked (failed j) h = cc

  -- `LockRetention` that returns without an error reports a locked retention, and has a record of it.
  pub lock_audit_retention-locks :
      (ctx : Context) (e : BootstrapEnvelope) (s : HandoffState W) {result : HandoffStatus}
      → (lock_audit_retention around ctx e s).0 ≡ ok result
      → (result.retention_locked ≡ true)
        × (reached retention_locked (lock_audit_retention around ctx e s).1.records ≡ true)
  lock_audit_retention-locks ctx e s h = reported_locked (lock_lem around nothing_rest ctx e s tt) h
