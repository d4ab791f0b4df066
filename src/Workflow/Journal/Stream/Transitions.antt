-- ===== src/Workflow/Journal/Stream/Transitions.antt =====
-- A transition entry keeps the invariant of the scan.
use ctrldb.Prelude.{
  ℕ, ◌≡◌, Option, ok, true, is_some, subst, false, some, none, Bool, ok-injective, arith, ◌∙◌,
  if◌then◌else◌, ◌&&◌, >>=-ok, refl, reject_if-passed, reject_if, checks-passed, not, sym, String,
  map_err, map_err-ok,
}
use ctrldb.Workflow.Journal.Entry.{
  validate_body, validate_transition_pause, stream_error, in_transition,
}
use ctrldb.Workflow.Journal.Cursor.{Cursor}
use ctrldb.Workflow.Journal.Handlers.{settle_pending, settle_pause, transition_guard, on_transition}
use ctrldb.Domain.Operation.{OperationState, state_eq, state_valid}
use ctrldb.Domain.Journal.{JournalEntry, JournalEntryKind, JournalPause}
use ctrldb.Workflow.Machine.{Machine, advance, new_machine, transition}
use ctrldb.Workflow.Journal.Stream.Invariant.{IsRouted, Inv, and_false, escalate-IsRouted}
use ctrldb.Domain.Time.{Time}
use ctrldb.Workflow.Route.{route_reachable}
use ctrldb.Workflow.Machine.Laws.{
  IsAllowed, can_transition-valid, transition-ok_IsAllowed, allowed-transition, new_machine_start,
}

-- A checked transition has pause metadata exactly when it enters PAUSED.
pub transition_pause :
    (entry : JournalEntry)
    → validate_body JournalEntryKind.transition entry ≡ ok tt
    → is_some entry.pause ≡ state_eq entry.operation_state OperationState.paused
unfolding validate_body
transition_pause entry h =
    by_test (state_eq entry.operation_state OperationState.paused) entry.pause entry.recorded_at
      (checks-passed _ h).1.0
  where
    by_test :
        (b : Bool) (pause : Option JournalPause) (at : Time)
        → validate_transition_pause b pause at ≡ ok tt
        → is_some pause ≡ b
    by_test true none at h = cc
    by_test true (some p) at h = refl
    by_test false pause at h = reject_if-passed _ _ h

-- What settling a pending cancellation leaves alone.
pub record Settled (c c' : Cursor) : Type 0 where
  pub same_machine : c'.machine ≡ c.machine
  pub same_mutated : c'.mutated ≡ c.mutated
  pub routed : IsRouted c.mutated c.pending → IsRouted c'.mutated c'.pending

pub settle_pending-Settled :
    (n : ℕ) (next : OperationState) (p : Option OperationState) (c : Cursor) {c' : Cursor}
    → c.pending ≡ p
    → settle_pending n next p c ≡ ok c'
    → Settled c c'
unfolding settle_pending
settle_pending-Settled n next none c at h =
    subst (Settled c) (ok-injective h)
      (record { same_machine = refl; same_mutated = refl; routed = λ r. r })
settle_pending-Settled n next (some route) c at h =
    let (u, passed, rest) =
      >>=-ok
        (reject_if (not (state_eq next route) && not (route_reachable next route))
          (stream_error n "transition made the pending cancellation unreachable"))
        _ h in
    subst (Settled c) (ok-injective rest) (record {
      same_machine = refl;
      same_mutated = refl;
      routed = λ r. keep (state_eq next route) (rw at at r);
    })
  where
    keep :
        (b : Bool)
        → IsRouted c.mutated (some route)
        → IsRouted c.mutated (if b then none else some route)
    keep true r = ground arith
    keep false r = r

paused_not_cancelled :
    (s : OperationState)
    → state_eq s OperationState.paused ≡ true
    → state_eq s OperationState.cancelled ≡ false
paused_not_cancelled s h = ground arith

settle_pause-Inv :
    (n : ℕ) (pause : Option JournalPause) (c : Cursor) (m : Machine) {c' : Cursor}
    → c.machine ≡ some m
    → state_valid m.state ≡ true
    → is_some pause ≡ state_eq m.state OperationState.paused
    → IsRouted c.mutated c.pending
    → (c.mutated && state_eq m.state OperationState.cancelled) ≡ false
    → settle_pause n pause c ≡ ok c'
    → Inv c'
unfolding settle_pause
settle_pause-Inv n none c m at valid held routed fair h = subst Inv (ok-injective h) (record {
  canonical = rw at (ground arith);
  paused_held = rw at held;
  route_known = routed.0;
  cancel_unmutated = routed.1;
  cancelled_unmutated = rw at fair;
})
settle_pause-Inv n (some pause) c m at valid held routed fair h =
    let (u, passed, rest) =
      >>=-ok
        (reject_if (c.mutated && not pause.mutation_occurred)
          (stream_error n "PAUSED metadata must not discard observed mutation"))
        _ h in
    let again = escalate-IsRouted c.mutated pause.mutation_occurred c.pending routed in
    subst Inv (ok-injective rest) (record {
      canonical = rw at (ground arith);
      paused_held = rw at held;
      route_known = again.0;
      cancel_unmutated = again.1;
      cancelled_unmutated = rw at (and_false _ _ (paused_not_cancelled m.state (sym held)));
    })

fresh-Inv :
    (c : Cursor) (m : Machine)
    → Inv c
    → c.machine ≡ none
    → m.state ≡ OperationState.discover
    → Inv (record c { machine = some m })
fresh-Inv c m inv at begun = record {
  canonical = rw begun;
  paused_held = rw begun (inv.paused_held ∙ rw at);
  route_known = inv.route_known;
  cancel_unmutated = inv.cancel_unmutated;
  cancelled_unmutated = rw begun (and_false _ _ refl);
}

-- What an accepted transition out of a state of the machine went through.
pub record Passed (n : ℕ) (c : Cursor) (m : Machine) (entry : JournalEntry) (c' : Cursor)
    : Type 0 where
  pub guarded : transition_guard n m.state c entry ≡ ok tt
  pub allowed :
      IsAllowed m entry.operation_state (state_eq entry.operation_state OperationState.cancelled)
  pub settled : Cursor
  pub pending_settled :
      settle_pending n entry.operation_state c.pending
        (record c { machine = some (advance m entry.operation_state) })
      ≡ ok settled
  pub pause_settled : settle_pause n entry.pause settled ≡ ok c'

pub on_transition-Passed :
    (m : Machine) (operation_id plan_id : String) (n : ℕ) (c : Cursor) (entry : JournalEntry)
    {c' : Cursor}
    → on_transition (some m) operation_id plan_id n c entry ≡ ok c'
    → Passed n c m entry c'
unfolding on_transition
on_transition-Passed m operation_id plan_id n c entry h =
    let next = entry.operation_state in
    let authorized = state_eq next OperationState.cancelled in
    let (u, guarded, h₁) = >>=-ok (transition_guard n m.state c entry) _ h in
    let (v, moved, h₂) =
      >>=-ok (map_err (in_transition n) (transition (some m) next authorized).0) _ h₁ in
    let allowed =
      transition-ok_IsAllowed m next authorized (map_err-ok (in_transition n) _ moved) in
    let (c₁, settled, h₃) =
      >>=-ok
        (settle_pending n next c.pending
          (record c { machine = (transition (some m) next authorized).1 }))
        _ h₂ in
    record {
      guarded = guarded;
      allowed = allowed;
      settled = c₁;
      pending_settled = rw (allowed-transition m next authorized allowed) at settled;
      pause_settled = h₃;
    }

and_swap : (a b : Bool) → (a && b) ≡ false → (b && a) ≡ false
and_swap a b h = ground arith

passed_fair :
    (n : ℕ) (state : OperationState) (c : Cursor) (entry : JournalEntry)
    → transition_guard n state c entry ≡ ok tt
    → (c.mutated && state_eq entry.operation_state OperationState.cancelled) ≡ false
unfolding transition_guard
passed_fair n state c entry h =
    and_swap (state_eq entry.operation_state OperationState.cancelled) c.mutated
      (reject_if-passed _ _ (checks-passed _ h).1.1.0)

pub on_transition-Inv :
    (p : Option Machine) (operation_id plan_id : String) (n : ℕ) (c : Cursor) (entry : JournalEntry)
    {c' : Cursor}
    → c.machine ≡ p
    → is_some entry.pause ≡ state_eq entry.operation_state OperationState.paused
    → Inv c
    → on_transition p operation_id plan_id n c entry ≡ ok c'
    → Inv c'
unfolding on_transition
on_transition-Inv none operation_id plan_id n c entry at held inv h =
    let (u, first, h₁) =
      >>=-ok
        (reject_if (not (state_eq entry.operation_state OperationState.discover))
          (stream_error n "first transition must be DISCOVER"))
        _ h in
    let (m, built, h₂) =
      >>=-ok
        (map_err (λ _. stream_error n "initial transition has an invalid machine binding")
          (new_machine operation_id plan_id))
        _ h₁ in
    let begun = new_machine_start operation_id plan_id (map_err-ok _ _ built) in
    subst Inv (ok-injective h₂) (fresh-Inv c m inv at begun.0)
on_transition-Inv (some m) operation_id plan_id n c entry at held inv h =
    let passed = on_transition-Passed m operation_id plan_id n c entry h in
    let moved = record c { machine = some (advance m entry.operation_state) } in
    let settled =
      settle_pending-Settled n entry.operation_state c.pending moved refl passed.pending_settled in
    settle_pause-Inv n entry.pause passed.settled (advance m entry.operation_state)
      settled.same_machine (can_transition-valid _ _ passed.allowed.edge).1 held
      (settled.routed (inv.route_known, inv.cancel_unmutated))
      (rw settled.same_mutated (passed_fair n m.state c entry passed.guarded)) passed.pause_settled
