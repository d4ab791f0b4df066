-- ===== src/Workflow/Machine/Life.antt =====
-- Whole lives of a machine: sequences of transitions from DISCOVER.
use ctrldb.Prelude.{
  Bool, Option, some, true, false, List, [], ◌∷◌, Result, ok, err, ◌>>=◌, ◌≡◌, arith, inl, inr,
  Bool-cases, >>=-ok, String, refl,
}
use ctrldb.Domain.Operation.{OperationState, state_eq, state_valid, state_terminal}
use ctrldb.Workflow.Machine.{
  new_machine, Machine, MachineError, can_transition, transition, advance, has,
}
use ctrldb.Workflow.Machine.Laws.{
  transition-ok_IsAllowed, allowed-transition, IsAllowed, transition_exact, terminal_iff_stuck,
  new_machine_start,
}

-- A run of the machine behind a pointer through a sequence of requests, each with its
-- authorization, that stops at the first error.
unfoldable pub drive :
    Option Machine → List (OperationState × Bool) → Result MachineError (Option Machine)
drive p [] = ok p
drive p ((next, authorized) ∷ moves) =
    let (r, p') = transition p next authorized in let rest = drive p' moves in r >>= λ _. rest

abbrev pub targets : List (OperationState × Bool) → List OperationState
targets [] = []
targets ((next, _) ∷ moves) = next ∷ targets moves

drive_step :
    (m : Machine) (next : OperationState) (authorized : Bool) (moves : List (OperationState × Bool))
    {p : Option Machine}
    → drive (some m) ((next, authorized) ∷ moves) ≡ ok p
    → (can_transition m.state next ≡ true) × (drive (some (advance m next)) moves ≡ ok p)
unfolding drive
drive_step m next authorized moves h =
    let (u, passed, rest) = >>=-ok (transition (some m) next authorized).0 _ h in
    let allowed = transition-ok_IsAllowed m next authorized passed in
    (allowed.edge, rw (allowed-transition m next authorized allowed) at rest)

unfoldable pub drive_nil : (p : Option Machine) → drive p [] ≡ ok p
unfolding drive
drive_nil p = refl

pub allowed-drive :
    (m : Machine) (next : OperationState) (authorized : Bool) (moves : List (OperationState × Bool))
    → IsAllowed m next authorized
    → drive (some m) ((next, authorized) ∷ moves) ≡ drive (some (advance m next)) moves
unfolding drive
allowed-drive m next authorized moves allowed = rw (allowed-transition m next authorized allowed)

-- A gate: outside `inside` the only way in is through `gate`.
IsGate : OperationState → (OperationState → Bool) → Type 0
IsGate gate inside =
    (s t : OperationState)
    → can_transition s t ≡ true
    → inside s ≡ false
    → inside t ≡ true
    → state_eq gate s ≡ true

passes_gate :
    (gate : OperationState) (inside : OperationState → Bool)
    → IsGate gate inside
    → (m : Machine) (moves : List (OperationState × Bool)) {m' : Machine}
    → drive (some m) moves ≡ ok (some m')
    → state_eq gate m.state ≡ false
    → inside m.state ≡ false
    → inside m'.state ≡ true
    → has gate (targets moves) ≡ true
unfolding IsGate drive
passes_gate gate inside only m [] d g i o = ground arith
passes_gate gate inside only m ((next, authorized) ∷ moves) {m' = m'} d g i o =
    let (edge, rest) = drive_step m next authorized moves d in
    elim (Bool-cases (state_eq gate next)) [
      | inl through ↦ rw through
      | inr past ↦ rw past (elim (Bool-cases (inside next)) [
        | inl entered ↦ ground (arith, only m.state next edge i entered)
        | inr outside ↦
            passes_gate gate inside only (advance m next) moves {m' = m'} rest past outside o
      ])
    ]

abbrev pub needs_lock : OperationState → Bool
needs_lock OperationState.discover = false
needs_lock OperationState.validate = false
needs_lock OperationState.plan = false
needs_lock OperationState.approved_waiting = false
needs_lock OperationState.lock = false
needs_lock OperationState.cancelled = false
needs_lock OperationState.failed = false
needs_lock _ = true

lock-IsGate : IsGate OperationState.lock needs_lock
unfolding IsGate can_transition
lock-IsGate s t edge i o = ground arith

abbrev pub needs_verify : OperationState → Bool
needs_verify OperationState.document = true
needs_verify OperationState.complete = true
needs_verify OperationState.complete_with_documentation_error = true
needs_verify OperationState.complete_with_failed_verification = true
needs_verify _ = false

verify-IsGate : IsGate OperationState.verify needs_verify
unfolding IsGate can_transition
verify-IsGate s t edge i o = ground arith

abbrev pub needs_document : OperationState → Bool
needs_document OperationState.complete = true
needs_document OperationState.complete_with_documentation_error = true
needs_document _ = false

document-IsGate : IsGate OperationState.document needs_document
unfolding IsGate can_transition
document-IsGate s t edge i o = ground arith

abbrev pub needs_rollback : OperationState → Bool
needs_rollback OperationState.verified_rollback = true
needs_rollback OperationState.failed_cleanup = true
needs_rollback _ = false

rollback-IsGate : IsGate OperationState.rollback needs_rollback
unfolding IsGate can_transition
rollback-IsGate s t edge i o = ground arith

-- A machine that starts at its construction reaches PROTECT, EXECUTE or anything behind them only
-- through LOCK, a completion only through VERIFY, COMPLETE and its documentation error only through
-- DOCUMENT, and the ends of a rollback only through ROLLBACK.
pub new_machine-drive_gates :
    (operation_id plan_id : String) (moves : List (OperationState × Bool)) {m m' : Machine}
    → new_machine operation_id plan_id ≡ ok m
    → drive (some m) moves ≡ ok (some m')
    → (needs_lock m'.state ≡ true → has OperationState.lock (targets moves) ≡ true)
      × (needs_verify m'.state ≡ true → has OperationState.verify (targets moves) ≡ true)
      × (needs_document m'.state ≡ true → has OperationState.document (targets moves) ≡ true)
      × (needs_rollback m'.state ≡ true → has OperationState.rollback (targets moves) ≡ true)
new_machine-drive_gates operation_id plan_id moves {m = m} {m' = m'} n d =
    let at = (new_machine_start operation_id plan_id n).0 in
    (
      passes_gate OperationState.lock needs_lock lock-IsGate m moves d (rw at) (rw at),
      passes_gate OperationState.verify needs_verify verify-IsGate m moves d (rw at) (rw at),
      passes_gate OperationState.document needs_document document-IsGate m moves d (rw at) (rw at),
      passes_gate OperationState.rollback needs_rollback rollback-IsGate m moves d (rw at) (rw at),
    )

-- The way out of each state that needs no decision.
abbrev pub way_out : OperationState → OperationState
way_out OperationState.approved_waiting = OperationState.cancelled
way_out OperationState.verify = OperationState.complete_with_failed_verification
way_out OperationState.document = OperationState.complete
way_out OperationState.rollback = OperationState.failed_cleanup
way_out _ = OperationState.failed

way_out-IsAllowed :
    (m : Machine)
    → state_valid m.state ≡ true
    → state_terminal m.state ≡ false
    → IsAllowed m (way_out m.state) false
unfolding can_transition
way_out-IsAllowed m v t = ground arith

-- No operation is stuck: a machine in a canonical state that is not terminal can be moved to a
-- terminal state by one transition that needs no cancellation decision; and a machine in a terminal
-- state refuses every transition and stays as it is.
pub transition_ends :
    (m : Machine)
    → state_valid m.state ≡ true
    → (state_terminal m.state ≡ false
        → (transition (some m) (way_out m.state) false
            ≡ (ok tt, some (advance m (way_out m.state))))
          × (state_terminal (way_out m.state) ≡ true))
      × (state_terminal m.state ≡ true
          → (next : OperationState) (authorized : Bool)
          → (e : MachineError) × (transition (some m) next authorized ≡ (err e, some m)))
transition_ends m v = (
  λ t. (allowed-transition m (way_out m.state) false (way_out-IsAllowed m v t), ground arith),
  λ t next authorized.
      (transition_exact m next authorized).1
        (λ allowed. cc ((terminal_iff_stuck m.state v).0 t next, allowed.edge)),
)
