-- ===== src/Workflow/Cancellation/Apply/OneShot.antt =====
-- A routed decision of internal/workflow/cancellation.go moves its machine once and only once.
use ctrldb.Prelude.{
  Bool-cases, reject_if-passed, >>=-ok, ok-injective, not-false, arith, ℕ, Bool, ◌≡◌, if◌then◌else◌,
  ◌==◌, true, Result, Option, false, some, ok, err, ◌&&◌, refl, ap, not, inl, ◌∙◌, inr, sym,
  reject_if, subst,
}
use ctrldb.Domain.Operation.{state_eq_refl, state_eq, OperationState}
use ctrldb.Workflow.Machine.Laws.{allowed-transition}
use ctrldb.Workflow.Machine.{can_transition, Machine, advance}
use ctrldb.Workflow.Cancellation.Apply.{
  Cells, apply_authorization, apply_cancellation, route_to, MachineRef, action_matches,
  CancellationBinding, CancellationAuthorization, CancellationDecision, action_for, matches_machine,
  CancellationController, CancellationError, is_contract_digest, MachineError, CancellationCheck,
  is_zero, consume, authorized, invalid_cancellation, decision_for, new_cell, set_cell,
  cannot_route,
}

same_cell : (n : ℕ) (b : Bool) → (if n == n then true else b) ≡ true
same_cell n b = ground arith

consume-used :
    (cells : Cells) (ref : MachineRef) (a : CancellationAuthorization)
    (result : Result MachineError (Unit {0}) × Option Machine) {cells' : Cells}
    {moved : Option Machine}
    → consume cells ref a result ≡ (ok tt, cells', moved)
    → cells'.used a.used ≡ true
consume-used cells ref a result h = elim (Bool-cases (cells.used a.used)) [
  | inl used ↦ absurd (no_error (ap (λ x. x.0) (rw used at h)))
  | inr fresh ↦
      sym (ap (λ x. x.1.used a.used) (rw fresh at h)) ∙ same_cell a.used (cells.used a.used)
]
  where
    no_error : {e : CancellationError} → ¬ (◌≡◌ {A = CancellationCheck} (err e) (ok tt))
    no_error h = cc

apply_authorization-used :
    (cells : Cells) (ref : MachineRef) (decision : CancellationDecision)
    (a : CancellationAuthorization) {cells' : Cells} {moved : Option Machine}
    → apply_authorization cells ref decision (some a) ≡ (ok tt, cells', moved)
    → cells'.used a.used ≡ true
unfolding apply_authorization
apply_authorization-used cells ref decision a h = elim (Bool-cases (authorized ref decision a)) [
  | inl given ↦ consume-used cells ref a _ (rw given at h)
  | inr missing ↦ absurd (no_error (ap (λ x. x.0) (rw missing at h)))
]
  where
    no_error : {e : CancellationError} → ¬ (◌≡◌ {A = CancellationCheck} (err e) (ok tt))
    no_error h = cc

used-apply_authorization :
    (cells : Cells) (ref : MachineRef) (decision : CancellationDecision)
    (a : CancellationAuthorization)
    → cells.used a.used ≡ true
    → (e : CancellationError) × (apply_authorization cells ref decision (some a)
        ≡ (err e, cells, some ref.machine))
unfolding apply_authorization
used-apply_authorization cells ref decision a used = elim (Bool-cases (authorized ref decision a)) [
  | inl given ↦
      (invalid_cancellation "cancellation authorization already consumed", rw (given, used) refl)
  | inr missing ↦ (invalid_cancellation "missing or mismatched authorization", rw missing refl)
]

-- Once a decision moved a machine, its cell is set: no copy of the decision, applied to whatever
-- machine, moves one again, and it changes neither the cells nor that machine.
pub apply_cancellation_once :
    (cells : Cells) (ref : MachineRef) (decision : CancellationDecision)
    (a : CancellationAuthorization) {cells' : Cells} {moved : Option Machine}
    → decision.authorization ≡ some a
    → apply_cancellation cells (some ref) decision ≡ (ok tt, cells', moved)
    → (copy : CancellationDecision) (b : CancellationAuthorization) (other : MachineRef)
    → copy.authorization ≡ some b
    → b.used ≡ a.used
    → (e : CancellationError) × (apply_cancellation cells' (some other) copy
        ≡ (err e, cells', some other.machine))
unfolding apply_cancellation
apply_cancellation_once cells ref decision a {cells' = cells'} has h copy b other has' same =
    let used = apply_authorization-used cells ref decision a (rw has at h) in
    let again = used-apply_authorization cells' other copy b (ap cells'.used same ∙ used) in
    (again.0, ap (apply_authorization cells' other copy) has' ∙ again.1)

all_given :
    (a b c d e f g h : Bool)
    → a ≡ true
    → b ≡ true
    → c ≡ true
    → d ≡ true
    → e ≡ true
    → f ≡ false
    → g ≡ false
    → h ≡ true
    → (a && (b && (c && (d && (e && (not f && (not g && h))))))) ≡ true
all_given a b c d e f g h p q r s t u v w = ground arith

-- The routes of a cancellation.
pub data IsRoute : OperationState → Type 0 where
  to_cancelled : IsRoute OperationState.cancelled
  to_rollback : IsRoute OperationState.rollback

route_matches :
    {target : OperationState}
    → IsRoute target
    → action_matches (action_for target) (some target) ≡ true
route_matches to_cancelled = refl
route_matches to_rollback = refl

-- A binding of the machine that `ApplyCancellation` takes for complete.
pub record IsComplete (machine : Machine) (binding : CancellationBinding) : Type 0 where
  pub bound : matches_machine binding machine ≡ true
  pub contract : is_contract_digest binding.contract_hash ≡ true
  pub journal : is_contract_digest binding.journal_hash ≡ true
  pub numbered : (binding.sequence == 0) ≡ false
  pub dated : is_zero binding.requested_at ≡ false

unset_cell : (n : ℕ) (b : Bool) → (if n == n then false else b) ≡ false
unset_cell n b = ground arith

same_number : (n : ℕ) → (n == n) ≡ true
same_number n = ground arith

fresh_authorized :
    (cells : Cells) (ref : MachineRef) (target : OperationState) (binding : CancellationBinding)
    (a : CancellationAuthorization)
    → IsRoute target
    → IsComplete ref.machine binding
    → a.machine ≡ ref.address
    → a.target ≡ target
    → a.binding ≡ binding
    → authorized ref (decision_for cells ref target binding) a ≡ true
unfolding authorized
fresh_authorized cells ref target binding a route complete at to bound =
    all_given (a.machine == ref.address) (state_eq a.target target)
      (matches_machine a.binding ref.machine) (is_contract_digest a.binding.contract_hash)
      (is_contract_digest a.binding.journal_hash) (a.binding.sequence == 0)
      (is_zero a.binding.requested_at) _ (rw at (same_number ref.address))
      (rw to (state_eq_refl target)) (rw bound complete.bound) (rw bound complete.contract)
      (rw bound complete.journal) (rw bound complete.numbered) (rw bound complete.dated)
      (route_matches route)

fresh_consumed :
    (cells : Cells) (ref : MachineRef) (target : OperationState) (a : CancellationAuthorization)
    (result : Result MachineError (Unit {0}) × Option Machine)
    → a.used ≡ cells.next
    → a.generation ≡ ref.machine.generation
    → a.from ≡ ref.machine.state
    → result ≡ (ok tt, some (advance ref.machine target))
    → consume (new_cell cells) ref a result
      ≡ (ok tt, set_cell a.used (new_cell cells), some (advance ref.machine target))
fresh_consumed cells ref target a result used generation from moved =
    rw
      (
        used,
        unset_cell cells.next (cells.used cells.next),
        generation,
        from,
        same_number ref.machine.generation,
        state_eq_refl ref.machine.state,
        moved,
      )
      refl

-- A routed decision whose binding is complete moves its machine to the target, once.
pub route_to-apply_cancellation :
    (cells : Cells) (ref : MachineRef) (target : OperationState) (binding : CancellationBinding)
    {c : CancellationController} {d : CancellationDecision} {cells' : Cells}
    → IsRoute target
    → IsComplete ref.machine binding
    → route_to cells ref target binding ≡ ok (c, d, cells')
    → apply_cancellation cells' (some ref) d
      ≡ (ok tt, set_cell cells.next cells', some (advance ref.machine target))
unfolding route_to apply_cancellation apply_authorization
route_to-apply_cancellation cells ref target binding route complete h =
    let (u, passed, same) =
      >>=-ok
        (reject_if (not (can_transition ref.machine.state target))
          (cannot_route ref.machine.state target))
        _ h in
    let edge = not-false _ (reject_if-passed _ _ passed) in
    let made = ok-injective same in
    let a : CancellationAuthorization = record {
      machine = ref.address;
      generation = ref.machine.generation;
      from = ref.machine.state;
      target = target;
      binding = binding;
      used = cells.next;
    } in
    let moved =
      allowed-transition ref.machine target true (record { edge = edge; decided = λ x y. refl }) in
    subst
      (λ x.
        apply_cancellation x.2 (some ref) x.1
        ≡ (ok tt, set_cell cells.next x.2, some (advance ref.machine target)))
      made
      (rw (fresh_authorized cells ref target binding a route complete refl refl refl)
        (fresh_consumed cells ref target a _ refl refl refl moved))
