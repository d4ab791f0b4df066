-- ===== src/Workflow/Cancellation/Request/RoundTrip.antt =====
-- `Request` and `RestoreCancellationController` of internal/workflow/cancellation.go, one after the
-- other.
use ctrldb.Prelude.{
  >>=-ok, subst, ap, ◌∙◌, refl, List, Option, String, ◌≡◌, ok, ◌&&◌, str_eq, false, ◌++◌, ◌∷◌, [],
  take, some, true, get_elem?, ℕ, Bool, none, inl, inr,
}
use ctrldb.Workflow.Cancellation.Restore.{
  restore_controller, restore_check, unplayed, replay_entries, entry_crosses,
}
use ctrldb.Domain.Journal.{JournalEntry}
use ctrldb.Domain.Contract.{ExecutionContract, ExecutionStepContract}
use ctrldb.Workflow.Machine.{Machine}
use ctrldb.Workflow.Cancellation.{
  CancellationController, CancellationRequest, MutationObservation, occurred_or_unknown,
  cancellation_target, MachineRef, CancellationDecision, pre_mutation, OperationState,
}
use ctrldb.Workflow.Cancellation.Request.{
  request_entry, validate_journal, request_binding, request_by, request_cancellation, Cells,
  request_check,
}
use ctrldb.Workflow.Cancellation.Context.{cancellation_context, unobserved}
use ctrldb.Workflow.Cancellation.Request.Durable.{request_entry-replay, cancellation_context-ok}
use ctrldb.Workflow.Cancellation.Request.Queued.{
  restore_check-append, replay_entries-append, replay_last, replay_check-append, restored,
  request_in_flight-bounded,
}
use ctrldb.Workflow.Cancellation.Request.Restored.{replay_entries-ok}
use ctrldb.Workflow.Cancellation.Request.Safe.{recorded_route}
use ctrldb.Workflow.Cancellation.Request.Routes.{
  route_to-decision, request_in_flight-ok, persist-ok,
}

restore_controller-check :
    (hash : List JournalEntry → Option String) (entries : List JournalEntry) (o p : String)
    (contract : ExecutionContract) {c : CancellationController}
    → restore_controller hash entries o p contract ≡ ok c
    → restore_check entries o p contract ≡ ok tt
unfolding restore_controller
restore_controller-check hash entries o p contract h =
    (>>=-ok (restore_check entries o p contract) _ h).1

-- The restoration from a journal that ends with the durable record of a request.
in_flight-restore_controller :
    (hash : List JournalEntry → Option String) (machine : Machine) (request : CancellationRequest)
    (contract : ExecutionContract) (entries : List JournalEntry) (step : ExecutionStepContract)
    (observation : MutationObservation) (entry : JournalEntry) (h : String)
    → request_entry request machine.state step.id contract.digest observation ≡ entry
    → cancellation_context hash machine contract entries request ≡ ok (step, observation)
    → (occurred_or_unknown observation && str_eq contract.rollback_boundary "none") ≡ false
    → validate_journal (entries ++ entry ∷ []) ≡ ok tt
    → hash (take request.sequence (entries ++ entry ∷ [])) ≡ some h
    → restore_controller hash (entries ++ entry ∷ []) machine.operation_id machine.plan_id contract
      ≡ ok (record {
        queued = true;
        target = some (cancellation_target (occurred_or_unknown observation));
        binding = record (request_binding request contract h) {
          step_id = step.id;
          cancel_safe = step.cancel_safe;
        };
      })
in_flight-restore_controller hash machine request contract entries step observation entry h is seen
      bounded extended hashed =
    let ((c, restorable), open_yet, (p, progressed, current)) =
      cancellation_context-ok hash machine contract entries request step observation seen in
    let all = entries ++ entry ∷ [] in
    let checked =
      restore_check-append entries entry machine.operation_id machine.plan_id contract
        (restore_controller-check hash entries machine.operation_id machine.plan_id contract
          restorable)
        extended in
    let (r, played, next) =
      replay_entries-ok hash contract all unobserved unplayed entries refl progressed in
    let (r', last, target, binding) =
      request_entry-replay contract r request machine.state step observation
        (hash (take request.sequence all)) h hashed
        (ap (get_elem? contract.steps) next ∙ current) in
    let replayed : replay_entries hash contract all unplayed all ≡ ok r' =
      replay_entries-append hash contract all unplayed entries (entry ∷ []) played
      ∙ subst (λ e. replay_entries hash contract all r (e ∷ []) ≡ ok r') is
          (replay_last hash contract all r request machine.state step.id observation last) in
    let passed =
      replay_check-append contract entries entry r' observation target
        (subst (λ e. (point : ℕ) → entry_crosses contract point e.kind e ≡ false) is
          (λ point. refl))
        open_yet bounded in
    restored hash all machine.operation_id machine.plan_id contract r' _ checked replayed passed
      target
    ∙ ap
        (λ b. ok (record {
          queued = true;
          target = some (cancellation_target (occurred_or_unknown observation));
          binding = b;
        }))
        binding

-- The controller of a restored request with the given entry and journal hash.
abbrev pub IsQueued : JournalEntry → String → CancellationController → Type 0
IsQueued entry h c =
    (c.queued ≡ true)
    × (c.target ≡ recorded_route entry)
    × (c.binding.sequence ≡ entry.sequence)
    × (c.binding.requested_at ≡ entry.recorded_at)
    × (c.binding.contract_hash ≡ entry.contract_hash)
    × (c.binding.journal_hash ≡ h)

module _ (hash : List JournalEntry → Option String) where
  request_by-restore_controller :
      (b : Bool) (controller : CancellationController) (cells : Cells) (ref : MachineRef)
      (request : CancellationRequest) (contract : ExecutionContract) (entries : List JournalEntry)
      (journal_hash : String) (entry : JournalEntry) (h : String) {c : CancellationController}
      {d : CancellationDecision} {cells' : Cells}
      → request_by hash b controller cells ref request contract entries journal_hash
        ≡ ok (c, d, cells')
      → d.journal_entry ≡ some entry
      → hash (take entry.sequence (entries ++ entry ∷ [])) ≡ some h
      → (r : CancellationController) × (restore_controller hash
            (entries ++ entry ∷ [])
            ref.machine.operation_id
            ref.machine.plan_id
            contract
          ≡ ok r)
        × IsQueued entry h r
  unfolding request_by
  request_by-restore_controller true controller cells ref request contract entries journal_hash
        entry h made recorded hashed =
      absurd (
        no_entry entry (
          ap (λ x. x.journal_entry) (route_to-decision cells ref OperationState.cancelled _ made)
          ∙ recorded))
    where
      no_entry : (entry : JournalEntry) → ¬ (none ≡ some entry)
      no_entry entry h = cc
  request_by-restore_controller false controller cells ref request contract entries journal_hash
        entry h made recorded hashed =
      let ((step, observation), seen, in_flight) =
        >>=-ok (cancellation_context hash ref.machine contract entries request) _ made in
      let binding = request_binding request contract journal_hash in
      elim (request_in_flight-ok controller cells ref request contract entries binding step
        observation in_flight) [
          | inl routed ↦ absurd (
              no_entry entry
                (ap (λ x. x.journal_entry) (route_to-decision cells ref _ _ routed) ∙ recorded))
          | inr persisted ↦
              let (no_target, written, extended) =
                persist-ok controller cells ref request contract entries step observation
                  persisted in
              let is = some_entry (written ∙ recorded) in
              subst
                (λ e.
                  hash (take e.sequence (entries ++ e ∷ [])) ≡ some h
                  → (r : CancellationController) × (restore_controller hash (entries ++ e ∷ [])
                        ref.machine.operation_id ref.machine.plan_id contract
                      ≡ ok r)
                    × IsQueued e h r)
                is
                (λ hashed. (
                  record {
                    queued = true;
                    target = some (cancellation_target (occurred_or_unknown observation));
                    binding = record (request_binding request contract h) {
                      step_id = step.id;
                      cancel_safe = step.cancel_safe;
                    };
                  },
                  in_flight-restore_controller hash ref.machine request contract entries step
                      observation _ h refl seen
                      (request_in_flight-bounded controller cells ref request contract entries
                        binding step observation in_flight)
                      extended hashed,
                  (refl, refl, refl, refl, refl, refl),
                ))
                hashed
        ]
    where
      no_entry : (entry : JournalEntry) → ¬ (none ≡ some entry)
      no_entry entry h = cc

      some_entry : {a b : JournalEntry} → some a ≡ some b → a ≡ b
      some_entry h = cc

-- A request that returns a durable record is not lost: from the journal that the record extends,
-- where that journal can be hashed, the controller is restored as queued, on the way to the recorded
-- route, and bound to the number, the time and the contract of the record and to the journal's hash.
pub request_cancellation-restore_controller :
    (hash : List JournalEntry → Option String) (controller : CancellationController) (cells : Cells)
    (ref : MachineRef) (request : CancellationRequest) (contract : ExecutionContract)
    (entries : List JournalEntry) (entry : JournalEntry) (h : String) {c : CancellationController}
    {d : CancellationDecision} {cells' : Cells}
    → request_cancellation hash controller cells (some ref) request contract entries
      ≡ ok (c, d, cells')
    → d.journal_entry ≡ some entry
    → hash (take entry.sequence (entries ++ entry ∷ [])) ≡ some h
    → (r : CancellationController) × (restore_controller hash
          (entries ++ entry ∷ [])
          ref.machine.operation_id
          ref.machine.plan_id
          contract
        ≡ ok r)
      × IsQueued entry h r
unfolding request_cancellation
request_cancellation-restore_controller hash controller cells ref request contract entries entry h
      made recorded hashed =
    let (journal_hash, checked, rest) =
      >>=-ok (request_check hash controller ref.machine request contract entries) _ made in
    request_by-restore_controller hash (pre_mutation ref.machine.state) controller cells ref request
      contract entries journal_hash entry h rest recorded hashed
