-- ===== src/Workflow/Cancellation/Request/Safe.antt =====
-- What the decisions of `Request` in internal/workflow/cancellation.go say about mutations.
use ctrldb.Prelude.{
  >>=-ok, ok-injective, subst, ap, sym, ◌∙◌, Bool, arith, List, Option, String, ◌++◌, ◌≡◌, false,
  refl, ◌∷◌, [], ok, some, true, reject_if, none, inl, get_elem?, inr,
}
use ctrldb.Domain.Retry.{MutationObservation}
use ctrldb.Domain.Journal.{JournalEntry, JournalEntryKind}
use ctrldb.Workflow.Cancellation.Request.{
  request_cancellation, cancellation_target, request_by, occurred_or_unknown, OperationState,
  Machine, CancellationController, ExecutionContract, Cells, CancellationRequest, MachineRef,
  ExecutionStepContract, CancellationDecision, pre_mutation, validate_journal, request_check,
  invalid_cancellation, request_binding,
}
use ctrldb.Workflow.Cancellation.Context.{
  cancellation_context, validate_foundation, progress_entries, unobserved, current_step,
}
use ctrldb.Workflow.Journal.Stream.Evidence.{any_shows, validate_journal_cancelled}
use ctrldb.Workflow.Cancellation.Request.Routes.{
  request_in_flight-ok, route_to-decision, some_eq, persist-ok,
}
use ctrldb.Workflow.Cancellation.Request.Observed.{progress_entries-nothing}
use ctrldb.Workflow.Cancellation.Restore.{point_of_no_return_reached}

unmutated_target :
    (o : MutationObservation)
    → cancellation_target (occurred_or_unknown o) ≡ OperationState.cancelled
    → o ≡ MutationObservation.not_occurred
unmutated_target MutationObservation.not_occurred h = refl
unmutated_target MutationObservation.occurred h = cc
unmutated_target MutationObservation.unknown h = cc
unmutated_target (MutationObservation.other s) h = cc

-- The route that a durable request records.
abbrev pub recorded_route : JournalEntry → Option OperationState
recorded_route entry = elim entry.cancellation [
  | none ↦ none
  | some request ↦ some request.required_route
]

-- Where no mutation is observed in the context, the journal shows none.
cancellation_context-unobserved :
    (hash : List JournalEntry → Option String) (machine : Machine) (contract : ExecutionContract)
    (entries : List JournalEntry) (request : CancellationRequest) (step : ExecutionStepContract)
    (observation : MutationObservation)
    → cancellation_context hash machine contract entries request ≡ ok (step, observation)
    → observation ≡ MutationObservation.not_occurred
    → any_shows entries ≡ false
unfolding cancellation_context
cancellation_context-unobserved hash machine contract entries request step observation h o =
    let (a, founded, rest) =
      >>=-ok (validate_foundation hash machine request contract entries) _ h in
    let (u, open_yet, later) =
      >>=-ok
        (reject_if (point_of_no_return_reached contract entries)
          (invalid_cancellation "point of no return has been reached"))
        _ rest in
    let (p, progressed, third) = >>=-ok (progress_entries contract unobserved entries) _ later in
    let (s, current, last) = >>=-ok (current_step (get_elem? contract.steps p.next)) _ third in
    (progress_entries-nothing contract unobserved entries progressed
      (ap (λ x. x.1) (ok-injective last) ∙ o)).1

-- In a state that mutations may precede: a request is sent to CANCELLED, at once or by its durable
-- record, only if no entry of the journal is evidence of a mutation; and a durable record extends
-- the journal to a valid one.
pub request_cancellation_unmutated :
    (hash : List JournalEntry → Option String) (controller : CancellationController) (cells : Cells)
    (ref : MachineRef) (request : CancellationRequest) (contract : ExecutionContract)
    (entries : List JournalEntry) {c : CancellationController} {d : CancellationDecision}
    {cells' : Cells}
    → pre_mutation ref.machine.state ≡ false
    → request_cancellation hash controller cells (some ref) request contract entries
      ≡ ok (c, d, cells')
    → (d.target ≡ some OperationState.cancelled → any_shows entries ≡ false)
      × ((entry : JournalEntry)
          → d.journal_entry ≡ some entry
          → (validate_journal (entries ++ entry ∷ []) ≡ ok tt)
            × (recorded_route entry ≡ some OperationState.cancelled → any_shows entries ≡ false))
unfolding request_cancellation request_by
request_cancellation_unmutated hash controller cells ref request contract entries late h =
    let (journal_hash, checked, rest) =
      >>=-ok (request_check hash controller ref.machine request contract entries) _ h in
    let ((step, observation), seen, in_flight) =
      >>=-ok (cancellation_context hash ref.machine contract entries request) _ (rw late at rest) in
    let quiet =
      cancellation_context-unobserved hash ref.machine contract entries request step observation
        seen in
    elim (request_in_flight-ok controller cells ref request contract entries
      (request_binding request contract journal_hash) step observation in_flight) [
        | inl routed ↦
            let same = route_to-decision cells ref _ _ routed in
            (
              λ to. quiet (unmutated_target observation (some_eq (ap (λ x. x.target) same ∙ to))),
              λ entry e. absurd (no_entry entry (ap (λ x. x.journal_entry) same ∙ e)),
            )
        | inr persisted ↦
            let (no_target, recorded, extended) =
              persist-ok controller cells ref request contract entries step observation persisted in
            (
              λ to. absurd (nowhere OperationState.cancelled (no_target ∙ to)),
              λ entry e.
                  let same = some_entry (recorded ∙ e) in
                  (
                    subst (λ x. validate_journal (entries ++ x ∷ []) ≡ ok tt) same extended,
                    λ route.
                        quiet
                          (unmutated_target observation (some_eq (ap recorded_route same ∙ route))),
                  ),
            )
      ]
  where
    no_entry : (entry : JournalEntry) → ¬ (none ≡ some entry)
    no_entry entry h = cc

    nowhere : (target : OperationState) → ¬ (none ≡ some target)
    nowhere target h = cc

    some_entry : {a b : JournalEntry} → some a ≡ some b → a ≡ b
    some_entry h = cc

any_shows-prefix : (xs ys : List JournalEntry) → any_shows (xs ++ ys) ≡ false → any_shows xs ≡ false
any_shows-prefix [] ys h = refl
any_shows-prefix (x ∷ xs) ys h = ground (arith, any_shows-prefix xs ys)

-- In DISCOVER, VALIDATE, PLAN, APPROVED_WAITING and LOCK an accepted request is sent to CANCELLED,
-- whatever the journal shows. But where the journal shows a mutation, as it may after a resume from
-- PAUSED, no transition to CANCELLED extends the journal to a valid one.
pub request_cancellation_early :
    (hash : List JournalEntry → Option String) (controller : CancellationController) (cells : Cells)
    (ref : MachineRef) (request : CancellationRequest) (contract : ExecutionContract)
    (entries : List JournalEntry) {c : CancellationController} {d : CancellationDecision}
    {cells' : Cells}
    → pre_mutation ref.machine.state ≡ true
    → request_cancellation hash controller cells (some ref) request contract entries
      ≡ ok (c, d, cells')
    → (d.target ≡ some OperationState.cancelled)
      × ((entry : JournalEntry)
          → any_shows entries ≡ true
          → entry.kind ≡ JournalEntryKind.transition
          → entry.operation_state ≡ OperationState.cancelled
          → ¬ (validate_journal (entries ++ entry ∷ []) ≡ ok tt))
unfolding request_cancellation request_by
request_cancellation_early hash controller cells ref request contract [] early h =
    let (journal_hash, checked, rest) =
      >>=-ok (request_check hash controller ref.machine request contract []) _ h in
    (
      sym (
          ap (λ x. x.target)
            (route_to-decision cells ref OperationState.cancelled _ (rw early at rest))),
      λ entry shown. cc,
    )
request_cancellation_early hash controller cells ref request contract (first ∷ xs) early h =
    let (journal_hash, checked, rest) =
      >>=-ok (request_check hash controller ref.machine request contract (first ∷ xs)) _ h in
    (
      sym (
          ap (λ x. x.target)
            (route_to-decision cells ref OperationState.cancelled _ (rw early at rest))),
      λ entry shown kind state valid.
          clash
            (any_shows-prefix (first ∷ xs) (entry ∷ [])
              (validate_journal_cancelled first xs entry [] valid kind state).1)
            shown,
    )
  where
    clash : {b : Bool} → b ≡ false → ¬ (b ≡ true)
    clash f t = cc
