-- ===== src/Workflow/Cancellation/Request/Applied.antt =====
-- A routed request of internal/workflow/cancellation.go can be applied.
use ctrldb.Prelude.{
  >>=-ok, ◌∙◌, Bool, List, Option, String, ◌≡◌, some, true, ok, none, inl, inr, false,
}
use ctrldb.Workflow.Cancellation.Request.{
  request_cancellation, JournalEntry, request_by, CancellationController, Cells, MachineRef,
  CancellationRequest, ExecutionContract, CancellationDecision, request_binding, OperationState,
  request_check, pre_mutation, occurred_or_unknown,
}
use ctrldb.Workflow.Cancellation.Context.{cancellation_context}
use ctrldb.Workflow.Cancellation.Apply.OneShot.{IsComplete, IsRoute, to_cancelled}
use ctrldb.Workflow.Cancellation.Apply.{apply_cancellation, set_cell}
use ctrldb.Workflow.Machine.{advance}
use ctrldb.Workflow.Cancellation.Request.Routes.{
  target_IsRoute, routed-apply_cancellation, request_in_flight-ok, persist-ok,
}
use ctrldb.Workflow.Cancellation.Request.Complete.{request_check-IsComplete}
use ctrldb.Workflow.Patterns.{is_contract_digest}

module _ (hash : List JournalEntry → Option String) where
  request_by-apply_cancellation :
      (b : Bool) (controller : CancellationController) (cells : Cells) (ref : MachineRef)
      (request : CancellationRequest) (contract : ExecutionContract) (entries : List JournalEntry)
      (journal_hash : String) {c : CancellationController} {d : CancellationDecision}
      {cells' : Cells}
      → IsComplete ref.machine (request_binding request contract journal_hash)
      → request_by hash b controller cells ref request contract entries journal_hash
        ≡ ok (c, d, cells')
      → (target : OperationState) → d.target ≡ some target
      → IsRoute target
        × (apply_cancellation cells' (some ref) d
            ≡ (ok tt, set_cell cells.next cells', some (advance ref.machine target)))
  unfolding request_by
  request_by-apply_cancellation true controller cells ref request contract entries journal_hash
        complete h target t =
      routed-apply_cancellation cells ref OperationState.cancelled
        (request_binding request contract journal_hash) to_cancelled complete h target t
  request_by-apply_cancellation false controller cells ref request contract entries journal_hash
        complete h target t =
      let ((step, observation), seen, rest) =
        >>=-ok (cancellation_context hash ref.machine contract entries request) _ h in
      let binding = request_binding request contract journal_hash in
      elim (request_in_flight-ok controller cells ref request contract entries binding step
        observation rest) [
          | inl routed ↦
              routed-apply_cancellation cells ref _ _
                (target_IsRoute (occurred_or_unknown observation))
                (record {
                  bound = complete.bound;
                  contract = complete.contract;
                  journal = complete.journal;
                  numbered = complete.numbered;
                  dated = complete.dated;
                })
                routed target t
          | inr persisted ↦ absurd (
              no_target target (
                (persist-ok controller cells ref request contract entries step observation
                  persisted).0
                ∙ t))
        ]
    where
      no_target : (target : OperationState) → ¬ (none ≡ some target)
      no_target target h = cc

-- Where the journal hash is a digest, as SHA-256 in hexadecimal is: a request that returns a decision
-- with a target sends the operation to CANCELLED or to ROLLBACK, and the decision then moves the
-- machine there.
pub request_cancellation-apply_cancellation :
    (hash : List JournalEntry → Option String)
    → ((es : List JournalEntry) (h : String) → hash es ≡ some h → is_contract_digest h ≡ true)
    → (controller : CancellationController) (cells : Cells) (ref : MachineRef)
      (request : CancellationRequest) (contract : ExecutionContract) (entries : List JournalEntry)
      {c : CancellationController} {d : CancellationDecision} {cells' : Cells}
    → request_cancellation hash controller cells (some ref) request contract entries
      ≡ ok (c, d, cells')
    → (target : OperationState) → d.target ≡ some target
    → IsRoute target
      × (apply_cancellation cells' (some ref) d
          ≡ (ok tt, set_cell cells.next cells', some (advance ref.machine target)))
unfolding request_cancellation
request_cancellation-apply_cancellation hash digests controller cells ref request contract entries h
      target t =
    let (journal_hash, checked, rest) =
      >>=-ok (request_check hash controller ref.machine request contract entries) _ h in
    let (complete, journal) =
      request_check-IsComplete hash digests controller ref.machine request contract entries
        checked in
    request_by-apply_cancellation hash (pre_mutation ref.machine.state) controller cells ref request
      contract entries journal_hash complete rest target t
