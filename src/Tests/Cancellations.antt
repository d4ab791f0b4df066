-- ===== src/Tests/Cancellations.antt =====
-- Cancellation requests for internal/workflow/cancellation.go.
use ctrldb.Workflow.Journal.Stream.{dispatch}
use ctrldb.Workflow.Journal.Entry.{
  validate_journal_entry, validate_body, validate_journal_time, validate_journal_step,
  validate_journal_end, validate_transition_pause, validate_journal_cancellation,
  validate_journal_pause,
}
use ctrldb.Workflow.Machine.{new_machine, restore_machine}
use ctrldb.Workflow.Patterns.{is_operation_id, is_plan_id, is_step_id}
use ctrldb.Workflow.Journal.Handlers.{
  on_request, on_transition, on_step, transition_guard, step_guard, leave_paused, settle_pending,
  settle_pause, step_under_request, request_guard,
}
use ctrldb.Workflow.Route.{route_reachable, search_route}
use ctrldb.Tests.Journals.{at, digest, transition_to, attempt, to_execute, first, machine_in}
use ctrldb.Prelude.{
  subst, checks, reject_if, refl, List, ℕ, none, some, Option, String, false, ◌∷◌, true, ◌++◌, ◌≡◌,
  [], ok, err,
}
use ctrldb.Workflow.Machine.{transition, Machine, advance, transition_check, can_transition}
use ctrldb.Domain.Contract.{ExecutionStepContract, ExecutionContract, no_trigger, StepEffect}
use ctrldb.Workflow.Patterns.{is_contract_digest}
use ctrldb.Domain.Operation.{OperationState}
use ctrldb.Workflow.Cancellation.Apply.{
  Cells, apply_cancellation, decision_for, new_cell, apply_authorization, set_cell, authorized,
  route_to,
}
use ctrldb.Workflow.Cancellation.{
  CancellationBinding, CancellationDecision, CancellationAuthorization, CancellationError,
  CancellationRequest, MachineRef, persist_request, unavailable_ui, empty_controller,
  CancellationController,
}
use ctrldb.Domain.Journal.{JournalEntry, JournalEntryKind}
use ctrldb.Workflow.Cancellation.Request.{
  request_cancellation, request_binding, request_entry, request_check, request_by,
  request_in_flight, persist,
}
use ctrldb.Workflow.Cancellation.Context.{
  validate_request, validate_foundation, foundation_check, cancellation_context, progress_entries,
  progress_entry, progress_step,
}
use ctrldb.Workflow.Cancellation.Apply.OneShot.{IsRoute, apply_cancellation_once}
use ctrldb.Domain.Identity.{ExecutionIdentity}
use ctrldb.Workflow.Journal.Stream.Evidence.{any_shows}
use ctrldb.Domain.Outcome.{StepOutcome}
use ctrldb.Domain.Retry.{MutationObservation, FailureBehavior}
use ctrldb.Prelude.Int.{pos}
use ctrldb.Workflow.Cancellation.Request.Applied.{request_cancellation-apply_cancellation}
use ctrldb.Workflow.Journal.Stream.{
  validate_journal, scan_journal, validate_from, validate_next, entry_guard,
}
use ctrldb.Workflow.Cancellation.Request.Safe.{
  recorded_route, request_cancellation_early, request_cancellation_unmutated,
}
use ctrldb.Workflow.Cancellation.Restore.{
  restore_controller, restore_check, replay_entries, replay_entry, replay_step, replay_request,
  replay_check, point_of_no_return_reached,
}
use ctrldb.Workflow.Cancellation.Request.RoundTrip.{
  IsQueued, request_cancellation-restore_controller,
}

abbrev pub create_disk : ExecutionStepContract
create_disk = record {
  id = "create-disk";
  executor = "gcloud";
  executing_identity = ExecutionIdentity.operator;
  command_summary = record { value = "create the disk" };
  effect = StepEffect.mutation;
  minimum_approval = 1;
  target_kinds = "disk" ∷ [];
  required_permissions = "compute.disks.create" ∷ [];
  requires_step_up = false;
  requires_recovery_asset = false;
  exposure_requirement = none;
  idempotent = true;
  retry = record {
    max_attempts = 4;
    initial_backoff_seconds = pos 10;
    max_backoff_seconds = pos 60;
  };
  cancel_safe = false;
  timeout_seconds = pos 600;
  success_condition = record { value = "the disk exists" };
  failure_behavior = FailureBehavior.rollback;
}

abbrev pub disk_contract : ExecutionContract
disk_contract = record {
  workflow_id = "WF-DSK-01";
  rollback_boundary = "delete-disk";
  point_of_no_return = "";
  point_of_no_return_trigger = no_trigger;
  steps = create_disk ∷ [];
  digest = digest;
}

-- A hash that is a digest.
abbrev pub hash : List JournalEntry → Option String
hash entries = some digest

digests : (es : List JournalEntry) (h : String) → hash es ≡ some h → is_contract_digest h ≡ true
unfolding is_contract_digest
digests es h same = subst (λ x. is_contract_digest x ≡ true) (some_text same) refl
  where
    some_text : {a b : String} → some a ≡ some b → a ≡ b
    some_text h = cc

abbrev pub request_at : ℕ → CancellationRequest
request_at n = record {
  operation_id = "op-00000000000000ff";
  plan_id = "plan-00000000000000aa";
  sequence = n;
  requested_at = at n;
}

abbrev pub ref_in : OperationState → ℕ → MachineRef
ref_in state n = record { address = 7; machine = machine_in state n }

abbrev pub no_cells : Cells
no_cells = record { next = 0; used = λ i. false }

-- A request right after the start.
abbrev early_binding : CancellationBinding
early_binding = request_binding (request_at 2) disk_contract digest

abbrev early_decision : CancellationDecision
early_decision =
    decision_for no_cells (ref_in OperationState.discover 0) OperationState.cancelled early_binding

abbrev early_authorization : CancellationAuthorization
early_authorization = record {
  machine = 7;
  generation = 0;
  from = OperationState.discover;
  target = OperationState.cancelled;
  binding = early_binding;
  used = 0;
}

-- A request while an attempt runs.
abbrev pub in_execute : List JournalEntry
in_execute = first ∷ to_execute ++ attempt 6 1 StepOutcome.failed true ∷ []

abbrev pub durable : JournalEntry
durable =
    request_entry (request_at 7) OperationState.execute "create-disk" digest
      MutationObservation.occurred

abbrev durable_decision : CancellationDecision
durable_decision = record {
  action = persist_request;
  target = none;
  journal_entry = some durable;
  ui_state = unavailable_ui;
  authorization = none;
}

-- A request after a mutation, a pause and a resume.
abbrev pause_at : ℕ → JournalEntry
pause_at n = record (transition_to n OperationState.paused) {
  pause = some (record {
    paused_at = at n;
    pause_reason = record { value = "quota" };
    mutation_occurred = true;
    resume_by = at 100;
    reapproval_required = false;
  });
}

abbrev resumed : List JournalEntry
resumed = in_execute ++ pause_at 7 ∷ transition_to 8 OperationState.discover ∷ []

abbrev resumed_decision : CancellationDecision
resumed_decision =
    decision_for no_cells (ref_in OperationState.discover 6) OperationState.cancelled
      (request_binding (request_at 9) disk_contract digest)

runs :
    (request_cancellation hash empty_controller no_cells
        (some (ref_in OperationState.discover 0))
        (request_at 2)
        disk_contract
        (first ∷ [])
      ≡ ok (empty_controller, early_decision, new_cell no_cells))
    × (request_cancellation hash empty_controller no_cells
          (some (ref_in OperationState.execute 4))
          (request_at 7)
          disk_contract
          in_execute
        ≡ ok (empty_controller, durable_decision, no_cells))
    × (request_cancellation hash empty_controller no_cells
          (some (ref_in OperationState.discover 6))
          (request_at 9)
          disk_contract
          resumed
        ≡ ok (empty_controller, resumed_decision, new_cell no_cells))
unfolding request_cancellation request_check validate_request validate_foundation foundation_check
    restore_controller restore_check replay_entries replay_entry replay_step replay_request
    replay_check point_of_no_return_reached request_by route_to cancellation_context
    progress_entries progress_entry progress_step request_in_flight persist validate_journal
    scan_journal validate_from validate_next entry_guard dispatch on_request request_guard
    on_transition on_step validate_journal_entry validate_body validate_journal_time
    validate_journal_step validate_journal_end validate_transition_pause validate_journal_pause
    transition_guard step_guard leave_paused settle_pending settle_pause step_under_request
    transition transition_check validate_journal_cancellation route_reachable search_route
    new_machine restore_machine checks reject_if is_operation_id is_plan_id is_contract_digest
    is_step_id can_transition
runs = (refl, refl, refl)

abbrev one_cell : Cells
one_cell = new_cell no_cells

abbrev cancelled_machine : Machine
cancelled_machine = advance (machine_in OperationState.discover 0) OperationState.cancelled

request_cancellation-apply_cancellation_example :
    IsRoute OperationState.cancelled
    × (apply_cancellation one_cell (some (ref_in OperationState.discover 0)) early_decision
        ≡ (ok tt, set_cell 0 one_cell, some cancelled_machine))
request_cancellation-apply_cancellation_example =
    request_cancellation-apply_cancellation hash digests empty_controller no_cells
      (ref_in OperationState.discover 0) (request_at 2) disk_contract (first ∷ []) runs.0
      OperationState.cancelled refl

applied :
    apply_cancellation one_cell (some (ref_in OperationState.discover 0)) early_decision
    ≡ (ok tt, set_cell 0 one_cell, some cancelled_machine)
unfolding apply_cancellation apply_authorization authorized is_contract_digest transition
    transition_check can_transition reject_if
applied = refl

apply_cancellation_once_example :
    (e : CancellationError) × (apply_cancellation
        (set_cell 0 one_cell)
        (some (ref_in OperationState.discover 0))
        early_decision
      ≡ (err e, set_cell 0 one_cell, some (machine_in OperationState.discover 0)))
apply_cancellation_once_example =
    apply_cancellation_once one_cell (ref_in OperationState.discover 0) early_decision
      early_authorization refl applied early_decision early_authorization
      (ref_in OperationState.discover 0) refl refl

request_cancellation_unmutated_example :
    (none ≡ some OperationState.cancelled → any_shows in_execute ≡ false)
    × ((entry : JournalEntry)
        → some durable ≡ some entry
        → (validate_journal (in_execute ++ entry ∷ []) ≡ ok tt)
          × (recorded_route entry ≡ some OperationState.cancelled → any_shows in_execute ≡ false))
request_cancellation_unmutated_example =
    request_cancellation_unmutated hash empty_controller no_cells (ref_in OperationState.execute 4)
      (request_at 7) disk_contract in_execute refl runs.1

request_cancellation_early_example :
    (some OperationState.cancelled ≡ some OperationState.cancelled)
    × ((entry : JournalEntry)
        → true ≡ true
        → entry.kind ≡ JournalEntryKind.transition
        → entry.operation_state ≡ OperationState.cancelled
        → ¬ (validate_journal (resumed ++ entry ∷ []) ≡ ok tt))
request_cancellation_early_example =
    request_cancellation_early hash empty_controller no_cells (ref_in OperationState.discover 6)
      (request_at 9) disk_contract resumed refl runs.2

request_cancellation-restore_controller_example :
    (r : CancellationController) × (restore_controller hash
        (in_execute ++ durable ∷ [])
        "op-00000000000000ff"
        "plan-00000000000000aa"
        disk_contract
      ≡ ok r)
    × IsQueued durable digest r
request_cancellation-restore_controller_example =
    request_cancellation-restore_controller hash empty_controller no_cells
      (ref_in OperationState.execute 4) (request_at 7) disk_contract in_execute durable digest
      runs.1 refl refl
