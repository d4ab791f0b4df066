-- ===== src/Tests/Boundaries.antt =====
-- A safe boundary after a durable request, for internal/workflow/cancellation.go.
use ctrldb.Workflow.Cancellation.{CancellationController}
use ctrldb.Workflow.Cancellation.Request.{request_binding}
use ctrldb.Tests.Cancellations.{disk_contract, durable, in_execute, request_at}
use ctrldb.Tests.Journals.{at, digest, attempt}
use ctrldb.Prelude.{List, true, ◌++◌, some, ◌∷◌, []}
use ctrldb.Domain.Journal.{JournalEntry}
use ctrldb.Domain.Outcome.{StepOutcome}
use ctrldb.Domain.Operation.{OperationState}
use ctrldb.Domain.Identity.{ExecutionIdentity}

-- The attempt that runs while the request is made.
abbrev ended : JournalEntry
ended = record (attempt 8 2 StepOutcome.failed true) {
  step = some (record {
    id = "create-disk";
    outcome = StepOutcome.failed;
    executing_identity = ExecutionIdentity.operator;
    attempt = 2;
    started_at = at 6;
    ended_at = some (at 8);
    mutation_occurred = true;
    result_summary = record { value = "" };
  });
}

abbrev at_end : List JournalEntry
at_end = in_execute ++ durable ∷ ended ∷ []

abbrev queued : CancellationController
queued = record {
  queued = true;
  target = some OperationState.rollback;
  binding = record (request_binding (request_at 7) disk_contract digest) {
    step_id = "create-disk";
  };
}
