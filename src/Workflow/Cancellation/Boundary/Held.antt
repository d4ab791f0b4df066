-- ===== src/Workflow/Cancellation/Boundary/Held.antt =====
-- What `AtBoundary` of internal/workflow/cancellation.go holds against the journal.
use ctrldb.Prelude.{List, Option, String, ◌≡◌, ok, true}
use ctrldb.Workflow.Cancellation.{CancellationController, JournalEntry, Machine, binding_eq}
use ctrldb.Workflow.Cancellation.Boundary.{ExecutionContract, restore_controller, boundary_recorded}

-- The request that is honoured: it is restored from the journal as queued, with the binding of the
-- controller, and the journal has an ended attempt at its step after it.
pub record IsHeld (hash : List JournalEntry → Option String) (controller : CancellationController)
    (machine : Machine) (contract : ExecutionContract) (entries : List JournalEntry)
    (fresh : CancellationController) : Type 0 where
  pub restored :
      restore_controller hash entries machine.operation_id machine.plan_id contract ≡ ok fresh
  pub queued : fresh.queued ≡ true
  pub bound : binding_eq fresh.binding controller.binding ≡ true
  pub ended : boundary_recorded entries controller.binding ≡ true
