-- ===== src/Tests/Definitions.antt =====
-- Definitions and a registry for internal/workflow/definition.go.
use ctrldb.Tests.Cancellations.{create_disk, disk_contract}
use ctrldb.Prelude.{false, ◌∷◌, none, [], true}
use ctrldb.Workflow.Definition.{StepDefinition, Definition, Registry}
use ctrldb.Domain.Contract.{no_trigger, PointOfNoReturnTrigger}
use ctrldb.Prelude.Int.{pos}

abbrev disk_step : StepDefinition
disk_step = record {
  id = "create-disk";
  executor = "gcloud";
  executing_identity = create_disk.executing_identity;
  command_summary = create_disk.command_summary;
  effect = create_disk.effect;
  minimum_approval = 1;
  target_kinds = create_disk.target_kinds;
  required_permissions = create_disk.required_permissions;
  requires_step_up = false;
  requires_recovery_asset = false;
  exposure_requirement = none;
  idempotent = true;
  retry = create_disk.retry;
  cancel_safe = false;
  timeout_seconds = pos 600;
  success_condition = create_disk.success_condition;
  failure_behavior = create_disk.failure_behavior;
}

abbrev disk_definition : Definition
disk_definition = record {
  workflow_id = "WF-DSK-01";
  rollback_boundary = "delete-disk";
  point_of_no_return = "";
  point_of_no_return_trigger = no_trigger;
  steps = disk_step ∷ [];
  contract = disk_contract;
}

-- A definition with a trigger, as `NewDefinition` makes them.
abbrev final_definition : Definition
final_definition = record disk_definition {
  workflow_id = "WF-DSK-02";
  point_of_no_return = "create-disk";
  point_of_no_return_trigger = PointOfNoReturnTrigger.step_start;
}

abbrev disk_registry : Registry
disk_registry = record {
  definitions =
      ("WF-DSK-01", disk_definition)
      ∷ ("WF-DSK-02", record final_definition { point_of_no_return_trigger = no_trigger })
      ∷ [];
}
