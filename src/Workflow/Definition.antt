-- ===== src/Workflow/Definition.antt =====
-- internal/workflow/definition.go: workflow definitions and their registry.
pub mod Registered
pub mod Defined
use ctrldb.Prelude.{
  String, ℕ, List, Result, ◌∷◌, Option, length, checks, ok, lookup, ◌>>=◌, reject_if, ◌>>◌, [], not,
  ◌+◌, Bool, contains, ◌==◌, ◌||◌, map_err, is_some, insert, none, some,
}
use ctrldb.Workflow.Patterns.{is_step_id, is_workflow_id}
use ctrldb.Domain.Contract.{
  ExecutionStepContract, no_trigger, PointOfNoReturnTrigger, ExecutionContract, StepEffect,
  ExecutionExposureRequirement,
}
use ctrldb.Domain.Identity.{ExecutionIdentity, execution_identity_valid}
use ctrldb.Domain.Retry.{
  retry_policy_valid, RetryPolicy, FailureBehavior, max_step_timeout_seconds,
  failure_behavior_valid,
}
use ctrldb.Domain.Contract.Build.{new_execution_contract, is_blank}
use ctrldb.Domain.Journal.{Text}
use ctrldb.Domain.Approval.{ApprovalClass}
use ctrldb.Prelude.Int.{leb_ℤ, ℤ, pos, ltb_ℤ}

pub record StepDefinition : Type 0 where
  pub id : String
  pub executor : String
  pub executing_identity : ExecutionIdentity
  pub command_summary : Text
  pub effect : StepEffect
  pub minimum_approval : ApprovalClass
  pub target_kinds : List String
  pub required_permissions : List String
  pub requires_step_up : Bool
  pub requires_recovery_asset : Bool
  pub exposure_requirement : Option ExecutionExposureRequirement
  pub idempotent : Bool
  pub retry : RetryPolicy
  pub cancel_safe : Bool
  pub timeout_seconds : ℤ
  pub success_condition : Text
  pub failure_behavior : FailureBehavior

-- Lists are values here, so that the defensive copies of the source are the lists themselves.
pub record Definition : Type 0 where
  pub workflow_id : String
  pub rollback_boundary : String
  pub point_of_no_return : String
  pub point_of_no_return_trigger : PointOfNoReturnTrigger
  pub steps : List StepDefinition
  pub contract : ExecutionContract

-- The path and the reason of `definitionError`; a path into a list carries its index.
pub data DefinitionError : Type 0 where
  definition_error : String → String → DefinitionError
  step_error : ℕ → String → String → DefinitionError
  registry_error : ℕ → String → DefinitionError

-- The checks of one step, where `seen` has the IDs before it.
unfoldable pub definition_step_check :
    ℕ → List String → StepDefinition → Result DefinitionError (Unit {0})
unfolding is_step_id retry_policy_valid
definition_step_check i seen step = checks (
    reject_if (not (is_step_id step.id)) (step_error i "id" "must match [a-z][a-z0-9-]{0,63}")
    ∷ reject_if (contains seen step.id) (step_error i "id" "duplicate value")
    ∷ reject_if (is_blank step.executor) (step_error i "executor" "must not be empty")
    ∷ reject_if (not (execution_identity_valid step.executing_identity))
        (step_error i "executingIdentity" "unknown value")
    ∷ reject_if (not (retry_policy_valid step.retry))
        (step_error i "retry" "must be explicit and bounded")
    ∷ reject_if
        (leb_ℤ step.timeout_seconds (pos 0) || ltb_ℤ max_step_timeout_seconds step.timeout_seconds)
        (step_error i "timeoutSeconds" "must be positive and bounded")
    ∷ reject_if (is_blank step.success_condition.value)
        (step_error i "successCondition" "must not be empty")
    ∷ reject_if (not (failure_behavior_valid step.failure_behavior))
        (step_error i "failureBehavior" "unknown value")
    ∷ [])

-- The loop over the steps, from the index `i` on.
unfoldable pub definition_steps_check :
    ℕ → List String → List StepDefinition → Result DefinitionError (Unit {0})
unfolding definition_step_check
definition_steps_check i seen [] = ok tt
definition_steps_check i seen (step ∷ steps) =
    definition_step_check i seen step >> definition_steps_check (i + 1) (step.id ∷ seen) steps

abbrev pub contract_step : StepDefinition → ExecutionStepContract
contract_step step = record {
  id = step.id;
  executor = step.executor;
  executing_identity = step.executing_identity;
  command_summary = step.command_summary;
  effect = step.effect;
  minimum_approval = step.minimum_approval;
  target_kinds = step.target_kinds;
  required_permissions = step.required_permissions;
  requires_step_up = step.requires_step_up;
  requires_recovery_asset = step.requires_recovery_asset;
  exposure_requirement = step.exposure_requirement;
  idempotent = step.idempotent;
  retry = step.retry;
  cancel_safe = step.cancel_safe;
  timeout_seconds = step.timeout_seconds;
  success_condition = step.success_condition;
  failure_behavior = step.failure_behavior;
}

abbrev pub contract_steps : List StepDefinition → List ExecutionStepContract
contract_steps [] = []
contract_steps (step ∷ steps) = contract_step step ∷ contract_steps steps

-- `NewDefinition`, with the digest function of the execution contract.
unfoldable pub new_definition :
    (ExecutionContract → Option String)
    → String
    → String
    → String
    → PointOfNoReturnTrigger
    → List StepDefinition
    → Result DefinitionError Definition
unfolding is_workflow_id definition_steps_check new_execution_contract
new_definition hash workflow_id rollback_boundary point trigger steps = do
  reject_if (not (is_workflow_id workflow_id))
      (definition_error "workflowId" "must match WF-<GROUP>-<NN>")
  reject_if (length steps == 0)
      (definition_error "steps" "must contain at least one implemented step")
  definition_steps_check 0 [] steps
  contract ←
      map_err (λ e. definition_error "steps" "contain an invalid execution contract")
        (new_execution_contract hash workflow_id rollback_boundary point trigger
          (contract_steps steps))
  ok (record {
    workflow_id = workflow_id;
    rollback_boundary = rollback_boundary;
    point_of_no_return = point;
    point_of_no_return_trigger = trigger;
    steps = steps;
    contract = contract;
  })

-- `cloneDefinition`, whose literal leaves the trigger out.
abbrev pub clone_definition : Definition → Definition
clone_definition definition = record {
  workflow_id = definition.workflow_id;
  rollback_boundary = definition.rollback_boundary;
  point_of_no_return = definition.point_of_no_return;
  point_of_no_return_trigger = no_trigger;
  steps = definition.steps;
  contract = definition.contract;
}

pub record Registry : Type 0 where
  pub definitions : List (String × Definition)

-- The loop of `NewRegistry`, from the index `i` on.
unfoldable pub register :
    ℕ
    → List (String × Definition)
    → List Definition
    → Result DefinitionError (List (String × Definition))
register i registered [] = ok registered
register i registered (definition ∷ definitions) =
    reject_if
      (is_blank definition.workflow_id
        || (length definition.steps == 0 || is_blank definition.contract.workflow_id))
      (registry_error i "was not constructed by NewDefinition")
    >> (reject_if (is_some (lookup definition.workflow_id registered))
          (registry_error i "duplicates a workflowId")
        >> register (i + 1) (insert definition.workflow_id (clone_definition definition) registered)
            definitions)

-- `NewRegistry`
unfoldable pub new_registry : List Definition → Result DefinitionError Registry
unfolding register
new_registry definitions = do
  registered ← register 0 [] definitions
  ok (record { definitions = registered })

-- The detached copy of what was found.
abbrev pub clone_found : Option Definition → Option Definition
clone_found none = none
clone_found (some definition) = some (clone_definition definition)

-- `Lookup`
abbrev pub lookup_definition : Registry → String → Option Definition
lookup_definition registry workflow_id = clone_found (lookup workflow_id registry.definitions)

-- `Len`
abbrev pub registry_length : Registry → ℕ
registry_length registry = length registry.definitions
