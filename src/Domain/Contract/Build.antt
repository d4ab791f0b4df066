-- ===== src/Domain/Contract/Build.antt =====
-- `NewExecutionContract` of internal/domain/plan.go.
pub mod Steps
pub mod Sound
use ctrldb.Prelude.{
  String, Result, ℕ, List, Option, ◌∷◌, ok, is_upper, ◌||◌, codes, some, checks, ◌>>◌,
  if◌then◌else◌, is_lower, is_digit, ◌==◌, reject_if, [], ◌+◌, ◌&&◌, leb, ltb, contains, length,
  ◌>>=◌, none, err,
}
use ctrldb.Workflow.Patterns.{is_step_id, is_workflow_id}
use ctrldb.Domain.Contract.{
  ExecutionStepContract, ExecutionContract, Bool, ExecutionExposureRequirement,
  PointOfNoReturnTrigger, not, false, str_eq, true, exposure_requirement_eq, is_mutation,
  has_trigger, step_effect_valid, FailureBehavior, trigger_valid, exposure_delta_eq, ExposureDelta,
  exposure_profile_valid, exposure_profile_eq, ExposureProfile,
}
use ctrldb.Domain.Retry.{
  retry_policy_valid, failure_behavior_eq, max_step_timeout_seconds, failure_behavior_valid,
}
use ctrldb.Domain.Identity.{execution_identity_valid}
use ctrldb.Domain.Approval.{
  approval_security_sensitive, approval_class_valid, approval_data_destructive, approval_read,
  approval_destructive,
}
use ctrldb.Domain.Exposure.{exposure_delta_valid}
use ctrldb.Prelude.Int.{leb_ℤ, pos, ltb_ℤ}

pub data ContractError : Type 0 where
  invalid_contract : String → ContractError
  invalid_step : ℕ → ContractError

abbrev pub ContractCheck : Type 0
ContractCheck = Result ContractError (Unit {0})

-- `[A-Za-z]` and `[A-Za-z0-9]`
abbrev is_alpha : ℕ → Bool
is_alpha c = is_upper c || is_lower c

abbrev is_alnum : ℕ → Bool
is_alnum c = is_alpha c || is_digit c

-- `(?:\.[A-Za-z][A-Za-z0-9]*){2,}$` with `n` groups begun, at the start of one if `fresh`. The
-- classes have no `.`, so there is one way to split.
groups : ℕ → Bool → List ℕ → Bool
groups n fresh [] = not fresh && leb 2 n
groups n true (c ∷ cs) = is_alpha c && groups n false cs
groups n false (c ∷ cs) = (c == b'.' && groups (n + 1) true cs) || (is_alnum c && groups n false cs)

-- `[a-z0-9]*` and the groups
first_group : List ℕ → Bool
unfolding groups
first_group [] = false
first_group (c ∷ cs) =
    (c == b'.' && groups 1 true cs) || ((is_lower c || is_digit c) && first_group cs)

-- `^[a-z][a-z0-9]*(?:\.[A-Za-z][A-Za-z0-9]*){2,}$` on the characters
abbrev permission : List ℕ → Bool
permission [] = false
permission (c ∷ cs) = is_lower c && first_group cs

-- `executionPermissionPattern`
unfoldable pub is_permission : String → Bool
unfolding first_group
is_permission s = permission (codes s)

-- `value == ""`
abbrev pub is_blank : String → Bool
is_blank s = str_eq s ""

-- `validateExecutionExposureRequirement`
unfoldable pub validate_exposure_requirement :
    ExecutionStepContract → Option ExecutionExposureRequirement → ContractCheck
unfolding is_step_id
validate_exposure_requirement step none = ok tt
validate_exposure_requirement step (some requirement) = checks (
    reject_if
      (not (is_mutation step.effect)
        || (ltb step.minimum_approval approval_security_sensitive
            || (not (exposure_delta_valid requirement.delta)
                || (exposure_delta_eq requirement.delta ExposureDelta.no_exposure
                    || (not (exposure_profile_valid requirement.profile)
                        || not (is_step_id requirement.simulation_precondition_id))))))
      (invalid_contract "invalid exposure requirement")
    ∷ reject_if
        (requirement.internet_wide
          && (not (exposure_delta_eq requirement.delta ExposureDelta.external)
              || (not (exposure_profile_eq requirement.profile ExposureProfile.acc_08)
                  || not (step.minimum_approval == approval_data_destructive))))
        (invalid_contract "internet-wide exposure requires external ACC-08 AP-5")
    ∷ reject_if
        (not requirement.internet_wide
          && exposure_profile_eq requirement.profile ExposureProfile.acc_08)
        (invalid_contract "ACC-08 is reserved for internet-wide exposure")
    ∷ [])

-- The loop of `validateContractStrings`.
unfoldable pub each_once : (String → Bool) → List String → List String → Bool
each_once pattern seen [] = true
each_once pattern seen (value ∷ values) =
    pattern value && (not (contains seen value) && each_once pattern (value ∷ seen) values)

-- `validateContractStrings`, as whether it returns no error.
unfoldable pub contract_strings_valid : (String → Bool) → List String → Bool
unfolding each_once
contract_strings_valid pattern [] = false
contract_strings_valid pattern (value ∷ values) = each_once pattern [] (value ∷ values)

-- The variables of the loop of `NewExecutionContract`; `seen` lists the keys of its set.
pub record Built : Type 0 where
  pub seen : List String
  pub rollback_required : Bool
  pub exposure : Option ExecutionExposureRequirement

-- `exposureRequirement != nil && *exposureRequirement != *step.ExposureRequirement`
abbrev pub exposure_differs :
    Option ExecutionExposureRequirement → Option ExecutionExposureRequirement → Bool
exposure_differs (some old) (some new) = not (exposure_requirement_eq old new)
exposure_differs _ _ = false

-- The checks of one step in the source's order.
unfoldable pub step_check : ℕ → Built → ExecutionStepContract → ContractCheck
unfolding validate_exposure_requirement contract_strings_valid is_permission is_step_id
    retry_policy_valid
step_check index built step = checks (
    reject_if
      (not (is_step_id step.id)
        || (not (is_step_id step.executor)
            || (not (execution_identity_valid step.executing_identity)
                || (not (step_effect_valid step.effect)
                    || (not (approval_class_valid step.minimum_approval)
                        || (not (retry_policy_valid step.retry)
                            || (leb_ℤ step.timeout_seconds (pos 0)
                                || (ltb_ℤ max_step_timeout_seconds step.timeout_seconds
                                    || (is_blank step.command_summary.value
                                        || (is_blank step.success_condition.value
                                            || not (
                                                failure_behavior_valid
                                                  step.failure_behavior)))))))))))
      (invalid_step index)
    ∷ reject_if (is_mutation step.effect && step.minimum_approval == approval_read)
        (invalid_contract "mutation step has read approval")
    ∷ reject_if
        (step.requires_step_up
          && (not (is_mutation step.effect) || ltb step.minimum_approval approval_destructive))
        (invalid_contract "step-up requires an AP-4 or stronger mutation step")
    ∷ reject_if
        (step.requires_recovery_asset
          && (not (is_mutation step.effect) || ltb step.minimum_approval approval_destructive))
        (invalid_contract "recovery assets require an AP-4 or stronger mutation step")
    ∷ reject_if
        (is_mutation step.effect
          && (step.minimum_approval == approval_data_destructive
              && not step.requires_recovery_asset))
        (invalid_contract "AP-5 mutation step requires recovery assets")
    ∷ validate_exposure_requirement step step.exposure_requirement
    ∷ reject_if (exposure_differs built.exposure step.exposure_requirement)
        (invalid_contract "inconsistent exposure requirements")
    ∷ reject_if (contains built.seen step.id) (invalid_contract "duplicate step")
    ∷ reject_if (not (contract_strings_valid is_step_id step.target_kinds))
        (invalid_contract "invalid target kinds")
    ∷ reject_if (not (contract_strings_valid is_permission step.required_permissions))
        (invalid_contract "invalid required permissions")
    ∷ [])

-- What a step adds to the variables.
abbrev pub build_step : Built → ExecutionStepContract → Built
build_step built step = record {
  seen = step.id ∷ built.seen;
  rollback_required =
      built.rollback_required
      || (is_mutation step.effect
          || failure_behavior_eq step.failure_behavior FailureBehavior.rollback);
  exposure = elim step.exposure_requirement [ none ↦ built.exposure | some new ↦ some new ];
}

-- The loop, from the index `i` on.
unfoldable pub build_steps : ℕ → Built → List ExecutionStepContract → Result ContractError Built
unfolding step_check
build_steps i built [] = ok built
build_steps i built (step ∷ steps) =
    step_check i built step >> build_steps (i + 1) (build_step built step) steps

-- The point of no return, "" for none.
unfoldable pub point_check : List String → String → PointOfNoReturnTrigger → ContractCheck
unfolding is_step_id
point_check seen point trigger =
    if is_blank point
    then reject_if (has_trigger trigger) (invalid_contract "trigger without point of no return")
    else checks (
        reject_if (not (is_step_id point)) (invalid_contract "invalid point of no return")
        ∷ reject_if (not (contains seen point))
            (invalid_contract "point of no return is not a step")
        ∷ reject_if (not (trigger_valid trigger))
            (invalid_contract "invalid point-of-no-return trigger")
        ∷ [])

-- `contract.digest = …`, unless the encoding failed.
unfoldable pub with_digest :
    ExecutionContract → Option String → Result ContractError ExecutionContract
with_digest contract none = err (invalid_contract "digest encoding")
with_digest contract (some digest) = ok (record contract { digest = digest })

-- `hash` is the SHA-256 of the JSON of a contract without its digest, if that can be encoded.
module _ (hash : ExecutionContract → Option String) where
  -- `NewExecutionContract`
  unfoldable pub new_execution_contract :
      String
      → String
      → String
      → PointOfNoReturnTrigger
      → List ExecutionStepContract
      → Result ContractError ExecutionContract
  unfolding is_workflow_id is_step_id build_steps point_check with_digest
  new_execution_contract workflow_id rollback_boundary point trigger steps = do
    reject_if
        (not (is_workflow_id workflow_id)
          || (not (is_step_id rollback_boundary) || length steps == 0))
        (invalid_contract "invalid workflow, rollback boundary, or steps")
    built ← build_steps 0 (record { seen = []; rollback_required = false; exposure = none }) steps
    point_check built.seen point trigger
    reject_if (built.rollback_required && str_eq rollback_boundary "none")
        (invalid_contract "mutation or rollback step requires a rollback boundary")
    let contract : ExecutionContract = record {
      workflow_id = workflow_id;
      rollback_boundary = rollback_boundary;
      point_of_no_return = point;
      point_of_no_return_trigger = trigger;
      steps = steps;
      digest = "";
    }
    with_digest contract (hash contract)
