-- ===== src/Domain/Contract.antt =====
-- The execution contract of internal/domain/plan.go: its types and their closed values.
pub mod Build
use ctrldb.Prelude.{String, Bool, true, false, str_eq, List, Option, ◌&&◌, not, bool_eq}
use ctrldb.Domain.Exposure.{ExposureDelta, exposure_delta_eq}
use ctrldb.Domain.Identity.{ExecutionIdentity}
use ctrldb.Domain.Journal.{Text}
use ctrldb.Domain.Approval.{ApprovalClass}
use ctrldb.Domain.Retry.{RetryPolicy, FailureBehavior}
use ctrldb.Prelude.Int.{ℤ}

-- Whether a step only reads or may mutate.
pub data StepEffect : Type 0 where
  read mutation : StepEffect
  other : String → StepEffect

-- `Valid`
abbrev pub step_effect_valid : StepEffect → Bool
step_effect_valid (other s) = false
step_effect_valid _ = true

abbrev pub is_mutation : StepEffect → Bool
is_mutation mutation = true
is_mutation _ = false

-- The event that crosses an irreversible step; "" stands for none.
pub data PointOfNoReturnTrigger : Type 0 where
  step_start mutation_observed step_complete : PointOfNoReturnTrigger
  other : String → PointOfNoReturnTrigger

-- `Valid`
abbrev pub trigger_valid : PointOfNoReturnTrigger → Bool
trigger_valid (other s) = false
trigger_valid _ = true

abbrev pub no_trigger : PointOfNoReturnTrigger
no_trigger = other ""

-- `trigger != ""`
abbrev pub has_trigger : PointOfNoReturnTrigger → Bool
has_trigger (other s) = not (str_eq s "")
has_trigger _ = true

-- The access workflow that owns an exposure.
pub data ExposureProfile : Type 0 where
  acc_01 acc_02 acc_03 acc_04 acc_05 acc_06 acc_07 acc_08 : ExposureProfile
  other : String → ExposureProfile

-- `Valid`
abbrev pub exposure_profile_valid : ExposureProfile → Bool
exposure_profile_valid (other s) = false
exposure_profile_valid _ = true

-- `==` of two values.
abbrev pub exposure_profile_eq : ExposureProfile → ExposureProfile → Bool
exposure_profile_eq acc_01 acc_01 = true
exposure_profile_eq acc_02 acc_02 = true
exposure_profile_eq acc_03 acc_03 = true
exposure_profile_eq acc_04 acc_04 = true
exposure_profile_eq acc_05 acc_05 = true
exposure_profile_eq acc_06 acc_06 = true
exposure_profile_eq acc_07 acc_07 = true
exposure_profile_eq acc_08 acc_08 = true
exposure_profile_eq (other s) (other t) = str_eq s t
exposure_profile_eq _ _ = false

pub record ExecutionExposureRequirement : Type 0 where
  pub delta : ExposureDelta
  pub profile : ExposureProfile
  pub internet_wide : Bool
  pub simulation_precondition_id : String

-- `==` of two values.
abbrev pub exposure_requirement_eq :
    ExecutionExposureRequirement → ExecutionExposureRequirement → Bool
exposure_requirement_eq a b =
    exposure_delta_eq a.delta b.delta
    && (exposure_profile_eq a.profile b.profile
        && (bool_eq a.internet_wide b.internet_wide
            && str_eq a.simulation_precondition_id b.simulation_precondition_id))

-- The trusted definition of one step, without resources.
pub record ExecutionStepContract : Type 0 where
  pub id : String
  pub executor : String
  pub executing_identity : ExecutionIdentity
  pub command_summary : Text
  pub effect : StepEffect
  pub minimum_approval : ApprovalClass
  pub target_kinds : List String
  pub required_permissions : List String
  pub requires_step_up : Bool
  pub requires_recovery_asset : Bool
  pub exposure_requirement : Option ExecutionExposureRequirement
  pub idempotent : Bool
  pub retry : RetryPolicy
  pub cancel_safe : Bool
  pub timeout_seconds : ℤ
  pub success_condition : Text
  pub failure_behavior : FailureBehavior

-- Lists are values here, so that the defensive copies of the source are the lists themselves.
pub record ExecutionContract : Type 0 where
  pub workflow_id : String
  pub rollback_boundary : String
  pub point_of_no_return : String
  pub point_of_no_return_trigger : PointOfNoReturnTrigger
  pub steps : List ExecutionStepContract
  pub digest : String
