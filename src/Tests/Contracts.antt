-- ===== src/Tests/Contracts.antt =====
-- Execution contracts, retries and approval classes for internal/domain and internal/workflow.
use ctrldb.Tests.Cancellations.{create_disk, disk_contract}
use ctrldb.Tests.Journals.{digest}
use ctrldb.Prelude.{checks, reject_if, refl, ◌≡◌, Option, ◌∷◌, true, String, [], some, ok, false}
use ctrldb.Domain.Contract.{ExecutionContract, ExecutionStepContract, no_trigger}
use ctrldb.Domain.Contract.Build.{
  new_execution_contract, build_steps, step_check, validate_exposure_requirement,
  contract_strings_valid, each_once, point_check, with_digest, is_permission,
}
use ctrldb.Domain.Contract.Build.Sound.{IsContract, new_execution_contract-IsContract}
use ctrldb.Workflow.Retry.{
  decide_retry, RetryDecision, decision_of, retried_step, match_steps, retry_check, delay_seconds,
  backoff,
}
use ctrldb.Domain.Approval.{max_approval_class, strongest_of}
use ctrldb.Domain.Approval.Strongest.{IsBounded, among, max_approval_class_exact}
use ctrldb.Domain.Retry.{RetryFailureClass, MutationObservation, retry_policy_valid}
use ctrldb.Workflow.Retry.Decision.{named, IsAllowedRetry, decide_retry-IsAllowedRetry}
use ctrldb.Prelude.Int.{pos, half, times}
use ctrldb.Workflow.Patterns.{is_workflow_id, is_step_id}

abbrev pub contract_hash : ExecutionContract → Option String
contract_hash contract = some digest

built :
    new_execution_contract contract_hash "WF-DSK-01" "delete-disk" "" no_trigger (create_disk ∷ [])
    ≡ ok disk_contract
unfolding new_execution_contract build_steps step_check validate_exposure_requirement
    contract_strings_valid each_once point_check with_digest is_workflow_id is_step_id is_permission
    retry_policy_valid checks reject_if
built = refl

new_execution_contract-IsContract_example :
    IsContract contract_hash disk_contract × (disk_contract.steps ≡ create_disk ∷ [])
new_execution_contract-IsContract_example =
    new_execution_contract-IsContract contract_hash "WF-DSK-01" "delete-disk" "" no_trigger
      (create_disk ∷ []) built

-- The third failure waits for 40 seconds.
third :
    decide_retry disk_contract "create-disk" 3 RetryFailureClass.timeout
      MutationObservation.occurred
    ≡ record { retry = true; delay = pos 40000000000; reason = "bounded transient retry" }
unfolding decide_retry decision_of retried_step match_steps retry_check delay_seconds backoff half
    times retry_policy_valid checks reject_if
third = refl

abbrev third_decision : RetryDecision
third_decision =
    decide_retry disk_contract "create-disk" 3 RetryFailureClass.timeout
      MutationObservation.occurred

decide_retry-IsAllowedRetry_example :
    (third_decision.retry ≡ true
      → (step : ExecutionStepContract) × (named "create-disk" (create_disk ∷ []) ≡ step ∷ [])
        × IsAllowedRetry step 3 RetryFailureClass.timeout MutationObservation.occurred
            third_decision.delay)
    × (third_decision.retry ≡ false → third_decision.delay ≡ pos 0)
decide_retry-IsAllowedRetry_example =
    decide_retry-IsAllowedRetry disk_contract "create-disk" 3 RetryFailureClass.timeout
      MutationObservation.occurred

strongest : max_approval_class (1 ∷ 4 ∷ 2 ∷ []) ≡ ok 4
unfolding max_approval_class strongest_of reject_if
strongest = refl

max_approval_class_exact_example : IsBounded 4 (1 ∷ 4 ∷ 2 ∷ []) × (among 4 (1 ∷ 4 ∷ 2 ∷ []) ≡ true)
max_approval_class_exact_example = max_approval_class_exact (1 ∷ 4 ∷ 2 ∷ []) strongest
