-- ===== src/Domain/Retry.antt =====
-- internal/domain/retry.go: the bounded retry contract of a step.
use ctrldb.Prelude.{String, Bool, true, false, str_eq, ℕ, ltb, ◌==◌, ◌&&◌}
use ctrldb.Prelude.{◌||◌, if◌then◌else◌}
use ctrldb.Prelude.Int.{ℤ, pos, eqb_ℤ, ltb_ℤ, leb_ℤ}

-- The engine route when a step cannot succeed.
pub data FailureBehavior : Type 0 where
  fail pause rollback : FailureBehavior
  other : String → FailureBehavior

unfoldable pub failure_behavior_text : FailureBehavior → String
failure_behavior_text fail = "fail"
failure_behavior_text pause = "pause"
failure_behavior_text rollback = "rollback"
failure_behavior_text (other s) = s

-- `Valid`
abbrev pub failure_behavior_valid : FailureBehavior → Bool
failure_behavior_valid (other s) = false
failure_behavior_valid _ = true

-- `==` of two values.
abbrev pub failure_behavior_eq : FailureBehavior → FailureBehavior → Bool
failure_behavior_eq fail fail = true
failure_behavior_eq pause pause = true
failure_behavior_eq rollback rollback = true
failure_behavior_eq (other s) (other t) = str_eq s t
failure_behavior_eq _ _ = false

-- Why an attempt failed.
pub data RetryFailureClass : Type 0 where
  transient timeout validation permission stale_fingerprint : RetryFailureClass
  other : String → RetryFailureClass

unfoldable pub retry_failure_class_text : RetryFailureClass → String
retry_failure_class_text transient = "transient"
retry_failure_class_text timeout = "timeout"
retry_failure_class_text validation = "validation"
retry_failure_class_text permission = "permission"
retry_failure_class_text stale_fingerprint = "stale-fingerprint"
retry_failure_class_text (other s) = s

-- `Valid`
abbrev pub retry_failure_class_valid : RetryFailureClass → Bool
retry_failure_class_valid (other s) = false
retry_failure_class_valid _ = true

-- `==` of two values.
abbrev pub retry_failure_class_eq : RetryFailureClass → RetryFailureClass → Bool
retry_failure_class_eq transient transient = true
retry_failure_class_eq timeout timeout = true
retry_failure_class_eq validation validation = true
retry_failure_class_eq permission permission = true
retry_failure_class_eq stale_fingerprint stale_fingerprint = true
retry_failure_class_eq (other s) (other t) = str_eq s t
retry_failure_class_eq _ _ = false

-- What is known after a failed attempt.
pub data MutationObservation : Type 0 where
  not_occurred occurred unknown : MutationObservation
  other : String → MutationObservation

unfoldable pub mutation_observation_text : MutationObservation → String
mutation_observation_text not_occurred = "not-occurred"
mutation_observation_text occurred = "occurred"
mutation_observation_text unknown = "unknown"
mutation_observation_text (other s) = s

-- `Valid`
abbrev pub mutation_observation_valid : MutationObservation → Bool
mutation_observation_valid (other s) = false
mutation_observation_valid _ = true

-- `==` of two values.
abbrev pub mutation_observation_eq : MutationObservation → MutationObservation → Bool
mutation_observation_eq not_occurred not_occurred = true
mutation_observation_eq occurred occurred = true
mutation_observation_eq unknown unknown = true
mutation_observation_eq (other s) (other t) = str_eq s t
mutation_observation_eq _ _ = false

abbrev pub max_step_attempts : ℕ
max_step_attempts = 10

abbrev pub max_retry_backoff_seconds : ℤ
max_retry_backoff_seconds = pos 3600

abbrev pub max_step_timeout_seconds : ℤ
max_step_timeout_seconds = pos 86400

-- `max_attempts` is a uint32 and counts the first attempt; the others are int64.
pub record RetryPolicy : Type 0 where
  pub max_attempts : ℕ
  pub initial_backoff_seconds : ℤ
  pub max_backoff_seconds : ℤ

unfoldable pub retry_policy_valid : RetryPolicy → Bool
retry_policy_valid policy =
    if max_attempts == 0 || ltb max_step_attempts max_attempts
    then false
    else if max_attempts == 1
    then eqb_ℤ initial_backoff_seconds (pos 0) && eqb_ℤ max_backoff_seconds (pos 0)
    else ltb_ℤ (pos 0) initial_backoff_seconds
      && leb_ℤ initial_backoff_seconds max_backoff_seconds
      && leb_ℤ max_backoff_seconds max_retry_backoff_seconds
  where
    open policy use {max_attempts, initial_backoff_seconds, max_backoff_seconds}
