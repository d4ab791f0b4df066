-- ===== src/Workflow/Retry.antt =====
-- internal/workflow/retry.go: whether and when another attempt may start.
pub mod Backoff
pub mod Decision
use ctrldb.Prelude.{
  Bool, String, Option, false, ℕ, Result, List, suc, ◌-◌, ok, if◌then◌else◌, err, some, ◌∷◌, checks,
  true, ◌>>=◌, str_eq, reject_if, none, zero, not, [], ◌>>◌, ◌||◌, ◌==◌, ◌&&◌, leb,
}
use ctrldb.Prelude.Int.{half, times, ℤ, pos, leb_ℤ, ltb_ℤ}
use ctrldb.Domain.Retry.{
  RetryPolicy, retry_policy_valid, RetryFailureClass, MutationObservation,
  retry_failure_class_valid, mutation_observation_valid, retry_failure_class_eq,
  mutation_observation_eq,
}
use ctrldb.Domain.Contract.{ExecutionContract, ExecutionStepContract}

pub record RetryDecision : Type 0 where
  pub retry : Bool
  pub delay : ℤ  -- a time.Duration: nanoseconds in an int64
  pub reason : String

-- `noRetry`
abbrev pub no_retry : String → RetryDecision
no_retry reason = record { retry = false; delay = pos 0; reason = reason }

-- One round of the loop over the steps: the match so far, or `err` at a second match.
abbrev pub match_step :
    Bool
    → ExecutionStepContract
    → Option ExecutionStepContract
    → Result String (Option ExecutionStepContract)
match_step false step matched = ok matched
match_step true step none = ok (some step)
match_step true step (some first) = err "ambiguous retry step"

-- The loop over the steps.
unfoldable pub match_steps :
    String
    → Option ExecutionStepContract
    → List ExecutionStepContract
    → Result String (Option ExecutionStepContract)
match_steps id matched [] = ok matched
match_steps id matched (step ∷ steps) =
    match_step (str_eq step.id id) step matched >>= λ m. match_steps id m steps

-- The loop that doubles the delay, with `n` rounds left.
unfoldable pub backoff : ℕ → ℤ → ℤ → ℤ
unfolding half times
backoff zero limit delay = delay
backoff (suc n) limit delay =
    let later = backoff n limit (times delay 2) in if leb_ℤ (half limit) delay then limit else later

-- The delay in seconds before the attempt that follows the one-based `attempt`.
unfoldable pub delay_seconds : RetryPolicy → ℕ → ℤ
unfolding backoff
delay_seconds policy attempt =
    let grown = backoff (attempt - 1) policy.max_backoff_seconds policy.initial_backoff_seconds in
    if ltb_ℤ policy.max_backoff_seconds grown then policy.max_backoff_seconds else grown

-- The refusals for the matched step, in the source's order.
unfoldable pub retry_check :
    ExecutionStepContract → ℕ → RetryFailureClass → MutationObservation → Result String (Unit {0})
unfolding retry_policy_valid
retry_check step attempt failure mutation = checks (
    reject_if
      (not (retry_policy_valid step.retry)
        || (attempt == 0
            || (not (retry_failure_class_valid failure)
                || not (mutation_observation_valid mutation))))
      "invalid retry input"
    ∷ reject_if (retry_failure_class_eq failure RetryFailureClass.validation)
        "validation failures require a new plan"
    ∷ reject_if (retry_failure_class_eq failure RetryFailureClass.permission)
        "permission failures require revalidation"
    ∷ reject_if (retry_failure_class_eq failure RetryFailureClass.stale_fingerprint)
        "stale fingerprints require rediscovery and a new plan"
    ∷ reject_if (mutation_observation_eq mutation MutationObservation.unknown)
        "unknown mutation state requires rediscovery"
    ∷ reject_if
        (not step.idempotent && mutation_observation_eq mutation MutationObservation.occurred)
        "non-idempotent mutation was not proven absent"
    ∷ reject_if (leb step.retry.max_attempts attempt) "retry limit reached"
    ∷ [])

-- `*matched`, which is nil if no step has the ID.
abbrev pub matched_step : Option ExecutionStepContract → Result String ExecutionStepContract
matched_step none = err "invalid retry input"
matched_step (some step) = ok step

-- The step that may be retried, or the reason of the refusal.
unfoldable pub retried_step :
    ExecutionContract
    → String
    → ℕ
    → RetryFailureClass
    → MutationObservation
    → Result String ExecutionStepContract
unfolding match_steps retry_check
retried_step contract id attempt failure mutation = do
  matched ← match_steps id none contract.steps
  step ← matched_step matched
  retry_check step attempt failure mutation
  ok step

-- The decision, with the delay for the step that may be retried.
unfoldable pub decision_of : ℕ → Result String ExecutionStepContract → RetryDecision
unfolding delay_seconds times
decision_of attempt (err reason) = no_retry reason
decision_of attempt (ok step) = record {
  retry = true;
  delay = times (delay_seconds step.retry attempt) 1000000000;
  reason = "bounded transient retry";
}

-- `DecideRetry`
unfoldable pub decide_retry :
    ExecutionContract → String → ℕ → RetryFailureClass → MutationObservation → RetryDecision
unfolding retried_step decision_of
decide_retry contract id attempt failure mutation =
    decision_of attempt (retried_step contract id attempt failure mutation)
