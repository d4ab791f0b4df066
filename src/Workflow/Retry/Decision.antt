-- ===== src/Workflow/Retry/Decision.antt =====
-- `DecideRetry` of internal/workflow/retry.go allows only bounded and safe attempts.
use ctrldb.Prelude.Int.{negsuc, ℤ, pos, times}
use ctrldb.Prelude.{
  subst, >>=-ok, reject_if-passed, checks-passed, arith, Bool-cases, String, Option, List, ℕ, ◌∷◌,
  [], ◌≡◌, some, ok, true, if◌then◌else◌, str_eq, ◌++◌, ◌<◌, none, inl, inr, ◌≤◌, Result, err, Bool,
  leb, refl, not, false, ◌⊎◌, sym, ◌==◌, ◌*◌, ◌∙◌, ◌||◌, ◌&&◌, ◌^◌, ap, ok-injective, ◌-◌, ◌+◌, ltb,
}
use ctrldb.Workflow.Retry.{
  match_steps, ExecutionStepContract, delay_seconds, retry_check, matched_step, decide_retry,
  retried_step, ExecutionContract, decision_of,
}
use ctrldb.Domain.Retry.{
  retry_policy_valid, RetryFailureClass, MutationObservation, retry_failure_class_valid,
  mutation_observation_eq, RetryPolicy, retry_failure_class_eq, mutation_observation_valid,
}
use ctrldb.Workflow.Retry.Backoff.{backoff-doubles, times-fits}

-- The steps of a contract with an ID.
abbrev pub named : String → List ExecutionStepContract → List ExecutionStepContract
named id [] = []
named id (step ∷ steps) = if str_eq step.id id then step ∷ named id steps else named id steps

abbrev as_list : Option ExecutionStepContract → List ExecutionStepContract
as_list none = []
as_list (some step) = step ∷ []

match_steps-named :
    (id : String) (matched : Option ExecutionStepContract) (steps : List ExecutionStepContract)
    {found : Option ExecutionStepContract}
    → match_steps id matched steps ≡ ok found
    → as_list found ≡ as_list matched ++ named id steps
unfolding match_steps
match_steps-named id none [] h = cc
match_steps-named id (some first) [] h = cc
match_steps-named id none (step ∷ steps) h = elim (Bool-cases (str_eq step.id id)) [
  | inl same ↦ rw same (match_steps-named id (some step) steps (rw same at h))
  | inr differs ↦ rw differs (match_steps-named id none steps (rw differs at h))
]
match_steps-named id (some first) (step ∷ steps) h = elim (Bool-cases (str_eq step.id id)) [
  | inl same ↦ absurd (two_matches (rw same at h))
  | inr differs ↦ rw differs (match_steps-named id (some first) steps (rw differs at h))
]
  where
    two_matches :
        {A : Type 0} {x : A} → ¬ (◌≡◌ {A = Result String A} (err "ambiguous retry step") (ok x))
    two_matches h = cc

-- A valid policy that allows a second attempt has delays within the limits.
policy_limits :
    (attempts : ℕ) (initial limit : ℤ)
    → retry_policy_valid (record {
      max_attempts = attempts;
      initial_backoff_seconds = initial;
      max_backoff_seconds = limit;
    })
      ≡ true
    → 1 < attempts
    → (i : ℕ) × (m : ℕ) × (initial ≡ pos i)
      × (limit ≡ pos m)
      × (0 < i)
      × (i ≤ m)
      × (m ≤ 3600)
      × (attempts ≤ 10)
unfolding retry_policy_valid
policy_limits attempts (pos i) (pos m) h more =
    let limits : (0 < i) × (i ≤ m) × (m ≤ 3600) × (attempts ≤ 10) = ground arith in
    (i, m, refl, refl, limits.0, limits.1, limits.2, limits.3)
policy_limits attempts (pos i) (negsuc m) h more = ground arith
policy_limits attempts (negsuc i) limit h more = ground arith

passing_class :
    (failure : RetryFailureClass)
    → retry_failure_class_valid failure ≡ true
    → retry_failure_class_eq failure RetryFailureClass.validation ≡ false
    → retry_failure_class_eq failure RetryFailureClass.permission ≡ false
    → retry_failure_class_eq failure RetryFailureClass.stale_fingerprint ≡ false
    → (failure ≡ RetryFailureClass.transient) ⊎ (failure ≡ RetryFailureClass.timeout)
passing_class RetryFailureClass.transient v a b c = inl refl
passing_class RetryFailureClass.timeout v a b c = inr refl
passing_class _ v a b c = cc

input_guard :
    (p q r s : Bool) → (not p || (q || (not r || not s))) ≡ false → (p ≡ true) × (r ≡ true)
input_guard p q r s h = ground arith

first_attempt : (p r s : Bool) (n : ℕ) → (not p || (n == 0 || (not r || not s))) ≡ false → 0 < n
first_attempt p r s n h = ground arith

known_mutation :
    (o : MutationObservation)
    → mutation_observation_eq o MutationObservation.unknown ≡ false
    → ¬ (o ≡ MutationObservation.unknown)
known_mutation MutationObservation.unknown h = cc
known_mutation _ h = λ same. cc

idempotent_mutation :
    (idempotent : Bool) (o : MutationObservation)
    → (not idempotent && mutation_observation_eq o MutationObservation.occurred) ≡ false
    → o ≡ MutationObservation.occurred
    → idempotent ≡ true
idempotent_mutation true o h same = refl
idempotent_mutation false MutationObservation.occurred h same = cc
idempotent_mutation false _ h same = cc

attempts_left : (attempts n : ℕ) → leb attempts n ≡ false → n < attempts
attempts_left attempts n h = ground arith

-- What an attempt after `attempt` that is allowed for `step` is known to satisfy, with the delay.
pub record IsAllowedRetry (step : ExecutionStepContract) (attempt : ℕ) (failure : RetryFailureClass)
    (mutation : MutationObservation) (delay : ℤ) : Type 0 where
  pub class : (failure ≡ RetryFailureClass.transient) ⊎ (failure ≡ RetryFailureClass.timeout)
  pub known : ¬ (mutation ≡ MutationObservation.unknown)
  pub repeatable : mutation ≡ MutationObservation.occurred → step.idempotent ≡ true
  pub attempts : (attempt < step.retry.max_attempts) × (step.retry.max_attempts ≤ 10)
  pub delayed :
      (i : ℕ) × (m : ℕ) × (n : ℕ) × (step.retry.initial_backoff_seconds ≡ pos i)
      × (step.retry.max_backoff_seconds ≡ pos m)
      × (delay ≡ pos (n * 1000000000))
      × (i ≤ n)
      × (n ≤ m)
      × (m ≤ 3600)
      × ((n ≡ i * 2 ^ (attempt - 1)) ⊎ ((n ≡ m) × (m ≤ i * 2 ^ (attempt - 1) + 1)))

capped :
    (policy : RetryPolicy) (attempt i m : ℕ)
    → policy.initial_backoff_seconds ≡ pos i
    → policy.max_backoff_seconds ≡ pos m
    → i ≤ m
    → m ≤ 3600
    → (n : ℕ) × (times (delay_seconds policy attempt) 1000000000 ≡ pos (n * 1000000000))
      × (i ≤ n)
      × (n ≤ m)
      × ((n ≡ i * 2 ^ (attempt - 1)) ⊎ ((n ≡ m) × (m ≤ i * 2 ^ (attempt - 1) + 1)))
unfolding delay_seconds
capped policy attempt i m initial limit up small =
    let (n, grown, low, high, kind) = backoff-doubles (attempt - 1) i m up small in
    let uncapped : ltb (m + 0) (n + 0) ≡ false = ground arith in
    (
      n,
      rw (initial, limit, grown, uncapped) (times-fits n 1000000000 (omega (arith, high, small))),
      low,
      high,
      kind,
    )

retry_check-IsAllowedRetry :
    (step : ExecutionStepContract) (attempt : ℕ) (failure : RetryFailureClass)
    (mutation : MutationObservation)
    → retry_check step attempt failure mutation ≡ ok tt
    → IsAllowedRetry step attempt failure mutation
        (times (delay_seconds step.retry attempt) 1000000000)
unfolding retry_check
retry_check-IsAllowedRetry step attempt failure mutation h =
    let all = checks-passed _ h in
    let input = reject_if-passed _ _ all.0 in
    let (policy, failing) =
      input_guard (retry_policy_valid step.retry) (attempt == 0) (retry_failure_class_valid failure)
        (mutation_observation_valid mutation) input in
    let started =
      first_attempt (retry_policy_valid step.retry) (retry_failure_class_valid failure)
        (mutation_observation_valid mutation) attempt input in
    let left =
      attempts_left step.retry.max_attempts attempt (reject_if-passed _ _ all.1.1.1.1.1.1.0) in
    let (i, m, initial, limit, positive, up, small, few) =
      policy_limits step.retry.max_attempts step.retry.initial_backoff_seconds
        step.retry.max_backoff_seconds policy (omega (arith, started, left)) in
    let (n, delay, low, high, kind) = capped step.retry attempt i m initial limit up small in
    record {
      class =
          passing_class failure failing (reject_if-passed _ _ all.1.0)
            (reject_if-passed _ _ all.1.1.0) (reject_if-passed _ _ all.1.1.1.0);
      known = known_mutation mutation (reject_if-passed _ _ all.1.1.1.1.0);
      repeatable =
          idempotent_mutation step.idempotent mutation (reject_if-passed _ _ all.1.1.1.1.1.0);
      attempts = (left, few);
      delayed = (i, m, n, initial, limit, delay, low, high, small, kind);
    }

only_match :
    (found : Option ExecutionStepContract) (steps : List ExecutionStepContract)
    {step : ExecutionStepContract}
    → as_list found ≡ steps
    → matched_step found ≡ ok step
    → steps ≡ step ∷ []
only_match none steps same h = cc
only_match (some found) steps same h = sym same ∙ ap (λ x. x ∷ []) (ok-injective h)

-- A step that may be retried is the only one with its ID, and passed the checks.
retried_step-ok :
    (contract : ExecutionContract) (id : String) (attempt : ℕ) (failure : RetryFailureClass)
    (mutation : MutationObservation) {step : ExecutionStepContract}
    → retried_step contract id attempt failure mutation ≡ ok step
    → (named id contract.steps ≡ step ∷ []) × (retry_check step attempt failure mutation ≡ ok tt)
unfolding retried_step
retried_step-ok contract id attempt failure mutation h =
    let (found, matched, rest) = >>=-ok (match_steps id none contract.steps) _ h in
    let (step, given, later) = >>=-ok (matched_step found) _ rest in
    let (u, passed, last) = >>=-ok (retry_check step attempt failure mutation) _ later in
    subst
      (λ s. (named id contract.steps ≡ s ∷ []) × (retry_check s attempt failure mutation ≡ ok tt))
      (ok-injective last)
      (only_match found _ (match_steps-named id none contract.steps matched) given, passed)

decision_lem :
    (contract : ExecutionContract) (id : String) (attempt : ℕ) (failure : RetryFailureClass)
    (mutation : MutationObservation) (r : Result String ExecutionStepContract)
    → retried_step contract id attempt failure mutation ≡ r
    → ((decision_of attempt r).retry ≡ true
        → (step : ExecutionStepContract) × (named id contract.steps ≡ step ∷ [])
          × IsAllowedRetry step attempt failure mutation (decision_of attempt r).delay)
      × ((decision_of attempt r).retry ≡ false → (decision_of attempt r).delay ≡ pos 0)
unfolding decision_of
decision_lem contract id attempt failure mutation (err reason) h = (λ no. cc, λ r. refl)
decision_lem contract id attempt failure mutation (ok step) h =
    let (only, passed) = retried_step-ok contract id attempt failure mutation h in
    (λ r. (step, only, retry_check-IsAllowedRetry step attempt failure mutation passed), λ no. cc)

-- An attempt is retried only for the one step of the contract that has the ID, after a transient
-- failure or a timeout, when the mutation is known and, if it occurred, the step is idempotent, and
-- while fewer attempts were made than the policy allows, which are at most 10. The delay is then a
-- number of seconds between the initial and the maximal backoff, and at most an hour: the initial
-- backoff doubled at every attempt, or the maximum once the doubling has reached it or is one
-- second short of it. A refusal has no delay.
pub decide_retry-IsAllowedRetry :
    (contract : ExecutionContract) (id : String) (attempt : ℕ) (failure : RetryFailureClass)
    (mutation : MutationObservation)
    → ((decide_retry contract id attempt failure mutation).retry ≡ true
        → (step : ExecutionStepContract) × (named id contract.steps ≡ step ∷ [])
          × IsAllowedRetry step attempt failure mutation
              (decide_retry contract id attempt failure mutation).delay)
      × ((decide_retry contract id attempt failure mutation).retry ≡ false
          → (decide_retry contract id attempt failure mutation).delay ≡ pos 0)
unfolding decide_retry
decide_retry-IsAllowedRetry contract id attempt failure mutation =
    decision_lem contract id attempt failure mutation
      (retried_step contract id attempt failure mutation) refl
