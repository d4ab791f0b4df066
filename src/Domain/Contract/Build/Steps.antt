-- ===== src/Domain/Contract/Build/Steps.antt =====
-- What an execution contract that internal/domain/plan.go builds is known to satisfy.
use ctrldb.Prelude.{
  checks-passed, reject_if-passed, >>=-ok, ok-injective, Bool, List, ◌||◌, ◌≡◌, ◌&&◌, arith, ◌==◌,
  ◌≤◌, All, [], ap, sym, ◌∙◌, or_false_right, ◌+◌, or_assoc, eq_iff, Bool-cases, inl, str_eq→eq,
  inr, not-false, none, refl,
}
use ctrldb.Domain.Contract.{
  ExecutionStepContract, not, String, false, true, is_mutation, str_eq, step_effect_valid,
  FailureBehavior, PointOfNoReturnTrigger, ExecutionContract, trigger_valid, Option,
}
use ctrldb.Domain.Contract.Build.{
  step_check, build_steps, execution_identity_valid, Built, ◌∷◌, ltb, ok, contains,
  retry_policy_valid, is_step_id, failure_behavior_eq, approval_read, approval_destructive,
  approval_class_valid, approval_data_destructive, build_step, point_check, with_digest, some,
  is_blank, ℕ,
}

-- The promises of a step that the engine rests on.
pub record IsSound (step : ExecutionStepContract) : Type 0 where
  pub identity : execution_identity_valid step.executing_identity ≡ true
  pub retry : retry_policy_valid step.retry ≡ true
  pub approval : is_mutation step.effect ≡ true → ¬ (step.minimum_approval ≡ approval_read)
  pub step_up :
      step.requires_step_up ≡ true
      → (is_mutation step.effect ≡ true) × (approval_destructive ≤ step.minimum_approval)
  pub recovery :
      is_mutation step.effect ≡ true
      → step.minimum_approval ≡ approval_data_destructive
      → step.requires_recovery_asset ≡ true

first_guard :
    (a b c d e f rest : Bool)
    → (not a || (not b || (not c || (not d || (not e || (not f || rest)))))) ≡ false
    → (c ≡ true) × (f ≡ true)
first_guard a b c d e f rest h = ground arith

above_read : (m : Bool) (approval : ℕ) → (m && approval == 0) ≡ false → m ≡ true → ¬ (approval ≡ 0)
above_read m approval h = ground arith

step_up_guard :
    (up m : Bool) (approval : ℕ)
    → (up && (not m || ltb approval 4)) ≡ false
    → up ≡ true
    → (m ≡ true) × (4 ≤ approval)
step_up_guard up m approval h = ground arith

recovery_guard :
    (m asset : Bool) (approval : ℕ)
    → (m && (approval == 5 && not asset)) ≡ false
    → m ≡ true
    → approval ≡ 5
    → asset ≡ true
recovery_guard m asset approval h = ground arith

step_check-IsSound :
    (i : ℕ) (built : Built) (step : ExecutionStepContract)
    → step_check i built step ≡ ok tt
    → IsSound step × (contains built.seen step.id ≡ false)
unfolding step_check
step_check-IsSound i built step h =
    let all = checks-passed _ h in
    let basic =
      first_guard (is_step_id step.id) (is_step_id step.executor)
        (execution_identity_valid step.executing_identity) (step_effect_valid step.effect)
        (approval_class_valid step.minimum_approval) (retry_policy_valid step.retry) _
        (reject_if-passed _ _ all.0) in
    (
      record {
        identity = basic.0;
        retry = basic.1;
        approval =
            above_read (is_mutation step.effect) step.minimum_approval
              (reject_if-passed _ _ all.1.0);
        step_up =
            step_up_guard step.requires_step_up (is_mutation step.effect) step.minimum_approval
              (reject_if-passed _ _ all.1.1.0);
        recovery =
            recovery_guard (is_mutation step.effect) step.requires_recovery_asset
              step.minimum_approval (reject_if-passed _ _ all.1.1.1.1.0);
      },
      reject_if-passed _ _ all.1.1.1.1.1.1.1.0,
    )

-- No step has an ID of `seen` or of a step before it.
abbrev pub IsDistinct : List String → List ExecutionStepContract → Type 0
IsDistinct seen [] = Unit
IsDistinct seen (step ∷ steps) = (contains seen step.id ≡ false) × IsDistinct (step.id ∷ seen) steps

-- Whether a step mutates or fails into a rollback.
abbrev pub needs_boundary : List ExecutionStepContract → Bool
needs_boundary [] = false
needs_boundary (step ∷ steps) =
    (is_mutation step.effect || failure_behavior_eq step.failure_behavior FailureBehavior.rollback)
    || needs_boundary steps

abbrev pub has_step : List ExecutionStepContract → String → Bool
has_step [] id = false
has_step (step ∷ steps) id = str_eq step.id id || has_step steps id

or_swap : (a b c : Bool) → ((a || b) || c) ≡ (b || (a || c))
or_swap a b c = ground arith

pub build_steps-IsSound :
    (i : ℕ) (built : Built) (steps : List ExecutionStepContract) {done : Built}
    → build_steps i built steps ≡ ok done
    → All IsSound steps
      × IsDistinct built.seen steps
      × (done.rollback_required ≡ (built.rollback_required || needs_boundary steps))
      × ((id : String) → contains done.seen id ≡ (contains built.seen id || has_step steps id))
unfolding build_steps
build_steps-IsSound i built [] h =
    let same = ok-injective h in
    (
      tt,
      tt,
      ap (λ x. x.rollback_required) (sym same) ∙ or_false_right built.rollback_required,
      λ id. ap (λ x. contains x.seen id) (sym same) ∙ or_false_right (contains built.seen id),
    )
build_steps-IsSound i built (step ∷ steps) h =
    let (u, passed, rest) = >>=-ok (step_check i built step) _ h in
    let (sound, fresh) = step_check-IsSound i built step passed in
    let (all, distinct, needs, ids) =
      build_steps-IsSound (i + 1) (build_step built step) steps rest in
    (
      (sound, all),
      (fresh, distinct),
      needs ∙ or_assoc built.rollback_required _ (needs_boundary steps),
      λ id. ids id ∙ or_swap (str_eq step.id id) (contains built.seen id) (has_step steps id),
    )

pub boundary_guard :
    (needed : Bool) (boundary : String)
    → (needed && str_eq boundary "none") ≡ false
    → needed ≡ true
    → ¬ (boundary ≡ "none")
boundary_guard needed boundary h = ground (arith, eq_iff boundary "none")

pub point_check-ok :
    (seen : List String) (point : String) (trigger : PointOfNoReturnTrigger)
    → point_check seen point trigger ≡ ok tt
    → ¬ (point ≡ "")
    → (contains seen point ≡ true) × (trigger_valid trigger ≡ true)
unfolding point_check
point_check-ok seen point trigger h given = elim (Bool-cases (is_blank point)) [
  | inl blank ↦ absurd (given (str_eq→eq point "" blank))
  | inr named ↦
      let all = checks-passed _ (rw named at h) in
      (not-false _ (reject_if-passed _ _ all.1.0), not-false _ (reject_if-passed _ _ all.1.1.0))
]

pub with_digest-ok :
    (contract : ExecutionContract) (hashed : Option String) {c : ExecutionContract}
    → with_digest contract hashed ≡ ok c
    → (digest : String) × (hashed ≡ some digest) × (record contract { digest = digest } ≡ c)
unfolding with_digest
with_digest-ok contract none h = cc
with_digest-ok contract (some digest) h = (digest, refl, ok-injective h)
