-- ===== src/Domain/Contract/Build/Sound.antt =====
-- `NewExecutionContract` of internal/domain/plan.go returns only sound contracts.
use ctrldb.Prelude.{
  subst, reject_if, reject_if-passed, >>=-ok, All, ◌≡◌, ◌||◌, ◌==◌, ◌&&◌, ◌∙◌, sym, refl,
}
use ctrldb.Domain.Contract.{
  ExecutionContract, Option, String, PointOfNoReturnTrigger, List, ExecutionStepContract, true, not,
  trigger_valid, false, str_eq,
}
use ctrldb.Domain.Contract.Build.{
  new_execution_contract, [], ok, is_workflow_id, some, is_step_id, length, invalid_contract, Built,
  none, build_steps, point_check,
}
use ctrldb.Domain.Contract.Build.Steps.{
  IsSound, IsDistinct, needs_boundary, has_step, build_steps-IsSound, with_digest-ok,
  boundary_guard, point_check-ok,
}

-- What the engine relies on in a contract with the digest function `hash`.
pub record IsContract (hash : ExecutionContract → Option String) (c : ExecutionContract)
    : Type 0 where
  pub sound : All IsSound c.steps
  pub distinct : IsDistinct [] c.steps
  pub boundary : needs_boundary c.steps ≡ true → ¬ (c.rollback_boundary ≡ "none")
  pub point :
      ¬ (c.point_of_no_return ≡ "")
      → (has_step c.steps c.point_of_no_return ≡ true)
        × (trigger_valid c.point_of_no_return_trigger ≡ true)
  pub digested : hash (record c { digest = "" }) ≡ some c.digest

-- A contract that `NewExecutionContract` returns has the steps it was given, with distinct IDs and
-- each with a known identity and a valid retry policy. A mutation step needs more than read
-- approval, step-up authentication only goes with a mutation of class AP-4 or stronger, and an AP-5
-- mutation needs recovery assets. If a step mutates or fails into a rollback, the rollback boundary
-- is not "none". A point of no return is one of the steps and has a valid trigger. The digest is
-- the hash of all the rest.
pub new_execution_contract-IsContract :
    (hash : ExecutionContract → Option String) (workflow_id rollback_boundary point : String)
    (trigger : PointOfNoReturnTrigger) (steps : List ExecutionStepContract) {c : ExecutionContract}
    → new_execution_contract hash workflow_id rollback_boundary point trigger steps ≡ ok c
    → IsContract hash c × (c.steps ≡ steps)
unfolding new_execution_contract
new_execution_contract-IsContract hash workflow_id rollback_boundary point trigger steps h =
    let (u, basic, rest) =
      >>=-ok
        (reject_if
          (not (is_workflow_id workflow_id)
            || (not (is_step_id rollback_boundary) || length steps == 0))
          (invalid_contract "invalid workflow, rollback boundary, or steps"))
        _ h in
    let none_yet : Built = record { seen = []; rollback_required = false; exposure = none } in
    let (built, looped, later) = >>=-ok (build_steps 0 none_yet steps) _ rest in
    let (v, pointed, last) = >>=-ok (point_check built.seen point trigger) _ later in
    let (w, bounded, digesting) =
      >>=-ok
        (reject_if (built.rollback_required && str_eq rollback_boundary "none")
          (invalid_contract "mutation or rollback step requires a rollback boundary"))
        _ last in
    let (all, distinct, needs, ids) = build_steps-IsSound 0 none_yet steps looped in
    let contract : ExecutionContract = record {
      workflow_id = workflow_id;
      rollback_boundary = rollback_boundary;
      point_of_no_return = point;
      point_of_no_return_trigger = trigger;
      steps = steps;
      digest = "";
    } in
    let (digest, hashed, same) = with_digest-ok contract (hash contract) digesting in
    subst (λ c. IsContract hash c × (c.steps ≡ steps)) same
      (
        record {
          sound = all;
          distinct = distinct;
          boundary = λ needed.
              boundary_guard built.rollback_required rollback_boundary
                (reject_if-passed _ _ bounded) (needs ∙ needed);
          point = λ given.
              let (found, valid) = point_check-ok built.seen point trigger pointed given in
              (sym (ids point) ∙ found, valid);
          digested = hashed;
        },
        refl,
      )
