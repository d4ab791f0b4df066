-- ===== src/Workflow/Cancellation/Request/Durable.antt =====
-- The restoration of a request that `Request` of internal/workflow/cancellation.go made durable.
use ctrldb.Prelude.{
  >>=-ok, ok-injective, ap, ◌∙◌, Bool, refl, eq_refl, reject_if, reject_if-passed, List, ℕ, String,
  Option, ◌≡◌, true, false, ◌++◌, ◌∷◌, ok, some, [], get_elem?, not, ◌||◌, none,
}
use ctrldb.Domain.Contract.{ExecutionContract, ExecutionStepContract, trigger_valid}
use ctrldb.Workflow.Cancellation.Request.{
  JournalEntry, CancellationRequest, Machine, OperationState, MutationObservation,
  CancellationController, request_entry, cancellation_target, occurred_or_unknown, request_binding,
  invalid_cancellation,
}
use ctrldb.Workflow.Cancellation.Context.{
  cancellation_context, Progress, progress_entries, unobserved, current_step, validate_foundation,
}
use ctrldb.Workflow.Cancellation.Restore.{
  replay_request, Replay, entry_crosses, binds, contract_hash_of, any_crosses, reached_at,
  restore_controller, point_of_no_return_reached,
}
use ctrldb.Workflow.Cancellation.Request.Complete.{validate_foundation-ok}
use ctrldb.Workflow.Journal.Cursor.{holds}

pub binds-append :
    (xs ys : List JournalEntry) (o p : String) → binds xs o p ≡ true → binds (xs ++ ys) o p ≡ true
binds-append [] ys o p h = cc
binds-append (x ∷ xs) ys o p h = h

pub contract_hash_of-append :
    (xs ys : List JournalEntry) (p : String → Bool)
    → holds p (contract_hash_of xs) ≡ true
    → holds p (contract_hash_of (xs ++ ys)) ≡ true
contract_hash_of-append [] ys p h = cc
contract_hash_of-append (x ∷ xs) ys p h = h

-- A request crosses no point of no return.
any_crosses-append :
    (contract : ExecutionContract) (point : ℕ) (xs : List JournalEntry) (entry : JournalEntry)
    → entry_crosses contract point entry.kind entry ≡ false
    → any_crosses contract point (xs ++ entry ∷ []) ≡ any_crosses contract point xs
any_crosses-append contract point [] entry h = rw h refl
any_crosses-append contract point (x ∷ xs) entry h =
    ap (λ b. entry_crosses contract point x.kind x || b)
      (any_crosses-append contract point xs entry h)

pub reached_at-append :
    (contract : ExecutionContract) (xs : List JournalEntry) (entry : JournalEntry) (i : Option ℕ)
    → ((point : ℕ) → entry_crosses contract point entry.kind entry ≡ false)
    → reached_at contract (xs ++ entry ∷ []) i ≡ reached_at contract xs i
reached_at-append contract xs entry none h = refl
reached_at-append contract xs entry (some point) h =
    ap (λ b. not (trigger_valid contract.point_of_no_return_trigger) || b)
      (any_crosses-append contract point xs entry (h point))

-- What `cancellationContext` has found.
pub cancellation_context-ok :
    (hash : List JournalEntry → Option String) (machine : Machine) (contract : ExecutionContract)
    (entries : List JournalEntry) (request : CancellationRequest) (step : ExecutionStepContract)
    (observation : MutationObservation)
    → cancellation_context hash machine contract entries request ≡ ok (step, observation)
    → ((c : CancellationController) × (restore_controller hash entries machine.operation_id
            machine.plan_id contract
          ≡ ok c))
      × (point_of_no_return_reached contract entries ≡ false)
      × ((p : Progress) × (progress_entries contract unobserved entries ≡ ok p)
          × (get_elem? contract.steps p.next ≡ some step))
unfolding cancellation_context
cancellation_context-ok hash machine contract entries request step observation h =
    let (a, founded, rest) =
      >>=-ok (validate_foundation hash machine request contract entries) _ h in
    let (u, open_yet, later) =
      >>=-ok
        (reject_if (point_of_no_return_reached contract entries)
          (invalid_cancellation "point of no return has been reached"))
        _ rest in
    let (p, progressed, third) = >>=-ok (progress_entries contract unobserved entries) _ later in
    let (s, current, last) = >>=-ok (current_step (get_elem? contract.steps p.next)) _ third in
    (
      (validate_foundation-ok hash machine request contract entries founded).3,
      reject_if-passed _ _ open_yet,
      (
        p,
        progressed,
        present (get_elem? contract.steps p.next) current ∙ ap (λ x. some x.0) (ok-injective last),
      ),
    )
  where
    present :
        (o : Option ExecutionStepContract) {s : ExecutionStepContract}
        → current_step o ≡ ok s
        → o ≡ some s
    present none h = cc
    present (some x) h = ap some (ok-injective h)

-- The replay of the durable entry.
pub request_entry-replay :
    (contract : ExecutionContract) (r : Replay) (request : CancellationRequest)
    (state : OperationState) (step : ExecutionStepContract) (observation : MutationObservation)
    (hashed : Option String) (h : String)
    → hashed ≡ some h
    → get_elem? contract.steps r.next ≡ some step
    → (r' : Replay) × (replay_request contract r
          (request_entry request state step.id contract.digest observation)
          hashed
          (request_entry request state step.id contract.digest observation).cancellation
        ≡ ok r')
      × (r'.target ≡ some (cancellation_target (occurred_or_unknown observation)))
      × (r'.binding ≡ record (request_binding request contract h) {
        step_id = step.id;
        cancel_safe = step.cancel_safe;
      })
unfolding replay_request reject_if
request_entry-replay contract r request state step observation hashed h found current = (
  record r {
    target = some (cancellation_target (occurred_or_unknown observation));
    binding = record (request_binding request contract h) {
      step_id = step.id;
      cancel_safe = step.cancel_safe;
    };
  },
  rw (found, eq_refl contract.digest, current, eq_refl step.id) refl,
  refl,
  refl,
)
