-- ===== src/Workflow/Cancellation/Request/Complete.antt =====
-- The checks of `Request` in internal/workflow/cancellation.go make the binding complete.
use ctrldb.Prelude.{
  >>=-ok, ok-injective, subst, ap, Bool, arith, reject_if-passed, checks-passed, map_err-ok, String,
  not, Option, str_eq, ◌||◌, ◌≡◌, List, false, ok, true, some, ◌&&◌, eq_iff, none, last?, reject_if,
  map_err, length, ◌==◌, not-false,
}
use ctrldb.Workflow.Cancellation.Request.{
  request_check, JournalEntry, Machine, CancellationRequest, ExecutionContract,
  CancellationController, validate_journal, request_binding, invalid_cancellation, state_valid,
  state_terminal, in_state,
}
use ctrldb.Workflow.Cancellation.Context.{
  validate_foundation, foundation_check, validate_request, extends_last,
}
use ctrldb.Workflow.Cancellation.Apply.OneShot.{IsComplete}
use ctrldb.Workflow.Cancellation.Restore.{bound_hash, restore_controller}
use ctrldb.Workflow.Patterns.{is_contract_digest, is_operation_id, is_plan_id}
use ctrldb.Domain.Contract.Build.{is_blank}
use ctrldb.Domain.Time.{is_zero}

binding_guard :
    (a b c d : String)
    → (not (str_eq a b) || not (str_eq c d)) ≡ false
    → (str_eq b a && str_eq d c) ≡ true
binding_guard a b c d h = ground (arith, eq_iff a b, eq_iff b a, eq_iff c d, eq_iff d c)

identity_guard :
    (a b c d : Bool) → (not a || (not b || (c || d))) ≡ false → (c ≡ false) × (d ≡ false)
identity_guard a b c d h = ground arith

digest_guard : (a b c : Bool) → (not a || (b || c)) ≡ false → a ≡ true
digest_guard a b c h = ground arith

bound_hash-ok : (hashed : Option String) {h : String} → bound_hash hashed ≡ ok h → hashed ≡ some h
bound_hash-ok none h = cc
bound_hash-ok (some x) h = ap some (ok-injective h)

-- What the foundation of a request has found.
pub validate_foundation-ok :
    (hash : List JournalEntry → Option String) (machine : Machine) (request : CancellationRequest)
    (contract : ExecutionContract) (entries : List JournalEntry) {journal_hash : String}
    → validate_foundation hash machine request contract entries ≡ ok journal_hash
    → (validate_journal entries ≡ ok tt)
      × (is_contract_digest contract.digest ≡ true)
      × (extends_last machine request (last? entries) ≡ true)
      × ((c : CancellationController) × (restore_controller hash entries machine.operation_id
              machine.plan_id contract
            ≡ ok c))
      × (hash entries ≡ some journal_hash)
unfolding validate_foundation foundation_check
validate_foundation-ok hash machine request contract entries h =
    let (u, checked, rest) = >>=-ok (foundation_check machine request contract entries) _ h in
    let all = checks-passed _ checked in
    let (c, restored, last) =
      >>=-ok
        (map_err (λ e. invalid_cancellation "durable journal contradicts the execution contract")
          (restore_controller hash entries machine.operation_id machine.plan_id contract))
        _ rest in
    (
      map_err-ok _ (validate_journal entries) all.0,
      digest_guard (is_contract_digest contract.digest) (is_blank contract.workflow_id)
          (length contract.steps == 0) (reject_if-passed _ _ all.1.0),
      not-false _ (reject_if-passed _ _ all.1.1.1.0),
      (c, map_err-ok _ _ restored),
      bound_hash-ok (hash entries) last,
    )

-- An accepted request has a complete binding, on a journal that is valid.
pub request_check-IsComplete :
    (hash : List JournalEntry → Option String)
    → ((es : List JournalEntry) (h : String) → hash es ≡ some h → is_contract_digest h ≡ true)
    → (controller : CancellationController) (machine : Machine) (request : CancellationRequest)
      (contract : ExecutionContract) (entries : List JournalEntry) {journal_hash : String}
    → request_check hash controller machine request contract entries ≡ ok journal_hash
    → IsComplete machine (request_binding request contract journal_hash)
      × (validate_journal entries ≡ ok tt)
unfolding request_check validate_request
request_check-IsComplete hash digests controller machine request contract entries h =
    let (u, same, rest) =
      >>=-ok
        (reject_if
          (not (str_eq machine.operation_id request.operation_id)
            || not (str_eq machine.plan_id request.plan_id))
          (invalid_cancellation "request does not match machine binding"))
        _ h in
    let (v, valid, later) = >>=-ok (validate_request request) _ rest in
    let (w, live, third) =
      >>=-ok
        (reject_if (not (state_valid machine.state) || state_terminal machine.state)
          (in_state machine.state "cannot accept cancellation"))
        _ later in
    let (journal_hash, founded, last) =
      >>=-ok (validate_foundation hash machine request contract entries) _ third in
    let (x, unqueued, done) =
      >>=-ok
        (reject_if controller.queued (invalid_cancellation "cancellation request already recorded"))
        _ last in
    let (journal, digest, extends, restored, hashed) =
      validate_foundation-ok hash machine request contract entries founded in
    let (numbered, dated) =
      identity_guard (is_operation_id request.operation_id) (is_plan_id request.plan_id)
        (request.sequence == 0) (is_zero request.requested_at)
        (reject_if-passed _ _ (checks-passed _ valid).0) in
    (
      subst (λ j. IsComplete machine (request_binding request contract j)) (ok-injective done)
          (record {
            bound =
                binding_guard machine.operation_id request.operation_id machine.plan_id
                  request.plan_id (reject_if-passed _ _ same);
            contract = digest;
            journal = digests entries journal_hash hashed;
            numbered = numbered;
            dated = dated;
          }),
      journal,
    )
