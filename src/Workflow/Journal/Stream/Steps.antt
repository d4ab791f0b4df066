-- ===== src/Workflow/Journal/Stream/Steps.antt =====
-- One accepted entry, and the accepted entries one after another.
use ctrldb.Prelude.{
  ℕ, Option, ◌≡◌, Result, List, ok, String, ◌++◌, ◌∷◌, >>=-ok, checks-passed, some, subst, ◌%◌, ◌+◌,
  ◌>>=◌, or_false, ok-injective, length, none, ◌^◌, not, [], refl, str_eq, sym, reject_if-passed,
  ◌∙◌, ◌&&◌, map_err-ok, false, ==→eq, not-false, str_eq→eq, ap, arith, Result-cases, inl, suc, inr,
}
use ctrldb.Workflow.Journal.Stream.{
  validate_next, entry_guard, dispatch, validate_from, scan_journal, dereferenced, at_entry, Time,
  is_zero, before,
}
use ctrldb.Domain.Journal.{JournalEntry, JournalCancellationRequest, JournalEntryKind}
use ctrldb.Workflow.Journal.Entry.{
  validate_journal_entry, validate_body, JournalError, Check, required, route_of, in_entry,
}
use ctrldb.Workflow.Journal.Cursor.{Cursor, start}
use ctrldb.Workflow.Journal.Stream.Invariant.{
  Inv, IsLive, start-Inv, on_request-Inv, request_route, on_step-Inv,
}
use ctrldb.Workflow.Journal.Stream.Transitions.{on_transition-Inv, transition_pause}

pub validate_next-ok :
    (first : JournalEntry) (n : ℕ) (c : Cursor) (entry : JournalEntry) {c' : Cursor}
    → validate_next first n c entry ≡ ok c'
    → (entry_guard first n c entry ≡ ok tt)
      × (dispatch entry.kind first.operation_id first.plan_id n c.previous_time
            (at_entry c entry)
            entry
          ≡ ok c')
unfolding validate_next
validate_next-ok first n c entry h =
    let (u, passed, rest) = >>=-ok (entry_guard first n c entry) _ h in (passed, rest)

-- What the checks common to all kinds of entry establish.
pub record Guarded (first : JournalEntry) (n : ℕ) (c : Cursor) (entry : JournalEntry) : Type 0 where
  pub valid : validate_journal_entry entry ≡ ok tt
  pub numbered : entry.sequence ≡ n % 2 ^ 64
  pub same_operation : entry.operation_id ≡ first.operation_id
  pub same_plan : entry.plan_id ≡ first.plan_id
  pub same_contract : entry.contract_hash ≡ first.contract_hash
  pub in_order : (not (is_zero c.previous_time) && before entry.recorded_at c.previous_time) ≡ false
  pub live : IsLive c

pub entry_guard-Guarded :
    (first : JournalEntry) (n : ℕ) (c : Cursor) (entry : JournalEntry)
    → entry_guard first n c entry ≡ ok tt
    → Guarded first n c entry
unfolding entry_guard
entry_guard-Guarded first n c entry h =
    let all = checks-passed _ h in
    let (other_operation, others) =
      or_false (not (str_eq entry.operation_id first.operation_id)) _
        (reject_if-passed _ _ all.1.1.0) in
    let (other_plan, other_contract) =
      or_false (not (str_eq entry.plan_id first.plan_id))
        (not (str_eq entry.contract_hash first.contract_hash)) others in
    record {
      valid = map_err-ok (in_entry n) _ all.0;
      numbered = ==→eq _ _ (not-false _ (reject_if-passed _ _ all.1.0));
      same_operation = str_eq→eq _ _ (not-false _ other_operation);
      same_plan = str_eq→eq _ _ (not-false _ other_plan);
      same_contract = str_eq→eq _ _ (not-false _ other_contract);
      in_order = reject_if-passed _ _ all.1.1.1.0;
      live = reject_if-passed _ _ all.1.1.1.1.0;
    }

pub validate_journal_entry-body :
    (entry : JournalEntry)
    → validate_journal_entry entry ≡ ok tt
    → validate_body entry.kind entry ≡ ok tt
unfolding validate_journal_entry
validate_journal_entry-body entry h = (checks-passed _ h).1.1.1.1.1.1.1.1.0

pub dereferenced-ok {ℓ} :
    {A : Type ℓ} (o : Option A) (f : A → Result JournalError Cursor) {c : Cursor}
    → dereferenced o f ≡ ok c
    → (a : A) × (o ≡ some a) × (f a ≡ ok c)
dereferenced-ok none f h = cc
dereferenced-ok (some a) f h = (a, refl, h)

pub required-ok {ℓ} :
    {A : Type ℓ} (o : Option A) (e : JournalError) (check : A → Check)
    → required o e check ≡ ok tt
    → (a : A) × (o ≡ some a) × (check a ≡ ok tt)
required-ok none e check h = cc
required-ok (some a) e check h = (a, refl, h)

-- A checked cancellation request carries its data, and names the route of its observation.
pub request_checked :
    (entry : JournalEntry) (request : JournalCancellationRequest)
    → validate_body JournalEntryKind.cancellation_request entry ≡ ok tt
    → entry.cancellation ≡ some request
    → request.required_route ≡ route_of request.mutation_observation
unfolding validate_body
request_checked entry request h at =
    let (request', held, passed) = required-ok entry.cancellation _ _ (checks-passed _ h).1.0 in
    let same : request' ≡ request = cc (sym held ∙ at) in
    subst (λ r. r.required_route ≡ route_of r.mutation_observation) same
      (request_route request' entry.recorded_at entry.contract_hash passed)

at_entry-Inv : (c : Cursor) (entry : JournalEntry) → Inv c → Inv (at_entry c entry)
at_entry-Inv c entry inv = record {
  canonical = inv.canonical;
  paused_held = inv.paused_held;
  route_known = inv.route_known;
  cancel_unmutated = inv.cancel_unmutated;
  cancelled_unmutated = inv.cancelled_unmutated;
}

dispatch-Inv :
    (k : JournalEntryKind) (operation_id plan_id : String) (n : ℕ) (prior : Time) (c : Cursor)
    (entry : JournalEntry) {c' : Cursor}
    → validate_body k entry ≡ ok tt
    → IsLive c
    → Inv c
    → dispatch k operation_id plan_id n prior c entry ≡ ok c'
    → Inv c'
unfolding dispatch
dispatch-Inv JournalEntryKind.cancellation_request operation_id plan_id n prior c entry body live
      inv h =
    let (request, at, rest) = dereferenced-ok entry.cancellation _ h in
    on_request-Inv c inv live c.machine n prior entry request
      (request_checked entry request body at) rest
dispatch-Inv JournalEntryKind.transition operation_id plan_id n prior c entry body live inv h =
    on_transition-Inv c.machine operation_id plan_id n c entry refl (transition_pause entry body)
      inv h
dispatch-Inv _ operation_id plan_id n prior c entry body live inv h =
    let (step, at, rest) = dereferenced-ok entry.step _ h in
    on_step-Inv c inv live c.machine n prior entry step rest

pub validate_next-Inv :
    (first : JournalEntry) (n : ℕ) (c : Cursor) (entry : JournalEntry) {c' : Cursor}
    → Inv c
    → validate_next first n c entry ≡ ok c'
    → Inv c'
validate_next-Inv first n c entry inv h =
    let (passed, rest) = validate_next-ok first n c entry h in
    let guarded = entry_guard-Guarded first n c entry passed in
    dispatch-Inv entry.kind first.operation_id first.plan_id n c.previous_time (at_entry c entry)
      entry (validate_journal_entry-body entry guarded.valid) guarded.live
      (at_entry-Inv c entry inv) rest

pub validate_from-cons :
    (first : JournalEntry) (i : ℕ) (c : Cursor) (entry : JournalEntry) (entries : List JournalEntry)
    {c' : Cursor}
    → validate_from first i c (entry ∷ entries) ≡ ok c'
    → (d : Cursor) × (validate_next first (i + 1) c entry ≡ ok d)
      × (validate_from first (i + 1) d entries ≡ ok c')
unfolding validate_from
validate_from-cons first i c entry entries h = >>=-ok (validate_next first (i + 1) c entry) _ h

pub validate_from-Inv :
    (first : JournalEntry) (i : ℕ) (c : Cursor) (entries : List JournalEntry) {c' : Cursor}
    → Inv c
    → validate_from first i c entries ≡ ok c'
    → Inv c'
unfolding validate_from
validate_from-Inv first i c [] inv h = subst Inv (ok-injective h) inv
validate_from-Inv first i c (entry ∷ entries) inv h =
    let (d, next, rest) = validate_from-cons first i c entry entries h in
    validate_from-Inv first (i + 1) d entries (validate_next-Inv first (i + 1) c entry inv next)
      rest

-- The variables after every accepted history satisfy the invariant.
pub scan_journal-Inv :
    (entries : List JournalEntry) {c : Cursor} → scan_journal entries ≡ ok c → Inv c
unfolding scan_journal
scan_journal-Inv [] h = cc
scan_journal-Inv (first ∷ entries) h = validate_from-Inv first 0 start (first ∷ entries) start-Inv h

-- The scan of a longer history is the scan of its beginning, continued.
pub validate_from-append :
    (first : JournalEntry) (i : ℕ) (c : Cursor) (xs ys : List JournalEntry)
    → validate_from first i c (xs ++ ys)
      ≡ (validate_from first i c xs >>= λ c'. validate_from first (i + length xs) c' ys)
unfolding validate_from
validate_from-append first i c [] ys =
    ap (λ k. validate_from first k c ys) (let e : i ≡ i + 0 = omega arith in e)
validate_from-append first i c (x ∷ xs) ys = elim (Result-cases (validate_next first (i + 1) c x)) [
  | inl (d, next) ↦
      let moved : i + 1 + length xs ≡ i + suc (length xs) = omega arith in
      rw next (
        subst
          (λ k.
            validate_from first (i + 1) d (xs ++ ys)
            ≡ (validate_from first (i + 1) d xs >>= λ c'. validate_from first k c' ys))
          moved (validate_from-append first (i + 1) d xs ys))
  | inr (e, refused) ↦ rw refused
]

-- The beginning of an accepted history is accepted, and the rest is accepted after it.
pub scan_journal-append :
    (first : JournalEntry) (xs ys : List JournalEntry) {c : Cursor}
    → scan_journal ((first ∷ xs) ++ ys) ≡ ok c
    → (d : Cursor) × (scan_journal (first ∷ xs) ≡ ok d)
      × (validate_from first (length (first ∷ xs)) d ys ≡ ok c)
unfolding scan_journal
scan_journal-append first xs ys {c = c} h =
    let split = validate_from-append first 0 start (first ∷ xs) ys in
    let (d, begun, rest) =
      >>=-ok (validate_from first 0 start (first ∷ xs))
        (λ c'. validate_from first (0 + length (first ∷ xs)) c' ys) (sym split ∙ h) in
    let count : 0 + length (first ∷ xs) ≡ length (first ∷ xs) = omega arith in
    (d, begun, subst (λ k. validate_from first k d ys ≡ ok c) count rest)
