-- ===== src/Workflow/Journal/Stream/Order.antt =====
-- An accepted history is a numbered, dated log of one operation, and every beginning of it is one.
use ctrldb.Prelude.{
  ℕ, Option, List, ◌∷◌, ◌≡◌, String, ◌≤◌, ok, false, ◌++◌, ◌+◌, ap, some, reject_if-passed, not,
  >>=-ok, [], ◌%◌, sym, checks-passed, ◌^◌, ◌&&◌, ok-injective, true, reject_if, ◌∙◌, Bool, none,
  arith, subst, ltb_false→le, length,
}
use ctrldb.Domain.Journal.{
  JournalEntry, JournalPause, JournalEntryKind, JournalCancellationRequest, JournalStep,
}
use ctrldb.Domain.Time.{Time, is_zero, before, zero_time}
use ctrldb.Workflow.Journal.Handlers.{
  settle_pending, settle_pause, on_request, on_step, on_transition, request_guard, step_guard,
}
use ctrldb.Workflow.Journal.Stream.{
  dispatch, validate_journal, Cursor, scan_journal, validate_from, start, at_entry,
}
use ctrldb.Workflow.Journal.Entry.{validate_journal_entry, validate_journal_time, stream_error}
use ctrldb.Domain.Operation.{OperationState, state_terminal, state_eq}
use ctrldb.Workflow.Machine.{Machine}
use ctrldb.Workflow.Journal.Stream.Steps.{
  validate_from-cons, dereferenced-ok, validate_next-ok, entry_guard-Guarded, scan_journal-append,
}
use ctrldb.Workflow.Journal.Stream.Effects.{on_transition-Begins}
use ctrldb.Workflow.Journal.Stream.Transitions.{on_transition-Passed}
use ctrldb.Workflow.Journal.Stream.Evidence.{validate_from_terminal}
use ctrldb.Workflow.Route.{route_reachable}

-- The entries from index `i` on are numbered from `i + 1`, modulo 2 ^ 64, and are all of the
-- operation, the plan and the contract of `first`.
abbrev pub IsNumbered : JournalEntry → ℕ → List JournalEntry → Type 0
IsNumbered first i [] = Unit
IsNumbered first i (entry ∷ entries) =
    (entry.sequence ≡ (i + 1) % 2 ^ 64)
    × (entry.operation_id ≡ first.operation_id)
    × (entry.plan_id ≡ first.plan_id)
    × (entry.contract_hash ≡ first.contract_hash)
    × IsNumbered first (i + 1) entries

-- No entry is dated before the one that it follows.
abbrev pub IsDated : Time → List JournalEntry → Type 0
IsDated prior [] = Unit
IsDated prior (entry ∷ entries) =
    (prior.instant ≤ entry.recorded_at.instant) × IsDated entry.recorded_at entries

validate_from-IsNumbered :
    (first : JournalEntry) (i : ℕ) (c : Cursor) (entries : List JournalEntry) {c' : Cursor}
    → validate_from first i c entries ≡ ok c'
    → IsNumbered first i entries
validate_from-IsNumbered first i c [] h = tt
validate_from-IsNumbered first i c (entry ∷ entries) h =
    let (d, next, rest) = validate_from-cons first i c entry entries h in
    let (passed, dispatched) = validate_next-ok first (i + 1) c entry next in
    let guarded = entry_guard-Guarded first (i + 1) c entry passed in
    (
      guarded.numbered,
      guarded.same_operation,
      guarded.same_plan,
      guarded.same_contract,
      validate_from-IsNumbered first (i + 1) d entries rest,
    )

-- A handler leaves the time of the entry in place.
settle_pending-time :
    (n : ℕ) (next : OperationState) (p : Option OperationState) (c : Cursor) {c' : Cursor}
    → settle_pending n next p c ≡ ok c'
    → c'.previous_time ≡ c.previous_time
unfolding settle_pending
settle_pending-time n next none c h = ap (λ x. x.previous_time) (sym (ok-injective h))
settle_pending-time n next (some route) c h =
    let (u, passed, rest) =
      >>=-ok
        (reject_if (not (state_eq next route) && not (route_reachable next route))
          (stream_error n "transition made the pending cancellation unreachable"))
        _ h in
    ap (λ x. x.previous_time) (sym (ok-injective rest))

settle_pause-time :
    (n : ℕ) (pause : Option JournalPause) (c : Cursor) {c' : Cursor}
    → settle_pause n pause c ≡ ok c'
    → c'.previous_time ≡ c.previous_time
unfolding settle_pause
settle_pause-time n none c h = ap (λ x. x.previous_time) (sym (ok-injective h))
settle_pause-time n (some pause) c h =
    let (u, passed, rest) =
      >>=-ok
        (reject_if (c.mutated && not pause.mutation_occurred)
          (stream_error n "PAUSED metadata must not discard observed mutation"))
        _ h in
    ap (λ x. x.previous_time) (sym (ok-injective rest))

on_transition-time :
    (p : Option Machine) (operation_id plan_id : String) (n : ℕ) (c : Cursor) (entry : JournalEntry)
    {c' : Cursor}
    → on_transition p operation_id plan_id n c entry ≡ ok c'
    → c'.previous_time ≡ c.previous_time
on_transition-time none operation_id plan_id n c entry h =
    ap (λ x. x.previous_time) (on_transition-Begins operation_id plan_id n c entry h).result
on_transition-time (some m) operation_id plan_id n c entry h =
    let passed = on_transition-Passed m operation_id plan_id n c entry h in
    settle_pause-time n entry.pause passed.settled passed.pause_settled
    ∙ settle_pending-time n entry.operation_state c.pending _ passed.pending_settled

on_request-time :
    (p : Option Machine) (n : ℕ) (prior : Time) (c : Cursor) (entry : JournalEntry)
    (request : JournalCancellationRequest) {c' : Cursor}
    → on_request p n prior c entry request ≡ ok c'
    → c'.previous_time ≡ c.previous_time
unfolding on_request
on_request-time none n prior c entry request h = cc
on_request-time (some m) n prior c entry request h =
    let (u, passed, rest) = >>=-ok (request_guard n m.state c entry request) _ h in
    ap (λ x. x.previous_time) (sym (ok-injective rest))

on_step-time :
    (p : Option Machine) (n : ℕ) (prior : Time) (c : Cursor) (entry : JournalEntry)
    (step : JournalStep) {c' : Cursor}
    → on_step p n prior c entry step ≡ ok c'
    → c'.previous_time ≡ c.previous_time
unfolding on_step
on_step-time none n prior c entry step h = cc
on_step-time (some m) n prior c entry step h =
    let (u, passed, rest) = >>=-ok (step_guard n m.state prior c entry step) _ h in
    ap (λ x. x.previous_time) (sym (ok-injective rest))

dispatch-time :
    (k : JournalEntryKind) (operation_id plan_id : String) (n : ℕ) (prior : Time) (c : Cursor)
    (entry : JournalEntry) {c' : Cursor}
    → dispatch k operation_id plan_id n prior c entry ≡ ok c'
    → c'.previous_time ≡ c.previous_time
unfolding dispatch
dispatch-time JournalEntryKind.cancellation_request operation_id plan_id n prior c entry h =
    let (request, held, rest) = dereferenced-ok entry.cancellation _ h in
    on_request-time c.machine n prior c entry request rest
dispatch-time JournalEntryKind.transition operation_id plan_id n prior c entry h =
    on_transition-time c.machine operation_id plan_id n c entry h
dispatch-time k operation_id plan_id n prior c entry h =
    let (step, held, rest) = dereferenced-ok entry.step _ h in
    on_step-time c.machine n prior c entry step rest

-- A checked entry is dated.
entry_dated :
    (entry : JournalEntry)
    → validate_journal_entry entry ≡ ok tt
    → is_zero entry.recorded_at ≡ false
unfolding validate_journal_entry validate_journal_time
entry_dated entry h = reject_if-passed _ _ (checks-passed _ (checks-passed _ h).1.1.1.1.1.1.0).0

not-before :
    (prior time : Time)
    → is_zero prior ≡ false
    → (not (is_zero prior) && before time prior) ≡ false
    → prior.instant ≤ time.instant
not-before prior time z h = ltb_false→le _ _ (second _ _ z h)
  where
    second : (a b : Bool) → a ≡ false → (not a && b) ≡ false → b ≡ false
    second a b p q = ground arith

validate_from-IsDated :
    (first : JournalEntry) (i : ℕ) (c : Cursor) (entries : List JournalEntry) {c' : Cursor}
    → is_zero c.previous_time ≡ false
    → validate_from first i c entries ≡ ok c'
    → IsDated c.previous_time entries
validate_from-IsDated first i c [] z h = tt
validate_from-IsDated first i c (entry ∷ entries) z h =
    let (d, next, rest) = validate_from-cons first i c entry entries h in
    let (passed, dispatched) = validate_next-ok first (i + 1) c entry next in
    let guarded = entry_guard-Guarded first (i + 1) c entry passed in
    let time =
      dispatch-time entry.kind first.operation_id first.plan_id (i + 1) c.previous_time
        (at_entry c entry) entry dispatched in
    (
      not-before c.previous_time entry.recorded_at z guarded.in_order,
      subst (λ t. IsDated t entries) time
          (validate_from-IsDated first (i + 1) d entries
            (ap is_zero time ∙ entry_dated entry guarded.valid) rest),
    )

-- The entries of an accepted history are numbered from 1 without a gap, modulo 2 ^ 64, all carry the
-- operation, the plan and the contract hash of the first, and none is dated before its predecessor.
pub validate_journal-IsNumbered :
    (first : JournalEntry) (entries : List JournalEntry)
    → validate_journal (first ∷ entries) ≡ ok tt
    → IsNumbered first 0 (first ∷ entries) × IsDated first.recorded_at entries
unfolding validate_journal scan_journal
validate_journal-IsNumbered first entries h =
    let (c, scanned, u) = >>=-ok (scan_journal (first ∷ entries)) _ h in
    let (d, next, rest) = validate_from-cons first 0 start first entries scanned in
    let (passed, dispatched) = validate_next-ok first (0 + 1) start first next in
    let guarded = entry_guard-Guarded first (0 + 1) start first passed in
    let time =
      dispatch-time first.kind first.operation_id first.plan_id (0 + 1) zero_time
        (at_entry start first) first dispatched in
    (
      validate_from-IsNumbered first 0 start (first ∷ entries) scanned,
      subst (λ t. IsDated t entries) time
          (validate_from-IsDated first (0 + 1) d entries
            (ap is_zero time ∙ entry_dated first guarded.valid) rest),
    )

-- Every beginning of an accepted history is accepted, so a history that grows entry by entry was
-- valid at every moment; and after a terminal state nothing more is accepted.
pub validate_journal-prefix :
    (first : JournalEntry) (xs ys : List JournalEntry)
    → validate_journal ((first ∷ xs) ++ ys) ≡ ok tt
    → (c : Cursor) × (scan_journal (first ∷ xs) ≡ ok c)
      × (validate_journal (first ∷ xs) ≡ ok tt)
      × ((m : Machine) → c.machine ≡ some m → state_terminal m.state ≡ true → ys ≡ [])
unfolding validate_journal
validate_journal-prefix first xs ys h =
    let (c, scanned, u) = >>=-ok (scan_journal ((first ∷ xs) ++ ys)) _ h in
    let (d, begun, rest) = scan_journal-append first xs ys scanned in
    (
      d,
      begun,
      rw begun,
      λ m at ended. validate_from_terminal first (length (first ∷ xs)) d m ys at ended rest,
    )
