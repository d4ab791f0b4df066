-- ===== src/Workflow/Journal/Stream/Effects.antt =====
-- What an accepted entry of each kind does to the machine and to the evidence of a mutation.
use ctrldb.Domain.Operation.{OperationState, state_eq, state_eq→eq}
use ctrldb.Prelude.{
  ℕ, Bool, Option, ◌≡◌, not, some, ok, ◌||◌, none, false, ok-injective, String, ap, sym, ◌∙◌,
  >>=-ok, true, or_false_right, refl, reject_if, subst, ◌&&◌, map_err, not-false, reject_if-passed,
  map_err-ok,
}
use ctrldb.Domain.Journal.{
  JournalEntry, JournalEntryKind, JournalPause, JournalCancellationRequest, JournalStep,
  journal_entry_kind_valid,
}
use ctrldb.Workflow.Journal.Handlers.{
  settle_pause, on_request, on_step, on_transition, request_guard, step_guard,
}
use ctrldb.Workflow.Machine.{Machine, advance, new_machine}
use ctrldb.Workflow.Journal.Cursor.{holds, Cursor}
use ctrldb.Domain.Retry.{mutation_observation_eq, MutationObservation}
use ctrldb.Workflow.Journal.Stream.{dispatch, Time, stream_error}
use ctrldb.Workflow.Journal.Stream.Transitions.{on_transition-Passed, settle_pending-Settled}
use ctrldb.Workflow.Journal.Stream.Steps.{dereferenced-ok}
use ctrldb.Domain.Outcome.{step_outcome_eq, StepOutcome}

-- Whether an entry of a kind is evidence that a mutation may have occurred: a step that mutated or
-- whose outcome is unknown, a pause that records one, a request that did not observe its absence.
abbrev pub shows : JournalEntryKind → JournalEntry → Bool
shows JournalEntryKind.step entry =
    holds (λ step. step.mutation_occurred || step_outcome_eq step.outcome StepOutcome.unknown)
      entry.step
shows JournalEntryKind.transition entry = holds (λ pause. pause.mutation_occurred) entry.pause
shows JournalEntryKind.cancellation_request entry =
    holds
      (λ request.
        not (mutation_observation_eq request.mutation_observation MutationObservation.not_occurred))
      entry.cancellation
shows _ entry = false

abbrev pub shows_mutation : JournalEntry → Bool
shows_mutation entry = shows entry.kind entry

-- The machine after an entry, with the transition table left out.
abbrev pub machine_after : JournalEntryKind → Machine → JournalEntry → Machine
machine_after JournalEntryKind.transition m entry = advance m entry.operation_state
machine_after _ m entry = m

-- The effect of an entry of kind `k` out of the variables `c` with the machine `m`.
pub record Effect (k : JournalEntryKind) (m : Machine) (c : Cursor) (entry : JournalEntry)
    (c' : Cursor) : Type 0 where
  pub machine : c'.machine ≡ some (machine_after k m entry)
  pub evidence : c'.mutated ≡ (c.mutated || shows k entry)

settle_pause-mutated :
    (n : ℕ) (pause : Option JournalPause) (c : Cursor) {c' : Cursor}
    → settle_pause n pause c ≡ ok c'
    → (c'.machine ≡ c.machine)
      × (c'.mutated ≡ (c.mutated || holds (λ p. p.mutation_occurred) pause))
unfolding settle_pause
settle_pause-mutated n none c {c' = c'} h =
    let same : record c { paused = none } ≡ c' = ok-injective h in
    (ap (λ x. x.machine) (sym same), ap (λ x. x.mutated) (sym same) ∙ or_false_right c.mutated)
settle_pause-mutated n (some pause) c {c' = c'} h =
    let (u, passed, rest) =
      >>=-ok
        (reject_if (c.mutated && not pause.mutation_occurred)
          (stream_error n "PAUSED metadata must not discard observed mutation"))
        _ h in
    let same = ok-injective rest in (ap (λ x. x.machine) (sym same), ap (λ x. x.mutated) (sym same))

on_request-Effect :
    (m : Machine) (n : ℕ) (prior : Time) (c : Cursor) (entry : JournalEntry)
    (request : JournalCancellationRequest) {c' : Cursor}
    → c.machine ≡ some m
    → entry.cancellation ≡ some request
    → on_request (some m) n prior c entry request ≡ ok c'
    → Effect JournalEntryKind.cancellation_request m c entry c'
unfolding on_request
on_request-Effect m n prior c entry request at held h =
    let (u, passed, rest) = >>=-ok (request_guard n m.state c entry request) _ h in
    subst (Effect JournalEntryKind.cancellation_request m c entry) (ok-injective rest)
      (record { machine = at; evidence = rw held })

on_step-Effect :
    (m : Machine) (n : ℕ) (prior : Time) (c : Cursor) (entry : JournalEntry) (step : JournalStep)
    {c' : Cursor}
    → c.machine ≡ some m
    → entry.step ≡ some step
    → on_step (some m) n prior c entry step ≡ ok c'
    → Effect JournalEntryKind.step m c entry c'
unfolding on_step
on_step-Effect m n prior c entry step at held h =
    let (u, passed, rest) = >>=-ok (step_guard n m.state prior c entry step) _ h in
    subst (Effect JournalEntryKind.step m c entry) (ok-injective rest)
      (record { machine = at; evidence = rw held })

on_transition-Effect :
    (m : Machine) (operation_id plan_id : String) (n : ℕ) (c : Cursor) (entry : JournalEntry)
    {c' : Cursor}
    → on_transition (some m) operation_id plan_id n c entry ≡ ok c'
    → Effect JournalEntryKind.transition m c entry c'
on_transition-Effect m operation_id plan_id n c entry h =
    let passed = on_transition-Passed m operation_id plan_id n c entry h in
    let moved = record c { machine = some (advance m entry.operation_state) } in
    let settled =
      settle_pending-Settled n entry.operation_state c.pending moved refl passed.pending_settled in
    let (same, evidence) = settle_pause-mutated n entry.pause passed.settled passed.pause_settled in
    record {
      machine = same ∙ settled.same_machine;
      evidence =
          evidence
          ∙ ap (λ b. b || holds (λ p. p.mutation_occurred) entry.pause) settled.same_mutated;
    }

-- An accepted entry of a known kind, after the initial transition.
pub dispatch-Effect :
    (k : JournalEntryKind) (m : Machine) (operation_id plan_id : String) (n : ℕ) (prior : Time)
    (c : Cursor) (entry : JournalEntry) {c' : Cursor}
    → journal_entry_kind_valid k ≡ true
    → c.machine ≡ some m
    → dispatch k operation_id plan_id n prior c entry ≡ ok c'
    → Effect k m c entry c'
unfolding dispatch
dispatch-Effect JournalEntryKind.cancellation_request m operation_id plan_id n prior c entry
      {c' = c'} v at h =
    let (request, held, rest) = dereferenced-ok entry.cancellation _ h in
    on_request-Effect m n prior c entry request at held
      (subst (λ p. on_request p n prior c entry request ≡ ok c') at rest)
dispatch-Effect JournalEntryKind.transition m operation_id plan_id n prior c entry {c' = c'} v at
      h =
    on_transition-Effect m operation_id plan_id n c entry
      (subst (λ p. on_transition p operation_id plan_id n c entry ≡ ok c') at h)
dispatch-Effect JournalEntryKind.step m operation_id plan_id n prior c entry {c' = c'} v at h =
    let (step, held, rest) = dereferenced-ok entry.step _ h in
    on_step-Effect m n prior c entry step at held
      (subst (λ p. on_step p n prior c entry step ≡ ok c') at rest)
dispatch-Effect (JournalEntryKind.other s) m operation_id plan_id n prior c entry v at h = cc

-- What the first accepted entry is and does.
pub record Begins (k : JournalEntryKind) (operation_id plan_id : String) (c : Cursor)
    (entry : JournalEntry) (c' : Cursor) : Type 0 where
  pub is_transition : k ≡ JournalEntryKind.transition
  pub is_discover : entry.operation_state ≡ OperationState.discover
  pub machine : Machine
  pub built : new_machine operation_id plan_id ≡ ok machine
  pub result : c' ≡ record c { machine = some machine }

no_step :
    (p : Option Machine) (n : ℕ) (prior : Time) (c : Cursor) (entry : JournalEntry)
    (step : JournalStep) {c' : Cursor}
    → p ≡ none
    → on_step p n prior c entry step ≡ ok c'
    → ⊥
unfolding on_step
no_step none n prior c entry step at h = cc
no_step (some m) n prior c entry step at h = cc

no_request :
    (p : Option Machine) (n : ℕ) (prior : Time) (c : Cursor) (entry : JournalEntry)
    (request : JournalCancellationRequest) {c' : Cursor}
    → p ≡ none
    → on_request p n prior c entry request ≡ ok c'
    → ⊥
unfolding on_request
no_request none n prior c entry request at h = cc
no_request (some m) n prior c entry request at h = cc

pub on_transition-Begins :
    (operation_id plan_id : String) (n : ℕ) (c : Cursor) (entry : JournalEntry) {c' : Cursor}
    → on_transition none operation_id plan_id n c entry ≡ ok c'
    → Begins JournalEntryKind.transition operation_id plan_id c entry c'
unfolding on_transition
on_transition-Begins operation_id plan_id n c entry h =
    let (u, first, h₁) =
      >>=-ok
        (reject_if (not (state_eq entry.operation_state OperationState.discover))
          (stream_error n "first transition must be DISCOVER"))
        _ h in
    let (m, built, h₂) =
      >>=-ok
        (map_err (λ _. stream_error n "initial transition has an invalid machine binding")
          (new_machine operation_id plan_id))
        _ h₁ in
    record {
      is_transition = refl;
      is_discover = state_eq→eq _ _ (not-false _ (reject_if-passed _ _ first));
      machine = m;
      built = map_err-ok _ _ built;
      result = sym (ok-injective h₂);
    }

-- Before the initial transition only that transition is accepted.
pub dispatch-Begins :
    (k : JournalEntryKind) (operation_id plan_id : String) (n : ℕ) (prior : Time) (c : Cursor)
    (entry : JournalEntry) {c' : Cursor}
    → c.machine ≡ none
    → dispatch k operation_id plan_id n prior c entry ≡ ok c'
    → Begins k operation_id plan_id c entry c'
unfolding dispatch
dispatch-Begins JournalEntryKind.cancellation_request operation_id plan_id n prior c entry at h =
    let (request, held, rest) = dereferenced-ok entry.cancellation _ h in
    absurd (no_request c.machine n prior c entry request at rest)
dispatch-Begins JournalEntryKind.transition operation_id plan_id n prior c entry {c' = c'} at h =
    on_transition-Begins operation_id plan_id n c entry
      (subst (λ p. on_transition p operation_id plan_id n c entry ≡ ok c') at h)
dispatch-Begins k operation_id plan_id n prior c entry at h =
    let (step, held, rest) = dereferenced-ok entry.step _ h in
    absurd (no_step c.machine n prior c entry step at rest)
