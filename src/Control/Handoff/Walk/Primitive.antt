-- ===== src/Control/Handoff/Walk/Primitive.antt =====
-- The primitive steps of internal/control/handoff.go keep what an invariant admits of them.
use ctrldb.Prelude.{Result, ◌≡◌, none, refl, Option, List, ok, err, false, true, some, Bool}
use ctrldb.Control.Handoff.Step.{
  Step, HandoffState, Mutation, Surroundings, proceed, call_in, noted, require, demand, fail_if,
  asked, observe, mutate, uncaught, attempt, unless, held, pure,
}
use ctrldb.Control.Handoff.{BootstrapEnvelope, HandoffError, HandoffRecord, PortError}
use ctrldb.Domain.Time.{Time}
use ctrldb.Control.Handoff.Session.{ticked, accessed, utc}
use ctrldb.Control.Handoff.Session.Steps.{read_clock, access_disk}
use ctrldb.Control.Handoff.Walk.{
  IsWarranted, IsCalm, IsKept, After, done, failed, after_bind, IsSame,
}

-- The primitive steps.
module _ {W : Type 0} {I J : HandoffState W → Type 0} (calm : IsCalm I J) where
  pub after_fail_if :
      (b : Bool) (e : HandoffError) {s : HandoffState W}
      → I s
      → After I J (λ _ t. t.records ≡ s.records) (fail_if b e s)
  unfolding fail_if
  after_fail_if true e i = failed (calm.stopped _ i)
  after_fail_if false e i = done i refl

  module _ {B : Type 0} {K : HandoffState W → Type 0} {R : B → HandoffState W → Type 0}
      {s : HandoffState W} (i : I s) where
    pub bind_fail_if :
        (b : Bool) (e : HandoffError) (rest : Unit {0} → Step W B)
        → (b ≡ false → After K J R (rest tt s))
        → After K J R (proceed (fail_if b e s) rest)
    unfolding fail_if proceed
    bind_fail_if true e rest next = failed (calm.stopped s i)
    bind_fail_if false e rest next = next refl

    pub bind_require :
        {A : Type 0} (r : Result HandoffError A) (rest : A → Step W B)
        → ((a : A) → r ≡ ok a → After K J R (rest a s))
        → After K J R (proceed (require r s) rest)
    unfolding require proceed
    bind_require (ok a) rest next = next a refl
    bind_require (err e) rest next = failed (calm.stopped s i)

    pub bind_demand :
        {A : Type 0} (o : Option A) (e : HandoffError) (rest : A → Step W B)
        → ((a : A) → o ≡ some a → After K J R (rest a s))
        → After K J R (proceed (demand o e s) rest)
    unfolding demand proceed
    bind_demand (some a) e rest next = next a refl
    bind_demand none e rest next = failed (calm.stopped s i)

    pub bind_held :
        (rest : List HandoffRecord → Step W B)
        → After K J R (rest s.records s)
        → After K J R (proceed (held s) rest)
    unfolding held proceed
    bind_held rest next = next

    pub bind_unless :
        {Q : Unit {0} → HandoffState W → Type 0} (b : Bool) (step : Step W (Unit {0}))
        (rest : Unit {0} → Step W B)
        → (b ≡ true → Q tt s)
        → (b ≡ false → After I J Q (step s))
        → ((t : HandoffState W) → I t → Q tt t → After K J R (rest tt t))
        → After K J R (proceed (unless b step s) rest)
    unfolding unless proceed
    bind_unless true step rest skip run next = next s i (skip refl)
    bind_unless false step rest skip run next = after_bind (run refl) λ a t i' q. next t i' q

  pub after_pure :
      {A : Type 0} {Q : A → HandoffState W → Type 0} (a : A) {s : HandoffState W}
      → I s
      → Q a s
      → After I J Q (pure a s)
  unfolding pure
  after_pure a i q = done i q

  pub after_unless :
      {Q : Unit {0} → HandoffState W → Type 0} (b : Bool) (step : Step W (Unit {0}))
      {s : HandoffState W}
      → I s
      → (b ≡ true → Q tt s)
      → (b ≡ false → After I J Q (step s))
      → After I J Q (unless b step s)
  unfolding unless
  after_unless true step i skip run = done i (skip refl)
  after_unless false step i skip run = run refl

  pub after_require :
      {A : Type 0} {Q : A → HandoffState W → Type 0} (r : Result HandoffError A)
      {s : HandoffState W}
      → I s
      → ((a : A) → r ≡ ok a → Q a s)
      → After I J Q (require r s)
  unfolding require
  after_require (ok a) i q = done i (q a refl)
  after_require (err e) i q = failed (calm.stopped _ i)

  asked_lem :
      {A : Type 0} (r : Result PortError A × W) (s : HandoffState W)
      → I s
      → After I J (λ _ t. IsSame s t) (asked r s)
  asked_lem (ok a, w) s i = done (calm.moved s w i) (refl, refl, refl)
  asked_lem (err e, w) s i = failed (calm.stopped _ (calm.moved s w i))

  pub after_observe :
      {A : Type 0} (call : W → Result PortError A × W) (s : HandoffState W)
      → I s
      → After I J (λ _ t. IsSame s t) (observe call s)
  unfolding observe
  after_observe call s i = asked_lem (call s.world) s i

  uncaught_lem :
      {A : Type 0} (r : Result PortError A × W) (s : HandoffState W)
      → I s
      → After I J (λ _ t. IsSame s t) (uncaught r s)
  uncaught_lem (r, w) s i = done (calm.moved s w i) (refl, refl, refl)

  module _ (around : Surroundings W) where
    pub after_clock :
        (s : HandoffState W)
        → I s
        → After I J
            (λ a t. (t.records ≡ s.records) × (t.files ≡ s.files) × (t.sampled ≡ a))
            (read_clock around s)
    unfolding read_clock
    after_clock s i = clock_lem (around.clock s.world)
      where
        clock_lem :
            (reading : Time × W)
            → After I J
                (λ a t. (t.records ≡ s.records) × (t.files ≡ s.files) × (t.sampled ≡ a))
                (ticked reading s)
        clock_lem (now, w) = done (calm.ticked _ (utc now) (calm.moved s w i)) (refl, refl, refl)

    pub after_disk :
        (s : HandoffState W) → I s → After I J (λ _ t. IsSame s t) (access_disk around s)
    unfolding access_disk
    after_disk s i = disk_lem (around.disk_ok s.world)
      where
        disk_lem : (seen : Bool × W) → After I J (λ _ t. IsSame s t) (accessed seen s)
        disk_lem (fine, w) = done (calm.moved s w i) (refl, refl, refl)

module _ {W : Type 0} (around : Surroundings W) (envelope : BootstrapEnvelope)
    {I J : HandoffState W → Type 0} (keep : IsKept around envelope I J) where
  pub after_mutate :
      {A : Type 0} (mutation : Mutation) (call : W → Result PortError A × W) (s : HandoffState W)
      → IsWarranted (call_in envelope mutation s)
      → I s
      → After I J (λ _ t. IsSame s t) (mutate envelope mutation call s)
  unfolding mutate
  after_mutate mutation call s due i =
      asked_lem keep.calm (call s.world) (noted envelope mutation s) (keep.called s mutation due i)

  pub after_attempt :
      {A : Type 0} (mutation : Mutation) (call : W → Result PortError A × W) (s : HandoffState W)
      → IsWarranted (call_in envelope mutation s)
      → I s
      → After I J (λ _ t. IsSame s t) (attempt envelope mutation call s)
  unfolding attempt
  after_attempt mutation call s due i =
      uncaught_lem keep.calm (call s.world) (noted envelope mutation s)
        (keep.called s mutation due i)
