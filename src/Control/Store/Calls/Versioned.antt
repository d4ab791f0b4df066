-- ===== src/Control/Store/Calls/Versioned.antt =====
-- What every call of a store in memory (internal/control/store.go) keeps of it.
use ctrldb.Prelude.{
  ℕ, List, [], ◌∷◌, Option, some, none, ok, err, ◌≡◌, refl, ◌⊎◌, inl, inr, ◌<◌, ◌≤◌, ◌+◌, ◌^◌, ◌%◌,
  arith, true, Bool-cases, Option-cases, length, ◌==◌, not, subst, sym, if◌then◌else◌, ◌∙◌, ◌||◌,
  ==→eq, not-false, ap, Result,
}
use ctrldb.Control.Bytes.{find, find-write, same_bytes}
use ctrldb.Control.Store.{
  StoredObject, Context, matches_content, missing, running, ended, Generation, StoreError,
  invalid_store_request, object_not_found, precondition_failed, ObjectDescriptor,
}
use ctrldb.Control.Store.Memory.{
  MemoryObjects, put, described, create, compare_and_swap, is_empty_name, empty, wrote, stored,
  read, found,
}
use ctrldb.Control.Store.Calls.{
  ControlCall, creates, reads, swaps, store_create, store_read, store_swap, control_step,
  control_run,
}

module _ (checksum : List ℕ → ℕ) where
  -- A store after a call: as it was, or with one object put.
  abbrev pub IsCallOf : MemoryObjects → MemoryObjects → Type 0
  IsCallOf store next =
      (next ≡ store)
      ⊎ (name : List ℕ) × (content : List ℕ) × (next ≡ (put checksum name content store).1)

  create-IsCallOf :
      (name content : List ℕ) (store : MemoryObjects)
      → IsCallOf store (create checksum name content store).1
  unfolding create
  create-IsCallOf name content store = elim (Bool-cases (is_empty_name name)) [
    | inl blank ↦ rw blank (inl refl)
    | inr named ↦ elim (Option-cases (find name store.objects)) [
      | inl absent ↦ rw (named, absent) (inr (name, content, refl))
      | inr (object, present) ↦ rw (named, present) (inl refl)
    ]
  ]

  -- A swap fails and changes nothing, or it is a put over the expected generation.
  pub swap-cases :
      (name : List ℕ) (expected : Generation) (content : List ℕ) (store : MemoryObjects)
      → ((e : StoreError) × (compare_and_swap checksum name expected content store
            ≡ (err e, store)))
        ⊎ (object : StoredObject) × (find name store.objects ≡ some object)
          × (object.descriptor.generation ≡ expected)
          × (compare_and_swap checksum name expected content store
              ≡ wrote (put checksum name content store))
  unfolding compare_and_swap
  swap-cases name expected content store = elim (Bool-cases (is_empty_name name || expected == 0)) [
    | inl unusable ↦ inl (invalid_store_request, rw unusable refl)
    | inr usable ↦ elim (Option-cases (find name store.objects)) [
      | inl absent ↦ inl (object_not_found, rw (usable, absent) refl)
      | inr (object, present) ↦ elim (Bool-cases (not (object.descriptor.generation == expected))) [
        | inl moved ↦ inl (precondition_failed, rw (usable, present, moved) refl)
        | inr same ↦
            inr (object, present, ==→eq _ _ (not-false _ same), rw (usable, present, same) refl)
      ]
    ]
  ]

  swap-IsCallOf :
      (name : List ℕ) (expected : Generation) (content : List ℕ) (store : MemoryObjects)
      → IsCallOf store (compare_and_swap checksum name expected content store).1
  swap-IsCallOf name expected content store = elim (swap-cases name expected content store) [
    | inl (e, refused) ↦ rw refused (inl refl)
    | inr (object, present, same, swapped) ↦ rw swapped (inr (name, content, refl))
  ]

  pub control_step-IsCallOf :
      (call : ControlCall) (store : MemoryObjects)
      → IsCallOf store (control_step checksum call store)
  unfolding control_step store_create store_read store_swap
  control_step-IsCallOf (creates missing name content) store = inl refl
  control_step-IsCallOf (creates ended name content) store = inl refl
  control_step-IsCallOf (creates running name content) store = create-IsCallOf name content store
  control_step-IsCallOf (reads missing name) store = inl refl
  control_step-IsCallOf (reads ended name) store = inl refl
  control_step-IsCallOf (reads running name) store = inl refl
  control_step-IsCallOf (swaps missing name expected content) store = inl refl
  control_step-IsCallOf (swaps ended name expected content) store = inl refl
  control_step-IsCallOf (swaps running name expected content) store =
      swap-IsCallOf name expected content store

  -- Every object has a generation that the counter has reached, and the descriptor of its content.
  abbrev pub IsVersioned : MemoryObjects → Type 0
  IsVersioned store =
      (name : List ℕ) (object : StoredObject)
      → find name store.objects ≡ some object
      → (0 < object.descriptor.generation)
        × (object.descriptor.generation ≤ store.generation)
        × (object.descriptor ≡ described checksum object.descriptor.generation object.content)

  pub next_generation : (g : ℕ) → g + 1 < 2 ^ 64 → (g + 1) % 2 ^ 64 ≡ g + 1
  next_generation g fits = omega (arith, fits)

  -- What a put leaves at every name.
  pub find-put :
      (name other content : List ℕ) (store : MemoryObjects)
      → store.generation + 1 < 2 ^ 64
      → find other (put checksum name content store).1.objects ≡ (
          if same_bytes name other
          then some (stored checksum (store.generation + 1) content)
          else find other store.objects)
  unfolding put
  find-put name other content store fits =
      rw
        (find-write name other (stored checksum ((store.generation + 1) % 2 ^ 64) content)
          store.objects)
        (rw (next_generation store.generation fits) refl)

  pub generation-put :
      (name content : List ℕ) (store : MemoryObjects)
      → store.generation + 1 < 2 ^ 64
      → (put checksum name content store).1.generation ≡ store.generation + 1
  unfolding put
  generation-put name content store fits = next_generation store.generation fits

  some_eq : {a b : StoredObject} → some a ≡ some b → a ≡ b
  some_eq h = cc

  put-IsVersioned :
      (name content : List ℕ) (store : MemoryObjects)
      → store.generation + 1 < 2 ^ 64
      → IsVersioned store
      → IsVersioned (put checksum name content store).1
  put-IsVersioned name content store fits old other object is =
      let there = sym (find-put name other content store fits) ∙ is in
      let counter = generation-put name content store fits in
      elim (Bool-cases (same_bytes name other)) [
        | inl here ↦
            let new = some_eq (rw here at there) in
            subst
              (λ o.
                (0 < o.descriptor.generation)
                × (o.descriptor.generation ≤ (put checksum name content store).1.generation)
                × (o.descriptor ≡ described checksum o.descriptor.generation o.content))
              new (omega arith, omega (arith, counter), refl)
        | inr elsewhere ↦
            let (low, high, same) = old other object (rw elsewhere at there) in
            (low, omega (arith, high, counter), same)
      ]

  IsCallOf-IsVersioned :
      {store next : MemoryObjects}
      → IsCallOf store next
      → store.generation + 1 < 2 ^ 64
      → IsVersioned store
      → IsVersioned next × (next.generation ≤ store.generation + 1)
  IsCallOf-IsVersioned {store} (inl same) fits old =
      subst (λ s. IsVersioned s × (s.generation ≤ store.generation + 1)) (sym same)
        (old, omega arith)
  IsCallOf-IsVersioned {store} (inr (name, content, is)) fits old =
      subst (λ s. IsVersioned s × (s.generation ≤ store.generation + 1)) (sym is)
        (
          put-IsVersioned name content store fits old,
          omega (arith, generation-put name content store fits),
        )

  pub control_run-IsVersioned :
      (calls : List ControlCall) (store : MemoryObjects)
      → store.generation + length calls < 2 ^ 64
      → IsVersioned store
      → IsVersioned (control_run checksum calls store)
        × ((control_run checksum calls store).generation ≤ store.generation + length calls)
  unfolding control_run
  control_run-IsVersioned [] store fits old = (old, omega arith)
  control_run-IsVersioned (call ∷ calls) store fits old =
      let (now, step) =
        IsCallOf-IsVersioned (control_step-IsCallOf call store) (omega (arith, fits)) old in
      let (last, count) =
        control_run-IsVersioned calls (control_step checksum call store) (omega (arith, fits, step))
          now in
      (last, omega (arith, count, step))

  pub empty-IsVersioned : IsVersioned empty
  empty-IsVersioned name object is = cc

  pub read-find :
      (ctx : Context) (name : List ℕ) (store : MemoryObjects) {object : StoredObject}
      → (store_read ctx name store).0 ≡ ok object
      → find name store.objects ≡ some object
  unfolding store_read read
  read-find missing name store is = cc
  read-find ended name store is = cc
  read-find running name store {object} is = elim (Bool-cases (is_empty_name name)) [
    | inl blank ↦ absurd (not_ok (rw blank at is))
    | inr named ↦ from_found (find name store.objects) (rw named at is)
  ]
    where
      not_ok : ◌≡◌ {A = Result StoreError StoredObject} (err invalid_store_request) (ok object) → ⊥
      not_ok h = cc

      from_found : (o : Option StoredObject) → found o ≡ ok object → o ≡ some object
      from_found none h = cc
      from_found (some a) h = cc

  described-matches_content :
      (descriptor : ObjectDescriptor) (content : List ℕ)
      → 0 < descriptor.generation
      → descriptor ≡ described checksum descriptor.generation content
      → matches_content checksum descriptor content ≡ true
  unfolding matches_content
  described-matches_content descriptor content low same =
      let size = ap (λ (d : ObjectDescriptor). d.size) same in
      let sum = ap (λ (d : ObjectDescriptor). d.crc32c) same in rw (size, sum) (ground arith)

  -- An object that a store reads after fewer than 2 ^ 64 calls on the empty store, by any clients in
  -- any order, has a descriptor with a generation other than zero and the size and the checksum of
  -- its content.
  pub control_run-matches_content :
      (calls : List ControlCall) (ctx : Context) (name : List ℕ) {object : StoredObject}
      → length calls < 2 ^ 64
      → (store_read ctx name (control_run checksum calls empty)).0 ≡ ok object
      → matches_content checksum object.descriptor object.content ≡ true
  control_run-matches_content calls ctx name {object} fits is =
      let (versioned, count) =
        control_run-IsVersioned calls empty (omega (arith, fits)) empty-IsVersioned in
      let (low, high, same) =
        versioned name object (read-find ctx name (control_run checksum calls empty) is) in
      described-matches_content object.descriptor object.content low same
