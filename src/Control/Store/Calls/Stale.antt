-- ===== src/Control/Store/Calls/Stale.antt =====
-- Writers that race for one object of internal/control/store.go, and the append-only store.
use ctrldb.Prelude.{
  ℕ, List, [], ◌∷◌, some, err, ◌≡◌, inl, inr, ◌<◌, ◌≤◌, ◌+◌, ◌^◌, arith, Bool-cases, length, subst,
  sym, ◌∙◌, Option-cases, ◌||◌, ◌==◌, ◌⊎◌, if◌then◌else◌, refl, none, ok, Option, Result, true,
  false, not,
}
use ctrldb.Control.Bytes.{find, same_bytes, same_bytes_refl, same_bytes→eq, find-write}
use ctrldb.Control.Store.{
  StoredObject, StoreError, Generation, ObjectDescriptor, precondition_failed, running,
  invalid_store_request, missing, ended,
}
use ctrldb.Control.Store.Memory.{
  MemoryObjects, put, stored, compare_and_swap, is_empty_name, create, read,
}
use ctrldb.Control.Store.Calls.{
  ControlCall, control_step, control_run, audit_step, audit_run, store_read, store_create,
  AuditCall, appends, consults,
}
use ctrldb.Control.Store.Calls.Versioned.{
  IsCallOf, control_step-IsCallOf, find-put, generation-put, swap-cases, IsVersioned, read-find,
}

module _ (checksum : List ℕ → ℕ) where
  -- The object has moved past a generation, which the counter has reached.
  abbrev IsPast : Generation → List ℕ → MemoryObjects → Type 0
  IsPast g name store =
      (g < store.generation + 1)
      × (object : StoredObject) × (find name store.objects ≡ some object)
      × (g < object.descriptor.generation)

  put-IsPast :
      (g : Generation) (name other content : List ℕ) (store : MemoryObjects)
      → store.generation + 1 < 2 ^ 64
      → IsPast g other store
      → IsPast g other (put checksum name content store).1
  put-IsPast g name other content store fits (old, object, is, past) =
      let there = find-put checksum name other content store fits in
      let counter = generation-put checksum name content store fits in
      elim (Bool-cases (same_bytes name other)) [
        | inl here ↦ (
          omega (arith, old, counter),
          stored checksum (store.generation + 1) content,
          rw here at there,
          old,
        )
        | inr elsewhere ↦ (omega (arith, old, counter), object, (rw elsewhere at there) ∙ is, past)
      ]

  -- A put past a generation that the counter had reached.
  put-IsPast_first :
      (name content : List ℕ) (store : MemoryObjects) {g : Generation}
      → store.generation + 1 < 2 ^ 64
      → g ≤ store.generation
      → IsPast g name (put checksum name content store).1
  put-IsPast_first name content store fits reached =
      let there = find-put checksum name name content store fits in
      let counter = generation-put checksum name content store fits in
      (
        omega (arith, reached, counter),
        stored checksum (store.generation + 1) content,
        rw (same_bytes_refl name) at there,
        omega (arith, reached),
      )

  step-IsPast :
      (g : Generation) (other : List ℕ) {store next : MemoryObjects}
      → IsCallOf checksum store next
      → store.generation + 1 < 2 ^ 64
      → IsPast g other store
      → IsPast g other next × (next.generation ≤ store.generation + 1)
  step-IsPast g other {store} (inl same) fits old =
      subst (λ s. IsPast g other s × (s.generation ≤ store.generation + 1)) (sym same)
        (old, omega arith)
  step-IsPast g other {store} (inr (name, content, is)) fits old =
      subst (λ s. IsPast g other s × (s.generation ≤ store.generation + 1)) (sym is)
        (
          put-IsPast g name other content store fits old,
          omega (arith, generation-put checksum name content store fits),
        )

  run-IsPast :
      (g : Generation) (name : List ℕ) (calls : List ControlCall) (store : MemoryObjects)
      → store.generation + length calls < 2 ^ 64
      → IsPast g name store
      → IsPast g name (control_run checksum calls store)
  unfolding control_run
  run-IsPast g name [] store fits old = old
  run-IsPast g name (call ∷ calls) store fits old =
      let (now, step) =
        step-IsPast g name (control_step-IsCallOf checksum call store) (omega (arith, fits)) old in
      run-IsPast g name calls (control_step checksum call store) (omega (arith, fits, step)) now

  -- A swap that is usable, and expects a generation that the object has moved past.
  swap_past :
      (g : Generation) (name content : List ℕ) (store : MemoryObjects)
      → is_empty_name name || g == 0 ≡ false
      → IsPast g name store
      → compare_and_swap checksum name g content store ≡ (err precondition_failed, store)
  unfolding compare_and_swap
  swap_past g name content store usable (_, object, is, past) =
      let moved : not (object.descriptor.generation == g) ≡ true = ground arith in
      rw (usable, is, moved) refl

  swap_usable :
      (name : List ℕ) (g : Generation) (content : List ℕ) (store : MemoryObjects)
      {d : ObjectDescriptor}
      → (compare_and_swap checksum name g content store).0 ≡ ok d
      → is_empty_name name || g == 0 ≡ false
  unfolding compare_and_swap
  swap_usable name g content store {d} done = elim (Bool-cases (is_empty_name name || g == 0)) [
    | inl unusable ↦ absurd (not_ok (rw unusable at done))
    | inr usable ↦ usable
  ]
    where
      not_ok : ◌≡◌ {A = Result StoreError ObjectDescriptor} (err invalid_store_request) (ok d) → ⊥
      not_ok h = cc

  -- A swap that went through has moved the object past the generation that it expected.
  swap-IsPast :
      (name : List ℕ) (g : Generation) (content : List ℕ) (store : MemoryObjects)
      {d : ObjectDescriptor}
      → store.generation + 1 < 2 ^ 64
      → IsVersioned checksum store
      → (compare_and_swap checksum name g content store).0 ≡ ok d
      → let next = (compare_and_swap checksum name g content store).1 in
        IsPast g name next × (next.generation ≤ store.generation + 1)
  swap-IsPast name g content store {d} fits versioned done =
      elim (swap-cases checksum name g content store) [
        | inl (e, refused) ↦ absurd (not_ok (rw refused at done))
        | inr (object, present, same, swapped) ↦
            let (_, reached, _) = versioned name object present in
            subst
              (λ (r : Result StoreError ObjectDescriptor × MemoryObjects).
                IsPast g name r.1 × (r.1.generation ≤ store.generation + 1))
              (sym swapped)
              (
                put-IsPast_first name content store fits (omega (arith, reached, same)),
                omega (arith, generation-put checksum name content store fits),
              )
      ]
    where
      not_ok : {e : StoreError} → ◌≡◌ {A = Result StoreError ObjectDescriptor} (err e) (ok d) → ⊥
      not_ok h = cc

  -- Of two clients that read the same generation of an object, only one can swap it: on a store
  -- whose generations the counter has reached, with fewer than 2 ^ 64 writes, a swap after one that
  -- expected the same generation is refused for its precondition and changes nothing, whatever calls
  -- were made in between.
  pub compare_and_swap_once :
      (name : List ℕ) (g : Generation) (mine theirs : List ℕ) (calls : List ControlCall)
      (store : MemoryObjects) {d : ObjectDescriptor}
      → store.generation + length calls + 1 < 2 ^ 64
      → IsVersioned checksum store
      → (compare_and_swap checksum name g mine store).0 ≡ ok d
      → let later = control_run checksum calls (compare_and_swap checksum name g mine store).1 in
        compare_and_swap checksum name g theirs later ≡ (err precondition_failed, later)
  compare_and_swap_once name g mine theirs calls store fits versioned done =
      let (past, count) = swap-IsPast name g mine store (omega (arith, fits)) versioned done in
      swap_past g name theirs _ (swap_usable name g mine store done) (
        run-IsPast g name calls (compare_and_swap checksum name g mine store).1
          (omega (arith, fits, count)) past)

  put-keeps :
      (name other content : List ℕ) (store : MemoryObjects) {object : StoredObject}
      → find name store.objects ≡ none
      → find other store.objects ≡ some object
      → find other (put checksum name content store).1.objects ≡ some object
  unfolding put
  put-keeps name other content store {object} absent present =
      find-write name other _ store.objects ∙ kept _ (Bool-cases (same_bytes name other))
    where
      clash : {a : Option StoredObject} → a ≡ none → a ≡ some object → ⊥
      clash h k = cc

      kept :
          (new : Option StoredObject)
          → (same_bytes name other ≡ true) ⊎ (same_bytes name other ≡ false)
          → (if same_bytes name other then new else find other store.objects) ≡ some object
      kept new (inl here) = absurd (
          clash absent (
            subst (λ n. find n store.objects ≡ some object) (sym (same_bytes→eq name other here))
              present))
      kept new (inr elsewhere) = rw elsewhere present

  create-keeps :
      (name other content : List ℕ) (store : MemoryObjects) {object : StoredObject}
      → find other store.objects ≡ some object
      → find other (create checksum name content store).1.objects ≡ some object
  unfolding create
  create-keeps name other content store present = elim (Bool-cases (is_empty_name name)) [
    | inl blank ↦ rw blank present
    | inr named ↦ elim (Option-cases (find name store.objects)) [
      | inl absent ↦ rw (named, absent) (put-keeps name other content store absent present)
      | inr (old, there) ↦ rw (named, there) present
    ]
  ]

  audit_step-keeps :
      (call : AuditCall) (other : List ℕ) (store : MemoryObjects) {object : StoredObject}
      → find other store.objects ≡ some object
      → find other (audit_step checksum call store).objects ≡ some object
  unfolding audit_step store_create store_read
  audit_step-keeps (appends missing name content) other store present = present
  audit_step-keeps (appends ended name content) other store present = present
  audit_step-keeps (appends running name content) other store present =
      create-keeps name other content store present
  audit_step-keeps (consults missing name) other store present = present
  audit_step-keeps (consults ended name) other store present = present
  audit_step-keeps (consults running name) other store present = present

  audit_run-keeps :
      (calls : List AuditCall) (other : List ℕ) (store : MemoryObjects) {object : StoredObject}
      → find other store.objects ≡ some object
      → find other (audit_run checksum calls store).objects ≡ some object
  unfolding audit_run
  audit_run-keeps [] other store present = present
  audit_run-keeps (call ∷ calls) other store present =
      audit_run-keeps calls other (audit_step checksum call store)
        (audit_step-keeps call other store present)

  -- The audit store is append-only: an object that it reads, descriptor and content, is read the
  -- same after any calls by any clients.
  pub audit_run-append_only :
      (calls : List AuditCall) (name : List ℕ) (store : MemoryObjects) {object : StoredObject}
      → (store_read running name store).0 ≡ ok object
      → (store_read running name (audit_run checksum calls store)).0 ≡ ok object
  unfolding store_read read
  audit_run-append_only calls name store {object} is = elim (Bool-cases (is_empty_name name)) [
    | inl blank ↦ rw blank (rw blank at is)
    | inr named ↦
        rw (named, audit_run-keeps calls name store (read-find checksum running name store is)) refl
  ]
