-- ===== src/Control/Store/Memory.antt =====
-- `memoryObjects`, `MemoryControlStore` and `MemoryAuditStore` of internal/control/store.go. Each
-- method holds the mutex from its first read to its return, so a call is one step.
use ctrldb.Prelude.{
  ℕ, Bool, true, false, List, [], ◌∷◌, Option, some, none, Result, ok, err, ◌||◌, ◌==◌, not, ◌+◌,
  ◌%◌, ◌^◌, if◌then◌else◌, map,
}
use ctrldb.Control.Bytes.{find, write}
use ctrldb.Control.Store.{
  Generation, ObjectDescriptor, StoredObject, StoreError, describe_content, precondition_failed,
  object_not_found, invalid_store_request,
}

pub record MemoryObjects : Type 0 where
  pub generation : Generation
  pub objects : List (List ℕ × StoredObject)

-- `NewMemoryControlStore` and `NewMemoryAuditStore`
abbrev pub empty : MemoryObjects
empty = record { generation = 0; objects = [] }

-- `name == ""`
abbrev pub is_empty_name : List ℕ → Bool
is_empty_name [] = true
is_empty_name (_ ∷ _) = false

-- `read` with the object that the map holds.
abbrev pub found : Option StoredObject → Result StoreError StoredObject
found none = err object_not_found
found (some object) = ok object

-- `read`
unfoldable pub read : List ℕ → MemoryObjects → Result StoreError StoredObject
read name store =
    if is_empty_name name then err invalid_store_request else found (find name store.objects)

-- `names`, in the order of the map's entries.
unfoldable pub names : MemoryObjects → List (List ℕ)
names store = map (λ (entry : List ℕ × StoredObject). entry.0) store.objects

-- A write that went through.
abbrev pub wrote :
    ObjectDescriptor × MemoryObjects → Result StoreError ObjectDescriptor × MemoryObjects
wrote (descriptor, store) = (ok descriptor, store)

module _ (checksum : List ℕ → ℕ) where
  -- The descriptor that `put` gives to the content.
  abbrev pub described : Generation → List ℕ → ObjectDescriptor
  described generation content = record (describe_content checksum content) {
    generation = generation;
  }

  -- The object that `put` stores.
  abbrev pub stored : Generation → List ℕ → StoredObject
  stored generation content = record {
    descriptor = described generation content;
    content = content;
  }

  -- `put`, on a uint64 counter
  unfoldable pub put : List ℕ → List ℕ → MemoryObjects → ObjectDescriptor × MemoryObjects
  put name content store =
      let generation = (store.generation + 1) % 2 ^ 64 in
      (
        described generation content,
        record {
          generation = generation;
          objects = write name (stored generation content) store.objects;
        },
      )

  -- `create` with the object that the map holds.
  abbrev pub create_over :
      Option StoredObject
      → List ℕ
      → List ℕ
      → MemoryObjects
      → Result StoreError ObjectDescriptor × MemoryObjects
  create_over (some _) name content store = (err precondition_failed, store)
  create_over none name content store = wrote (put name content store)

  -- `create`
  unfoldable pub create :
      List ℕ → List ℕ → MemoryObjects → Result StoreError ObjectDescriptor × MemoryObjects
  create name content store =
      if is_empty_name name
      then (err invalid_store_request, store)
      else create_over (find name store.objects) name content store

  -- `compareAndSwap` with the object that the map holds.
  abbrev pub swap_over :
      Option StoredObject
      → List ℕ
      → Generation
      → List ℕ
      → MemoryObjects
      → Result StoreError ObjectDescriptor × MemoryObjects
  swap_over none name expected content store = (err object_not_found, store)
  swap_over (some object) name expected content store =
      if not (object.descriptor.generation == expected)
      then (err precondition_failed, store)
      else wrote (put name content store)

  -- `compareAndSwap`
  unfoldable pub compare_and_swap :
      List ℕ
      → Generation
      → List ℕ
      → MemoryObjects
      → Result StoreError ObjectDescriptor × MemoryObjects
  compare_and_swap name expected content store =
      if is_empty_name name || expected == 0
      then (err invalid_store_request, store)
      else swap_over (find name store.objects) name expected content store
