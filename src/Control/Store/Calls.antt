-- ===== src/Control/Store/Calls.antt =====
-- The methods of `MemoryControlStore` and `MemoryAuditStore` of internal/control/store.go, and
-- sequences of calls by any number of clients.
pub mod Versioned
pub mod Stale
use ctrldb.Prelude.{ℕ, List, Result, ok, err, [], ◌∷◌}
use ctrldb.Control.Store.{
  Context, store_context, Generation, ObjectDescriptor, StoreError, StoredObject,
}
use ctrldb.Control.Store.Memory.{create, read, compare_and_swap, MemoryObjects}

-- A method of a store under its context.
abbrev pub in_context {ℓ} :
    {A : Type ℓ}
    → Context
    → MemoryObjects
    → Result StoreError A × MemoryObjects
    → Result StoreError A × MemoryObjects
in_context ctx store call = elim (store_context ctx) [ err e ↦ (err e, store) | ok _ ↦ call ]

-- A call of `MemoryControlStore`.
pub data ControlCall : Type 0 where
  creates : Context → List ℕ → List ℕ → ControlCall
  reads : Context → List ℕ → ControlCall
  swaps : Context → List ℕ → Generation → List ℕ → ControlCall

-- A call of `MemoryAuditStore`, which has no other way to write.
pub data AuditCall : Type 0 where
  appends : Context → List ℕ → List ℕ → AuditCall
  consults : Context → List ℕ → AuditCall

-- `MemoryControlStore.Read`, which `MemoryAuditStore.Read` repeats.
unfoldable pub store_read :
    Context → List ℕ → MemoryObjects → Result StoreError StoredObject × MemoryObjects
store_read ctx name store = in_context ctx store (read name store, store)

module _ (checksum : List ℕ → ℕ) where
  -- `MemoryControlStore.Create`, which `MemoryAuditStore.Create` repeats.
  unfoldable pub store_create :
      Context → List ℕ → List ℕ → MemoryObjects → Result StoreError ObjectDescriptor × MemoryObjects
  store_create ctx name content store = in_context ctx store (create checksum name content store)

  -- `MemoryControlStore.CompareAndSwap`
  unfoldable pub store_swap :
      Context
      → List ℕ
      → Generation
      → List ℕ
      → MemoryObjects
      → Result StoreError ObjectDescriptor × MemoryObjects
  store_swap ctx name expected content store =
      in_context ctx store (compare_and_swap checksum name expected content store)

  -- What a call leaves of the store.
  unfoldable pub control_step : ControlCall → MemoryObjects → MemoryObjects
  unfolding store_create store_read store_swap
  control_step (creates ctx name content) store = (store_create ctx name content store).1
  control_step (reads ctx name) store = (store_read ctx name store).1
  control_step (swaps ctx name expected content) store =
      (store_swap ctx name expected content store).1

  unfoldable pub audit_step : AuditCall → MemoryObjects → MemoryObjects
  unfolding store_create store_read
  audit_step (appends ctx name content) store = (store_create ctx name content store).1
  audit_step (consults ctx name) store = (store_read ctx name store).1

  unfoldable pub control_run : List ControlCall → MemoryObjects → MemoryObjects
  unfolding control_step
  control_run [] store = store
  control_run (call ∷ calls) store = control_run calls (control_step call store)

  unfoldable pub audit_run : List AuditCall → MemoryObjects → MemoryObjects
  unfolding audit_step
  audit_run [] store = store
  audit_run (call ∷ calls) store = audit_run calls (audit_step call store)
