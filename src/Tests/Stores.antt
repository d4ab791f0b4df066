-- ===== src/Tests/Stores.antt =====
-- Stores of internal/control/store.go at concrete calls.
use ctrldb.Prelude.{ok, err, true, refl, arith, codes, [], ◌∷◌, List, ◌≡◌, ℕ, ◌+◌, ◌<◌, ◌^◌}
use ctrldb.Control.Store.{
  running, ended, matches_content, StoredObject, precondition_failed, invalid_object_name,
}
use ctrldb.Control.Store.Memory.{MemoryObjects, empty, create, compare_and_swap, put, read}
use ctrldb.Control.Store.Calls.{
  creates, swaps, control_run, control_step, store_read, store_create, store_swap, ControlCall,
  reads, AuditCall, audit_run, appends, consults,
}
use ctrldb.Control.Store.Calls.Versioned.{
  control_run-matches_content, IsVersioned, control_run-IsVersioned, empty-IsVersioned,
}
use ctrldb.Prelude.Int.{pos}
use ctrldb.Control.Names.Decoded.{control_object_name, lock, control_object_name-injective}
use ctrldb.Control.Names.{lock_object_name}
use ctrldb.Control.Store.Calls.Stale.{audit_run-append_only, compare_and_swap_once}

-- A checksum that stands for CRC32C.
abbrev total : List ℕ → ℕ
total [] = 0
total (c ∷ cs) = c + total cs

abbrev lock_name : List ℕ
lock_name = codes "locks/test.json"

abbrev calls : List ControlCall
calls =
    creates running lock_name (1 ∷ [])
    ∷ creates running lock_name (5 ∷ [])
    ∷ swaps running lock_name 1 (2 ∷ 3 ∷ [])
    ∷ swaps ended lock_name 2 []
    ∷ []

abbrev swapped : StoredObject
swapped = record {
  descriptor = record { generation = 2; size = pos 2; crc32c = 5 };
  content = 2 ∷ 3 ∷ [];
}

reads_swapped : (store_read running lock_name (control_run total calls empty)).0 ≡ ok swapped
unfolding control_run control_step store_create store_read store_swap create compare_and_swap put
    read
reads_swapped = refl

control_run-matches_content_example :
    matches_content total swapped.descriptor swapped.content ≡ true
control_run-matches_content_example =
    control_run-matches_content total calls running lock_name (omega arith) reads_swapped

-- A store with the lock at its first generation.
abbrev first_calls : List ControlCall
first_calls = creates running lock_name (1 ∷ []) ∷ []

created_lock : MemoryObjects
unfolding control_run
created_lock = control_run total first_calls empty

created-IsVersioned : IsVersioned total created_lock
unfolding created_lock
created-IsVersioned =
    (control_run-IsVersioned total first_calls empty (omega arith) (empty-IsVersioned total)).0

swap_succeeds :
    (compare_and_swap total lock_name 1 (2 ∷ []) created_lock).0
    ≡ ok (record { generation = 2; size = pos 1; crc32c = 2 })
unfolding created_lock control_run control_step store_create create compare_and_swap put
swap_succeeds = refl

room : created_lock.generation + 1 + 1 < 2 ^ 64
unfolding created_lock control_run control_step store_create create put
room = omega arith

compare_and_swap_once_example :
    let later =
      control_run total
        (reads running lock_name ∷ [])
        (compare_and_swap total lock_name 1 (2 ∷ []) created_lock).1 in
    compare_and_swap total lock_name 1 (3 ∷ []) later ≡ (err precondition_failed, later)
compare_and_swap_once_example =
    compare_and_swap_once total lock_name 1 (2 ∷ []) (3 ∷ []) (reads running lock_name ∷ [])
      created_lock room created-IsVersioned swap_succeeds

-- An audit object, and later calls at its name.
abbrev audit_store : MemoryObjects
audit_store = record { generation = 2; objects = (lock_name, swapped) ∷ [] }

audit_read : (store_read running lock_name audit_store).0 ≡ ok swapped
unfolding store_read read
audit_read = refl

abbrev audit_calls : List AuditCall
audit_calls = appends running lock_name [] ∷ consults running lock_name ∷ []

audit_run-append_only_example :
    (store_read running lock_name (audit_run total audit_calls audit_store)).0 ≡ ok swapped
audit_run-append_only_example =
    audit_run-append_only total audit_calls lock_name audit_store audit_read

names_lock : control_object_name (lock (codes "test")) ≡ ok lock_name
unfolding control_object_name lock_object_name
names_lock = refl

control_object_name-injective_example : lock (codes "test") ≡ lock (codes "test")
control_object_name-injective_example =
    control_object_name-injective (lock (codes "test")) (lock (codes "test")) names_lock names_lock

-- A name with a `/` in a part is refused.
refuses_slash : lock_object_name (codes "a/b") ≡ err invalid_object_name
unfolding lock_object_name
refuses_slash = refl
