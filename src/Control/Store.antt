-- ===== src/Control/Store.antt =====
-- internal/control/store.go: descriptors, the objects of a store and the stores in memory. The
-- checksum of a content is a parameter.
pub mod Memory
pub mod Calls
use ctrldb.Prelude.{ℕ, Bool, List, Result, ok, err, ◌&&◌, ◌==◌, not, ◌%◌, ◌^◌, length}
use ctrldb.Prelude.Int.{ℤ, of_word, eqb_ℤ}

-- A uint64: zero means that the object must not exist.
abbrev pub Generation : Type 0
Generation = ℕ

pub record ObjectDescriptor : Type 0 where
  pub generation : Generation
  pub size : ℤ
  pub crc32c : ℕ

pub record StoredObject : Type 0 where
  pub descriptor : ObjectDescriptor
  pub content : List ℕ

-- The error classes of the package's stores, and the failure of a context.
pub data StoreError : Type 0 where
  invalid_object_name object_not_found precondition_failed invalid_store_request : StoreError

-- A `context.Context` argument: nil, still running, or ended.
pub data Context : Type 0 where
  missing running ended : Context

-- `storeContext`
abbrev pub store_context : Context → Result StoreError (Unit {0})
store_context missing = err invalid_store_request
store_context running = ok tt
store_context ended = err invalid_store_request

-- `==` on descriptors.
abbrev pub same_descriptor : ObjectDescriptor → ObjectDescriptor → Bool
same_descriptor a b = a.generation == b.generation && (eqb_ℤ a.size b.size && a.crc32c == b.crc32c)

module _ (checksum : List ℕ → ℕ) where
  -- `DescribeContent`
  abbrev pub describe_content : List ℕ → ObjectDescriptor
  describe_content content = record {
    generation = 0;
    size = of_word (length content % 2 ^ 64);
    crc32c = checksum content;
  }

  -- `MatchesContent`
  unfoldable pub matches_content : ObjectDescriptor → List ℕ → Bool
  matches_content descriptor content =
      not (descriptor.generation == 0)
      && (eqb_ℤ descriptor.size (describe_content content).size
          && descriptor.crc32c == (describe_content content).crc32c)
