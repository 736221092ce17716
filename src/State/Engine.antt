-- ===== src/State/Engine.antt =====
-- internal/state/store.go: the in-memory engine behind `Store`. The Go map is an association list
-- in an arbitrary order; the lock makes each method one step. `Store`'s methods only forward.
pub mod Laws
pub mod Order
use aacp.Prelude.{
  ℕ, ◌+◌, ◌%◌, ◌^◌, String, Bool, Option, none, some, List, [], ◌∷◌, ◌++◌, if◌then◌else◌, str_eq,
  starts_with, Bytes,
}
use aacp.Prelude.Text.{str_ltb}
use aacp.Prelude.Encode.{utf8, big_endian}

module _ {V : Type 0} where
  -- `m.data[k]`
  unfoldable pub lookup : String → List (String × V) → Option V
  lookup k [] = none
  lookup k ((j, v) ∷ m) = if str_eq j k then some v else lookup k m

  -- `m.data[k] = v`
  unfoldable pub insert : String → V → List (String × V) → List (String × V)
  insert k v [] = (k, v) ∷ []
  insert k v ((j, w) ∷ m) = if str_eq j k then (k, v) ∷ m else (j, w) ∷ insert k v m

  -- `delete(m.data, k)`
  unfoldable pub erase : String → List (String × V) → List (String × V)
  erase k [] = []
  erase k ((j, w) ∷ m) = let rest = erase k m in if str_eq j k then rest else (j, w) ∷ rest

  -- the loop of `IteratePrefix` over the map
  unfoldable pub matching : String → List (String × V) → List (String × V)
  matching p [] = []
  matching p ((j, w) ∷ m) =
      let rest = matching p m in if starts_with j p then (j, w) ∷ rest else rest

  -- `sort.Slice` and `sort.Strings` by the key
  unfoldable pub insert_sorted : String × V → List (String × V) → List (String × V)
  insert_sorted e [] = e ∷ []
  insert_sorted e (f ∷ m) = if str_ltb e.0 f.0 then e ∷ f ∷ m else f ∷ insert_sorted e m

  unfoldable pub sort : List (String × V) → List (String × V)
  unfolding insert_sorted
  sort [] = []
  sort (e ∷ m) = insert_sorted e (sort m)

pub record Store (V : Type 0) : Type 0 where
  pub entries : List (String × V)
  pub version : ℕ

module _ {V : Type 0} where
  -- `newMemoryEngine`
  unfoldable pub new_store : Store V
  new_store = record { entries = []; version = 0 }

  unfoldable pub get : Store V → String → Option V
  get s k = lookup k s.entries

  unfoldable pub set : Store V → String → V → Store V
  set s k v = record s { entries = insert k v s.entries }

  unfoldable pub delete : Store V → String → Store V
  delete s k = record s { entries = erase k s.entries }

  unfoldable pub iterate_prefix : Store V → String → List (String × V)
  iterate_prefix s p = sort (matching p s.entries)

  -- what `Commit` writes to the hash, in the order of the keys
  unfoldable pub hash_input : (V → Bytes) → List (String × V) → Bytes
  hash_input bytes [] = []
  hash_input bytes ((k, v) ∷ m) = utf8 k ++ (bytes v ++ hash_input bytes m)

  -- `Commit`: the new version and the hash over the sorted entries and the version
  unfoldable pub commit : (V → Bytes) → (Bytes → Bytes) → Store V → Bytes × Store V
  commit bytes sha256 s =
      let version = (s.version + 1) % 2 ^ 64 in
      (
        sha256 (hash_input bytes (sort s.entries) ++ big_endian 8 version),
        record s { version = version },
      )
