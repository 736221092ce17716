-- ===== src/State/View.antt =====
-- The store as a map from keys to values: what a client of `Store` may rely on.
use aacp.Prelude.{String, ◌≡◌, ◌∙◌, sym, none, some, ap, if◌then◌else◌, str_eq, starts_with, Bytes}
use aacp.State.Engine.{Store, lookup, matching, new_store, get, set, delete, iterate_prefix, commit}
use aacp.State.Engine.Laws.{get-set, lookup-matching}
use aacp.State.Engine.Order.{
  Unique, insert-Unique, erase-Unique, matching-Unique, sort-ext, lookup-sort,
}

module _ {V : Type 0} where
  -- A Go map has one entry for each key.
  pub record IsValid (s : Store V) : Type 0 where
    pub unique : Unique s.entries

  pub new_store-IsValid : IsValid new_store
  unfolding new_store
  new_store-IsValid = record { unique = tt }

  pub set-IsValid : (s : Store V) (k : String) (v : V) → IsValid s → IsValid (set s k v)
  unfolding set
  set-IsValid s k v h = record { unique = insert-Unique k v s.entries h.unique }

  pub delete-IsValid : (s : Store V) (k : String) → IsValid s → IsValid (delete s k)
  unfolding delete
  delete-IsValid s k h = record { unique = erase-Unique k s.entries h.unique }

  -- the same value under every key
  abbrev pub SameView : Store V → Store V → Type 0
  SameView s t = (k : String) → get s k ≡ get t k

  pub set-SameView :
      (s t : Store V) (k : String) (v : V) → SameView s t → SameView (set s k v) (set t k v)
  set-SameView s t k v h j =
      get-set s k j v ∙ ap (λ o. if str_eq k j then some v else o) (h j) ∙ sym (get-set t k j v)

  -- In a store with one entry for each key, the list of the entries under a prefix has for each
  -- key that starts with the prefix what the store has for it, and has no other key.
  pub lookup-iterate_prefix :
      (s : Store V) (p j : String)
      → IsValid s
      → lookup j (iterate_prefix s p) ≡ (if starts_with j p then get s j else none)
  unfolding iterate_prefix get
  lookup-iterate_prefix s p j h =
      lookup-sort j (matching p s.entries) (matching-Unique p s.entries h.unique)
      ∙ lookup-matching p j s.entries

  -- Two stores with one entry for each key and with the same value under every key list the same
  -- entries under a prefix, in the same order, in whatever order their maps hold the entries.
  pub iterate_prefix-ext :
      (s t : Store V) (p : String)
      → IsValid s
      → IsValid t
      → SameView s t
      → iterate_prefix s p ≡ iterate_prefix t p
  unfolding iterate_prefix get
  iterate_prefix-ext s t p a b h =
      sort-ext (matching p s.entries) (matching p t.entries) (matching-Unique p s.entries a.unique)
        (matching-Unique p t.entries b.unique)
        λ j.
          lookup-matching p j s.entries
          ∙ ap (λ o. if starts_with j p then o else none) (h j)
          ∙ sym (lookup-matching p j t.entries)

  -- Two stores with one entry for each key, with the same value under every key and the same
  -- version commit to the same hash and the same version, in whatever order their maps hold the
  -- entries.
  pub commit-ext :
      (bytes : V → Bytes) (sha256 : Bytes → Bytes) (s t : Store V)
      → IsValid s
      → IsValid t
      → SameView s t
      → s.version ≡ t.version
      → ((commit bytes sha256 s).0 ≡ (commit bytes sha256 t).0)
        × ((commit bytes sha256 s).1.version ≡ (commit bytes sha256 t).1.version)
  unfolding commit get
  commit-ext bytes sha256 s t a b h e =
      let same = sort-ext s.entries t.entries a.unique b.unique h in (cc (same, e), cc e)
