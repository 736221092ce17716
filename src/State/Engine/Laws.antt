-- ===== src/State/Engine/Laws.antt =====
-- What a reader of the store sees after each write, key by key.
use aacp.Prelude.{
  String, ◌≡◌, refl, none, some, List, [], ◌∷◌, arith, if◌then◌else◌, str_eq, eq_iff, starts_with,
}
use aacp.State.Engine.{lookup, insert, erase, matching, Store, get, set, delete}

module _ {V : Type 0} where
  pub lookup-insert :
      (k q : String) (v : V) (entries : List (String × V))
      → lookup q (insert k v entries) ≡ (if str_eq k q then some v else lookup q entries)
  unfolding lookup insert
  lookup-insert k q v [] = refl
  lookup-insert k q v ((first, old) ∷ rest) =
      let below = lookup-insert k q v rest in
      ground (arith, below, eq_iff first k, eq_iff first q, eq_iff k q)

  pub lookup-erase :
      (k j : String) (m : List (String × V))
      → lookup j (erase k m) ≡ (if str_eq k j then none else lookup j m)
  unfolding lookup erase
  lookup-erase k j [] = ground arith
  lookup-erase k j ((i, w) ∷ m) =
      ground (arith, eq_iff k j, eq_iff i k, eq_iff i j, lookup-erase k j m)

  pub lookup-matching :
      (p j : String) (m : List (String × V))
      → lookup j (matching p m) ≡ (if starts_with j p then lookup j m else none)
  unfolding lookup matching
  lookup-matching p j [] = ground arith
  lookup-matching p j ((i, w) ∷ m) = ground (arith, eq_iff i j, lookup-matching p j m)

  pub get-set :
      (s : Store V) (k j : String) (v : V)
      → get (set s k v) j ≡ (if str_eq k j then some v else get s j)
  unfolding get set
  get-set s k j v = lookup-insert k j v s.entries

  pub get-delete :
      (s : Store V) (k j : String) → get (delete s k) j ≡ (if str_eq k j then none else get s j)
  unfolding get delete
  get-delete s k j = lookup-erase k j s.entries
