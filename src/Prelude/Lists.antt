-- ===== src/Prelude/Lists.antt =====
-- Lists measured by native numbers, a predicate on all elements, and byte slices.
use Prim.Native.Nat.{ℕ, zero, suc, ◌+◌, ◌≤◌}
use mathlib.Core.Path.{◌≡◌, refl}
use mathlib.Core.Bool.{Bool, true, false, ◌&&◌}
use mathlib.Core.List.{List, [], ◌∷◌, ◌++◌}
use native.Mathlib.Omega.{arith}
use aacp.Prelude.Tests.{◌==◌}

module _ {ℓ} {A : Type ℓ} where
  abbrev pub length : List A → ℕ
  length [] = 0
  length (x ∷ xs) = suc (length xs)

  abbrev pub take : ℕ → List A → List A
  take zero xs = []
  take (suc n) [] = []
  take (suc n) (x ∷ xs) = x ∷ take n xs

  pub length-append : (xs ys : List A) → length (xs ++ ys) ≡ length xs + length ys
  length-append [] ys = omega arith
  length-append (x ∷ xs) ys = omega (arith, length-append xs ys)

  pub length-take : (n : ℕ) (xs : List A) → length (take n xs) ≤ n
  length-take zero xs = ground arith
  length-take (suc n) [] = ground arith
  length-take (suc n) (x ∷ xs) = let shorter = length-take n xs in ground arith

abbrev pub All {ℓ κ} : {A : Type ℓ} → (A → Type κ) → List A → Type κ
All P [] = Unit
All P (x ∷ xs) = P x × All P xs

-- the first elements of a list, and elements with a weaker property
module _ {ℓ κ} {A : Type ℓ} (P : A → Type κ) where
  pub All-take : (n : ℕ) (xs : List A) → All P xs → All P (take n xs)
  All-take zero xs all = tt
  All-take (suc n) [] all = tt
  All-take (suc n) (x ∷ xs) all = (all.0, All-take n xs all.1)

  pub All-map : (R : A → Type κ) (xs : List A) → ((a : A) → P a → R a) → All P xs → All R xs
  All-map R [] f all = tt
  All-map R (x ∷ xs) f all = (f x all.0, All-map R xs f all.1)

-- A Go `[]byte`.
abbrev pub Bytes : Type 0
Bytes = List ℕ

-- `equalBytes`: the lengths, then each byte.
unfoldable pub equal_bytes : Bytes → Bytes → Bool
equal_bytes [] [] = true
equal_bytes [] (b ∷ bs) = false
equal_bytes (a ∷ as') [] = false
equal_bytes (a ∷ as') (b ∷ bs) = a == b && equal_bytes as' bs

pub equal_bytes_refl : (a : Bytes) → equal_bytes a a ≡ true
unfolding equal_bytes
equal_bytes_refl [] = refl
equal_bytes_refl (x ∷ a) = ground (arith, equal_bytes_refl a)

pub equal_bytes-eq : (a b : Bytes) → equal_bytes a b ≡ true → a ≡ b
unfolding equal_bytes
equal_bytes-eq [] [] h = refl
equal_bytes-eq [] (b ∷ bs) h = cc
equal_bytes-eq (a ∷ as') [] h = cc
equal_bytes-eq (a ∷ as') (b ∷ bs) h = ground (arith, equal_bytes-eq as' bs)
