-- ===== src/Prelude/Text.antt =====
-- The order of texts, which is Go's order of their bytes.
use Prim.Native.Nat.{Ordering}
use Prim.Native.String.{String, [], ◌∷◌, compare}
use Prim.Native.String.compare as clauses
use mathlib.Core.Path.{◌≡◌}
use mathlib.Core.Bool.{Bool, true, false}
use native.Mathlib.Omega.{arith}

-- `a < b` on Go strings.
abbrev pub StrLt : String → String → Type 0
StrLt a b = compare a b ≡ Ordering.lt

abbrev pub str_ltb : String → String → Bool
str_ltb a b = elim (compare a b) [ Ordering.lt ↦ true | _ ↦ false ]

pub StrLt-trans : (a b c : String) → StrLt a b → StrLt b c → StrLt a c
StrLt-trans [] [] c h k = ground (arith, clauses.nil-nil)
StrLt-trans [] (y ∷ b) [] h k = ground (arith, clauses.cons-nil y b)
StrLt-trans [] (y ∷ b) (z ∷ c) h k = clauses.nil-cons z c
StrLt-trans (x ∷ a) [] c h k = ground (arith, clauses.cons-nil x a)
StrLt-trans (x ∷ a) (y ∷ b) [] h k = ground (arith, clauses.cons-nil y b)
StrLt-trans (x ∷ a) (y ∷ b) (z ∷ c) h k = ground (
  arith,
  clauses.cons-cons x y a b,
  clauses.cons-cons y z b c,
  clauses.cons-cons x z a c,
  StrLt-trans a b c,
)

-- A comparison that answers "greater" is "less" the other way round.
pub StrLt-of_gt : (a b : String) → compare a b ≡ Ordering.gt → StrLt b a
StrLt-of_gt [] [] h = ground (arith, clauses.nil-nil)
StrLt-of_gt [] (y ∷ b) h = ground (arith, clauses.nil-cons y b)
StrLt-of_gt (x ∷ a) [] h = clauses.nil-cons x a
StrLt-of_gt (x ∷ a) (y ∷ b) h =
    ground (arith, clauses.cons-cons x y a b, clauses.cons-cons y x b a, StrLt-of_gt a b)
