-- ===== src/Modules/Fiat/Numbers.antt =====
-- What the arithmetic on decimal strings says of the rational numbers.
use aacp.Prelude.{String, ◌≡◌, refl, true, false, sym, ◌⊎◌, inl, inr}
use aacp.Exec.{Result, ok, err, ok_inj, or_panic, and_then}
use aacp.Types.Money.{Rational, parse_decimal, Comparison, below, equal, above, is_below}
use aacp.Modules.Fiat.Amounts.{amount_of, both_amounts, add_decimal, sub_decimal, less_decimal}

module _ {Q : Type 0} (big : Rational Q) where
  -- Two amounts are decimal numbers, and these have a property.
  pub Both : String → String → (Q → Q → Type 0) → Type 0
  Both a b P =
      (x : Q) × (y : Q) × (parse_decimal big a ≡ ok x) × (parse_decimal big b ≡ ok y) × P x y

  -- The third is the sum, or the difference, of the other two, with eight digits.
  pub IsSum : String → String → String → Type 0
  IsSum a b c = Both a b (λ x y. c ≡ big.float_string (big.add x y) 8)

  pub IsDifference : String → String → String → Type 0
  IsDifference a b c = Both a b (λ x y. c ≡ big.float_string (big.sub x y) 8)

  -- `Cmp` finds the first below the second, or does not.
  pub IsLess : String → String → Type 0
  IsLess a b = Both a b (λ x y. big.cmp x y ≡ below)

  pub IsNotLess : String → String → Type 0
  IsNotLess a b = Both a b (λ x y. (big.cmp x y ≡ equal) ⊎ (big.cmp x y ≡ above))

  parsed : (r : Result Q) (x : Q) → or_panic r ≡ ok x → r ≡ ok x
  unfolding or_panic
  parsed (ok y) x h = h
  parsed (err e) x h = cc

  both_read :
      {B : Type 0} (r s : Result Q) (f : Q → Q → B) (c : B)
      → and_then (or_panic r) (λ x. and_then (or_panic s) (λ y. ok (f x y))) ≡ ok c
      → (x : Q) × (y : Q) × (r ≡ ok x) × (s ≡ ok y) × (c ≡ f x y)
  unfolding or_panic and_then
  both_read (ok x) (ok y) f c h = (x, y, refl, refl, sym (ok_inj _ _ h))
  both_read (ok x) (err e) f c h = cc
  both_read (err e) s f c h = cc

  both_amounts-Both :
      {B : Type 0} (a b : String) (f : Q → Q → B) (c : B)
      → both_amounts big a b f ≡ ok c
      → Both a b (λ x y. c ≡ f x y)
  unfolding both_amounts amount_of Both
  both_amounts-Both a b f c h = both_read (parse_decimal big a) (parse_decimal big b) f c h

  pub add_decimal-IsSum : (a b c : String) → add_decimal big a b ≡ ok c → IsSum a b c
  unfolding add_decimal IsSum
  add_decimal-IsSum a b c h = both_amounts-Both a b _ c h

  pub sub_decimal-IsDifference : (a b c : String) → sub_decimal big a b ≡ ok c → IsDifference a b c
  unfolding sub_decimal IsDifference
  sub_decimal-IsDifference a b c h = both_amounts-Both a b _ c h

  below_of : (o : Comparison) → is_below o ≡ true → o ≡ below
  unfolding is_below
  below_of below h = refl
  below_of equal h = cc
  below_of above h = cc

  not_below : (o : Comparison) → is_below o ≡ false → (o ≡ equal) ⊎ (o ≡ above)
  unfolding is_below
  not_below below h = cc
  not_below equal h = inl refl
  not_below above h = inr refl

  pub less_decimal-IsLess : (a b : String) → less_decimal big a b ≡ ok true → IsLess a b
  unfolding less_decimal IsLess Both
  less_decimal-IsLess a b h =
      let (x, y, p, q, e) = both_amounts-Both a b (λ x y. is_below (big.cmp x y)) true h in
      (x, y, p, q, below_of (big.cmp x y) (sym e))

  pub less_decimal-IsNotLess : (a b : String) → less_decimal big a b ≡ ok false → IsNotLess a b
  unfolding less_decimal IsNotLess Both
  less_decimal-IsNotLess a b h =
      let (x, y, p, q, e) = both_amounts-Both a b (λ x y. is_below (big.cmp x y)) false h in
      (x, y, p, q, not_below (big.cmp x y) (sym e))
