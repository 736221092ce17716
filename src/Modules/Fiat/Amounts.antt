-- ===== src/Modules/Fiat/Amounts.antt =====
-- internal/modules/fiat/module.go: the arithmetic on amounts that are decimal strings. The code
-- drops the errors of `ParseDecimal`, so an amount that cannot be parsed is a nil pointer, and the
-- arithmetic on it panics.
use aacp.Prelude.{ℕ, String, Bool, not, if◌then◌else◌, str_eq}
use aacp.Exec.{Result, ok, or_panic, and_then}
use aacp.Types.Money.{Rational, parse_decimal, is_below, is_above}
use aacp.Modules.Fiat.Data.{InsurancePool}

module _ {Q : Type 0} (big : Rational Q) where
  -- the rational number of an amount, where a nil pointer is used at once
  unfoldable pub amount_of : String → Result Q
  unfolding or_panic
  amount_of s = or_panic (parse_decimal big s)

  unfoldable pub both_amounts : {B : Type 0} → String → String → (Q → Q → B) → Result B
  unfolding and_then
  both_amounts a b f = and_then (amount_of a) (λ ra. and_then (amount_of b) (λ rb. ok (f ra rb)))

  unfoldable pub add_decimal : String → String → Result String
  unfolding both_amounts
  add_decimal a b = both_amounts a b (λ ra rb. big.float_string (big.add ra rb) 8)

  unfoldable pub sub_decimal : String → String → Result String
  unfolding both_amounts
  sub_decimal a b = both_amounts a b (λ ra rb. big.float_string (big.sub ra rb) 8)

  unfoldable pub less_decimal : String → String → Result Bool
  unfolding both_amounts
  less_decimal a b = both_amounts a b (λ ra rb. is_below (big.cmp ra rb))

  unfoldable pub less_or_equal_decimal : String → String → Result Bool
  unfolding both_amounts
  less_or_equal_decimal a b = both_amounts a b (λ ra rb. not (is_above (big.cmp ra rb)))

  abbrev pub mul_ratio : Q → ℕ → ℕ → Q
  mul_ratio r num den = big.mul r (big.frac num den)

  unfoldable pub compute_safety_threshold : InsurancePool → Result String
  unfolding and_then
  compute_safety_threshold pool = and_then (amount_of pool.max_single_payout) λ max_payout.
      ok (big.float_string (big.mul max_payout (big.frac pool.safety_ratio_bps 10000)) 8)

  -- the switch of `tierFor`, at the four numbers
  unfoldable pub tier_of : Q → Q → Q → String
  tier_of v enterprise pro =
      if not (is_below (big.cmp v enterprise))
      then "enterprise"
      else if not (is_below (big.cmp v pro))
      then "pro"
      else "starter"

  unfoldable pub tier_for : String → Result String
  unfolding and_then
  tier_for available = and_then (amount_of available) λ v.
      and_then (amount_of "100000") λ enterprise.
        and_then (amount_of "10000")
          λ pro. and_then (amount_of "1000") λ s. ok (tier_of v enterprise pro)

unfoldable pub min_deposit_for_tier : String → String
min_deposit_for_tier tier =
    if str_eq tier "enterprise" then "100000" else if str_eq tier "pro" then "10000" else "1000"
