-- ===== src/Types/Money.antt =====
-- internal/types/money.go. The rational numbers of math/big are a parameter: what the code calls.
use aacp.Prelude.{ℕ, String, Bool, true, false, Option, not, if◌then◌else◌, str_eq}
use aacp.Exec.{plain, Result, ok, err, or_fail, and_then}

pub record Money : Type 0 where
  pub currency : String
  pub amount : String

-- a result of `Cmp` and of `Sign`: -1, 0 or 1
pub data Comparison : Type 0 where
  below : Comparison
  equal : Comparison
  above : Comparison

unfoldable pub is_below : Comparison → Bool
is_below below = true
is_below equal = false
is_below above = false

unfoldable pub is_above : Comparison → Bool
is_above below = false
is_above equal = false
is_above above = true

-- `big.Rat`: `SetString`, `SetFrac64`, `SetInt64`, `Add`, `Sub`, `Mul`, `Quo`, `Cmp`, `Sign` and
-- `FloatString`, and `strings.TrimSpace`.
pub record Rational (Q : Type 0) : Type 0 where
  pub trim_space : String → String
  pub set_string : String → Option Q
  pub frac : ℕ → ℕ → Q
  pub of_int : ℕ → Q
  pub add : Q → Q → Q
  pub sub : Q → Q → Q
  pub mul : Q → Q → Q
  pub quo : Q → Q → Q
  pub cmp : Q → Q → Comparison
  pub sign : Q → Comparison
  pub float_string : Q → ℕ → String

module _ {Q : Type 0} (big : Rational Q) where
  unfoldable pub parse_decimal : String → Result Q
  parse_decimal s =
      if str_eq (big.trim_space s) ""
      then err plain
      else or_fail plain (big.set_string (big.trim_space s))

  -- `Validate`: the error of the amount is wrapped
  wrapped : Result Q → Result {0} Unit
  wrapped (err e) = err plain
  wrapped (ok _) = ok tt

  unfoldable pub validate : Money → Result {0} Unit
  unfolding wrapped
  validate m = if str_eq m.currency "" then err plain else wrapped (parse_decimal m.amount)

  -- what `AddMoney` and `SubMoney` do with the two amounts
  unfoldable pub both : Money → Money → (Q → Q → Result Money) → Result Money
  both a b f =
      if not (str_eq a.currency b.currency)
      then err plain
      else and_then (parse_decimal a.amount)
          (λ ra. and_then (parse_decimal b.amount) (λ rb. f ra rb))

  -- The scales that the program passes are not negative.
  unfoldable pub add_money : Money → Money → ℕ → Result Money
  unfolding both
  add_money a b scale = both a b λ ra rb.
      ok (record { currency = a.currency; amount = big.float_string (big.add ra rb) scale })

  unfoldable pub sub_money : Money → Money → ℕ → Result Money
  unfolding both
  sub_money a b scale = both a b λ ra rb.
      if is_below (big.sign (big.sub ra rb))
      then err plain
      else ok (record { currency = a.currency; amount = big.float_string (big.sub ra rb) scale })

  unfoldable pub apply_bps : Money → ℕ → ℕ → Result Money
  apply_bps m bps scale = and_then (parse_decimal m.amount) λ r. ok (record {
    currency = m.currency;
    amount = big.float_string (big.mul r (big.frac bps 10000)) scale;
  })
