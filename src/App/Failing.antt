-- ===== src/App/Failing.antt =====
-- The contract of the block loop for results that are computed without the store: amounts, and what
-- is read and decoded.
use aacp.Prelude.{String, ◌≡◌, refl, Bool, true, false, Option, none, some, if◌then◌else◌, ℕ}
use aacp.Exec.{Error, plain, Result, ok, err, or_fail, or_panic, and_then, lift, reading}
use aacp.Codec.{Wire}
use aacp.Types.Money.{Money, Rational, parse_decimal, both, add_money, apply_bps}
use aacp.App.Router.{World}
use aacp.App.Lawful.{IsFailure, plain_fails, panic_fails, Lawful}

-- The error of a result is one that `FinalizeBlock` cannot take for a success.
pub record Failing {A : Type 0} (r : Result A) : Type 0 where
  pub fails : (e : Error) → r ≡ err e → IsFailure e

module _ {A : Type 0} where
  pub Failing-ok : (a : A) → Failing (ok a)
  Failing-ok a = record { fails = λ e h. cc }

  same_error : (e f : Error) → ◌≡◌ {A = Result A} (err e) (err f) → e ≡ f
  same_error e f h = cc

  pub Failing-err : (e : Error) → IsFailure e → Failing {A = A} (err e)
  Failing-err e h = record { fails = λ f q. rw (← same_error e f q) h }

  pub Failing-or_fail : (e : Error) (o : Option A) → IsFailure e → Failing (or_fail e o)
  Failing-or_fail e none h = Failing-err e h
  Failing-or_fail e (some a) h = Failing-ok a

  pub Failing-or_panic : (r : Result A) → Failing (or_panic r)
  unfolding or_panic
  Failing-or_panic (ok a) = Failing-ok a
  Failing-or_panic (err e) = Failing-err _ panic_fails

  pub Failing-if :
      (b : Bool) (r s : Result A) → Failing r → Failing s → Failing (if b then r else s)
  Failing-if true r s h k = h
  Failing-if false r s h k = k

pub Failing-and_then :
    {A B : Type 0} (r : Result A) (f : A → Result B)
    → Failing r
    → ((a : A) → Failing (f a))
    → Failing (and_then r f)
unfolding and_then
Failing-and_then (ok a) f h k = k a
Failing-and_then (err e) f h k = Failing-err e (h.fails e refl)

module _ {Q : Type 0} (big : Rational Q) where
  pub Failing-parse_decimal : (s : String) → Failing (parse_decimal big s)
  unfolding parse_decimal
  Failing-parse_decimal s =
      Failing-if _ _ _ (Failing-err plain plain_fails) (Failing-or_fail plain _ plain_fails)

  pub Failing-add_money : (a b : Money) (n : ℕ) → Failing (add_money big a b n)
  unfolding add_money both
  Failing-add_money a b n = Failing-if _ _ _ (Failing-err plain plain_fails) (
      Failing-and_then _ _ (Failing-parse_decimal a.amount)
        λ ra. Failing-and_then _ _ (Failing-parse_decimal b.amount) λ rb. Failing-ok _)

  pub Failing-apply_bps : (m : Money) (bps n : ℕ) → Failing (apply_bps big m bps n)
  unfolding apply_bps
  Failing-apply_bps m bps n =
      Failing-and_then _ _ (Failing-parse_decimal m.amount) λ r. Failing-ok _

module _ {Raw A : Type 0} (wire : Wire Raw) where
  pub Lawful-lift : (r : Result A) → Failing r → Lawful wire (lift r)
  Lawful-lift r h = record { keeps = λ w p. refl; fails = λ w e q. h.fails e q }

  pub Lawful-reading :
      (f : World Raw → Result A) → ((w : World Raw) → Failing (f w)) → Lawful wire (reading f)
  Lawful-reading f h = record { keeps = λ w p. refl; fails = λ w e q. (h w).fails e q }

pub ruleset failing_rules = (
  Failing-ok, Failing-err, Failing-or_fail, Failing-or_panic, Failing-if, Failing-and_then,
  Failing-parse_decimal, Failing-add_money, Failing-apply_bps, Lawful-lift, Lawful-reading,
  plain_fails, panic_fails,
)
