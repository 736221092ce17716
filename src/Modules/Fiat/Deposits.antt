-- ===== src/Modules/Fiat/Deposits.antt =====
-- What a withdrawal and a slash do to the account of a provider.
use aacp.Prelude.{String, ◌≡◌, false, Option, some, Bytes}
use aacp.Prelude.Int.{pos, sub64, ◌≤ℤ◌}
use aacp.Exec.{Error, ok, err}
use aacp.Codec.{Wire}
use aacp.State.Engine.{Store}
use aacp.Types.{TxEnvelope}
use aacp.Types.Money.{Rational, is_below, is_above}
use aacp.App.Router.{World, Context}
use aacp.App.Post.{Post, IfOk, reads}
use aacp.Modules.Fiat.Data.{DepositAccount, DepositPayload, Codec}
use aacp.Modules.Fiat.Amounts.{amount_of, sub_decimal, min_deposit_for_tier}
use aacp.Modules.Fiat.{deposit_key, withdrawn, unbonding}

module _ {Q : Type 0} (big : Rational Q) where
  -- The two texts are amounts, the first at most the second.
  pub record AtMost (a b : String) : Type 0 where
    pub left : Q
    pub right : Q
    pub left_parses : amount_of big a ≡ ok left
    pub right_parses : amount_of big b ≡ ok right
    pub ordered : is_above (big.cmp left right) ≡ false

  -- The two texts are amounts, the first not below the second.
  pub record AtLeast (a b : String) : Type 0 where
    pub left : Q
    pub right : Q
    pub left_parses : amount_of big a ≡ ok left
    pub right_parses : amount_of big b ≡ ok right
    pub ordered : is_below (big.cmp left right) ≡ false

module _ {Raw Q : Type 0} (wire : Wire Raw) (big : Rational Q) (codec : Codec Raw) where
  -- what the store holds for a provider
  abbrev pub deposit_of : Store Raw → Bytes → Option DepositAccount
  deposit_of s provider = reads codec.deposit s (deposit_key codec provider)

  -- what a successful withdrawal found and wrote
  pub record Withdrawal (ctx : Context) (env : TxEnvelope Raw) (w v : World Raw)
      (p : DepositPayload) (acc : DepositAccount) (left : String) : Type 0 where
    pub decoded : codec.deposit_request env.payload ≡ some p
    pub found : deposit_of w.store env.sender ≡ some acc
    pub waited : pos unbonding ≤ℤ sub64 ctx.unix acc.last_deposit_at
    pub covered : AtMost big p.amount acc.available
    pub difference : sub_decimal big acc.available p.amount ≡ ok left
    pub floor : AtLeast big left (min_deposit_for_tier acc.tier)
    pub kept : deposit_of v.store acc.provider ≡ some (withdrawn ctx acc left)

  abbrev Withdraws : Context → TxEnvelope Raw → World Raw → World Raw → Type 0
  Withdraws ctx env w v =
      (p : DepositPayload) × (acc : DepositAccount) × (left : String) × Withdrawal ctx env w v p acc
        left

  pub failed_ok : (A D : Type 0) (e : Error) → IfOk {A = A} D (err e)
  unfolding IfOk
  failed_ok A D e = tt
