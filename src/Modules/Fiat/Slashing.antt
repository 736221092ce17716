-- ===== src/Modules/Fiat/Slashing.antt =====
-- What a slash does to the account of a provider and to the insurance pool.
use aacp.Prelude.{String, ◌≡◌, ◌⊎◌, Bool, none, some, if◌then◌else◌, str_eq}
use aacp.Exec.{ok}
use aacp.Codec.{Wire, JsonLaw}
use aacp.Types.{TxEnvelope}
use aacp.Types.Money.{Rational}
use aacp.App.Router.{World}
use aacp.App.Post.{Post, stored}
use aacp.Modules.Fiat.Data.{DepositAccount, InsurancePool, SlashPayload, Codec}
use aacp.Modules.Fiat.Numbers.{IsSum, IsDifference, IsLess, IsNotLess}
use aacp.Modules.Fiat.Amounts.{less_decimal}
use aacp.Modules.Fiat.{deposit_key, pool_or_panic, slashed}
use aacp.Modules.Fiat.Deposits.{deposit_of}

module _ {Raw Q : Type 0} (wire : Wire Raw) (big : Rational Q) (codec : Codec Raw) where
  -- a pool with another balance in dollars, or in yuan for any other currency
  abbrev booked_pool : String → String → InsurancePool → InsurancePool
  booked_pool currency balance pool =
      if str_eq currency "USD"
      then record pool { balance_usd = balance }
      else record pool { balance_cny = balance }

  -- what a successful slash found and wrote
  pub record SlashEffect (env : TxEnvelope Raw) (w v : World Raw) (p : SlashPayload)
      (acc : DepositAccount) (pool : InsurancePool) (amount left total balance : String)
      : Type 0 where
    pub decoded : codec.slash env.payload ≡ some p
    pub found : deposit_of wire big codec w.store p.provider ≡ some acc
    pub at_most :
        (IsNotLess big acc.available p.amount.amount × (amount ≡ p.amount.amount))
        ⊎ (IsLess big acc.available p.amount.amount × (amount ≡ acc.available))
    pub taken : IsDifference big acc.available amount left
    pub counted : IsSum big acc.slashed amount total
    pub kept :
        deposit_of wire big codec v.store acc.provider
        ≡ some (record acc { available = left; slashed = total })
    pub pool_before : pool_or_panic codec w ≡ ok pool
    pub booked :
        IsSum big
          (if str_eq p.amount.currency "USD" then pool.balance_usd else pool.balance_cny)
          amount
          balance
    pub pool_after :
        (codec.pool.marshal (booked_pool p.amount.currency balance pool) ≡ none)
        ⊎ (pool_or_panic codec v ≡ ok (booked_pool p.amount.currency balance pool))

  abbrev Slashes : TxEnvelope Raw → World Raw → World Raw → Type 0
  Slashes env w v =
      (p : SlashPayload) × (acc : DepositAccount) × (pool : InsurancePool) × (amount : String)
      × (left : String) × (total : String) × (balance : String) × SlashEffect env w v p acc pool
          amount left total balance

  module _ (env : TxEnvelope Raw) (w : World Raw) (p : SlashPayload) (acc : DepositAccount)
      (short : Bool) (left total balance : String) (pool : InsurancePool) (raw : Raw)
      (law : JsonLaw codec.deposit) (decoded : codec.slash env.payload ≡ some p)
      (found : deposit_of wire big codec w.store p.provider ≡ some acc)
      (compared : less_decimal big acc.available p.amount.amount ≡ ok short) where
    abbrev amount : String
    amount = if short then acc.available else p.amount.amount

    abbrev middle : World Raw
    middle = stored w (deposit_key codec (slashed acc left total).provider) raw
