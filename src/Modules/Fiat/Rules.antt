-- ===== src/Modules/Fiat/Rules.antt =====
-- internal/modules/fiat/module.go: what the handlers compute, apart from the store and the amounts.
use aacp.Prelude.{ℕ, suc, ◌+◌, String, ◌<>◌, [], ◌∷◌, if◌then◌else◌, ◌==◌, str_eq, Bytes}
use aacp.Prelude.Int.{ℤ, pos, negsuc}
use aacp.Prelude.Encode.{hex, hex_number}
use aacp.Exec.{Error, app}
use aacp.Types.{Event, code_fiat_base}
use aacp.Types.Money.{Money}
use aacp.App.Router.{Context}
use aacp.Modules.Fiat.Data.{
  Escrow, DepositAccount, InsurancePool, CreateEscrowPayload, pending, funded, locked, releasing,
  released, refunded,
}

abbrev pub refused : Error
refused = app (code_fiat_base + 1)

abbrev pub empty_pool : InsurancePool
empty_pool = record {
  balance_cny = "0";
  balance_usd = "0";
  total_income = "0";
  total_payout = "0";
  max_single_payout = "0";
  safety_ratio_bps = 20000;
}

abbrev pub new_account : Bytes → String → DepositAccount
new_account provider currency = record {
  provider = provider;
  currency = currency;
  total_deposited = "0";
  available = "0";
  frozen = "0";
  slashed = "0";
  last_deposit_at = pos 0;
  last_withdraw_at = pos 0;
  tier = "starter";
}

-- `%x` at an int64
unfoldable pub hex_int : ℤ → String
hex_int (pos n) = hex_number n
hex_int (negsuc n) = "-" <> hex_number (suc n)

unfoldable pub escrow_id_or_time : Context → String → String
escrow_id_or_time ctx id = if str_eq id "" then "esc-" <> hex_int ctx.unix_nano else id

-- `p.CommissionBPS` of `createEscrow`
unfoldable pub bps_or_default : ℕ → ℕ
bps_or_default n = if n == 0 then 1200 else n

-- the escrow that `createEscrow` saves
unfoldable pub new_escrow : Context → CreateEscrowPayload → Money → Money → Escrow
unfolding bps_or_default
new_escrow ctx p commission total = record {
  escrow_id = escrow_id_or_time ctx p.escrow_id;
  order_id = p.order_id;
  consumer = p.consumer;
  provider = p.provider;
  total_amount = total;
  service_fee = p.service_fee;
  commission = commission;
  commission_bps = bps_or_default p.commission_bps;
  status = pending;
  created_at = ctx.unix;
  funded_at = pos 0;
  released_at = pos 0;
  gateway_tx_id = "";
}

-- the assignments of the handlers to the escrow that they have loaded
unfoldable pub fund : Context → Escrow → Escrow
fund ctx e = record e { status = funded; funded_at = ctx.unix }

unfoldable pub begin_release : Escrow → Escrow
begin_release e = if str_eq e.status funded then record e { status = releasing } else e

unfoldable pub release : Context → Escrow → Escrow
release ctx e = record e { status = released; released_at = ctx.unix }

unfoldable pub lock : Escrow → Escrow
lock e = record e { status = locked }

unfoldable pub refund : Escrow → Escrow
refund e = record e { status = refunded }

-- the assignments to accounts and to the pool
unfoldable pub slashed : DepositAccount → String → String → DepositAccount
slashed acc available total = record acc { available = available; slashed = total }

unfoldable pub deposited : Context → DepositAccount → String → String → String → DepositAccount
deposited ctx acc total available tier = record acc {
  total_deposited = total;
  available = available;
  last_deposit_at = ctx.unix;
  tier = tier;
}

unfoldable pub withdrawn : Context → DepositAccount → String → DepositAccount
withdrawn ctx acc available = record acc { available = available; last_withdraw_at = ctx.unix }

-- the balance of the pool that a currency is booked on
unfoldable pub balance_of : String → InsurancePool → String
balance_of currency pool = if str_eq currency "USD" then pool.balance_usd else pool.balance_cny

unfoldable pub with_balance : String → String → InsurancePool → InsurancePool
with_balance currency balance pool =
    if str_eq currency "USD"
    then record pool { balance_usd = balance }
    else record pool { balance_cny = balance }

unfoldable pub with_income : String → InsurancePool → InsurancePool
with_income income pool = record pool { total_income = income }

abbrev pub deposit_slashed : Bytes → String → String → Event
deposit_slashed provider amount dispute = record {
  kind = "DepositSlashed";
  attributes = ("provider", hex provider) ∷ ("amount", amount) ∷ ("dispute_id", dispute) ∷ [];
}

abbrev pub below_safety : String → String → Event
below_safety balance threshold = record {
  kind = "InsurancePoolBelowSafety";
  attributes = ("balance", balance) ∷ ("threshold", threshold) ∷ [];
}
