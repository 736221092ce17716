-- ===== src/Modules/Fiat/Data.antt =====
-- The records of internal/modules/fiat/module.go and what JSON makes of them.
use aacp.Prelude.{ℕ, String, Option, Bytes}
use aacp.Prelude.Int.{ℤ}
use aacp.Codec.{Json}
use aacp.Types.Money.{Money}

pub record Escrow : Type 0 where
  pub escrow_id : String
  pub order_id : String
  pub consumer : Bytes
  pub provider : Bytes
  pub total_amount : Money
  pub service_fee : Money
  pub commission : Money
  pub commission_bps : ℕ
  pub status : String
  pub created_at : ℤ
  pub funded_at : ℤ
  pub released_at : ℤ
  pub gateway_tx_id : String

pub record DepositAccount : Type 0 where
  pub provider : Bytes
  pub currency : String
  pub total_deposited : String
  pub available : String
  pub frozen : String
  pub slashed : String
  pub last_deposit_at : ℤ
  pub last_withdraw_at : ℤ
  pub tier : String

pub record InsurancePool : Type 0 where
  pub balance_cny : String
  pub balance_usd : String
  pub total_income : String
  pub total_payout : String
  pub max_single_payout : String
  pub safety_ratio_bps : ℕ

pub record CreateEscrowPayload : Type 0 where
  pub escrow_id : String
  pub order_id : String
  pub consumer : Bytes
  pub provider : Bytes
  pub service_fee : Money
  pub commission_bps : ℕ

pub record EscrowRefPayload : Type 0 where
  pub escrow_id : String

pub record SlashPayload : Type 0 where
  pub provider : Bytes
  pub amount : Money
  pub dispute : String

pub record DepositPayload : Type 0 where
  pub currency : String
  pub amount : String

-- encoding/json at the stored records and at the payloads
pub record Codec (Raw : Type 0) : Type 0 where
  pub escrow : Json Raw Escrow
  pub deposit : Json Raw DepositAccount
  pub pool : Json Raw InsurancePool
  pub create : Raw → Option CreateEscrowPayload
  pub escrow_ref : Raw → Option EscrowRefPayload
  pub slash : Raw → Option SlashPayload
  pub deposit_request : Raw → Option DepositPayload

abbrev pub pending : String
pending = "ESCROW_PENDING"

abbrev pub funded : String
funded = "ESCROW_FUNDED"

abbrev pub locked : String
locked = "ESCROW_LOCKED"

abbrev pub releasing : String
releasing = "ESCROW_RELEASING"

abbrev pub released : String
released = "ESCROW_RELEASED"

abbrev pub refunded : String
refunded = "ESCROW_REFUNDED"
