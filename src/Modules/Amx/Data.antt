-- ===== src/Modules/Amx/Data.antt =====
-- The records of internal/modules/amx/module.go and what JSON makes of them.
use aacp.Prelude.{ℕ, String, Option, List, Bytes}
use aacp.Prelude.Int.{ℤ}
use aacp.Codec.{Json}
use aacp.Types.Money.{Money}

pub record CapabilityRef : Type 0 where
  pub cap_type : String

pub record PricingModel : Type 0 where
  pub currency : String
  pub base_price : String

pub record SlaTemplate : Type 0 where
  pub max_latency_ms : ℕ
  pub timeout_sec : ℕ

pub record Listing : Type 0 where
  pub listing_id : String
  pub provider : Bytes
  pub title : String
  pub description : String
  pub capabilities : List CapabilityRef
  pub pricing : PricingModel
  pub sla : SlaTemplate
  pub tags : List String
  pub status : String
  pub created_at : ℤ
  pub updated_at : ℤ

pub record CreateListingPayload : Type 0 where
  pub title : String
  pub description : String
  pub capabilities : List CapabilityRef
  pub pricing : PricingModel
  pub sla : SlaTemplate
  pub tags : List String

pub record UpdateListingPayload : Type 0 where
  pub listing_id : String
  pub title : String
  pub description : String
  pub pricing : PricingModel

pub record ToggleListingPayload : Type 0 where
  pub listing_id : String

pub record SubmitRequestPayload : Type 0 where
  pub required_caps : List String
  pub budget : Money
  pub max_latency_ms : ℕ
  pub deadline : ℤ

pub record Order : Type 0 where
  pub order_id : String
  pub listing_id : String
  pub consumer : Bytes
  pub provider : Bytes
  pub agreed_price : Money
  pub commission_bps : ℕ
  pub commission_amount : Money
  pub escrow_id : String
  pub task_id : String
  pub status : String
  pub created_at : ℤ
  pub updated_at : ℤ

pub record TransitionPayload : Type 0 where
  pub order_id : String

-- encoding/json at the stored records and at the payloads
pub record Codec (Raw : Type 0) : Type 0 where
  pub listing : Json Raw Listing
  pub order : Json Raw Order
  pub create : Raw → Option CreateListingPayload
  pub update : Raw → Option UpdateListingPayload
  pub toggle : Raw → Option ToggleListingPayload
  pub submit : Raw → Option SubmitRequestPayload
  pub transition : Raw → Option TransitionPayload

abbrev pub active : String
active = "LISTING_ACTIVE"

abbrev pub paused : String
paused = "LISTING_PAUSED"

abbrev pub delisted : String
delisted = "LISTING_DELISTED"

abbrev pub matched : String
matched = "ORDER_MATCHED"

abbrev pub escrowed : String
escrowed = "ORDER_ESCROWED"

abbrev pub order_active : String
order_active = "ORDER_ACTIVE"

abbrev pub canceled : String
canceled = "ORDER_CANCELED"

abbrev pub order_failed : String
order_failed = "ORDER_FAILED"

abbrev pub rejected : String
rejected = "ORDER_REJECTED"
