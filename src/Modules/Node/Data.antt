-- ===== src/Modules/Node/Data.antt =====
-- The records of internal/modules/node/module.go, what JSON makes of them, and float64.
use aacp.Prelude.{ℕ, String, Bool, Option, Bytes}
use aacp.Prelude.Int.{ℤ}
use aacp.Codec.{Json}

-- float64: a constant n / d, `float64(i)` and `int(x)` for an int64, the arithmetic, `>` and `==`
pub record Floats (F : Type 0) : Type 0 where
  pub constant : ℕ → ℕ → F
  pub of_int : ℤ → F
  pub to_int : F → ℤ
  pub add : F → F → F
  pub mul : F → F → F
  pub div : F → F → F
  pub greater : F → F → Bool
  pub same : F → F → Bool

pub record HardwareSpec : Type 0 where
  pub cpu_cores : ℕ
  pub ram_mb : ℕ
  pub storage_gb : ℕ
  pub bandwidth_mbps : ℕ
  pub arch : String
  pub gpu : String

pub record NodeRegistration (F : Type 0) : Type 0 where
  pub pub_key : Bytes
  pub tier : String
  pub moniker : String
  pub endpoint : String
  pub region : String
  pub hardware : HardwareSpec
  pub deposit_tx_id : String
  pub registered_at : ℤ
  pub signature : Bytes
  pub status : String
  pub uptime_30d : F
  pub reputation : ℕ
  pub deposit : String

pub record RegisterPayload : Type 0 where
  pub tier : String
  pub moniker : String
  pub endpoint : String
  pub region : String
  pub hardware : HardwareSpec
  pub deposit_tx_id : String
  pub signature : Bytes
  pub deposit : String

pub record RotatePayload : Type 0 where
  pub old_pub_key : Bytes
  pub new_pub_key : Bytes
  pub signature : Bytes

pub record EpochPayload : Type 0 where
  pub max_validators : ℕ

pub record BanPayload : Type 0 where
  pub pub_key : Bytes

-- encoding/json at the stored record and at the payloads
pub record Codec (Raw F : Type 0) : Type 0 where
  pub node : Json Raw (NodeRegistration F)
  pub register : Raw → Option RegisterPayload
  pub rotate : Raw → Option RotatePayload
  pub epoch : Raw → Option EpochPayload
  pub ban : Raw → Option BanPayload
