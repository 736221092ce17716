-- ===== src/Modules/CapUtxo/Data.antt =====
-- The records of internal/modules/caputxo/module.go and what JSON makes of them.
use aacp.Prelude.{ℕ, String, Bool, Option, List, Bytes}
use aacp.Prelude.Int.{ℤ}
use aacp.Codec.{Json}

pub record CapabilityUtxo : Type 0 where
  pub utxo_id : String
  pub issuer : Bytes
  pub holder : Bytes
  pub cap_type : String
  pub cap_version : String
  pub scopes : List String
  pub issued_at : ℤ
  pub expires_at : ℤ
  pub max_uses : ℕ
  pub used_count : ℕ
  pub delegatable : Bool
  pub max_depth : ℕ
  pub cur_depth : ℕ
  pub parent_utxo : String
  pub status : String
  pub holder_sig : Bytes

pub record MintPayload : Type 0 where
  pub holder : Bytes
  pub cap_type : String
  pub cap_version : String
  pub scopes : List String
  pub expires_at : ℤ
  pub max_uses : ℕ
  pub delegatable : Bool
  pub max_depth : ℕ

pub record SpendPayload : Type 0 where
  pub utxo_id : String
  pub task_id : String
  pub proof_of_use : String

pub record DelegatePayload : Type 0 where
  pub parent_utxo_id : String
  pub new_holder : Bytes
  pub scopes : List String
  pub expires_at : ℤ
  pub max_uses : ℕ

pub record RevokePayload : Type 0 where
  pub utxo_id : String

-- encoding/json at the stored record and at the payloads
pub record Codec (Raw : Type 0) : Type 0 where
  pub utxo : Json Raw CapabilityUtxo
  pub mint : Raw → Option MintPayload
  pub spend : Raw → Option SpendPayload
  pub delegate : Raw → Option DelegatePayload
  pub revoke : Raw → Option RevokePayload

abbrev pub unspent : String
unspent = "UTXO_UNSPENT"

abbrev pub spent : String
spent = "UTXO_SPENT"

abbrev pub expired : String
expired = "UTXO_EXPIRED"

abbrev pub revoked : String
revoked = "UTXO_REVOKED"
