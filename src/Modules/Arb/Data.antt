-- ===== src/Modules/Arb/Data.antt =====
-- The records of internal/modules/arb/module.go and what JSON makes of them.
use aacp.Prelude.{String, Bool, Option, List, Bytes}
use aacp.Prelude.Int.{ℤ}
use aacp.Codec.{Json}
use aacp.Types.Money.{Money}

pub record Evidence : Type 0 where
  pub submitter : Bytes
  pub evidence_type : String
  pub ipfs_cid : String
  pub inline_data : Bytes
  pub content_hash : String
  pub submitted_at : ℤ
  pub signature : Bytes

pub record Verdict : Type 0 where
  pub winner : String
  pub split_ratio : String
  pub refund_amount : Money
  pub slash_amount : Money
  pub plaintiff_rep_delta : ℤ
  pub defendant_rep_delta : ℤ
  pub ban_defendant : Bool
  pub reasoning : String

pub record VoteRecord : Type 0 where
  pub validator : Bytes
  pub vote : String
  pub reasoning : String
  pub voted_at : ℤ
  pub signature : Bytes

pub record Dispute : Type 0 where
  pub dispute_id : String
  pub order_id : String
  pub task_id : String
  pub plaintiff : Bytes
  pub defendant : Bytes
  pub reason_code : String
  pub description : String
  pub plaintiff_evidence : List Evidence
  pub defendant_evidence : List Evidence
  pub phase : String
  pub status : String
  pub verdict : Verdict
  pub committee_members : List Bytes
  pub committee_votes : List VoteRecord
  pub full_votes : List VoteRecord
  pub filed_at : ℤ
  pub resolved_at : ℤ

pub record FilePayload : Type 0 where
  pub order_id : String
  pub task_id : String
  pub defendant : Bytes
  pub reason_code : String
  pub description : String

pub record EvidencePayload : Type 0 where
  pub dispute_id : String
  pub evidence : Evidence

pub record ResolvePayload : Type 0 where
  pub dispute_id : String

pub record VotePayload : Type 0 where
  pub dispute_id : String
  pub vote : String
  pub reasoning : String

-- encoding/json at the stored records and at the payloads
pub record Codec (Raw : Type 0) : Type 0 where
  pub dispute : Json Raw Dispute
  pub file : Raw → Option FilePayload
  pub evidence : Raw → Option EvidencePayload
  pub resolve : Raw → Option ResolvePayload
  pub vote : Raw → Option VotePayload

abbrev pub phase_auto : String
phase_auto = "PHASE_AUTO"

abbrev pub phase_committee : String
phase_committee = "PHASE_COMMITTEE"

abbrev pub phase_full : String
phase_full = "PHASE_FULL"

abbrev pub filed : String
filed = "DISPUTE_FILED"

abbrev pub auto_resolved : String
auto_resolved = "DISPUTE_AUTO_RESOLVED"

abbrev pub comm_review : String
comm_review = "DISPUTE_COMM_REVIEW"

abbrev pub comm_resolved : String
comm_resolved = "DISPUTE_COMM_RESOLVED"

abbrev pub full_review : String
full_review = "DISPUTE_FULL_REVIEW"

abbrev pub final_resolved : String
final_resolved = "DISPUTE_FINAL_RESOLVED"
