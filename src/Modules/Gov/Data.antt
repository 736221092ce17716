-- ===== src/Modules/Gov/Data.antt =====
-- The records of internal/modules/gov/module.go and what JSON makes of them. `Any` is the type of
-- the values that `any` holds; a Go map of votes is an association list.
use aacp.Prelude.{String, Option, List}
use aacp.Prelude.Int.{ℤ}
use aacp.Codec.{Json}

pub record ParamChange (Any : Type 0) : Type 0 where
  pub mod_name : String
  pub key : String
  pub value : Any

pub record Proposal (Any : Type 0) : Type 0 where
  pub proposal_id : String
  pub kind : String
  pub status : String
  pub changes : List (ParamChange Any)
  pub votes : List (String × ℤ)
  pub created_at : ℤ
  pub closed_at : ℤ

pub record CreateProposalPayload (Any : Type 0) : Type 0 where
  pub proposal_id : String
  pub kind : String
  pub changes : List (ParamChange Any)

pub record VotePayload : Type 0 where
  pub proposal_id : String
  pub vote : String

pub record ExecutePayload : Type 0 where
  pub proposal_id : String

-- encoding/json at the stored records and at the payloads
pub record Codec (Raw Any : Type 0) : Type 0 where
  pub proposal : Json Raw (Proposal Any)
  pub value : Json Raw Any
  pub create : Raw → Option (CreateProposalPayload Any)
  pub vote : Raw → Option VotePayload
  pub execute : Raw → Option ExecutePayload

abbrev pub open_status : String
open_status = "OPEN"

abbrev pub executed : String
executed = "EXECUTED"
