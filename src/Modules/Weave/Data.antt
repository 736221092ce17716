-- ===== src/Modules/Weave/Data.antt =====
-- The records of internal/modules/weave/module.go and what JSON makes of them.
use aacp.Prelude.{ℕ, String, Option, List, Bytes}
use aacp.Prelude.Int.{ℤ}
use aacp.Codec.{Json}

pub record DagNode : Type 0 where
  pub node_id : String
  pub kind : String
  pub sub_task_id : String
  pub listing_id : String
  pub status : String
  pub retry_count : ℕ
  pub max_retries : ℕ
  pub started_at : ℤ
  pub finished_at : ℤ
  pub output_ref : String

pub record DagEdge : Type 0 where
  pub from_node : String
  pub to_node : String
  pub condition : String

pub record TaskDag : Type 0 where
  pub dag_id : String
  pub root_task : String
  pub orchestrator : Bytes
  pub nodes : List DagNode
  pub edges : List DagEdge
  pub status : String
  pub created_at : ℤ
  pub started_at : ℤ
  pub finished_at : ℤ
  pub global_timeout_sec : ℕ

pub record CreateDagPayload : Type 0 where
  pub dag_id : String
  pub root_task : String
  pub nodes : List DagNode
  pub edges : List DagEdge
  pub global_timeout_sec : ℕ

pub record SimpleDagPayload : Type 0 where
  pub dag_id : String

pub record NodeStatusPayload : Type 0 where
  pub dag_id : String
  pub node_id : String
  pub status : String

pub record NodeOutputPayload : Type 0 where
  pub dag_id : String
  pub node_id : String
  pub output_ref : String

-- encoding/json at the stored record and at the payloads
pub record Codec (Raw : Type 0) : Type 0 where
  pub dag : Json Raw TaskDag
  pub create : Raw → Option CreateDagPayload
  pub simple : Raw → Option SimpleDagPayload
  pub node_status : Raw → Option NodeStatusPayload
  pub node_output : Raw → Option NodeOutputPayload
