-- ===== src/Modules/Aap/Data.antt =====
-- The records of internal/modules/aap/module.go and what JSON makes of them. A float32 stands for
-- the bits that are carried along.
use aacp.Prelude.{ℕ, String, Bool, Option, Bytes}
use aacp.Prelude.Int.{ℤ}
use aacp.Codec.{Json}
use aacp.Types.Money.{Money}

pub record Sla : Type 0 where
  pub max_latency_ms : ℕ
  pub min_accuracy : ℕ
  pub max_retries : ℕ
  pub timeout_sec : ℕ
  pub service_fee : Money
  pub deposit_amount : Money
  pub commission_bps : ℕ
  pub consumer_sig : Bytes
  pub provider_sig : Bytes
  pub signed_at : ℤ
  pub expires_at : ℤ

pub record Task : Type 0 where
  pub task_id : String
  pub order_id : String
  pub consumer : Bytes
  pub provider : Bytes
  pub sla : Sla
  pub status : String
  pub result_hash : String
  pub result_ipfs : String
  pub evidence_root : String
  pub created_at : ℤ
  pub sla_signed_at : ℤ
  pub started_at : ℤ
  pub completed_at : ℤ
  pub heartbeat_seq : ℕ
  pub last_heartbeat : ℤ
  pub retry_count : ℕ
  pub max_retries : ℕ
  pub service_fee : Money

pub record CreateTaskPayload : Type 0 where
  pub order_id : String
  pub consumer : Bytes
  pub provider : Bytes
  pub max_retries : ℕ
  pub service_fee : Money
  pub timeout_sec : ℕ
  pub max_latency : ℕ
  pub min_accuracy : ℕ

pub record SignSlaPayload : Type 0 where
  pub task_id : String
  pub consumer_sig : Bytes
  pub provider_sig : Bytes
  pub timeout_sec : ℕ
  pub commission_bp : ℕ

pub record HeartbeatPayload : Type 0 where
  pub task_id : String
  pub seq : ℕ
  pub progress : ℕ
  pub status_msg : String
  pub timestamp : ℤ
  pub signature : Bytes

pub record SubmitResultPayload : Type 0 where
  pub task_id : String
  pub result_data : Bytes
  pub result_ipfs : String
  pub content_hash : String

pub record VerifyPayload : Type 0 where
  pub task_id : String
  pub passed : Bool
  pub reason : String
  pub verifier : Bytes

pub record SettlePayload : Type 0 where
  pub task_id : String

pub record DisputePayload : Type 0 where
  pub task_id : String
  pub reason : String

-- encoding/json at the stored records and at the payloads
pub record Codec (Raw : Type 0) : Type 0 where
  pub task : Json Raw Task
  pub heartbeat : Json Raw HeartbeatPayload
  pub create : Raw → Option CreateTaskPayload
  pub sign : Raw → Option SignSlaPayload
  pub submit : Raw → Option SubmitResultPayload
  pub verify : Raw → Option VerifyPayload
  pub settle : Raw → Option SettlePayload
  pub dispute : Raw → Option DisputePayload

abbrev pub created : String
created = "TASK_CREATED"

abbrev pub sla_signed : String
sla_signed = "TASK_SLA_SIGNED"

abbrev pub authorized : String
authorized = "TASK_AUTHORIZED"

abbrev pub executing : String
executing = "TASK_EXECUTING"

abbrev pub submitted : String
submitted = "TASK_SUBMIT_RESULT"

abbrev pub verifying : String
verifying = "TASK_VERIFYING"

abbrev pub verified : String
verified = "TASK_VERIFIED"

abbrev pub completed : String
completed = "TASK_COMPLETED"

abbrev pub disputed : String
disputed = "TASK_DISPUTED"

abbrev pub failed : String
failed = "TASK_FAILED"
