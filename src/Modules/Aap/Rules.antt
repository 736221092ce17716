-- ===== src/Modules/Aap/Rules.antt =====
-- internal/modules/aap/module.go: what the handlers compute, apart from the store.
use aacp.Prelude.{
  ℕ, ◌+◌, ◌%◌, ◌^◌, String, ◌<>◌, Bool, ◌&&◌, ◌||◌, [], ◌∷◌, if◌then◌else◌, ltb, leb, ◌==◌, str_eq,
  take,
}
use aacp.Prelude.Int.{ℤ, pos, ltb_ℤ, eqb_ℤ, sub64, add64}
use aacp.Prelude.Encode.{hex, utf8, decimal}
use aacp.Exec.{Error, app}
use aacp.Codec.{Wire}
use aacp.Types.{Event, TxEnvelope, code_aap_base}
use aacp.Types.Money.{Money}
use aacp.App.Router.{Context}
use aacp.Modules.Aap.Data.{
  Task, CreateTaskPayload, SignSlaPayload, HeartbeatPayload, SubmitResultPayload, VerifyPayload,
  created, sla_signed, authorized, executing, submitted, verified, completed, disputed,
}

abbrev pub bad_payload : Error
bad_payload = app (code_aap_base + 1)

abbrev pub refused : Error
refused = app (code_aap_base + 2)

abbrev pub not_ready : Error
not_ready = app (code_aap_base + 23)

-- `types.Money{}`
abbrev no_money : Money
no_money = record { currency = ""; amount = "" }

-- `maxRetries` of `createTask`
unfoldable pub retries_or_default : ℕ → ℕ
retries_or_default n = if n == 0 then 3 else n

module _ {Raw : Type 0} (wire : Wire Raw) where
  unfoldable pub task_id : String → ℕ → String
  task_id order_id nonce = hex (take 8 (wire.sha256 (utf8 (order_id <> (":" <> decimal nonce)))))

  -- `computeEvidenceRoot`
  unfoldable pub compute_evidence_root : Task → String
  compute_evidence_root t = hex (
      wire.sha256 (
        utf8 (t.task_id <> ("|" <> (t.order_id <> ("|" <> (t.result_hash <> ("|" <> t.status))))))))

  -- the task that `createTask` saves
  unfoldable pub new_task : Context → TxEnvelope Raw → CreateTaskPayload → Task
  new_task ctx env p = record {
    task_id = task_id p.order_id env.nonce;
    order_id = p.order_id;
    consumer = p.consumer;
    provider = p.provider;
    sla = record {
      max_latency_ms = p.max_latency;
      min_accuracy = p.min_accuracy;
      max_retries = retries_or_default p.max_retries;
      timeout_sec = p.timeout_sec;
      service_fee = p.service_fee;
      deposit_amount = no_money;
      commission_bps = 1200;
      consumer_sig = [];
      provider_sig = [];
      signed_at = pos 0;
      expires_at = pos 0;
    };
    status = created;
    result_hash = "";
    result_ipfs = "";
    evidence_root = "";
    created_at = ctx.unix;
    sla_signed_at = pos 0;
    started_at = pos 0;
    completed_at = pos 0;
    heartbeat_seq = 0;
    last_heartbeat = pos 0;
    retry_count = 0;
    max_retries = retries_or_default p.max_retries;
    service_fee = p.service_fee;
  }

  -- the assignments of `settleTask`: the root is of the task with its new status
  unfoldable pub settled : Context → Task → Task
  settled ctx t =
      let done = record t { status = completed; completed_at = ctx.unix } in
      record done { evidence_root = compute_evidence_root done }

-- the assignments of the handlers to the task that they have loaded
unfoldable pub signed : Context → SignSlaPayload → Task → Task
signed ctx p t = record t {
  sla = record t.sla {
    consumer_sig = p.consumer_sig;
    provider_sig = p.provider_sig;
    signed_at = ctx.unix;
    expires_at = add64 ctx.unix (pos 1800);
    timeout_sec = if ltb 0 p.timeout_sec then p.timeout_sec else t.sla.timeout_sec;
    commission_bps = if ltb 0 p.commission_bp then p.commission_bp else t.sla.commission_bps;
  };
  status = sla_signed;
  sla_signed_at = ctx.unix;
}

unfoldable pub can_start : Task → Bool
can_start t = str_eq t.status authorized || (str_eq t.status created || str_eq t.status sla_signed)

unfoldable pub beaten : Context → HeartbeatPayload → Task → Task
beaten ctx p t = record t {
  status = if can_start t then executing else t.status;
  started_at = if can_start t then ctx.unix else t.started_at;
  heartbeat_seq = p.seq;
  last_heartbeat = if eqb_ℤ p.timestamp (pos 0) then ctx.unix else p.timestamp;
}

unfoldable pub with_result : SubmitResultPayload → Task → Task
with_result p t = record t {
  result_hash = p.content_hash;
  result_ipfs = p.result_ipfs;
  status = submitted;
}

-- `RetryCount++` on a uint32, and the status that follows
unfoldable pub retried : Task → Task
retried t =
    let count = (t.retry_count + 1) % 2 ^ 32 in
    record t {
      retry_count = count;
      status = if leb t.max_retries count then disputed else authorized;
    }

unfoldable pub judged : VerifyPayload → Task → Task
unfolding retried
judged p t = if p.passed then record t { status = verified } else retried t

unfoldable pub contested : Task → Task
contested t = record t { status = disputed }

-- the test of `EndBlock`
unfoldable pub is_silent : ℤ → Task → Bool
is_silent now t = str_eq t.status executing && ltb_ℤ (pos 180) (sub64 now t.last_heartbeat)

abbrev pub task_failed : Task → Event
task_failed t = record {
  kind = "TaskFailed";
  attributes = ("task_id", t.task_id) ∷ ("reason", "heartbeat_timeout") ∷ [];
}
