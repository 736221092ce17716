-- ===== src/Modules/Aap.antt =====
-- internal/modules/aap/module.go: the life of a task, from its creation to its settlement.
pub mod Data
pub mod Rules
pub mod Lawful
pub mod Moves
pub mod Store
pub mod Progress
pub mod History
use aacp.Prelude.{
  ℕ, ◌+◌, ◌%◌, ◌^◌, String, ◌<>◌, Bool, not, ◌&&◌, ◌||◌, Option, none, some, List, [], ◌∷◌, ◌++◌,
  if◌then◌else◌, ltb, leb, ◌==◌, str_eq, take, equal_bytes,
}
use aacp.Prelude.Int.{ℤ, pos, ltb_ℤ, eqb_ℤ, sub64, add64}
use aacp.Prelude.Encode.{hex, utf8, decimal}
use aacp.Exec.{Error, app, pure, fail_if, ◌>>=◌, ◌>>◌}
use aacp.Codec.{Wire}
use aacp.State.Keys.{task_key, heartbeat_key, prefix_aap_task, prefix_aap_evidence}
use aacp.Types.{Event, ExecTxResult, TxEnvelope, success_result, code_decode_fail, code_aap_base}
use aacp.Types.Money.{Money}
use aacp.App.Router.{
  Context, Action, ActionHandler, Module, emit, put, ignore, list_prefix, decode_payload, save_json,
  load_json, execute_action, common_init_genesis, common_query,
}
use Data.{
  Sla, Task, CreateTaskPayload, SignSlaPayload, HeartbeatPayload, SubmitResultPayload,
  VerifyPayload, Codec, created, sla_signed, authorized, executing, submitted, verifying, verified,
  completed, disputed, failed,
}
unfoldable pub use Rules.{
  retries_or_default, task_id, compute_evidence_root, new_task, settled, signed, can_start, beaten,
  with_result, retried, judged, contested, is_silent,
}
pub use Rules.{bad_payload, refused, not_ready, task_failed}

module _ {Raw : Type 0} (wire : Wire Raw) (codec : Codec Raw) where
  unfoldable pub save_task : Task → Action Raw Unit
  save_task t = save_json codec.task (app code_decode_fail) (task_key t.task_id) t

  unfoldable pub load_task : String → Action Raw Task
  load_task id = load_json codec.task (app code_aap_base) (app code_decode_fail) (task_key id)

  unfoldable pub create_task : ActionHandler Raw
  create_task ctx env = do
    p ← decode_payload codec.create bad_payload env.payload
    let task = new_task wire ctx env p
    save_task task
    pure (
        success_result 3000 (
          record {
            kind = "TaskCreated";
            attributes = ("task_id", task.task_id) ∷ ("order_id", p.order_id) ∷ [];
          }
          ∷ []))

  unfoldable pub sign_sla : ActionHandler Raw
  sign_sla ctx env = do
    p ← decode_payload codec.sign bad_payload env.payload
    task ← load_task p.task_id
    fail_if (not (str_eq task.status created)) refused
    save_task (signed ctx p task)
    pure (success_result 2000 [])

  unfoldable pub submit_heartbeat : ActionHandler Raw
  submit_heartbeat ctx env = do
    p ← decode_payload codec.heartbeat.unmarshal bad_payload env.payload
    task ← load_task p.task_id
    fail_if (not (equal_bytes task.provider env.sender)) refused
    fail_if (leb p.seq task.heartbeat_seq) refused
    ignore (save_json codec.heartbeat (app code_decode_fail) (heartbeat_key task.task_id p.seq) p)
    save_task (beaten ctx p task)
    pure (success_result 500 [])

  unfoldable pub submit_result : ActionHandler Raw
  submit_result ctx env = do
    p ← decode_payload codec.submit bad_payload env.payload
    task ← load_task p.task_id
    fail_if (not (equal_bytes task.provider env.sender)) refused
    save_task (with_result p task)
    pure (success_result 5000 [])

  unfoldable pub verify_result : ActionHandler Raw
  verify_result ctx env = do
    p ← decode_payload codec.verify bad_payload env.payload
    task ← load_task p.task_id
    fail_if (not (str_eq task.status submitted) && not (str_eq task.status verifying)) not_ready
    save_task (judged p task)
    pure (success_result 3000 [])

  unfoldable pub settle_task : ActionHandler Raw
  settle_task ctx env = do
    p ← decode_payload codec.settle bad_payload env.payload
    task ← load_task p.task_id
    fail_if (not (str_eq task.status verified)) not_ready
    let done = settled wire ctx task
    save_task done
    put (prefix_aap_evidence <> done.task_id) (wire.of_bytes (utf8 done.evidence_root))
    pure (
        success_result 4000
          (record { kind = "TaskCompleted"; attributes = ("task_id", done.task_id) ∷ [] } ∷ []))

  unfoldable pub file_dispute : ActionHandler Raw
  file_dispute ctx env = do
    p ← decode_payload codec.dispute bad_payload env.payload
    task ← load_task p.task_id
    save_task (contested task)
    emit (record {
      kind = "DisputeFiled";
      attributes = ("task_id", task.task_id) ∷ ("reason", p.reason) ∷ [];
    })
    pure (success_result 3000 [])

  -- one turn of the loop of `EndBlock`, at what `Unmarshal` makes of the value
  unfoldable pub fail_silent : Task → Action Raw (List Event)
  fail_silent t = do ignore (save_task (record t { status = failed })); pure (task_failed t ∷ [])

  unfoldable pub check_task : ℤ → Option Task → Action Raw (List Event)
  check_task now none = pure []
  check_task now (some t) = if is_silent now t then fail_silent t else pure []

  unfoldable pub check_tasks : ℤ → List (String × Raw) → Action Raw (List Event)
  check_tasks now [] = pure []
  check_tasks now ((_, raw) ∷ tasks) = do
    failures ← check_task now (codec.task.unmarshal raw)
    rest ← check_tasks now tasks
    pure (failures ++ rest)

  unfoldable pub end_block : Context → Action Raw (List Event)
  end_block ctx = do active ← list_prefix prefix_aap_task; check_tasks ctx.unix active

  -- `Handlers`: the creation of a task, and what happens to one
  abbrev pub task_handlers : List (String × ActionHandler Raw)
  task_handlers =
      ("sign_sla", sign_sla)
      ∷ ("submit_heartbeat", submit_heartbeat)
      ∷ ("submit_result", submit_result)
      ∷ ("verify_result", verify_result)
      ∷ ("settle_task", settle_task)
      ∷ ("file_dispute", file_dispute)
      ∷ []

  abbrev pub handlers : List (String × ActionHandler Raw)
  handlers = ("create_task", create_task) ∷ task_handlers

  -- `New` and the methods that forward to `common.Module`
  abbrev pub aap : Module Raw
  aap = record {
    name = "aap";
    init_genesis = λ ctx raw. common_init_genesis wire "aap" raw;
    execute_tx = execute_action handlers;
    end_block = end_block;
    query = common_query;
  }
