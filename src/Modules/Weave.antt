-- ===== src/Modules/Weave.antt =====
-- internal/modules/weave/module.go: task graphs, their nodes and their progress.
pub mod Data
pub mod Validate
pub mod Lawful
use aacp.Prelude.{
  ℕ, suc, ◌+◌, ◌*◌, ◌/◌, ◌%◌, ◌^◌, String, ◌<>◌, Bool, true, not, ◌&&◌, ◌||◌, Option, none, some,
  List, [], ◌∷◌, ◌++◌, map, if◌then◌else◌, ltb, str_eq, length,
}
use aacp.Prelude.Int.{ℤ, pos, negsuc, ltb_ℤ, sub64, of_bits64}
use aacp.Prelude.Encode.{hex, digit, big_endian}
use aacp.Exec.{
  Error, app, panic, Result, ok, err, Exec, pure, fail, lift, fail_if, or_fail, ◌>>=◌, ◌>>◌,
}
use aacp.Codec.{Wire}
use aacp.State.Keys.{prefix_weave_dag}
use aacp.Types.{Event, ExecTxResult, TxEnvelope, success_result, code_decode_fail, code_weave_base}
use aacp.App.Router.{
  Context, Action, ActionHandler, Module, ignore, list_prefix, decode_payload, save_json, load_json,
  execute_action, common_init_genesis, common_query,
}
use Data.{DagNode, TaskDag, CreateDagPayload, Codec}
use Validate.{validate_dag}

abbrev pub refused : Error
refused = app (code_weave_base + 1)

abbrev pub running : String
running = "DAG_RUNNING"

-- `fmt.Sprintf("%x", n)[:16]` at an int64: nothing where the text is shorter and Go panics
unfoldable pub first_digits : ℤ → Option String
first_digits (pos n) = if ltb n (2 ^ 60) then none else some (hex (big_endian 8 n))
first_digits (negsuc n) =
    if ltb (suc n) (2 ^ 56)
    then none
    else if ltb (suc n) (2 ^ 60)
    then some ("-" <> (digit (suc n / 2 ^ 56) <> hex (big_endian 7 (suc n))))
    else some ("-" <> (digit (suc n / 2 ^ 60) <> hex (big_endian 7 (suc n / 16))))

-- the id of a new graph
unfoldable pub id_or_time : String → Context → Option String
id_or_time id ctx = if str_eq id "" then first_digits ctx.unix_nano else some id

unfoldable pub new_dag :
    {Raw : Type 0} → Context → TxEnvelope Raw → CreateDagPayload → String → TaskDag
new_dag ctx env p id = record {
  dag_id = id;
  root_task = p.root_task;
  orchestrator = env.sender;
  nodes = p.nodes;
  edges = p.edges;
  status = "DAG_PENDING";
  created_at = ctx.unix;
  started_at = pos 0;
  finished_at = pos 0;
  global_timeout_sec = p.global_timeout_sec;
}

-- the body of the loop of `progressDag`
unfoldable pub progress_node : ℤ → DagNode → DagNode
progress_node now n =
    if str_eq n.status "NODE_PENDING" || str_eq n.status "NODE_READY"
    then record n { status = "NODE_RUNNING"; started_at = now }
    else if str_eq n.status "NODE_RUNNING"
    then record n { status = "NODE_COMPLETED"; finished_at = now }
    else n

unfoldable pub all_done : List DagNode → Bool
all_done [] = true
all_done (n ∷ nodes) =
    (str_eq n.status "NODE_COMPLETED" || str_eq n.status "NODE_SKIPPED") && all_done nodes

unfoldable pub progress_dag : TaskDag → ℤ → TaskDag
progress_dag dag now =
    let moved = record dag { nodes = map (progress_node now) dag.nodes } in
    if all_done moved.nodes
    then record moved { status = "DAG_COMPLETED"; finished_at = now }
    else moved

-- the change of the first node with an id
unfoldable pub update_node : String → (DagNode → DagNode) → List DagNode → List DagNode
update_node id f [] = []
update_node id f (n ∷ nodes) =
    if str_eq n.node_id id then f n ∷ nodes else n ∷ update_node id f nodes

unfoldable pub started : Context → TaskDag → TaskDag
started ctx dag = record dag {
  status = running;
  started_at = ctx.unix;
  nodes = map (λ (n : DagNode). record n { status = "NODE_PENDING" }) dag.nodes;
}

-- the test of `EndBlock`: an int64 difference against an int64 conversion
unfoldable pub timed_out : ℤ → TaskDag → Bool
timed_out now dag =
    ltb 0 dag.global_timeout_sec
    && ltb_ℤ (of_bits64 (dag.global_timeout_sec % 2 ^ 64)) (sub64 now dag.started_at)

abbrev pub dag_failed : TaskDag → Event
dag_failed dag = record {
  kind = "DAGFailed";
  attributes = ("dag_id", dag.dag_id) ∷ ("reason", "global_timeout") ∷ [];
}

abbrev pub dag_completed : TaskDag → Event
dag_completed dag = record { kind = "DAGCompleted"; attributes = ("dag_id", dag.dag_id) ∷ [] }

-- the error of `createDAG` where the graph is not valid
unfoldable pub require_valid : {Raw : Type 0} → Result (Unit {0}) → Action Raw (Unit {0})
require_valid (err e) = fail (app code_weave_base)
require_valid (ok _) = pure tt

module _ {Raw : Type 0} (codec : Codec Raw) where
  unfoldable pub save_dag : TaskDag → Action Raw Unit
  save_dag dag = save_json codec.dag (app code_decode_fail) (prefix_weave_dag <> dag.dag_id) dag

  unfoldable pub load_dag : String → Action Raw TaskDag
  load_dag id = load_json codec.dag refused (app code_decode_fail) (prefix_weave_dag <> id)

  unfoldable pub create_dag : ActionHandler Raw
  create_dag ctx env = do
    p ← decode_payload codec.create refused env.payload
    id ← lift (or_fail panic (id_or_time p.dag_id ctx))
    let dag = new_dag ctx env p id
    require_valid (validate_dag dag)
    save_dag dag
    pure (success_result ((3000 + 500 * length dag.nodes) % 2 ^ 64) [])

  unfoldable pub start_dag : ActionHandler Raw
  start_dag ctx env = do
    p ← decode_payload codec.simple refused env.payload
    dag ← load_dag p.dag_id
    fail_if (not (str_eq dag.status "DAG_PENDING")) refused
    save_dag (started ctx dag)
    pure (success_result 2000 [])

  unfoldable pub update_node_status : ActionHandler Raw
  update_node_status ctx env = do
    p ← decode_payload codec.node_status refused env.payload
    dag ← load_dag p.dag_id
    let update = λ (n : DagNode). record n { status = p.status; finished_at = ctx.unix }
    save_dag (record dag { nodes = update_node p.node_id update dag.nodes })
    pure (success_result 1000 [])

  unfoldable pub cancel_dag : ActionHandler Raw
  cancel_dag ctx env = do
    p ← decode_payload codec.simple refused env.payload
    dag ← load_dag p.dag_id
    save_dag (record dag { status = "DAG_CANCELED"; finished_at = ctx.unix })
    pure (success_result 2000 [])

  unfoldable pub submit_node_output : ActionHandler Raw
  submit_node_output ctx env = do
    p ← decode_payload codec.node_output refused env.payload
    dag ← load_dag p.dag_id
    let update = λ (n : DagNode). record n {
      output_ref = p.output_ref;
      status = "NODE_COMPLETED";
      finished_at = ctx.unix;
    }
    save_dag (record dag { nodes = update_node p.node_id update dag.nodes })
    pure (success_result 2000 [])

  -- one turn of the loop of `EndBlock`, at what `Unmarshal` makes of the value
  unfoldable pub fail_dag : ℤ → TaskDag → Action Raw (List Event)
  fail_dag now dag = do
    ignore (save_dag (record dag { status = "DAG_FAILED"; finished_at = now }))
    pure (dag_failed dag ∷ [])

  unfoldable pub progress : ℤ → TaskDag → Action Raw (List Event)
  progress now dag = do
    ignore (save_dag (progress_dag dag now))
    pure (
        if str_eq (progress_dag dag now).status "DAG_COMPLETED" then dag_completed dag ∷ [] else [])

  unfoldable pub step_dag : ℤ → TaskDag → Action Raw (List Event)
  step_dag now dag = if timed_out now dag then fail_dag now dag else progress now dag

  unfoldable pub check_dag : ℤ → Option TaskDag → Action Raw (List Event)
  check_dag now none = pure []
  check_dag now (some dag) = if str_eq dag.status running then step_dag now dag else pure []

  unfoldable pub check_dags : ℤ → List (String × Raw) → Action Raw (List Event)
  check_dags now [] = pure []
  check_dags now ((_, raw) ∷ dags) = do
    events ← check_dag now (codec.dag.unmarshal raw)
    rest ← check_dags now dags
    pure (events ++ rest)

  unfoldable pub end_block : Context → Action Raw (List Event)
  end_block ctx = do dags ← list_prefix prefix_weave_dag; check_dags ctx.unix dags

  abbrev pub handlers : List (String × ActionHandler Raw)
  handlers =
      ("create_dag", create_dag)
      ∷ ("start_dag", start_dag)
      ∷ ("update_node_status", update_node_status)
      ∷ ("cancel_dag", cancel_dag)
      ∷ ("submit_node_output", submit_node_output)
      ∷ []

module _ {Raw : Type 0} (wire : Wire Raw) (codec : Codec Raw) where
  -- `New` and the methods that forward to `common.Module`
  abbrev pub weave : Module Raw
  weave = record {
    name = "weave";
    init_genesis = λ ctx raw. common_init_genesis wire "weave" raw;
    execute_tx = execute_action (handlers codec);
    end_block = end_block codec;
    query = common_query;
  }
