-- ===== src/Modules/Node.antt =====
-- internal/modules/node/module.go: the registrations of nodes and the election of validators.
pub mod Data
pub mod Rules
pub mod Lawful
pub mod Election
use aacp.Prelude.{ℕ, ◌+◌, String, ◌<>◌, not, List, [], ◌∷◌, equal_bytes, Bytes}
use aacp.Prelude.Int.{ℤ, pos, negsuc}
use aacp.Prelude.Encode.{hex, utf8, show_int}
use aacp.Exec.{app, plain, pure, fail_if, ◌>>=◌, ◌>>◌}
use aacp.Codec.{Wire}
use aacp.State.Keys.{prefix_node_reg}
use aacp.Types.{ExecTxResult, TxEnvelope, success_result, code_node_base}
use aacp.App.Router.{
  Context, Action, ActionHandler, Module, put, ignore, list_prefix, decode_payload, save_json,
  load_json, execute_action, common_init_genesis, common_query,
}
use Data.{Floats, NodeRegistration, Codec}
unfoldable pub use Rules.{validate_hardware, new_node, eligible_nodes, elected}
pub use Rules.{Candidate}

-- state.PrefixNodeVal
abbrev pub prefix_node_val : String
prefix_node_val = "node/v/"

module _ {Raw F : Type 0} (wire : Wire Raw) (floats : Floats F) (codec : Codec Raw F) where
  unfoldable pub save_node : NodeRegistration F → Action Raw Unit
  save_node n = save_json codec.node plain (prefix_node_reg <> hex n.pub_key) n

  unfoldable pub load_node : Bytes → Action Raw (NodeRegistration F)
  load_node pub_key =
      load_json codec.node (app code_node_base) plain (prefix_node_reg <> hex pub_key)

  unfoldable pub register_node : ActionHandler Raw
  register_node ctx env = do
    p ← decode_payload codec.register (app (code_node_base + 1)) env.payload
    fail_if (not (validate_hardware p.tier p.hardware)) (app (code_node_base + 81))
    save_node (new_node floats ctx env p)
    pure (success_result 2000 [])

  unfoldable pub rotate_key : ActionHandler Raw
  rotate_key ctx env = do
    p ← decode_payload codec.rotate (app (code_node_base + 1)) env.payload
    old ← load_node p.old_pub_key
    fail_if (not (equal_bytes old.pub_key env.sender)) (app (code_node_base + 1))
    save_node (record old { pub_key = p.new_pub_key })
    pure (success_result 2000 [])

  -- the last loop of `electValidators`
  unfoldable pub seat_all : List (Candidate floats) → Action Raw Unit
  unfolding show_int
  seat_all [] = pure tt
  seat_all (c ∷ cands) = do
    put (prefix_node_val <> hex c.node.pub_key) (
        wire.of_bytes
          (utf8 (show_int (floats.to_int (floats.mul c.score (floats.constant 100 1))))))
    ignore (save_node (record c.node { status = "ACTIVE_VALIDATOR" }))
    seat_all cands

  unfoldable pub elect_validators : ActionHandler Raw
  elect_validators ctx env = do
    p ← decode_payload codec.epoch (app (code_node_base + 1)) env.payload
    all ← list_prefix prefix_node_reg
    seat_all (elected floats p (eligible_nodes floats codec.node all))
    pure (success_result 5000 [])

  unfoldable pub ban_node : ActionHandler Raw
  ban_node ctx env = do
    p ← decode_payload codec.ban plain env.payload
    n ← load_node p.pub_key
    save_node (record n { status = "BANNED" })
    pure (success_result 2000 [])

  abbrev pub handlers : List (String × ActionHandler Raw)
  handlers =
      ("register_node", register_node)
      ∷ ("rotate_key", rotate_key)
      ∷ ("elect_validators", elect_validators)
      ∷ ("ban_node", ban_node)
      ∷ []

  -- `New` and the methods that forward to `common.Module`
  abbrev pub node : Module Raw
  node = record {
    name = "node";
    init_genesis = λ ctx raw. common_init_genesis wire "node" raw;
    execute_tx = execute_action handlers;
    end_block = λ ctx. pure [];
    query = common_query;
  }
