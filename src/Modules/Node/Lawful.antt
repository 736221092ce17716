-- ===== src/Modules/Node/Lawful.antt =====
-- The contract of the block loop, for the node module.
use aacp.Prelude.{String, ◌<>◌, refl, List, [], ◌∷◌}
use aacp.Codec.{Wire}
use aacp.State.Keys.{nonce_key, prefix_node_reg}
use aacp.State.Keys.Laws.{prefixes_apart}
use aacp.App.Lawful.{
  NoNonceKey, Lawful, LawfulHandler, LawfulModule, lawful_rules, Lawful-execute_action, Lawful-pure,
  Lawful-bind, Lawful-put, Lawful-ignore,
}
use aacp.Modules.Node.Data.{Floats, NodeRegistration, Codec}
use aacp.Modules.Node.{
  prefix_node_val, save_node, load_node, register_node, rotate_key, seat_all, elect_validators,
  ban_node, handlers, node, Candidate,
}

node_key-NoNonceKey : (k : String) → NoNonceKey (prefix_node_reg <> k)
unfolding nonce_key
node_key-NoNonceKey k p = prefixes_apart "node/r" "/" "acc/n/" "" k _ refl refl

validator_key-NoNonceKey : (k : String) → NoNonceKey (prefix_node_val <> k)
unfolding nonce_key
validator_key-NoNonceKey k p = prefixes_apart "node/v" "/" "acc/n/" "" k _ refl refl

ruleset keys = (lawful_rules, node_key-NoNonceKey, validator_key-NoNonceKey)

module _ {Raw F : Type 0} (wire : Wire Raw) (floats : Floats F) (codec : Codec Raw F) where
  Lawful-save_node : (n : NodeRegistration F) → Lawful wire (save_node wire floats codec n)
  unfolding save_node
  Lawful-save_node n = search keys

  ruleset saving = (keys, Lawful-save_node)

  Lawful-seat_all :
      (cands : List (Candidate floats)) → Lawful wire (seat_all wire floats codec cands)
  unfolding seat_all
  Lawful-seat_all [] = Lawful-pure wire tt
  Lawful-seat_all (c ∷ cands) =
      Lawful-bind wire _ _ (Lawful-put wire _ _ (validator_key-NoNonceKey _)) λ _.
        Lawful-bind wire _ _ (Lawful-ignore wire _ (Lawful-save_node _)) λ _. Lawful-seat_all cands

  Lawful-register_node : LawfulHandler wire (register_node wire floats codec)
  unfolding register_node
  Lawful-register_node ctx env = search saving depth 12

  Lawful-rotate_key : LawfulHandler wire (rotate_key wire floats codec)
  unfolding rotate_key load_node
  Lawful-rotate_key ctx env = search saving depth 14

  Lawful-elect_validators : LawfulHandler wire (elect_validators wire floats codec)
  unfolding elect_validators
  Lawful-elect_validators ctx env = search (saving, Lawful-seat_all) depth 12

  Lawful-ban_node : LawfulHandler wire (ban_node wire floats codec)
  unfolding ban_node load_node
  Lawful-ban_node ctx env = search saving depth 14

  -- Whatever its transactions are and whatever the store holds, the node module leaves the nonce of
  -- every account alone, in a transaction and at the end of a block, and never fails with the code
  -- of success.
  pub node-LawfulModule : LawfulModule wire (node wire floats codec)
  node-LawfulModule = record {
    executes = Lawful-execute_action wire (handlers wire floats codec) (
      Lawful-register_node,
      (Lawful-rotate_key, (Lawful-elect_validators, (Lawful-ban_node, tt))),
    );
    ends = λ ctx. Lawful-pure wire [];
  }
