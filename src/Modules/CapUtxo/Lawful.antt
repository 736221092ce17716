-- ===== src/Modules/CapUtxo/Lawful.antt =====
-- The contract of the block loop, for the capability module.
use aacp.Prelude.{ℕ, String, ◌<>◌, refl, Option, none, some, List, [], ◌∷◌, ◌++◌, zero, suc}
use aacp.Prelude.Int.{ℤ}
use aacp.Codec.{Wire}
use aacp.State.Keys.{utxo_key, nonce_key, prefix_cap_holder, prefix_cap_type, prefix_cap_derive}
use aacp.State.Keys.Laws.{prefix_apart}
use aacp.App.Lawful.{
  NoNonceKey, Lawful, Lawful-if, LawfulHandler, LawfulModule, lawful_rules, Lawful-execute_action,
  Lawful-pure, Lawful-bind, Lawful-list_prefix,
}
use aacp.Modules.CapUtxo.Data.{CapabilityUtxo, Codec, expired}
use aacp.App.Router.{Action}
use aacp.Types.{Event}
use aacp.Modules.CapUtxo.{
  last, split_path, save_utxo, load_utxo, mint, spend, expire_spend, spend_once, delegate,
  mark_child, visit_child, is_due, expired_event, expire_due, cascade_child, cascade_children,
  cascade_fuel, cascade, expire_one, revoke, expire_all, expire_at_time, batch_expire, cap_utxo,
  handlers,
}

utxo_key-NoNonceKey : (id : String) → NoNonceKey (utxo_key id)
unfolding utxo_key nonce_key
utxo_key-NoNonceKey id p = prefix_apart "cap/u/" "acc/n/" id _ refl refl

holder_key-NoNonceKey : (k : String) → NoNonceKey (prefix_cap_holder <> k)
unfolding nonce_key
holder_key-NoNonceKey k p = prefix_apart "cap/h/" "acc/n/" k _ refl refl

type_key-NoNonceKey : (k : String) → NoNonceKey (prefix_cap_type <> k)
unfolding nonce_key
type_key-NoNonceKey k p = prefix_apart "cap/t/" "acc/n/" k _ refl refl

derive_key-NoNonceKey : (k : String) → NoNonceKey (prefix_cap_derive <> k)
unfolding nonce_key
derive_key-NoNonceKey k p = prefix_apart "cap/d/" "acc/n/" k _ refl refl

ruleset keys = (
  lawful_rules, utxo_key-NoNonceKey, holder_key-NoNonceKey, type_key-NoNonceKey,
  derive_key-NoNonceKey,
)

module _ {Raw : Type 0} (wire : Wire Raw) (codec : Codec Raw) where
  Lawful-save_utxo : (u : CapabilityUtxo) → Lawful wire (save_utxo wire codec u)
  unfolding save_utxo
  Lawful-save_utxo u = search keys

  Lawful-load_utxo : (id : String) → Lawful wire (load_utxo wire codec id)
  unfolding load_utxo
  Lawful-load_utxo id = search keys

  Lawful-mint : LawfulHandler wire (mint wire codec)
  unfolding mint
  Lawful-mint ctx env = search (keys, Lawful-save_utxo) depth 12

  Lawful-expire_spend : (u : CapabilityUtxo) → Lawful wire (expire_spend wire codec u)
  unfolding expire_spend
  Lawful-expire_spend u = search (keys, Lawful-save_utxo)

  Lawful-spend_once : (u : CapabilityUtxo) → Lawful wire (spend_once wire codec u)
  unfolding spend_once
  Lawful-spend_once u = search (keys, Lawful-save_utxo)

  Lawful-spend : LawfulHandler wire (spend wire codec)
  unfolding spend
  Lawful-spend ctx env =
      search (keys, Lawful-load_utxo, Lawful-expire_spend, Lawful-spend_once) depth 10

  Lawful-delegate : LawfulHandler wire (delegate wire codec)
  unfolding delegate
  Lawful-delegate ctx env = search (keys, Lawful-load_utxo, Lawful-save_utxo) depth 14

  Lawful-mark_child :
      (next : String → Action Raw (List String)) (status id : String) (u : CapabilityUtxo)
      → ((id : String) → Lawful wire (next id))
      → Lawful wire (mark_child wire codec next status id u)
  unfolding mark_child
  Lawful-mark_child next status id u h = search (keys, Lawful-save_utxo, h) depth 10

  Lawful-visit_child :
      (next : String → Action Raw (List String)) (status id : String) (u : CapabilityUtxo)
      → ((id : String) → Lawful wire (next id))
      → Lawful wire (visit_child wire codec next status id u)
  unfolding visit_child
  Lawful-visit_child next status id u h = search (keys, Lawful-mark_child, h)

  Lawful-cascade_child :
      (next : String → Action Raw (List String)) (status : String) (o : Option String)
      (rest : Action Raw (List String))
      → ((id : String) → Lawful wire (next id))
      → Lawful wire rest
      → Lawful wire (cascade_child wire codec next status o rest)
  unfolding cascade_child
  Lawful-cascade_child next status none rest h k = k
  Lawful-cascade_child next status (some id) rest h k =
      Lawful-bind wire _ _ (Lawful-load_utxo id) λ u.
        Lawful-bind wire _ _ (Lawful-visit_child next status id u h)
          λ affected. Lawful-bind wire rest _ k λ others. Lawful-pure wire (affected ++ others)

  Lawful-cascade_children :
      (next : String → Action Raw (List String)) (status : String) (children : List (String × Raw))
      → ((id : String) → Lawful wire (next id))
      → Lawful wire (cascade_children wire codec next status children)
  unfolding cascade_children
  Lawful-cascade_children next status [] h = Lawful-pure wire []
  Lawful-cascade_children next status ((key, raw) ∷ children) h =
      Lawful-cascade_child next status (last (split_path key)) _ h
        (Lawful-cascade_children next status children h)

  Lawful-cascade_fuel :
      (f : ℕ) (status parent : String) → Lawful wire (cascade_fuel wire codec f status parent)
  unfolding cascade_fuel
  Lawful-cascade_fuel zero status parent = search keys
  Lawful-cascade_fuel (suc f) status parent =
      Lawful-bind wire _ _ (Lawful-list_prefix wire _) λ children.
        Lawful-cascade_children (cascade_fuel wire codec f status) status children
          (Lawful-cascade_fuel f status)

  Lawful-cascade : (status parent : String) → Lawful wire (cascade wire codec status parent)
  unfolding cascade
  Lawful-cascade status parent = search (keys, Lawful-cascade_fuel)

  Lawful-revoke : LawfulHandler wire (revoke wire codec)
  unfolding revoke
  Lawful-revoke ctx env = search (keys, Lawful-load_utxo, Lawful-save_utxo, Lawful-cascade) depth 12

  Lawful-expire_due :
      (u : CapabilityUtxo) (rest : Action Raw (List Event))
      → Lawful wire rest
      → Lawful wire (expire_due wire codec u rest)
  unfolding expire_due
  Lawful-expire_due u rest k =
      Lawful-bind wire _ _ (Lawful-save_utxo (record u { status = expired })) λ _.
        Lawful-bind wire _ _ (Lawful-cascade expired u.utxo_id) λ _.
          Lawful-bind wire rest _ k λ events. Lawful-pure wire (expired_event u.utxo_id ∷ events)

  Lawful-expire_one :
      (now : ℤ) (o : Option CapabilityUtxo) (rest : Action Raw (List Event))
      → Lawful wire rest
      → Lawful wire (expire_one wire codec now o rest)
  unfolding expire_one
  Lawful-expire_one now none rest k = k
  Lawful-expire_one now (some u) rest k =
      Lawful-if wire (is_due now u) (expire_due wire codec u rest) rest (Lawful-expire_due u rest k)
        k

  Lawful-expire_all :
      (now : ℤ) (candidates : List (String × Raw))
      → Lawful wire (expire_all wire codec now candidates)
  unfolding expire_all
  Lawful-expire_all now [] = Lawful-pure wire []
  Lawful-expire_all now ((key, raw) ∷ candidates) =
      Lawful-expire_one now (codec.utxo.unmarshal raw) _ (Lawful-expire_all now candidates)

  Lawful-expire_at_time : (now : ℤ) → Lawful wire (expire_at_time wire codec now)
  unfolding expire_at_time
  Lawful-expire_at_time now = search (keys, Lawful-expire_all)

  Lawful-batch_expire : LawfulHandler wire (batch_expire wire codec)
  unfolding batch_expire
  Lawful-batch_expire ctx env = search (keys, Lawful-expire_at_time)

  -- Whatever its transactions are and whatever the store holds, the capability module leaves the
  -- nonce of every account alone, in a transaction and at the end of a block, and never fails with
  -- the code of success.
  pub cap_utxo-LawfulModule : LawfulModule wire (cap_utxo wire codec)
  cap_utxo-LawfulModule = record {
    executes = Lawful-execute_action wire (handlers wire codec) (
      Lawful-mint,
      (Lawful-spend, (Lawful-delegate, (Lawful-revoke, (Lawful-batch_expire, tt)))),
    );
    ends = λ ctx. Lawful-expire_at_time ctx.unix;
  }
