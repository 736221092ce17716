-- ===== src/Modules/CapUtxo.antt =====
-- internal/modules/caputxo/module.go: capabilities that are minted, spent, delegated and revoked.
pub mod Data
pub mod Rules
pub mod Lawful
pub mod Store
pub mod Delegation
pub mod Spending
use Prim.Native.String.{len}
use Prim.Native.Char.{code}
use aacp.Prelude.{
  ℕ, zero, suc, ◌+◌, ◌*◌, ◌%◌, ◌^◌, String, ◌<>◌, Bool, true, false, not, ◌&&◌, ◌||◌, Option, none,
  some, List, [], ◌∷◌, ◌++◌, if◌then◌else◌, ltb, leb, ◌==◌, str_eq, Bytes, length, take,
  equal_bytes,
}
use aacp.Prelude.Int.{ℤ, pos, ltb_ℤ, leb_ℤ, eqb_ℤ}
use aacp.Prelude.Encode.{hex, utf8, decimal}
use aacp.Exec.{
  Error, app, plain, Result, ok, err, Exec, pure, fail, lift, gets, modify, fail_if, or_fail, ◌>>=◌,
  ◌>>◌,
}
use aacp.Codec.{Json, Wire}
use aacp.State.Keys.{
  utxo_key, prefix_cap_utxo, prefix_cap_holder, prefix_cap_type, prefix_cap_derive,
}
use aacp.Types.{
  Event, ExecTxResult, TxEnvelope, success_result, contains, code_decode_fail, code_cap_utxo_base,
}
use aacp.App.Router.{
  Context, Action, ActionHandler, Module, put, ignore, list_prefix, decode_payload, save_json,
  load_json, execute_action, common_init_genesis, common_query,
}
use Data.{
  CapabilityUtxo, MintPayload, SpendPayload, DelegatePayload, RevokePayload, Codec, unspent, spent,
  expired, revoked,
}
unfoldable pub use Rules.{
  all_contained, is_subset, split_from, split_path, last, utxo_id, delegated_utxo_id, minted,
  delegated, use_once, has_expired, is_due,
}
pub use Rules.{u32, expired_event, bad_payload, mismatch, not_delegatable}

module _ {Raw : Type 0} (wire : Wire Raw) (codec : Codec Raw) where
  unfoldable pub save_utxo : CapabilityUtxo → Action Raw Unit
  save_utxo u = save_json codec.utxo (app code_decode_fail) (utxo_key u.utxo_id) u

  unfoldable pub load_utxo : String → Action Raw CapabilityUtxo
  load_utxo id = load_json codec.utxo (app code_cap_utxo_base) (app code_decode_fail) (utxo_key id)

  -- `[]byte{1}`
  abbrev mark : Raw
  mark = wire.of_bytes (1 ∷ [])

  unfoldable pub mint : ActionHandler Raw
  mint ctx env = do
    p ← decode_payload codec.mint bad_payload env.payload
    fail_if (length p.holder == 0 || (str_eq p.cap_type "" || length p.scopes == 0)) bad_payload
    let utxo = minted wire ctx env p
    fail_if (utxo.delegatable && utxo.max_depth == 0) mismatch
    save_utxo utxo
    put (prefix_cap_holder <> (hex utxo.holder <> ("/" <> utxo.utxo_id))) mark
    put (prefix_cap_type <> (utxo.cap_type <> ("/" <> utxo.utxo_id))) mark
    pure (success_result 3000 [])

  -- the two ends of `spend`
  unfoldable pub expire_spend : CapabilityUtxo → Action Raw ExecTxResult
  expire_spend utxo = do
    ignore (save_utxo (record utxo { status = expired }))
    fail (app (code_cap_utxo_base + 43))

  unfoldable pub spend_once : CapabilityUtxo → Action Raw ExecTxResult
  spend_once utxo = do save_utxo (use_once utxo); pure (success_result 2000 [])

  unfoldable pub spend : ActionHandler Raw
  spend ctx env = do
    p ← decode_payload codec.spend bad_payload env.payload
    utxo ← load_utxo p.utxo_id
    fail_if (not (equal_bytes utxo.holder env.sender)) mismatch
    fail_if (not (str_eq utxo.status unspent)) (app (code_cap_utxo_base + 41))
    if has_expired ctx utxo then expire_spend utxo else spend_once utxo

  unfoldable pub derive_key : CapabilityUtxo → CapabilityUtxo → String
  derive_key parent child = prefix_cap_derive <> (parent.utxo_id <> ("/" <> child.utxo_id))

  unfoldable pub delegate : ActionHandler Raw
  unfolding derive_key
  delegate ctx env = do
    p ← decode_payload codec.delegate bad_payload env.payload
    parent ← load_utxo p.parent_utxo_id
    fail_if (not (equal_bytes parent.holder env.sender)) mismatch
    fail_if (not parent.delegatable) not_delegatable
    fail_if (ltb 0 parent.max_depth && ltb parent.max_depth (u32 (parent.cur_depth + 1)))
        not_delegatable
    fail_if (not (is_subset p.scopes parent.scopes)) not_delegatable
    fail_if (ltb_ℤ (pos 0) parent.expires_at && ltb_ℤ parent.expires_at p.expires_at)
        not_delegatable
    fail_if (ltb 0 parent.max_uses && ltb parent.max_uses p.max_uses) not_delegatable
    let child = delegated wire ctx env p parent
    save_utxo child
    put (derive_key parent child) mark
    pure (success_result 3000 [])

  -- One turn of the loop of `cascade`, at the child that a key of the index names: `next` is the
  -- call of itself, `rest` the turns that follow.
  unfoldable pub mark_child :
      (String → Action Raw (List String))
      → String
      → String
      → CapabilityUtxo
      → Action Raw (List String)
  mark_child next status child_id u = do
    save_utxo (record u { status = status })
    nested ← next child_id
    pure (child_id ∷ nested)

  unfoldable pub visit_child :
      (String → Action Raw (List String))
      → String
      → String
      → CapabilityUtxo
      → Action Raw (List String)
  visit_child next status child_id u =
      if str_eq u.status unspent then mark_child next status child_id u else pure []

  unfoldable pub cascade_child :
      (String → Action Raw (List String))
      → String
      → Option String
      → Action Raw (List String)
      → Action Raw (List String)
  cascade_child next status none rest = rest
  cascade_child next status (some child_id) rest = do
    u ← load_utxo child_id
    affected ← visit_child next status child_id u
    others ← rest
    pure (affected ++ others)

  unfoldable pub cascade_children :
      (String → Action Raw (List String)) → String → List (String × Raw) → Action Raw (List String)
  cascade_children next status [] = pure []
  cascade_children next status ((key, _) ∷ children) =
      cascade_child next status (last (split_path key)) (cascade_children next status children)

  -- `cascade`, with fuel for the depth of the calls
  unfoldable pub cascade_fuel : ℕ → String → String → Action Raw (List String)
  cascade_fuel zero status parent_id = fail plain
  cascade_fuel (suc f) status parent_id = do
    children ← list_prefix (prefix_cap_derive <> (parent_id <> "/"))
    cascade_children (cascade_fuel f status) status children

  -- A call marks a capability before it goes deeper, so the entries of the store bound the depth.
  unfoldable pub cascade : String → String → Action Raw (List String)
  cascade status parent_id = do
    n ← gets (λ w. length w.store.entries)
    cascade_fuel (suc n) status parent_id

  unfoldable pub revoke : ActionHandler Raw
  revoke ctx env = do
    p ← decode_payload codec.revoke bad_payload env.payload
    utxo ← load_utxo p.utxo_id
    fail_if (not (equal_bytes utxo.issuer env.sender)) mismatch
    save_utxo (record utxo { status = revoked })
    cascade revoked utxo.utxo_id
    pure (success_result 2000 [])

  -- One turn of the loop of `expireAtTime`, at what `Unmarshal` makes of the value; `rest` is the
  -- turns that follow.
  unfoldable pub expire_due : CapabilityUtxo → Action Raw (List Event) → Action Raw (List Event)
  expire_due u rest = do
    save_utxo (record u { status = expired })
    cascade expired u.utxo_id
    events ← rest
    pure (expired_event u.utxo_id ∷ events)

  unfoldable pub expire_one :
      ℤ → Option CapabilityUtxo → Action Raw (List Event) → Action Raw (List Event)
  expire_one now none rest = rest
  expire_one now (some u) rest = if is_due now u then expire_due u rest else rest

  unfoldable pub expire_all : ℤ → List (String × Raw) → Action Raw (List Event)
  expire_all now [] = pure []
  expire_all now ((_, raw) ∷ candidates) =
      expire_one now (codec.utxo.unmarshal raw) (expire_all now candidates)

  unfoldable pub expire_at_time : ℤ → Action Raw (List Event)
  expire_at_time now = do candidates ← list_prefix prefix_cap_utxo; expire_all now candidates

  unfoldable pub batch_expire : ActionHandler Raw
  batch_expire ctx env = do
    events ← expire_at_time ctx.unix
    pure (success_result (100 * length events % 2 ^ 64) events)

  abbrev pub handlers : List (String × ActionHandler Raw)
  handlers =
      ("mint_capability", mint)
      ∷ ("spend_capability", spend)
      ∷ ("delegate_capability", delegate)
      ∷ ("revoke_capability", revoke)
      ∷ ("batch_expire", batch_expire)
      ∷ []

  -- `New` and the methods that forward to `common.Module`
  abbrev pub cap_utxo : Module Raw
  cap_utxo = record {
    name = "caputxo";
    init_genesis = λ ctx raw. common_init_genesis wire "caputxo" raw;
    execute_tx = execute_action handlers;
    end_block = λ ctx. expire_at_time ctx.unix;
    query = common_query;
  }
