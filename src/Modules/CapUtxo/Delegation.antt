-- ===== src/Modules/CapUtxo/Delegation.antt =====
-- What a delegation hands on (`delegate` of internal/modules/caputxo/module.go).
use aacp.Prelude.{
  zero, suc, ◌⊎◌, ◌+◌, ◌≤◌, ◌<◌, String, ◌<>◌, ◌≡◌, ◌≢◌, refl, ◌∙◌, subst, inl, inr, true, false,
  not, ◌&&◌, some, List, [], ◌∷◌, Bool-cases, arith, str_eq, eq_iff, length, ltb, equal_bytes,
  equal_bytes-eq, if◌then◌else◌,
}
use aacp.Prelude.Int.{ℤ, pos, negsuc, ◌≤ℤ◌, ◌<ℤ◌, ltb_ℤ, eqb_ℤ}
use aacp.Exec.{Error, ok, err}
use aacp.Codec.{Wire, JsonLaw}
use aacp.State.Engine.{Store, set}
use aacp.State.Keys.{utxo_key, prefix_cap_derive}
use aacp.State.Keys.Laws.{prefix_apart}
use aacp.Types.{ExecTxResult, TxEnvelope, contains}
use aacp.App.Router.{World, Context}
use aacp.App.Post.{Post, IfOk, at_ok, reads, stored, reads-set, reads-set_ne, post_rules}
use aacp.Modules.CapUtxo.Store.{utxo_of, not-false}
use aacp.Modules.CapUtxo.Data.{CapabilityUtxo, DelegatePayload, Codec, unspent}
use aacp.Modules.CapUtxo.{
  derive_key, all_contained, is_subset, u32, delegated, delegate, load_utxo, save_utxo,
}

-- A child is a fresh capability of the parent's issuer and type, one step deeper, for some of the
-- scopes, for no more uses, where the parent bounds these, and with no later an expiry.
pub record Attenuates (parent child : CapabilityUtxo) : Type 0 where
  pub same_issuer : child.issuer ≡ parent.issuer
  pub same_type : child.cap_type ≡ parent.cap_type
  pub parent_id : child.parent_utxo ≡ parent.utxo_id
  pub fresh : (child.status ≡ unspent) × (child.used_count ≡ 0)
  pub some_scope : length child.scopes ≢ 0
  pub scopes : (s : String) → contains child.scopes s ≡ true → contains parent.scopes s ≡ true
  pub deeper : child.cur_depth ≡ u32 (parent.cur_depth + 1)
  pub depth : 0 < parent.max_depth → child.cur_depth ≤ parent.max_depth
  pub uses : 0 < parent.max_uses → (0 < child.max_uses) × (child.max_uses ≤ parent.max_uses)
  pub expiry : pos 0 <ℤ parent.expires_at → child.expires_at ≤ℤ parent.expires_at

-- When a child expires: when the payload says, or with the parent where the payload has 0.
pub record Expires (parent child : CapabilityUtxo) (p : DelegatePayload) : Type 0 where
  pub inherited : p.expires_at ≡ pos 0 → child.expires_at ≡ parent.expires_at
  pub asked : p.expires_at ≢ pos 0 → child.expires_at ≡ p.expires_at
  pub ends : pos 0 <ℤ parent.expires_at → (pos 0 <ℤ child.expires_at) ⊎ (p.expires_at <ℤ pos 0)

all_contained-contains :
    (subset superset : List String)
    → all_contained subset superset ≡ true
    → (s : String) → contains subset s ≡ true
    → contains superset s ≡ true
unfolding all_contained contains
all_contained-contains [] superset h s e = ground arith
all_contained-contains (x ∷ xs) superset h s e = elim (Bool-cases (str_eq x s)) [
  | inl same ↦ subst (λ y. contains superset y ≡ true) ((eq_iff x s).0 same) (ground arith)
  | inr other ↦ all_contained-contains xs superset (ground arith) s (ground arith)
]

expiry_bound :
    (parent child : ℤ)
    → (ltb_ℤ (pos 0) parent && ltb_ℤ parent child) ≡ false
    → pos 0 <ℤ parent
    → (if eqb_ℤ child (pos 0) then parent else child) ≤ℤ parent
expiry_bound (negsuc n) child h k = ground arith
expiry_bound (pos n) (pos m) h k = ground arith
expiry_bound (pos n) (negsuc m) h k = ground arith

module _ (parent : ℤ) where
  inherited_expiry :
      (asked : ℤ) → asked ≡ pos 0 → (if eqb_ℤ asked (pos 0) then parent else asked) ≡ parent
  inherited_expiry asked h = rw (h) refl

  asked_expiry :
      (asked : ℤ) → asked ≢ pos 0 → (if eqb_ℤ asked (pos 0) then parent else asked) ≡ asked
  asked_expiry (negsuc n) h = ground arith
  asked_expiry (pos zero) h = absurd (h refl)
  asked_expiry (pos (suc n)) h = ground arith

  ending :
      (asked : ℤ)
      → pos 0 <ℤ parent
      → (pos 0 <ℤ (if eqb_ℤ asked (pos 0) then parent else asked)) ⊎ (asked <ℤ pos 0)
  ending (negsuc n) h = inr (omega arith)
  ending (pos zero) h = inl h
  ending (pos (suc n)) h = inl (ground arith)

module _ {Raw : Type 0} (wire : Wire Raw) (codec : Codec Raw) where
  delegated-Expires :
      (ctx : Context) (env : TxEnvelope Raw) (p : DelegatePayload) (parent : CapabilityUtxo)
      → Expires parent (delegated wire ctx env p parent) p
  unfolding delegated
  delegated-Expires ctx env p parent = record {
    inherited = inherited_expiry parent.expires_at p.expires_at;
    asked = asked_expiry parent.expires_at p.expires_at;
    ends = ending parent.expires_at p.expires_at;
  }

  delegated-Attenuates :
      (ctx : Context) (env : TxEnvelope Raw) (p : DelegatePayload) (parent : CapabilityUtxo)
      → (ltb 0 parent.max_depth && ltb parent.max_depth (u32 (parent.cur_depth + 1))) ≡ false
      → not (is_subset p.scopes parent.scopes) ≡ false
      → (ltb_ℤ (pos 0) parent.expires_at && ltb_ℤ parent.expires_at p.expires_at) ≡ false
      → (ltb 0 parent.max_uses && ltb parent.max_uses p.max_uses) ≡ false
      → Attenuates parent (delegated wire ctx env p parent)
  unfolding delegated is_subset
  delegated-Attenuates ctx env p parent depth subset expiry uses = record {
    same_issuer = refl;
    same_type = refl;
    parent_id = refl;
    fresh = (refl, refl);
    some_scope = ground arith;
    scopes = all_contained-contains p.scopes parent.scopes (ground arith);
    deeper = refl;
    depth = ground arith;
    uses = ground arith;
    expiry = expiry_bound parent.expires_at p.expires_at expiry;
  }

  derive_key-NoUtxoKey :
      (k : String) (id : String) → str_eq (prefix_cap_derive <> k) (utxo_key id) ≡ false
  unfolding utxo_key
  derive_key-NoUtxoKey k id = prefix_apart "cap/d/" "cap/u/" k id refl refl

  -- The saved child is found after the entry of the index is written too.
  saved_child :
      (s : Store Raw) (child : CapabilityUtxo) (raw mark : Raw) (k : String)
      → JsonLaw codec.utxo
      → codec.utxo.marshal child ≡ some raw
      → utxo_of codec
          (set (set s (utxo_key child.utxo_id) raw) (prefix_cap_derive <> k) mark)
          child.utxo_id
        ≡ some child
  unfolding utxo_of
  saved_child s child raw mark k law h =
      reads-set_ne codec.utxo _ (prefix_cap_derive <> k) (utxo_key child.utxo_id) mark
        (derive_key-NoUtxoKey k child.utxo_id)
      ∙ reads-set codec.utxo s (utxo_key child.utxo_id) child raw law h

  -- what a successful delegation read and wrote
  pub record Delegation (ctx : Context) (env : TxEnvelope Raw) (w v : World Raw)
      (p : DelegatePayload) (parent child : CapabilityUtxo) : Type 0 where
    pub decoded : codec.delegate env.payload ≡ some p
    pub loaded : utxo_of codec w.store p.parent_utxo_id ≡ some parent
    pub by_holder : parent.holder ≡ env.sender
    pub delegatable : parent.delegatable ≡ true
    pub to_holder : child.holder ≡ p.new_holder
    pub saved : utxo_of codec v.store child.utxo_id ≡ some child
    pub attenuates : Attenuates parent child
    pub expires : Expires parent child p

  abbrev Delegates : Context → TxEnvelope Raw → World Raw → World Raw → Type 0
  Delegates ctx env w v =
      (p : DelegatePayload) × (parent : CapabilityUtxo) × (child : CapabilityUtxo) × Delegation ctx
        env w v p parent child

  delegate_done :
      (ctx : Context) (env : TxEnvelope Raw) (w : World Raw) (p : DelegatePayload)
      (parent : CapabilityUtxo) (raw mark : Raw) (res : ExecTxResult)
      → JsonLaw codec.utxo
      → codec.delegate env.payload ≡ some p
      → reads codec.utxo w.store (utxo_key p.parent_utxo_id) ≡ some parent
      → not (equal_bytes parent.holder env.sender) ≡ false
      → not parent.delegatable ≡ false
      → (ltb 0 parent.max_depth && ltb parent.max_depth (u32 (parent.cur_depth + 1))) ≡ false
      → not (is_subset p.scopes parent.scopes) ≡ false
      → (ltb_ℤ (pos 0) parent.expires_at && ltb_ℤ parent.expires_at p.expires_at) ≡ false
      → (ltb 0 parent.max_uses && ltb parent.max_uses p.max_uses) ≡ false
      → codec.utxo.marshal (delegated wire ctx env p parent) ≡ some raw
      → let child = delegated wire ctx env p parent in
        let v = stored w (utxo_key child.utxo_id) raw in
        IfOk (Delegates ctx env w (stored v (derive_key wire codec parent child) mark)) (ok res)
  unfolding utxo_of derive_key IfOk delegated
  delegate_done ctx env w p parent raw mark res law decoded loaded holder can_delegate depth subset
        expiry uses marshalled =
      (
        p,
        parent,
        delegated wire ctx env p parent,
        record {
          decoded = decoded;
          loaded = loaded;
          by_holder = equal_bytes-eq parent.holder env.sender (not-false _ holder);
          delegatable = not-false _ can_delegate;
          to_holder = refl;
          saved = saved_child w.store (delegated wire ctx env p parent) raw mark _ law marshalled;
          attenuates = delegated-Attenuates ctx env p parent depth subset expiry uses;
          expires = delegated-Expires ctx env p parent;
        },
      )

  failed_ok : (A D : Type 0) (e : Error) → IfOk {A = A} D (err e)
  unfolding IfOk
  failed_ok A D e = tt

  delegate-Post :
      (ctx : Context) (env : TxEnvelope Raw) (w : World Raw)
      → JsonLaw codec.utxo
      → Post w (delegate wire codec ctx env) (λ r v. IfOk (Delegates ctx env w v) r)
  unfolding delegate load_utxo save_utxo
  delegate-Post ctx env w law = search (post_rules, delegate_done, failed_ok, law) depth 20

  -- Let JSON read back each capability that it wrote, and let a delegation succeed. Then its
  -- payload names a capability in the store that is delegatable and whose holder sent the
  -- transaction, and the new store has a capability for the new holder that attenuates it: the
  -- issuer and the type are the parent's, the scopes are some of the parent's and not none, it is
  -- unspent and unused, it is one step deeper and within the parent's depth, and where the parent
  -- bounds the number of uses the child's is bounded too, and not by more. It expires when the
  -- payload says, or with the parent where the payload has 0; where the parent has a positive
  -- expiry the child's is not later, and is positive too unless the payload has a negative one.
  pub delegate_attenuates :
      (ctx : Context) (env : TxEnvelope Raw) (w v : World Raw) (res : ExecTxResult)
      → JsonLaw codec.utxo
      → delegate wire codec ctx env w ≡ (ok res, v)
      → (p : DelegatePayload) × (parent : CapabilityUtxo) × (child : CapabilityUtxo) × Delegation
          ctx env w v p parent child
  delegate_attenuates ctx env w v res law h =
      at_ok (λ v. Delegates ctx env w v) (delegate-Post ctx env w law) h
