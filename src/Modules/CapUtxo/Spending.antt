-- ===== src/Modules/CapUtxo/Spending.antt =====
-- How often a capability can be spent (`spend` of internal/modules/caputxo/module.go).
use mathlib.Core.Bool.{false≢true}
use aacp.Prelude.{
  ℕ, ◌+◌, ◌-◌, ◌^◌, ◌≤◌, ◌<◌, String, ◌≡◌, refl, sym, ◌∙◌, ap, subst, inl, inr, Bool, true, false,
  not, ◌&&◌, none, some, List, [], ◌∷◌, arith, str_eq, eq_refl, ltb, leb, if◌then◌else◌,
}
use aacp.Exec.{Error, Result, ok, err}
use aacp.Codec.{Wire, JsonLaw}
use aacp.State.Keys.{utxo_key}
use aacp.Types.{ExecTxResult, TxEnvelope}
use aacp.App.Lawful.{some_inj}
use aacp.App.Router.{World, Context}
use aacp.App.Post.{Post, reads, stored, post_rules}
use aacp.Modules.CapUtxo.Data.{CapabilityUtxo, SpendPayload, Codec, unspent, spent, expired}
use aacp.Modules.CapUtxo.{u32, use_once, spend, expire_spend, spend_once, load_utxo, save_utxo}
use aacp.Modules.CapUtxo.Store.{utxo_of, WellKeyed, saved_cases, not-false}

-- A capability with a limit that is not used up, as `mint` makes it.
pub record Limited (u : CapabilityUtxo) : Type 0 where
  pub positive : 0 < u.max_uses
  pub small : u.max_uses < 2 ^ 32
  pub below : str_eq u.status unspent ≡ true → u.used_count < u.max_uses

-- the uses that are left
abbrev pub left : CapabilityUtxo → ℕ
left u = if str_eq u.status unspent then u.max_uses - u.used_count else 0

use_once-same : (u : CapabilityUtxo) → (use_once u).utxo_id ≡ u.utxo_id
unfolding use_once
use_once-same u = refl

add_bound : (a b c d : ℕ) → a + b ≤ c → d ≤ a → b + d ≤ c
add_bound a b c d h k = omega arith

-- the test that makes a capability spent
abbrev full : CapabilityUtxo → Bool
full u = ltb 0 u.max_uses && leb u.max_uses (u32 (u.used_count + 1))

use_once-below :
    (u : CapabilityUtxo) (b : Bool)
    → b ≡ full u
    → u.max_uses < 2 ^ 32
    → str_eq (if b then spent else u.status) unspent ≡ true
    → 0 < u.max_uses
    → u32 (u.used_count + 1) < u.max_uses
use_once-below u true e small s h = absurd (false≢true s)
use_once-below u false e small s h = ground arith

use_once-Limited : (u : CapabilityUtxo) → Limited u → Limited (use_once u)
unfolding use_once
use_once-Limited u h = record {
  positive = h.positive;
  small = h.small;
  below = λ s. use_once-below u (full u) refl h.small s h.positive;
}

use_once-left_at :
    (u : CapabilityUtxo) (b : Bool)
    → b ≡ full u
    → u.max_uses < 2 ^ 32
    → u.used_count < u.max_uses
    → str_eq u.status unspent ≡ true
    → (if str_eq (if b then spent else u.status) unspent
          then u.max_uses - u32 (u.used_count + 1)
          else 0)
        + 1
      ≤ left u
use_once-left_at u true e small below s = rw s (omega arith)
use_once-left_at u false e small below s = rw s (ground arith)

use_once-left :
    (u : CapabilityUtxo)
    → Limited u
    → str_eq u.status unspent ≡ true
    → left (use_once u) + 1 ≤ left u
unfolding use_once
use_once-left u h e = use_once-left_at u (full u) refl h.small (h.below e) e

module _ {Raw : Type 0} (codec : Codec Raw) where
  -- whether a transaction is for a capability
  unfoldable pub is_for : String → TxEnvelope Raw → Bool
  is_for id env = elim (codec.spend env.payload) [ none ↦ false | some p ↦ str_eq p.utxo_id id ]

  -- 1 for a success
  unfoldable pub tally : Bool → Result ExecTxResult → ℕ
  tally hit (ok _) = if hit then 1 else 0
  tally hit (err _) = 0

  -- What a transaction does to the capability of an id: the uses that are left go down by one
  -- where it is spent, and never up.
  record Uses (env : TxEnvelope Raw) (w : World Raw) (r : Result ExecTxResult) (v : World Raw)
      : Type 0 where
    keyed : WellKeyed codec w.store → WellKeyed codec v.store
    uses :
        WellKeyed codec w.store
        → (id : String) (u : CapabilityUtxo) → utxo_of codec w.store id ≡ some u
        → Limited u
        → (t : CapabilityUtxo) × (utxo_of codec v.store id ≡ some t)
          × Limited t
          × (left t + tally (is_for id env) r ≤ left u)

  Uses-refused : (env : TxEnvelope Raw) (w : World Raw) (e : Error) → Uses env w (err e) w
  unfolding tally
  Uses-refused env w e = record {
    keyed = λ k. k;
    uses = λ k id u found h. (u, found, h, omega arith);
  }

  -- what is saved, in place of the capability that was loaded
  Uses-saved :
      (env : TxEnvelope Raw) (w : World Raw) (r : Result ExecTxResult) (id : String)
      (u t : CapabilityUtxo) (raw : Raw)
      → JsonLaw codec.utxo
      → utxo_of codec w.store id ≡ some u
      → t.utxo_id ≡ u.utxo_id
      → (Limited u → Limited t)
      → (Limited u → left t + tally (is_for id env) r ≤ left u)
      → ((j : String) → str_eq id j ≡ false → tally (is_for j env) r ≡ 0)
      → codec.utxo.marshal t ≡ some raw
      → Uses env w r (stored w (utxo_key t.utxo_id) raw)
  Uses-saved env w r id u t raw law found same limited count others h = record {
    keyed = λ k j x now. elim (saved_cases codec w.store t raw law h j) [
      | inl (here, is) ↦ sym (ap (λ y. y.utxo_id) (some_inj t x (sym is ∙ now))) ∙ here
      | inr (_, before) ↦ k j x (sym before ∙ now)
    ];
    uses = λ k j x found' lim. elim (saved_cases codec w.store t raw law h j) [
      | inl (here, is) ↦
          let at_j : id ≡ j = sym (k id u found) ∙ (sym same ∙ here) in
          let is_u = some_inj u x (sym found ∙ (ap (utxo_of codec w.store) at_j ∙ found')) in
          let lim' = subst Limited (sym is_u) lim in
          (
            t,
            is,
            limited lim',
            subst (λ y. left t + tally (is_for j env) r ≤ left y) is_u
                (subst (λ i. left t + tally (is_for i env) r ≤ left u) at_j (count lim')),
          )
      | inr (differ, before) ↦
          let other = subst (λ i. str_eq i j ≡ false) (same ∙ k id u found) differ in
          (x, before ∙ found', lim, rw (others j other) (omega arith))
    ];
  }

  is_for_at :
      (id : String) (env : TxEnvelope Raw) (p : SpendPayload)
      → codec.spend env.payload ≡ some p
      → is_for id env ≡ str_eq p.utxo_id id
  unfolding is_for
  is_for_at id env p h = rw (h, is_for) refl

  Uses-once :
      (env : TxEnvelope Raw) (w : World Raw) (p : SpendPayload) (u : CapabilityUtxo) (raw : Raw)
      (res : ExecTxResult)
      → JsonLaw codec.utxo
      → codec.spend env.payload ≡ some p
      → reads codec.utxo w.store (utxo_key p.utxo_id) ≡ some u
      → not (str_eq u.status unspent) ≡ false
      → codec.utxo.marshal (use_once u) ≡ some raw
      → Uses env w (ok res) (stored w (utxo_key (use_once u).utxo_id) raw)
  unfolding utxo_of tally
  Uses-once env w p u raw res law decoded found free h =
      Uses-saved env w (ok res) p.utxo_id u (use_once u) raw law found (use_once-same u)
        (use_once-Limited u)
        (λ lim.
          rw (is_for_at p.utxo_id env p decoded, eq_refl p.utxo_id)
            (use_once-left u lim (not-false _ free)))
        (λ j d. rw (is_for_at j env p decoded, d) refl) h

  Uses-expired :
      (env : TxEnvelope Raw) (w : World Raw) (id : String) (u : CapabilityUtxo) (raw : Raw)
      (e : Error)
      → JsonLaw codec.utxo
      → reads codec.utxo w.store (utxo_key id) ≡ some u
      → codec.utxo.marshal (record u { status = expired }) ≡ some raw
      → Uses env w (err e) (stored w (utxo_key u.utxo_id) raw)
  unfolding utxo_of tally
  Uses-expired env w id u raw e law found h =
      Uses-saved env w (err e) id u (record u { status = expired }) raw law found refl
        (λ lim. record {
          positive = lim.positive;
          small = lim.small;
          below = λ s. absurd (false≢true s);
        })
        (λ lim. omega arith) (λ j d. refl) h

  module _ (wire : Wire Raw) (law : JsonLaw codec.utxo) where
    spend-Uses :
        (ctx : Context) (env : TxEnvelope Raw) (w : World Raw)
        → Post w (spend wire codec ctx env) (Uses env w)
    unfolding spend spend_once expire_spend load_utxo save_utxo
    spend-Uses ctx env w = search (post_rules, Uses-refused, Uses-once, Uses-expired, law) depth 20

  module _ (wire : Wire Raw) where
    -- the spends of a capability among the transactions that succeed
    unfoldable pub spends : String → List (Context × TxEnvelope Raw) → World Raw → ℕ
    spends id [] w = 0
    spends id ((ctx, env) ∷ txs) w =
        let (r, v) = spend wire codec ctx env w in tally (is_for id env) r + spends id txs v

    spends-left :
        (txs : List (Context × TxEnvelope Raw)) (w : World Raw) (id : String) (u : CapabilityUtxo)
        → JsonLaw codec.utxo
        → WellKeyed codec w.store
        → utxo_of codec w.store id ≡ some u
        → Limited u
        → spends id txs w ≤ left u
    unfolding spends
    spends-left [] w id u law k found lim = omega arith
    spends-left ((ctx, env) ∷ txs) w id u law k found lim =
        let step = (spend-Uses wire law ctx env w).holds in
        let (t, found', lim', bound) = step.uses k id u found lim in
        let rest =
          spends-left txs (spend wire codec ctx env w).1 id t law (step.keyed k) found' lim' in
        add_bound (left t) _ (left u) _ bound rest

    -- Let JSON read back each capability that it wrote, let each capability of the store be stored
    -- under its own id, and take one with a positive limit of uses below 2^32 that is not used up
    -- if it is unspent. Run any spend transactions, for this capability and for others, whoever
    -- sends them and whenever. Those that spend it with success are at most the limit less the
    -- uses that were counted.
    pub spend_budget :
        (txs : List (Context × TxEnvelope Raw)) (w : World Raw) (id : String) (u : CapabilityUtxo)
        → JsonLaw codec.utxo
        → WellKeyed codec w.store
        → utxo_of codec w.store id ≡ some u
        → Limited u
        → spends id txs w ≤ u.max_uses - u.used_count
    spend_budget txs w id u law k found lim =
        let bound = spends-left txs w id u law k found lim in ground arith
