-- ===== src/Modules/CapUtxo/Store.antt =====
-- The capabilities in the store, and what saving one does to them.
use text.Mathlib.TextLemmas.{append_cancel_left}
use mathlib.Core.Bool.{false≢true}
use aacp.Prelude.{
  String, ◌≡◌, refl, sym, ◌∙◌, subst, ◌⊎◌, inl, inr, Bool, true, false, not, Option, some,
  Bool-cases, str_eq, eq_iff,
}
use aacp.Codec.{JsonLaw}
use aacp.State.Engine.{Store, set}
use aacp.State.Keys.{utxo_key, prefix_cap_utxo}
use aacp.App.Post.{reads, reads-set, reads-set_ne}
use aacp.Modules.CapUtxo.Data.{CapabilityUtxo, Codec}

pub not-false : (b : Bool) → not b ≡ false → b ≡ true
not-false true h = refl
not-false false h = sym h

utxo_key-cases :
    (a b : String) → (a ≡ b) ⊎ ((str_eq a b ≡ false) × (str_eq (utxo_key a) (utxo_key b) ≡ false))
unfolding utxo_key
utxo_key-cases a b = elim (Bool-cases (str_eq a b)) [
  | inl same ↦ inl ((eq_iff a b).0 same)
  | inr differ ↦ elim (Bool-cases (str_eq (utxo_key a) (utxo_key b))) [
    | inr other ↦ inr (differ, other)
    | inl same ↦
        let e =
          append_cancel_left prefix_cap_utxo a b ((eq_iff (utxo_key a) (utxo_key b)).0 same) in
        absurd (false≢true (sym differ ∙ (eq_iff a b).1 e))
  ]
]

module _ {Raw : Type 0} (codec : Codec Raw) where
  -- what the store holds for the id of a capability
  unfoldable pub utxo_of : Store Raw → String → Option CapabilityUtxo
  utxo_of s id = reads codec.utxo s (utxo_key id)

  -- Every capability is stored under its own id.
  abbrev pub WellKeyed : Store Raw → Type 0
  WellKeyed s = (id : String) (u : CapabilityUtxo) → utxo_of s id ≡ some u → u.utxo_id ≡ id

  pub saved_cases :
      (s : Store Raw) (u : CapabilityUtxo) (raw : Raw)
      → JsonLaw codec.utxo
      → codec.utxo.marshal u ≡ some raw
      → (j : String)
      → ((u.utxo_id ≡ j) × (utxo_of (set s (utxo_key u.utxo_id) raw) j ≡ some u))
        ⊎ ((str_eq u.utxo_id j ≡ false)
            × (utxo_of (set s (utxo_key u.utxo_id) raw) j ≡ utxo_of s j))
  unfolding utxo_of
  saved_cases s u raw law h j = elim (utxo_key-cases u.utxo_id j) [
    | inl same ↦ inl (
      same,
      subst (λ i. reads codec.utxo (set s (utxo_key u.utxo_id) raw) (utxo_key i) ≡ some u) same
          (reads-set codec.utxo s (utxo_key u.utxo_id) u raw law h),
    )
    | inr (differ, other) ↦
        inr (differ, reads-set_ne codec.utxo s (utxo_key u.utxo_id) (utxo_key j) raw other)
  ]
