-- ===== src/State/Params/Laws.antt =====
-- Reading a parameter after a write to the parameters.
use mathlib.Core.Bool.{false≢true}
use text.Mathlib.TextLemmas.{append_assoc, append_cancel_left}
use aacp.Prelude.{
  String, ◌<>◌, ◌≡◌, refl, sym, ◌∙◌, ap, Bool-cases, inl, inr, Option, none, some, str_eq, eq_iff,
  if◌then◌else◌, Bytes, false,
}
use aacp.Prelude.Encode.{hex}
use aacp.Exec.{plain, ok, err, ok_inj}
use aacp.Codec.{Wire, Json, JsonLaw}
use aacp.State.Engine.{Store, set}
use aacp.State.Engine.Laws.{get-set}
use aacp.State.Keys.{param_key, nonce_key, prefix_params}
use aacp.State.Keys.Laws.{prefix_apart}
use aacp.State.Nonce.{get_nonce}
use aacp.State.Nonce.Laws.{get_nonce-set}
use aacp.State.Params.{set_param, get_param}

-- Of one module, different parameters have different keys.
param_key-injective : (m k l : String) → param_key m k ≡ param_key m l → k ≡ l
unfolding param_key
param_key-injective m k l e = append_cancel_left "/" k l (
    append_cancel_left m ("/" <> k) ("/" <> l)
      (append_cancel_left prefix_params (m <> ("/" <> k)) (m <> ("/" <> l)) e))

param_key-other : (m k x : String) → str_eq (param_key m k) (nonce_key x) ≡ false
unfolding param_key nonce_key
param_key-other m k x =
    rw (append_assoc "params" "/" (m <> ("/" <> k)))
      (prefix_apart "params" "acc/n/" ("/" <> (m <> ("/" <> k))) x refl refl)

-- the test of the keys is the test of the names
str_eq-param_key : (m k l : String) → str_eq (param_key m k) (param_key m l) ≡ str_eq k l
str_eq-param_key m k l = elim (Bool-cases (str_eq k l)) [
  | inl same ↦
      rw (same)
        ((eq_iff (param_key m k) (param_key m l)).1 (ap (param_key m) ((eq_iff k l).0 same)))
  | inr other ↦ elim (Bool-cases (str_eq (param_key m k) (param_key m l))) [
    | inl clash ↦
        let e = param_key-injective m k l ((eq_iff (param_key m k) (param_key m l)).0 clash) in
        absurd (false≢true (sym other ∙ (eq_iff k l).1 e))
    | inr apart ↦ rw (other) apart
  ]
]

module _ {Raw A : Type 0} (json : Json Raw A) (w : Wire Raw) where
  -- what a successful write of a parameter is
  set_param-write :
      (s s' : Store Raw) (m k : String) (v : A)
      → set_param json s m k v ≡ ok s'
      → (raw : Raw) × (json.marshal v ≡ some raw) × (s' ≡ set s (param_key m k) raw)
  unfolding set_param
  set_param-write s s' m k v h = from (json.marshal v) refl
    where
      from :
          (found : Option Raw)
          → json.marshal v ≡ found
          → (raw : Raw) × (json.marshal v ≡ some raw) × (s' ≡ set s (param_key m k) raw)
      from none e = let bad : err plain ≡ ok s' = (rw (e, set_param) at h) in cc
      from (some raw) e = (raw, e, sym (ok_inj _ _ (rw (e, set_param) at h)))

  get_param-set :
      (s : Store Raw) (m k l : String) (v : A) (raw : Raw)
      → json.unmarshal raw ≡ some v
      → get_param json (set s (param_key m k) raw) m l
        ≡ (if str_eq k l then some v else get_param json s m l)
  unfolding get_param
  get_param-set s m k l v raw back = elim (Bool-cases (str_eq k l)) [
    | inl same ↦ rw (get_param, get-set, str_eq-param_key m k l, same) back
    | inr other ↦ rw (get_param, get-set, str_eq-param_key m k l, other) refl
  ]

  -- Let JSON read back the values that it wrote, and let a parameter of a module be set without an
  -- error. Then each parameter of that module is what was written, if it is the one that was set,
  -- and what it was before, if it is another; and every account has the nonce that it had.
  pub params_roundtrip :
      (s s' : Store Raw) (m k l : String) (v : A) (p : Bytes)
      → JsonLaw json
      → set_param json s m k v ≡ ok s'
      → (get_param json s' m l ≡ (if str_eq k l then some v else get_param json s m l))
        × (get_nonce w s' p ≡ get_nonce w s p)
  params_roundtrip s s' m k l v p law h =
      let (raw, e, wrote) = set_param-write s s' m k v h in
      rw (wrote) (
        get_param-set s m k l v raw (law.back v raw e),
        get_nonce-set w s (param_key m k) raw p (param_key-other m k (hex p)),
      )
