-- ===== src/App/Lifecycle/Envelope.antt =====
-- What an envelope passed before the test of its nonce.
use Prim.Native.String.{len}
use aacp.Prelude.{
  ℕ, ◌≤◌, ◌≡◌, ◌≢◌, ◌⊎◌, refl, none, some, arith, inl, inr, length, ◌<◌, true, false, ltb, eq_iff,
  Bool, not, ◌&&◌, ◌||◌, ◌==◌, if◌then◌else◌, str_eq, Option, Bytes,
}
use aacp.Exec.{ok, err, Result, plain}
use aacp.Codec.{Wire}
use aacp.Types.{TxEnvelope, code_decode_fail, signable, validate_basic, contains, allowed_modules}
use aacp.Prelude.Int.{ℤ, pos, ◌≤ℤ◌, ltb_ℤ}
use aacp.App.Router.{World, Context}
use aacp.App.Lifecycle.{
  TxCodec, Admission, rejected, admitted, check_signature, check_envelope, verify_signature,
}

-- What `ValidateBasic` asks of an envelope.
pub record Valid {Raw : Type 0} (e : TxEnvelope Raw) : Type 0 where
  pub sender_key : length e.sender ≡ 32
  pub signature_size : length e.signature ≡ 64
  pub some_gas : 0 < e.gas_limit
  pub some_action : e.action ≢ ""
  pub module_known : contains allowed_modules e.module_name ≡ true
  pub short_memo : len e.memo ≤ 256

passed :
    (b : Bool) (r : Result (Unit {0}))
    → (if b then err plain else r) ≡ ok tt
    → (b ≡ false) × (r ≡ ok tt)
passed true r h = cc
passed false r h = (refl, h)

basic_checks :
    {Raw : Type 0} (e : TxEnvelope Raw)
    → not (length e.sender == 32) ≡ false
    → (e.gas_limit == 0) ≡ false
    → (str_eq e.module_name "" || str_eq e.action "") ≡ false
    → not (contains allowed_modules e.module_name) ≡ false
    → not (length e.signature == 64) ≡ false
    → ltb 256 (len e.memo) ≡ false
    → Valid e
basic_checks e key gas named known size memo = record {
  sender_key = ground arith;
  signature_size = ground arith;
  some_gas = ground arith;
  some_action = λ q. let e1 = (eq_iff e.action "").1 q in ground arith;
  module_known = ground arith;
  short_memo = ground arith;
}

validate_basic-Valid : {Raw : Type 0} (e : TxEnvelope Raw) → validate_basic e ≡ ok tt → Valid e
unfolding validate_basic
validate_basic-Valid e h =
    let (key, h1) = passed (not (length e.sender == 32)) _ h in
    let (gas, h2) = passed (e.gas_limit == 0) _ h1 in
    let (named, h3) = passed (str_eq e.module_name "" || str_eq e.action "") _ h2 in
    let (known, h4) = passed (not (contains allowed_modules e.module_name)) _ h3 in
    let (size, h5) = passed (not (length e.signature == 64)) _ h4 in
    let (memo, h6) = passed (ltb 256 (len e.memo)) _ h5 in
    basic_checks e key gas named known size memo

module _ {Raw : Type 0} (wire : Wire Raw) (codec : TxCodec Raw) where
  -- What an admitted envelope passed before the test of its nonce: the basic validation, the
  -- height of its timeout, if it has a positive one, and the signature of its sender.
  pub record Vouched (ctx : Context) (e : TxEnvelope Raw) : Type 0 where
    pub basics : Valid e
    pub in_time : (e.timeout_height ≤ℤ pos 0) ⊎ (ctx.height ≤ℤ e.timeout_height)
    pub signed :
        (message : Bytes) × (codec.sign_bytes (signable e) ≡ some message)
        × (wire.verify e.sender (wire.sha256 message) e.signature ≡ true)

  signature_holds :
      (w : World Raw) (env e : TxEnvelope Raw) (o : Option Bytes) (n used : ℕ)
      → check_signature wire w env o ≡ admitted e n used
      → (message : Bytes) × (o ≡ some message)
        × (wire.verify env.sender (wire.sha256 message) env.signature ≡ true)
  unfolding check_signature verify_signature
  signature_holds w env e none n used h = cc
  signature_holds w env e (some message) n used h = (message, refl, ground arith)

  validated :
      (r : Result (Unit {0})) (x : Admission Raw) (e : TxEnvelope Raw) (n used : ℕ)
      → elim r [ err _ ↦ rejected code_decode_fail | ok _ ↦ x ] ≡ admitted e n used
      → (r ≡ ok tt) × (x ≡ admitted e n used)
  validated (err f) x e n used h = cc
  validated (ok u) x e n used h = (refl, h)

  unexpired :
      (a b : Bool) (x : Admission Raw) (e : TxEnvelope Raw) (n used : ℕ)
      → (if a && b then rejected code_decode_fail else x) ≡ admitted e n used
      → ((a ≡ false) ⊎ (b ≡ false)) × (x ≡ admitted e n used)
  unexpired true true x e n used h = cc
  unexpired true false x e n used h = (inr refl, h)
  unexpired false b x e n used h = (inl refl, h)

  time_limit :
      (limit height : ℤ)
      → (ltb_ℤ (pos 0) limit ≡ false) ⊎ (ltb_ℤ limit height ≡ false)
      → (limit ≤ℤ pos 0) ⊎ (height ≤ℤ limit)
  time_limit limit height (inl h) = inl (ground arith)
  time_limit limit height (inr h) = inr (ground arith)

  pub check_envelope-Vouched :
      (ctx : Context) (w : World Raw) (env e : TxEnvelope Raw) (n used : ℕ)
      → check_envelope wire codec ctx w env ≡ admitted e n used
      → Vouched ctx env
  unfolding check_envelope
  check_envelope-Vouched ctx w env e n used h =
      let (valid, rest) = validated (validate_basic env) _ e n used h in
      let (time, checked) =
        unexpired (ltb_ℤ (pos 0) env.timeout_height) (ltb_ℤ env.timeout_height ctx.height) _ e n
          used rest in
      record {
        basics = validate_basic-Valid env valid;
        in_time = time_limit env.timeout_height ctx.height time;
        signed = signature_holds w env e (codec.sign_bytes (signable env)) n used checked;
      }
