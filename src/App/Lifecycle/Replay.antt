-- ===== src/App/Lifecycle/Replay.antt =====
-- Nonces against replay.
use aacp.Prelude.{
  ℕ, ◌+◌, ◌%◌, ◌^◌, ◌≤◌, ◌≡◌, ◌≢◌, sym, ap, ◌∙◌, ◌⊎◌, refl, none, some, arith, inl, inr, length,
  ◌<◌, ◌*◌, ◌/◌, subst, Option-cases, Option, Bytes,
}
use aacp.Exec.{ok, err, Result, Error, app, plain, panic, ok_inj}
use aacp.Codec.{Wire, WireLaw}
use aacp.State.Nonce.{get_nonce}
use aacp.State.Nonce.Laws.{get_nonce-set_nonce}
use aacp.Types.{
  TxEnvelope, ExecTxResult, fail_result, code_ok, code_bad_nonce, code_unknown_mod, code_from_error,
  signable,
}
use aacp.App.Lawful.{IsFailure, plain_fails, panic_fails, app_fails, LawfulRouter, Lawful-execute}
use aacp.App.Router.{World, Context, Router, execute}
use aacp.App.Lifecycle.Envelope.{Vouched, check_envelope-Vouched}
use aacp.App.Lifecycle.{
  TxCodec, Admission, rejected, admitted, charge, check_nonce, check_signature, check_envelope,
  admit, failure, settle, deliver_tx, payload_gas,
}

stale : (m n k : ℕ) → m ≡ n → k ≡ (n + 1) % 2 ^ 64 → m ≢ k
stale m n k h e q = omega arith

pub Admission-cases :
    {Raw : Type 0} (a : Admission Raw)
    → ((c : ℕ) × (a ≡ rejected c))
      ⊎ ((e : TxEnvelope Raw) × (n : ℕ) × (used : ℕ) × (a ≡ admitted e n used))
Admission-cases (rejected c) = inl (c, refl)
Admission-cases (admitted e n used) = inr (e, n, used, refl)

module _ {Raw : Type 0} (wire : Wire Raw) where
  -- What an admission says: the nonce is the account's, and the gas of the signature and of the
  -- payload is within the limit.
  pub record Sound (w : World Raw) (e : TxEnvelope Raw) (n used : ℕ) : Type 0 where
    pub expected : n ≡ get_nonce wire w.store e.sender
    pub matches : e.nonce ≡ n
    pub within : used ≤ e.gas_limit
    pub exact : used ≡ (1000 + payload_gas wire e) % 2 ^ 64

  -- The gas of an admitted transaction: `kib` is the number of started KiB of its payload.
  pub record Charged (e : TxEnvelope Raw) (used kib : ℕ) : Type 0 where
    pub covers : length (wire.to_bytes e.payload) ≤ 1024 * kib
    pub started : 1024 * kib < length (wire.to_bytes e.payload) + 1024
    pub exact : used ≡ (1000 + 10 * kib) % 2 ^ 64

  Sound-Charged :
      (w : World Raw) (e : TxEnvelope Raw) (n used : ℕ)
      → Sound w e n used
      → Charged e used ((length (wire.to_bytes e.payload) + 1023) / 1024)
  Sound-Charged w e n used s = record {
    covers = omega arith;
    started = omega arith;
    exact = omega (arith, s.exact);
  }

  charge_sound :
      (env e : TxEnvelope Raw) (n m used : ℕ)
      → charge wire env n ≡ admitted e m used
      → (e ≡ env) × (m ≡ n) × (used ≤ e.gas_limit) × (used ≡ (1000 + payload_gas wire env) % 2 ^ 64)
  unfolding charge
  charge_sound env e n m used h = ground arith

  check_nonce-Sound :
      (w : World Raw) (env e : TxEnvelope Raw) (n used : ℕ)
      → check_nonce wire w env ≡ admitted e n used
      → (e ≡ env) × Sound w e n used
  unfolding check_nonce
  check_nonce-Sound w env e n used h =
      ground (arith, charge_sound env e (get_nonce wire w.store env.sender) n used)

  check_nonce_refused :
      (w : World Raw) (env : TxEnvelope Raw)
      → env.nonce ≢ get_nonce wire w.store env.sender
      → check_nonce wire w env ≡ rejected code_bad_nonce
  unfolding check_nonce
  check_nonce_refused w env h = ground arith

  check_signature-Sound :
      (w v : World Raw) (env e : TxEnvelope Raw) (o : Option Bytes) (n used : ℕ)
      → check_signature wire w env o ≡ admitted e n used
      → (e ≡ env) × Sound w e n used × (check_signature wire v env o ≡ check_nonce wire v e)
  unfolding check_signature
  check_signature-Sound w v env e none n used h = cc
  check_signature-Sound w v env e (some m) n used h =
      ground (arith, check_nonce-Sound w env e n used)

code-ne-ok : (f : Error) → IsFailure f → code_from_error f code_unknown_mod ≢ code_ok
unfolding code_from_error
code-ne-ok plain plain_fails h = omega arith
code-ne-ok panic panic_fails h = omega arith
code-ne-ok (app c) (app_fails h) q = h q

pub failure-code :
    (f : Error) (res : ExecTxResult) → IsFailure f → failure f ≡ ok res → res.code ≢ code_ok
unfolding failure
failure-code panic res h e = cc
failure-code plain res h e =
    let same = ap (λ (x : ExecTxResult). x.code) (ok_inj _ res e) in
    λ q. code-ne-ok plain h (same ∙ q)
failure-code (app c) res h e =
    let same = ap (λ (x : ExecTxResult). x.code) (ok_inj _ res e) in
    λ q. code-ne-ok (app c) h (same ∙ q)

module _ {Raw : Type 0} (wire : Wire Raw) (codec : TxCodec Raw) where
  -- A refusal carries the code of an error.
  pub rejected_fails :
      (ctx : Context) (w : World Raw) (raw : Raw) (c : ℕ)
      → admit wire codec ctx w raw ≡ rejected c
      → c ≢ code_ok
  unfolding admit check_envelope check_signature check_nonce charge
  rejected_fails ctx w raw c h = ground arith

  check_envelope-Sound :
      (ctx : Context) (w v : World Raw) (env e : TxEnvelope Raw) (n used : ℕ)
      → check_envelope wire codec ctx w env ≡ admitted e n used
      → (e ≡ env)
        × Sound wire w e n used
        × (check_envelope wire codec ctx v env ≡ check_nonce wire v e)
  unfolding check_envelope
  check_envelope-Sound ctx w v env e n used h =
      ground (arith, check_signature-Sound wire w v env e (codec.sign_bytes (signable env)) n used)

  -- A transaction that is admitted decodes to the envelope that is executed, which passes the basic
  -- validation, is not past its height of timeout, if it has a positive one, and carries its
  -- sender's signature of the hash of its bytes to sign; its nonce is the one that the store has for
  -- its sender; the gas used so far is 1000 and 10 for each started KiB of the payload, modulo
  -- 2^64, and is within its limit; and in any other state of the chain the same transaction comes
  -- as far as the test of its nonce.
  pub admit-Sound :
      (ctx : Context) (w v : World Raw) (raw : Raw) (e : TxEnvelope Raw) (n used : ℕ)
      → admit wire codec ctx w raw ≡ admitted e n used
      → (codec.decode raw ≡ some e)
        × Vouched wire codec ctx e
        × Sound wire w e n used
        × ((kib : ℕ) × Charged wire e used kib)
        × (admit wire codec ctx v raw ≡ check_nonce wire v e)
  unfolding admit
  admit-Sound ctx w v raw e n used h = elim (Option-cases (codec.decode raw)) [
    | inl missing ↦ ground arith
    | inr (env, found) ↦
        let (is_env, sound, again) =
          check_envelope-Sound ctx w v env e n used (rw (found, admit) at h) in
        (
          found ∙ ap some (sym is_env),
          subst (Vouched wire codec ctx) (sym is_env)
              (check_envelope-Vouched wire codec ctx w env e n used (rw (found, admit) at h)),
          sound,
          (_, Sound-Charged wire w e n used sound),
          (rw (found, admit) again),
        )
  ]

  module _ (router : Router Raw) where
    settle_ok :
        (e : TxEnvelope Raw) (n used : ℕ) (o : Result ExecTxResult × World Raw) (res : ExecTxResult)
        → WireLaw wire
        → ((f : Error) → o.0 ≡ err f → IsFailure f)
        → (settle wire e n used o).0 ≡ ok res
        → res.code ≡ code_ok
        → get_nonce wire (settle wire e n used o).1.store e.sender ≡ (n + 1) % 2 ^ 64
    unfolding settle
    settle_ok e n used (err f, v) res law fails h c = absurd (failure-code f res (fails f refl) h c)
    settle_ok e n used (ok r, v) res law fails h c =
        let same = ap (λ (x : ExecTxResult). x.code) (ok_inj _ res h) in
        rw (same ∙ c)
          (get_nonce-set_nonce wire law v.store e.sender ((n + 1) % 2 ^ 64) (omega arith))

    pub deliver_tx-rejected :
        (ctx : Context) (w : World Raw) (raw : Raw) (c : ℕ)
        → admit wire codec ctx w raw ≡ rejected c
        → deliver_tx wire codec router ctx raw w ≡ (ok (fail_result c), w)
    unfolding deliver_tx
    deliver_tx-rejected ctx w raw c e = rw (e, deliver_tx)

    pub deliver_tx-admitted :
        (ctx : Context) (w : World Raw) (raw : Raw) (env : TxEnvelope Raw) (n used : ℕ)
        → admit wire codec ctx w raw ≡ admitted env n used
        → deliver_tx wire codec router ctx raw w ≡ settle wire env n used (execute router ctx env w)
    unfolding deliver_tx
    deliver_tx-admitted ctx w raw env n used e = rw (e, deliver_tx)

    -- A transaction that succeeds moves its sender's nonce on by one.
    pub nonce_after :
        (ctx : Context) (w : World Raw) (raw : Raw) (env : TxEnvelope Raw) (n used : ℕ)
        (res : ExecTxResult)
        → WireLaw wire
        → LawfulRouter wire router
        → admit wire codec ctx w raw ≡ admitted env n used
        → (deliver_tx wire codec router ctx raw w).0 ≡ ok res
        → res.code ≡ code_ok
        → get_nonce wire (deliver_tx wire codec router ctx raw w).1.store env.sender
          ≡ (n + 1) % 2 ^ 64
    nonce_after ctx w raw env n used res law lawful e h c =
        rw (deliver_tx-admitted ctx w raw env n used e) (
          settle_ok env n used (execute router ctx env w) res law
            ((Lawful-execute wire router lawful ctx env).fails w)
            (ap (λ d. d.0) (sym (deliver_tx-admitted ctx w raw env n used e)) ∙ h) c)

    -- Take a router whose modules never write an account's nonce and never fail with the code of
    -- success, and a slice that holds the bytes it was made of. A transaction that was executed
    -- with the code of success and comes again at once, in the same block, is refused with the
    -- code of a bad nonce, and the state stays as it is.
    pub replay_refused :
        (ctx : Context) (raw : Raw) (w : World Raw) (res : ExecTxResult)
        → WireLaw wire
        → LawfulRouter wire router
        → (deliver_tx wire codec router ctx raw w).0 ≡ ok res
        → res.code ≡ code_ok
        → let (_, v) = deliver_tx wire codec router ctx raw w in
          deliver_tx wire codec router ctx raw v ≡ (ok (fail_result code_bad_nonce), v)
    replay_refused ctx raw w res law lawful h good =
        elim (Admission-cases (admit wire codec ctx w raw)) [
          | inl (c, e) ↦ absurd (
              rejected_fails ctx w raw c e (
                ap (λ (x : ExecTxResult). x.code)
                  (ok_inj _ res (ap (λ d. d.0) (sym (deliver_tx-rejected ctx w raw c e)) ∙ h))
                ∙ good))
          | inr (env, n, used, e) ↦
              let v = (deliver_tx wire codec router ctx raw w).1 in
              let moved = nonce_after ctx w raw env n used res law lawful e h good in
              let (_, _, sound, _, again) = admit-Sound ctx w v raw env n used e in
              deliver_tx-rejected ctx v raw code_bad_nonce
                (again ∙ check_nonce_refused wire v env (stale env.nonce n _ sound.matches moved))
        ]
