-- ===== src/App/Lifecycle/Blocks.antt =====
-- A whole block: one result for each transaction, and what it does to the nonces.
use aacp.Prelude.{
  ℕ, suc, sym, ◌+◌, ◌%◌, ◌^◌, ◌<◌, ◌≡◌, ◌≢◌, refl, ap, ◌∙◌, ◌&&◌, Option, none, some, List, [], ◌∷◌,
  arith, ◌==◌, inl, inr, if◌then◌else◌, length, Bytes, equal_bytes, equal_bytes-eq,
}
use aacp.Prelude.Encode.{IsBytes}
use aacp.Exec.{Error, ok, err, Result, bind_ok, ok_inj, pure, ◌>>=◌}
use aacp.Codec.{Wire, WireLaw}
use aacp.State.Engine.{Store, get, commit}
use aacp.State.Nonce.{get_nonce}
use aacp.State.Nonce.Laws.{nonce_isolated}
use aacp.Types.{Event, TxEnvelope, ExecTxResult, fail_result, code_ok}
use aacp.App.Router
use aacp.App.Router.{World, Context, Router, Action, execute}
use aacp.App.Lawful.{IsFailure, LawfulRouter, Lawful-execute, Lawful-end_block}
use aacp.App.Lifecycle.{
  App, TxCodec, FinalizeBlockRequest, FinalizeBlockResponse, admit, check_nonce, settle, deliver_tx,
  deliver_txs, after_txs, close_block, finish_block, finalize_block,
}
use aacp.App.Lifecycle.Replay.{
  Sound, Admission-cases, admit-Sound, rejected_fails, deliver_tx-rejected, deliver_tx-admitted,
  failure-code,
}

module _ {Raw : Type 0} (wire : Wire Raw) where
  settle_nonce :
      (e : TxEnvelope Raw) (n used : ℕ) (o : Result ExecTxResult × World Raw) (p : Bytes)
      (res : ExecTxResult)
      → WireLaw wire
      → ((f : Error) → o.0 ≡ err f → IsFailure f)
      → IsBytes e.sender
      → IsBytes p
      → (settle wire e n used o).0 ≡ ok res
      → get_nonce wire (settle wire e n used o).1.store p ≡ (
          if equal_bytes e.sender p && res.code == code_ok
          then (n + 1) % 2 ^ 64
          else get_nonce wire o.1.store p)
  unfolding settle
  settle_nonce e n used (err f, v) p res law fails hs hp h =
      ground (arith, failure-code f res (fails f refl) h)
  settle_nonce e n used (ok r, v) p res law fails hs hp h =
      let same = ap (λ (x : ExecTxResult). x.code) (ok_inj _ res h) in
      rw (← same) (
        ground (
          arith,
          nonce_isolated wire law v.store e.sender p ((n + 1) % 2 ^ 64) (omega arith) hs hp,
        ))

-- the transactions of an account that a block executed with success
abbrev sent_by : {Raw : Type 0} → Bytes → Option (TxEnvelope Raw) → ExecTxResult → ℕ
sent_by p none res = 0
sent_by p (some e) res = if equal_bytes e.sender p && res.code == code_ok then 1 else 0

sent_by_failure :
    {Raw : Type 0} (p : Bytes) (o : Option (TxEnvelope Raw)) (c : ℕ)
    → c ≢ code_ok
    → sent_by p o (fail_result c) ≡ 0
sent_by_failure p none c h = refl
sent_by_failure p (some e) c h = ground arith

module _ {Raw : Type 0} (codec : TxCodec Raw) where
  abbrev pub successes : Bytes → List Raw → List ExecTxResult → ℕ
  successes p [] results = 0
  successes p (raw ∷ txs) [] = 0
  successes p (raw ∷ txs) (res ∷ results) =
      sent_by p (codec.decode raw) res + successes p txs results

-- The senders that `DecodeTx` returns are byte slices.
pub record SenderBytes {Raw : Type 0} (codec : TxCodec Raw) : Type 0 where
  pub bytes : (raw : Raw) (e : TxEnvelope Raw) → codec.decode raw ≡ some e → IsBytes e.sender

module _ {Raw : Type 0} (wire : Wire Raw) (codec : TxCodec Raw) (router : Router Raw)
    (law : WireLaw wire) (lawful : LawfulRouter wire router) (senders : SenderBytes codec)
    (ctx : Context) (p : Bytes) (hp : IsBytes p) where
  abbrev run_tx : Raw → Action Raw ExecTxResult
  run_tx = deliver_tx wire codec router ctx

  settle_counts :
      (raw : Raw) (env : TxEnvelope Raw) (n used : ℕ) (w : World Raw) (res : ExecTxResult)
      → get_nonce wire w.store p < 2 ^ 64
      → (codec.decode raw ≡ some env)
        × Sound wire w env n used
        × (admit wire codec ctx w raw ≡ check_nonce wire w env)
      → let o = execute router ctx env w in
        (settle wire env n used o).0 ≡ ok res
        → get_nonce wire (settle wire env n used o).1.store p
          ≡ (get_nonce wire w.store p + sent_by p (codec.decode raw) res) % 2 ^ 64
  settle_counts raw env n used w res small (found, sound, again) h =
      let o = execute router ctx env w in
      let kept = (Lawful-execute wire router lawful ctx env).keeps w p in
      let fails = (Lawful-execute wire router lawful ctx env).fails w in
      let moved =
        settle_nonce wire env n used o p res law fails (senders.bytes raw env found) hp h in
      rw found (
        ground (
          arith,
          moved,
          kept,
          sound.expected,
          equal_bytes-eq env.sender p,
          small,
          λ (q : env.sender ≡ p). ap (get_nonce wire w.store) q,
        ))

  deliver_tx_nonce :
      (raw : Raw) (w : World Raw) (res : ExecTxResult)
      → get_nonce wire w.store p < 2 ^ 64
      → (run_tx raw w).0 ≡ ok res
      → get_nonce wire (run_tx raw w).1.store p
        ≡ (get_nonce wire w.store p + sent_by p (codec.decode raw) res) % 2 ^ 64
  deliver_tx_nonce raw w res small h = elim (Admission-cases (admit wire codec ctx w raw)) [
    | inl (c, e) ↦
        let step = deliver_tx-rejected wire codec router ctx w raw c e in
        let same = ok_inj _ res (ap (λ d. d.0) (sym step) ∙ h) in
        rw step (
          rw (← same) (
            omega (
              arith,
              sent_by_failure p (codec.decode raw) c (rejected_fails wire codec ctx w raw c e),
            )))
    | inr (env, n, used, e) ↦
        let step = deliver_tx-admitted wire codec router ctx w raw env n used e in
        let sound = admit-Sound wire codec ctx w w raw env n used e in
        rw step (
          settle_counts raw env n used w res small (sound.0, sound.2, sound.4)
            (ap (λ d. d.0) (sym step) ∙ h))
  ]

  nonce_small :
      (w : World Raw) (k : ℕ)
      → get_nonce wire w.store p ≡ k % 2 ^ 64
      → get_nonce wire w.store p < 2 ^ 64
  nonce_small w k e = omega arith

  abbrev run_txs : List Raw → Action Raw (List ExecTxResult)
  run_txs = deliver_txs wire codec router ctx

  abbrev then_ : ExecTxResult → List ExecTxResult → Action Raw (List ExecTxResult)
  then_ res results = pure (res ∷ results)

  deliver_txs_nonce :
      (txs : List Raw) (w : World Raw) (results : List ExecTxResult)
      → get_nonce wire w.store p < 2 ^ 64
      → (run_txs txs w).0 ≡ ok results
      → (length results ≡ length txs)
        × (get_nonce wire (run_txs txs w).1.store p
            ≡ (get_nonce wire w.store p + successes codec p txs results) % 2 ^ 64)
  unfolding deliver_txs
  deliver_txs_nonce [] w results small h = rw (← ok_inj [] results h) (refl, omega arith)
  deliver_txs_nonce (raw ∷ txs) w results small h =
      let (res, one, step) = bind_ok (run_tx raw) (λ x. run_txs txs >>= then_ x) w results h in
      let v = (run_tx raw w).1 in
      let (rest, more, last_) =
        bind_ok (run_txs txs) (then_ res) v results (ap (λ d. d.0) (sym step) ∙ h) in
      let same = ok_inj (res ∷ rest) results (ap (λ d. d.0) (sym (step ∙ last_)) ∙ h) in
      let here = deliver_tx_nonce raw w res small one in
      let (len, there) = deliver_txs_nonce txs v rest (nonce_small v _ here) more in
      rw (← same, step ∙ last_) (ap suc len, omega (arith, here, there))

get_nonce-commit :
    {Raw : Type 0} (wire : Wire Raw) (s : Store Raw) (p : Bytes)
    → get_nonce wire (commit wire.to_bytes wire.sha256 s).1 p ≡ get_nonce wire s p
unfolding get_nonce get commit
get_nonce-commit wire s p = refl

-- What a block that was finalized has done: a result for each transaction, the nonce of every
-- account moved by the number of its successes, and no event left on the bus.
pub record Accounts {Raw : Type 0} (wire : Wire Raw) (codec : TxCodec Raw) (p : Bytes)
    (txs : List Raw) (a b : App Raw) (resp : FinalizeBlockResponse) : Type 0 where
  pub answered : length resp.tx_results ≡ length txs
  pub counted :
      get_nonce wire b.world.store p
      ≡ (get_nonce wire a.world.store p + successes codec p txs resp.tx_results) % 2 ^ 64
  pub flushed : b.world.bus ≡ []

close_block-Accounts :
    {Raw : Type 0} (wire : Wire Raw) (codec : TxCodec Raw) (p : Bytes) (txs : List Raw)
    (a : App Raw) (results : List ExecTxResult) (events : List Event) (w : World Raw)
    (resp : FinalizeBlockResponse)
    → length results ≡ length txs
    → get_nonce wire w.store p
      ≡ (get_nonce wire a.world.store p + successes codec p txs results) % 2 ^ 64
    → (close_block wire results events w).0 ≡ ok resp
    → Accounts wire codec p txs a (close_block wire results events w).1 resp
unfolding close_block
close_block-Accounts wire codec p txs a results events w resp len h e =
    let same : results ≡ resp.tx_results = cc e in
    record {
      answered = rw (← same) len;
      counted = rw get_nonce-commit (rw (← same) h);
      flushed = refl;
    }

finish_block-Accounts :
    {Raw : Type 0} (wire : Wire Raw) (codec : TxCodec Raw) (p : Bytes) (txs : List Raw)
    (a : App Raw) (results : List ExecTxResult) (o : Result (List Event) × World Raw)
    (resp : FinalizeBlockResponse)
    → length results ≡ length txs
    → get_nonce wire o.1.store p
      ≡ (get_nonce wire a.world.store p + successes codec p txs results) % 2 ^ 64
    → (finish_block wire results a o).0 ≡ ok resp
    → Accounts wire codec p txs a (finish_block wire results a o).1 resp
unfolding finish_block
finish_block-Accounts wire codec p txs a results (err f, w) resp len h e = cc
finish_block-Accounts wire codec p txs a results (ok events, w) resp len h e =
    close_block-Accounts wire codec p txs a results events w resp len h e

module _ {Raw : Type 0} (wire : Wire Raw) (codec : TxCodec Raw) (router : Router Raw)
    (req : FinalizeBlockRequest Raw) (a : App Raw) (p : Bytes) (resp : FinalizeBlockResponse)
    (law : WireLaw wire) (lawful : LawfulRouter wire router) (senders : SenderBytes codec)
    (hp : IsBytes p) (small : get_nonce wire a.world.store p < 2 ^ 64) where
  after_txs-Accounts :
      (o : Result (List ExecTxResult) × World Raw)
      → o ≡ deliver_txs wire codec router req.ctx req.txs a.world
      → (after_txs wire codec router req.ctx a o).0 ≡ ok resp
      → Accounts wire codec p req.txs a (after_txs wire codec router req.ctx a o).1 resp
  unfolding after_txs
  after_txs-Accounts (err e, w) h r = cc
  after_txs-Accounts (ok results, w) h r =
      let (len, moved) =
        deliver_txs_nonce wire codec router law lawful senders req.ctx p hp req.txs a.world results
          small (ap (λ d. d.0) (sym h)) in
      let kept = (Lawful-end_block wire router req.ctx lawful).keeps w p in
      finish_block-Accounts wire codec p req.txs a results (Router.end_block router req.ctx w) resp
        len (kept ∙ (ap (λ d. get_nonce wire d.1.store p) h ∙ moved)) r

-- Take a router whose modules never write an account's nonce and never fail with the code of
-- success, a slice that holds the bytes it was made of, senders that are byte slices, and an
-- account whose nonce is a uint64. When a block is finalized without an error, each of its
-- transactions has one result, the account's nonce has moved on by the number of its transactions
-- that have the code of success, modulo 2^64, and the event bus is empty.
pub finalize_block-Accounts :
    {Raw : Type 0} (wire : Wire Raw) (codec : TxCodec Raw) (router : Router Raw)
    (req : FinalizeBlockRequest Raw) (a : App Raw) (p : Bytes) (resp : FinalizeBlockResponse)
    → WireLaw wire
    → LawfulRouter wire router
    → SenderBytes codec
    → IsBytes p
    → get_nonce wire a.world.store p < 2 ^ 64
    → (finalize_block wire codec router (some req) a).0 ≡ ok resp
    → Accounts wire codec p req.txs a (finalize_block wire codec router (some req) a).1 resp
unfolding finalize_block
finalize_block-Accounts wire codec router req a p resp law lawful senders hp small h =
    after_txs-Accounts wire codec router req a p resp law lawful senders hp small _ refl h
