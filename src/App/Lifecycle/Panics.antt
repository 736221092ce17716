-- ===== src/App/Lifecycle/Panics.antt =====
-- A transaction whose handler panics: the block that holds it does not come to an end.
use aacp.Prelude.{ℕ, ◌≡◌, refl, sym, ap, ◌∙◌, subst, some, List, [], ◌∷◌, ◌++◌}
use aacp.Exec.{Error, panic, ok, err, Result, bind_ok, pure, ◌>>=◌}
use aacp.Codec.{Wire}
use aacp.Types.{TxEnvelope, ExecTxResult}
use aacp.App.Router.{World, Context, Router, Action, execute}
use aacp.App.Lifecycle.{
  App, TxCodec, FinalizeBlockRequest, admitted, admit, settle, failure, deliver_tx, deliver_txs,
  after_txs, finalize_block,
}
use aacp.App.Lifecycle.Replay.{deliver_tx-admitted}

bind_err :
    {S A B : Type 0} (m : S → Result A × S) (f : A → S → Result B × S) (s : S) (e : Error)
    → (m s).0 ≡ err e
    → ((m >>= f) s).0 ≡ err e
bind_err {S} {A} {B} m f s e = split (m s)
  where
    split : (o : Result A × S) → let n = λ (_ : S). o in o.0 ≡ err e → ((n >>= f) s).0 ≡ err e
    split (ok a, v) h = cc
    split (err e', v) h = let same : e' ≡ e = cc in rw same refl

bind_later :
    {S A B : Type 0} (m : S → Result A × S) (f : A → S → Result B × S) (s v : S) (a : A)
    → m s ≡ (ok a, v)
    → (m >>= f) s ≡ f a v
bind_later {S} {A} {B} m f s v a h = ap (λ o. let n = λ (_ : S). o in (n >>= f) s) h

module _ {Raw : Type 0} (wire : Wire Raw) (codec : TxCodec Raw) (router : Router Raw)
    (ctx : Context) where
  -- The transaction is admitted, and its handler panics.
  pub record Panics (raw : Raw) (w : World Raw) : Type 0 where
    pub env : TxEnvelope Raw
    pub expected : ℕ
    pub used : ℕ
    pub is_admitted : admit wire codec ctx w raw ≡ admitted env expected used
    pub stops : (execute router ctx env w).0 ≡ err panic

  settle_panic :
      (env : TxEnvelope Raw) (n used : ℕ) (o : Result ExecTxResult × World Raw)
      → o.0 ≡ err panic
      → (settle wire env n used o).0 ≡ err panic
  unfolding settle failure
  settle_panic env n used (ok res, v) h = cc
  settle_panic env n used (err e, v) h =
      let same : e ≡ panic = cc in rw (same, settle, failure) refl

  deliver_tx_panic :
      (raw : Raw) (w : World Raw)
      → Panics raw w
      → (deliver_tx wire codec router ctx raw w).0 ≡ err panic
  deliver_tx_panic raw w p =
      rw (deliver_tx-admitted wire codec router ctx w raw p.env p.expected p.used p.is_admitted)
        (settle_panic p.env p.expected p.used (execute router ctx p.env w) p.stops)

  abbrev then_ : ExecTxResult → List ExecTxResult → Action Raw (List ExecTxResult)
  then_ res results = pure (res ∷ results)

  abbrev run_txs : List Raw → Action Raw (List ExecTxResult)
  run_txs = deliver_txs wire codec router ctx

  abbrev run_tx : Raw → Action Raw ExecTxResult
  run_tx = deliver_tx wire codec router ctx

  -- The transactions before it have been executed, and it panics.
  pub deliver_txs_panic :
      (txs : List Raw) (raw : Raw) (rest : List Raw) (w : World Raw) (results : List ExecTxResult)
      → (run_txs txs w).0 ≡ ok results
      → Panics raw (run_txs txs w).1
      → (run_txs (txs ++ raw ∷ rest) w).0 ≡ err panic
  unfolding deliver_txs
  deliver_txs_panic [] raw rest w results h p =
      bind_err (run_tx raw) (λ x. run_txs rest >>= then_ x) w panic (deliver_tx_panic raw w p)
  deliver_txs_panic (tx ∷ txs) raw rest w results h p =
      let (res, one, step) = bind_ok (run_tx tx) (λ x. run_txs txs >>= then_ x) w results h in
      let v = (run_tx tx w).1 in
      let (others, more, last_) =
        bind_ok (run_txs txs) (then_ res) v results (ap (λ d. d.0) (sym step) ∙ h) in
      let at_end : (run_txs (tx ∷ txs) w).1 ≡ (run_txs txs v).1 = ap (λ d. d.1) (step ∙ last_) in
      let there = deliver_txs_panic txs raw rest v others more (rw at_end at p) in
      ap (λ d. d.0)
        (bind_later (run_tx tx) (λ x. run_txs (txs ++ raw ∷ rest) >>= then_ x) w v res
          (λ i. (one i, v)))
      ∙ bind_err (run_txs (txs ++ raw ∷ rest)) (then_ res) v panic there

module _ {Raw : Type 0} (wire : Wire Raw) (codec : TxCodec Raw) (router : Router Raw)
    (req : FinalizeBlockRequest Raw) where
  after_txs_panic :
      (a : App Raw) (o : Result (List ExecTxResult) × World Raw)
      → o.0 ≡ err panic
      → (after_txs wire codec router req.ctx a o).0 ≡ err panic
  unfolding after_txs
  after_txs_panic a (ok results, w) h = cc
  after_txs_panic a (err e, w) h = let same : e ≡ panic = cc in rw (same, after_txs) refl

  -- A block panics with its first transaction that does.
  pub finalize_block_panic :
      (txs : List Raw) (raw : Raw) (rest : List Raw) (results : List ExecTxResult) (a : App Raw)
      → req.txs ≡ txs ++ raw ∷ rest
      → (deliver_txs wire codec router req.ctx txs a.world).0 ≡ ok results
      → Panics wire codec router req.ctx raw (deliver_txs wire codec router req.ctx txs a.world).1
      → (finalize_block wire codec router (some req) a).0 ≡ err panic
  unfolding finalize_block
  finalize_block_panic txs raw rest results a split_ before p = after_txs_panic a _ (
      subst (λ l. (deliver_txs wire codec router req.ctx l a.world).0 ≡ err panic) (sym split_)
        (deliver_txs_panic wire codec router req.ctx txs raw rest a.world results before p))
