-- ===== src/Modules/Fiat/Malformed.antt =====
-- A deposit of an amount that is no number.
use aacp.Prelude.{ℕ, String, ◌≡◌, refl, ap, ◌∙◌, some, List, ◌∷◌, ◌++◌}
use aacp.Exec.{Error, panic, Result, ok, err, or_panic, and_then}
use aacp.Codec.{Wire}
use aacp.State.Engine.{lookup}
use aacp.Types.{TxEnvelope, ExecTxResult}
use aacp.Types.Money.{Rational, parse_decimal}
use aacp.App.Router.{World, Context, Router, execute, execute_action}
use aacp.App.Lifecycle.{
  App, TxCodec, FinalizeBlockRequest, admitted, admit, deliver_txs, finalize_block,
}
use aacp.App.Lifecycle.Panics.{finalize_block_panic}
use aacp.Modules.Fiat.Data.{DepositPayload, Codec}
use aacp.Modules.Fiat.Amounts.{amount_of, both_amounts, add_decimal}
use aacp.Modules.Fiat.{deposit_funds, handlers, fiat}

or_panic_then :
    {A B : Type 0} (r : Result A) (f : A → Result B)
    → ((a : A) → f a ≡ err panic)
    → and_then (or_panic r) f ≡ err panic
unfolding and_then or_panic
or_panic_then (ok a) f h = h a
or_panic_then (err e) f h = refl

module _ {Q : Type 0} (big : Rational Q) where
  add_decimal_panic :
      (a b : String) (e : Error) → parse_decimal big b ≡ err e → add_decimal big a b ≡ err panic
  unfolding add_decimal both_amounts amount_of
  add_decimal_panic a b e h =
      or_panic_then (parse_decimal big a) _ λ ra. rw (h, or_panic, and_then) refl

module _ {Raw Q : Type 0} (wire : Wire Raw) (big : Rational Q) (codec : Codec Raw) where
  -- a transaction that deposits an amount that `ParseDecimal` refuses
  pub record UnparsableDeposit (env : TxEnvelope Raw) : Type 0 where
    pub to_fiat : env.module_name ≡ "fiat"
    pub deposits : env.action ≡ "deposit_funds"
    pub request : DepositPayload
    pub decoded : codec.deposit_request env.payload ≡ some request
    pub refusal : Error
    pub malformed : parse_decimal big request.amount ≡ err refusal

  deposit_funds_panic :
      (ctx : Context) (env : TxEnvelope Raw) (w : World Raw)
      → UnparsableDeposit env
      → (deposit_funds wire big codec ctx env w).0 ≡ err panic
  unfolding deposit_funds
  deposit_funds_panic ctx env w m =
      rw (m.decoded, add_decimal_panic big _ m.request.amount m.refusal m.malformed) refl

  malformed-Panics :
      (router : Router Raw) (ctx : Context) (env : TxEnvelope Raw) (w : World Raw)
      → lookup "fiat" router ≡ some (fiat wire big codec)
      → UnparsableDeposit env
      → (execute router ctx env w).0 ≡ err panic
  unfolding execute execute_action lookup
  malformed-Panics router ctx env w there m =
      let at_module : lookup env.module_name router ≡ some (fiat wire big codec) =
        ap (λ n. lookup n router) m.to_fiat ∙ there in
      let at_action : lookup env.action (handlers wire big codec)
          ≡ some (deposit_funds wire big codec) =
        ap (λ n. lookup n (handlers wire big codec)) m.deposits in
      rw (at_module, execute) (rw (at_action, execute_action) (deposit_funds_panic ctx env w m))

  -- Take a router that has the escrow module, a block in which some transactions are executed
  -- before one that is admitted and deposits an amount that `ParseDecimal` refuses. Then
  -- `FinalizeBlock` ends in a run-time panic, whatever the other transactions and the store are:
  -- the block has no response.
  pub malformed_deposit_panics :
      (tx_codec : TxCodec Raw) (router : Router Raw) (req : FinalizeBlockRequest Raw)
      (txs : List Raw) (raw : Raw) (rest : List Raw) (results : List ExecTxResult) (a : App Raw)
      (env : TxEnvelope Raw) (expected used : ℕ)
      → lookup "fiat" router ≡ some (fiat wire big codec)
      → req.txs ≡ txs ++ raw ∷ rest
      → (deliver_txs wire tx_codec router req.ctx txs a.world).0 ≡ ok results
      → admit wire tx_codec req.ctx (deliver_txs wire tx_codec router req.ctx txs a.world).1 raw
        ≡ admitted env expected used
      → UnparsableDeposit env
      → (finalize_block wire tx_codec router (some req) a).0 ≡ err panic
  malformed_deposit_panics tx_codec router req txs raw rest results a env expected used there split_
        before let_in m =
      let v = (deliver_txs wire tx_codec router req.ctx txs a.world).1 in
      finalize_block_panic wire tx_codec router req txs raw rest results a split_ before (record {
        env = env;
        expected = expected;
        used = used;
        is_admitted = let_in;
        stops = malformed-Panics router req.ctx env v there m;
      })
