-- ===== src/Modules/Fiat/History.antt =====
-- What the transactions of the escrow module, one after the other, make of an escrow.
use aacp.Prelude.{String, ◌<>◌, ◌≡◌, refl, ◌∙◌, ◌⊎◌, inr, false, some, str_eq, All}
use aacp.Exec.{pure, ◌>>◌}
use aacp.Codec.{Wire, JsonLaw}
use aacp.State.Keys.{prefix_fiat_deposit, prefix_fiat_pool}
use aacp.State.Keys.Laws.{prefixes_apart}
use aacp.Types.{TxEnvelope, ExecTxResult}
use aacp.Types.Money.{Rational}
use aacp.App.Router.{World, Context}
use aacp.App.Post.{Post, post_rules}
use aacp.App.Records.{
  NoRecordKey, AdvancingHandler, Advancing, Advances-refl, Advances-save, Transactions,
}
use aacp.App.Records.Journeys.{Course, run-Course}
use aacp.App.Records.Leaves.{
  Leaves, leaving_rules, post_through, Advances-same, Advances-same_save, Leaves-AdvancingHandler,
}
use aacp.App.Records.Status.{clash}
use aacp.Modules.Fiat.Data.{Escrow, Codec, funded, locked, released, refunded}
use aacp.Modules.Fiat.{
  get_deposit, set_deposit, set_insurance_pool, save_escrow, load_escrow, create_escrow,
  fund_escrow, distribute_commission, release_escrow, lock_escrow, refund_escrow, slash_deposit,
  deposit_funds, withdraw_deposit, later_handlers, handlers, begin_release,
}
use aacp.Modules.Fiat.Moves.{
  Edge, funds, locks, releases, refunds, Move, fund-Move, lock-Move, refund-Move, release-Move,
  escrow_kind, escrow_kind-KindLaw, escrow_of, WellKeyed, closed-stays,
}

module _ {Raw Q : Type 0} (wire : Wire Raw) (big : Rational Q) (codec : Codec Raw) where
  deposit_key-other : (id : String) → NoRecordKey (escrow_kind codec) (prefix_fiat_deposit <> id)
  deposit_key-other id e = prefixes_apart "fiat/d" "ep/" "fiat/e" "/" id e refl refl

  pool_key-other : NoRecordKey (escrow_kind codec) prefix_fiat_pool
  pool_key-other e = prefixes_apart "fiat/p" "ool" "fiat/e" "/" "" e refl refl

  ruleset leaving = (leaving_rules, deposit_key-other, pool_key-other)

  Leaves-distribute_commission :
      (e : Escrow) → Leaves (escrow_kind codec) (distribute_commission wire big codec e)
  unfolding distribute_commission set_insurance_pool
  Leaves-distribute_commission e = search leaving depth 16

  Leaves-slash_deposit :
      (ctx : Context) (env : TxEnvelope Raw)
      → Leaves (escrow_kind codec) (slash_deposit wire big codec ctx env)
  unfolding slash_deposit get_deposit set_deposit set_insurance_pool
  Leaves-slash_deposit ctx env = search leaving depth 24

  Leaves-deposit_funds :
      (ctx : Context) (env : TxEnvelope Raw)
      → Leaves (escrow_kind codec) (deposit_funds wire big codec ctx env)
  unfolding deposit_funds set_deposit
  Leaves-deposit_funds ctx env = search leaving depth 20

  Leaves-withdraw_deposit :
      (ctx : Context) (env : TxEnvelope Raw)
      → Leaves (escrow_kind codec) (withdraw_deposit wire big codec ctx env)
  unfolding withdraw_deposit get_deposit set_deposit
  Leaves-withdraw_deposit ctx env = search leaving depth 24

  ruleset advancing = (post_rules, Advances-refl, Advances-save, escrow_kind-KindLaw)

  module _ (law : JsonLaw codec.escrow) where
    fund_escrow-Advancing : AdvancingHandler (escrow_kind codec) (fund_escrow wire big codec)
    unfolding fund_escrow load_escrow save_escrow
    fund_escrow-Advancing ctx env w = search (advancing, fund-Move, law) depth 20

    lock_escrow-Advancing : AdvancingHandler (escrow_kind codec) (lock_escrow wire big codec)
    unfolding lock_escrow load_escrow save_escrow
    lock_escrow-Advancing ctx env w = search (advancing, lock-Move, law) depth 20

    refund_escrow-Advancing : AdvancingHandler (escrow_kind codec) (refund_escrow wire big codec)
    unfolding refund_escrow load_escrow save_escrow
    refund_escrow-Advancing ctx env w = search (advancing, refund-Move, law) depth 20

    -- the commission is booked, and the escrow saved
    released_after :
        (w : World Raw) (id : String) (e u : Escrow) (res : ExecTxResult)
        → escrow_of codec w.store id ≡ some e
        → Move e u
        → Post w
            (distribute_commission wire big codec (begin_release e)
              >> (save_escrow codec u >> pure res))
            (Advancing (escrow_kind codec) w)
    unfolding save_escrow
    released_after w id e u res found m =
        post_through (escrow_kind codec) w (Advancing (escrow_kind codec) w)
          (distribute_commission wire big codec (begin_release e)) (save_escrow codec u >> pure res)
          (Leaves-distribute_commission (begin_release e))
          (λ f v same. Advances-same (escrow_kind codec) w.store v.store same)
          λ v same. search (
            post_rules, Advances-same, Advances-same_save, escrow_kind-KindLaw, m, law, same, found,
          )

    release_escrow-Advancing : AdvancingHandler (escrow_kind codec) (release_escrow wire big codec)
    unfolding release_escrow load_escrow
    release_escrow-Advancing ctx env w =
        search (post_rules, Advances-refl, released_after, release-Move) depth 20

    later_handlers-Advancing :
        All (λ e. AdvancingHandler (escrow_kind codec) e.1) (later_handlers wire big codec)
    later_handlers-Advancing = (
      fund_escrow-Advancing,
      (
        release_escrow-Advancing,
        (
          lock_escrow-Advancing,
          (
            refund_escrow-Advancing,
            (
              Leaves-AdvancingHandler (escrow_kind codec) _ Leaves-slash_deposit,
              (
                Leaves-AdvancingHandler (escrow_kind codec) _ Leaves-deposit_funds,
                (Leaves-AdvancingHandler (escrow_kind codec) _ Leaves-withdraw_deposit, tt),
              ),
            ),
          ),
        ),
      ),
    )

-- What an escrow keeps.
pub record Kept (t u : Escrow) : Type 0 where
  pub same_order : u.order_id ≡ t.order_id
  pub same_consumer : u.consumer ≡ t.consumer
  pub same_provider : u.provider ≡ t.provider
  pub same_total : u.total_amount ≡ t.total_amount
  pub same_fee : u.service_fee ≡ t.service_fee
  pub same_commission : u.commission ≡ t.commission
  pub closed : (t.status ≡ released) ⊎ (t.status ≡ refunded) → u ≡ t

-- the ways to be released
releases_from : (a b : String) → Edge a b → b ≡ released → (a ≡ funded) ⊎ (a ≡ locked)
releases_from a b (funds _ e) h = clash funded released b refl e h
releases_from a b (locks _ e) h = clash locked released b refl e h
releases_from a b (releases from _) h = from
releases_from a b (refunds _ e) h = clash refunded released b refl e h

same-Kept : (t : Escrow) → Kept t t
same-Kept t = record {
  same_order = refl;
  same_consumer = refl;
  same_provider = refl;
  same_total = refl;
  same_fee = refl;
  same_commission = refl;
  closed = λ h. refl;
}

Move-Kept : (t v u : Escrow) → Move t v → Kept v u → Kept t u
Move-Kept t v u m k = record {
  same_order = k.same_order ∙ m.same_order;
  same_consumer = k.same_consumer ∙ m.same_consumer;
  same_provider = k.same_provider ∙ m.same_provider;
  same_total = k.same_total ∙ m.same_total;
  same_fee = k.same_fee ∙ m.same_fee;
  same_commission = k.same_commission ∙ m.same_commission;
  closed = λ h. closed-stays t v h m;
}

module _ {Raw Q : Type 0} (wire : Wire Raw) (big : Rational Q) (codec : Codec Raw) where
  -- Let JSON read back each escrow that it wrote, let each escrow of the store be stored under its
  -- own id, and run any transactions of the escrow module that create no escrow, by whomever and
  -- whether they succeed or fail. Then an escrow that was in the store is there after each
  -- transaction, and each transaction makes at most one move of the state machine with it; its
  -- order, its parties, its fee, its commission and its total are the same at the end; if it was
  -- released or refunded it is the same in every field; and if it is released then it was so at
  -- the start, or after some of these transactions the store had it as funded or locked.
  pub escrow_history :
      (txs : Transactions Raw) (w : World Raw) (id : String) (t : Escrow)
      → JsonLaw codec.escrow
      → All (λ tx. str_eq "create_escrow" tx.1.action ≡ false) txs
      → WellKeyed codec w.store
      → escrow_of codec w.store id ≡ some t
      → (u : Escrow) × Course
          (escrow_kind codec)
          (handlers wire big codec)
          Kept
          (λ v. v.status ≡ released)
          (λ v. (v.status ≡ funded) ⊎ (v.status ≡ locked))
          id
          txs
          w
          t
          u
  escrow_history txs w id t law h keyed found =
      run-Course (escrow_kind codec) "create_escrow" (create_escrow wire big codec)
        (later_handlers wire big codec) (later_handlers-Advancing wire big codec law) Kept
        (λ v. v.status ≡ released) (λ v. (v.status ≡ funded) ⊎ (v.status ≡ locked)) txs w id t
        same-Kept Move-Kept (λ x y m e. inr (releases_from x.status y.status m.edge e)) h keyed
        found
