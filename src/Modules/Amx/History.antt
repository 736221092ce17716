-- ===== src/Modules/Amx/History.antt =====
-- What the transactions of the market module, one after the other, make of an order.
use aacp.Prelude.{String, ◌≡◌, refl, ◌∙◌, ◌⊎◌, inr, false, some, str_eq, All}
use aacp.Codec.{Wire, Strings, JsonLaw}
use aacp.Types.Money.{Rational}
use aacp.App.Router.{World}
use aacp.App.Records.{Transactions}
use aacp.App.Records.Journeys.{Course, run-Course}
use aacp.App.Records.Status.{clash}
use aacp.Modules.Amx.Data.{Order, Codec, escrowed, order_active, canceled, rejected, order_failed}
use aacp.Modules.Amx.{submit_request, later_handlers, handlers}
use aacp.Modules.Amx.Orders.{
  Edge, escrows, activates, turns_down, gives_up, Move, closed-stays, order_kind, order_of,
  WellKeyed, later_handlers-Advancing,
}

-- What an order keeps.
pub record Kept (t u : Order) : Type 0 where
  pub same_listing : u.listing_id ≡ t.listing_id
  pub same_consumer : u.consumer ≡ t.consumer
  pub same_provider : u.provider ≡ t.provider
  pub same_price : u.agreed_price ≡ t.agreed_price
  pub same_commission : u.commission_amount ≡ t.commission_amount
  pub closed : (t.status ≡ canceled) ⊎ ((t.status ≡ rejected) ⊎ (t.status ≡ order_failed)) → u ≡ t

-- the ways to be active
activates_from : (a b : String) → Edge a b → b ≡ order_active → a ≡ escrowed
activates_from a b (escrows _ e) h = clash escrowed order_active b refl e h
activates_from a b (activates from _) h = from
activates_from a b (turns_down _ e) h = clash rejected order_active b refl e h
activates_from a b (gives_up _ e) h = clash canceled order_active b refl e h

same-Kept : (t : Order) → Kept t t
same-Kept t = record {
  same_listing = refl;
  same_consumer = refl;
  same_provider = refl;
  same_price = refl;
  same_commission = refl;
  closed = λ h. refl;
}

Move-Kept : (t v u : Order) → Move t v → Kept v u → Kept t u
Move-Kept t v u m k = record {
  same_listing = k.same_listing ∙ m.same_listing;
  same_consumer = k.same_consumer ∙ m.same_consumer;
  same_provider = k.same_provider ∙ m.same_provider;
  same_price = k.same_price ∙ m.same_price;
  same_commission = k.same_commission ∙ m.same_commission;
  closed = λ h. closed-stays t.status v.status h m.edge;
}

module _ {Raw Q : Type 0} (wire : Wire Raw) (strings : Strings) (big : Rational Q)
    (codec : Codec Raw) where
  -- Let JSON read back each order that it wrote, let each order of the store be stored under its
  -- own id, and run any transactions of the market module that submit no request, by whomever and
  -- whether they succeed or fail. Then an order that was in the store is there after each
  -- transaction, and each transaction makes at most one move of the state machine with it; its
  -- listing, its parties, its price and its commission are the same at the end; if it was
  -- canceled, rejected or never matched it is the same in every field; and if it is active then it
  -- was so at the start, or after some of these transactions the store had it as escrowed.
  pub order_history :
      (txs : Transactions Raw) (w : World Raw) (id : String) (t : Order)
      → JsonLaw codec.order
      → All (λ tx. str_eq "submit_request" tx.1.action ≡ false) txs
      → WellKeyed codec w.store
      → order_of codec w.store id ≡ some t
      → (u : Order) × Course
          (order_kind codec)
          (handlers wire strings big codec)
          Kept
          (λ v. v.status ≡ order_active)
          (λ v. v.status ≡ escrowed)
          id
          txs
          w
          t
          u
  order_history txs w id t law h keyed found =
      run-Course (order_kind codec) "submit_request" (submit_request wire strings big codec)
        (later_handlers wire strings big codec)
        (later_handlers-Advancing wire strings big codec law) Kept (λ v. v.status ≡ order_active)
        (λ v. v.status ≡ escrowed) txs w id t same-Kept Move-Kept
        (λ x y m e. inr (activates_from x.status y.status m.edge e)) h keyed found
