-- ===== src/Modules/Amx/Rules.antt =====
-- internal/modules/amx/module.go: what the handlers compute, apart from the store.
use aacp.Prelude.{◌+◌, String, List, [], ◌∷◌, ◌++◌, if◌then◌else◌, str_eq, Bytes, take}
use aacp.Prelude.Encode.{hex, utf8, decimal}
use aacp.Exec.{Error, app}
use aacp.Codec.{Wire}
use aacp.Types.{Event, TxEnvelope, code_amx_base}
use aacp.Types.Money.{Money}
use aacp.App.Router.{Context}
use aacp.Modules.Amx.Data.{
  Listing, CreateListingPayload, UpdateListingPayload, Order, active, matched, escrowed,
  order_active, canceled, order_failed, rejected,
}

abbrev pub bad_payload : Error
bad_payload = app (code_amx_base + 1)

abbrev pub invalid : Error
invalid = app (code_amx_base + 2)

abbrev pub wrong_provider : Error
wrong_provider = app (code_amx_base + 3)

abbrev pub no_permission : Error
no_permission = app (code_amx_base + 13)

abbrev pub no_money : Money
no_money = record { currency = ""; amount = "" }

abbrev pub join : List Bytes → Bytes
join [] = []
join (p ∷ parts) = p ++ join parts

-- the assignments of `updateListing`
unfoldable pub updated : Context → UpdateListingPayload → Listing → Listing
updated ctx p l = record l {
  title = if str_eq p.title "" then l.title else p.title;
  description = if str_eq p.description "" then l.description else p.description;
  pricing = if str_eq p.pricing.currency "" then l.pricing else p.pricing;
  updated_at = ctx.unix;
}

unfoldable pub toggled : Context → String → Listing → Listing
toggled ctx next l = record l { status = next; updated_at = ctx.unix }

abbrev pub order_book_changed : String → Event
order_book_changed id = record {
  kind = "OrderBookChanged";
  attributes = ("listing_id", id) ∷ ("status", active) ∷ [];
}

abbrev pub failed_event : String → Event
failed_event id = record { kind = "OrderFailed"; attributes = ("order_id", id) ∷ [] }

abbrev pub matched_event : String → String → Event
matched_event id listing_id = record {
  kind = "OrderMatched";
  attributes = ("order_id", id) ∷ ("listing_id", listing_id) ∷ [];
}

-- the price of a listing as money
abbrev pub agreed_price : Listing → Money
agreed_price l = record { currency = l.pricing.currency; amount = l.pricing.base_price }

module _ {Raw : Type 0} (wire : Wire Raw) where
  unfoldable pub short_hash : List Bytes → String
  short_hash parts = hex (take 8 (wire.sha256 (join parts)))

  unfoldable pub listing_id : TxEnvelope Raw → String → String
  unfolding short_hash
  listing_id env title = short_hash (env.sender ∷ utf8 (decimal env.nonce) ∷ utf8 title ∷ [])

  -- the listing that `createListing` saves
  unfoldable pub new_listing : Context → TxEnvelope Raw → CreateListingPayload → Listing
  new_listing ctx env p = record {
    listing_id = listing_id env p.title;
    provider = env.sender;
    title = p.title;
    description = p.description;
    capabilities = p.capabilities;
    pricing = p.pricing;
    sla = p.sla;
    tags = p.tags;
    status = active;
    created_at = ctx.unix;
    updated_at = ctx.unix;
  }

  -- the order of a request that no listing answers
  unfoldable pub failed_order : Context → TxEnvelope Raw → Order
  unfolding listing_id
  failed_order ctx env = record {
    order_id = listing_id env "failed";
    listing_id = "";
    consumer = env.sender;
    provider = [];
    agreed_price = no_money;
    commission_bps = 0;
    commission_amount = no_money;
    escrow_id = "";
    task_id = "";
    status = order_failed;
    created_at = ctx.unix;
    updated_at = ctx.unix;
  }

  -- the order for the best listing
  unfoldable pub matched_order : Context → TxEnvelope Raw → Listing → Money → Order
  unfolding listing_id short_hash
  matched_order ctx env best commission =
      let id = listing_id env best.listing_id in
      record {
        order_id = id;
        listing_id = best.listing_id;
        consumer = env.sender;
        provider = best.provider;
        agreed_price = agreed_price best;
        commission_bps = 1200;
        commission_amount = commission;
        escrow_id = short_hash (utf8 id ∷ utf8 "escrow" ∷ []);
        task_id = "";
        status = matched;
        created_at = ctx.unix;
        updated_at = ctx.unix;
      }

-- the transitions that `confirmMatch`, `rejectMatch` and `cancelOrder` pass on
abbrev pub confirms : List (String × String)
confirms = (matched, escrowed) ∷ (escrowed, order_active) ∷ []

abbrev pub rejects : List (String × String)
rejects = (matched, rejected) ∷ []

abbrev pub cancels : List (String × String)
cancels = (matched, canceled) ∷ (escrowed, canceled) ∷ (order_active, canceled) ∷ []

-- the assignments of `transitionOrder`
unfoldable pub moved_to : Context → String → Order → Order
moved_to ctx next o = record o { status = next; updated_at = ctx.unix }
