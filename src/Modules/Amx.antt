-- ===== src/Modules/Amx.antt =====
-- internal/modules/amx/module.go: listings, requests and orders.
pub mod Data
pub mod Matching
pub mod Rules
pub mod Lawful
pub mod Orders
pub mod Best
pub mod History
use aacp.Prelude.{
  ℕ, ◌+◌, String, ◌<>◌, not, ◌&&◌, Option, none, some, List, [], ◌∷◌, str_eq, equal_bytes, length,
  ◌==◌, Bytes,
}
use aacp.Prelude.Int.{ℤ, pos, ltb_ℤ}
use aacp.Exec.{Error, app, Result, ok, err, pure, fail, lift, fail_if, or_fail, ◌>>=◌, ◌>>◌}
use aacp.Codec.{Wire, Strings}
use aacp.State.Engine.{lookup}
use aacp.State.Keys.{listing_key, order_key, prefix_amx_index, prefix_amx_listing}
use aacp.Types.{Event, ExecTxResult, TxEnvelope, success_result, code_decode_fail, code_amx_base}
use aacp.Types.Money.{Rational, parse_decimal, apply_bps}
use aacp.App.Router.{
  Context, Action, ActionHandler, Module, put, ignore, list_prefix, decode_payload, save_json,
  load_json, execute_action, common_init_genesis, common_query,
}
use Data.{
  CapabilityRef, Listing, SubmitRequestPayload, Order, Codec, active, paused, delisted, matched,
}
use Matching.{Scored, candidates, ranked}
unfoldable pub use Rules.{
  short_hash, listing_id, new_listing, updated, toggled, failed_order, matched_order, moved_to,
}
pub use Rules.{
  bad_payload, invalid, wrong_provider, no_permission, order_book_changed, failed_event,
  matched_event, agreed_price, confirms, rejects, cancels,
}

-- an error of a helper, as an error with a code
unfoldable pub with_code : {A : Type 0} → ℕ → Result A → Result A
with_code c (err e) = err (app c)
with_code c (ok a) = ok a

module _ {Raw Q : Type 0} (wire : Wire Raw) (strings : Strings) (big : Rational Q)
    (codec : Codec Raw) where
  unfoldable pub save_listing : Listing → Action Raw Unit
  save_listing l = save_json codec.listing (app code_decode_fail) (listing_key l.listing_id) l

  unfoldable pub load_listing : String → Action Raw Listing
  load_listing id =
      load_json codec.listing (app code_amx_base) (app code_decode_fail) (listing_key id)

  unfoldable pub save_order : Order → Action Raw Unit
  save_order o = save_json codec.order (app code_decode_fail) (order_key o.order_id) o

  unfoldable pub load_order : String → Action Raw Order
  load_order id = load_json codec.order (app code_amx_base) (app code_decode_fail) (order_key id)

  -- the loop of `createListing` over the capabilities
  unfoldable pub index_listing : String → List CapabilityRef → Action Raw Unit
  index_listing id [] = pure tt
  index_listing id (c ∷ caps) = do
    put (prefix_amx_index <> (c.cap_type <> ("/" <> id))) (wire.of_bytes (1 ∷ []))
    index_listing id caps

  unfoldable pub create_listing : ActionHandler Raw
  create_listing ctx env = do
    p ← decode_payload codec.create bad_payload env.payload
    fail_if (length p.capabilities == 0) invalid
    price ← lift (with_code (code_amx_base + 2) (parse_decimal big p.pricing.base_price))
    save_listing (new_listing wire ctx env p)
    index_listing (listing_id wire env p.title) p.capabilities
    pure (success_result 5000 (order_book_changed (listing_id wire env p.title) ∷ []))

  unfoldable pub update_listing : ActionHandler Raw
  update_listing ctx env = do
    p ← decode_payload codec.update bad_payload env.payload
    l ← load_listing p.listing_id
    fail_if (not (equal_bytes l.provider env.sender)) wrong_provider
    save_listing (updated ctx p l)
    pure (success_result 3000 [])

  unfoldable pub toggle_listing : String → ℕ → ActionHandler Raw
  toggle_listing next gas ctx env = do
    p ← decode_payload codec.toggle bad_payload env.payload
    l ← load_listing p.listing_id
    fail_if (not (equal_bytes l.provider env.sender)) wrong_provider
    save_listing (toggled ctx next l)
    pure (success_result gas [])

  -- the rest of `submitRequest`, at the sorted candidates
  unfoldable pub place_order :
      Context → TxEnvelope Raw → List (Scored big) → Action Raw ExecTxResult
  place_order ctx env [] = do
    ignore (save_order (failed_order wire ctx env))
    pure (success_result 8000 (failed_event (failed_order wire ctx env).order_id ∷ []))
  place_order ctx env (first ∷ others) = do
    commission ←
        lift (with_code (code_amx_base + 11) (apply_bps big (agreed_price first.listing) 1200 8))
    save_order (matched_order wire ctx env first.listing commission)
    pure (
        success_result 8000 (
          matched_event (listing_id wire env first.listing.listing_id) first.listing.listing_id
          ∷ []))

  unfoldable pub submit_request : ActionHandler Raw
  submit_request ctx env = do
    p ← decode_payload codec.submit bad_payload env.payload
    fail_if (ltb_ℤ (pos 0) p.deadline && ltb_ℤ p.deadline ctx.unix) (app (code_amx_base + 12))
    listings ← list_prefix prefix_amx_listing
    place_order ctx env (ranked big (candidates big strings codec.listing p listings))

  unfoldable pub transition_order : List (String × String) → ℕ → ActionHandler Raw
  transition_order transitions gas ctx env = do
    p ← decode_payload codec.transition bad_payload env.payload
    o ← load_order p.order_id
    fail_if (not (equal_bytes o.consumer env.sender) && not (equal_bytes o.provider env.sender))
        no_permission
    next ← lift (or_fail no_permission (lookup o.status transitions))
    save_order (moved_to ctx next o)
    pure (success_result gas [])

  -- `Handlers`: the one that makes orders, and the others
  abbrev pub later_handlers : List (String × ActionHandler Raw)
  later_handlers =
      ("create_listing", create_listing)
      ∷ ("update_listing", update_listing)
      ∷ ("pause_listing", toggle_listing paused 1000)
      ∷ ("delist_listing", toggle_listing delisted 1000)
      ∷ ("confirm_match", transition_order confirms 2000)
      ∷ ("reject_match", transition_order rejects 1500)
      ∷ ("cancel_order", transition_order cancels 2000)
      ∷ []

  abbrev pub handlers : List (String × ActionHandler Raw)
  handlers = ("submit_request", submit_request) ∷ later_handlers

  -- `New` and the methods that forward to `common.Module`
  abbrev pub amx : Module Raw
  amx = record {
    name = "amx";
    init_genesis = λ ctx raw. common_init_genesis wire "amx" raw;
    execute_tx = execute_action handlers;
    end_block = λ ctx. pure [];
    query = common_query;
  }
