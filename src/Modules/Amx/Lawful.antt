-- ===== src/Modules/Amx/Lawful.antt =====
-- The contract of the block loop, for the market module.
use aacp.Prelude.{ℕ, String, ◌<>◌, refl, List, [], ◌∷◌}
use aacp.Exec.{Result, ok, err, app}
use aacp.Codec.{Wire, Strings}
use aacp.State.Keys.{listing_key, order_key, nonce_key, prefix_amx_index}
use aacp.State.Keys.Laws.{prefix_apart}
use aacp.Types.{TxEnvelope}
use aacp.Types.Money.{Rational}
use aacp.App.Router.{Context}
use aacp.App.Lawful.{
  NoNonceKey, IsFailure, Lawful, LawfulHandler, LawfulModule, lawful_rules, Lawful-execute_action,
  Lawful-pure, Lawful-bind, Lawful-put,
}
use aacp.App.Failing.{Failing, Failing-ok, Failing-err, failing_rules}
use aacp.Modules.Amx.Data.{CapabilityRef, Listing, Order, Codec}
use aacp.Modules.Amx.Matching.{Scored}
use aacp.Modules.Amx.{
  with_code, save_listing, load_listing, save_order, load_order, index_listing, create_listing,
  update_listing, toggle_listing, place_order, submit_request, transition_order, handlers, amx,
}

listing_key-NoNonceKey : (id : String) → NoNonceKey (listing_key id)
unfolding listing_key nonce_key
listing_key-NoNonceKey id p = prefix_apart "amx/l/" "acc/n/" id _ refl refl

order_key-NoNonceKey : (id : String) → NoNonceKey (order_key id)
unfolding order_key nonce_key
order_key-NoNonceKey id p = prefix_apart "amx/o/" "acc/n/" id _ refl refl

index_key-NoNonceKey : (k : String) → NoNonceKey (prefix_amx_index <> k)
unfolding nonce_key
index_key-NoNonceKey k p = prefix_apart "amx/i/" "acc/n/" k _ refl refl

Failing-with_code :
    {A : Type 0} (c : ℕ) (r : Result A) → IsFailure (app c) → Failing (with_code c r)
unfolding with_code
Failing-with_code c (ok a) h = Failing-ok a
Failing-with_code c (err e) h = Failing-err (app c) h

ruleset keys = (
  lawful_rules, failing_rules, listing_key-NoNonceKey, order_key-NoNonceKey, index_key-NoNonceKey,
  Failing-with_code,
)

module _ {Raw Q : Type 0} (wire : Wire Raw) (strings : Strings) (big : Rational Q)
    (codec : Codec Raw) where
  Lawful-save_listing : (l : Listing) → Lawful wire (save_listing wire strings big codec l)
  unfolding save_listing
  Lawful-save_listing l = search keys

  Lawful-load_listing : (id : String) → Lawful wire (load_listing wire strings big codec id)
  unfolding load_listing
  Lawful-load_listing id = search keys

  Lawful-save_order : (o : Order) → Lawful wire (save_order wire strings big codec o)
  unfolding save_order
  Lawful-save_order o = search keys

  Lawful-load_order : (id : String) → Lawful wire (load_order wire strings big codec id)
  unfolding load_order
  Lawful-load_order id = search keys

  Lawful-index_listing :
      (id : String) (caps : List CapabilityRef)
      → Lawful wire (index_listing wire strings big codec id caps)
  unfolding index_listing
  Lawful-index_listing id [] = Lawful-pure wire tt
  Lawful-index_listing id (c ∷ caps) =
      Lawful-bind wire _ _ (Lawful-put wire _ _ (index_key-NoNonceKey _))
        λ _. Lawful-index_listing id caps

  ruleset stored = (
    keys, Lawful-save_listing, Lawful-load_listing, Lawful-save_order, Lawful-load_order,
    Lawful-index_listing,
  )

  Lawful-create_listing : LawfulHandler wire (create_listing wire strings big codec)
  unfolding create_listing
  Lawful-create_listing ctx env = search stored depth 16

  Lawful-update_listing : LawfulHandler wire (update_listing wire strings big codec)
  unfolding update_listing
  Lawful-update_listing ctx env = search stored depth 14

  Lawful-toggle_listing :
      (next : String) (gas : ℕ)
      → LawfulHandler wire (toggle_listing wire strings big codec next gas)
  unfolding toggle_listing
  Lawful-toggle_listing next gas ctx env = search stored depth 14

  Lawful-place_order :
      (ctx : Context) (env : TxEnvelope Raw) (l : List (Scored big))
      → Lawful wire (place_order wire strings big codec ctx env l)
  unfolding place_order
  Lawful-place_order ctx env [] = search stored depth 14
  Lawful-place_order ctx env (first ∷ others) = search stored depth 14

  Lawful-submit_request : LawfulHandler wire (submit_request wire strings big codec)
  unfolding submit_request
  Lawful-submit_request ctx env = search (stored, Lawful-place_order) depth 14

  Lawful-transition_order :
      (transitions : List (String × String)) (gas : ℕ)
      → LawfulHandler wire (transition_order wire strings big codec transitions gas)
  unfolding transition_order
  Lawful-transition_order transitions gas ctx env = search stored depth 16

  -- Whatever its transactions are and whatever the store holds, the market module leaves the nonce
  -- of every account alone, in a transaction and at the end of a block, and never fails with the
  -- code of success.
  pub amx-LawfulModule : LawfulModule wire (amx wire strings big codec)
  amx-LawfulModule = record {
    executes = Lawful-execute_action wire (handlers wire strings big codec) (
      Lawful-submit_request,
      (
        Lawful-create_listing,
        (
          Lawful-update_listing,
          (
            Lawful-toggle_listing _ _,
            (
              Lawful-toggle_listing _ _,
              (
                Lawful-transition_order _ _,
                (Lawful-transition_order _ _, (Lawful-transition_order _ _, tt)),
              ),
            ),
          ),
        ),
      ),
    );
    ends = λ ctx. Lawful-pure wire [];
  }
