-- ===== src/Modules/Amx/Orders.antt =====
-- The state machine of an order, and what the transactions of the market make of it.
use text.Mathlib.TextLemmas.{append_cancel_left}
use aacp.Prelude.{
  ℕ, String, ◌<>◌, ◌≡◌, refl, sym, ◌⊎◌, inl, inr, Option, some, List, [], ◌∷◌, Bool-cases, str_eq,
  eq_iff, All,
}
use aacp.Codec.{Wire, Strings, JsonLaw}
use aacp.State.Engine.{Store, lookup}
use aacp.State.Keys.{listing_key, order_key, prefix_amx_order, prefix_amx_index}
use aacp.State.Keys.Laws.{prefix_apart}
use aacp.Types.{TxEnvelope}
use aacp.Types.Money.{Rational}
use aacp.App.Router.{Context}
use aacp.App.Post.{post_rules}
use aacp.App.Lawful.{some_inj}
use aacp.App.Records
use aacp.App.Records.{
  Kind, KindLaw, NoRecordKey, AdvancingHandler, Advances-refl, Advances-save, record_of, run,
}
use aacp.App.Records.Leaves.{
  Leaves, leaving_rules, Leaves-AdvancingHandler, Leaves-pure, Leaves-bind, Leaves-put,
}
use aacp.App.Records.Status.{clash}
use aacp.Modules.Amx.Data.{
  CapabilityRef, Order, Codec, matched, escrowed, order_active, canceled, rejected, order_failed,
}
use aacp.Modules.Amx.{
  save_listing, load_listing, save_order, load_order, index_listing, create_listing, update_listing,
  toggle_listing, transition_order, later_handlers, confirms, rejects, cancels, moved_to,
}

-- the changes of status that one transaction makes
pub data Edge (a b : String) : Type 0 where
  escrows : a ≡ matched → b ≡ escrowed → Edge a b
  activates : a ≡ escrowed → b ≡ order_active → Edge a b
  turns_down : a ≡ matched → b ≡ rejected → Edge a b
  gives_up : (a ≡ matched) ⊎ ((a ≡ escrowed) ⊎ (a ≡ order_active)) → b ≡ canceled → Edge a b

-- One change of an order: its listing, its parties and its price stay.
pub record Move (t u : Order) : Type 0 where
  pub same_id : u.order_id ≡ t.order_id
  pub same_listing : u.listing_id ≡ t.listing_id
  pub same_consumer : u.consumer ≡ t.consumer
  pub same_provider : u.provider ≡ t.provider
  pub same_price : u.agreed_price ≡ t.agreed_price
  pub same_commission : u.commission_amount ≡ t.commission_amount
  pub edge : Edge t.status u.status

-- what a map of transitions finds
at_key :
    (a b s n : String) (rest : List (String × String))
    → lookup s ((a, b) ∷ rest) ≡ some n
    → ((s ≡ a) × (n ≡ b)) ⊎ (lookup s rest ≡ some n)
unfolding lookup
at_key a b s n rest h = elim (Bool-cases (str_eq a s)) [
  | inl same ↦ inl (sym ((eq_iff a s).0 same), sym (some_inj b n (rw (same, lookup) at h)))
  | inr other ↦ inr (rw (other, lookup) at h)
]

nothing_found : {A : Type 0} (s n : String) → lookup s [] ≡ some n → A
unfolding lookup
nothing_found s n h = cc

confirms-Allows : (s n : String) → lookup s confirms ≡ some n → Edge s n
confirms-Allows s n h = elim (at_key matched escrowed s n _ h) [
  | inl (e, f) ↦ escrows e f
  | inr h' ↦ elim (at_key escrowed order_active s n _ h') [
    | inl (e, f) ↦ activates e f
    | inr gone ↦ nothing_found s n gone
  ]
]

rejects-Allows : (s n : String) → lookup s rejects ≡ some n → Edge s n
rejects-Allows s n h = elim (at_key matched rejected s n _ h) [
  | inl (e, f) ↦ turns_down e f
  | inr gone ↦ nothing_found s n gone
]

cancels-Allows : (s n : String) → lookup s cancels ≡ some n → Edge s n
cancels-Allows s n h = elim (at_key matched canceled s n _ h) [
  | inl (e, f) ↦ gives_up (inl e) f
  | inr h' ↦ elim (at_key escrowed canceled s n _ h') [
    | inl (e, f) ↦ gives_up (inr (inl e)) f
    | inr h'' ↦ elim (at_key order_active canceled s n _ h'') [
      | inl (e, f) ↦ gives_up (inr (inr e)) f
      | inr gone ↦ nothing_found s n gone
    ]
  ]
]

order_key-injective : (a b : String) → order_key a ≡ order_key b → a ≡ b
unfolding order_key
order_key-injective a b h = append_cancel_left prefix_amx_order a b h

module _ {Raw : Type 0} (codec : Codec Raw) where
  abbrev pub order_kind : Kind Raw Order
  order_kind = record { json = codec.order; key = order_key; name = λ o. o.order_id; Move = Move }

  pub order_kind-KindLaw : KindLaw order_kind
  order_kind-KindLaw = record { apart = order_key-injective; same_name = λ t u m. m.same_id }

  -- what the store holds for the id of an order
  abbrev pub order_of : Store Raw → String → Option Order
  order_of = record_of order_kind

  -- Every order is stored under its own id.
  abbrev pub WellKeyed : Store Raw → Type 0
  WellKeyed = Records.WellKeyed order_kind

  listing_key-other : (id : String) → NoRecordKey order_kind (listing_key id)
  unfolding listing_key order_key
  listing_key-other id o = prefix_apart "amx/l/" "amx/o/" id o refl refl

  index_key-other : (k : String) → NoRecordKey order_kind (prefix_amx_index <> k)
  unfolding order_key
  index_key-other k o = prefix_apart "amx/i/" "amx/o/" k o refl refl

module _ {Raw Q : Type 0} (wire : Wire Raw) (strings : Strings) (big : Rational Q)
    (codec : Codec Raw) where
  moved_to-Move :
      (ctx : Context) (n : String) (o : Order) → Edge o.status n → Move o (moved_to ctx n o)
  unfolding moved_to
  moved_to-Move ctx n o e = record {
    same_id = refl;
    same_listing = refl;
    same_consumer = refl;
    same_provider = refl;
    same_price = refl;
    same_commission = refl;
    edge = e;
  }

  Leaves-index_listing :
      (id : String) (caps : List CapabilityRef)
      → Leaves (order_kind codec) (index_listing wire strings big codec id caps)
  unfolding index_listing
  Leaves-index_listing id [] = Leaves-pure (order_kind codec) tt
  Leaves-index_listing id (c ∷ caps) =
      Leaves-bind (order_kind codec) _ _
        (Leaves-put (order_kind codec) _ _ (index_key-other codec _))
        λ _. Leaves-index_listing id caps

  ruleset leaving = (leaving_rules, listing_key-other, Leaves-index_listing)

  Leaves-create_listing :
      (ctx : Context) (env : TxEnvelope Raw)
      → Leaves (order_kind codec) (create_listing wire strings big codec ctx env)
  unfolding create_listing save_listing
  Leaves-create_listing ctx env = search leaving depth 20

  Leaves-update_listing :
      (ctx : Context) (env : TxEnvelope Raw)
      → Leaves (order_kind codec) (update_listing wire strings big codec ctx env)
  unfolding update_listing load_listing save_listing
  Leaves-update_listing ctx env = search leaving depth 20

  Leaves-toggle_listing :
      (to : String) (gas : ℕ) (ctx : Context) (env : TxEnvelope Raw)
      → Leaves (order_kind codec) (toggle_listing wire strings big codec to gas ctx env)
  unfolding toggle_listing load_listing save_listing
  Leaves-toggle_listing to gas ctx env = search leaving depth 20

  module _ (law : JsonLaw codec.order) where
    transition_order-Advancing :
        (transitions : List (String × String)) (gas : ℕ)
        → ((s n : String) → lookup s transitions ≡ some n → Edge s n)
        → AdvancingHandler
            (order_kind codec)
            (transition_order wire strings big codec transitions gas)
    unfolding transition_order load_order save_order
    transition_order-Advancing transitions gas allowed ctx env w =
        search
          (
            post_rules, Advances-refl, Advances-save, order_kind-KindLaw, moved_to-Move, allowed,
            law,
          )
          depth 24

    pub later_handlers-Advancing :
        All (λ e. AdvancingHandler (order_kind codec) e.1) (later_handlers wire strings big codec)
    later_handlers-Advancing = (
      Leaves-AdvancingHandler (order_kind codec) _ Leaves-create_listing,
      (
        Leaves-AdvancingHandler (order_kind codec) _ Leaves-update_listing,
        (
          Leaves-AdvancingHandler (order_kind codec) _ (Leaves-toggle_listing _ _),
          (
            Leaves-AdvancingHandler (order_kind codec) _ (Leaves-toggle_listing _ _),
            (
              transition_order-Advancing confirms 2000 confirms-Allows,
              (
                transition_order-Advancing rejects 1500 rejects-Allows,
                (transition_order-Advancing cancels 2000 cancels-Allows, tt),
              ),
            ),
          ),
        ),
      ),
    )

-- An order that was canceled, rejected or never matched does not move.
pub closed-stays :
    {A : Type 0} (a b : String)
    → (a ≡ canceled) ⊎ ((a ≡ rejected) ⊎ (a ≡ order_failed))
    → Edge a b
    → A
closed-stays a b (inl e) (escrows q _) = clash canceled matched a refl e q
closed-stays a b (inl e) (activates q _) = clash canceled escrowed a refl e q
closed-stays a b (inl e) (turns_down q _) = clash canceled matched a refl e q
closed-stays a b (inl e) (gives_up (inl q) _) = clash canceled matched a refl e q
closed-stays a b (inl e) (gives_up (inr (inl q)) _) = clash canceled escrowed a refl e q
closed-stays a b (inl e) (gives_up (inr (inr q)) _) = clash canceled order_active a refl e q
closed-stays a b (inr (inl e)) (escrows q _) = clash rejected matched a refl e q
closed-stays a b (inr (inl e)) (activates q _) = clash rejected escrowed a refl e q
closed-stays a b (inr (inl e)) (turns_down q _) = clash rejected matched a refl e q
closed-stays a b (inr (inl e)) (gives_up (inl q) _) = clash rejected matched a refl e q
closed-stays a b (inr (inl e)) (gives_up (inr (inl q)) _) = clash rejected escrowed a refl e q
closed-stays a b (inr (inl e)) (gives_up (inr (inr q)) _) = clash rejected order_active a refl e q
closed-stays a b (inr (inr e)) (escrows q _) = clash order_failed matched a refl e q
closed-stays a b (inr (inr e)) (activates q _) = clash order_failed escrowed a refl e q
closed-stays a b (inr (inr e)) (turns_down q _) = clash order_failed matched a refl e q
closed-stays a b (inr (inr e)) (gives_up (inl q) _) = clash order_failed matched a refl e q
closed-stays a b (inr (inr e)) (gives_up (inr (inl q)) _) = clash order_failed escrowed a refl e q
closed-stays a b (inr (inr e)) (gives_up (inr (inr q)) _) =
    clash order_failed order_active a refl e q
