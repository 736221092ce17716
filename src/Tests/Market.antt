-- ===== src/Tests/Market.antt =====
-- Listings and orders at concrete inputs.
use Prim.Native.Char.{code}
use aacp.Prelude.{
  arith, ltb, ◌*◌, ◌+◌, ◌-◌, ◌/◌, if◌then◌else◌, ℕ, String, ◌≡◌, refl, Option, none, some, List, [],
  ◌∷◌, str_eq,
}
use aacp.Prelude.Int.{pos}
use aacp.Codec.{Strings, JsonLaw}
use aacp.State.Engine.{get, lookup}
use aacp.State.Keys.{order_key}
use aacp.Types.{TxEnvelope, contains}
use aacp.Types.Money.{
  Money, Rational, Comparison, below, equal, above, is_above, is_below, parse_decimal,
}
use aacp.Prelude.Encode.{decimal}
use aacp.App.Router.{World, Context}
use aacp.App.Post.{reads}
use aacp.App.Lawful.{LawfulModule}
use aacp.Modules.Amx.Data.{
  Listing, SubmitRequestPayload, Order, Codec, active, escrowed, matched, order_active,
}
use aacp.Modules.Amx.Matching.{
  Scored, ranked, candidates, min_max_price, min_price, max_price, price_of, score_all,
  score_listing, price_score, clamp_score, sort_scored, insert_scored, goes_before, is_candidate,
  caps_contain, contains_all, exceeds_budget,
}
use aacp.Modules.Amx.Best.{CompareLaw, Answers, NoneHigher, best_match}
use aacp.Modules.Amx.{amx, handlers}
use aacp.App.Records.Journeys.{Course}
use aacp.Modules.Amx.Lawful.{amx-LawfulModule}
use aacp.Modules.Amx.Orders.{order_kind, order_kind-KindLaw, order_of}
use aacp.Modules.Amx.History.{Kept, order_history}
use aacp.Tests.Fixtures.{ctx, alice, bob, tx}
use aacp.Tests.Slots.{
  Slot, request, kept, slots, json_of, json_of-JsonLaw, asks, holding, one-WellKeyed,
}
use aacp.Tests.Escrows.{whole}

data Paper : Type 0 where
  listing : Listing → Paper
  order : Order → Paper

abbrev listing_in : Paper → Option Listing
listing_in (listing l) = some l
listing_in (order o) = none

abbrev order_in : Paper → Option Order
order_in (listing l) = none
order_in (order o) = some o

abbrev strings : Strings
strings = record { equal_fold = str_eq; to_upper = λ s. s }

abbrev codec : Codec (Slot Paper)
codec = record {
  listing = json_of listing listing_in;
  order = json_of order order_in;
  create = λ raw. none;
  update = λ raw. none;
  toggle = λ raw. none;
  submit = asks (λ n. some (record {
    required_caps = "text" ∷ [];
    budget = record { currency = "CNY"; amount = "100" };
    max_latency_ms = 0;
    deadline = pos 0;
  }));
  transition = asks (λ n. some (record { order_id = "o1" }));
}

order-JsonLaw : JsonLaw codec.order
order-JsonLaw = json_of-JsonLaw order order_in λ o. refl

abbrev cny : String → Money
cny amount = record { currency = "CNY"; amount = amount }

abbrev new_order : Order
new_order = record {
  order_id = "o1";
  listing_id = "l1";
  consumer = bob;
  provider = alice;
  agreed_price = cny "100";
  commission_bps = 1200;
  commission_amount = cny "12";
  escrow_id = "e1";
  task_id = "";
  status = matched;
  created_at = pos 10;
  updated_at = pos 10;
}

abbrev one_order : World (Slot Paper)
one_order = holding (("amx/o/o1", order new_order) ∷ [])

new_order-stored : order_of codec one_order.store "o1" ≡ some new_order
unfolding reads get lookup order_key
new_order-stored = refl

-- The order is confirmed twice, with an update of a listing between that has no payload.
abbrev trade : List (Context × TxEnvelope (Slot Paper))
trade =
    (ctx, tx "amx" "confirm_match" 0 (request 0))
    ∷ (ctx, tx "amx" "update_listing" 1 (request 0))
    ∷ (ctx, tx "amx" "confirm_match" 2 (request 0))
    ∷ []

order_history_example :
    (u : Order) × Course
      (order_kind codec)
      (handlers slots strings whole codec)
      Kept
      (λ v. v.status ≡ order_active)
      (λ v. v.status ≡ escrowed)
      "o1"
      trade
      one_order
      new_order
      u
unfolding order_key
order_history_example =
    order_history slots strings whole codec trade one_order "o1" new_order order-JsonLaw
      (refl, (refl, (refl, tt)))
      (one-WellKeyed (order_kind codec) (order new_order) new_order (order_kind-KindLaw codec) refl)
      new_order-stored

amx-LawfulModule_example : LawfulModule slots (amx slots strings whole codec)
amx-LawfulModule_example = amx-LawfulModule slots strings whole codec

abbrev writer : Listing
writer = record {
  listing_id = "l1";
  provider = alice;
  title = "writer";
  description = "";
  capabilities = record { cap_type = "text" } ∷ [];
  pricing = record { currency = "CNY"; base_price = "80" };
  sla = record { max_latency_ms = 0; timeout_sec = 0 };
  tags = [];
  status = active;
  created_at = pos 1;
  updated_at = pos 1;
}

abbrev wanted : SubmitRequestPayload
wanted = record {
  required_caps = "text" ∷ [];
  budget = cny "100";
  max_latency_ms = 0;
  deadline = pos 0;
}

abbrev painter : Listing
painter = record writer {
  listing_id = "l2";
  pricing = record { currency = "CNY"; base_price = "60" };
}

abbrev pricey : Listing
pricey = record writer {
  listing_id = "l3";
  pricing = record { currency = "CNY"; base_price = "300" };
}

abbrev shelf : List (String × Slot Paper)
shelf =
    ("amx/l/l1", kept (listing writer))
    ∷ ("amx/l/l2", kept (listing painter))
    ∷ ("amx/l/l3", kept (listing pricey))
    ∷ []

-- a toy arithmetic on natural numbers
abbrev compare : ℕ → ℕ → Comparison
compare a b = if ltb a b then below else if ltb b a then above else equal

abbrev parse_digits : ℕ → String → Option ℕ
parse_digits n String.[] = some n
parse_digits n (String.◌∷◌ c s) = parse_digits (n * 10 + (code c - 48)) s

abbrev counting : Rational ℕ
counting = record {
  trim_space = λ s. s;
  set_string = parse_digits 0;
  frac = λ n d. 1000 * n / d;
  of_int = λ n. 1000 * n;
  add = λ a b. a + b;
  sub = λ a b. a - b;
  mul = λ a b. a * b / 1000;
  quo = λ a b. 1000 * a / b;
  cmp = compare;
  sign = λ a. compare a 0;
  float_string = λ a scale. decimal a;
}

counting-CompareLaw : CompareLaw counting
unfolding is_above
counting-CompareLaw = record {
  self = λ a. ground arith;
  flip_above = λ a b h. ground arith;
  flip_equal = λ a b h. ground arith;
  trans = λ a b c h k. ground arith;
}

abbrev first_offer : Scored counting
first_offer = record { listing = painter; score = 770 }

abbrev second_offer : Scored counting
second_offer = record { listing = writer; score = 470 }

offers-ranked :
    ranked counting (candidates counting strings codec.listing wanted shelf)
    ≡ first_offer ∷ second_offer ∷ []
unfolding candidates ranked min_max_price min_price max_price price_of parse_decimal score_all
    score_listing price_score clamp_score sort_scored insert_scored goes_before is_candidate
    caps_contain contains_all contains exceeds_budget is_above is_below
offers-ranked = refl

best_match_example :
    Answers counting strings codec.listing wanted shelf painter
    × (770
        ≡ score_listing counting
            (min_max_price counting (candidates counting strings codec.listing wanted shelf)).0
            (min_max_price counting (candidates counting strings codec.listing wanted shelf)).1
            painter)
    × NoneHigher counting
        (min_max_price counting (candidates counting strings codec.listing wanted shelf)).0
        (min_max_price counting (candidates counting strings codec.listing wanted shelf)).1
        (candidates counting strings codec.listing wanted shelf)
        first_offer
best_match_example =
    best_match counting strings codec.listing wanted shelf first_offer (second_offer ∷ [])
      counting-CompareLaw offers-ranked
