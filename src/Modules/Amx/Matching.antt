-- ===== src/Modules/Amx/Matching.antt =====
-- internal/modules/amx/module.go: which listings answer a request, and which of them is the best.
use aacp.Prelude.{
  ◌+◌, String, Bool, true, false, not, ◌&&◌, Option, none, some, List, [], ◌∷◌, if◌then◌else◌,
  str_eq, length,
}
use aacp.Prelude.Text.{str_ltb}
use aacp.Exec.{Result, ok, err}
use aacp.Codec.{Json, Strings}
use aacp.Types.{contains}
use aacp.Types.Money.{Rational, below, equal, above, is_below, is_above, parse_decimal}
use aacp.Modules.Amx.Data.{CapabilityRef, Listing, SubmitRequestPayload, active}

abbrev pub cap_types : List CapabilityRef → List String
cap_types [] = []
cap_types (c ∷ caps) = c.cap_type ∷ cap_types caps

-- each text of the second list is in the first
unfoldable pub contains_all : List String → List String → Bool
unfolding contains
contains_all has [] = true
contains_all has (r ∷ required) = contains has r && contains_all has required

unfoldable pub caps_contain : List CapabilityRef → List String → Bool
unfolding contains_all
caps_contain caps [] = true
caps_contain caps (r ∷ required) = contains_all (cap_types caps) (r ∷ required)

module _ {Q : Type 0} (big : Rational Q) where
  abbrev pub within : Result Q → Result Q → Bool
  within (ok p) (ok b) = not (is_above (big.cmp p b))
  within (ok p) (err e) = false
  within (err e) b = false

  unfoldable pub exceeds_budget : String → String → Bool
  exceeds_budget price budget = not (within (parse_decimal big price) (parse_decimal big budget))

  abbrev pub or_zero : Result Q → Q
  or_zero (ok q) = q
  or_zero (err e) = big.of_int 0

  -- a price that cannot be parsed counts as 0
  unfoldable pub price_of : Listing → Q
  price_of l = or_zero (parse_decimal big l.pricing.base_price)

  unfoldable pub min_price : Q → List Listing → Q
  unfolding price_of
  min_price low [] = low
  min_price low (l ∷ listings) =
      min_price (if is_below (big.cmp (price_of l) low) then price_of l else low) listings

  unfoldable pub max_price : Q → List Listing → Q
  unfolding price_of
  max_price high [] = high
  max_price high (l ∷ listings) =
      max_price (if is_above (big.cmp (price_of l) high) then price_of l else high) listings

  -- `minMaxPrice`: the first listing sets both
  unfoldable pub min_max_price : List Listing → Q × Q
  unfolding min_price max_price price_of
  min_max_price [] = (big.of_int 0, big.of_int 0)
  min_max_price (l ∷ listings) = (min_price (price_of l) listings, max_price (price_of l) listings)

  -- `priceScore`, between 0 and 1
  unfoldable pub clamp_score : Q → Q
  clamp_score s =
      let floor = if is_below (big.sign s) then big.of_int 0 else s in
      if is_above (big.cmp floor (big.of_int 1)) then big.of_int 1 else floor

  unfoldable pub price_score : Q → Q → Q → Q
  unfolding clamp_score
  price_score price low high = clamp_score (
      big.sub (big.of_int 1)
        (big.quo (big.sub price low) (big.add (big.sub high low) (big.frac 1 1000000))))

  unfoldable pub score_listing : Q → Q → Listing → Q
  unfolding price_score price_of
  score_listing low high l =
      let caps = length l.capabilities in
      big.add
        (big.add
          (big.add
            (big.add (big.of_int 0) (big.mul (big.frac 30 100) (price_score (price_of l) low high)))
            (big.mul (big.frac 30 100) (big.frac 700 1000)))
          (big.mul (big.frac 20 100) (big.frac 8 10)))
        (big.mul (big.frac 20 100) (big.frac caps (caps + 1)))

  -- `scored`
  pub record Scored : Type 0 where
    pub listing : Listing
    pub score : Q

  unfoldable pub score_all : Q → Q → List Listing → List Scored
  unfolding score_listing
  score_all low high [] = []
  score_all low high (l ∷ listings) =
      record { listing = l; score = score_listing low high l } ∷ score_all low high listings

  -- the order of `sort.Slice`: the higher score first, then the smaller id
  unfoldable pub goes_before : Scored → Scored → Bool
  goes_before a b = elim (big.cmp a.score b.score) [
    | below ↦ false
    | equal ↦ str_ltb a.listing.listing_id b.listing.listing_id
    | above ↦ true
  ]

  unfoldable pub insert_scored : Scored → List Scored → List Scored
  unfolding goes_before
  insert_scored x [] = x ∷ []
  insert_scored x (y ∷ ys) =
      let rest = insert_scored x ys in if goes_before y x then y ∷ rest else x ∷ y ∷ ys

  unfoldable pub sort_scored : List Scored → List Scored
  unfolding insert_scored
  sort_scored [] = []
  sort_scored (x ∷ xs) = insert_scored x (sort_scored xs)

  module _ {Raw : Type 0} (strings : Strings) (json : Json Raw Listing) where
    -- the tests of the first loop of `submitRequest`
    unfoldable pub is_candidate : SubmitRequestPayload → Listing → Bool
    unfolding caps_contain exceeds_budget
    is_candidate p l =
        str_eq l.status active
        && (str_eq (strings.to_upper l.pricing.currency) (strings.to_upper p.budget.currency)
            && (caps_contain l.capabilities p.required_caps
                && not (exceeds_budget l.pricing.base_price p.budget.amount)))

    abbrev pub keep : SubmitRequestPayload → Option Listing → List Listing → List Listing
    keep p none rest = rest
    keep p (some l) rest = if is_candidate p l then l ∷ rest else rest

    unfoldable pub candidates : SubmitRequestPayload → List (String × Raw) → List Listing
    candidates p [] = []
    candidates p ((k, raw) ∷ listings) = keep p (json.unmarshal raw) (candidates p listings)

  -- `scoredList`, sorted
  unfoldable pub ranked : List Listing → List Scored
  unfolding score_all sort_scored min_max_price
  ranked cand = let (low, high) = min_max_price cand in sort_scored (score_all low high cand)
