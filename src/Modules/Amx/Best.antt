-- ===== src/Modules/Amx/Best.antt =====
-- Which listing a request is matched with.
use aacp.Prelude.{
  ◌≡◌, refl, sym, subst, ◌⊎◌, inl, inr, String, Bool, true, false, Bool-cases, Option, none, some,
  List, [], ◌∷◌, All, All-map,
}
use aacp.Codec.{Json, Strings}
use aacp.Types.Money.{Rational, Comparison, below, equal, above, is_above}
use aacp.Modules.Amx.Data.{Listing, SubmitRequestPayload}
use aacp.Modules.Amx.Matching.{
  Scored, goes_before, insert_scored, sort_scored, score_all, score_listing, min_max_price, ranked,
  is_candidate, keep, candidates,
}

-- `Cmp` of math/big: a number is not above itself, of two one is not above the other, and a number
-- that is not above a second one is not above what the second is not above.
pub record CompareLaw {Q : Type 0} (big : Rational Q) : Type 0 where
  pub self : (a : Q) → is_above (big.cmp a a) ≡ false
  pub flip_above : (a b : Q) → big.cmp a b ≡ above → is_above (big.cmp b a) ≡ false
  pub flip_equal : (a b : Q) → big.cmp a b ≡ equal → is_above (big.cmp b a) ≡ false
  pub trans :
      (a b c : Q)
      → is_above (big.cmp a b) ≡ false
      → is_above (big.cmp b c) ≡ false
      → is_above (big.cmp a c) ≡ false

module _ {Q : Type 0} (big : Rational Q) where
  -- The second of two listings does not score higher than the first.
  pub Top : Scored big → Scored big → Type 0
  Top best s = is_above (big.cmp s.score best.score) ≡ false

  -- what a sorted list says of the list it was made of
  HeadTop : List (Scored big) → List (Scored big) → Type 0
  HeadTop xs [] = xs ≡ []
  HeadTop xs (best ∷ rest) = All (Top best) xs

  module _ (law : CompareLaw big) where
    ahead :
        (a b : Q) (c : Comparison) (t : Bool)
        → big.cmp a b ≡ c
        → elim c [ below ↦ false | equal ↦ t | above ↦ true ] ≡ true
        → is_above (big.cmp b a) ≡ false
    ahead a b below t e h = cc
    ahead a b equal t e h = law.flip_equal a b e
    ahead a b above t e h = law.flip_above a b e

    before-Top : (a b : Scored big) → goes_before big a b ≡ true → Top a b
    unfolding goes_before Top
    before-Top a b h = ahead a.score b.score (big.cmp a.score b.score) _ refl h

    decided :
        (c : Comparison) (t : Bool)
        → elim c [ below ↦ false | equal ↦ t | above ↦ true ] ≡ false
        → is_above c ≡ false
    unfolding is_above
    decided below t h = refl
    decided equal t h = refl
    decided above t h = cc

    after-Top : (a b : Scored big) → goes_before big a b ≡ false → Top b a
    unfolding goes_before Top
    after-Top a b h = decided (big.cmp a.score b.score) _ h

    insert-HeadTop :
        (x : Scored big) (xs sorted : List (Scored big))
        → HeadTop xs sorted
        → HeadTop (x ∷ xs) (insert_scored big x sorted)
    unfolding insert_scored Top HeadTop
    insert-HeadTop x xs [] h = subst (λ l. All (Top x) (x ∷ l)) (sym h) (law.self x.score, tt)
    insert-HeadTop x xs (y ∷ ys) h = elim (Bool-cases (goes_before big y x)) [
      | inl now ↦ rw (now) (before-Top y x now, h)
      | inr later ↦ rw (later) (
        law.self x.score,
        All-map (Top y) (Top x) xs
            (λ s t. law.trans s.score y.score x.score t (after-Top y x later)) h,
      )
    ]

    sort-HeadTop : (xs : List (Scored big)) → HeadTop xs (sort_scored big xs)
    unfolding sort_scored HeadTop
    sort-HeadTop [] = refl
    sort-HeadTop (x ∷ xs) = insert-HeadTop x xs (sort_scored big xs) (sort-HeadTop xs)

  module _ (P : Scored big → Type 0) where
    All-insert :
        (x : Scored big) (xs : List (Scored big)) → P x → All P xs → All P (insert_scored big x xs)
    unfolding insert_scored
    All-insert x [] h all = (h, tt)
    All-insert x (y ∷ ys) h all = elim (Bool-cases (goes_before big y x)) [
      | inl now ↦ rw (now) (all.0, All-insert x ys h all.1)
      | inr later ↦ rw (later) (h, all)
    ]

    All-sort : (xs : List (Scored big)) → All P xs → All P (sort_scored big xs)
    unfolding sort_scored
    All-sort [] all = tt
    All-sort (x ∷ xs) all = All-insert x (sort_scored big xs) all.0 (All-sort xs all.1)

  -- The listing of a scored one is as it should be, and the score is its own.
  abbrev Scores : (Listing → Type 0) → Q → Q → Scored big → Type 0
  Scores P low high s = P s.listing × (s.score ≡ score_listing big low high s.listing)

  All-score_all :
      (P : Listing → Type 0) (low high : Q) (xs : List Listing)
      → All P xs
      → All (Scores P low high) (score_all big low high xs)
  unfolding score_all
  All-score_all P low high [] all = tt
  All-score_all P low high (l ∷ xs) all = ((all.0, refl), All-score_all P low high xs all.1)

  -- no listing of a list scores higher
  pub NoneHigher : Q → Q → List Listing → Scored big → Type 0
  NoneHigher low high xs best =
      All (λ l. is_above (big.cmp (score_listing big low high l) best.score) ≡ false) xs

  Top-NoneHigher :
      (low high : Q) (xs : List Listing) (best : Scored big)
      → All (Top best) (score_all big low high xs)
      → NoneHigher low high xs best
  unfolding score_all Top NoneHigher
  Top-NoneHigher low high [] best all = tt
  Top-NoneHigher low high (l ∷ xs) best all = (all.0, Top-NoneHigher low high xs best all.1)

  module _ {Raw : Type 0} (strings : Strings) (json : Json Raw Listing) where
    -- One of the entries of the store is the listing.
    pub ListedIn : List (String × Raw) → Listing → Type 0
    ListedIn [] l = ⊥
    ListedIn ((k, raw) ∷ entries) l = (json.unmarshal raw ≡ some l) ⊎ ListedIn entries l

    -- The listing is in the store, and it answers the request.
    abbrev pub Answers : SubmitRequestPayload → List (String × Raw) → Listing → Type 0
    Answers p entries l = ListedIn entries l × (is_candidate big strings json p l ≡ true)

    candidates-Answers :
        (p : SubmitRequestPayload) (entries : List (String × Raw))
        → All (Answers p entries) (candidates big strings json p entries)
    unfolding candidates ListedIn
    candidates-Answers p [] = tt
    candidates-Answers p ((k, raw) ∷ entries) =
        kept_on (candidates big strings json p entries) (json.unmarshal raw) refl (
          All-map (Answers p entries) (Answers p ((k, raw) ∷ entries)) _ (λ l a. (inr a.0, a.1))
            (candidates-Answers p entries))
      where
        kept_on :
            (cand : List Listing) (found : Option Listing)
            → json.unmarshal raw ≡ found
            → All (Answers p ((k, raw) ∷ entries)) cand
            → All (Answers p ((k, raw) ∷ entries)) (keep big strings json p found cand)
        kept_on cand none e later = later
        kept_on cand (some l) e later = elim (Bool-cases (is_candidate big strings json p l)) [
          | inl pass ↦ rw (pass) ((inl e, pass), later)
          | inr refused ↦ rw (refused) later
        ]

    -- Let `Cmp` be an order in the sense of `CompareLaw`, and let a listing be first in the sorted
    -- list of the candidates of a request. Then that listing is one of the entries read from the
    -- store and passes the four tests of a candidate, its score is the one computed from it, and no
    -- candidate of the request has a higher score.
    pub best_match :
        (p : SubmitRequestPayload) (entries : List (String × Raw)) (best : Scored big)
        (others : List (Scored big))
        → CompareLaw big
        → ranked big (candidates big strings json p entries) ≡ best ∷ others
        → Answers p entries best.listing
          × (best.score
              ≡ score_listing big
                  (min_max_price big (candidates big strings json p entries)).0
                  (min_max_price big (candidates big strings json p entries)).1
                  best.listing)
          × NoneHigher
              (min_max_price big (candidates big strings json p entries)).0
              (min_max_price big (candidates big strings json p entries)).1
              (candidates big strings json p entries)
              best
    unfolding ranked HeadTop
    best_match p entries best others law h =
        let cand = candidates big strings json p entries in
        let low = (min_max_price big cand).0 in
        let high = (min_max_price big cand).1 in
        let scored = score_all big low high cand in
        let sound = subst (All (Scores (Answers p entries) low high)) h (
          All-sort (Scores (Answers p entries) low high) scored
            (All-score_all (Answers p entries) low high cand (candidates-Answers p entries))) in
        (
          sound.0.0,
          sound.0.1,
          Top-NoneHigher low high cand best (subst (HeadTop scored) h (sort-HeadTop law scored)),
        )
