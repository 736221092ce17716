-- ===== src/Modules/Arb/Outcome.antt =====
-- What `majorityVote` returns, in terms of the votes.
use mathlib.Core.Bool.{false≢true}
use aacp.Prelude.{
  ℕ, ◌+◌, ◌≤◌, ◌<◌, String, ◌≡◌, ◌≢◌, refl, sym, ◌∙◌, ap, subst, ◌⊎◌, inl, inr, some, none, List,
  [], ◌∷◌, arith, Bool-cases, str_eq, eq_iff, eq_refl, if◌then◌else◌, ◌==◌,
}
use aacp.State.Engine.{lookup, insert}
use aacp.State.Engine.Laws.{lookup-insert}
use aacp.State.Engine.Order.{Unique, insert-Unique}
use aacp.App.Lawful.{some_inj}
use aacp.Modules.Arb.Data.{VoteRecord}
use aacp.Modules.Arb.Votes.{
  Lead, no_lead, survey, leader, count_in, tally_from, tally, majority_vote,
}
use aacp.Modules.Arb.Majority.{
  Seen, Standing, nothing_seen, ahead, tied, Positive, WithAll, survey-Standing, WithAll-lookup,
  lookup-WithAll,
}

-- the number of votes for a candidate
abbrev pub votes_for : String → List VoteRecord → ℕ
votes_for k [] = 0
votes_for k (v ∷ votes) = (if str_eq v.vote k then 1 else 0) + votes_for k votes

count_in-insert :
    (k q : String) (n : ℕ) (m : List (String × ℕ))
    → count_in q (insert k n m) ≡ (if str_eq k q then n else count_in q m)
unfolding count_in
count_in-insert k q n m = ground (arith, lookup-insert k q n m)

count_in-tally_from :
    (votes : List VoteRecord) (m : List (String × ℕ)) (k : String)
    → count_in k (tally_from m votes) ≡ count_in k m + votes_for k votes
unfolding tally_from
count_in-tally_from [] m k = omega arith
count_in-tally_from (v ∷ votes) m k = ground (
  arith,
  count_in-tally_from votes (insert v.vote (count_in v.vote m + 1) m) k,
  count_in-insert v.vote k (count_in v.vote m + 1) m,
  eq_iff v.vote k,
)

lookup-tally_from :
    (votes : List VoteRecord) (m : List (String × ℕ)) (k : String)
    → lookup k (tally_from m votes)
      ≡ (if votes_for k votes == 0 then lookup k m else some (count_in k m + votes_for k votes))
unfolding tally_from count_in
lookup-tally_from [] m k = refl
lookup-tally_from (v ∷ votes) m k = ground (
  arith,
  lookup-tally_from votes (insert v.vote (count_in v.vote m + 1) m) k,
  lookup-insert v.vote k (count_in v.vote m + 1) m,
  count_in-insert v.vote k (count_in v.vote m + 1) m,
  eq_iff v.vote k,
)

tally_from-Unique :
    (votes : List VoteRecord) (m : List (String × ℕ)) → Unique m → Unique (tally_from m votes)
unfolding tally_from
tally_from-Unique [] m h = h
tally_from-Unique (v ∷ votes) m h =
    tally_from-Unique votes _ (insert-Unique v.vote (count_in v.vote m + 1) m h)

-- The counts of the votes as a Go map, in any order of its entries.
pub record Counts (votes : List VoteRecord) (m : List (String × ℕ)) : Type 0 where
  pub unique : Unique m
  pub counts :
      (k : String)
      → lookup k m ≡ (if votes_for k votes == 0 then none else some (votes_for k votes))

pub tally-Counts : (votes : List VoteRecord) → Counts votes (tally votes)
unfolding tally lookup
tally-Counts votes = record {
  unique = tally_from-Unique votes [] tt;
  counts = λ k. ground (arith, lookup-tally_from votes [] k, none_yet k);
}
  where
    none_yet : (k : String) → count_in k [] ≡ 0
    none_yet k = unfold count_in in refl

counted :
    (votes : List VoteRecord) (m : List (String × ℕ)) (k : String) (c : ℕ)
    → Counts votes m
    → lookup k m ≡ some c
    → (c ≡ votes_for k votes) × (0 < c)
counted votes m k c h found = ground (arith, h.counts k, found, some_inj c (votes_for k votes))

above_zero :
    (m : List (String × ℕ))
    → Unique m
    → ((k : String) (c : ℕ) → lookup k m ≡ some c → 0 < c)
    → Positive m
unfolding lookup
above_zero [] u h = tt
above_zero ((k0, c0) ∷ m) u h = (h k0 c0 (rw (eq_refl k0) refl), above_zero m u.1 rest)
  where
    rest : (k : String) (c : ℕ) → lookup k m ≡ some c → 0 < c
    rest k c found = elim (Bool-cases (str_eq k0 k)) [
      | inl same ↦
          let gone : none ≡ some c =
            sym u.0 ∙ (ap (λ i. lookup i m) ((eq_iff k0 k).0 same) ∙ found) in
          cc
      | inr other ↦ h k c (rw (other, lookup) found)
    ]

-- What a result of the count may be: nobody has voted, one candidate has more votes than every
-- other, or two have the most.
pub data Outcome (votes : List VoteRecord) (result : String) : Type 0 where
  nobody : ((k : String) → votes_for k votes ≡ 0) → result ≡ "" → Outcome votes result
  wins :
      0 < votes_for result votes
      → ((k : String) → k ≢ result → votes_for k votes < votes_for result votes)
      → Outcome votes result
  draws :
      (a b : String)
      → a ≢ b
      → votes_for a votes ≡ votes_for b votes
      → ((k : String) → votes_for k votes ≤ votes_for a votes)
      → 0 < votes_for a votes
      → result ≡ "tie"
      → Outcome votes result

module _ (votes : List VoteRecord) (m : List (String × ℕ)) (h : Counts votes m) where
  abbrev unseen : Seen
  unseen k c = ⊥

  abbrev All_counts : Seen
  All_counts = WithAll unseen m

  seen_count : (k : String) (c : ℕ) → All_counts k c → (c ≡ votes_for k votes) × (0 < c)
  seen_count k c p = elim (WithAll-lookup m unseen k c h.unique p) [
    | inl none_ ↦ absurd none_
    | inr found ↦ counted votes m k c h found
  ]

  count_seen : (k : String) → (votes_for k votes ≡ 0) ⊎ All_counts k (votes_for k votes)
  count_seen k = elim (Bool-cases (votes_for k votes == 0)) [
    | inl zero_ ↦ inl (ground (arith, zero_))
    | inr more ↦
        inr (lookup-WithAll m unseen k (votes_for k votes) (ground (arith, h.counts k, more)))
  ]

  finish : (l : Lead) → Standing All_counts l → Outcome votes (if l.tie then "tie" else l.winner)
  finish l (nothing_seen none_ e) =
      subst (λ (x : Lead). Outcome votes (if x.tie then "tie" else x.winner)) (sym e)
        (nobody (λ k. elim (count_seen k) [ inl z ↦ z | inr p ↦ absurd (none_ k _ p) ]) refl)
  finish l (ahead here others own t) =
      let (same, more) = seen_count l.winner l.best here in
      rw t (
        wins (omega (arith, same, more)) (λ k d. elim (count_seen k) [
          | inl z ↦ omega (arith, z, same, more)
          | inr p ↦ let lt = others k (votes_for k votes) p d in omega (arith, lt, same)
        ]))
  finish l (tied a b d pa pb bound t) =
      let (same_a, more) = seen_count a l.best pa in
      let (same_b, _) = seen_count b l.best pb in
      rw t (
        draws a b d (sym same_a ∙ same_b)
          (λ k. elim (count_seen k) [
            | inl z ↦ omega (arith, z)
            | inr p ↦ let le = bound k (votes_for k votes) p in omega (arith, le, same_a)
          ])
          (omega (arith, same_a, more)) refl)

  -- Take the counts of a list of votes as a Go map, in any order of its entries. The loop over them
  -- ends with the candidate that has more votes than every other one, or with a tie and two
  -- candidates that have equally many votes and no candidate that has more, or, where nobody has
  -- voted, with the empty text.
  pub leader-Outcome : Outcome votes (leader m)
  unfolding leader
  leader-Outcome = finish (survey m no_lead) (
      survey-Standing m unseen no_lead h.unique
        (above_zero m h.unique (λ k c found. (counted votes m k c h found).1)) (λ k c n p. absurd p)
        (nothing_seen (λ k c p. p) refl))

-- no candidate is ahead of all others where two have the most votes
two_best :
    (votes : List VoteRecord) (w a b : String)
    → ((k : String) → k ≢ w → votes_for k votes < votes_for w votes)
    → a ≢ b
    → votes_for a votes ≡ votes_for b votes
    → ((k : String) → votes_for k votes ≤ votes_for a votes)
    → ⊥
two_best votes w a b best d eq le = elim (Bool-cases (str_eq a w)) [
  | inl same ↦
      let a_is_w = (eq_iff a w).0 same in
      let lt = best b (λ e. d (a_is_w ∙ sym e)) in
      let at_w = ap (λ k. votes_for k votes) a_is_w in omega (arith, lt, at_w, eq)
  | inr other ↦
      let lt = best a (λ e. absurd (false≢true (sym other ∙ (eq_iff a w).1 e))) in
      let most = le w in omega (arith, lt, most)
]

-- Two outcomes of the same votes are the same.
one_result : (votes : List VoteRecord) (r s : String) → Outcome votes r → Outcome votes s → r ≡ s
one_result votes r s (nobody z e) (nobody _ f) = e ∙ sym f
one_result votes r s (nobody z e) (wins more _) =
    let none_ = z s in absurd (omega (arith, none_, more))
one_result votes r s (nobody z e) (draws a b d eq le more f) =
    let none_ = z a in absurd (omega (arith, none_, more))
one_result votes r s (wins more _) (nobody z e) =
    let none_ = z r in absurd (omega (arith, none_, more))
one_result votes r s (wins more best) (wins _ best') = elim (Bool-cases (str_eq r s)) [
  | inl same ↦ (eq_iff r s).0 same
  | inr other ↦
      let lt = best' r (λ e. absurd (false≢true (sym other ∙ (eq_iff r s).1 e))) in
      let gt = best s (λ e. absurd (false≢true (sym other ∙ (eq_iff r s).1 (sym e)))) in
      absurd (omega (arith, lt, gt))
]
one_result votes r s (wins more best) (draws a b d eq le more' f) =
    absurd (two_best votes r a b best d eq le)
one_result votes r s (draws a b d eq le more f) (nobody z e) =
    let none_ = z a in absurd (omega (arith, none_, more))
one_result votes r s (draws a b d eq le more f) (wins _ best) =
    absurd (two_best votes s a b best d eq le)
one_result votes r s (draws a b d eq le more f) (draws _ _ _ _ _ _ g) = f ∙ sym g

-- The counts of a list of votes may come in any two orders from the Go map: the loop over them ends
-- with the same text, which is what `majority_vote` returns.
pub majority_vote-order :
    (votes : List VoteRecord) (m n : List (String × ℕ))
    → Counts votes m
    → Counts votes n
    → (leader m ≡ leader n) × (majority_vote votes ≡ leader m)
unfolding majority_vote
majority_vote-order votes m n h k = (
  one_result votes _ _ (leader-Outcome votes m h) (leader-Outcome votes n k),
  one_result votes _ _ (leader-Outcome votes (tally votes) (tally-Counts votes))
      (leader-Outcome votes m h),
)
