-- ===== src/Modules/Arb/Majority.antt =====
-- The loop of `majorityVote`: what its variables say of the counts that it has seen.
use aacp.Prelude.{
  ℕ, ◌≤◌, ◌<◌, String, ◌≡◌, ◌≢◌, refl, sym, ◌∙◌, ap, subst, ◌⊎◌, inl, inr, true, false, some, none,
  List, [], ◌∷◌, arith, Bool-cases, str_eq, eq_iff, eq_refl, ltb, ◌==◌, All,
}
use aacp.State.Engine.{lookup}
use aacp.State.Engine.Order.{Unique}
use aacp.App.Lawful.{some_inj}
use aacp.Modules.Arb.Votes.{Lead, no_lead, compare_count, survey}

-- which vote has which count
abbrev pub Seen : Type 1
Seen = String → ℕ → Type 0

abbrev pub Bounded : Seen → ℕ → Type 0
Bounded P n = (k : String) (c : ℕ) → P k c → c ≤ n

pub data Standing (P : Seen) (l : Lead) : Type 0 where
  nothing_seen : ((k : String) (c : ℕ) → ¬ P k c) → l ≡ no_lead → Standing P l
  ahead :
      P l.winner l.best
      → ((k : String) (c : ℕ) → P k c → k ≢ l.winner → c < l.best)
      → ((c : ℕ) → P l.winner c → c ≡ l.best)
      → l.tie ≡ false
      → Standing P l
  tied :
      (a b : String)
      → a ≢ b
      → P a l.best
      → P b l.best
      → Bounded P l.best
      → l.tie ≡ true
      → Standing P l

Standing-Bounded : (P : Seen) (l : Lead) → Standing P l → Bounded P l.best
Standing-Bounded P l (nothing_seen h e) k c p = absurd (h k c p)
Standing-Bounded P l (tied a b d pa pb h t) k c p = h k c p
Standing-Bounded P l (ahead here others own t) k c p = elim (Bool-cases (str_eq k l.winner)) [
  | inl same ↦ let e = own c (subst (λ i. P i c) ((eq_iff k l.winner).0 same) p) in omega (arith, e)
  | inr other ↦
      let lt = others k c p (λ e. clash (sym other ∙ (eq_iff k l.winner).1 e)) in omega (arith, lt)
]
  where
    clash : {A : Type 0} → false ≡ true → A
    clash h = cc

-- one more count
abbrev pub With : Seen → String → ℕ → Seen
With P candidate count k c = P k c ⊎ ((k ≡ candidate) × (c ≡ count))

module _ (P : Seen) (k0 : String) (c0 : ℕ) (fresh : (c : ℕ) → ¬ P k0 c) where
  new_ahead :
      (n : ℕ)
      → Bounded P n
      → n < c0
      → Standing (With P k0 c0) (record { winner = k0; best = c0; tie = false })
  new_ahead n bound lt = ahead (inr (refl, refl)) others own refl
    where
      others : (k : String) (c : ℕ) → With P k0 c0 k c → k ≢ k0 → c < c0
      others k c (inl p) d = let h = bound k c p in omega (arith, h, lt)
      others k c (inr (e, _)) d = absurd (d e)

      own : (c : ℕ) → With P k0 c0 k0 c → c ≡ c0
      own c (inl p) = absurd (fresh c p)
      own c (inr (_, e)) = e

  bound_with : (n : ℕ) → Bounded P n → c0 ≤ n → Bounded (With P k0 c0) n
  bound_with n bound le k c (inl p) = bound k c p
  bound_with n bound le k c (inr (_, e)) = omega (arith, e, le)

  new_tied :
      (l : Lead)
      → Standing P l
      → 0 < c0
      → c0 ≡ l.best
      → Standing (With P k0 c0) (record l { tie = true })
  new_tied l (nothing_seen h e) pos_ same =
      let zero_ : l.best ≡ 0 = ap (λ (x : Lead). x.best) e in
      absurd (omega (arith, zero_, same, pos_))
  new_tied l (ahead here others own t) pos_ same =
      tied l.winner k0 (λ e. fresh l.best (subst (λ i. P i l.best) e here)) (inl here)
        (inr (refl, sym same))
        (bound_with l.best (Standing-Bounded P l (ahead here others own t)) (omega (arith, same)))
        refl
  new_tied l (tied a b d pa pb h t) pos_ same =
      tied a b d (inl pa) (inl pb) (bound_with l.best h (omega (arith, same))) refl

  still : (l : Lead) → Standing P l → 0 < c0 → c0 < l.best → Standing (With P k0 c0) l
  still l (nothing_seen h e) pos_ lt =
      let zero_ : l.best ≡ 0 = ap (λ (x : Lead). x.best) e in absurd (omega (arith, zero_, lt))
  still l (ahead here others own t) pos_ lt = ahead (inl here) others' own' t
    where
      others' : (k : String) (c : ℕ) → With P k0 c0 k c → k ≢ l.winner → c < l.best
      others' k c (inl p) d = others k c p d
      others' k c (inr (_, e)) d = omega (arith, e, lt)

      own' : (c : ℕ) → With P k0 c0 l.winner c → c ≡ l.best
      own' c (inl p) = own c p
      own' c (inr (e, _)) = absurd (fresh l.best (subst (λ i. P i l.best) e here))
  still l (tied a b d pa pb h t) pos_ lt =
      tied a b d (inl pa) (inl pb) (bound_with l.best h (omega (arith, lt))) t

  pub compare_count-Standing :
      (l : Lead) → Standing P l → 0 < c0 → Standing (With P k0 c0) (compare_count k0 c0 l)
  unfolding compare_count
  compare_count-Standing l s pos_ = elim (Bool-cases (ltb l.best c0)) [
    | inl more ↦
        rw (more, compare_count) (new_ahead l.best (Standing-Bounded P l s) (ground (arith, more)))
    | inr not_more ↦ elim (Bool-cases (c0 == l.best)) [
      | inl same ↦ rw (not_more, same, compare_count) (new_tied l s pos_ (ground (arith, same)))
      | inr other ↦
          rw (not_more, other, compare_count) (still l s pos_ (ground (arith, not_more, other)))
    ]
  ]

-- all counts of a map
abbrev pub WithAll : Seen → List (String × ℕ) → Seen
WithAll P [] = P
WithAll P ((k, c) ∷ m) = WithAll (With P k c) m

abbrev pub Positive : List (String × ℕ) → Type 0
Positive = All (λ e. 0 < e.1)

-- a map that has none of the votes that were seen
abbrev Fresh : Seen → List (String × ℕ) → Type 0
Fresh P m = (k : String) (c n : ℕ) → P k c → ¬ (lookup k m ≡ some n)

lookup-first : (k : String) (c : ℕ) (m : List (String × ℕ)) → lookup k ((k, c) ∷ m) ≡ some c
unfolding lookup
lookup-first k c m = rw (eq_refl k) refl

lookup-rest :
    (k j : String) (c : ℕ) (m : List (String × ℕ))
    → str_eq j k ≡ false
    → lookup k ((j, c) ∷ m) ≡ lookup k m
unfolding lookup
lookup-rest k j c m h = rw h refl

Fresh-rest :
    (P : Seen) (k0 : String) (c0 : ℕ) (m : List (String × ℕ))
    → lookup k0 m ≡ none
    → Fresh P ((k0, c0) ∷ m)
    → Fresh (With P k0 c0) m
Fresh-rest P k0 c0 m u f k c n (inr (e, _)) found =
    let gone : none ≡ some n = sym u ∙ (ap (λ i. lookup i m) (sym e) ∙ found) in cc
Fresh-rest P k0 c0 m u f k c n (inl p) found = elim (Bool-cases (str_eq k0 k)) [
  | inl same ↦
      let e = (eq_iff k0 k).0 same in
      f k0 c c0 (subst (λ i. P i c) (sym e) p) (lookup-first k0 c0 m)
  | inr other ↦ f k c n p (lookup-rest k k0 c0 m other ∙ found)
]

pub survey-Standing :
    (m : List (String × ℕ)) (P : Seen) (l : Lead)
    → Unique m
    → Positive m
    → Fresh P m
    → Standing P l
    → Standing (WithAll P m) (survey m l)
unfolding survey
survey-Standing [] P l u p f s = s
survey-Standing ((k0, c0) ∷ m) P l u p f s =
    survey-Standing m (With P k0 c0) (compare_count k0 c0 l) u.1 p.1 (Fresh-rest P k0 c0 m u.0 f)
      (compare_count-Standing P k0 c0 (λ c q. f k0 c c0 q (lookup-first k0 c0 m)) l s p.0)

-- All counts of a map are those that it finds.
pub WithAll-lookup :
    (m : List (String × ℕ)) (P : Seen) (k : String) (c : ℕ)
    → Unique m
    → WithAll P m k c
    → P k c ⊎ (lookup k m ≡ some c)
WithAll-lookup [] P k c u h = inl h
WithAll-lookup ((k0, c0) ∷ m) P k c u h = elim (WithAll-lookup m (With P k0 c0) k c u.1 h) [
  | inl (inl p) ↦ inl p
  | inl (inr (e, e')) ↦
      inr (ap (λ i. lookup i ((k0, c0) ∷ m)) e ∙ (lookup-first k0 c0 m ∙ ap some (sym e')))
  | inr found ↦ elim (Bool-cases (str_eq k0 k)) [
    | inl same ↦
        let gone : none ≡ some c =
          sym u.0 ∙ (ap (λ i. lookup i m) ((eq_iff k0 k).0 same) ∙ found) in
        cc
    | inr other ↦ inr (lookup-rest k k0 c0 m other ∙ found)
  ]
]

WithAll-keeps : (m : List (String × ℕ)) (P : Seen) (k : String) (c : ℕ) → P k c → WithAll P m k c
WithAll-keeps [] P k c h = h
WithAll-keeps ((k0, c0) ∷ m) P k c h = WithAll-keeps m (With P k0 c0) k c (inl h)

pub lookup-WithAll :
    (m : List (String × ℕ)) (P : Seen) (k : String) (c : ℕ) → lookup k m ≡ some c → WithAll P m k c
unfolding lookup
lookup-WithAll [] P k c h = cc
lookup-WithAll ((k0, c0) ∷ m) P k c h = elim (Bool-cases (str_eq k0 k)) [
  | inl same ↦
      let e = (eq_iff k0 k).0 same in
      WithAll-keeps m (With P k0 c0) k c (
        inr (
          sym e,
          some_inj c c0
              (sym h ∙ (ap (λ i. lookup i ((k0, c0) ∷ m)) (sym e) ∙ lookup-first k0 c0 m)),
        ))
  | inr other ↦ lookup-WithAll m (With P k0 c0) k c (sym (lookup-rest k k0 c0 m other) ∙ h)
]
