-- ===== src/State/Engine/Order.antt =====
-- `IteratePrefix` and `Commit` go over the entries in the order of their keys, so what they return
-- does not depend on the order in which a Go map yields them.
use Prim.Native.Nat.{Ordering}
use Prim.Native.String.{compare}
use text.Mathlib.TextEquality.{path_by_compare}
use text.Mathlib.TextPositions.{compare_refl, eq_refl}
use aacp.Prelude.{
  String, ◌≡◌, refl, none, some, List, [], ◌∷◌, arith, if◌then◌else◌, str_eq, eq_iff, All, sym, ◌∙◌,
}
use aacp.Prelude.Text.{StrLt, StrLt-trans, StrLt-of_gt}
use aacp.State.Engine.{lookup, insert, erase, matching, insert_sorted, sort}
use aacp.State.Engine.Laws.{lookup-insert, lookup-erase, lookup-matching}

lt_irrefl : (k : String) → ¬ (StrLt k k)
lt_irrefl k h = cc (compare_refl k)

module _ {V : Type 0} where
  -- no key is listed twice
  abbrev pub Unique : List (String × V) → Type 0
  Unique [] = Unit
  Unique ((k, v) ∷ m) = (lookup k m ≡ none) × Unique m

  abbrev pub Below : String → List (String × V) → Type 0
  Below k = All (λ f. StrLt k f.0)

  abbrev pub Ascending : List (String × V) → Type 0
  Ascending [] = Unit
  Ascending (e ∷ m) = Below e.0 m × Ascending m

  pub insert-Unique :
      (k : String) (v : V) (m : List (String × V)) → Unique m → Unique (insert k v m)
  unfolding insert
  insert-Unique k v [] h = (unfold lookup in refl, tt)
  insert-Unique k v ((j, w) ∷ m) h =
      ground (arith, eq_iff j k, eq_iff k j, insert-Unique k v m h.1, lookup-insert k j v m)

  pub erase-Unique : (k : String) (m : List (String × V)) → Unique m → Unique (erase k m)
  unfolding erase
  erase-Unique k [] h = tt
  erase-Unique k ((j, w) ∷ m) h = ground (arith, erase-Unique k m h.1, lookup-erase k j m)

  pub matching-Unique : (p : String) (m : List (String × V)) → Unique m → Unique (matching p m)
  unfolding matching
  matching-Unique p [] h = tt
  matching-Unique p ((j, w) ∷ m) h = ground (arith, matching-Unique p m h.1, lookup-matching p j m)

  lookup-Below : (k : String) (m : List (String × V)) → Below k m → lookup k m ≡ none
  unfolding lookup
  lookup-Below k [] h = refl
  lookup-Below k ((j, w) ∷ m) h = ground (arith, eq_iff j k, lt_irrefl k, lookup-Below k m h.1)

  Below-trans : (k j : String) (m : List (String × V)) → StrLt k j → Below j m → Below k m
  Below-trans k j [] h b = tt
  Below-trans k j (f ∷ m) h b = (StrLt-trans k j f.0 h b.0, Below-trans k j m h b.1)

  Below-insert_sorted :
      (k : String) (e : String × V) (m : List (String × V))
      → StrLt k e.0
      → Below k m
      → Below k (insert_sorted e m)
  unfolding insert_sorted
  Below-insert_sorted k e [] h b = (h, tt)
  Below-insert_sorted k e (f ∷ m) h b = ground (arith, Below-insert_sorted k e m h b.1)

  lookup-insert_sorted :
      (e : String × V) (j : String) (m : List (String × V))
      → lookup e.0 m ≡ none
      → lookup j (insert_sorted e m) ≡ (if str_eq e.0 j then some e.1 else lookup j m)
  unfolding lookup insert_sorted
  lookup-insert_sorted e j [] h = refl
  lookup-insert_sorted e j ((i, w) ∷ m) h =
      ground (arith, eq_iff e.0 j, eq_iff i e.0, eq_iff i j, lookup-insert_sorted e j m)

  pub lookup-sort : (j : String) (m : List (String × V)) → Unique m → lookup j (sort m) ≡ lookup j m
  unfolding lookup sort
  lookup-sort j [] h = refl
  lookup-sort j (e ∷ m) h =
      ground (arith, lookup-sort e.0 m h.1, lookup-sort j m h.1, lookup-insert_sorted e j (sort m))

  insert_sorted-Ascending :
      (e : String × V) (m : List (String × V))
      → lookup e.0 m ≡ none
      → Ascending m
      → Ascending (insert_sorted e m)
  unfolding lookup insert_sorted
  insert_sorted-Ascending e [] h a = (tt, tt)
  insert_sorted-Ascending e (f ∷ m) h a = ground (
    arith,
    eq_iff f.0 e.0,
    path_by_compare e.0 f.0,
    StrLt-of_gt e.0 f.0,
    Below-trans e.0 f.0 m,
    Below-insert_sorted f.0 e m,
    insert_sorted-Ascending e m,
  )

  pub sort-Ascending : (m : List (String × V)) → Unique m → Ascending (sort m)
  unfolding sort
  sort-Ascending [] h = tt
  sort-Ascending (e ∷ m) h =
      insert_sorted-Ascending e (sort m) (lookup-sort e.0 m h.1 ∙ h.0) (sort-Ascending m h.1)

  -- Ascending lists with the same entries are equal.
  lookup_head : (k : String) (v : V) (m : List (String × V)) → lookup k ((k, v) ∷ m) ≡ some v
  unfolding lookup
  lookup_head k v m = rw (eq_refl k)

  same_head :
      (k j : String) (v w : V) (l m : List (String × V)) (o : Ordering)
      → compare k j ≡ o
      → Below k l
      → Below j m
      → lookup k ((k, v) ∷ l) ≡ lookup k ((j, w) ∷ m)
      → lookup j ((k, v) ∷ l) ≡ lookup j ((j, w) ∷ m)
      → (k ≡ j) × (v ≡ w)
  same_head k j v w l m Ordering.lt o a b h h' =
      ground (arith, lookup_head k v l, lookup-Below k ((j, w) ∷ m) (o, Below-trans k j m o b))
  same_head k j v w l m Ordering.eq o a b h h' =
      let e = path_by_compare k j o in ground (arith, e, lookup_head k v l, lookup_head j w m)
  same_head k j v w l m Ordering.gt o a b h h' =
      let o' = StrLt-of_gt k j o in
      ground (arith, lookup_head j w m, lookup-Below j ((k, v) ∷ l) (o', Below-trans j k l o' a))

  same_tail :
      (k j : String) (v w : V) (l m : List (String × V))
      → k ≡ j
      → v ≡ w
      → Below k l
      → Below j m
      → ((i : String) → lookup i ((k, v) ∷ l) ≡ lookup i ((j, w) ∷ m))
      → (i : String) → lookup i l ≡ lookup i m
  unfolding lookup
  same_tail k j v w l m e f bl bm h i =
      ground (arith, h i, eq_iff k i, eq_iff j i, lookup-Below k l bl, lookup-Below j m bm)

  lookup_nil : (k : String) → lookup {V = V} k [] ≡ none
  unfolding lookup
  lookup_nil k = refl

  Ascending-ext :
      (l m : List (String × V))
      → Ascending l
      → Ascending m
      → ((j : String) → lookup j l ≡ lookup j m)
      → l ≡ m
  Ascending-ext [] [] a b h = refl
  Ascending-ext [] ((j, w) ∷ m) a b h = ground (arith, h j, lookup_head j w m, lookup_nil j)
  Ascending-ext ((k, v) ∷ l) [] a b h = ground (arith, h k, lookup_head k v l, lookup_nil k)
  Ascending-ext ((k, v) ∷ l) ((j, w) ∷ m) a b h =
      let (e, f) = same_head k j v w l m (compare k j) refl a.0 b.0 (h k) (h j) in
      cc (e, f, Ascending-ext l m a.1 b.1 (same_tail k j v w l m e f a.0 b.0 h))

  -- Two maps with the same content, in any order of their entries, are sorted into the same list.
  pub sort-ext :
      (l m : List (String × V))
      → Unique l
      → Unique m
      → ((j : String) → lookup j l ≡ lookup j m)
      → sort l ≡ sort m
  sort-ext l m u u' h =
      Ascending-ext (sort l) (sort m) (sort-Ascending l u) (sort-Ascending m u')
        (λ j. lookup-sort j l u ∙ h j ∙ sym (lookup-sort j m u'))
