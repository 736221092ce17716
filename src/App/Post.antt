-- ===== src/App/Post.antt =====
-- What holds after an action, with one rule for each way in which a handler starts.
pub mod Results
use aacp.Prelude.{
  String, ◌≡◌, refl, str_eq, eq_refl, sym, subst, Bool, true, false, Option, none, some, [], ◌∷◌,
  ◌++◌, if◌then◌else◌, inl, inr, ◌⊎◌, arith, Option-cases,
}
use aacp.Exec.{Error, Result, ok, err, pure, fail, lift, fail_if, or_fail, ◌>>=◌, ◌>>◌}
use aacp.Codec.{Json, JsonLaw}
use aacp.State.Engine.{Store, get, set}
use aacp.State.Engine.Laws.{get-set}
use aacp.Types.{Event}
use aacp.App.Router.{World, Action, put, emit, ignore, save_json, load_json}

-- what `Get` and `Unmarshal` find under a key
unfoldable pub reads : {Raw A : Type 0} → Json Raw A → Store Raw → String → Option A
reads j s k = elim (get s k) [ none ↦ none | some raw ↦ j.unmarshal raw ]

-- the world with a value stored
abbrev pub stored : {Raw : Type 0} → World Raw → String → Raw → World Raw
stored w k v = record w { store = set w.store k v }

-- the world with an event on the bus
abbrev pub emitted : {Raw : Type 0} → World Raw → Event → World Raw
emitted w ev = record w { bus = w.bus ++ ev ∷ [] }

module _ {Raw A : Type 0} where
  -- The result and the world of the action satisfy `Q`.
  pub record Post (w : World Raw) (m : Action Raw A) (Q : Result A → World Raw → Type 0)
      : Type 0 where
    pub holds : Q (m w).0 (m w).1

  module _ (w : World Raw) (Q : Result A → World Raw → Type 0) where
    post_any_at :
        {B : Type 0} (o : Result B × World Raw) (n : Action Raw A)
        → ((e : Error) (v : World Raw) → Q (err e) v)
        → ((v : World Raw) → Post v n Q)
        → let m = λ (_ : World Raw). o in Post w (m >> n) Q
    post_any_at (ok b, v) n bad good = record { holds = (good v).holds }
    post_any_at (err e, v) n bad good = record { holds = bad e v }

    pub post_pure : (a : A) → Q (ok a) w → Post w (pure a) Q
    post_pure a h = record { holds = h }

    pub post_fail : (e : Error) → Q (err e) w → Post w (fail e) Q
    post_fail e h = record { holds = h }

    pub post_decode :
        {B : Type 0} (e : Error) (o : Option B) (k : B → Action Raw A)
        → Q (err e) w
        → ((b : B) → o ≡ some b → Post w (k b) Q)
        → Post w (lift (or_fail e o) >>= k) Q
    post_decode e none k bad good = record { holds = bad }
    post_decode e (some b) k bad good = record { holds = (good b refl).holds }

    pub post_guard :
        (b : Bool) (e : Error) (k : Action Raw A)
        → Q (err e) w
        → (b ≡ false → Post w k Q)
        → Post w (fail_if b e >> k) Q
    post_guard true e k bad good = record { holds = bad }
    post_guard false e k bad good = record { holds = (good refl).holds }

    pub post_if :
        (b : Bool) (m n : Action Raw A)
        → (b ≡ true → Post w m Q)
        → (b ≡ false → Post w n Q)
        → Post w (if b then m else n) Q
    post_if true m n h k = h refl
    post_if false m n h k = k refl

    pub post_put :
        (k : String) (v : Raw) (m : Action Raw A)
        → Post (stored w k v) m Q
        → Post w (put k v >> m) Q
    unfolding put
    post_put k v m h = record { holds = h.holds }

    pub post_save :
        {B : Type 0} (j : Json Raw B) (e : Error) (k : String) (b : B) (m : Action Raw A)
        → Q (err e) w
        → ((raw : Raw) → j.marshal b ≡ some raw → Post (stored w k raw) m Q)
        → Post w (save_json j e k b >> m) Q
    unfolding save_json put
    post_save j e k b m bad good = elim (Option-cases (j.marshal b)) [
      | inl none_ ↦ record { holds = rw (none_, or_fail) bad }
      | inr (raw, some_) ↦ record { holds = rw (some_, or_fail) ((good raw some_).holds) }
    ]

    load_cases :
        {B : Type 0} (j : Json Raw B) (e f : Error) (key : String)
        → (load_json j e f key w ≡ (err e, w))
          ⊎ ((load_json j e f key w ≡ (err f, w))
              ⊎ ((b : B) × (reads j w.store key ≡ some b) × (load_json j e f key w ≡ (ok b, w))))
    unfolding load_json reads
    load_cases j e f key = elim (Option-cases (get w.store key)) [
      | inl none_ ↦ inl (ground arith)
      | inr (raw, found) ↦ elim (Option-cases (j.unmarshal raw)) [
        | inl none_ ↦ inr (inl (ground arith))
        | inr (b, read) ↦ inr (inr (b, ground arith, ground arith))
      ]
    ]

    pub post_ok :
        {B : Type 0} (m : Action Raw B) (k : B → Action Raw A) (b : B) (v : World Raw)
        → m w ≡ (ok b, v)
        → Post v (k b) Q
        → Post w (m >>= k) Q
    post_ok m k b v h good = record {
      holds =
          subst (λ o. let n = λ (_ : World Raw). o in Q ((n >>= k) w).0 ((n >>= k) w).1) (sym h)
            good.holds;
    }

    post_err :
        {B : Type 0} (m : Action Raw B) (k : B → Action Raw A) (e : Error) (v : World Raw)
        → m w ≡ (err e, v)
        → Q (err e) v
        → Post w (m >>= k) Q
    post_err m k e v h bad = record {
      holds =
          subst (λ o. let n = λ (_ : World Raw). o in Q ((n >>= k) w).0 ((n >>= k) w).1) (sym h)
            bad;
    }

    pub post_emit :
        (ev : Event) (m : Action Raw A) → Post (emitted w ev) m Q → Post w (emit ev >> m) Q
    unfolding emit
    post_emit ev m h = record { holds = h.holds }

    -- a save whose error is dropped
    pub post_ignore :
        {B : Type 0} (j : Json Raw B) (e : Error) (k : String) (b : B) (m : Action Raw A)
        → (j.marshal b ≡ none → Post w m Q)
        → ((raw : Raw) → j.marshal b ≡ some raw → Post (stored w k raw) m Q)
        → Post w (ignore (save_json j e k b) >> m) Q
    unfolding save_json put ignore
    post_ignore j e k b m bad good = elim (Option-cases (j.marshal b)) [
      | inl none_ ↦ record { holds = rw (none_, or_fail) (bad none_).holds }
      | inr (raw, some_) ↦ record { holds = rw (some_, or_fail) ((good raw some_).holds) }
    ]

    -- any action, for a condition that holds of each failure
    pub post_any :
        {B : Type 0} (m : Action Raw B) (n : Action Raw A)
        → ((e : Error) (v : World Raw) → Q (err e) v)
        → ((v : World Raw) → Post v n Q)
        → Post w (m >> n) Q
    post_any m n bad good = record { holds = (post_any_at (m w) n bad good).holds }

    pub post_load :
        {B : Type 0} (j : Json Raw B) (e f : Error) (key : String) (k : B → Action Raw A)
        → Q (err e) w
        → Q (err f) w
        → ((b : B) → reads j w.store key ≡ some b → Post w (k b) Q)
        → Post w (load_json j e f key >>= k) Q
    post_load j e f key k missing bad good = elim (load_cases j e f key) [
      | inl h ↦ post_err (load_json j e f key) k e w h missing
      | inr (inl h) ↦ post_err (load_json j e f key) k f w h bad
      | inr (inr (b, read, h)) ↦ post_ok (load_json j e f key) k b w h (good b read)
    ]

  pub ruleset post_rules = (
    post_pure, post_fail, post_decode, post_guard, post_if, post_put, post_save, post_emit,
    post_ignore, post_load,
  )

-- a postcondition of success alone
unfoldable pub IfOk : {A : Type 0} → Type 0 → Result A → Type 0
IfOk D (ok a) = D
IfOk D (err e) = Unit {0}

pub at_ok :
    {Raw A : Type 0} {w v : World Raw} {m : Action Raw A} {a : A} (D : World Raw → Type 0)
    → Post w m (λ r v. IfOk (D v) r)
    → m w ≡ (ok a, v)
    → D v
unfolding IfOk
at_ok D p h = subst (λ o. IfOk (D o.1) o.0) h p.holds

module _ {Raw A : Type 0} (j : Json Raw A) (s : Store Raw) where
  -- A saved value is read back under its key, and under no other.
  pub reads-set :
      (k : String) (a : A) (raw : Raw)
      → JsonLaw j
      → j.marshal a ≡ some raw
      → reads j (set s k raw) k ≡ some a
  unfolding reads
  reads-set k a raw law h = rw (get-set s k k raw, eq_refl k, reads) (law.back a raw h)

  pub reads-set_ne :
      (k q : String) (raw : Raw) → str_eq k q ≡ false → reads j (set s k raw) q ≡ reads j s q
  unfolding reads
  reads-set_ne k q raw h = rw (get-set s k q raw, h, reads) refl
