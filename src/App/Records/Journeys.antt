-- ===== src/App/Records/Journeys.antt =====
-- What a run of transactions makes of one record, transaction by transaction.
use aacp.Prelude.{
  String, ◌≡◌, refl, sym, subst, ◌⊎◌, inl, inr, false, some, List, [], ◌∷◌, ◌++◌, str_eq, All, ap,
}
use aacp.Types.{TxEnvelope}
use aacp.App.Router.{World, Context, ActionHandler, execute_action}
use aacp.App.Records.{
  Kind, Hop, rests, moves, record_of, WellKeyed, AdvancingHandler, execute_action-Advancing, run,
  Transactions,
}

module _ {Raw A : Type 0} (kind : Kind Raw A) (table : List (String × ActionHandler Raw)) where
  -- The record of an id from transaction to transaction: it is there after each of them, and each
  -- makes at most one move of it.
  pub Journey : String → Transactions Raw → World Raw → A → A → Type 0
  Journey id [] w t u = u ≡ t
  Journey id ((ctx, env) ∷ txs) w t u =
      let w' = (execute_action table ctx env w).1 in
      (v : A) × (record_of kind w'.store id ≡ some v) × Hop kind.Move t v × Journey id txs w' v u

  -- At a moment of the run the store had the record in a certain condition.
  pub AtSomeTime : (A → Type 0) → String → Transactions Raw → World Raw → Type 0
  AtSomeTime From id txs w =
      (before : Transactions Raw) × (after : Transactions Raw) × (v : A) × (txs ≡ before ++ after)
      × (record_of kind (run table before w).store id ≡ some v)
      × From v

  at_the_start :
      (From : A → Type 0) (id : String) (txs : Transactions Raw) (w : World Raw) (t : A)
      → record_of kind w.store id ≡ some t
      → From t
      → AtSomeTime From id txs w
  unfolding run AtSomeTime
  at_the_start From id txs w t found from = ([], txs, t, refl, found, from)

  later_on :
      (From : A → Type 0) (id : String) (ctx : Context) (env : TxEnvelope Raw)
      (txs : Transactions Raw) (w : World Raw)
      → AtSomeTime From id txs (execute_action table ctx env w).1
      → AtSomeTime From id ((ctx, env) ∷ txs) w
  unfolding run AtSomeTime
  later_on From id ctx env txs w (before, after, v, split, found, from) =
      ((ctx, env) ∷ before, after, v, ap (λ l. (ctx, env) ∷ l) split, found, from)

  module _ (At From : A → Type 0) (enters : (t u : A) → kind.Move t u → At u → At t ⊎ From t) where
    hop_in : (t u : A) → Hop kind.Move t u → At u → At t ⊎ From t
    hop_in t _ rests h = inl h
    hop_in t _ (moves {u = u} m) h = enters t u m h

    -- A condition that the record has at the end it had at the start, or at a moment of the run the
    -- store had the record in a condition from which a move leads into it.
    pub Journey-AtSomeTime :
        (id : String) (txs : Transactions Raw) (w : World Raw) (t u : A)
        → record_of kind w.store id ≡ some t
        → Journey id txs w t u
        → At u
        → At t ⊎ AtSomeTime From id txs w
    unfolding Journey
    Journey-AtSomeTime id [] w t u found same h = inl (subst At same h)
    Journey-AtSomeTime id ((ctx, env) ∷ txs) w t u found (v, now, hop, rest) h =
        elim (Journey-AtSomeTime id txs (execute_action table ctx env w).1 v u now rest h) [
          | inr later ↦ inr (later_on From id ctx env txs w later)
          | inl at_v ↦ elim (hop_in t v hop at_v) [
            | inl at_t ↦ inl at_t
            | inr from ↦ inr (at_the_start From id ((ctx, env) ∷ txs) w t found from)
          ]
        ]

  module _ (Kept : A → A → Type 0) (same : (t : A) → Kept t t)
      (step : (t v u : A) → kind.Move t v → Kept v u → Kept t u) where
    Hop-Kept : (t v u : A) → Hop kind.Move t v → Kept v u → Kept t u
    Hop-Kept t _ u rests k = k
    Hop-Kept t _ u (moves {u = v} m) k = step t v u m k

    -- What every move keeps, the run keeps.
    pub Journey-Kept :
        (id : String) (txs : Transactions Raw) (w : World Raw) (t u : A)
        → Journey id txs w t u
        → Kept t u
    unfolding Journey
    Journey-Kept id [] w t u e = subst (λ x. Kept t x) (sym e) (same t)
    Journey-Kept id ((ctx, env) ∷ txs) w t u (v, now, hop, rest) =
        Hop-Kept t v u hop (Journey-Kept id txs (execute_action table ctx env w).1 v u rest)

  -- What a run makes of a record: where it goes, what it keeps, and how it comes into a condition.
  pub record Course (Kept : A → A → Type 0) (At From : A → Type 0) (id : String)
      (txs : Transactions Raw) (w : World Raw) (t u : A) : Type 0 where
    pub found : record_of kind (run table txs w).store id ≡ some u
    pub journey : Journey id txs w t u
    pub kept : Kept t u
    pub entered : At u → At t ⊎ AtSomeTime From id txs w

module _ {Raw A : Type 0} (kind : Kind Raw A) (action : String) (make : ActionHandler Raw)
    (table : List (String × ActionHandler Raw))
    (each : All (λ e. AdvancingHandler kind e.1) table) where
  -- Transactions that do not name the action that makes records take each record on a journey.
  pub run-Journey :
      (txs : Transactions Raw) (w : World Raw) (id : String) (t : A)
      → All (λ tx. str_eq action tx.1.action ≡ false) txs
      → WellKeyed kind w.store
      → record_of kind w.store id ≡ some t
      → (u : A) × (record_of kind (run ((action, make) ∷ table) txs w).store id ≡ some u)
        × Journey kind ((action, make) ∷ table) id txs w t u
  unfolding run Journey
  run-Journey [] w id t h keyed found = (t, found, refl)
  run-Journey ((ctx, env) ∷ txs) w id t h keyed found =
      let one = (execute_action-Advancing kind action make table each ctx env w h.0).holds in
      let (v, now, hop) = one.moved keyed id t found in
      let (u, final, rest) = run-Journey txs _ id v h.1 (one.keyed keyed) now in
      (u, final, (v, now, hop, rest))

  -- So they take it on a course, where each move keeps what is kept and enters the condition only
  -- from the other one.
  pub run-Course :
      (Kept : A → A → Type 0) (At From : A → Type 0) (txs : Transactions Raw) (w : World Raw)
      (id : String) (t : A)
      → ((x : A) → Kept x x)
      → ((x y z : A) → kind.Move x y → Kept y z → Kept x z)
      → ((x y : A) → kind.Move x y → At y → At x ⊎ From x)
      → All (λ tx. str_eq action tx.1.action ≡ false) txs
      → WellKeyed kind w.store
      → record_of kind w.store id ≡ some t
      → (u : A) × Course kind ((action, make) ∷ table) Kept At From id txs w t u
  run-Course Kept At From txs w id t same step enters h keyed found =
      let (u, final, journey) = run-Journey txs w id t h keyed found in
      let all = (action, make) ∷ table in
      (
        u,
        record {
          found = final;
          journey = journey;
          kept = Journey-Kept kind all Kept same step id txs w t u journey;
          entered = Journey-AtSomeTime kind all At From enters id txs w t u found journey;
        },
      )
