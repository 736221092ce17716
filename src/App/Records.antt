-- ===== src/App/Records.antt =====
-- Records that a module keeps as JSON, each under a key of its own, and that change only by moves.
pub mod Leaves
pub mod Status
pub mod Journeys
use aacp.Prelude.{
  String, ◌≡◌, refl, sym, ◌∙◌, ap, subst, ◌⊎◌, inl, inr, false, Option, some, List, [], ◌∷◌,
  Bool-cases, Option-cases, str_eq, eq_iff, All,
}
use aacp.Exec.{Result}
use aacp.Codec.{Json, JsonLaw}
use aacp.State.Engine.{Store, set, lookup}
use aacp.Types.{TxEnvelope}
use aacp.App.Router.{World, Context, ActionHandler, execute_action}
use aacp.App.Post.{Post, reads, reads-set, reads-set_ne, post_fail}
use aacp.App.Lawful.{some_inj, lookup-All}

-- at most one move
pub data Hop {A : Type 0} (Move : A → A → Type 0) (t : A) : A → Type 0 where
  rests : Hop Move t t
  moves : {u : A} → Move t u → Hop Move t u

-- A kind of records: its encoding, the keys, the id that a record holds, and the moves.
pub record Kind (Raw A : Type 0) : Type 1 where
  pub json : Json Raw A
  pub key : String → String
  pub name : A → String
  pub Move : A → A → Type 0

-- Different ids have different keys, and a move does not change the id.
pub record KindLaw {Raw A : Type 0} (kind : Kind Raw A) : Type 0 where
  pub apart : (a b : String) → kind.key a ≡ kind.key b → a ≡ b
  pub same_name : (t u : A) → kind.Move t u → kind.name u ≡ kind.name t

module _ {Raw A : Type 0} (kind : Kind Raw A) where
  -- what the store holds for an id
  abbrev pub record_of : Store Raw → String → Option A
  record_of s id = reads kind.json s (kind.key id)

  -- Every record is stored under its own id.
  abbrev pub WellKeyed : Store Raw → Type 0
  WellKeyed s = (id : String) (t : A) → record_of s id ≡ some t → kind.name t ≡ id

  -- No record disappears, and each has made at most one move.
  pub record Advances (s r : Store Raw) : Type 0 where
    pub keyed : WellKeyed s → WellKeyed r
    pub moved :
        WellKeyed s
        → (id : String) (t : A) → record_of s id ≡ some t
        → (u : A) × (record_of r id ≡ some u) × Hop kind.Move t u

  pub Advances-refl : (s : Store Raw) → Advances s s
  Advances-refl s = record { keyed = λ h. h; moved = λ h id t e. (t, e, rests) }

  -- a key that belongs to no record
  abbrev pub NoRecordKey : String → Type 0
  NoRecordKey k = (id : String) → str_eq k (kind.key id) ≡ false

  -- A write to such a key changes no record.
  pub Advances-other :
      (s : Store Raw) (k : String) (raw : Raw) → NoRecordKey k → Advances s (set s k raw)
  Advances-other s k raw h =
      let same = λ (id : String). reads-set_ne kind.json s k (kind.key id) raw (h id) in
      record {
        keyed = λ w id t e. w id t (sym (same id) ∙ e);
        moved = λ w id t e. (t, same id ∙ e, rests);
      }

  saved_cases :
      (s : Store Raw) (u : A) (raw : Raw)
      → KindLaw kind
      → JsonLaw kind.json
      → kind.json.marshal u ≡ some raw
      → (id : String)
      → ((kind.name u ≡ id) × (record_of (set s (kind.key (kind.name u)) raw) id ≡ some u))
        ⊎ (record_of (set s (kind.key (kind.name u)) raw) id ≡ record_of s id)
  saved_cases s u raw here law h id =
      elim (Bool-cases (str_eq (kind.key (kind.name u)) (kind.key id))) [
        | inl hit ↦
            let same =
              here.apart (kind.name u) id ((eq_iff (kind.key (kind.name u)) (kind.key id)).0 hit) in
            inl (
              same,
              subst (λ i. record_of (set s (kind.key (kind.name u)) raw) i ≡ some u) same
                  (reads-set kind.json s (kind.key (kind.name u)) u raw law h),
            )
        | inr other ↦
            inr (reads-set_ne kind.json s (kind.key (kind.name u)) (kind.key id) raw other)
      ]

  -- Saving a record that has moved advances the store.
  pub Advances-save :
      (s : Store Raw) (id : String) (t u : A) (raw : Raw)
      → KindLaw kind
      → JsonLaw kind.json
      → record_of s id ≡ some t
      → kind.Move t u
      → kind.json.marshal u ≡ some raw
      → Advances s (set s (kind.key (kind.name u)) raw)
  Advances-save s id t u raw here law e m h = record {
    keyed = λ w i v found. elim (saved_cases s u raw here law h i) [
      | inl (same, now) ↦
          let is_u = some_inj u v (sym now ∙ found) in sym (ap kind.name is_u) ∙ same
      | inr before ↦ w i v (sym before ∙ found)
    ];
    moved = λ w i v found. elim (saved_cases s u raw here law h i) [
      | inl (same, now) ↦
          let at_i : id ≡ i = sym (w id t e) ∙ (sym (here.same_name t u m) ∙ same) in
          let is_t = some_inj t v (sym e ∙ (ap (record_of s) at_i ∙ found)) in
          (u, now, subst (λ x. Hop kind.Move x u) is_t (moves m))
      | inr before ↦ (v, before ∙ found, rests)
    ];
  }

  -- The same with a second write, to a key that belongs to no record, after it or before it.
  pub Advances-save_other :
      (s : Store Raw) (id : String) (t u : A) (raw : Raw) (k : String) (v : Raw)
      → KindLaw kind
      → JsonLaw kind.json
      → record_of s id ≡ some t
      → kind.Move t u
      → kind.json.marshal u ≡ some raw
      → NoRecordKey k
      → Advances s (set (set s (kind.key (kind.name u)) raw) k v)
  Advances-save_other s id t u raw k v here law e m h o =
      let saved = Advances-save s id t u raw here law e m h in
      let after = set s (kind.key (kind.name u)) raw in
      let same = λ (i : String). reads-set_ne kind.json after k (kind.key i) v (o i) in
      record {
        keyed = λ w. (Advances-other after k v o).keyed (saved.keyed w);
        moved =
            λ w i x found. let (y, now, hop) = saved.moved w i x found in (y, same i ∙ now, hop);
      }

  pub Advances-other_save :
      (s : Store Raw) (id : String) (t u : A) (raw : Raw) (k : String) (v : Raw)
      → KindLaw kind
      → JsonLaw kind.json
      → record_of s id ≡ some t
      → kind.Move t u
      → kind.json.marshal u ≡ some raw
      → NoRecordKey k
      → Advances s (set (set s k v) (kind.key (kind.name u)) raw)
  Advances-other_save s id t u raw k v here law e m h o =
      let same = λ (i : String). reads-set_ne kind.json s k (kind.key i) v (o i) in
      let saved = Advances-save (set s k v) id t u raw here law (same id ∙ e) m h in
      record {
        keyed = λ w. saved.keyed ((Advances-other s k v o).keyed w);
        moved = λ w i x found. saved.moved ((Advances-other s k v o).keyed w) i x (same i ∙ found);
      }

  abbrev pub Advancing : {B : Type 0} → World Raw → Result B → World Raw → Type 0
  Advancing w r v = Advances w.store v.store

  abbrev pub AdvancingHandler : ActionHandler Raw → Type 0
  AdvancingHandler h =
      (ctx : Context) (env : TxEnvelope Raw) (w : World Raw) → Post w (h ctx env) (Advancing w)

  module _ (action : String) (make : ActionHandler Raw) (table : List (String × ActionHandler Raw))
      (each : All (λ e. AdvancingHandler e.1) table) where
    -- Every transaction of the module advances the store but the action that makes records.
    pub execute_action-Advancing :
        (ctx : Context) (env : TxEnvelope Raw) (w : World Raw)
        → str_eq action env.action ≡ false
        → Post w (execute_action ((action, make) ∷ table) ctx env) (Advancing w)
    unfolding execute_action lookup
    execute_action-Advancing ctx env w h =
        elim (Option-cases (lookup env.action ((action, make) ∷ table))) [
          | inl missing ↦
              rw (missing, execute_action) (post_fail w (Advancing w) _ (Advances-refl w.store))
          | inr (handler, found) ↦
              rw (found, execute_action)
                (lookup-All AdvancingHandler env.action handler table each (rw h at found) ctx env
                  w)
        ]

-- transactions, each with the context of its block
abbrev pub Transactions : Type 0 → Type 0
Transactions Raw = List (Context × TxEnvelope Raw)

-- transactions one after the other, on a table of handlers
unfoldable pub run :
    {Raw : Type 0}
    → List (String × ActionHandler Raw)
    → List (Context × TxEnvelope Raw)
    → World Raw
    → World Raw
run table [] w = w
run table ((ctx, env) ∷ txs) w = run table txs (execute_action table ctx env w).1
