-- ===== src/App/Lawful.antt =====
-- The contract between the block loop and the modules: an action never touches an account's nonce,
-- and never fails with the code of success. One rule for each way to build an action.
use aacp.Prelude.{
  ℕ, String, ◌≡◌, ◌≢◌, refl, Bool, true, false, Option, none, some, List, [], ◌∷◌, ◌++◌, ◌∙◌,
  if◌then◌else◌, str_eq, Bytes, arith, All, ◌==◌, inl, inr, Bool-cases, Option-cases, subst,
  some-injective,
}
use aacp.Prelude.Encode.{hex}
use aacp.Exec.{
  Error, app, plain, panic, Result, ok, err, pure, fail, lift, gets, fail_if, or_fail, ◌>>=◌,
}
use aacp.Codec.{Wire, Json}
use aacp.State.Engine.{lookup}
use aacp.State.Keys.{nonce_key}
use aacp.State.Nonce.{get_nonce}
use aacp.State.Nonce.Laws.{get_nonce-set}
use aacp.Types.{Event, TxEnvelope, code_unknown_mod}
use aacp.App.Router.{
  World, Context, Action, ActionHandler, Module, Router, emit, put, save_json, load_json,
  execute_action, execute, end_block, ignore, list_prefix,
}

-- an error that `FinalizeBlock` cannot take for a success
pub data IsFailure : Error → Type 0 where
  plain_fails : IsFailure plain
  panic_fails : IsFailure panic
  app_fails : {c : ℕ} → c ≢ 0 → IsFailure (app c)

-- the same by a test, which computes at a numeral
pub nonzero_fails : (c : ℕ) → (c == 0) ≡ false → IsFailure (app c)
nonzero_fails c h = app_fails (ground arith)

-- a key that belongs to no account's nonce
abbrev pub NoNonceKey : String → Type 0
NoNonceKey k = (p : Bytes) → str_eq k (nonce_key (hex p)) ≡ false

pub some_inj : {V : Type 0} (a b : V) → some a ≡ some b → a ≡ b
some_inj a b h = cc

pub lookup-All :
    {V : Type 0} (P : V → Type 0) (k : String) (v : V) (m : List (String × V))
    → All (λ e. P e.1) m
    → lookup k m ≡ some v
    → P v
unfolding lookup
lookup-All P k v [] h q = cc
lookup-All P k v ((j, w) ∷ m) h q = elim (Bool-cases (str_eq j k)) [
  | inl here ↦ subst P (some_inj w v (rw here at q)) h.0
  | inr there ↦ lookup-All P k v m h.1 (rw there at q)
]

module _ {Raw : Type 0} (wire : Wire Raw) where
  abbrev SameNonces : World Raw → World Raw → Type 0
  SameNonces w v = (p : Bytes) → get_nonce wire v.store p ≡ get_nonce wire w.store p

  pub record Lawful {A : Type 0} (m : Action Raw A) : Type 0 where
    pub keeps : (w : World Raw) → SameNonces w (m w).1
    pub fails : (w : World Raw) (e : Error) → (m w).0 ≡ err e → IsFailure e

  module _ {A : Type 0} where
    pub Lawful-pure : (a : A) → Lawful (pure a)
    Lawful-pure a = record { keeps = λ w p. refl; fails = λ w e h. cc }

    err-injective : (e f : Error) → ◌≡◌ {A = Result A} (err e) (err f) → e ≡ f
    err-injective e f h = cc

    pub Lawful-fail : (e : Error) → IsFailure e → Lawful (fail {A = A} e)
    Lawful-fail e h = record { keeps = λ w p. refl; fails = λ w f q. rw (← err-injective e f q) h }

    pub Lawful-or_fail : (e : Error) (o : Option A) → IsFailure e → Lawful (lift (or_fail e o))
    Lawful-or_fail e none h = Lawful-fail e h
    Lawful-or_fail e (some a) h = Lawful-pure a

    pub Lawful-gets : (f : World Raw → A) → Lawful (gets f)
    Lawful-gets f = record { keeps = λ w p. refl; fails = λ w e h. cc }

    pub Lawful-if :
        (b : Bool) (m n : Action Raw A) → Lawful m → Lawful n → Lawful (if b then m else n)
    Lawful-if true m n h k = h
    Lawful-if false m n h k = k

  pub Lawful-fail_if : (b : Bool) (e : Error) → IsFailure e → Lawful (fail_if b e)
  Lawful-fail_if true e h = Lawful-fail e h
  Lawful-fail_if false e h = Lawful-pure tt

  pub Lawful-emit : (ev : Event) → Lawful (emit ev)
  unfolding emit
  Lawful-emit ev = record { keeps = λ w p. refl; fails = λ w e h. cc }

  pub Lawful-put : (k : String) (v : Raw) → NoNonceKey k → Lawful (put k v)
  unfolding put
  Lawful-put k v h = record {
    keeps = λ w p. get_nonce-set wire w.store k v p (h p);
    fails = λ w e q. cc;
  }

  pub Lawful-ignore : (m : Action Raw Unit) → Lawful m → Lawful (ignore m)
  unfolding ignore
  Lawful-ignore m h = record { keeps = h.keeps; fails = λ w e q. cc }

  pub Lawful-list_prefix : (p : String) → Lawful (list_prefix p)
  unfolding list_prefix
  Lawful-list_prefix p = Lawful-gets _

  module _ {A B : Type 0} where
    bind_at :
        (f : A → Action Raw B) (w : World Raw) (o : Result A × World Raw)
        → SameNonces w o.1
        → ((e : Error) → o.0 ≡ err e → IsFailure e)
        → ((a : A) → Lawful (f a))
        → let m = λ (v : World Raw). o in
          SameNonces w ((m >>= f) w).1 × ((e : Error) → ((m >>= f) w).0 ≡ err e → IsFailure e)
    bind_at f w (ok a, v) h k l = (λ p. (l a).keeps v p ∙ h p, (l a).fails v)
    bind_at f w (err e, v) h k l = (h, λ e' q. k e' (cc q))

    pub Lawful-bind :
        (m : Action Raw A) (f : A → Action Raw B)
        → Lawful m
        → ((a : A) → Lawful (f a))
        → Lawful (m >>= f)
    Lawful-bind m f h l = record {
      keeps = λ w. (bind_at f w (m w) (h.keeps w) (h.fails w) l).0;
      fails = λ w. (bind_at f w (m w) (h.keeps w) (h.fails w) l).1;
    }

  module _ {A : Type 0} where
    pub Lawful-save_json :
        (j : Json Raw A) (e : Error) (k : String) (a : A)
        → IsFailure e
        → NoNonceKey k
        → Lawful (save_json j e k a)
    unfolding save_json
    Lawful-save_json j e k a he hk =
        Lawful-bind _ _ (Lawful-or_fail e (j.marshal a) he) (λ b. Lawful-put k b hk)

    pub Lawful-load_json :
        (j : Json Raw A) (e f : Error) (k : String)
        → IsFailure e
        → IsFailure f
        → Lawful (load_json j e f k)
    unfolding load_json
    Lawful-load_json j e f k he hf = Lawful-bind _ _ (Lawful-gets _) λ found.
        Lawful-bind _ _ (Lawful-or_fail e found he) λ raw. Lawful-or_fail f (j.unmarshal raw) hf

  pub ruleset lawful_rules = (
    Lawful-pure, Lawful-fail, Lawful-or_fail, Lawful-gets, Lawful-if, Lawful-fail_if, Lawful-emit,
    Lawful-put, Lawful-bind, Lawful-ignore, Lawful-list_prefix, Lawful-save_json, Lawful-load_json,
    nonzero_fails, plain_fails, panic_fails, refl,
  )

  abbrev pub LawfulHandler : ActionHandler Raw → Type 0
  LawfulHandler h = (ctx : Context) (env : TxEnvelope Raw) → Lawful (h ctx env)

  -- every handler of a module's table
  abbrev pub LawfulHandlers : List (String × ActionHandler Raw) → Type 0
  LawfulHandlers = All (λ e. LawfulHandler e.1)

  pub record LawfulModule (m : Module Raw) : Type 0 where
    pub executes : LawfulHandler m.execute_tx
    pub ends : (ctx : Context) → Lawful (m.end_block ctx)

  abbrev pub LawfulRouter : Router Raw → Type 0
  LawfulRouter = All (λ e. LawfulModule e.1)

  unknown_fails : IsFailure (app code_unknown_mod)
  unknown_fails = app_fails (omega arith)

  -- `common.Module` dispatches to lawful handlers, or refuses the action.
  pub Lawful-execute_action :
      (table : List (String × ActionHandler Raw))
      → LawfulHandlers table
      → LawfulHandler (execute_action table)
  unfolding execute_action
  Lawful-execute_action table h ctx env = elim (Option-cases (lookup env.action table)) [
    | inl missing ↦ rw (missing, execute_action) (Lawful-fail _ unknown_fails)
    | inr (handler, found) ↦
        rw (found, execute_action)
          (lookup-All LawfulHandler env.action handler table h found ctx env)
  ]

  pub Lawful-execute : (r : Router Raw) → LawfulRouter r → LawfulHandler (execute r)
  unfolding execute
  Lawful-execute r h ctx env = elim (Option-cases (lookup env.module_name r)) [
    | inl missing ↦ rw (missing, execute) (Lawful-fail _ unknown_fails)
    | inr (m, found) ↦
        rw (found, execute) ((lookup-All LawfulModule env.module_name m r h found).executes ctx env)
  ]

  pub Lawful-end_block :
      (r : Router Raw) (ctx : Context) → LawfulRouter r → Lawful (end_block r ctx)
  unfolding end_block
  Lawful-end_block [] ctx h = Lawful-pure []
  Lawful-end_block ((n, m) ∷ r) ctx h =
      Lawful-bind _ _ (h.0.ends ctx)
        λ events. Lawful-bind _ _ (Lawful-end_block r ctx h.1) λ rest. Lawful-pure (events ++ rest)
