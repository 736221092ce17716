-- ===== src/App/Router.antt =====
-- internal/router/router.go, internal/eventbus/bus.go and internal/modules/common/module.go. The
-- lock of the router makes each method one step.
use aacp.Prelude.{
  String, Option, none, some, List, [], ◌∷◌, ◌++◌, if◌then◌else◌, str_eq, length, ◌==◌,
}
use aacp.Prelude.Int.{ℤ}
use aacp.Exec.{
  Error, app, plain, Result, ok, err, Exec, pure, fail, lift, gets, modify, or_fail, ◌>>=◌, ◌>>◌,
}
use aacp.Codec.{Json, Wire}
use aacp.State.Engine.{Store, lookup, insert, erase, get, set, iterate_prefix}
use aacp.Types.{Event, ExecTxResult, TxEnvelope, code_unknown_mod}

-- What a `Context` points to and a handler may change: the store and the event bus.
pub record World (Raw : Type 0) : Type 0 where
  pub store : Store Raw
  pub bus : List Event

-- The rest of a `Context`: the height, `BlockTime.Unix()` and `BlockTime.UnixNano()`.
pub record Context : Type 0 where
  pub height : ℤ
  pub unix : ℤ
  pub unix_nano : ℤ

abbrev pub Action : Type 0 → Type 0 → Type 0
Action Raw A = Exec (World Raw) A

module _ {Raw : Type 0} where
  -- `Bus.Emit`
  unfoldable pub emit : Event → Action Raw Unit
  emit ev = modify (λ w. record w { bus = w.bus ++ ev ∷ [] })

  -- `Bus.Flush`
  unfoldable pub flush : Action Raw (List Event)
  flush w = (ok w.bus, record w { bus = [] })

  -- `ctx.Store.Set`
  unfoldable pub put : String → Raw → Action Raw Unit
  put k v = modify (λ w. record w { store = set w.store k v })

  -- `_ = f()`, where f does not panic: the error is dropped, and what was written stays
  unfoldable pub ignore : Action Raw Unit → Action Raw Unit
  ignore m w = (ok tt, (m w).1)

  -- `ctx.Store.IteratePrefix`
  unfoldable pub list_prefix : String → Action Raw (List (String × Raw))
  list_prefix p = gets (λ w. iterate_prefix w.store p)

  -- `common.DecodeJSONPayload`, with the error that the handler returns where it fails
  abbrev pub decode_payload : {A : Type 0} → (Raw → Option A) → Error → Raw → Action Raw A
  decode_payload unmarshal e payload = lift (or_fail e (unmarshal payload))

  -- `saveJSON`, with the error that it returns where `Marshal` fails
  unfoldable pub save_json : {A : Type 0} → Json Raw A → Error → String → A → Action Raw Unit
  unfolding put
  save_json j e key a = do b ← lift (or_fail e (j.marshal a)); put key b

  -- `raw, ok := store.Get(key)` and `json.Unmarshal`, with the errors of the two
  unfoldable pub load_json : {A : Type 0} → Json Raw A → Error → Error → String → Action Raw A
  load_json j missing bad key = do
    found ← gets (λ w. get w.store key)
    raw ← lift (or_fail missing found)
    lift (or_fail bad (j.unmarshal raw))

abbrev pub ActionHandler : Type 0 → Type 0
ActionHandler Raw = Context → TxEnvelope Raw → Action Raw ExecTxResult

-- `router.Module`, with what each module of the program does in its methods
pub record Module (Raw : Type 0) : Type 0 where
  pub name : String
  pub init_genesis : Context → Option Raw → Action Raw Unit
  pub execute_tx : ActionHandler Raw
  pub end_block : Context → Action Raw (List Event)
  pub query : String → String → Result Raw

-- `Router`: a Go map from names to modules
abbrev pub Router : Type 0 → Type 0
Router Raw = List (String × Module Raw)

module _ {Raw : Type 0} where
  -- `common.Module.InitGenesis`
  unfoldable pub common_init_genesis : Wire Raw → String → Option Raw → Action Raw Unit
  unfolding emit
  common_init_genesis wire name none = pure tt
  common_init_genesis wire name (some raw) =
      if length (wire.to_bytes raw) == 0
      then pure tt
      else if wire.is_object raw
      then emit (record { kind = "module_init"; attributes = ("module", name) ∷ [] })
      else fail plain

  -- `common.Module.ExecuteTx` over the module's `Handlers`
  unfoldable pub execute_action : List (String × ActionHandler Raw) → ActionHandler Raw
  execute_action handlers ctx env = elim (lookup env.action handlers) [
    | none ↦ fail (app code_unknown_mod)
    | some h ↦ h ctx env
  ]

  -- `Register`: an empty name and a name that is taken are errors
  unfoldable pub register : Module Raw → Router Raw → Result (Router Raw)
  register m r =
      if str_eq m.name ""
      then err plain
      else elim (lookup m.name r) [ none ↦ ok (insert m.name m r) | some _ ↦ err plain ]

  unfoldable pub unregister : String → Router Raw → Router Raw
  unregister name r = erase name r

  -- `Router.Execute`
  unfoldable pub execute : Router Raw → ActionHandler Raw
  execute r ctx env = elim (lookup env.module_name r) [
    | none ↦ fail (app code_unknown_mod)
    | some m ↦ m.execute_tx ctx env
  ]

  -- `Router.Query`
  unfoldable pub query : Router Raw → String → String → String → Result Raw
  query r mod_name path key = elim (lookup mod_name r) [
    | none ↦ err (app code_unknown_mod)
    | some m ↦ m.query path key
  ]

  -- `common.Module.Query`
  abbrev pub common_query : String → String → Result Raw
  common_query path key = err plain

  -- `Router.EndBlock`, in the order in which the map yields the modules
  unfoldable pub end_block : Router Raw → Context → Action Raw (List Event)
  end_block [] ctx = pure []
  end_block ((n, m) ∷ r) ctx = do
    events ← m.end_block ctx
    rest ← end_block r ctx
    pure (events ++ rest)

  -- `Router.InitGenesis`
  unfoldable pub init_genesis : Router Raw → Context → (String → Option Raw) → Action Raw Unit
  init_genesis [] ctx genesis = pure tt
  init_genesis ((n, m) ∷ r) ctx genesis = do
    m.init_genesis ctx (genesis m.name)
    init_genesis r ctx genesis
