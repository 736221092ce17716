-- ===== src/App/Lifecycle.antt =====
-- internal/abci: gas.go and the methods of `App` in lifecycle.go, from a raw transaction to the
-- committed block.
pub mod Envelope
pub mod Replay
pub mod Blocks
pub mod Proposals
pub mod Panics
use aacp.Prelude.{
  ℕ, ◌+◌, ◌*◌, ◌/◌, ◌%◌, ◌^◌, String, Bool, true, false, not, Option, none, some, List, [], ◌∷◌,
  ◌++◌, if◌then◌else◌, ltb, leb, ◌==◌, ◌&&◌, str_eq, Bytes, length,
}
use aacp.Prelude.Int.{pos, negsuc, ltb_ℤ}
use aacp.Exec.{Error, app, plain, panic, Result, ok, err, Exec, pure, ◌>>=◌}
use aacp.Codec.{Wire}
use aacp.State.Engine.{get, commit}
use aacp.State.Nonce.{get_nonce, set_nonce}
use aacp.Types.{
  Event, ExecTxResult, TxEnvelope, SignableTx, signable, fail_result, validate_basic, code_ok,
  code_decode_fail, code_bad_signature, code_bad_nonce, code_out_of_gas, code_unknown_mod,
  code_from_error,
}
use aacp.App.Router
use aacp.App.Router.{World, Context, Router, Action, execute}

pub record GasContext : Type 0 where
  pub limit : ℕ
  pub used : ℕ

-- `Consume`: the sum is a uint64, and it is stored before the test
unfoldable pub consume : ℕ → Exec GasContext Unit
consume amount g =
    let used = (g.used + amount) % 2 ^ 64 in
    (if ltb g.limit used then err (app code_out_of_gas) else ok tt, record g { used = used })

-- JSON at the envelope, and the bytes that `SignBytes` marshals
pub record TxCodec (Raw : Type 0) : Type 0 where
  pub decode : Raw → Option (TxEnvelope Raw)
  pub sign_bytes : SignableTx Raw → Option Bytes

-- What `FinalizeBlock` makes of a transaction before it routes it: a code to fail with, or the
-- envelope with the expected nonce and the gas used.
pub data Admission (Raw : Type 0) : Type 0 where
  rejected : ℕ → Admission Raw
  admitted : TxEnvelope Raw → ℕ → ℕ → Admission Raw

pub record FinalizeBlockRequest (Raw : Type 0) : Type 0 where
  pub ctx : Context
  pub txs : List Raw

pub record FinalizeBlockResponse : Type 0 where
  pub tx_results : List ExecTxResult
  pub app_hash : Bytes
  pub events : List Event

-- `App`, without the router, which does not change
pub record App (Raw : Type 0) : Type 0 where
  pub world : World Raw
  pub last_app_hash : Bytes

abbrev pub max_tx_bytes : ℕ
max_tx_bytes = 262144

module _ {Raw : Type 0} (wire : Wire Raw) where
  -- `crypto.VerifySignature`
  unfoldable pub verify_signature : Bytes → Bytes → Bytes → Bool
  verify_signature pub_key message signature = wire.verify pub_key (wire.sha256 message) signature

  abbrev pub payload_gas : TxEnvelope Raw → ℕ
  payload_gas env = (length (wire.to_bytes env.payload) + 1023) / 1024 * 10

  unfoldable pub charge : TxEnvelope Raw → ℕ → Admission Raw
  unfolding consume
  charge env expected =
      let (r, g) = consume 1000 (record { limit = env.gas_limit; used = 0 }) in
      elim r [
        | err _ ↦ rejected code_out_of_gas
        | ok _ ↦
            let (r', g') = consume (payload_gas env) g in
            elim r' [ err _ ↦ rejected code_out_of_gas | ok _ ↦ admitted env expected g'.used ]
      ]

  unfoldable pub check_nonce : World Raw → TxEnvelope Raw → Admission Raw
  check_nonce w env =
      let expected = get_nonce wire w.store env.sender in
      if not (env.nonce == expected) then rejected code_bad_nonce else charge env expected

  unfoldable pub check_signature : World Raw → TxEnvelope Raw → Option Bytes → Admission Raw
  check_signature w env none = rejected code_decode_fail
  check_signature w env (some message) =
      if not (verify_signature env.sender message env.signature)
      then rejected code_bad_signature
      else check_nonce w env

module _ {Raw : Type 0} (wire : Wire Raw) (codec : TxCodec Raw) where
  unfoldable pub check_envelope : Context → World Raw → TxEnvelope Raw → Admission Raw
  check_envelope ctx w env = elim (validate_basic env) [
    | err _ ↦ rejected code_decode_fail
    | ok _ ↦
        if ltb_ℤ (pos 0) env.timeout_height && ltb_ℤ env.timeout_height ctx.height
        then rejected code_decode_fail
        else check_signature wire w env (codec.sign_bytes (signable env))
  ]

  unfoldable pub admit : Context → World Raw → Raw → Admission Raw
  admit ctx w raw = elim (codec.decode raw) [
    | none ↦ rejected code_decode_fail
    | some env ↦ check_envelope ctx w env
  ]

-- the result for an error of `router.Execute`; a panic ends `FinalizeBlock`
unfoldable pub failure : Error → Result ExecTxResult
failure panic = err panic
failure (app c) = ok (fail_result (code_from_error (app c) code_unknown_mod))
failure plain = ok (fail_result (code_from_error plain code_unknown_mod))

module _ {Raw : Type 0} (wire : Wire Raw) where
  -- what follows `router.Execute`
  unfoldable pub settle :
      TxEnvelope Raw → ℕ → ℕ → Result ExecTxResult × World Raw → Result ExecTxResult × World Raw
  unfolding failure
  settle env expected used (err e, w) = (failure e, w)
  settle env expected used (ok res, w) = (
    ok (record res { gas_used = (res.gas_used + used) % 2 ^ 64 }),
    if res.code == code_ok
        then record w { store = set_nonce wire w.store env.sender ((expected + 1) % 2 ^ 64) }
        else w,
  )

  -- from `a.store.Commit()` to the end, with the events of `EndBlock` on the bus
  unfoldable pub close_block :
      List ExecTxResult → List Event → World Raw → Result FinalizeBlockResponse × App Raw
  close_block results events w =
      let (hash, store) = commit wire.to_bytes wire.sha256 w.store in
      (
        ok (record { tx_results = results; app_hash = hash; events = w.bus ++ events }),
        record { world = record { store = store; bus = [] }; last_app_hash = hash },
      )

  -- what follows `router.EndBlock`
  unfoldable pub finish_block :
      List ExecTxResult
      → App Raw
      → Result (List Event) × World Raw
      → Result FinalizeBlockResponse × App Raw
  finish_block results a (err e, w) = (err e, record a { world = w })
  finish_block results a (ok events, w) = close_block results events w

module _ {Raw : Type 0} (wire : Wire Raw) (codec : TxCodec Raw) (router : Router Raw) where
  -- one round of the loop over the transactions
  unfoldable pub deliver_tx : Context → Raw → Action Raw ExecTxResult
  deliver_tx ctx raw w = elim (admit wire codec ctx w raw) [
    | rejected c ↦ (ok (fail_result c), w)
    | admitted env expected used ↦ settle wire env expected used (execute router ctx env w)
  ]

  unfoldable pub deliver_txs : Context → List Raw → Action Raw (List ExecTxResult)
  deliver_txs ctx [] = pure []
  deliver_txs ctx (raw ∷ txs) = do
    res ← deliver_tx ctx raw
    results ← deliver_txs ctx txs
    pure (res ∷ results)

  -- the end of the block, unless a transaction has made the loop panic
  unfoldable pub after_txs :
      Context
      → App Raw
      → Result (List ExecTxResult) × World Raw
      → Result FinalizeBlockResponse × App Raw
  after_txs ctx a (err e, w) = (err e, record a { world = w })
  after_txs ctx a (ok results, w) = finish_block wire results a (Router.end_block router ctx w)

  unfoldable pub finalize_block :
      Option (FinalizeBlockRequest Raw) → App Raw → Result FinalizeBlockResponse × App Raw
  unfolding after_txs
  finalize_block none a = (err plain, a)
  finalize_block (some req) a = after_txs req.ctx a (deliver_txs req.ctx req.txs a.world)

-- `BlockTime` is the zero time here
abbrev genesis_ctx : Context
genesis_ctx = record {
  height = pos 0;
  unix = negsuc 62135596799;
  unix_nano = negsuc 6795364578871345151;
}

module _ {Raw : Type 0} (wire : Wire Raw) (router : Router Raw) where
  abbrev run_genesis : Option (String → Option Raw) → Action Raw Unit
  run_genesis none w = (ok tt, w)
  run_genesis (some genesis) w = Router.init_genesis router genesis_ctx genesis w

  unfoldable pub init_chain : Option (String → Option Raw) → App Raw → Result Bytes × App Raw
  init_chain req a =
      let (r, w) = run_genesis req a.world in
      elim r [
        | err e ↦ (err e, record a { world = w })
        | ok _ ↦
            let (hash, store) = commit wire.to_bytes wire.sha256 w.store in
            (ok hash, record { world = record w { store = store }; last_app_hash = hash })
      ]

module _ {Raw : Type 0} (wire : Wire Raw) where
  unfoldable pub prepare_txs : List Raw → List Raw
  prepare_txs [] = []
  prepare_txs (raw ∷ txs) =
      let rest = prepare_txs txs in
      if leb (length (wire.to_bytes raw)) max_tx_bytes then raw ∷ rest else rest

  unfoldable pub prepare_proposal : Option (List Raw) → List Raw
  unfolding prepare_txs
  prepare_proposal none = []
  prepare_proposal (some txs) = prepare_txs txs

  unfoldable pub process_txs : List Raw → Bool
  process_txs [] = true
  process_txs (raw ∷ txs) =
      let rest = process_txs txs in
      if ltb max_tx_bytes (length (wire.to_bytes raw)) then false else rest

  unfoldable pub process_proposal : Option (List Raw) → Bool
  unfolding process_txs
  process_proposal none = true
  process_proposal (some txs) = process_txs txs

module _ {Raw : Type 0} (router : Router Raw) where
  -- `Query`, for a request that is not nil: the module, the path and the data
  unfoldable pub query : String → String → String → App Raw → Result (Option Raw)
  query mod_name path key a =
      if str_eq mod_name "state"
      then ok (get a.world.store key)
      else elim (Router.query router mod_name path key) [ ok v ↦ ok (some v) | err e ↦ err e ]
