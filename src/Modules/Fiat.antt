-- ===== src/Modules/Fiat.antt =====
-- internal/modules/fiat/module.go: escrows, the deposits of providers and the insurance pool.
pub mod Data
pub mod Amounts
pub mod Numbers
pub mod Rules
pub mod Lawful
pub mod Moves
pub mod History
pub mod Deposits
pub mod Slashing
pub mod Malformed
use aacp.Prelude.{
  ℕ, ◌+◌, ◌*◌, String, ◌<>◌, Bool, not, ◌&&◌, Option, none, some, List, [], ◌∷◌, if◌then◌else◌,
  ◌==◌, str_eq, Bytes,
}
use aacp.Prelude.Int.{ℤ, pos, ltb_ℤ, sub64}
use aacp.Prelude.Encode.{hex, decimal}
use aacp.Exec.{
  Error, app, plain, Result, ok, err, or_fail, or_panic, pure, lift, gets, reading, fail_if, ◌>>=◌,
  ◌>>◌,
}
use aacp.Codec.{Wire}
use aacp.State.Engine.{Store, get}
use aacp.State.Keys.{prefix_fiat_escrow, prefix_fiat_deposit, prefix_fiat_pool}
use aacp.Types.{Event, ExecTxResult, TxEnvelope, success_result, code_fiat_base}
use aacp.Types.Money.{Money, Rational, apply_bps, add_money, parse_decimal, is_above}
use aacp.App.Router.{
  World, Context, Action, ActionHandler, Module, ignore, decode_payload, save_json, load_json,
  execute_action, common_init_genesis, common_query,
}
use Data.{
  Escrow, DepositAccount, InsurancePool, CreateEscrowPayload, DepositPayload, Codec, pending,
  funded, locked, releasing, released, refunded,
}
use Amounts.{
  add_decimal, sub_decimal, less_decimal, less_or_equal_decimal, mul_ratio,
  compute_safety_threshold, tier_for, min_deposit_for_tier,
}
unfoldable pub use Rules.{
  bps_or_default, new_escrow, escrow_id_or_time, fund, begin_release, release, lock, refund,
  slashed, deposited, withdrawn, balance_of, with_balance, with_income,
}
pub use Rules.{refused, empty_pool, new_account, deposit_slashed, below_safety}

-- seven days, in seconds
abbrev pub unbonding : ℕ
unbonding = 7 * 24 * 3600

module _ {Raw : Type 0} (codec : Codec Raw) where
  abbrev pub deposit_key : Bytes → String
  deposit_key provider = prefix_fiat_deposit <> hex provider

  unfoldable pub get_deposit : Bytes → Action Raw DepositAccount
  get_deposit provider =
      load_json codec.deposit (app (code_fiat_base + 71)) plain (deposit_key provider)

  unfoldable pub set_deposit : DepositAccount → Action Raw Unit
  set_deposit acc = save_json codec.deposit plain (deposit_key acc.provider) acc

  abbrev pub pool_in : Option Raw → Result InsurancePool
  pool_in none = ok empty_pool
  pool_in (some raw) = or_fail plain (codec.pool.unmarshal raw)

  unfoldable pub get_insurance_pool : Store Raw → Result InsurancePool
  get_insurance_pool s = pool_in (get s prefix_fiat_pool)

  -- `pool, _ := m.getInsurancePool(store)` and a field of it
  unfoldable pub pool_or_panic : World Raw → Result InsurancePool
  unfolding get_insurance_pool or_panic
  pool_or_panic w = or_panic (get_insurance_pool w.store)

  unfoldable pub set_insurance_pool : InsurancePool → Action Raw Unit
  set_insurance_pool pool = save_json codec.pool plain prefix_fiat_pool pool

  unfoldable pub save_escrow : Escrow → Action Raw Unit
  save_escrow e = save_json codec.escrow plain (prefix_fiat_escrow <> e.escrow_id) e

  unfoldable pub load_escrow : String → Action Raw Escrow
  load_escrow id = load_json codec.escrow (app code_fiat_base) plain (prefix_fiat_escrow <> id)

  -- `acc, _ := m.getDeposit(ctx.Store, env.Sender)` and the account for a nil pointer
  unfoldable pub deposit_or_new : TxEnvelope Raw → DepositPayload → World Raw → DepositAccount
  unfolding get_deposit
  deposit_or_new env p w = elim ((get_deposit env.sender w).0) [
    | err e ↦ new_account env.sender p.currency
    | ok acc ↦ acc
  ]

module _ {Raw Q : Type 0} (wire : Wire Raw) (big : Rational Q) (codec : Codec Raw) where
  unfoldable pub create_escrow : ActionHandler Raw
  create_escrow ctx env = do
    p ← decode_payload codec.create refused env.payload
    commission ← lift (apply_bps big p.service_fee (bps_or_default p.commission_bps) 8)
    total ← lift (add_money big p.service_fee commission 8)
    save_escrow codec (new_escrow ctx p commission total)
    pure (success_result 2000 [])

  unfoldable pub fund_escrow : ActionHandler Raw
  fund_escrow ctx env = do
    p ← decode_payload codec.escrow_ref refused env.payload
    e ← load_escrow codec p.escrow_id
    fail_if (not (str_eq e.status pending)) refused
    save_escrow codec (fund ctx e)
    pure (success_result 1500 [])

  -- `distributeCommission`; the shares that the code computes and drops are left out
  unfoldable pub distribute_commission : Escrow → Action Raw Unit
  distribute_commission e = do
    total ← lift (parse_decimal big e.commission.amount)
    fail_if (not (is_above (big.sign total))) refused
    pool ← reading (pool_or_panic codec)
    balance ← lift (
        add_decimal big (balance_of e.commission.currency pool)
          (big.float_string (mul_ratio big total 20 100) 8))
    income ← lift (add_decimal big pool.total_income (big.float_string total 8))
    set_insurance_pool codec (with_income income (with_balance e.commission.currency balance pool))

  unfoldable pub release_escrow : ActionHandler Raw
  release_escrow ctx env = do
    p ← decode_payload codec.escrow_ref refused env.payload
    e ← load_escrow codec p.escrow_id
    fail_if (not (str_eq e.status funded) && not (str_eq e.status locked)) refused
    distribute_commission (begin_release e)
    save_escrow codec (release ctx (begin_release e))
    pure (success_result 3000 [])

  unfoldable pub lock_escrow : ActionHandler Raw
  lock_escrow ctx env = do
    p ← decode_payload codec.escrow_ref refused env.payload
    e ← load_escrow codec p.escrow_id
    fail_if (not (str_eq e.status funded)) refused
    save_escrow codec (lock e)
    pure (success_result 1000 [])

  unfoldable pub refund_escrow : ActionHandler Raw
  refund_escrow ctx env = do
    p ← decode_payload codec.escrow_ref refused env.payload
    e ← load_escrow codec p.escrow_id
    fail_if (not (str_eq e.status locked) && not (str_eq e.status funded)) refused
    save_escrow codec (refund e)
    pure (success_result 3000 [])

  unfoldable pub slash_deposit : ActionHandler Raw
  slash_deposit ctx env = do
    p ← decode_payload codec.slash refused env.payload
    acc ← get_deposit codec p.provider
    short ← lift (less_decimal big acc.available p.amount.amount)
    let amount = if short then acc.available else p.amount.amount
    left ← lift (sub_decimal big acc.available amount)
    total ← lift (add_decimal big acc.slashed amount)
    set_deposit codec (slashed acc left total)
    pool ← reading (pool_or_panic codec)
    balance ← lift (add_decimal big (balance_of p.amount.currency pool) amount)
    ignore (set_insurance_pool codec (with_balance p.amount.currency balance pool))
    pure (success_result 3000 (deposit_slashed p.provider amount p.dispute ∷ []))

  unfoldable pub deposit_funds : ActionHandler Raw
  deposit_funds ctx env = do
    p ← decode_payload codec.deposit_request refused env.payload
    acc ← gets (deposit_or_new codec env p)
    total ← lift (add_decimal big acc.total_deposited p.amount)
    available ← lift (add_decimal big acc.available p.amount)
    tier ← lift (tier_for big available)
    set_deposit codec (deposited ctx acc total available tier)
    pure (success_result 1500 [])

  unfoldable pub withdraw_deposit : ActionHandler Raw
  withdraw_deposit ctx env = do
    p ← decode_payload codec.deposit_request refused env.payload
    acc ← get_deposit codec env.sender
    fail_if (ltb_ℤ (sub64 ctx.unix acc.last_deposit_at) (pos unbonding)) (app (code_fiat_base + 72))
    enough ← lift (less_or_equal_decimal big p.amount acc.available)
    fail_if (not enough) (app (code_fiat_base + 70))
    left ← lift (sub_decimal big acc.available p.amount)
    low ← lift (less_decimal big left (min_deposit_for_tier acc.tier))
    fail_if low (app (code_fiat_base + 71))
    set_deposit codec (withdrawn ctx acc left)
    pure (success_result 2000 [])

  -- `EndBlock`
  unfoldable pub end_block : Context → Action Raw (List Event)
  end_block ctx = do
    pool ← reading (pool_or_panic codec)
    threshold ← lift (compute_safety_threshold big pool)
    low ← lift (less_decimal big pool.balance_cny threshold)
    pure (if low then below_safety pool.balance_cny threshold ∷ [] else [])

  -- `Handlers`: the creation of an escrow, and the others
  abbrev pub later_handlers : List (String × ActionHandler Raw)
  later_handlers =
      ("fund_escrow", fund_escrow)
      ∷ ("release_escrow", release_escrow)
      ∷ ("lock_escrow", lock_escrow)
      ∷ ("refund_escrow", refund_escrow)
      ∷ ("slash_deposit", slash_deposit)
      ∷ ("deposit_funds", deposit_funds)
      ∷ ("withdraw_deposit", withdraw_deposit)
      ∷ []

  abbrev pub handlers : List (String × ActionHandler Raw)
  handlers = ("create_escrow", create_escrow) ∷ later_handlers

  -- `New` and the methods that forward to `common.Module`
  abbrev pub fiat : Module Raw
  fiat = record {
    name = "fiat";
    init_genesis = λ ctx raw. common_init_genesis wire "fiat" raw;
    execute_tx = execute_action handlers;
    end_block = end_block;
    query = common_query;
  }
