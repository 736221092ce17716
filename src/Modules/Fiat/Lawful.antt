-- ===== src/Modules/Fiat/Lawful.antt =====
-- The contract of the block loop, for the escrow module.
use aacp.Prelude.{String, ◌<>◌, refl, Bytes}
use text.Mathlib.TextLemmas.{append_assoc}
use aacp.Codec.{Wire}
use aacp.State.Keys.{nonce_key, prefix_fiat_escrow, prefix_fiat_deposit, prefix_fiat_pool}
use aacp.State.Keys.Laws.{prefix_apart}
use aacp.Types.Money.{Rational}
use aacp.App.Router.{World}
use aacp.App.Lawful.{
  NoNonceKey, Lawful, LawfulHandler, LawfulModule, lawful_rules, Lawful-execute_action,
}
use aacp.App.Failing.{Failing, Failing-or_panic, failing_rules}
use aacp.Modules.Fiat.Data.{Escrow, DepositAccount, InsurancePool, Codec}
use aacp.Modules.Fiat.Amounts.{
  amount_of, both_amounts, add_decimal, sub_decimal, less_decimal, less_or_equal_decimal,
  compute_safety_threshold, tier_for,
}
use aacp.Modules.Fiat.{
  get_deposit, set_deposit, pool_or_panic, set_insurance_pool, save_escrow, load_escrow,
  create_escrow, fund_escrow, distribute_commission, release_escrow, lock_escrow, refund_escrow,
  slash_deposit, deposit_funds, withdraw_deposit, end_block, handlers, fiat,
}

escrow_key-NoNonceKey : (id : String) → NoNonceKey (prefix_fiat_escrow <> id)
unfolding nonce_key
escrow_key-NoNonceKey id p =
    rw (append_assoc "fiat/e" "/" id) (prefix_apart "fiat/e" "acc/n/" ("/" <> id) _ refl refl)

deposit_key-NoNonceKey : (id : String) → NoNonceKey (prefix_fiat_deposit <> id)
unfolding nonce_key
deposit_key-NoNonceKey id p =
    rw (append_assoc "fiat/d" "ep/" id) (prefix_apart "fiat/d" "acc/n/" ("ep/" <> id) _ refl refl)

pool_key-NoNonceKey : NoNonceKey prefix_fiat_pool
unfolding nonce_key
pool_key-NoNonceKey p = prefix_apart "fiat/p" "acc/n/" "ool" _ refl refl

module _ {Q : Type 0} (big : Rational Q) where
  Failing-amount_of : (s : String) → Failing (amount_of big s)
  unfolding amount_of
  Failing-amount_of s = Failing-or_panic _

  Failing-both_amounts :
      {B : Type 0} (a b : String) (f : Q → Q → B) → Failing (both_amounts big a b f)
  unfolding both_amounts
  Failing-both_amounts a b f = search (failing_rules, Failing-amount_of)

  Failing-add_decimal : (a b : String) → Failing (add_decimal big a b)
  unfolding add_decimal
  Failing-add_decimal a b = Failing-both_amounts a b _

  Failing-sub_decimal : (a b : String) → Failing (sub_decimal big a b)
  unfolding sub_decimal
  Failing-sub_decimal a b = Failing-both_amounts a b _

  Failing-less_decimal : (a b : String) → Failing (less_decimal big a b)
  unfolding less_decimal
  Failing-less_decimal a b = Failing-both_amounts a b _

  Failing-less_or_equal_decimal : (a b : String) → Failing (less_or_equal_decimal big a b)
  unfolding less_or_equal_decimal
  Failing-less_or_equal_decimal a b = Failing-both_amounts a b _

  Failing-compute_safety_threshold :
      (pool : InsurancePool) → Failing (compute_safety_threshold big pool)
  unfolding compute_safety_threshold
  Failing-compute_safety_threshold pool = search (failing_rules, Failing-amount_of)

  Failing-tier_for : (s : String) → Failing (tier_for big s)
  unfolding tier_for
  Failing-tier_for s = search (failing_rules, Failing-amount_of)

ruleset amounts = (
  failing_rules, Failing-add_decimal, Failing-sub_decimal, Failing-less_decimal,
  Failing-less_or_equal_decimal, Failing-compute_safety_threshold, Failing-tier_for,
)

ruleset keys = (lawful_rules, escrow_key-NoNonceKey, deposit_key-NoNonceKey, pool_key-NoNonceKey)

module _ {Raw Q : Type 0} (wire : Wire Raw) (big : Rational Q) (codec : Codec Raw) where
  Lawful-save_escrow : (e : Escrow) → Lawful wire (save_escrow codec e)
  unfolding save_escrow
  Lawful-save_escrow e = search keys

  Lawful-load_escrow : (id : String) → Lawful wire (load_escrow codec id)
  unfolding load_escrow
  Lawful-load_escrow id = search keys

  Lawful-get_deposit : (provider : Bytes) → Lawful wire (get_deposit codec provider)
  unfolding get_deposit
  Lawful-get_deposit provider = search keys

  Lawful-set_deposit : (acc : DepositAccount) → Lawful wire (set_deposit codec acc)
  unfolding set_deposit
  Lawful-set_deposit acc = search keys

  Lawful-set_insurance_pool : (pool : InsurancePool) → Lawful wire (set_insurance_pool codec pool)
  unfolding set_insurance_pool
  Lawful-set_insurance_pool pool = search keys

  Failing-pool_or_panic : (w : World Raw) → Failing (pool_or_panic codec w)
  unfolding pool_or_panic
  Failing-pool_or_panic w = Failing-or_panic _

  ruleset stored = (
    keys, amounts, Lawful-save_escrow, Lawful-load_escrow, Lawful-get_deposit, Lawful-set_deposit,
    Lawful-set_insurance_pool, Failing-pool_or_panic,
  )

  Lawful-create_escrow : LawfulHandler wire (create_escrow wire big codec)
  unfolding create_escrow
  Lawful-create_escrow ctx env = search stored depth 14

  Lawful-fund_escrow : LawfulHandler wire (fund_escrow wire big codec)
  unfolding fund_escrow
  Lawful-fund_escrow ctx env = search stored depth 12

  Lawful-distribute_commission : (e : Escrow) → Lawful wire (distribute_commission wire big codec e)
  unfolding distribute_commission
  Lawful-distribute_commission e = search stored depth 16

  Lawful-release_escrow : LawfulHandler wire (release_escrow wire big codec)
  unfolding release_escrow
  Lawful-release_escrow ctx env = search (stored, Lawful-distribute_commission) depth 12

  Lawful-lock_escrow : LawfulHandler wire (lock_escrow wire big codec)
  unfolding lock_escrow
  Lawful-lock_escrow ctx env = search stored depth 12

  Lawful-refund_escrow : LawfulHandler wire (refund_escrow wire big codec)
  unfolding refund_escrow
  Lawful-refund_escrow ctx env = search stored depth 12

  Lawful-slash_deposit : LawfulHandler wire (slash_deposit wire big codec)
  unfolding slash_deposit
  Lawful-slash_deposit ctx env = search stored depth 24

  Lawful-deposit_funds : LawfulHandler wire (deposit_funds wire big codec)
  unfolding deposit_funds
  Lawful-deposit_funds ctx env = search stored depth 20

  Lawful-withdraw_deposit : LawfulHandler wire (withdraw_deposit wire big codec)
  unfolding withdraw_deposit
  Lawful-withdraw_deposit ctx env = search stored depth 24

  -- Whatever its transactions are and whatever the store holds, the escrow module leaves the nonce
  -- of every account alone, in a transaction and at the end of a block, and never fails with the
  -- code of success.
  pub fiat-LawfulModule : LawfulModule wire (fiat wire big codec)
  unfolding end_block
  fiat-LawfulModule = record {
    executes = Lawful-execute_action wire (handlers wire big codec) (
      Lawful-create_escrow,
      (
        Lawful-fund_escrow,
        (
          Lawful-release_escrow,
          (
            Lawful-lock_escrow,
            (
              Lawful-refund_escrow,
              (Lawful-slash_deposit, (Lawful-deposit_funds, (Lawful-withdraw_deposit, tt))),
            ),
          ),
        ),
      ),
    );
    ends = λ ctx. search stored depth 16;
  }
