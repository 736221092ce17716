-- ===== src/Tests/Escrows.antt =====
-- Escrows and deposits at concrete inputs.
use aacp.Prelude.{
  ◌⊎◌, ℕ, ◌+◌, ◌*◌, ◌/◌, ◌-◌, String, ◌≡◌, refl, ap, ◌∙◌, Option, none, some, List, [], ◌∷◌,
  if◌then◌else◌, ltb, leb, ◌&&◌, ◌==◌,
}
use Prim.Native.Char.{code}
use aacp.Prelude.Int.{ℤ, pos, ◌+ℤ◌, ◌-ℤ◌, ltb_ℤ, eqb_ℤ, pos_part}
use aacp.Prelude.Encode.{hex, decimal}
use aacp.Exec.{panic, plain, ok, err}
use aacp.Codec.{JsonLaw}
use aacp.State.Engine.{get, lookup}
use aacp.Types.{TxEnvelope, ExecTxResult, success_result, fail_result, validate_basic, contains}
use aacp.Types.Money.{Money, Rational, Comparison, below, equal, above, parse_decimal}
use aacp.App.Router.{World, Context, Router}
use aacp.App.Post.{reads}
use aacp.App.Lawful.{LawfulModule}
use aacp.App.Lifecycle.{
  App, TxCodec, FinalizeBlockRequest, admitted, admit, check_envelope, check_signature,
  verify_signature, check_nonce, charge, consume, deliver_tx, deliver_txs, finalize_block,
}
use aacp.State.Nonce.{get_nonce}
use aacp.Modules.Fiat.Data.{Escrow, DepositAccount, InsurancePool, Codec, funded, locked, released}
use aacp.Modules.Fiat.{fiat, handlers, slashed, deposit_slashed}
use aacp.App.Records.Journeys.{Course}
use aacp.Modules.Fiat.Lawful.{fiat-LawfulModule}
use aacp.Modules.Fiat.Moves.{escrow_kind, escrow_kind-KindLaw, escrow_of}
use aacp.Modules.Fiat.History.{Kept, escrow_history}
use aacp.Modules.Fiat.Malformed.{malformed_deposit_panics}
use aacp.Tests.Fixtures.{ctx, alice, bob, tx}
use aacp.Tests.Slots.{Slot, request, slots, json_of, json_of-JsonLaw, asks, holding, one-WellKeyed}

data Paper : Type 0 where
  escrow : Escrow → Paper
  deposit : DepositAccount → Paper
  pool : InsurancePool → Paper

abbrev escrow_in : Paper → Option Escrow
escrow_in (escrow e) = some e
escrow_in (deposit a) = none
escrow_in (pool p) = none

abbrev deposit_in : Paper → Option DepositAccount
deposit_in (escrow e) = none
deposit_in (deposit a) = some a
deposit_in (pool p) = none

abbrev pool_of : Paper → Option InsurancePool
pool_of (escrow e) = none
pool_of (deposit a) = none
pool_of (pool p) = some p

-- a toy arithmetic on whole numbers
abbrev parse_digits : ℕ → String → Option ℤ
parse_digits n String.[] = some (pos n)
parse_digits n (String.◌∷◌ c s) =
    let rest = parse_digits (n * 10 + (code c - 48)) s in
    if leb 48 (code c) && ltb (code c) 58 then rest else none

abbrev compare_ℤ : ℤ → ℤ → Comparison
compare_ℤ a b = if ltb_ℤ a b then below else if eqb_ℤ a b then equal else above

abbrev pub whole : Rational ℤ
whole = record {
  trim_space = λ s. s;
  set_string = parse_digits 0;
  frac = λ n d. pos (n / d);
  of_int = pos;
  add = ◌+ℤ◌;
  sub = ◌-ℤ◌;
  mul = λ a b. pos (pos_part a * pos_part b);
  quo = λ a b. pos (pos_part a / pos_part b);
  cmp = compare_ℤ;
  sign = λ a. compare_ℤ a (pos 0);
  float_string = λ a scale. decimal (pos_part a);
}

abbrev codec : Codec (Slot Paper)
codec = record {
  escrow = json_of escrow escrow_in;
  deposit = json_of deposit deposit_in;
  pool = json_of pool pool_of;
  create = λ raw. none;
  escrow_ref = asks (λ n. some (record { escrow_id = "e1" }));
  slash = asks (λ n. some (record {
    provider = alice;
    amount = record { currency = "CNY"; amount = "700" };
    dispute = "d1";
  }));
  deposit_request =
      asks (λ n. some (record { currency = "CNY"; amount = if n == 0 then "500" else "many" }));
}

escrow-JsonLaw : JsonLaw codec.escrow
escrow-JsonLaw = json_of-JsonLaw escrow escrow_in λ e. refl

abbrev cny : String → Money
cny amount = record { currency = "CNY"; amount = amount }

abbrev paid_in : Escrow
paid_in = record {
  escrow_id = "e1";
  order_id = "o1";
  consumer = bob;
  provider = alice;
  total_amount = cny "112";
  service_fee = cny "100";
  commission = cny "12";
  commission_bps = 1200;
  status = funded;
  created_at = pos 10;
  funded_at = pos 20;
  released_at = pos 0;
  gateway_tx_id = "";
}

abbrev one_escrow : World (Slot Paper)
one_escrow = holding (("fiat/e/e1", escrow paid_in) ∷ [])

paid_in-stored : escrow_of codec one_escrow.store "e1" ≡ some paid_in
unfolding reads get lookup
paid_in-stored = refl

-- The escrow is released, and then someone asks for a refund.
abbrev payout : List (Context × TxEnvelope (Slot Paper))
payout =
    (ctx, tx "fiat" "release_escrow" 0 (request 0))
    ∷ (ctx, tx "fiat" "refund_escrow" 1 (request 0))
    ∷ []

escrow_history_example :
    (u : Escrow) × Course
      (escrow_kind codec)
      (handlers slots whole codec)
      Kept
      (λ v. v.status ≡ released)
      (λ v. (v.status ≡ funded) ⊎ (v.status ≡ locked))
      "e1"
      payout
      one_escrow
      paid_in
      u
escrow_history_example =
    escrow_history slots whole codec payout one_escrow "e1" paid_in escrow-JsonLaw
      (refl, (refl, tt))
      (one-WellKeyed (escrow_kind codec) (escrow paid_in) paid_in (escrow_kind-KindLaw codec) refl)
      paid_in-stored

fiat-LawfulModule_example : LawfulModule slots (fiat slots whole codec)
fiat-LawfulModule_example = fiat-LawfulModule slots whole codec

-- Alice has 2000 in her account, and withdraws 500 after the unbonding period.
abbrev savings : DepositAccount
savings = record {
  provider = alice;
  currency = "CNY";
  total_deposited = "2000";
  available = "2000";
  frozen = "0";
  slashed = "0";
  last_deposit_at = pos 100;
  last_withdraw_at = pos 0;
  tier = "starter";
}

abbrev one_account : World (Slot Paper)
one_account = holding (
    ("fiat/dep/0707070707070707070707070707070707070707070707070707070707070707", deposit savings)
    ∷ [])

abbrev later : Context
later = record { height = pos 9; unix = pos 900000; unix_nano = pos 0 }

abbrev withdrawal : TxEnvelope (Slot Paper)
withdrawal = tx "fiat" "withdraw_deposit" 0 (request 0)

-- She is slashed 700.
abbrev slash : TxEnvelope (Slot Paper)
slash = tx "fiat" "slash_deposit" 0 (request 0)

abbrev slash_result : ExecTxResult
slash_result = success_result 3000 (deposit_slashed alice "700" "d1" ∷ [])

-- A block of two transactions, the second of which deposits "many".
abbrev tx_codec : TxCodec (Slot Paper)
tx_codec = record {
  decode = asks (λ n. if n == 9 then none else some (tx "fiat" "deposit_funds" 0 (request 1)));
  sign_bytes = λ t. some [];
}

abbrev router : Router (Slot Paper)
router = ("fiat", fiat slots whole codec) ∷ []

abbrev block : FinalizeBlockRequest (Slot Paper)
block = record { ctx = ctx; txs = request 9 ∷ request 1 ∷ [] }

abbrev chain : App (Slot Paper)
chain = record { world = holding []; last_app_hash = [] }

first-refused :
    deliver_txs slots tx_codec router ctx (request 9 ∷ []) chain.world
    ≡ (ok (fail_result 1 ∷ []), chain.world)
unfolding deliver_txs deliver_tx admit
first-refused = refl

second-admitted :
    admit slots tx_codec ctx chain.world (request 1)
    ≡ admitted (tx "fiat" "deposit_funds" 0 (request 1)) 0 1010
unfolding admit check_envelope validate_basic check_signature verify_signature check_nonce get_nonce
    get lookup charge consume contains hex
second-admitted = refl

has-fiat : lookup "fiat" router ≡ some (fiat slots whole codec)
unfolding lookup
has-fiat = refl

many-malformed : parse_decimal whole "many" ≡ err plain
unfolding parse_decimal
many-malformed = refl

malformed_deposit_panics_example :
    (finalize_block slots tx_codec router (some block) chain).0 ≡ err panic
malformed_deposit_panics_example =
    malformed_deposit_panics slots whole codec tx_codec router block (request 9 ∷ []) (request 1) []
      (fail_result 1 ∷ []) chain (tx "fiat" "deposit_funds" 0 (request 1)) 0 1010 has-fiat refl
      (ap (λ d. d.0) first-refused)
      (ap (λ d. admit slots tx_codec ctx d.1 (request 1)) first-refused ∙ second-admitted)
      (record {
        to_fiat = refl;
        deposits = refl;
        request = record { currency = "CNY"; amount = "many" };
        decoded = refl;
        refusal = plain;
        malformed = many-malformed;
      })
