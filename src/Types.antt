-- ===== src/Types.antt =====
-- internal/types: error codes, execution results, events and the transaction envelope.
pub mod Money
use aacp.Prelude.{
  ℕ, String, Bool, false, ◌||◌, not, List, [], ◌∷◌, if◌then◌else◌, ltb, ◌==◌, str_eq, Bytes, length,
}
use aacp.Prelude.Int.{ℤ}
use aacp.Exec.{Error, app, plain, panic, Result, ok, err}
use Prim.Native.String.{len}

abbrev pub code_ok : ℕ
code_ok = 0

abbrev pub code_decode_fail : ℕ
code_decode_fail = 1

abbrev pub code_bad_signature : ℕ
code_bad_signature = 2

abbrev pub code_unknown_mod : ℕ
code_unknown_mod = 3

abbrev pub code_bad_nonce : ℕ
code_bad_nonce = 4

abbrev pub code_out_of_gas : ℕ
code_out_of_gas = 5

abbrev pub code_amx_base : ℕ
code_amx_base = 10

abbrev pub code_aap_base : ℕ
code_aap_base = 20

abbrev pub code_weave_base : ℕ
code_weave_base = 30

abbrev pub code_cap_utxo_base : ℕ
code_cap_utxo_base = 40

abbrev pub code_rep_base : ℕ
code_rep_base = 50

abbrev pub code_arb_base : ℕ
code_arb_base = 60

abbrev pub code_fiat_base : ℕ
code_fiat_base = 70

abbrev pub code_node_base : ℕ
code_node_base = 80

abbrev pub code_afd_base : ℕ
code_afd_base = 100

abbrev pub code_gov_base : ℕ
code_gov_base = 90

-- `CodeFromError`, at an error that is not nil. It is never called for a panic.
unfoldable pub code_from_error : Error → ℕ → ℕ
code_from_error (app c) fallback = c
code_from_error plain fallback = fallback
code_from_error panic fallback = fallback

pub record Event : Type 0 where
  pub kind : String
  pub attributes : List (String × String)

-- Without the log text and the fields that no module sets.
pub record ExecTxResult : Type 0 where
  pub code : ℕ
  pub gas_used : ℕ
  pub events : List Event

abbrev pub success_result : ℕ → List Event → ExecTxResult
success_result gas events = record { code = code_ok; gas_used = gas; events = events }

abbrev pub fail_result : ℕ → ExecTxResult
fail_result c = record { code = c; gas_used = 0; events = [] }

pub record TxEnvelope (Raw : Type 0) : Type 0 where
  pub sender : Bytes
  pub nonce : ℕ
  pub gas_limit : ℕ
  pub gas_price : ℕ
  pub module_name : String
  pub action : String
  pub payload : Raw
  pub signature : Bytes
  pub memo : String
  pub timeout_height : ℤ

-- what a sender signs
pub record SignableTx (Raw : Type 0) : Type 0 where
  pub sender : Bytes
  pub nonce : ℕ
  pub gas_limit : ℕ
  pub gas_price : ℕ
  pub module_name : String
  pub action : String
  pub payload : Raw

abbrev pub signable : {Raw : Type 0} → TxEnvelope Raw → SignableTx Raw
signable t = record {
  sender = t.sender;
  nonce = t.nonce;
  gas_limit = t.gas_limit;
  gas_price = t.gas_price;
  module_name = t.module_name;
  action = t.action;
  payload = t.payload;
}

abbrev pub allowed_modules : List String
allowed_modules =
    "amx" ∷ "aap" ∷ "weave" ∷ "caputxo" ∷ "rep" ∷ "arb" ∷ "afd" ∷ "fiat" ∷ "gov" ∷ "node" ∷ []

unfoldable pub contains : List String → String → Bool
contains [] s = false
contains (x ∷ xs) s = str_eq x s || contains xs s

unfoldable pub validate_basic : {Raw : Type 0} → TxEnvelope Raw → Result (Unit {0})
unfolding contains
validate_basic t =
    if not (length t.sender == 32)
    then err plain
    else if t.gas_limit == 0
    then err plain
    else if str_eq t.module_name "" || str_eq t.action ""
    then err plain
    else if not (contains allowed_modules t.module_name)
    then err plain
    else if not (length t.signature == 64)
    then err plain
    else if ltb 256 (len t.memo)
    then err plain
    else ok tt
