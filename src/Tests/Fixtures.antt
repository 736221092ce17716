-- ===== src/Tests/Fixtures.antt =====
-- A concrete world for the tests: byte slices as values, a toy hash and a toy signature scheme.
use aacp.Prelude.{
  ℕ, String, ◌≡◌, refl, true, false, Option, none, some, List, [], ◌∷◌, Bytes, length, zero, suc,
  subst, arith,
}
use aacp.Prelude.Int.{pos}
use aacp.Prelude.Encode.{IsBytes}
use aacp.Codec.{Wire, WireLaw, JsonLaw}
use aacp.Types.{TxEnvelope}
use aacp.Types.Money.{Money}
use aacp.App.Router.{World, Context}
use aacp.App.Lifecycle.{TxCodec}
use aacp.App.Lawful.{some_inj}
use aacp.Modules.Gov.Data as Gov
use aacp.Modules.Gov.Data.{Proposal}
use aacp.Modules.CapUtxo.Data as Cap
use aacp.Modules.CapUtxo.Data.{CapabilityUtxo, MintPayload, SpendPayload, DelegatePayload}
use aacp.Modules.Aap.Data as Aap
use aacp.Modules.Aap.Data.{Task}

-- the values that the tests put into the store and into transactions
pub data Blob : Type 0 where
  bytes : Bytes → Blob
  request : Blob
  broken : Blob
  mint_tx : Blob
  utxo : CapabilityUtxo → Blob
  task : Task → Blob
  proposal : Proposal ℕ → Blob

abbrev contents : Blob → Bytes
contents (bytes b) = b
contents request = 1 ∷ []
contents broken = 2 ∷ []
contents mint_tx = 3 ∷ []
contents (utxo u) = []
contents (task t) = []
contents (proposal p) = []

abbrev pub wire : Wire Blob
wire = record {
  of_bytes = bytes;
  to_bytes = contents;
  sha256 = λ b. length b ∷ [];
  verify = λ pub_key message signature. true;
  is_object = λ raw. false;
}

pub wire-WireLaw : WireLaw wire
wire-WireLaw = record { bytes = λ b. refl }

abbrev pub repeat : ℕ → List ℕ
repeat zero = []
repeat (suc n) = 7 ∷ repeat n

pub repeat-IsBytes : (n : ℕ) → IsBytes (repeat n)
repeat-IsBytes zero = tt
repeat-IsBytes (suc n) = (omega arith, repeat-IsBytes n)

abbrev pub alice : Bytes
alice = repeat 32

abbrev pub bob : Bytes
bob = 8 ∷ repeat 31

abbrev pub ctx : Context
ctx = record { height = pos 1; unix = pos 1000; unix_nano = pos 1000 }

-- a transaction of Alice with the given nonce
abbrev pub tx : {Raw : Type 0} → String → String → ℕ → Raw → TxEnvelope Raw
tx mod_name action nonce payload = record {
  sender = alice;
  nonce = nonce;
  gas_limit = 100000;
  gas_price = 1;
  module_name = mod_name;
  action = action;
  payload = payload;
  signature = 1 ∷ repeat 63;
  memo = "";
  timeout_height = pos 0;
}

abbrev pub capability : String → ℕ → CapabilityUtxo
capability id max_uses = record {
  utxo_id = id;
  issuer = alice;
  holder = alice;
  cap_type = "api";
  cap_version = "1";
  scopes = "read" ∷ "write" ∷ [];
  issued_at = pos 10;
  expires_at = pos 5000;
  max_uses = max_uses;
  used_count = 0;
  delegatable = true;
  max_depth = 2;
  cur_depth = 0;
  parent_utxo = "";
  status = Cap.unspent;
  holder_sig = [];
}

abbrev mint_of : Blob → Option MintPayload
mint_of request = some (record {
  holder = alice;
  cap_type = "api";
  cap_version = "1";
  scopes = "read" ∷ [];
  expires_at = pos 5000;
  max_uses = 2;
  delegatable = false;
  max_depth = 0;
})
mint_of _ = none

abbrev spend_of : Blob → Option SpendPayload
spend_of request = some (record { utxo_id = "c1"; task_id = ""; proof_of_use = "" })
spend_of _ = none

abbrev delegate_of : Blob → Option DelegatePayload
delegate_of request = some (record {
  parent_utxo_id = "c1";
  new_holder = bob;
  scopes = "read" ∷ [];
  expires_at = pos 4000;
  max_uses = 1;
})
delegate_of _ = none

abbrev utxo_in : Blob → Option CapabilityUtxo
utxo_in (utxo u) = some u
utxo_in _ = none

abbrev pub cap_codec : Cap.Codec Blob
cap_codec = record {
  utxo = record { marshal = λ u. some (utxo u); unmarshal = utxo_in };
  mint = mint_of;
  spend = spend_of;
  delegate = delegate_of;
  revoke = λ raw. none;
}

pub cap_codec-JsonLaw : JsonLaw cap_codec.utxo
cap_codec-JsonLaw = record {
  back = λ u raw h. subst (λ b. utxo_in b ≡ some u) (some_inj (utxo u) raw h) refl;
}

abbrev no_money : Money
no_money = record { currency = ""; amount = "" }

-- a task that waits for its verification
abbrev pub waiting : Task
waiting = record {
  task_id = "t1";
  order_id = "o1";
  consumer = bob;
  provider = alice;
  sla = record {
    max_latency_ms = 100;
    min_accuracy = 0;
    max_retries = 3;
    timeout_sec = 60;
    service_fee = no_money;
    deposit_amount = no_money;
    commission_bps = 1200;
    consumer_sig = [];
    provider_sig = [];
    signed_at = pos 0;
    expires_at = pos 0;
  };
  status = Aap.submitted;
  result_hash = "";
  result_ipfs = "";
  evidence_root = "";
  created_at = pos 10;
  sla_signed_at = pos 20;
  started_at = pos 30;
  completed_at = pos 0;
  heartbeat_seq = 4;
  last_heartbeat = pos 40;
  retry_count = 0;
  max_retries = 3;
  service_fee = no_money;
}

abbrev task_in : Blob → Option Task
task_in (task t) = some t
task_in _ = none

abbrev pub aap_codec : Aap.Codec Blob
aap_codec = record {
  task = record { marshal = λ t. some (task t); unmarshal = task_in };
  heartbeat = record { marshal = λ p. none; unmarshal = λ raw. none };
  create = λ raw. none;
  sign = λ raw. none;
  submit = λ raw. none;
  verify = λ raw. some (record { task_id = "t1"; passed = true; reason = ""; verifier = bob });
  settle = λ raw. some (record { task_id = "t1" });
  dispute = λ raw. none;
}

pub aap_codec-JsonLaw : JsonLaw aap_codec.task
aap_codec-JsonLaw = record {
  back = λ t raw h. subst (λ b. task_in b ≡ some t) (some_inj (task t) raw h) refl;
}

abbrev proposal_in : Blob → Option (Proposal ℕ)
proposal_in (proposal p) = some p
proposal_in _ = none

abbrev pub gov_codec : Gov.Codec Blob ℕ
gov_codec = record {
  proposal = record { marshal = λ p. some (proposal p); unmarshal = proposal_in };
  value = record { marshal = λ n. none; unmarshal = λ raw. none };
  create = λ raw. some (record { proposal_id = ""; kind = "param"; changes = [] });
  vote = λ raw. some (record { proposal_id = "p1"; vote = "yes" });
  execute = λ raw. some (record { proposal_id = "p1" });
}

pub gov_codec-JsonLaw : JsonLaw gov_codec.proposal
gov_codec-JsonLaw = record {
  back = λ p raw h. subst (λ b. proposal_in b ≡ some p) (some_inj (proposal p) raw h) refl;
}

abbrev pub world_of : List (String × Blob) → World Blob
world_of entries = record { store = record { entries = entries; version = 0 }; bus = [] }

abbrev transaction_in : Blob → Option (TxEnvelope Blob)
transaction_in mint_tx = some (tx "caputxo" "mint_capability" 0 request)
transaction_in _ = none

abbrev pub tx_codec : TxCodec Blob
tx_codec = record { decode = transaction_in; sign_bytes = λ t. some [] }

pub transaction_in-IsBytes :
    (raw : Blob) (e : TxEnvelope Blob) → transaction_in raw ≡ some e → IsBytes e.sender
transaction_in-IsBytes mint_tx e h =
    subst (λ (t : TxEnvelope Blob). IsBytes t.sender)
      (some_inj (tx "caputxo" "mint_capability" 0 request) e h) (repeat-IsBytes 32)
transaction_in-IsBytes (bytes b) e h = cc
transaction_in-IsBytes request e h = cc
transaction_in-IsBytes broken e h = cc
transaction_in-IsBytes (utxo u) e h = cc
transaction_in-IsBytes (task t) e h = cc
transaction_in-IsBytes (proposal p) e h = cc
