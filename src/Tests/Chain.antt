-- ===== src/Tests/Chain.antt =====
-- Blocks, nonces and the store at concrete inputs.
use aacp.Prelude.{
  ℕ, ◌<◌, ◌^◌, String, ◌≡◌, refl, true, none, some, [], ◌∷◌, arith, Bool-cases, inl, inr, subst,
  str_eq, if◌then◌else◌, equal_bytes, All, eq_iff, starts_with,
}
use aacp.Prelude.Encode.{IsBytes}
use aacp.Exec.{ok}
use aacp.State.Engine.{Store}
use aacp.State.Nonce.{get_nonce}
use aacp.App.Router.{World, Router}
use aacp.Types.{ExecTxResult, fail_result, code_bad_nonce}
use aacp.App.Lawful.{LawfulRouter}
use aacp.App.Lifecycle.{
  admitted, App, FinalizeBlockRequest, FinalizeBlockResponse, deliver_tx, finalize_block,
}
use aacp.App.Lifecycle.Blocks.{SenderBytes, finalize_block-Accounts, Accounts}
use aacp.App.Lifecycle.Envelope.{Vouched}
use aacp.App.Lifecycle.Replay.{Charged, Sound, replay_refused, admit-Sound}
use aacp.Modules.CapUtxo.{cap_utxo}
use aacp.Modules.CapUtxo.Lawful.{cap_utxo-LawfulModule}
use aacp.App.Lifecycle.{
  admit, check_envelope, check_signature, verify_signature, check_nonce, charge, settle, consume,
}
use aacp.Types.{validate_basic, code_from_error, contains}
use aacp.State.Engine.{get, lookup, insert, set}
use aacp.App.Router.{execute, execute_action, save_json, put}
use aacp.Modules.CapUtxo.{mint, minted, save_utxo, utxo_id}
use aacp.Prelude.Encode.{big_endian, decimal, decimal_fuel, hex, of_big_endian, utf8}
use aacp.State.Keys.{nonce_key, utxo_key}
use aacp.State.Nonce.{set_nonce}
use aacp.App.Lifecycle.{deliver_txs, finish_block, close_block, after_txs, failure}
use aacp.App.Router
use aacp.App.Router.{list_prefix}
use aacp.Modules.CapUtxo.{expire_at_time, expire_all, expire_one, is_due}
use aacp.State.Engine.{iterate_prefix, matching, sort, insert_sorted, commit, hash_input}
use aacp.App.Lifecycle.{process_proposal, prepare_proposal}
use aacp.App.Lifecycle.Proposals.{proposal_accepted, Fits}
use aacp.State.View.{IsValid, iterate_prefix-ext, lookup-iterate_prefix, commit-ext}
use aacp.State.Nonce.Laws.{nonce_isolated}
use aacp.Tests.Fixtures.{
  Blob, mint_tx, broken, wire, wire-WireLaw, cap_codec, tx_codec, ctx, alice, world_of, tx, request,
  repeat-IsBytes, transaction_in-IsBytes, bob,
}

abbrev router : Router Blob
router = ("caputxo", cap_utxo wire cap_codec) ∷ []

router-Lawful : LawfulRouter wire router
router-Lawful = (cap_utxo-LawfulModule wire cap_codec, tt)

abbrev minting : ExecTxResult
minting = record { code = 0; gas_used = 4010; events = [] }

minted_ok : (deliver_tx wire tx_codec router ctx mint_tx (world_of [])).0 ≡ ok minting
unfolding deliver_tx admit check_envelope validate_basic check_signature verify_signature
    check_nonce get_nonce get lookup charge settle execute execute_action mint minted save_utxo
    save_json consume put utxo_id big_endian decimal decimal_fuel hex of_big_endian utf8 insert set
    nonce_key utxo_key set_nonce code_from_error contains
minted_ok = refl

-- Alice mints a capability, and sends the transaction again.
replay_refused_example :
    let (_, v) = deliver_tx wire tx_codec router ctx mint_tx (world_of []) in
    deliver_tx wire tx_codec router ctx mint_tx v ≡ (ok (fail_result code_bad_nonce), v)
replay_refused_example =
    replay_refused wire tx_codec router ctx mint_tx (world_of []) minting wire-WireLaw router-Lawful
      minted_ok refl

abbrev block : FinalizeBlockRequest Blob
block = record { ctx = ctx; txs = mint_tx ∷ broken ∷ [] }

abbrev empty_chain : App Blob
empty_chain = record { world = world_of []; last_app_hash = [] }

abbrev response : FinalizeBlockResponse
response = record {
  tx_results = minting ∷ record { code = 1; gas_used = 0; events = [] } ∷ [];
  app_hash = 181 ∷ [];
  events = [];
}

block-response : (finalize_block wire tx_codec router (some block) empty_chain).0 ≡ ok response
unfolding finalize_block after_txs failure deliver_txs finish_block close_block deliver_tx admit
    check_envelope validate_basic check_signature verify_signature check_nonce get_nonce get lookup
    charge settle execute execute_action mint minted save_utxo save_json consume put utxo_id
    big_endian decimal decimal_fuel hex of_big_endian utf8 insert set nonce_key utxo_key set_nonce
    code_from_error contains Router.end_block expire_at_time expire_all expire_one list_prefix
    iterate_prefix matching sort insert_sorted is_due commit hash_input
block-response = refl

tx_codec-SenderBytes : SenderBytes tx_codec
tx_codec-SenderBytes = record { bytes = transaction_in-IsBytes }

alice-IsBytes : IsBytes alice
alice-IsBytes = repeat-IsBytes 32

fresh : get_nonce wire empty_chain.world.store alice < 2 ^ 64
unfolding get_nonce get lookup hex
fresh = omega arith

finalize_block-Accounts_example :
    Accounts wire tx_codec alice block.txs empty_chain
      (finalize_block wire tx_codec router (some block) empty_chain).1
      response
finalize_block-Accounts_example =
    finalize_block-Accounts wire tx_codec router block empty_chain alice response wire-WireLaw
      router-Lawful tx_codec-SenderBytes alice-IsBytes fresh block-response

bob-IsBytes : IsBytes bob
bob-IsBytes = (omega arith, repeat-IsBytes 31)

-- The nonce that is written for Alice is hers alone.
nonce_isolated_example :
    get_nonce wire (set_nonce wire empty_chain.world.store alice 5) bob
    ≡ (if equal_bytes alice bob then 5 else get_nonce wire empty_chain.world.store bob)
nonce_isolated_example =
    nonce_isolated wire wire-WireLaw empty_chain.world.store alice bob 5 (omega arith)
      (repeat-IsBytes 32) bob-IsBytes

-- two orders of one map
abbrev forth : Store Blob
forth = record { entries = ("a/1", mint_tx) ∷ ("b/1", broken) ∷ ("a/0", broken) ∷ []; version = 3 }

abbrev back : Store Blob
back = record { entries = ("a/0", broken) ∷ ("b/1", broken) ∷ ("a/1", mint_tx) ∷ []; version = 3 }

forth-IsValid : IsValid forth
unfolding lookup
forth-IsValid = record { unique = (refl, (refl, (refl, tt))) }

back-IsValid : IsValid back
unfolding lookup
back-IsValid = record { unique = (refl, (refl, (refl, tt))) }

forth-back : (k : String) → get forth k ≡ get back k
unfolding get lookup
forth-back k = elim (Bool-cases (str_eq "a/1" k)) [
  | inl one ↦ subst (λ i. get forth i ≡ get back i) ((eq_iff "a/1" k).0 one) refl
  | inr not_one ↦ elim (Bool-cases (str_eq "a/0" k)) [
    | inl zero_ ↦ subst (λ i. get forth i ≡ get back i) ((eq_iff "a/0" k).0 zero_) refl
    | inr not_zero ↦ rw (not_one, not_zero, get, lookup) refl
  ]
]

iterate_prefix-ext_example : iterate_prefix forth "a/" ≡ iterate_prefix back "a/"
iterate_prefix-ext_example =
    iterate_prefix-ext forth back "a/" forth-IsValid back-IsValid forth-back

lookup-iterate_prefix_example :
    lookup "a/0" (iterate_prefix forth "a/")
    ≡ (if starts_with "a/0" "a/" then get forth "a/0" else none)
lookup-iterate_prefix_example = lookup-iterate_prefix forth "a/" "a/0" forth-IsValid

commit-ext_example :
    ((commit wire.to_bytes wire.sha256 forth).0 ≡ (commit wire.to_bytes wire.sha256 back).0)
    × ((commit wire.to_bytes wire.sha256 forth).1.version
        ≡ (commit wire.to_bytes wire.sha256 back).1.version)
commit-ext_example =
    commit-ext wire.to_bytes wire.sha256 forth back forth-IsValid back-IsValid forth-back refl

-- A proposal of two transactions.
proposal_accepted_example :
    (process_proposal wire (some (prepare_proposal wire (some block.txs))) ≡ true)
    × All (Fits wire) (prepare_proposal wire (some block.txs))
    × (process_proposal wire (some block.txs) ≡ true
        → prepare_proposal wire (some block.txs) ≡ block.txs)
proposal_accepted_example = proposal_accepted wire block.txs

-- What the admission of Alice's transaction says.
admitted_at :
    admit wire tx_codec ctx (world_of []) mint_tx
    ≡ admitted (tx "caputxo" "mint_capability" 0 request) 0 1010
unfolding admit check_envelope validate_basic check_signature verify_signature check_nonce get_nonce
    get lookup charge consume contains hex
admitted_at = refl

admit-Sound_example :
    (tx_codec.decode mint_tx ≡ some (tx "caputxo" "mint_capability" 0 request))
    × Vouched wire tx_codec ctx (tx "caputxo" "mint_capability" 0 request)
    × Sound wire (world_of []) (tx "caputxo" "mint_capability" 0 request) 0 1010
    × ((kib : ℕ) × Charged wire (tx "caputxo" "mint_capability" 0 request) 1010 kib)
    × (admit wire tx_codec ctx (world_of []) mint_tx
        ≡ check_nonce wire (world_of []) (tx "caputxo" "mint_capability" 0 request))
admit-Sound_example =
    admit-Sound wire tx_codec ctx (world_of []) (world_of []) mint_tx
      (tx "caputxo" "mint_capability" 0 request) 0 1010 admitted_at
