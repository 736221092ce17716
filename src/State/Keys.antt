-- ===== src/State/Keys.antt =====
-- internal/state/keys.go: the prefixes and the keys of the store.
pub mod Laws
use aacp.Prelude.{ℕ, String, ◌<>◌}
use aacp.Prelude.Encode.{decimal_padded}

abbrev pub prefix_amx_listing : String
prefix_amx_listing = "amx/l/"

abbrev pub prefix_amx_order : String
prefix_amx_order = "amx/o/"

abbrev pub prefix_amx_index : String
prefix_amx_index = "amx/i/"

abbrev pub prefix_aap_task : String
prefix_aap_task = "aap/t/"

abbrev pub prefix_aap_evidence : String
prefix_aap_evidence = "aap/e/"

abbrev pub prefix_aap_heartbeat : String
prefix_aap_heartbeat = "aap/h/"

abbrev pub prefix_weave_dag : String
prefix_weave_dag = "weave/d/"

abbrev pub prefix_cap_utxo : String
prefix_cap_utxo = "cap/u/"

abbrev pub prefix_cap_holder : String
prefix_cap_holder = "cap/h/"

abbrev pub prefix_cap_type : String
prefix_cap_type = "cap/t/"

abbrev pub prefix_cap_derive : String
prefix_cap_derive = "cap/d/"

abbrev pub prefix_rep_score : String
prefix_rep_score = "rep/s/"

abbrev pub prefix_arb_dispute : String
prefix_arb_dispute = "arb/d/"

abbrev pub prefix_fiat_escrow : String
prefix_fiat_escrow = "fiat/e/"

abbrev pub prefix_fiat_deposit : String
prefix_fiat_deposit = "fiat/dep/"

abbrev pub prefix_fiat_pool : String
prefix_fiat_pool = "fiat/pool"

abbrev pub prefix_node_reg : String
prefix_node_reg = "node/r/"

abbrev pub prefix_gov_prop : String
prefix_gov_prop = "gov/p/"

abbrev pub prefix_gov_vote : String
prefix_gov_vote = "gov/v/"

abbrev pub prefix_acc_nonce : String
prefix_acc_nonce = "acc/n/"

abbrev pub prefix_params : String
prefix_params = "params/"

unfoldable pub listing_key : String → String
listing_key id = prefix_amx_listing <> id

unfoldable pub order_key : String → String
order_key id = prefix_amx_order <> id

unfoldable pub task_key : String → String
task_key id = prefix_aap_task <> id

unfoldable pub utxo_key : String → String
utxo_key id = prefix_cap_utxo <> id

unfoldable pub rep_key : String → String
rep_key entity = prefix_rep_score <> entity

unfoldable pub nonce_key : String → String
nonce_key pub_hex = prefix_acc_nonce <> pub_hex

unfoldable pub param_key : String → String → String
param_key mod_name key = prefix_params <> (mod_name <> ("/" <> key))

unfoldable pub heartbeat_key : String → ℕ → String
heartbeat_key task_id seq = prefix_aap_heartbeat <> (task_id <> ("/" <> decimal_padded 10 seq))
