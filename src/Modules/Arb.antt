-- ===== src/Modules/Arb.antt =====
-- internal/modules/arb/module.go: disputes, from their filing to the execution of a verdict.
pub mod Data
pub mod Votes
pub mod Majority
pub mod Outcome
pub mod Rules
pub mod Lawful
pub mod Moves
pub mod Changes
pub mod History
use aacp.Prelude.{
  ℕ, ◌+◌, String, ◌<>◌, Bool, not, Option, none, some, List, [], ◌∷◌, if◌then◌else◌, str_eq,
  equal_bytes,
}
use aacp.Exec.{Error, app, plain, pure, fail, fail_if, ◌>>=◌, ◌>>◌}
use aacp.Codec.{Wire, Strings}
use aacp.State.Keys.{prefix_arb_dispute}
use aacp.Types.{Event, ExecTxResult, TxEnvelope, success_result, code_arb_base}
use aacp.App.Router.{
  Context, Action, ActionHandler, Module, decode_payload, save_json, load_json, execute_action,
  common_init_genesis, common_query,
}
use Data.{Dispute, Codec, phase_committee, phase_full, auto_resolved, comm_resolved, final_resolved}
unfoldable pub use Rules.{
  dispute_id, deterministic_committee, new_dispute, to_committee, ruled, to_full,
  with_plaintiff_evidence, with_defendant_evidence, contains_validator, ballot, committee_voted,
  committee_outcome, full_voted, full_outcome, executed, is_resolved,
}
pub use Rules.{bad_payload, not_party, wrong_phase, dispute_resolved}

module _ {Raw : Type 0} (wire : Wire Raw) (strings : Strings) (codec : Codec Raw) where
  unfoldable pub save_dispute : Dispute → Action Raw Unit
  save_dispute d = save_json codec.dispute plain (prefix_arb_dispute <> d.dispute_id) d

  unfoldable pub load_dispute : String → Action Raw Dispute
  load_dispute id = load_json codec.dispute (app code_arb_base) plain (prefix_arb_dispute <> id)

  unfoldable pub file_dispute : ActionHandler Raw
  file_dispute ctx env = do
    p ← decode_payload codec.file bad_payload env.payload
    save_dispute (new_dispute wire ctx env p)
    pure (success_result 3000 [])

  unfoldable pub submit_evidence : ActionHandler Raw
  submit_evidence ctx env = do
    p ← decode_payload codec.evidence bad_payload env.payload
    d ← load_dispute p.dispute_id
    if equal_bytes d.plaintiff env.sender
        then save_dispute (with_plaintiff_evidence p.evidence d)
        else if equal_bytes d.defendant env.sender
        then save_dispute (with_defendant_evidence p.evidence d)
        else fail not_party
    pure (success_result 2000 [])

  unfoldable pub auto_resolve : ActionHandler Raw
  auto_resolve ctx env = do
    p ← decode_payload codec.resolve bad_payload env.payload
    d ← load_dispute p.dispute_id
    if str_eq d.status final_resolved
        then pure (success_result 5000 [])
        else (do save_dispute (ruled wire strings d); pure (success_result 5000 []))

  unfoldable pub committee_vote : ActionHandler Raw
  committee_vote ctx env = do
    p ← decode_payload codec.vote bad_payload env.payload
    d ← load_dispute p.dispute_id
    fail_if (not (str_eq d.phase phase_committee)) wrong_phase
    fail_if (not (contains_validator d.committee_members env.sender)) not_party
    save_dispute (committee_voted (ballot ctx env.sender p) d)
    pure (success_result 1500 [])

  unfoldable pub full_vote : ActionHandler Raw
  full_vote ctx env = do
    p ← decode_payload codec.vote bad_payload env.payload
    d ← load_dispute p.dispute_id
    fail_if (not (str_eq d.phase phase_full)) wrong_phase
    save_dispute (full_voted ctx (ballot ctx env.sender p) d)
    pure (success_result 1500 [])

  unfoldable pub appeal : ActionHandler Raw
  appeal ctx env = do
    p ← decode_payload codec.resolve bad_payload env.payload
    d ← load_dispute p.dispute_id
    if str_eq d.status auto_resolved
        then save_dispute (to_committee wire d)
        else if str_eq d.status comm_resolved
        then save_dispute (to_full d)
        else fail wrong_phase
    pure (success_result 3000 [])

  unfoldable pub execute_verdict : ActionHandler Raw
  execute_verdict ctx env = do
    p ← decode_payload codec.resolve bad_payload env.payload
    d ← load_dispute p.dispute_id
    fail_if (not (is_resolved d)) wrong_phase
    save_dispute (executed ctx d)
    pure (success_result 5000 (dispute_resolved (executed ctx d) ∷ []))

  -- `Handlers`: the filing of a dispute, and the others
  abbrev pub later_handlers : List (String × ActionHandler Raw)
  later_handlers =
      ("submit_evidence", submit_evidence)
      ∷ ("auto_resolve", auto_resolve)
      ∷ ("committee_vote", committee_vote)
      ∷ ("appeal", appeal)
      ∷ ("full_vote", full_vote)
      ∷ ("execute_verdict", execute_verdict)
      ∷ []

  abbrev pub handlers : List (String × ActionHandler Raw)
  handlers = ("file_dispute", file_dispute) ∷ later_handlers

  -- `New` and the methods that forward to `common.Module`
  abbrev pub arb : Module Raw
  arb = record {
    name = "arb";
    init_genesis = λ ctx raw. common_init_genesis wire "arb" raw;
    execute_tx = execute_action handlers;
    end_block = λ ctx. pure [];
    query = common_query;
  }
