-- ===== src/Modules/Gov.antt =====
-- internal/modules/gov/module.go: proposals, votes and the parameters that they change.
pub mod Data
pub mod Lawful
pub mod Once
use aacp.Prelude.{
  ℕ, suc, ◌+◌, String, ◌<>◌, Bool, true, false, not, Option, none, some, List, [], ◌∷◌,
  if◌then◌else◌, str_eq,
}
use aacp.Prelude.Int.{ℤ, pos, negsuc, leb_ℤ, add64}
use aacp.Prelude.Encode.{hex, utf8, decimal}
use aacp.Exec.{Error, app, plain, Result, ok, err, Exec, pure, fail_if, ◌>>=◌, ◌>>◌}
use aacp.Codec.{Wire}
use aacp.State.Engine.{lookup, insert}
use aacp.State.Params.{set_param}
use aacp.State.Keys.{prefix_gov_prop, prefix_gov_vote}
use aacp.Types.{Event, ExecTxResult, TxEnvelope, success_result, contains, code_gov_base}
use aacp.App.Router.{
  World, Context, Action, ActionHandler, Module, put, decode_payload, save_json, load_json,
  execute_action, common_init_genesis, common_query,
}
use Data.{ParamChange, Proposal, CreateProposalPayload, Codec, open_status, executed}

abbrev pub refused : Error
refused = app (code_gov_base + 1)

-- `%d` at an int64
unfoldable pub decimal_int : ℤ → String
decimal_int (pos n) = decimal n
decimal_int (negsuc n) = "-" <> decimal (suc n)

-- `prop.Votes[k]`: 0 for a missing key
unfoldable pub votes_of : List (String × ℤ) → String → ℤ
votes_of votes k = elim (lookup k votes) [ none ↦ pos 0 | some n ↦ n ]

unfoldable pub has_vote : List (String × ℤ) → String → Bool
has_vote votes k = elim (lookup k votes) [ none ↦ false | some _ ↦ true ]

-- `prop.Votes[p.Vote]++`, an int of 64 bits
unfoldable pub count_vote : {Any : Type 0} → String → Proposal Any → Proposal Any
count_vote vote prop = record prop {
  votes = insert vote (add64 (votes_of prop.votes vote) (pos 1)) prop.votes;
}

module _ {Any : Type 0} where
  unfoldable pub new_proposal : Context → CreateProposalPayload Any → Proposal Any
  new_proposal ctx p = record {
    proposal_id =
        if str_eq p.proposal_id "" then "p-" <> decimal_int ctx.unix_nano else p.proposal_id;
    kind = p.kind;
    status = open_status;
    changes = p.changes;
    votes = ("yes", pos 0) ∷ ("no", pos 0) ∷ ("abstain", pos 0) ∷ [];
    created_at = ctx.unix;
    closed_at = pos 0;
  }

  unfoldable pub close : Context → Proposal Any → Proposal Any
  close ctx prop = record prop { status = executed; closed_at = ctx.unix }

module _ {Raw Any : Type 0} (wire : Wire Raw) (codec : Codec Raw Any) where
  unfoldable pub save_proposal : Proposal Any → Action Raw Unit
  save_proposal p = save_json codec.proposal plain (prefix_gov_prop <> p.proposal_id) p

  unfoldable pub load_proposal : String → Action Raw (Proposal Any)
  load_proposal id =
      load_json codec.proposal (app (code_gov_base + 90)) plain (prefix_gov_prop <> id)

  unfoldable pub create_proposal : ActionHandler Raw
  create_proposal ctx env = do
    p ← decode_payload codec.create plain env.payload
    save_proposal (new_proposal ctx p)
    pure (success_result 2000 [])

  unfoldable pub vote_proposal : ActionHandler Raw
  vote_proposal ctx env = do
    p ← decode_payload codec.vote plain env.payload
    prop ← load_proposal p.proposal_id
    fail_if (not (str_eq prop.status open_status)) refused
    fail_if (not (has_vote prop.votes p.vote)) refused
    save_proposal (count_vote p.vote prop)
    put (prefix_gov_vote <> (prop.proposal_id <> ("/" <> hex env.sender)))
        (wire.of_bytes (utf8 p.vote))
    pure (success_result 1500 [])

  -- `ctx.Store.SetParam` and its error
  unfoldable pub change_param : ParamChange Any → Action Raw Unit
  change_param c w = elim (set_param codec.value w.store c.mod_name c.key c.value) [
    | err e ↦ (err e, w)
    | ok s ↦ (ok tt, record w { store = s })
  ]

  unfoldable pub change_params : List (ParamChange Any) → Action Raw Unit
  change_params [] = pure tt
  change_params (c ∷ changes) = do change_param c; change_params changes

  unfoldable pub execute_proposal : ActionHandler Raw
  execute_proposal ctx env = do
    p ← decode_payload codec.execute plain env.payload
    prop ← load_proposal p.proposal_id
    fail_if (not (str_eq prop.status open_status)) refused
    fail_if (leb_ℤ (votes_of prop.votes "yes") (votes_of prop.votes "no")) refused
    change_params prop.changes
    save_proposal (close ctx prop)
    pure (success_result 2500 [])

  abbrev pub handlers : List (String × ActionHandler Raw)
  handlers =
      ("create_proposal", create_proposal)
      ∷ ("vote_proposal", vote_proposal)
      ∷ ("execute_proposal", execute_proposal)
      ∷ []

  -- `New` and the methods that forward to `common.Module`
  abbrev pub gov : Module Raw
  gov = record {
    name = "gov";
    init_genesis = λ ctx raw. common_init_genesis wire "gov" raw;
    execute_tx = execute_action handlers;
    end_block = λ ctx. pure [];
    query = common_query;
  }
