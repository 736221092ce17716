-- ===== src/Modules/Gov/Lawful.antt =====
-- The contract of the block loop, for the governance module.
use aacp.Prelude.{String, ◌<>◌, ◌≡◌, refl, Option-cases, inl, inr, List, [], ◌∷◌}
use text.Mathlib.TextLemmas.{append_assoc}
use aacp.Exec.{plain}
use aacp.Codec.{Wire}
use aacp.State.Keys.{param_key, nonce_key, prefix_gov_prop, prefix_gov_vote}
use aacp.State.Keys.Laws.{prefix_apart}
use aacp.State.Params.{set_param}
use aacp.State.Nonce.Laws.{get_nonce-set}
use aacp.App.Lawful.{
  plain_fails, NoNonceKey, Lawful, LawfulHandler, LawfulModule, lawful_rules, Lawful-execute_action,
  Lawful-pure, Lawful-bind,
}
use aacp.Modules.Gov.Data.{ParamChange, Proposal, Codec}
use aacp.Modules.Gov.{
  save_proposal, load_proposal, create_proposal, vote_proposal, change_param, change_params,
  execute_proposal, handlers, gov,
}

proposal_key-NoNonceKey : (id : String) → NoNonceKey (prefix_gov_prop <> id)
unfolding nonce_key
proposal_key-NoNonceKey id p = prefix_apart "gov/p/" "acc/n/" id _ refl refl

vote_key-NoNonceKey : (k : String) → NoNonceKey (prefix_gov_vote <> k)
unfolding nonce_key
vote_key-NoNonceKey k p = prefix_apart "gov/v/" "acc/n/" k _ refl refl

pub param_key-NoNonceKey : (m k : String) → NoNonceKey (param_key m k)
unfolding param_key nonce_key
param_key-NoNonceKey m k p =
    rw (append_assoc "params" "/" (m <> ("/" <> k)))
      (prefix_apart "params" "acc/n/" ("/" <> (m <> ("/" <> k))) _ refl refl)

ruleset keys = (lawful_rules, proposal_key-NoNonceKey, vote_key-NoNonceKey)

module _ {Raw Any : Type 0} (wire : Wire Raw) (codec : Codec Raw Any) where
  Lawful-save_proposal : (p : Proposal Any) → Lawful wire (save_proposal wire codec p)
  unfolding save_proposal
  Lawful-save_proposal p = search keys

  Lawful-load_proposal : (id : String) → Lawful wire (load_proposal wire codec id)
  unfolding load_proposal
  Lawful-load_proposal id = search keys

  Lawful-change_param : (c : ParamChange Any) → Lawful wire (change_param wire codec c)
  unfolding change_param set_param
  Lawful-change_param c = elim (Option-cases (codec.value.marshal c.value)) [
    | inl bad ↦ record {
      keeps = λ w p. rw (bad, set_param, change_param) refl;
      fails = λ w e.
          rw (bad, set_param, change_param)
            (λ h. let same : plain ≡ e = cc in rw (← same) plain_fails);
    }
    | inr (raw, good) ↦ record {
      keeps = λ w p.
          rw (good, set_param, change_param)
            (get_nonce-set wire w.store _ raw p (param_key-NoNonceKey c.mod_name c.key p));
      fails = λ w e. rw (good, set_param, change_param) (λ h. cc);
    }
  ]

  Lawful-change_params : (cs : List (ParamChange Any)) → Lawful wire (change_params wire codec cs)
  unfolding change_params
  Lawful-change_params [] = Lawful-pure wire tt
  Lawful-change_params (c ∷ cs) =
      Lawful-bind wire _ _ (Lawful-change_param c) λ _. Lawful-change_params cs

  ruleset stored = (keys, Lawful-save_proposal, Lawful-load_proposal, Lawful-change_params)

  Lawful-create_proposal : LawfulHandler wire (create_proposal wire codec)
  unfolding create_proposal
  Lawful-create_proposal ctx env = search stored depth 12

  Lawful-vote_proposal : LawfulHandler wire (vote_proposal wire codec)
  unfolding vote_proposal
  Lawful-vote_proposal ctx env = search stored depth 12

  Lawful-execute_proposal : LawfulHandler wire (execute_proposal wire codec)
  unfolding execute_proposal
  Lawful-execute_proposal ctx env = search stored depth 12

  -- Whatever its transactions are and whatever the store holds, the governance module leaves the
  -- nonce of every account alone, in a transaction and at the end of a block, and never fails with
  -- the code of success.
  pub gov-LawfulModule : LawfulModule wire (gov wire codec)
  gov-LawfulModule = record {
    executes =
        Lawful-execute_action wire (handlers wire codec)
          (Lawful-create_proposal, (Lawful-vote_proposal, (Lawful-execute_proposal, tt)));
    ends = λ ctx. Lawful-pure wire [];
  }
