-- ===== src/Modules/Arb/Lawful.antt =====
-- The contract of the block loop, for the arbitration module.
use aacp.Prelude.{String, ◌<>◌, refl, []}
use aacp.Codec.{Wire, Strings}
use aacp.State.Keys.{nonce_key, prefix_arb_dispute}
use aacp.State.Keys.Laws.{prefix_apart}
use aacp.App.Lawful.{
  NoNonceKey, Lawful, LawfulHandler, LawfulModule, lawful_rules, Lawful-execute_action, Lawful-pure,
}
use aacp.Modules.Arb.Data.{Dispute, Codec}
use aacp.Modules.Arb.{
  save_dispute, load_dispute, file_dispute, submit_evidence, auto_resolve, committee_vote, appeal,
  full_vote, execute_verdict, handlers, arb,
}

dispute_key-NoNonceKey : (id : String) → NoNonceKey (prefix_arb_dispute <> id)
unfolding nonce_key
dispute_key-NoNonceKey id p = prefix_apart "arb/d/" "acc/n/" id _ refl refl

module _ {Raw : Type 0} (wire : Wire Raw) (strings : Strings) (codec : Codec Raw) where
  Lawful-save_dispute : (d : Dispute) → Lawful wire (save_dispute wire strings codec d)
  unfolding save_dispute
  Lawful-save_dispute d = search (lawful_rules, dispute_key-NoNonceKey)

  Lawful-load_dispute : (id : String) → Lawful wire (load_dispute wire strings codec id)
  unfolding load_dispute
  Lawful-load_dispute id = search (lawful_rules, dispute_key-NoNonceKey)

  ruleset stored = (lawful_rules, Lawful-save_dispute, Lawful-load_dispute)

  Lawful-file_dispute : LawfulHandler wire (file_dispute wire strings codec)
  unfolding file_dispute
  Lawful-file_dispute ctx env = search stored depth 12

  Lawful-submit_evidence : LawfulHandler wire (submit_evidence wire strings codec)
  unfolding submit_evidence
  Lawful-submit_evidence ctx env = search stored depth 14

  Lawful-auto_resolve : LawfulHandler wire (auto_resolve wire strings codec)
  unfolding auto_resolve
  Lawful-auto_resolve ctx env = search stored depth 14

  Lawful-committee_vote : LawfulHandler wire (committee_vote wire strings codec)
  unfolding committee_vote
  Lawful-committee_vote ctx env = search stored depth 14

  Lawful-appeal : LawfulHandler wire (appeal wire strings codec)
  unfolding appeal
  Lawful-appeal ctx env = search stored depth 14

  Lawful-full_vote : LawfulHandler wire (full_vote wire strings codec)
  unfolding full_vote
  Lawful-full_vote ctx env = search stored depth 14

  Lawful-execute_verdict : LawfulHandler wire (execute_verdict wire strings codec)
  unfolding execute_verdict
  Lawful-execute_verdict ctx env = search stored depth 14

  -- Whatever its transactions are and whatever the store holds, the arbitration module leaves the
  -- nonce of every account alone, in a transaction and at the end of a block, and never fails with
  -- the code of success.
  pub arb-LawfulModule : LawfulModule wire (arb wire strings codec)
  arb-LawfulModule = record {
    executes = Lawful-execute_action wire (handlers wire strings codec) (
      Lawful-file_dispute,
      (
        Lawful-submit_evidence,
        (
          Lawful-auto_resolve,
          (
            Lawful-committee_vote,
            (Lawful-appeal, (Lawful-full_vote, (Lawful-execute_verdict, tt))),
          ),
        ),
      ),
    );
    ends = λ ctx. Lawful-pure wire [];
  }
