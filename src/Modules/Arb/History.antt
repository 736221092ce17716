-- ===== src/Modules/Arb/History.antt =====
-- What the transactions of the arbitration module, one after the other, make of a dispute.
use aacp.Prelude.{String, ◌≡◌, refl, false, some, inl, List, str_eq, All}
use aacp.Codec.{Wire, Strings, JsonLaw}
use aacp.Types.{TxEnvelope}
use aacp.App.Router.{World, Context}
use aacp.App.Post.{post_rules}
use aacp.App.Post.Results.{post_if_then}
use aacp.App.Records.{AdvancingHandler, Advances-refl, Advances-save, run}
use aacp.App.Records.Journeys.{Journey-Kept, run-Journey}
use aacp.Modules.Arb.Data.{Dispute, Codec}
use aacp.Modules.Arb.{
  save_dispute, load_dispute, file_dispute, submit_evidence, auto_resolve, committee_vote,
  full_vote, appeal, execute_verdict, later_handlers, handlers,
}
use aacp.Modules.Arb.Moves.{
  Move, Move-trans, SameVotes-Move, dispute_kind, dispute_kind-KindLaw, dispute_of, WellKeyed,
}
use aacp.Modules.Arb.Changes.{
  with_plaintiff_evidence-Move, with_defendant_evidence-Move, to_committee-Move, to_full-Move,
  executed-Move, ruled-Move, committee_voted-Move, full_voted-Move,
}

module _ {Raw : Type 0} (wire : Wire Raw) (strings : Strings) (codec : Codec Raw) where
  ruleset advancing = (post_rules, Advances-refl, Advances-save, dispute_kind-KindLaw)

  module _ (law : JsonLaw codec.dispute) where
    abbrev AdvancingDisputes : Type 0
    AdvancingDisputes =
        All (λ e. AdvancingHandler (dispute_kind wire codec) e.1)
          (later_handlers wire strings codec)

    submit_evidence-Advancing :
        AdvancingHandler (dispute_kind wire codec) (submit_evidence wire strings codec)
    unfolding submit_evidence load_dispute save_dispute
    submit_evidence-Advancing ctx env w =
        search
          (advancing, post_if_then, with_plaintiff_evidence-Move, with_defendant_evidence-Move, law)
          depth 20

    auto_resolve-Advancing :
        AdvancingHandler (dispute_kind wire codec) (auto_resolve wire strings codec)
    unfolding auto_resolve load_dispute save_dispute
    auto_resolve-Advancing ctx env w = search (advancing, ruled-Move, law) depth 20

    committee_vote-Advancing :
        AdvancingHandler (dispute_kind wire codec) (committee_vote wire strings codec)
    unfolding committee_vote load_dispute save_dispute
    committee_vote-Advancing ctx env w = search (advancing, committee_voted-Move, law) depth 20

    full_vote-Advancing : AdvancingHandler (dispute_kind wire codec) (full_vote wire strings codec)
    unfolding full_vote load_dispute save_dispute
    full_vote-Advancing ctx env w = search (advancing, full_voted-Move, law) depth 20

    appeal-Advancing : AdvancingHandler (dispute_kind wire codec) (appeal wire strings codec)
    unfolding appeal load_dispute save_dispute
    appeal-Advancing ctx env w =
        search (advancing, post_if_then, to_committee-Move, to_full-Move, law) depth 20

    execute_verdict-Advancing :
        AdvancingHandler (dispute_kind wire codec) (execute_verdict wire strings codec)
    unfolding execute_verdict load_dispute save_dispute
    execute_verdict-Advancing ctx env w = search (advancing, executed-Move, law) depth 20

    later_handlers-Advancing : AdvancingDisputes
    later_handlers-Advancing = (
      submit_evidence-Advancing,
      (
        auto_resolve-Advancing,
        (
          committee_vote-Advancing,
          (appeal-Advancing, (full_vote-Advancing, (execute_verdict-Advancing, tt))),
        ),
      ),
    )

  same-Move : (t : Dispute) → Move wire t t
  same-Move t = SameVotes-Move wire t t (record { same = refl; members = inl refl })

  -- Let JSON read back each dispute that it wrote, let each dispute of the store be stored under
  -- its own id, and run any transactions of the arbitration module that file no dispute, by
  -- whomever and whether they succeed or fail. Then a dispute that was in the store is there still,
  -- with the same order, task and parties. The votes that it had, of the committee and of all, are
  -- the first of those that it has. And if its committee was the one that its id determines, or
  -- empty, and all votes of the committee came from that one, then so it is still.
  pub dispute_history :
      (txs : List (Context × TxEnvelope Raw)) (w : World Raw) (id : String) (t : Dispute)
      → JsonLaw codec.dispute
      → All (λ tx. str_eq "file_dispute" tx.1.action ≡ false) txs
      → WellKeyed wire codec w.store
      → dispute_of wire codec w.store id ≡ some t
      → (u : Dispute) × (dispute_of wire codec (run (handlers wire strings codec) txs w).store id
          ≡ some u)
        × Move wire t u
  dispute_history txs w id t law h keyed found =
      let (u, final, journey) =
        run-Journey (dispute_kind wire codec) "file_dispute" (file_dispute wire strings codec)
          (later_handlers wire strings codec) (later_handlers-Advancing law) txs w id t h keyed
          found in
      (
        u,
        final,
        Journey-Kept (dispute_kind wire codec) (handlers wire strings codec) (Move wire) same-Move
            (Move-trans wire) id txs w t u journey,
      )
