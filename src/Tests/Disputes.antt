-- ===== src/Tests/Disputes.antt =====
-- Disputes and votes at concrete inputs.
use aacp.Prelude.{
  ℕ, String, ◌≡◌, refl, none, some, List, [], ◌∷◌, str_eq, Bool-cases, inl, inr, eq_iff, subst,
  if◌then◌else◌, ◌==◌,
}
use aacp.Prelude.Int.{pos}
use aacp.Codec.{Strings, JsonLaw}
use aacp.State.Engine.{lookup, get}
use aacp.Types.{TxEnvelope}
use aacp.App.Router.{World, Context}
use aacp.App.Post.{reads}
use aacp.App.Lawful.{LawfulModule}
use aacp.App.Records.{run}
use aacp.Modules.Arb.{arb, handlers}
use aacp.Modules.Arb.Data.{Dispute, VoteRecord, Codec, phase_committee, comm_review}
use aacp.Modules.Arb.Rules.{no_verdict}
use aacp.Modules.Arb.Votes.{leader, majority_vote}
use aacp.Modules.Arb.Outcome.{Outcome, Counts, leader-Outcome, majority_vote-order, votes_for}
use aacp.Modules.Arb.Moves.{Move, dispute_kind, dispute_kind-KindLaw, dispute_of}
use aacp.Modules.Arb.History.{dispute_history}
use aacp.Modules.Arb.Lawful.{arb-LawfulModule}
use aacp.Tests.Fixtures.{ctx, alice, bob, tx}
use aacp.Tests.Slots.{Slot, request, slots, json_of, json_of-JsonLaw, asks, holding, one-WellKeyed}

abbrev strings : Strings
strings = record { equal_fold = str_eq; to_upper = λ s. s }

abbrev vote_for : String → VoteRecord
vote_for v = record {
  validator = alice;
  vote = v;
  reasoning = "";
  voted_at = pos 5;
  signature = [];
}

abbrev three_votes : List VoteRecord
three_votes = vote_for "consumer" ∷ vote_for "provider" ∷ vote_for "consumer" ∷ []

-- two orders of their counts
abbrev forth : List (String × ℕ)
forth = ("consumer", 2) ∷ ("provider", 1) ∷ []

abbrev back : List (String × ℕ)
back = ("provider", 1) ∷ ("consumer", 2) ∷ []

abbrev CountsOf : List (String × ℕ) → String → Type 0
CountsOf m k =
    lookup k m ≡ (if votes_for k three_votes == 0 then none else some (votes_for k three_votes))

forth-Counts : Counts three_votes forth
unfolding lookup
forth-Counts = record {
  unique = (refl, (refl, tt));
  counts = λ k. elim (Bool-cases (str_eq "consumer" k)) [
    | inl c ↦ subst (CountsOf forth) ((eq_iff "consumer" k).0 c) refl
    | inr not_c ↦ elim (Bool-cases (str_eq "provider" k)) [
      | inl p ↦ subst (CountsOf forth) ((eq_iff "provider" k).0 p) refl
      | inr not_p ↦ rw (not_c, not_p, lookup) refl
    ]
  ];
}

back-Counts : Counts three_votes back
unfolding lookup
back-Counts = record {
  unique = (refl, (refl, tt));
  counts = λ k. elim (Bool-cases (str_eq "consumer" k)) [
    | inl c ↦ subst (CountsOf back) ((eq_iff "consumer" k).0 c) refl
    | inr not_c ↦ elim (Bool-cases (str_eq "provider" k)) [
      | inl p ↦ subst (CountsOf back) ((eq_iff "provider" k).0 p) refl
      | inr not_p ↦ rw (not_c, not_p, lookup) refl
    ]
  ];
}

leader-Outcome_example : Outcome three_votes (leader forth)
leader-Outcome_example = leader-Outcome three_votes forth forth-Counts

majority_vote-order_example :
    (leader forth ≡ leader back) × (majority_vote three_votes ≡ leader forth)
majority_vote-order_example = majority_vote-order three_votes forth back forth-Counts back-Counts

abbrev codec : Codec (Slot Dispute)
codec = record {
  dispute = json_of (λ d. d) some;
  file = λ raw. none;
  evidence = λ raw. none;
  resolve = asks (λ n. some (record { dispute_id = "d1" }));
  vote = asks (λ n. some (record { dispute_id = "d1"; vote = "consumer"; reasoning = "" }));
}

dispute-JsonLaw : JsonLaw codec.dispute
dispute-JsonLaw = json_of-JsonLaw (λ d. d) some λ d. refl

abbrev open_dispute : Dispute
open_dispute = record {
  dispute_id = "d1";
  order_id = "o1";
  task_id = "t1";
  plaintiff = bob;
  defendant = alice;
  reason_code = "other";
  description = "";
  plaintiff_evidence = [];
  defendant_evidence = [];
  phase = phase_committee;
  status = comm_review;
  verdict = no_verdict;
  committee_members = alice ∷ [];
  committee_votes = [];
  full_votes = [];
  filed_at = pos 10;
  resolved_at = pos 0;
}

abbrev one_dispute : World (Slot Dispute)
one_dispute = holding (("arb/d/d1", open_dispute) ∷ [])

open_dispute-stored : dispute_of slots codec one_dispute.store "d1" ≡ some open_dispute
unfolding reads get lookup
open_dispute-stored = refl

-- Alice votes twice, and someone executes the verdict.
abbrev hearing : List (Context × TxEnvelope (Slot Dispute))
hearing =
    (ctx, tx "arb" "committee_vote" 0 (request 0))
    ∷ (ctx, tx "arb" "committee_vote" 1 (request 0))
    ∷ (ctx, tx "arb" "execute_verdict" 2 (request 0))
    ∷ []

dispute_history_example :
    (u : Dispute) × (dispute_of slots codec
        (run (handlers slots strings codec) hearing one_dispute).store
        "d1"
      ≡ some u)
    × Move (slots {R = Dispute}) open_dispute u
dispute_history_example =
    dispute_history slots strings codec hearing one_dispute "d1" open_dispute dispute-JsonLaw
      (refl, (refl, (refl, tt)))
      (one-WellKeyed (dispute_kind slots codec) open_dispute open_dispute
        (dispute_kind-KindLaw slots codec) refl)
      open_dispute-stored

arb-LawfulModule_example : LawfulModule slots (arb slots strings codec)
arb-LawfulModule_example = arb-LawfulModule slots strings codec
