-- ===== src/Modules/Arb/Moves.antt =====
-- What the transactions of the arbitration module may change in a dispute.
use text.Mathlib.TextLemmas.{append_cancel_left}
use aacp.Prelude.{
  String, ◌<>◌, ◌≡◌, refl, sym, ◌∙◌, ap, ◌⊎◌, inl, inr, true, Option, List, [], ◌∷◌, ◌++◌, All,
  subst, Bytes,
}
use aacp.Codec.{Wire}
use aacp.State.Engine.{Store}
use aacp.State.Keys.{prefix_arb_dispute}
use aacp.App.Records
use aacp.App.Records.{Kind, KindLaw, record_of}
use aacp.Modules.Arb.Data.{Dispute, VoteRecord, Codec}
use aacp.Modules.Arb.{deterministic_committee, contains_validator}

module _ {Raw : Type 0} (wire : Wire Raw) where
  -- who is in the committee of a dispute
  abbrev pub InCommittee : String → VoteRecord → Type 0
  InCommittee id v = contains_validator (deterministic_committee wire id) v.validator ≡ true

  -- The members, if any, are those that the id determines, and each vote of the committee is one of
  -- theirs.
  pub record Fair (d : Dispute) : Type 0 where
    pub members :
        (d.committee_members ≡ [])
        ⊎ (d.committee_members ≡ deterministic_committee wire d.dispute_id)
    pub voters : All (InCommittee d.dispute_id) d.committee_votes

  -- One change of a dispute: what it is about stays, no vote is taken back, and it stays fair.
  pub record Move (t u : Dispute) : Type 0 where
    pub same_dispute : u.dispute_id ≡ t.dispute_id
    pub same_order : u.order_id ≡ t.order_id
    pub same_task : u.task_id ≡ t.task_id
    pub same_plaintiff : u.plaintiff ≡ t.plaintiff
    pub same_defendant : u.defendant ≡ t.defendant
    pub committee_grows : (more : List VoteRecord) × (u.committee_votes ≡ t.committee_votes ++ more)
    pub full_grows : (more : List VoteRecord) × (u.full_votes ≡ t.full_votes ++ more)
    pub fair : Fair t → Fair u

  pub append_nil : {A : Type 0} (l : List A) → l ≡ l ++ []
  append_nil [] = refl
  append_nil (a ∷ l) = ap (λ r. a ∷ r) (append_nil l)

  -- what `Move` reads, apart from the members
  abbrev pub Facts : Type 0
  Facts = String × String × String × Bytes × Bytes × List VoteRecord × List VoteRecord

  abbrev pub facts : Dispute → Facts
  facts d = (
    d.dispute_id, d.order_id, d.task_id, d.plaintiff, d.defendant, d.committee_votes, d.full_votes,
  )

  pub record SameVotes (t u : Dispute) : Type 0 where
    pub same : facts u ≡ facts t
    pub members :
        (u.committee_members ≡ t.committee_members)
        ⊎ (u.committee_members ≡ deterministic_committee wire t.dispute_id)

  same_members :
      (t u : Dispute)
      → SameVotes t u
      → Fair t
      → (u.committee_members ≡ [])
        ⊎ (u.committee_members ≡ deterministic_committee wire u.dispute_id)
  same_members t u s h = elim s.members [
    | inr new ↦ inr (new ∙ ap (λ f. deterministic_committee wire f.0) (sym s.same))
    | inl old ↦ elim h.members [
      | inl none_ ↦ inl (old ∙ none_)
      | inr all_ ↦ inr (old ∙ all_ ∙ ap (λ f. deterministic_committee wire f.0) (sym s.same))
    ]
  ]

  pub SameVotes-Move : (t u : Dispute) → SameVotes t u → Move t u
  SameVotes-Move t u s = record {
    same_dispute = ap (λ f. f.0) s.same;
    same_order = ap (λ f. f.1) s.same;
    same_task = ap (λ f. f.2) s.same;
    same_plaintiff = ap (λ f. f.3) s.same;
    same_defendant = ap (λ f. f.4) s.same;
    committee_grows = ([], ap (λ f. f.5) s.same ∙ append_nil t.committee_votes);
    full_grows = ([], ap (λ f. f.6) s.same ∙ append_nil t.full_votes);
    fair = λ h. record {
      members = same_members t u s h;
      voters = subst (λ f. All (InCommittee f.0) f.5) (sym s.same) h.voters;
    };
  }

  append_assoc : {A : Type 0} (a b c : List A) → (a ++ b) ++ c ≡ a ++ (b ++ c)
  append_assoc [] b c = refl
  append_assoc (x ∷ a) b c = ap (λ l. x ∷ l) (append_assoc a b c)

  pub Move-trans : (t u v : Dispute) → Move t u → Move u v → Move t v
  Move-trans t u v m n = record {
    same_dispute = n.same_dispute ∙ m.same_dispute;
    same_order = n.same_order ∙ m.same_order;
    same_task = n.same_task ∙ m.same_task;
    same_plaintiff = n.same_plaintiff ∙ m.same_plaintiff;
    same_defendant = n.same_defendant ∙ m.same_defendant;
    committee_grows = grown t.committee_votes m.committee_grows n.committee_grows;
    full_grows = grown t.full_votes m.full_grows n.full_grows;
    fair = λ h. n.fair (m.fair h);
  }
    where
      grown :
          (a : List VoteRecord) {b c : List VoteRecord}
          → ((more : List VoteRecord) × (b ≡ a ++ more))
          → ((more : List VoteRecord) × (c ≡ b ++ more))
          → (more : List VoteRecord) × (c ≡ a ++ more)
      grown a (x, e) (y, f) = (x ++ y, f ∙ ap (λ l. l ++ y) e ∙ append_assoc a x y)

dispute_key-injective : (a b : String) → prefix_arb_dispute <> a ≡ prefix_arb_dispute <> b → a ≡ b
dispute_key-injective a b h = append_cancel_left prefix_arb_dispute a b h

module _ {Raw : Type 0} (wire : Wire Raw) (codec : Codec Raw) where
  abbrev pub dispute_kind : Kind Raw Dispute
  dispute_kind = record {
    json = codec.dispute;
    key = λ id. prefix_arb_dispute <> id;
    name = λ d. d.dispute_id;
    Move = Move wire;
  }

  pub dispute_kind-KindLaw : KindLaw dispute_kind
  dispute_kind-KindLaw = record {
    apart = dispute_key-injective;
    same_name = λ t u m. m.same_dispute;
  }

  -- what the store holds for the id of a dispute
  abbrev pub dispute_of : Store Raw → String → Option Dispute
  dispute_of = record_of dispute_kind

  -- Every dispute is stored under its own id.
  abbrev pub WellKeyed : Store Raw → Type 0
  WellKeyed = Records.WellKeyed dispute_kind
