-- ===== src/Modules/Arb/Changes.antt =====
-- Each update of a dispute is a move.
use mathlib.Core.Bool.{false≢true}
use aacp.Prelude.{
  ◌≡◌, refl, sym, ◌∙◌, ap, inl, inr, Bool, true, false, not, List, [], ◌∷◌, ◌++◌, All, Bytes, leb,
  length, if◌then◌else◌,
}
use aacp.Codec.{Wire, Strings}
use aacp.App.Router.{Context}
use aacp.Modules.Arb.Data.{Dispute, VoteRecord, VotePayload, Evidence}
use aacp.Modules.Arb.{
  deterministic_committee, contains_validator, to_committee, ruled, to_full,
  with_plaintiff_evidence, with_defendant_evidence, ballot, committee_voted, committee_outcome,
  full_voted, full_outcome, executed,
}
use aacp.Modules.Arb.Moves.{Move, Move-trans, SameVotes-Move, Fair, InCommittee, append_nil}

module _ {Raw : Type 0} (wire : Wire Raw) where
  pub with_plaintiff_evidence-Move :
      (e : Evidence) (d : Dispute) → Move wire d (with_plaintiff_evidence e d)
  unfolding with_plaintiff_evidence
  with_plaintiff_evidence-Move e d =
      SameVotes-Move wire d (with_plaintiff_evidence e d)
        (record { same = refl; members = inl refl })

  pub with_defendant_evidence-Move :
      (e : Evidence) (d : Dispute) → Move wire d (with_defendant_evidence e d)
  unfolding with_defendant_evidence
  with_defendant_evidence-Move e d =
      SameVotes-Move wire d (with_defendant_evidence e d)
        (record { same = refl; members = inl refl })

  pub to_committee-Move : (d : Dispute) → Move wire d (to_committee wire d)
  unfolding to_committee
  to_committee-Move d =
      SameVotes-Move wire d (to_committee wire d) (record { same = refl; members = inr refl })

  pub to_full-Move : (d : Dispute) → Move wire d (to_full d)
  unfolding to_full
  to_full-Move d = SameVotes-Move wire d (to_full d) (record { same = refl; members = inl refl })

  pub executed-Move : (ctx : Context) (d : Dispute) → Move wire d (executed ctx d)
  unfolding executed
  executed-Move ctx d =
      SameVotes-Move wire d (executed ctx d) (record { same = refl; members = inl refl })

  Move-if :
      (b : Bool) (t u v : Dispute)
      → Move wire t u
      → Move wire t v
      → Move wire t (if b then u else v)
  Move-if true t u v m n = m
  Move-if false t u v m n = n

  pub ruled-Move : (strings : Strings) (d : Dispute) → Move wire d (ruled wire strings d)
  unfolding ruled
  ruled-Move strings d =
      Move-if _ d _ _ (SameVotes-Move wire d _ (record { same = refl; members = inl refl }))
        (to_committee-Move d)

  committee_outcome-Move : (d : Dispute) → Move wire d (committee_outcome d)
  unfolding committee_outcome
  committee_outcome-Move d =
      Move-if _ d _ _ (to_full-Move d)
        (SameVotes-Move wire d _ (record { same = refl; members = inl refl }))

  full_outcome-Move : (ctx : Context) (d : Dispute) → Move wire d (full_outcome ctx d)
  unfolding full_outcome
  full_outcome-Move ctx d =
      SameVotes-Move wire d (full_outcome ctx d) (record { same = refl; members = inl refl })

  All-append :
      {A : Type 0} (P : A → Type 0) (l : List A) (a : A) → All P l → P a → All P (l ++ a ∷ [])
  All-append P [] a h p = (p, tt)
  All-append P (x ∷ l) a h p = (h.0, All-append P l a h.1 p)

  -- a member of a fair dispute's committee
  is_member :
      (d : Dispute) (sender : Bytes)
      → not (contains_validator d.committee_members sender) ≡ false
      → Fair wire d
      → contains_validator (deterministic_committee wire d.dispute_id) sender ≡ true
  unfolding contains_validator
  is_member d sender h f = elim f.members [
    | inl none_ ↦
        let out : not (contains_validator [] sender) ≡ false =
          ap (λ l. not (contains_validator l sender)) (sym none_) ∙ h in
        absurd (false≢true (sym out))
    | inr all_ ↦
        ap (λ l. contains_validator l sender) (sym all_)
        ∙ negated (contains_validator d.committee_members sender) h
  ]
    where
      negated : (b : Bool) → not b ≡ false → b ≡ true
      negated true h = refl
      negated false h = sym h

  pub committee_voted-Move :
      (ctx : Context) (sender : Bytes) (p : VotePayload) (d : Dispute)
      → not (contains_validator d.committee_members sender) ≡ false
      → Move wire d (committee_voted (ballot ctx sender p) d)
  unfolding committee_voted ballot
  committee_voted-Move ctx sender p d h =
      let v = ballot ctx sender p in
      let voted : Dispute = record d { committee_votes = d.committee_votes ++ v ∷ [] } in
      let cast : Move wire d voted = record {
        same_dispute = refl;
        same_order = refl;
        same_task = refl;
        same_plaintiff = refl;
        same_defendant = refl;
        committee_grows = (v ∷ [], refl);
        full_grows = ([], append_nil wire d.full_votes);
        fair = λ f. record {
          members = f.members;
          voters =
              All-append (InCommittee wire d.dispute_id) d.committee_votes v f.voters
                (is_member d sender h f);
        };
      } in
      Move-if (leb 3 (length voted.committee_votes)) d _ _
        (Move-trans wire d voted _ cast (committee_outcome-Move voted)) cast

  pub full_voted-Move :
      (ctx : Context) (v : VoteRecord) (d : Dispute) → Move wire d (full_voted ctx v d)
  unfolding full_voted
  full_voted-Move ctx v d =
      let voted : Dispute = record d { full_votes = d.full_votes ++ v ∷ [] } in
      let cast : Move wire d voted = record {
        same_dispute = refl;
        same_order = refl;
        same_task = refl;
        same_plaintiff = refl;
        same_defendant = refl;
        committee_grows = ([], append_nil wire d.committee_votes);
        full_grows = (v ∷ [], refl);
        fair = λ f. record { members = f.members; voters = f.voters };
      } in
      Move-if (leb 5 (length voted.full_votes)) d _ _
        (Move-trans wire d voted _ cast (full_outcome-Move ctx voted)) cast
