-- ===== src/Modules/Gov/Once.antt =====
-- The execution of a proposal, and a second one.
use aacp.Prelude.{
  String, ◌<>◌, ◌≡◌, refl, ◌∙◌, ap, eq_refl, subst, false, not, Option, some, arith, str_eq, eq_iff,
}
use aacp.Prelude.Int.{◌<ℤ◌, leb_ℤ}
use aacp.Exec.{Error, ok, err}
use aacp.Codec.{Wire}
use aacp.State.Engine.{Store, set, lookup}
use aacp.State.Engine.Laws.{get-set}
use aacp.State.Keys.{prefix_gov_prop}
use aacp.Types.{ExecTxResult, TxEnvelope}
use aacp.App.Router.{World, Context, load_json}
use aacp.App.Post.{Post, IfOk, at_ok, reads, stored, post_rules, post_any}
use aacp.Modules.Gov.Data.{Proposal, ExecutePayload, Codec, open_status}
use aacp.Modules.Gov.{votes_of, close, execute_proposal, load_proposal, save_proposal, refused}

-- The same proposal: the same fields, and the same entries in the map of votes.
pub record SameProposal {Any : Type 0} (a b : Proposal Any) : Type 0 where
  pub same_id : a.proposal_id ≡ b.proposal_id
  pub same_kind : a.kind ≡ b.kind
  pub same_status : a.status ≡ b.status
  pub same_changes : a.changes ≡ b.changes
  pub same_votes : (k : String) → lookup k a.votes ≡ lookup k b.votes
  pub same_created : a.created_at ≡ b.created_at
  pub same_closed : a.closed_at ≡ b.closed_at

-- JSON at a proposal: what was encoded is decoded to the same proposal, with the map of votes in
-- any order.
pub record ProposalLaw {Raw Any : Type 0} (codec : Codec Raw Any) : Type 0 where
  pub back :
      (a : Proposal Any) (raw : Raw)
      → codec.proposal.marshal a ≡ some raw
      → (b : Proposal Any) × (codec.proposal.unmarshal raw ≡ some b) × SameProposal b a

module _ {Raw Any : Type 0} (wire : Wire Raw) (codec : Codec Raw Any) where
  -- what the store holds for the id of a proposal
  unfoldable pub proposal_of : Store Raw → String → Option (Proposal Any)
  proposal_of s id = reads codec.proposal s (prefix_gov_prop <> id)

  -- what a successful execution found and wrote
  pub record Executed (env : TxEnvelope Raw) (w v : World Raw) (p : ExecutePayload)
      (prop : Proposal Any) : Type 0 where
    pub decoded : codec.execute env.payload ≡ some p
    pub loaded : proposal_of w.store p.proposal_id ≡ some prop
    pub was_open : prop.status ≡ open_status
    pub approved : votes_of prop.votes "no" <ℤ votes_of prop.votes "yes"
    pub closed :
        (ctx : Context) × (after : Proposal Any) × (proposal_of v.store prop.proposal_id
          ≡ some after)
        × SameProposal after (close ctx prop)

  abbrev Executes : TxEnvelope Raw → World Raw → World Raw → Type 0
  Executes env w v = (p : ExecutePayload) × (prop : Proposal Any) × Executed env w v p prop

  reads_back :
      (s : Store Raw) (k : String) (raw : Raw) (q : Proposal Any)
      → codec.proposal.unmarshal raw ≡ some q
      → reads codec.proposal (set s k raw) k ≡ some q
  unfolding reads
  reads_back s k raw q h = rw (get-set s k k raw, eq_refl k, reads) h

  execute_done :
      (ctx : Context) (env : TxEnvelope Raw) (w v : World Raw) (p : ExecutePayload)
      (prop : Proposal Any) (raw : Raw) (res : ExecTxResult)
      → ProposalLaw codec
      → codec.execute env.payload ≡ some p
      → reads codec.proposal w.store (prefix_gov_prop <> p.proposal_id) ≡ some prop
      → not (str_eq prop.status open_status) ≡ false
      → leb_ℤ (votes_of prop.votes "yes") (votes_of prop.votes "no") ≡ false
      → codec.proposal.marshal (close ctx prop) ≡ some raw
      → IfOk
          (Executes env w (stored v (prefix_gov_prop <> (close ctx prop).proposal_id) raw))
          (ok res)
  unfolding IfOk proposal_of close
  execute_done ctx env w v p prop raw res law decoded loaded opened more marshalled = (
    p,
    prop,
    record {
      decoded = decoded;
      loaded = loaded;
      was_open = (eq_iff prop.status open_status).0 (ground arith);
      approved = ground arith;
      closed =
          let (after, read, same) = law.back (close ctx prop) raw marshalled in
          (
            ctx,
            after,
            reads_back v.store (prefix_gov_prop <> prop.proposal_id) raw after read,
            same,
          );
    },
  )

  failed_ok : (A D : Type 0) (e : Error) → IfOk {A = A} D (err e)
  unfolding IfOk
  failed_ok A D e = tt

  execute-Post :
      (ctx : Context) (env : TxEnvelope Raw) (w : World Raw)
      → ProposalLaw codec
      → Post w (execute_proposal wire codec ctx env) (λ r v. IfOk (Executes env w v) r)
  unfolding execute_proposal load_proposal save_proposal
  execute-Post ctx env w law = search (post_rules, post_any, execute_done, failed_ok, law) depth 20

  -- A proposal that is not open is refused.
  closed_refused :
      (ctx : Context) (env : TxEnvelope Raw) (v : World Raw) (p : ExecutePayload)
      (prop : Proposal Any)
      → codec.execute env.payload ≡ some p
      → proposal_of v.store p.proposal_id ≡ some prop
      → str_eq prop.status open_status ≡ false
      → execute_proposal wire codec ctx env v ≡ (err refused, v)
  unfolding execute_proposal load_proposal load_json proposal_of reads
  closed_refused ctx env v p prop decoded found shut = ground (arith, decoded, found, shut)

  -- Every proposal is stored under its own id.
  abbrev pub WellKeyed : Store Raw → Type 0
  WellKeyed s = (id : String) (q : Proposal Any) → proposal_of s id ≡ some q → q.proposal_id ≡ id

  close-shut :
      (ctx : Context) (prop : Proposal Any) → str_eq (close ctx prop).status open_status ≡ false
  unfolding close
  close-shut ctx prop = refl

  -- Let JSON read back each proposal that it wrote, with the votes in any order, let each proposal
  -- of the store be stored under its own id, and let an execution succeed. Then its payload names
  -- a proposal that was open and had more votes for yes than for no, the new store has that
  -- proposal as executed and closed, and a later execution with the same payload, by whomever, is
  -- refused and changes nothing.
  pub no_second_run :
      (ctx later : Context) (env again : TxEnvelope Raw) (w v : World Raw) (res : ExecTxResult)
      → ProposalLaw codec
      → WellKeyed w.store
      → execute_proposal wire codec ctx env w ≡ (ok res, v)
      → codec.execute again.payload ≡ codec.execute env.payload
      → ((p : ExecutePayload) × (prop : Proposal Any) × Executed env w v p prop)
        × (execute_proposal wire codec later again v ≡ (err refused, v))
  no_second_run ctx later env again w v res law keyed h same =
      let (p, prop, e) = at_ok (λ v. Executes env w v) (execute-Post ctx env w law) h in
      let (c, after, found, same_after) = e.closed in
      let at_id = keyed p.proposal_id prop e.loaded in
      (
        (p, prop, e),
        closed_refused later again v p after (same ∙ e.decoded)
            (subst (λ i. proposal_of v.store i ≡ some after) at_id found)
            (ap (λ st. str_eq st open_status) same_after.same_status ∙ close-shut c prop),
      )
