-- ===== src/Modules/Arb/Rules.antt =====
-- internal/modules/arb/module.go: what the handlers compute, apart from the store.
use aacp.Prelude.{
  ℕ, zero, suc, ◌+◌, ◌%◌, String, ◌<>◌, Bool, true, false, Option, none, some, List, [], ◌∷◌, ◌++◌,
  if◌then◌else◌, ltb, leb, str_eq, Bytes, length, take, equal_bytes, ◌||◌,
}
use aacp.Prelude.Int.{pos, negsuc}
use aacp.Prelude.Encode.{hex, utf8, decimal}
use aacp.Exec.{Error, app}
use aacp.Codec.{Wire, Strings}
use aacp.Types.{Event, TxEnvelope, code_arb_base}
use aacp.Types.Money.{Money}
use aacp.App.Router.{Context}
use aacp.Modules.Arb.Data.{
  Evidence, Verdict, VoteRecord, Dispute, FilePayload, VotePayload, phase_auto, phase_committee,
  phase_full, filed, auto_resolved, comm_review, comm_resolved, full_review, final_resolved,
}
use aacp.Modules.Arb.Votes.{majority_vote}

abbrev pub bad_payload : Error
bad_payload = app (code_arb_base + 1)

abbrev pub not_party : Error
not_party = app (code_arb_base + 61)

abbrev pub wrong_phase : Error
wrong_phase = app (code_arb_base + 62)

abbrev no_money : Money
no_money = record { currency = ""; amount = "" }

abbrev cny : String → Money
cny amount = record { currency = "CNY"; amount = amount }

abbrev pub no_verdict : Verdict
no_verdict = record {
  winner = "";
  split_ratio = "";
  refund_amount = no_money;
  slash_amount = no_money;
  plaintiff_rep_delta = pos 0;
  defendant_rep_delta = pos 0;
  ban_defendant = false;
  reasoning = "";
}

unfoldable pub simple_verdict : String → Verdict
simple_verdict winner = record no_verdict { winner = winner; reasoning = "majority vote" }

pub record RuleResult : Type 0 where
  pub resolved : Bool
  pub verdict : Verdict

pub record AutoRule : Type 0 where
  pub name : String
  pub priority : ℕ
  pub eval : Dispute → Option RuleResult

module _ (strings : Strings) where
  -- a rule that decides for one reason, and returns nil for the others
  abbrev decides : String → Verdict → Dispute → Option RuleResult
  decides reason v d =
      if strings.equal_fold d.reason_code reason
      then some (record { resolved = true; verdict = v })
      else none

  abbrev pub rule_sla_timeout : Dispute → Option RuleResult
  rule_sla_timeout = decides "timeout" (record no_verdict {
    winner = "consumer";
    refund_amount = cny "1";
    slash_amount = cny "0.1";
    defendant_rep_delta = negsuc 29;
    reasoning = "SLA timeout";
  })

  abbrev pub rule_heartbeat_loss : Dispute → Option RuleResult
  rule_heartbeat_loss = decides "heartbeat" (record no_verdict {
    winner = "consumer";
    refund_amount = cny "1";
    slash_amount = cny "0.05";
    defendant_rep_delta = negsuc 19;
    reasoning = "Heartbeat loss";
  })

  abbrev pub rule_verification_fail : Dispute → Option RuleResult
  rule_verification_fail = decides "quality" (record no_verdict {
    winner = "consumer";
    refund_amount = cny "0.8";
    defendant_rep_delta = negsuc 39;
    reasoning = "Verification failed";
  })

  abbrev pub rule_consumer_bad_faith : Dispute → Option RuleResult
  rule_consumer_bad_faith = decides "payment" (record no_verdict {
    winner = "provider";
    plaintiff_rep_delta = negsuc 19;
    reasoning = "Consumer bad faith";
  })

  abbrev pub rule_escalate : Dispute → Option RuleResult
  rule_escalate d = some (record { resolved = false; verdict = no_verdict })

  -- `NewAutoRuleEngine`
  abbrev pub auto_rules : List AutoRule
  auto_rules =
      record { name = "sla_timeout"; priority = 1; eval = rule_sla_timeout }
      ∷ record { name = "heartbeat_loss"; priority = 2; eval = rule_heartbeat_loss }
      ∷ record { name = "verification_fail"; priority = 3; eval = rule_verification_fail }
      ∷ record { name = "consumer_bad_faith"; priority = 4; eval = rule_consumer_bad_faith }
      ∷ record { name = "insufficient_evidence"; priority = 99; eval = rule_escalate }
      ∷ []

-- `sort.Slice` by priority
unfoldable pub insert_rule : AutoRule → List AutoRule → List AutoRule
insert_rule r [] = r ∷ []
insert_rule r (q ∷ rules) =
    let rest = insert_rule r rules in if ltb q.priority r.priority then q ∷ rest else r ∷ q ∷ rules

unfoldable pub sort_rules : List AutoRule → List AutoRule
unfolding insert_rule
sort_rules [] = []
sort_rules (r ∷ rules) = insert_rule r (sort_rules rules)

abbrev resolved_or : Option RuleResult → RuleResult → RuleResult
resolved_or none rest = rest
resolved_or (some res) rest = if res.resolved then res else rest

unfoldable pub first_resolved : List AutoRule → Dispute → RuleResult
first_resolved [] d = record { resolved = false; verdict = no_verdict }
first_resolved (r ∷ rules) d = resolved_or (r.eval d) (first_resolved rules d)

-- `Evaluate`
unfoldable pub evaluate : List AutoRule → Dispute → RuleResult
unfolding sort_rules first_resolved
evaluate rules d = first_resolved (sort_rules rules) d

-- `h[n]`, for an index below the length
unfoldable pub byte_at : Bytes → ℕ → ℕ
byte_at [] n = 0
byte_at (b ∷ h) zero = b
byte_at (b ∷ h) (suc n) = byte_at h n

-- `member[j] = h[(i+j)%len(h)]` for the last `n` of 32 values of `j`; `h` has 32 bytes
unfoldable pub member_from : Bytes → ℕ → ℕ → ℕ → Bytes
unfolding byte_at
member_from h i j zero = []
member_from h i j (suc n) = byte_at h ((i + j) % 32) ∷ member_from h i (j + 1) n

unfoldable pub contains_validator : List Bytes → Bytes → Bool
contains_validator [] sender = false
contains_validator (v ∷ validators) sender =
    equal_bytes v sender || contains_validator validators sender

module _ {Raw : Type 0} (wire : Wire Raw) where
  unfoldable pub dispute_id : String → String → ℕ → String
  dispute_id order_id task_id nonce =
      hex (take 8 (wire.sha256 (utf8 (order_id <> ("|" <> (task_id <> ("|" <> decimal nonce)))))))

  unfoldable pub deterministic_committee : String → List Bytes
  unfolding member_from
  deterministic_committee id =
      let h = wire.sha256 (utf8 id) in
      member_from h 0 0 32
      ∷ member_from h 1 0 32
      ∷ member_from h 2 0 32
      ∷ member_from h 3 0 32
      ∷ member_from h 4 0 32
      ∷ []

  -- the dispute that `fileDispute` saves
  unfoldable pub new_dispute : Context → TxEnvelope Raw → FilePayload → Dispute
  new_dispute ctx env p = record {
    dispute_id = dispute_id p.order_id p.task_id env.nonce;
    order_id = p.order_id;
    task_id = p.task_id;
    plaintiff = env.sender;
    defendant = p.defendant;
    reason_code = p.reason_code;
    description = p.description;
    plaintiff_evidence = [];
    defendant_evidence = [];
    phase = phase_auto;
    status = filed;
    verdict = no_verdict;
    committee_members = [];
    committee_votes = [];
    full_votes = [];
    filed_at = ctx.unix;
    resolved_at = pos 0;
  }

  unfoldable pub to_committee : Dispute → Dispute
  to_committee d = record d {
    phase = phase_committee;
    status = comm_review;
    committee_members = deterministic_committee d.dispute_id;
  }

  -- the assignments of `autoResolve`
  unfoldable pub ruled : Strings → Dispute → Dispute
  unfolding to_committee evaluate
  ruled strings d =
      let result = evaluate (auto_rules strings) d in
      if result.resolved
      then record d { verdict = result.verdict; status = auto_resolved }
      else to_committee d

unfoldable pub to_full : Dispute → Dispute
to_full d = record d { phase = phase_full; status = full_review }

unfoldable pub with_plaintiff_evidence : Evidence → Dispute → Dispute
with_plaintiff_evidence e d = record d { plaintiff_evidence = d.plaintiff_evidence ++ e ∷ [] }

unfoldable pub with_defendant_evidence : Evidence → Dispute → Dispute
with_defendant_evidence e d = record d { defendant_evidence = d.defendant_evidence ++ e ∷ [] }

unfoldable pub ballot : Context → Bytes → VotePayload → VoteRecord
ballot ctx sender p = record {
  validator = sender;
  vote = p.vote;
  reasoning = p.reasoning;
  voted_at = ctx.unix;
  signature = [];
}

-- what follows the votes of the committee, once there are three
unfoldable pub committee_outcome : Dispute → Dispute
unfolding to_full simple_verdict
committee_outcome d =
    let winner = majority_vote d.committee_votes in
    if str_eq winner "tie"
    then to_full d
    else record d { status = comm_resolved; verdict = simple_verdict winner }

unfoldable pub committee_voted : VoteRecord → Dispute → Dispute
unfolding committee_outcome
committee_voted v d =
    let voted = record d { committee_votes = d.committee_votes ++ v ∷ [] } in
    if leb 3 (length voted.committee_votes) then committee_outcome voted else voted

-- and the full votes, once there are five
unfoldable pub full_outcome : Context → Dispute → Dispute
unfolding simple_verdict
full_outcome ctx d =
    let winner = majority_vote d.full_votes in
    record d {
      verdict = simple_verdict (if str_eq winner "tie" then "consumer" else winner);
      status = final_resolved;
      resolved_at = ctx.unix;
    }

unfoldable pub full_voted : Context → VoteRecord → Dispute → Dispute
unfolding full_outcome
full_voted ctx v d =
    let voted = record d { full_votes = d.full_votes ++ v ∷ [] } in
    if leb 5 (length voted.full_votes) then full_outcome ctx voted else voted

unfoldable pub executed : Context → Dispute → Dispute
executed ctx d = record d { status = final_resolved; resolved_at = ctx.unix }

unfoldable pub is_resolved : Dispute → Bool
is_resolved d =
    str_eq d.status auto_resolved
    || (str_eq d.status comm_resolved || str_eq d.status final_resolved)

abbrev pub dispute_resolved : Dispute → Event
dispute_resolved d = record {
  kind = "DisputeResolved";
  attributes = ("dispute_id", d.dispute_id) ∷ ("winner", d.verdict.winner) ∷ [];
}
