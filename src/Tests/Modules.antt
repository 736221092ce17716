-- ===== src/Tests/Modules.antt =====
-- Capabilities and tasks at concrete inputs.
use text.Mathlib.TextLemmas.{append_cancel_left}
use aacp.Prelude.{
  ℕ, ◌<>◌, none, subst, equal_bytes, ◌-◌, ◌≤◌, ◌≡◌, refl, some, List, [], ◌∷◌, str_eq, eq_iff, inl,
  inr, Bool-cases, arith,
}
use aacp.Exec.{ok, err}
use aacp.State.Engine.{get, lookup}
use aacp.State.Keys.{task_key, utxo_key}
use aacp.State.Engine.{set, insert}
use aacp.App.Router.{load_json, save_json, put}
use aacp.Modules.CapUtxo.{
  load_utxo, save_utxo, delegated, delegated_utxo_id, derive_key, is_subset, all_contained,
}
use aacp.Prelude.Encode.{hex, utf8, decimal, decimal_fuel}
use aacp.Types.{success_result, contains, TxEnvelope}
use aacp.App.Router.{World, Context}
use aacp.App.Lawful.{some_inj, LawfulModule}
use aacp.App.Post.{reads}
use aacp.Modules.CapUtxo.{cap_utxo, delegate, split_path, split_from}
use aacp.Prelude.Encode.{utf8}
use aacp.Modules.CapUtxo.Data.{CapabilityUtxo, DelegatePayload}
use aacp.Modules.CapUtxo.Lawful.{cap_utxo-LawfulModule}
use aacp.Modules.CapUtxo.Store
use aacp.Modules.CapUtxo.Store.{utxo_of}
use aacp.Modules.CapUtxo.Spending.{spends, spend_budget}
use aacp.Modules.CapUtxo.Delegation.{Delegation, delegate_attenuates}
use aacp.Modules.Aap.{aap, handlers}
use aacp.Modules.Aap.Data.{Task, completed, verified}
use aacp.Modules.Aap.Lawful.{aap-LawfulModule}
use aacp.Modules.Aap.Store as TaskStore
use aacp.Modules.Aap.Store.{task_kind, task_of}
use aacp.Modules.Aap.History.{Kept, task_history}
use aacp.App.Records.Journeys.{Course}
use aacp.Prelude.Int.{pos}
use aacp.Modules.Gov.{
  gov, execute_proposal, load_proposal, save_proposal, change_params, votes_of, close, refused,
}
use aacp.Modules.Gov.Data.{Proposal, ExecutePayload}
use aacp.Modules.Gov.Once.{Executed, ProposalLaw, WellKeyed, proposal_of, no_second_run}
use aacp.Modules.Gov.Data as Gov
use aacp.Modules.Gov.Lawful.{gov-LawfulModule}
use aacp.Modules.Weave.{weave}
use aacp.Modules.Weave.Data as Weave
use aacp.Modules.Weave.Lawful.{weave-LawfulModule}
use aacp.Tests.Fixtures.{
  Blob, proposal, gov_codec, gov_codec-JsonLaw, request, task, utxo, wire, cap_codec,
  cap_codec-JsonLaw, aap_codec, aap_codec-JsonLaw, ctx, tx, capability, waiting, world_of,
}

-- a store with one task, and with one capability
abbrev one_task : World Blob
one_task = world_of (("aap/t/t1", task waiting) ∷ [])

abbrev one_utxo : World Blob
one_utxo = world_of (("cap/u/c1", utxo (capability "c1" 2)) ∷ [])

one_task-WellKeyed : TaskStore.WellKeyed aap_codec one_task.store
unfolding reads get lookup task_key
one_task-WellKeyed id t h = elim (Bool-cases (str_eq "aap/t/t1" ("aap/t/" <> id))) [
  | inl same ↦
      subst (λ (x : Task). x.task_id ≡ id) (some_inj waiting t (rw (same, reads, get, lookup) at h))
        (append_cancel_left "aap/t/" "t1" id ((eq_iff "aap/t/t1" ("aap/t/" <> id)).0 same))
  | inr other ↦ let gone : none ≡ some t = (rw (other, reads, get, lookup) at h) in cc
]

one_utxo-WellKeyed : Store.WellKeyed cap_codec one_utxo.store
unfolding utxo_of reads get lookup utxo_key
one_utxo-WellKeyed id t h = elim (Bool-cases (str_eq "cap/u/c1" ("cap/u/" <> id))) [
  | inl same ↦
      subst (λ (x : CapabilityUtxo). x.utxo_id ≡ id)
        (some_inj (capability "c1" 2) t (rw (same, utxo_of, reads, get, lookup) at h))
        (append_cancel_left "cap/u/" "c1" id ((eq_iff "cap/u/c1" ("cap/u/" <> id)).0 same))
  | inr other ↦ let gone : none ≡ some t = (rw (other, utxo_of, reads, get, lookup) at h) in cc
]

waiting-stored : task_of aap_codec one_task.store "t1" ≡ some waiting
unfolding reads get lookup task_key
waiting-stored = refl

c1-stored : utxo_of cap_codec one_utxo.store "c1" ≡ some (capability "c1" 2)
unfolding utxo_of reads get lookup utxo_key
c1-stored = refl

abbrev reviews : List (Context × TxEnvelope Blob)
reviews = (ctx, tx "aap" "verify_result" 0 request) ∷ (ctx, tx "aap" "settle_task" 1 request) ∷ []

task_history_example :
    (u : Task) × Course
      (task_kind aap_codec)
      (handlers wire aap_codec)
      Kept
      (λ v. v.status ≡ completed)
      (λ v. v.status ≡ verified)
      "t1"
      reviews
      one_task
      waiting
      u
task_history_example =
    task_history wire aap_codec reviews one_task "t1" waiting aap_codec-JsonLaw (refl, (refl, tt))
      one_task-WellKeyed waiting-stored

-- Alice spends a capability of two uses three times.
abbrev three : List (Context × TxEnvelope Blob)
three =
    (ctx, tx "caputxo" "spend_capability" 0 request)
    ∷ (ctx, tx "caputxo" "spend_capability" 1 request)
    ∷ (ctx, tx "caputxo" "spend_capability" 2 request)
    ∷ []

spend_budget_example : spends cap_codec wire "c1" three one_utxo ≤ 2 - 0
spend_budget_example =
    spend_budget cap_codec wire three one_utxo "c1" (capability "c1" 2) cap_codec-JsonLaw
      one_utxo-WellKeyed c1-stored
      (record { positive = omega arith; small = omega arith; below = λ s. omega arith })

cap_utxo-LawfulModule_example : LawfulModule wire (cap_utxo wire cap_codec)
cap_utxo-LawfulModule_example = cap_utxo-LawfulModule wire cap_codec

aap-LawfulModule_example : LawfulModule wire (aap wire aap_codec)
aap-LawfulModule_example = aap-LawfulModule wire aap_codec

-- Alice delegates to Bob.
abbrev delegation : TxEnvelope Blob
delegation = tx "caputxo" "delegate_capability" 0 request

delegation-succeeds :
    delegate wire cap_codec ctx delegation one_utxo
    ≡ (ok (success_result 3000 []), (delegate wire cap_codec ctx delegation one_utxo).1)
unfolding delegate load_utxo load_json save_utxo save_json put set insert get lookup utxo_key
    delegated delegated_utxo_id derive_key is_subset all_contained contains hex utf8 decimal
    decimal_fuel equal_bytes
delegation-succeeds = refl

delegate_attenuates_example :
    (p : DelegatePayload) × (parent : CapabilityUtxo) × (child : CapabilityUtxo) × Delegation wire
      cap_codec ctx delegation one_utxo
      (delegate wire cap_codec ctx delegation one_utxo).1
      p
      parent
      child
delegate_attenuates_example =
    delegate_attenuates wire cap_codec ctx delegation one_utxo
      (delegate wire cap_codec ctx delegation one_utxo).1 (success_result 3000 []) cap_codec-JsonLaw
      delegation-succeeds

-- an open proposal with two votes for it and one against it
abbrev approved : Proposal ℕ
approved = record {
  proposal_id = "p1";
  kind = "param";
  status = Gov.open_status;
  changes = [];
  votes = ("yes", pos 2) ∷ ("no", pos 1) ∷ ("abstain", pos 0) ∷ [];
  created_at = pos 10;
  closed_at = pos 0;
}

abbrev one_proposal : World Blob
one_proposal = world_of (("gov/p/p1", proposal approved) ∷ [])

gov-LawfulModule_example : LawfulModule wire (gov wire gov_codec)
gov-LawfulModule_example = gov-LawfulModule wire gov_codec

one_proposal-WellKeyed : WellKeyed wire gov_codec one_proposal.store
unfolding proposal_of reads get lookup
one_proposal-WellKeyed id t h = elim (Bool-cases (str_eq "gov/p/p1" ("gov/p/" <> id))) [
  | inl same ↦
      subst (λ (x : Proposal ℕ). x.proposal_id ≡ id)
        (some_inj approved t (rw (same, proposal_of, reads, get, lookup) at h))
        (append_cancel_left "gov/p/" "p1" id ((eq_iff "gov/p/p1" ("gov/p/" <> id)).0 same))
  | inr other ↦ let gone : none ≡ some t = (rw (other, proposal_of, reads, get, lookup) at h) in cc
]

abbrev execution : TxEnvelope Blob
execution = tx "gov" "execute_proposal" 0 request

execution-succeeds :
    execute_proposal wire gov_codec ctx execution one_proposal
    ≡ (ok (success_result 2500 []), (execute_proposal wire gov_codec ctx execution one_proposal).1)
unfolding execute_proposal load_proposal load_json save_proposal save_json put set insert get lookup
    change_params votes_of close
execution-succeeds = refl

gov_codec-ProposalLaw : ProposalLaw gov_codec
gov_codec-ProposalLaw = record {
  back = λ a raw h. (
    a,
    gov_codec-JsonLaw.back a raw h,
    record {
      same_id = refl;
      same_kind = refl;
      same_status = refl;
      same_changes = refl;
      same_votes = λ k. refl;
      same_created = refl;
      same_closed = refl;
    },
  );
}

-- The proposal is executed, and the same transaction comes again.
no_second_run_example :
    let v = (execute_proposal wire gov_codec ctx execution one_proposal).1 in
    ((p : ExecutePayload) × (prop : Proposal ℕ) × Executed wire gov_codec execution one_proposal v p
        prop)
    × (execute_proposal wire gov_codec ctx execution v ≡ (err refused, v))
no_second_run_example =
    no_second_run wire gov_codec ctx ctx execution execution one_proposal
      (execute_proposal wire gov_codec ctx execution one_proposal).1 (success_result 2500 [])
      gov_codec-ProposalLaw one_proposal-WellKeyed execution-succeeds refl

abbrev weave_codec : Weave.Codec Blob
weave_codec = record {
  dag = record { marshal = λ dag. none; unmarshal = λ raw. none };
  create = λ raw. none;
  simple = λ raw. some (record { dag_id = "d1" });
  node_status = λ raw. none;
  node_output = λ raw. none;
}

weave-LawfulModule_example : LawfulModule wire (weave wire weave_codec)
weave-LawfulModule_example = weave-LawfulModule wire weave_codec

-- A key is split at its bytes, and a byte that is no ASCII character becomes one of its own.
two_bytes : split_path "cap/dé/x" ≡ "cap" ∷ "dÃ©" ∷ "x" ∷ []
unfolding split_path split_from utf8
two_bytes = refl
