-- ===== src/Modules/Arb/Votes.antt =====
-- internal/modules/arb/module.go: the count of votes.
use aacp.Prelude.{
  ℕ, ◌+◌, String, Bool, true, false, none, some, List, [], ◌∷◌, if◌then◌else◌, ltb, ◌==◌,
}
use aacp.State.Engine.{lookup, insert}
use aacp.Modules.Arb.Data.{VoteRecord}

-- `counts[v.Vote]`, 0 for a missing key
unfoldable pub count_in : String → List (String × ℕ) → ℕ
count_in k m = elim (lookup k m) [ none ↦ 0 | some n ↦ n ]

-- the map after the first loop
unfoldable pub tally_from : List (String × ℕ) → List VoteRecord → List (String × ℕ)
unfolding count_in
tally_from m [] = m
tally_from m (v ∷ votes) = tally_from (insert v.vote (count_in v.vote m + 1) m) votes

unfoldable pub tally : List VoteRecord → List (String × ℕ)
tally votes = tally_from [] votes

-- the variables of the second loop
pub record Lead : Type 0 where
  pub winner : String
  pub best : ℕ
  pub tie : Bool

abbrev pub no_lead : Lead
no_lead = record { winner = ""; best = 0; tie = false }

unfoldable pub compare_count : String → ℕ → Lead → Lead
compare_count candidate count l =
    if ltb l.best count
    then record { winner = candidate; best = count; tie = false }
    else if count == l.best
    then record l { tie = true }
    else l

unfoldable pub survey : List (String × ℕ) → Lead → Lead
unfolding compare_count
survey [] l = l
survey ((candidate, count) ∷ counts) l = survey counts (compare_count candidate count l)

-- the second loop, over the counts in the order in which the map yields them
unfoldable pub leader : List (String × ℕ) → String
unfolding survey
leader counts = let l = survey counts no_lead in if l.tie then "tie" else l.winner

unfoldable pub majority_vote : List VoteRecord → String
unfolding tally leader
majority_vote votes = leader (tally votes)
