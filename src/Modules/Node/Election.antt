-- ===== src/Modules/Node/Election.antt =====
-- Who is elected.
use aacp.Prelude.{◌≤◌, ◌≡◌, ◌⊎◌, String, some, List, [], ◌∷◌}
use aacp.Codec.{Json}
use aacp.Modules.Node.Data.{Floats, NodeRegistration}
use aacp.Modules.Node.Rules.{Candidate, score_node, deposit_scale, eligible_nodes}

module _ {F : Type 0} (floats : Floats F) where
  -- The node is as it should be, and the score is its own.
  abbrev Scores : (NodeRegistration F → Type 0) → F → Candidate floats → Type 0
  Scores P scale c = P c.node × (c.score ≡ score_node floats scale c.node)

  module _ {Raw : Type 0} (json : Json Raw (NodeRegistration F)) where
    -- One of the entries of the store is the registration.
    pub RegisteredIn : List (String × Raw) → NodeRegistration F → Type 0
    RegisteredIn [] n = ⊥
    RegisteredIn ((k, raw) ∷ entries) n = (json.unmarshal raw ≡ some n) ⊎ RegisteredIn entries n

    -- The registration is in the store, and it is eligible.
    abbrev Stands : List (String × Raw) → NodeRegistration F → Type 0
    Stands entries n =
        RegisteredIn entries n
        × (500 ≤ n.reputation)
        × ((n.tier ≡ "T0_VALIDATOR") ⊎ (n.tier ≡ "T1_FULL"))

    -- A candidate is a stored and eligible registration with the score that is computed from it.
    abbrev pub IsCandidate : List (String × Raw) → Candidate floats → Type 0
    IsCandidate entries =
        Scores (Stands entries) (deposit_scale floats (eligible_nodes floats json entries))
