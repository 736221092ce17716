-- ===== src/App/Lifecycle/Proposals.antt =====
-- The two sides of a proposal.
use aacp.Prelude.{◌≤◌, ◌≡◌, refl, true, some, List, [], ◌∷◌, arith, length, All}
use aacp.Codec.{Wire}
use aacp.App.Lifecycle.{max_tx_bytes, prepare_txs, prepare_proposal, process_txs, process_proposal}

module _ {Raw : Type 0} (wire : Wire Raw) where
  abbrev pub Fits : Raw → Type 0
  Fits raw = length (wire.to_bytes raw) ≤ max_tx_bytes

  prepare_txs-Fits : (txs : List Raw) → All Fits (prepare_txs wire txs)
  unfolding prepare_txs
  prepare_txs-Fits [] = tt
  prepare_txs-Fits (raw ∷ txs) = ground (arith, prepare_txs-Fits txs)

  process_txs_accepts : (txs : List Raw) → All Fits txs → process_txs wire txs ≡ true
  unfolding process_txs
  process_txs_accepts [] h = refl
  process_txs_accepts (raw ∷ txs) h = ground (arith, process_txs_accepts txs h.1)

  process_txs_prepared : (txs : List Raw) → process_txs wire txs ≡ true → prepare_txs wire txs ≡ txs
  unfolding process_txs prepare_txs
  process_txs_prepared [] h = refl
  process_txs_prepared (raw ∷ txs) h = ground (arith, process_txs_prepared txs)

  -- The proposal that `PrepareProposal` makes of a list of transactions is accepted by
  -- `ProcessProposal` and has only transactions of at most 262144 bytes, and it is the list itself
  -- where `ProcessProposal` accepts that.
  pub proposal_accepted :
      (txs : List Raw)
      → (process_proposal wire (some (prepare_proposal wire (some txs))) ≡ true)
        × All Fits (prepare_proposal wire (some txs))
        × (process_proposal wire (some txs) ≡ true → prepare_proposal wire (some txs) ≡ txs)
  unfolding process_proposal prepare_proposal
  proposal_accepted txs = (
    process_txs_accepts (prepare_txs wire txs) (prepare_txs-Fits txs),
    prepare_txs-Fits txs,
    process_txs_prepared txs,
  )
