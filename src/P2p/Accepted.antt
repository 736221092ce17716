-- ===== src/P2p/Accepted.antt =====
-- Which messages of a peer are accepted.
use aacp.Prelude.{arith, ◌<◌, ℕ, ◌+◌, ◌*◌, ◌%◌, ◌^◌, refl, ◌≡◌}
use aacp.Codec.{Wire}
use aacp.P2p.{Message, message_id}

-- The clock of a machine is far from the ends of int64: 2^62 seconds are more than 10^11 years.
abbrev IsClock : ℕ → Type 0
IsClock n = n < 2 ^ 62

module _ {Raw : Type 0} (wire : Wire Raw) where
  -- Two messages of one sender whose numbers are apart by a multiple of 256 have the same id, whatever
  -- else they carry.
  pub message_id-period :
      (m n : Message) (k : ℕ)
      → n.sender ≡ m.sender
      → n.seq ≡ m.seq + 256 * k
      → message_id wire n ≡ message_id wire m
  unfolding message_id
  message_id-period m n k from number =
      let low : n.seq % 2 ^ 8 ≡ m.seq % 2 ^ 8 = omega (arith, number) in rw (from, low) refl
