-- ===== src/Tests/Peers.antt =====
-- Messages of a peer at concrete inputs.
use aacp.Prelude.{ℕ, ◌≡◌, refl, [], ◌∷◌, ◌++◌}
use aacp.Prelude.Int.{pos}
use aacp.P2p.{Message, message_id}
use aacp.P2p.Accepted.{message_id-period}
use aacp.Tests.Fixtures.{alice}
use aacp.Tests.Slots.{slots}

abbrev beat : Message
beat = record {
  protocol = "/aacp/heartbeat/1.0.0";
  msg_type = "beat";
  sender = alice;
  seq = 3;
  timestamp = pos 990;
  payload = [];
  signature = alice ++ alice;
}

abbrev later_beat : Message
later_beat = record beat { seq = 515; timestamp = pos 995; payload = 1 ∷ [] }

message_id-period_example : message_id (slots {R = ℕ}) later_beat ≡ message_id (slots {R = ℕ}) beat
message_id-period_example = message_id-period (slots {R = ℕ}) beat later_beat 2 refl refl
