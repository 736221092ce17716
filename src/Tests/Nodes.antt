-- ===== src/Tests/Nodes.antt =====
-- An election at concrete inputs.
use aacp.Prelude.{ℕ, ◌+◌, ◌*◌, ◌/◌, ◌==◌, String, ltb, some, none, List, [], ◌∷◌}
use aacp.Prelude.Int.{pos, pos_part}
use aacp.App.Lawful.{LawfulModule}
use aacp.Modules.Node.{node}
use aacp.Modules.Node.Data.{Floats, HardwareSpec, NodeRegistration, EpochPayload, Codec}
use aacp.Modules.Node.Lawful.{node-LawfulModule}
use aacp.Tests.Fixtures.{alice, bob}
use aacp.Tests.Slots.{Slot, kept, slots, json_of, asks}

-- a toy arithmetic with three digits
abbrev thousandths : Floats ℕ
thousandths = record {
  constant = λ n d. 1000 * n / d;
  of_int = λ i. 1000 * pos_part i;
  to_int = λ x. pos (x / 1000);
  add = λ x y. x + y;
  mul = λ x y. x * y / 1000;
  div = λ x y. 1000 * x / y;
  greater = λ x y. ltb y x;
  same = λ x y. x == y;
}

abbrev codec : Codec (Slot (NodeRegistration ℕ)) ℕ
codec = record {
  node = json_of (λ n. n) some;
  register = λ raw. none;
  rotate = λ raw. none;
  epoch = asks (λ n. some (record { max_validators = n }));
  ban = λ raw. none;
}

abbrev large : HardwareSpec
large = record {
  cpu_cores = 32;
  ram_mb = 131072;
  storage_gb = 4096;
  bandwidth_mbps = 1000;
  arch = "amd64";
  gpu = "";
}

abbrev first_node : NodeRegistration ℕ
first_node = record {
  pub_key = alice;
  tier = "T0_VALIDATOR";
  moniker = "first";
  endpoint = "";
  region = "";
  hardware = large;
  deposit_tx_id = "";
  registered_at = pos 1;
  signature = [];
  status = "REGISTERED";
  uptime_30d = 1000;
  reputation = 800;
  deposit = "5000";
}

abbrev registry : List (String × Slot (NodeRegistration ℕ))
registry =
    ("node/r/07", kept first_node)
    ∷ ("node/r/08", kept (record first_node { pub_key = bob; deposit = "9000" }))
    ∷ ("node/r/09", kept (record first_node { tier = "T4_EDGE" }))
    ∷ []

abbrev one_seat : EpochPayload
one_seat = record { max_validators = 1 }

node-LawfulModule_example : LawfulModule slots (node slots thousandths codec)
node-LawfulModule_example = node-LawfulModule slots thousandths codec
