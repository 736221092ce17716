-- ===== src/Modules/Node/Rules.antt =====
-- internal/modules/node/module.go: the hardware of a tier, and the ranking of the validators.
use Prim.Native.Char.{code}
use aacp.Prelude.{
  ℕ, ◌+◌, ◌*◌, ◌-◌, ◌^◌, ◌%◌, String, Bool, not, ◌&&◌, ◌||◌, Option, none, some, List, [], ◌∷◌,
  if◌then◌else◌, str_eq, ltb, leb, ◌==◌, take,
}
use aacp.Prelude.Int.{pos, of_bits64}
use aacp.Prelude.Text.{str_ltb}
use aacp.Prelude.Encode.{hex}
use aacp.Codec.{Json}
use aacp.Types.{TxEnvelope}
use aacp.App.Router.{Context}
use aacp.Modules.Node.Data.{Floats, HardwareSpec, NodeRegistration, RegisterPayload, EpochPayload}

abbrev pub needs : ℕ → ℕ → ℕ → ℕ → HardwareSpec
needs cores ram storage bandwidth = record {
  cpu_cores = cores;
  ram_mb = ram;
  storage_gb = storage;
  bandwidth_mbps = bandwidth;
  arch = "";
  gpu = "";
}

unfoldable pub minimum_hardware : String → HardwareSpec
minimum_hardware tier =
    if str_eq tier "T0_VALIDATOR"
    then needs 16 (64 * 1024) (2 * 1024) 1000
    else if str_eq tier "T1_FULL"
    then needs 8 (32 * 1024) 1024 500
    else if str_eq tier "T2_ARCHIVE"
    then needs 8 (64 * 1024) (10 * 1024) 200
    else if str_eq tier "T3_RELAY"
    then needs 4 (8 * 1024) 500 500
    else if str_eq tier "T4_EDGE"
    then needs 2 (4 * 1024) 100 100
    else needs 1 1024 32 10

-- `validateHardware` returns no error
unfoldable pub validate_hardware : String → HardwareSpec → Bool
unfolding minimum_hardware
validate_hardware tier hw =
    let req = minimum_hardware tier in
    not (
      ltb hw.cpu_cores req.cpu_cores
      || (ltb hw.ram_mb req.ram_mb
          || (ltb hw.storage_gb req.storage_gb || ltb hw.bandwidth_mbps req.bandwidth_mbps)))

-- the bits of `intPart` after the digits at the front of a text
unfoldable pub int_part : ℕ → String → ℕ
int_part n String.[] = n
int_part n (String.◌∷◌ c s) =
    let rest = int_part ((n * 10 + (code c - 48)) % 2 ^ 64) s in
    if leb 48 (code c) && leb (code c) 57 then rest else n

-- `MaxValidators`, or its default
unfoldable pub max_or_default : EpochPayload → ℕ
max_or_default p = if p.max_validators == 0 then 21 else p.max_validators

module _ {F : Type 0} (floats : Floats F) where
  unfoldable pub parse_float : String → F
  unfolding int_part
  parse_float s = floats.of_int (of_bits64 (int_part 0 s))

  -- the registration that `registerNode` saves
  unfoldable pub new_node :
      Context → {Raw : Type 0} → TxEnvelope Raw → RegisterPayload → NodeRegistration F
  new_node ctx env p = record {
    pub_key = env.sender;
    tier = p.tier;
    moniker = p.moniker;
    endpoint = p.endpoint;
    region = p.region;
    hardware = p.hardware;
    deposit_tx_id = p.deposit_tx_id;
    registered_at = ctx.unix;
    signature = p.signature;
    status = "REGISTERED";
    uptime_30d = floats.constant 1 1;
    reputation = 500;
    deposit = if str_eq p.deposit "" then "0" else p.deposit;
  }

  -- the tests of the first loop of `electValidators`
  unfoldable pub is_eligible : NodeRegistration F → Bool
  is_eligible n =
      not (ltb n.reputation 500) && (str_eq n.tier "T0_VALIDATOR" || str_eq n.tier "T1_FULL")

  abbrev pub keep :
      Option (NodeRegistration F) → List (NodeRegistration F) → List (NodeRegistration F)
  keep none rest = rest
  keep (some n) rest = if is_eligible n then n ∷ rest else rest

  unfoldable pub eligible_nodes :
      {Raw : Type 0}
      → Json Raw (NodeRegistration F)
      → List (String × Raw)
      → List (NodeRegistration F)
  unfolding is_eligible
  eligible_nodes json [] = []
  eligible_nodes json ((k, raw) ∷ entries) = keep (json.unmarshal raw) (eligible_nodes json entries)

  -- `maxDep` after the loop
  unfoldable pub max_deposit : F → List (NodeRegistration F) → F
  unfolding parse_float
  max_deposit high [] = high
  max_deposit high (n ∷ nodes) =
      max_deposit
        (if floats.greater (parse_float n.deposit) high then parse_float n.deposit else high) nodes

  -- `maxDep`, which is not 0
  unfoldable pub deposit_scale : List (NodeRegistration F) → F
  unfolding max_deposit
  deposit_scale nodes =
      let high = max_deposit (floats.constant 0 1) nodes in
      if floats.same high (floats.constant 0 1) then floats.constant 1 1 else high

  unfoldable pub score_node : F → NodeRegistration F → F
  unfolding parse_float
  score_node scale n =
      floats.add
        (floats.add (floats.mul (floats.div (parse_float n.deposit) scale) (floats.constant 5 10)) (
          floats.mul (floats.div (floats.of_int (pos n.reputation)) (floats.constant 1000 1))
            (floats.constant 3 10)))
        (floats.mul n.uptime_30d (floats.constant 2 10))

  pub record Candidate : Type 0 where
    pub node : NodeRegistration F
    pub score : F

  unfoldable pub score_all : F → List (NodeRegistration F) → List Candidate
  unfolding score_node
  score_all scale [] = []
  score_all scale (n ∷ nodes) =
      record { node = n; score = score_node scale n } ∷ score_all scale nodes

  -- the order of `sort.Slice`: the higher score first, then the smaller key
  unfoldable pub goes_before : Candidate → Candidate → Bool
  goes_before a b =
      if floats.same a.score b.score
      then str_ltb (hex a.node.pub_key) (hex b.node.pub_key)
      else floats.greater a.score b.score

  unfoldable pub insert_candidate : Candidate → List Candidate → List Candidate
  unfolding goes_before
  insert_candidate x [] = x ∷ []
  insert_candidate x (y ∷ ys) =
      let rest = insert_candidate x ys in if goes_before y x then y ∷ rest else x ∷ y ∷ ys

  unfoldable pub sort_candidates : List Candidate → List Candidate
  unfolding insert_candidate
  sort_candidates [] = []
  sort_candidates (x ∷ xs) = insert_candidate x (sort_candidates xs)

  -- `cands` after the sort and the cut
  unfoldable pub elected : EpochPayload → List (NodeRegistration F) → List Candidate
  unfolding max_or_default sort_candidates score_all deposit_scale
  elected p nodes =
      take (max_or_default p) (sort_candidates (score_all (deposit_scale nodes) nodes))
