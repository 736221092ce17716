-- ===== src/Modules/CapUtxo/Rules.antt =====
-- internal/modules/caputxo/module.go: what the handlers compute, apart from the store.
use Prim.Native.Char.{char, IsScalar}
use Prim.Native.Nat.{Ordering, compare}
use aacp.Prelude.{
  ℕ, ◌≡◌, refl, ◌+◌, ◌%◌, ◌^◌, String, ◌<>◌, Bool, true, not, ◌&&◌, Option, none, some, List, [],
  ◌∷◌, if◌then◌else◌, ltb, leb, ◌==◌, str_eq, Bytes, length, take,
}
use aacp.Prelude.Int.{ℤ, pos, ltb_ℤ, leb_ℤ, eqb_ℤ}
use aacp.Prelude.Encode.{hex, utf8, decimal}
use aacp.Exec.{Error, app}
use aacp.Codec.{Wire}
use aacp.Types.{Event, TxEnvelope, contains, code_cap_utxo_base}
use aacp.App.Router.{Context}
use aacp.Modules.CapUtxo.Data.{CapabilityUtxo, MintPayload, DelegatePayload, unspent, spent}

-- uint32 arithmetic
abbrev pub u32 : ℕ → ℕ
u32 n = n % 2 ^ 32

-- `isSubset`: false for an empty subset
unfoldable pub all_contained : List String → List String → Bool
unfolding contains
all_contained [] superset = true
all_contained (s ∷ subset) superset = contains superset s && all_contained subset superset

unfoldable pub is_subset : List String → List String → Bool
unfolding all_contained
is_subset subset superset = not (length subset == 0) && all_contained subset superset

-- `string(b)` of a byte: the text of the one character with that number
abbrev character : (n : ℕ) (o : Ordering) → compare n 55296 ≡ o → String
character n Ordering.lt e = let scalar : IsScalar n = rw (e) tt in String.◌∷◌ (char n scalar) ""
character n Ordering.eq e = ""
character n Ordering.gt e = ""

abbrev string_of_byte : ℕ → String
string_of_byte b = character b (compare b 55296) refl

-- `splitPath`, over the bytes of a key: the parts before each slash, and a last part if it is not
-- empty; each byte of a part becomes a character
unfoldable pub split_from : String → Bytes → List String
split_from curr [] = if str_eq curr "" then [] else curr ∷ []
split_from curr (b ∷ k) =
    let parts = split_from "" k in
    let on = split_from (curr <> string_of_byte b) k in if b == 47 then curr ∷ parts else on

unfoldable pub split_path : String → List String
unfolding split_from
split_path k = split_from "" (utf8 k)

-- `parts[len(parts)-1]`, where there is one
unfoldable pub last : List String → Option String
last [] = none
last (x ∷ []) = some x
last (x ∷ y ∷ xs) = last (y ∷ xs)

-- the events of `expireAtTime`
abbrev pub expired_event : String → Event
expired_event id = record { kind = "CapabilityExpired"; attributes = ("utxo_id", id) ∷ [] }

abbrev pub bad_payload : Error
bad_payload = app (code_cap_utxo_base + 1)

abbrev pub mismatch : Error
mismatch = app (code_cap_utxo_base + 2)

abbrev pub not_delegatable : Error
not_delegatable = app (code_cap_utxo_base + 42)

module _ {Raw : Type 0} (wire : Wire Raw) where
  -- `utxoID` and `delegatedUTXOID`
  unfoldable pub utxo_id : Bytes → String → ℕ → String
  utxo_id issuer cap_type nonce =
      hex
        (take 8 (wire.sha256 (utf8 (hex issuer <> ("|" <> (cap_type <> ("|" <> decimal nonce)))))))

  unfoldable pub delegated_utxo_id : String → Bytes → ℕ → String
  delegated_utxo_id parent_id delegator nonce = hex (
      take 8 (wire.sha256 (utf8 (parent_id <> ("|" <> (hex delegator <> ("|" <> decimal nonce)))))))

  -- the record that `mint` saves
  unfoldable pub minted : Context → TxEnvelope Raw → MintPayload → CapabilityUtxo
  minted ctx env p = record {
    utxo_id = utxo_id env.sender p.cap_type env.nonce;
    issuer = env.sender;
    holder = p.holder;
    cap_type = p.cap_type;
    cap_version = p.cap_version;
    scopes = p.scopes;
    issued_at = ctx.unix;
    expires_at = p.expires_at;
    max_uses = p.max_uses;
    used_count = 0;
    delegatable = p.delegatable;
    max_depth = p.max_depth;
    cur_depth = 0;
    parent_utxo = "";
    status = unspent;
    holder_sig = [];
  }

  -- the record that `delegate` saves
  unfoldable pub delegated :
      Context → TxEnvelope Raw → DelegatePayload → CapabilityUtxo → CapabilityUtxo
  delegated ctx env p parent = record {
    utxo_id = delegated_utxo_id parent.utxo_id env.sender env.nonce;
    issuer = parent.issuer;
    holder = p.new_holder;
    cap_type = parent.cap_type;
    cap_version = parent.cap_version;
    scopes = p.scopes;
    issued_at = ctx.unix;
    expires_at = if eqb_ℤ p.expires_at (pos 0) then parent.expires_at else p.expires_at;
    max_uses = if p.max_uses == 0 then parent.max_uses else p.max_uses;
    used_count = 0;
    delegatable = parent.delegatable;
    max_depth = parent.max_depth;
    cur_depth = u32 (parent.cur_depth + 1);
    parent_utxo = parent.utxo_id;
    status = unspent;
    holder_sig = [];
  }

-- what one use makes of a capability
unfoldable pub use_once : CapabilityUtxo → CapabilityUtxo
use_once u =
    let used = u32 (u.used_count + 1) in
    record u {
      used_count = used;
      status = if ltb 0 u.max_uses && leb u.max_uses used then spent else u.status;
    }

unfoldable pub has_expired : Context → CapabilityUtxo → Bool
has_expired ctx u = ltb_ℤ (pos 0) u.expires_at && leb_ℤ u.expires_at ctx.unix

-- the test by which `expireAtTime` passes over a capability
unfoldable pub is_due : ℤ → CapabilityUtxo → Bool
is_due now u =
    str_eq u.status unspent && (not (eqb_ℤ u.expires_at (pos 0)) && leb_ℤ u.expires_at now)
