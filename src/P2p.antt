-- ===== src/P2p.antt =====
-- internal/p2p/message.go and ratelimit.go: messages between peers, and the limits of a protocol.
pub mod Accepted
use aacp.Prelude.{
  ℕ, ◌*◌, ◌%◌, ◌^◌, String, ◌<>◌, Bool, not, ◌||◌, Option, none, some, List, [], ◌∷◌, ◌++◌,
  if◌then◌else◌, Bytes, length, take, ◌==◌,
}
use aacp.Prelude.Int.{ℤ, pos, ltb_ℤ, add64, sub64}
use aacp.Prelude.Encode.{hex, utf8, decimal, show_int}
use aacp.Exec.{Result, ok, err, plain}
use aacp.Codec.{Wire}
use aacp.State.Engine.{lookup}

pub record Message : Type 0 where
  pub protocol : String
  pub msg_type : String
  pub sender : Bytes
  pub seq : ℕ
  pub timestamp : ℤ
  pub payload : Bytes
  pub signature : Bytes

-- `preimage` of `SignBytes`
unfoldable pub preimage : Message → String
unfolding show_int
preimage m =
    m.protocol
    <> ("|"
        <> (m.msg_type
            <> ("|"
                <> (hex m.sender
                    <> ("|"
                        <> (decimal m.seq
                            <> ("|" <> (show_int m.timestamp <> ("|" <> hex m.payload)))))))))

module _ {Raw : Type 0} (wire : Wire Raw) where
  unfoldable pub sign_bytes : Message → Bytes
  unfolding preimage
  sign_bytes m = wire.sha256 (utf8 (preimage m))

  -- `ID`, which hashes the low byte of the number of the message
  unfoldable pub message_id : Message → String
  message_id m = hex (take 8 (wire.sha256 (m.sender ++ (m.seq % 2 ^ 8 ∷ []))))

  -- `Verify`, at the time `now` in seconds
  unfoldable pub verify_message : ℤ → Message → Result (Unit {0})
  unfolding sign_bytes add64 sub64
  verify_message now m =
      if ltb_ℤ m.timestamp (sub64 now (pos 30)) || ltb_ℤ (add64 now (pos 30)) m.timestamp
      then err plain
      else if not (length m.sender == 32)
      then err plain
      else if not (length m.signature == 64)
      then err plain
      else if not (wire.verify m.sender (sign_bytes m) m.signature)
      then err plain
      else ok tt

pub record PeerLimit : Type 0 where
  pub bytes_per_sec : ℕ
  pub msg_per_sec : ℕ

abbrev pub limit : ℕ → ℕ → PeerLimit
limit bytes msgs = record { bytes_per_sec = bytes; msg_per_sec = msgs }

abbrev pub default_limits : List (String × PeerLimit)
default_limits =
    ("/aacp/consensus/1.0.0", limit (5 * 1024 * 1024) 100)
    ∷ ("/aacp/mempool/1.0.0", limit (2 * 1024 * 1024) 500)
    ∷ ("/aacp/relay/1.0.0", limit (10 * 1024 * 1024) 1000)
    ∷ ("/aacp/heartbeat/1.0.0", limit (100 * 1024) 50)
    ∷ ("/aacp/sync/1.0.0", limit (50 * 1024 * 1024) 50)
    ∷ ("/aacp/discovery/1.0.0", limit (100 * 1024) 10)
    ∷ []

pub record RateLimiter : Type 0 where
  pub max_bytes_per_sec : ℕ
  pub max_msg_per_sec : ℕ
  pub per_protocol : List (String × PeerLimit)

abbrev pub new_rate_limiter : RateLimiter
new_rate_limiter = record {
  max_bytes_per_sec = 50 * 1024 * 1024;
  max_msg_per_sec = 2000;
  per_protocol = default_limits;
}

abbrev pub limit_or_default : Option PeerLimit → PeerLimit
limit_or_default none = limit (128 * 1024) 20
limit_or_default (some l) = l

unfoldable pub limit_for : RateLimiter → String → PeerLimit
unfolding lookup
limit_for r protocol = limit_or_default (lookup protocol r.per_protocol)
