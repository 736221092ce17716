-- ===== src/State/Nonce.antt =====
-- internal/state/nonce.go: the account nonces, eight big-endian bytes under the hex of the key.
pub mod Laws
use aacp.Prelude.{ℕ, Option, none, some, if◌then◌else◌, ◌==◌, Bytes, length}
use aacp.Prelude.Encode.{hex, big_endian, of_big_endian}
use aacp.State.Engine.{Store, get, set}
use aacp.State.Keys.{nonce_key}
use aacp.Codec.{Wire}

module _ {Raw : Type 0} (w : Wire Raw) where
  -- the number in the bytes that the store holds; 0 where there are none, or not eight of them
  abbrev pub nonce_in : Option Raw → ℕ
  nonce_in none = 0
  nonce_in (some raw) = if length (w.to_bytes raw) == 8 then of_big_endian 0 (w.to_bytes raw) else 0

  unfoldable pub get_nonce : Store Raw → Bytes → ℕ
  get_nonce s pub_key = nonce_in (get s (nonce_key (hex pub_key)))

  unfoldable pub set_nonce : Store Raw → Bytes → ℕ → Store Raw
  set_nonce s pub_key n = set s (nonce_key (hex pub_key)) (w.of_bytes (big_endian 8 n))
