-- ===== src/Codec.antt =====
-- What the program takes from outside its own code: the contents of a byte slice that the store or
-- a message carries, JSON, SHA-256 and Ed25519.
use aacp.Prelude.{◌≡◌, String, Bool, Option, some, Bytes}

-- `Raw` is a `[]byte` whose bytes the program mostly does not look into.
pub record Wire (Raw : Type 0) : Type 0 where
  pub of_bytes : Bytes → Raw
  pub to_bytes : Raw → Bytes
  -- crypto/sha256
  pub sha256 : Bytes → Bytes
  -- crypto/ed25519: public key, message, signature
  pub verify : Bytes → Bytes → Bytes → Bool
  -- whether `json.Unmarshal` accepts the bytes as an object
  pub is_object : Raw → Bool

-- A slice that was made of bytes has these bytes.
pub record WireLaw {Raw : Type 0} (w : Wire Raw) : Type 0 where
  pub bytes : (b : Bytes) → w.to_bytes (w.of_bytes b) ≡ b

-- package strings: `EqualFold` and `ToUpper`
pub record Strings : Type 0 where
  pub equal_fold : String → String → Bool
  pub to_upper : String → String

-- encoding/json at one type: `none` where `Marshal` or `Unmarshal` returns an error.
pub record Json (Raw A : Type 0) : Type 0 where
  pub marshal : A → Option Raw
  pub unmarshal : Raw → Option A

-- Decoding what was encoded gives the value back.
pub record JsonLaw {Raw A : Type 0} (j : Json Raw A) : Type 0 where
  pub back : (a : A) (r : Raw) → j.marshal a ≡ some r → j.unmarshal r ≡ some a
