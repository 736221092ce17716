-- ===== src/State/Nonce/Laws.antt =====
-- Reading a nonce after a write to the store.
use mathlib.Core.Bool.{false≢true}
use aacp.Prelude.{
  ℕ, ◌<◌, ◌^◌, String, ◌≡◌, ◌≢◌, false, str_eq, eq_iff, eq_refl, Bytes, sym, ap, ◌∙◌, if◌then◌else◌,
  equal_bytes, equal_bytes_refl, equal_bytes-eq, Bool-cases, inl, inr,
}
use aacp.Prelude.Encode.{hex, big_endian, of_big_endian-big_endian, length-big_endian, IsBytes}
use aacp.Codec.{Wire, WireLaw}
use aacp.State.Engine.{Store, set}
use aacp.State.Engine.Laws.{get-set}
use aacp.State.Keys.{nonce_key}
use aacp.State.Keys.Laws.{nonce_key-injective}
use aacp.State.Nonce.{get_nonce, set_nonce}

apart : (p q : Bytes) → equal_bytes p q ≡ false → p ≢ q
apart p q other e = false≢true (sym other ∙ ap (equal_bytes p) (sym e) ∙ equal_bytes_refl p)

module _ {Raw : Type 0} (w : Wire Raw) where
  -- A write under another key leaves the nonce of an account alone.
  pub get_nonce-set :
      (s : Store Raw) (k : String) (v : Raw) (p : Bytes)
      → str_eq k (nonce_key (hex p)) ≡ false
      → get_nonce w (set s k v) p ≡ get_nonce w s p
  unfolding get_nonce
  get_nonce-set s k v p h = rw get-set (rw h)

  -- The nonce that is written for an account is read back.
  pub get_nonce-set_nonce :
      WireLaw w
      → (s : Store Raw) (p : Bytes) (n : ℕ) → n < 2 ^ 64
      → get_nonce w (set_nonce w s p n) p ≡ n
  unfolding get_nonce set_nonce
  get_nonce-set_nonce law s p n h = rw get-set (
      rw (eq_refl (nonce_key (hex p)))
        (rw (law.bytes (big_endian 8 n)) (rw (length-big_endian n) (of_big_endian-big_endian n h))))

  -- It is written for that account alone.
  pub get_nonce-set_nonce_ne :
      (s : Store Raw) (p q : Bytes) (n : ℕ)
      → IsBytes p
      → IsBytes q
      → p ≢ q
      → get_nonce w (set_nonce w s p n) q ≡ get_nonce w s q
  unfolding set_nonce
  get_nonce-set_nonce_ne s p q n hp hq ne =
      elim (Bool-cases (str_eq (nonce_key (hex p)) (nonce_key (hex q)))) [
        | inl same ↦ absurd (ne (nonce_key-injective p q hp hq ((eq_iff _ _).0 same)))
        | inr apart ↦ get_nonce-set s (nonce_key (hex p)) (w.of_bytes (big_endian 8 n)) q apart
      ]

  -- Let a slice hold the bytes it was made of. After a uint64 is written as the nonce of one
  -- account, that account has it as its nonce, and each other account the nonce that it had.
  pub nonce_isolated :
      WireLaw w
      → (s : Store Raw) (p q : Bytes) (n : ℕ) → n < 2 ^ 64
      → IsBytes p
      → IsBytes q
      → get_nonce w (set_nonce w s p n) q ≡ (if equal_bytes p q then n else get_nonce w s q)
  nonce_isolated law s p q n h hp hq = elim (Bool-cases (equal_bytes p q)) [
    | inl same ↦ rw same (rw (← equal_bytes-eq p q same) (get_nonce-set_nonce law s p n h))
    | inr other ↦ rw other (get_nonce-set_nonce_ne s p q n hp hq (apart p q other))
  ]
