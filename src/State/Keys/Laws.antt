-- ===== src/State/Keys/Laws.antt =====
-- Keys under different prefixes, and of different accounts, are different.
use Prim.Native.String.{count}
use text.Mathlib.TextLemmas.{append_assoc, append_inj, append_cancel_left}
use mathlib.Core.Bool.{false≢true}
use aacp.Prelude.{String, ◌<>◌, ◌≡◌, false, str_eq, eq_iff, Bytes, Bool-cases, inl, inr, sym, ◌∙◌}
use aacp.Prelude.Encode.{hex, hex-injective, IsBytes}
use aacp.State.Keys.{nonce_key, prefix_acc_nonce}

-- Two prefixes of one length that differ keep whatever follows them apart.
pub prefix_apart :
    (p q s t : String) → count p ≡ count q → str_eq p q ≡ false → str_eq (p <> s) (q <> t) ≡ false
prefix_apart p q s t n d = elim (Bool-cases (str_eq (p <> s) (q <> t))) [
  | inr apart ↦ apart
  | inl same ↦
      let e = (append_inj {s₁ = p} {s₂ = q} ((eq_iff (p <> s) (q <> t)).0 same) n).0 in
      absurd (false≢true (sym d ∙ (eq_iff p q).1 e))
]

-- The same where the prefixes are longer, by the first parts of them.
pub prefixes_apart :
    (p a q b s t : String)
    → count p ≡ count q
    → str_eq p q ≡ false
    → str_eq ((p <> a) <> s) ((q <> b) <> t) ≡ false
prefixes_apart p a q b s t n d =
    rw (append_assoc p a s) (rw (append_assoc q b t) (prefix_apart p q (a <> s) (b <> t) n d))

pub nonce_key-injective :
    (a b : Bytes) → IsBytes a → IsBytes b → nonce_key (hex a) ≡ nonce_key (hex b) → a ≡ b
unfolding nonce_key
nonce_key-injective a b ha hb e =
    hex-injective a b ha hb (append_cancel_left prefix_acc_nonce (hex a) (hex b) e)
