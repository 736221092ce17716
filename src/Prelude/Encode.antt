-- ===== src/Prelude/Encode.antt =====
-- The parts of package fmt, encoding/hex and encoding/binary that the program uses.
use Prim.Native.Nat.{ℕ, zero, suc, ◌+◌, ◌-◌, ◌*◌, ◌/◌, ◌%◌, ◌^◌, ◌<◌}
use Prim.Native.Char.{code}
use Prim.Native.String.append
use Prim.Native.String.{String, ◌++◌ as ◌<>◌, len, char_at}
use mathlib.Core.Path.{◌≡◌, refl, sym, ap, ◌∙◌}
use mathlib.Core.Bool.{Bool, true, ◌&&◌}
use mathlib.Core.List.{[], ◌∷◌, ◌++◌}
use native.Mathlib.Omega.{arith}
use aacp.Prelude.Tests.{ltb, ◌==◌, if◌then◌else◌}
use aacp.Prelude.Lists.{Bytes, All, length}
use aacp.Prelude.Int.{ℤ, pos, negsuc}

abbrev utf8_char : ℕ → Bytes
utf8_char c =
    if ltb c 128
    then c ∷ []
    else if ltb c 2048
    then (192 + c / 64) ∷ (128 + c % 64) ∷ []
    else if ltb c 65536
    then (224 + c / 4096) ∷ (128 + c / 64 % 64) ∷ (128 + c % 64) ∷ []
    else (240 + c / 262144) ∷ (128 + c / 4096 % 64) ∷ (128 + c / 64 % 64) ∷ (128 + c % 64) ∷ []

-- `[]byte(s)`
unfoldable pub utf8 : String → Bytes
utf8 String.[] = []
utf8 (String.◌∷◌ c s) = utf8_char (code c) ++ utf8 s

abbrev pub digit : ℕ → String
digit n = String.◌∷◌ (char_at "0123456789abcdef" n) ""

-- `hex.EncodeToString`, and `%x` of a byte slice
unfoldable pub hex : Bytes → String
hex [] = ""
hex (b ∷ bs) = digit (b / 16) <> (digit (b % 16) <> hex bs)

-- `%d` with fuel for the digits; 20 of them hold every uint64.
unfoldable pub decimal_fuel : ℕ → ℕ → String
decimal_fuel zero n = ""
decimal_fuel (suc f) n =
    let rest = decimal_fuel f (n / 10) in if ltb n 10 then digit n else rest <> digit (n % 10)

unfoldable pub decimal : ℕ → String
unfolding decimal_fuel
decimal n = decimal_fuel 20 n

-- `%x` of a number, with fuel for the digits; 16 of them hold every uint64.
unfoldable pub hex_fuel : ℕ → ℕ → String
hex_fuel zero n = ""
hex_fuel (suc f) n =
    let rest = hex_fuel f (n / 16) in if ltb n 16 then digit n else rest <> digit (n % 16)

unfoldable pub hex_number : ℕ → String
unfolding hex_fuel
hex_number n = hex_fuel 16 n

-- `%0wd`: zeros up to a width of `w`
unfoldable pub zeros : ℕ → String
zeros zero = ""
zeros (suc n) = "0" <> zeros n

unfoldable pub decimal_padded : ℕ → ℕ → String
unfolding decimal zeros
decimal_padded w n = zeros (w - len (decimal n)) <> decimal n

-- `binary.BigEndian.PutUint64`, over `n` bytes
unfoldable pub big_endian : ℕ → ℕ → Bytes
big_endian zero v = []
big_endian (suc n) v = (v / 256 ^ n % 256) ∷ big_endian n v

-- `binary.BigEndian.Uint64`
unfoldable pub of_big_endian : ℕ → Bytes → ℕ
of_big_endian acc [] = acc
of_big_endian acc (b ∷ bs) = of_big_endian (acc * 256 + b) bs

-- Eight bytes carry every uint64: reading back what was written gives the number.
pub of_big_endian-big_endian : (v : ℕ) → v < 2 ^ 64 → of_big_endian 0 (big_endian 8 v) ≡ v
unfolding of_big_endian big_endian
of_big_endian-big_endian v h = omega arith

pub length-big_endian : (v : ℕ) → length (big_endian 8 v) ≡ 8
unfolding big_endian
length-big_endian v = omega arith

-- `hex.DecodeString` on what `hex` writes, to tell the encodings of two slices apart.
abbrev undigit : ℕ → ℕ
undigit c = if ltb c 58 then c - 48 else c - 87

unhex : String → Bytes
unhex String.[] = []
unhex (String.◌∷◌ a String.[]) = []
unhex (String.◌∷◌ a (String.◌∷◌ b s)) = (undigit (code a) * 16 + undigit (code b)) ∷ unhex s

digit_cons : (n : ℕ) (s : String) → digit n <> s ≡ String.◌∷◌ (char_at "0123456789abcdef" n) s
digit_cons n s =
    append.cons (char_at "0123456789abcdef" n) "" s
    ∙ ap (String.◌∷◌ (char_at "0123456789abcdef" n)) (append.nil s)

-- every digit below `n` is read back
digits_ok : ℕ → Bool
digits_ok zero = true
digits_ok (suc n) = undigit (code (char_at "0123456789abcdef" n)) == n && digits_ok n

digits_ok_sound :
    (k n : ℕ) → digits_ok k ≡ true → n < k → undigit (code (char_at "0123456789abcdef" n)) ≡ n
unfolding digits_ok
digits_ok_sound zero n h lt = absurd (omega arith)
digits_ok_sound (suc k) n h lt = ground (arith, digits_ok_sound k n)

digits_table : digits_ok 16 ≡ true
unfolding digits_ok
digits_table = refl

undigit-digit : (n : ℕ) → n < 16 → undigit (code (char_at "0123456789abcdef" n)) ≡ n
undigit-digit n h = digits_ok_sound 16 n digits_table h

abbrev pub IsBytes : Bytes → Type 0
IsBytes = All (λ b. b < 256)

unhex-hex : (b : Bytes) → IsBytes b → unhex (hex b) ≡ b
unfolding hex unhex
unhex-hex [] h = refl
unhex-hex (x ∷ b) h = rw (digit_cons (x / 16)) (
    rw (digit_cons (x % 16)) (
      cc (
        undigit-digit (x / 16) (omega arith),
        undigit-digit (x % 16) (omega arith),
        unhex-hex b h.1,
        whole x,
      )))
  where
    whole : (n : ℕ) → n / 16 * 16 + n % 16 ≡ n
    whole n = omega arith

-- Two slices with one encoding are equal.
pub hex-injective : (a b : Bytes) → IsBytes a → IsBytes b → hex a ≡ hex b → a ≡ b
hex-injective a b ha hb e = sym (unhex-hex a ha) ∙ ap unhex e ∙ unhex-hex b hb

-- `%d` at an int64
unfoldable pub show_int : ℤ → String
show_int (pos n) = decimal n
show_int (negsuc n) = "-" <> decimal (n + 1)
