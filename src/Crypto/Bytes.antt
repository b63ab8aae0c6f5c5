-- ===== src/Crypto/Bytes.antt =====
-- Byte arrays and their text forms: web/src/crypto/bytes.ts. A `Uint8Array` is the list of its
-- bytes, each below 256.
pub mod Equality
pub mod Hex
pub mod Base64
use mathlib.Core.Option
use Prim.Native.Nat.{bit_or, bit_xor}
use family_messenger_e2e.Base.{
  ℕ, zero, suc, ◌+◌, ◌-◌, ◌*◌, ◌/◌, ◌%◌, ◌<◌, Text, Bool, true, false, ◌&&◌, ◌||◌, Option, none,
  some, List, [], ◌∷◌, ◌++◌, All, length, ltb, leb, ◌==◌, if◌then◌else◌,
}
use family_messenger_e2e.Base.Outcome.{
  Outcome, ok, err, odd_hex, invalid_hex, invalid_base64, ◌>>=◌,
}

abbrev pub Bytes : Type 0
Bytes = List ℕ

-- The range of a `Uint8Array`'s elements.
abbrev pub AreBytes : Bytes → Type 0
AreBytes b = All (λ x. x < 256) b

unfoldable pub concat : List Bytes → Bytes
concat [] = []
concat (p ∷ parts) = p ++ concat parts

-- The loop of `equal` over two arrays of one length.
unfoldable pub difference : ℕ → Bytes → Bytes → ℕ
difference d [] b = d
difference d (x ∷ a) [] = d
difference d (x ∷ a) (y ∷ b) = difference (bit_or d (bit_xor x y)) a b

unfoldable pub equal : Bytes → Bytes → Bool
unfolding difference
equal a b = if length a == length b then difference 0 a b == 0 else false

abbrev pub hex_digit : ℕ → ℕ
hex_digit v = if ltb v 10 then b'0' + v else b'a' + (v - 10)

-- `x.toString(16).padStart(2, '0')` of a byte, for each byte
unfoldable pub bytes_to_hex : Bytes → Text
bytes_to_hex [] = []
bytes_to_hex (x ∷ b) = hex_digit (x / 16) ∷ hex_digit (x % 16) ∷ bytes_to_hex b

unfoldable pub hex_value : ℕ → Option ℕ
hex_value c =
    if leb b'0' c && leb c b'9'
    then some (c - b'0')
    else if leb b'a' c && leb c b'f'
    then some (c - b'a' + 10)
    else if leb b'A' c && leb c b'F'
    then some (c - b'A' + 10)
    else none

-- White space and line terminators of the language, which `parseInt` and `trim` pass over.
unfoldable pub is_space : ℕ → Bool
is_space c =
    leb 9 c && leb c 13
    || c == 32
    || c == 160
    || c == 0x1680
    || leb 0x2000 c && leb c 0x200a
    || c == 0x2028
    || c == 0x2029
    || c == 0x202f
    || c == 0x205f
    || c == 0x3000
    || c == 0xfeff

unfoldable pub trim_start : Text → Text
unfolding is_space
trim_start [] = []
trim_start (c ∷ s) = let rest = trim_start s in if is_space c then rest else c ∷ s

-- The digits that `parseInt(s, 16)` reads up to the first character that is none; `none` is NaN.
parse_digits : Option ℕ → Text → Option ℕ
unfolding hex_value
parse_digits acc [] = acc
parse_digits acc (c ∷ s) = elim (hex_value c) [
  | none ↦ acc
  | some v ↦ parse_digits (some (elim acc [ none ↦ v | some n ↦ n * 16 + v ])) s
]

parse_prefixed : Text → Option ℕ
unfolding parse_digits
parse_prefixed (z ∷ x ∷ s) =
    if z == b'0' && (x == b'x' || x == b'X')
    then parse_digits none s
    else parse_digits none (z ∷ x ∷ s)
parse_prefixed s = parse_digits none s

abbrev negate_byte : ℕ → ℕ
negate_byte n = (256 - n % 256) % 256

-- The sign, and then what a `Uint8Array` keeps of the number: its remainder by 256.
parse_signed : Text → Option ℕ
unfolding parse_prefixed
parse_signed [] = none
parse_signed (c ∷ r) =
    if c == b'-'
    then Option.map negate_byte (parse_prefixed r)
    else if c == b'+'
    then Option.map (λ n. n % 256) (parse_prefixed r)
    else Option.map (λ n. n % 256) (parse_prefixed (c ∷ r))

-- `Number.parseInt(s, 16)`, as the byte that a `Uint8Array` keeps of it.
unfoldable pub parse_hex_byte : Text → Option ℕ
unfolding trim_start parse_signed
parse_hex_byte s = parse_signed (trim_start s)

-- The loop of `hexToBytes`, two characters a round.
unfoldable pub hex_pairs : Text → Outcome Bytes
unfolding parse_hex_byte
hex_pairs (c ∷ d ∷ s) = elim (parse_hex_byte (c ∷ d ∷ [])) [
  | none ↦ err invalid_hex
  | some v ↦ (do rest ← hex_pairs s; ok (v ∷ rest))
]
hex_pairs _ = ok []

unfoldable pub hex_to_bytes : Text → Outcome Bytes
unfolding hex_pairs
hex_to_bytes hex = if length hex % 2 == 0 then hex_pairs hex else err odd_hex
