-- ===== src/Crypto/Bytes/Hex.antt =====
-- Hexadecimal text and back.
use family_messenger_e2e.Base.{
  ℕ, zero, suc, ◌*◌, ◌/◌, ◌%◌, ◌<◌, ◌≡◌, refl, ap, Bool, true, false, Option, none, some, [], ◌∷◌,
  ◌++◌, length, take, drop, ◌==◌, ==_iff, arith, holds_below, test_of_holds_below, Text,
}
use family_messenger_e2e.Base.Outcome.{ok}
use family_messenger_e2e.Crypto.Bytes.{
  Bytes, AreBytes, hex_digit, bytes_to_hex, parse_hex_byte, hex_pairs, hex_to_bytes,
}

abbrev pub double : ℕ → ℕ
double zero = 0
double (suc n) = suc (suc (double n))

reads : Option ℕ → ℕ → Bool
reads none x = false
reads (some v) x = v == x

reads_sound : (o : Option ℕ) (x : ℕ) → reads o x ≡ true → o ≡ some x
unfolding reads
reads_sound none x h = cc
reads_sound (some v) x h = ground arith

hex_table :
    holds_below (λ x. reads (parse_hex_byte (hex_digit (x / 16) ∷ hex_digit (x % 16) ∷ [])) x) 256
    ≡ true
unfolding holds_below parse_hex_byte reads
hex_table = refl

parse-hex_digit :
    (x : ℕ) → x < 256 → parse_hex_byte (hex_digit (x / 16) ∷ hex_digit (x % 16) ∷ []) ≡ some x
parse-hex_digit x h = reads_sound _ x (test_of_holds_below _ 256 x hex_table h)

hex_pairs-bytes_to_hex : (b : Bytes) → AreBytes b → hex_pairs (bytes_to_hex b) ≡ ok b
unfolding hex_pairs bytes_to_hex
hex_pairs-bytes_to_hex [] h = refl
hex_pairs-bytes_to_hex (x ∷ b) h =
    rw (parse-hex_digit x h.0, hex_pairs) (rw (hex_pairs-bytes_to_hex b h.1, hex_pairs) refl)

pub length-bytes_to_hex : (b : Bytes) → length (bytes_to_hex b) ≡ 2 * length b
unfolding bytes_to_hex
length-bytes_to_hex [] = refl
length-bytes_to_hex (x ∷ b) = omega (arith, length-bytes_to_hex b)

even_length : (b : Bytes) → (length (bytes_to_hex b) % 2 == 0) ≡ true
even_length b = (==_iff _ 0).1 (omega (arith, length-bytes_to_hex b))

-- Every byte array is read back from its hexadecimal text.
pub hex_to_bytes-bytes_to_hex : (b : Bytes) → AreBytes b → hex_to_bytes (bytes_to_hex b) ≡ ok b
unfolding hex_to_bytes
hex_to_bytes-bytes_to_hex b h = rw (even_length b) (hex_pairs-bytes_to_hex b h)

pub take-bytes_to_hex :
    (n : ℕ) (b : Bytes) → take (double n) (bytes_to_hex b) ≡ bytes_to_hex (take n b)
unfolding bytes_to_hex
take-bytes_to_hex zero b = refl
take-bytes_to_hex (suc n) [] = refl
take-bytes_to_hex (suc n) (x ∷ b) =
    ap (λ (r : Text). hex_digit (x / 16) ∷ hex_digit (x % 16) ∷ r) (take-bytes_to_hex n b)

pub drop-bytes_to_hex :
    (n : ℕ) (b : Bytes) → drop (double n) (bytes_to_hex b) ≡ bytes_to_hex (drop n b)
unfolding bytes_to_hex
drop-bytes_to_hex zero b = refl
drop-bytes_to_hex (suc n) [] = refl
drop-bytes_to_hex (suc n) (x ∷ b) = drop-bytes_to_hex n b

pub bytes_to_hex-append : (a b : Bytes) → bytes_to_hex (a ++ b) ≡ bytes_to_hex a ++ bytes_to_hex b
unfolding bytes_to_hex
bytes_to_hex-append [] b = refl
bytes_to_hex-append (x ∷ a) b =
    ap (λ (r : Text). hex_digit (x / 16) ∷ hex_digit (x % 16) ∷ r) (bytes_to_hex-append a b)
