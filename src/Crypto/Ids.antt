-- ===== src/Crypto/Ids.antt =====
-- UUIDs as text and as 16 bytes: web/src/crypto/ids.ts.
pub mod RoundTrip
use family_messenger_e2e.Base.{
  ℕ, ◌+◌, Text, Bool, true, false, ◌&&◌, ◌||◌, not, List, [], ◌∷◌, ◌++◌, map, length, take, drop,
  replicate, filter, leb, ◌==◌, if◌then◌else◌,
}
use family_messenger_e2e.Base.Outcome.{Outcome, err, ok, invalid_uuid, uuid_must_be_16_bytes}
use family_messenger_e2e.Crypto.Bytes.{Bytes, bytes_to_hex, hex_to_bytes}

-- `toLowerCase`, of which the pattern below sees the ASCII letters only: no other character
-- becomes a hexadecimal digit or a dash.
unfoldable pub to_lower : ℕ → ℕ
to_lower c = if leb b'A' c && leb c b'Z' then c + 32 else c

unfoldable pub is_lower_hex : ℕ → Bool
is_lower_hex c = leb b'0' c && leb c b'9' || leb b'a' c && leb c b'f'

abbrev pub dash : ℕ
dash = b'-'

-- `UUID_RE`: true stands for `[0-9a-f]`, false for `-`.
abbrev pub uuid_pattern : List Bool
uuid_pattern =
    replicate 8 true
    ++ false
      ∷ (replicate 4 true
          ++ false
            ∷ (replicate 4 true ++ false ∷ (replicate 4 true ++ false ∷ (replicate 12 true ++ []))))

unfoldable pub matches : List Bool → Text → Bool
matches [] [] = true
matches [] (c ∷ s) = false
matches (h ∷ p) [] = false
matches (true ∷ p) (c ∷ s) = is_lower_hex c && matches p s
matches (false ∷ p) (c ∷ s) = c == dash && matches p s

unfoldable pub is_uuid : Text → Bool
is_uuid s = matches uuid_pattern (map to_lower s)

-- `s.replace(/-/g, '')`
abbrev pub without_dashes : Text → Text
without_dashes s = filter (λ c. not (c == dash)) s

unfoldable pub uuid_to_bytes : Text → Outcome Bytes
uuid_to_bytes id =
    if is_uuid id then hex_to_bytes (without_dashes (map to_lower id)) else err invalid_uuid

-- The slices of the hexadecimal text, joined by dashes.
unfoldable pub dashed : Text → Text
dashed h =
    take 8 h
    ++ dash
      ∷ (take 4 (drop 8 h)
          ++ dash ∷ (take 4 (drop 12 h) ++ dash ∷ (take 4 (drop 16 h) ++ dash ∷ drop 20 h)))

unfoldable pub bytes_to_uuid : Bytes → Outcome Text
bytes_to_uuid b = if length b == 16 then ok (dashed (bytes_to_hex b)) else err uuid_must_be_16_bytes
