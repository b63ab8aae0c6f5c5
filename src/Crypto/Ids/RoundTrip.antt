-- ===== src/Crypto/Ids/RoundTrip.antt =====
-- Writing 16 bytes as a UUID and reading them back.
use family_messenger_e2e.Base.{
  ℕ, zero, suc, ◌+◌, ◌*◌, ◌/◌, ◌%◌, ◌<◌, ◌≤◌, ◌≡◌, refl, ap, ◌∙◌, sym, Text, Bool, true, false,
  ◌&&◌, not, List, [], ◌∷◌, ◌++◌, map, length, length-take, length-drop, take, drop, take_all,
  drop-drop, take-append-drop, replicate, filter, filter-append, ◌==◌, ==_iff, arith, All-take,
  All-drop, holds_below, test_of_holds_below,
}
use mathlib.Core.List.{append-nil, map-append}
use family_messenger_e2e.Base.Outcome.{ok, ◌>>=◌}
use family_messenger_e2e.Crypto.Bytes.{Bytes, AreBytes, hex_digit, bytes_to_hex}
use family_messenger_e2e.Crypto.Bytes.Hex.{
  double, take-bytes_to_hex, drop-bytes_to_hex, bytes_to_hex-append, hex_to_bytes-bytes_to_hex,
  length-bytes_to_hex,
}
use family_messenger_e2e.Crypto.Ids.{
  to_lower, is_lower_hex, dash, uuid_pattern, matches, is_uuid, without_dashes, uuid_to_bytes,
  dashed, bytes_to_uuid,
}

-- A character that `toLowerCase` keeps, of the pattern's class, and no dash.
plain : ℕ → Bool
plain c = to_lower c == c && (is_lower_hex c && not (c == dash))

plain_table : holds_below (λ v. plain (hex_digit v)) 16 ≡ true
unfolding holds_below plain to_lower is_lower_hex
plain_table = refl

plain_digit : (v : ℕ) → v < 16 → plain (hex_digit v) ≡ true
plain_digit v h = test_of_holds_below (λ v. plain (hex_digit v)) 16 v plain_table h

all_plain : Text → Bool
all_plain [] = true
all_plain (c ∷ s) = plain c && all_plain s

plain_hex : (b : Bytes) → AreBytes b → all_plain (bytes_to_hex b) ≡ true
unfolding all_plain bytes_to_hex
plain_hex [] h = refl
plain_hex (x ∷ b) h =
    rw (plain_digit (x / 16) (omega arith))
      (rw (plain_digit (x % 16) (omega arith)) (plain_hex b h.1))

map-to_lower_plain : (s : Text) → all_plain s ≡ true → map to_lower s ≡ s
unfolding all_plain plain
map-to_lower_plain [] h = refl
map-to_lower_plain (c ∷ s) h =
    cc ((==_iff (to_lower c) c).0 (ground arith), map-to_lower_plain s (ground arith))

filter_plain : (s : Text) → all_plain s ≡ true → without_dashes s ≡ s
unfolding all_plain plain filter
filter_plain [] h = refl
filter_plain (c ∷ s) h = ground (arith, filter_plain s)

matches_plain :
    (n : ℕ) (p : List Bool) (s t : Text)
    → all_plain s ≡ true
    → length s ≡ n
    → matches (replicate n true ++ p) (s ++ t) ≡ matches p t
unfolding all_plain plain matches
matches_plain zero p [] t h e = refl
matches_plain zero p (c ∷ s) t h e = absurd (omega arith)
matches_plain (suc n) p [] t h e = absurd (omega arith)
matches_plain (suc n) p (c ∷ s) t h e =
    ground (arith, matches_plain n p s t (ground arith) (omega arith))

matches-dash : (p : List Bool) (t : Text) → matches (false ∷ p) (dash ∷ t) ≡ matches p t
unfolding matches
matches-dash p t = refl

without_dash : (t : Text) → without_dashes (dash ∷ t) ≡ without_dashes t
unfolding filter
without_dash t = refl

-- The text of five groups.
abbrev pub joined : Text → Text → Text → Text → Text → Text
joined g h i j k = g ++ dash ∷ (h ++ dash ∷ (i ++ dash ∷ (j ++ dash ∷ (k ++ []))))

record IsGroup (n : ℕ) (s : Text) : Type 0 where
  plain_text : all_plain s ≡ true
  sized : length s ≡ n

module _ {g h i j k : Text} (pg : IsGroup 8 g) (ph : IsGroup 4 h) (pi : IsGroup 4 i)
    (pj : IsGroup 4 j) (pk : IsGroup 12 k) where
  matches-joined : matches uuid_pattern (joined g h i j k) ≡ true
  matches-joined =
      matches_plain 8 _ g _ pg.plain_text pg.sized
      ∙ matches-dash _ _
      ∙ matches_plain 4 _ h _ ph.plain_text ph.sized
      ∙ matches-dash _ _
      ∙ matches_plain 4 _ i _ pi.plain_text pi.sized
      ∙ matches-dash _ _
      ∙ matches_plain 4 _ j _ pj.plain_text pj.sized
      ∙ matches-dash _ _
      ∙ matches_plain 12 _ k _ pk.plain_text pk.sized
      ∙ (unfold matches in refl)

  without_dashes-joined : without_dashes (joined g h i j k) ≡ g ++ (h ++ (i ++ (j ++ (k ++ []))))
  without_dashes-joined =
      simp
        (
          filter-append,
          without_dash,
          filter_plain g pg.plain_text,
          filter_plain h ph.plain_text,
          filter_plain i pi.plain_text,
          filter_plain j pj.plain_text,
          filter_plain k pk.plain_text,
        )
        (unfold filter in refl)

  lower-joined : map to_lower (joined g h i j k) ≡ joined g h i j k
  lower-joined =
      simp
        (
          map-append,
          map-to_lower_plain g pg.plain_text,
          map-to_lower_plain h ph.plain_text,
          map-to_lower_plain i pi.plain_text,
          map-to_lower_plain j pj.plain_text,
          map-to_lower_plain k pk.plain_text,
        )
        (unfold to_lower in refl)

-- Bytes `i` to `i + n` of an id, as text.
abbrev pub group : ℕ → ℕ → Bytes → Text
group i n b = bytes_to_hex (take n (drop i b))

group-IsGroup :
    (i n m : ℕ) (b : Bytes)
    → AreBytes b
    → length b ≡ 16
    → i + n ≤ 16
    → 2 * n ≡ m
    → IsGroup m (group i n b)
group-IsGroup i n m b h e le d = record {
  plain_text = plain_hex _ (All-take (λ x. x < 256) n _ (All-drop (λ x. x < 256) i b h));
  sized =
      omega
        (arith, length-bytes_to_hex (take n (drop i b)), length-take n (drop i b), length-drop i b);
}

slice : (i n : ℕ) (b : Bytes) → take (double n) (drop (double i) (bytes_to_hex b)) ≡ group i n b
slice i n b = rw drop-bytes_to_hex (take-bytes_to_hex n (drop i b))

five :
    (b : Bytes)
    → length b ≡ 16
    → take 4 b
        ++ (take 2 (drop 4 b)
            ++ (take 2 (drop 6 b) ++ (take 2 (drop 8 b) ++ (take 6 (drop 10 b) ++ []))))
      ≡ b
five b e =
    simp (append-nil, take_all 6 (drop 10 b) (omega (arith, length-drop 10 b)))
      (rw (← drop-drop 8 2 b) (
        rw (take-append-drop 2 (drop 8 b)) (
          rw (← drop-drop 6 2 b) (
            rw (take-append-drop 2 (drop 6 b)) (
              rw (← drop-drop 4 2 b)
                (rw (take-append-drop 2 (drop 4 b)) (take-append-drop 4 b)))))))

abbrev pub groups : Bytes → Text
groups b = joined (group 0 4 b) (group 4 2 b) (group 6 2 b) (group 8 2 b) (group 10 6 b)

dashed-bytes_to_hex : (b : Bytes) → length b ≡ 16 → dashed (bytes_to_hex b) ≡ groups b
unfolding dashed
dashed-bytes_to_hex b e =
    let g : take 8 (bytes_to_hex b) ≡ group 0 4 b = slice 0 4 b in
    let h : take 4 (drop 8 (bytes_to_hex b)) ≡ group 4 2 b = slice 4 2 b in
    let i : take 4 (drop 12 (bytes_to_hex b)) ≡ group 6 2 b = slice 6 2 b in
    let j : take 4 (drop 16 (bytes_to_hex b)) ≡ group 8 2 b = slice 8 2 b in
    let k : drop 20 (bytes_to_hex b) ≡ group 10 6 b =
      drop-bytes_to_hex 10 b
      ∙ ap bytes_to_hex (sym (take_all 6 (drop 10 b) (omega (arith, length-drop 10 b)))) in
    rw (g, h, i, j, k) (rw append-nil)

joined_bytes :
    (b : Bytes)
    → length b ≡ 16
    → group 0 4 b ++ (group 4 2 b ++ (group 6 2 b ++ (group 8 2 b ++ (group 10 6 b ++ []))))
      ≡ bytes_to_hex b
unfolding bytes_to_hex
joined_bytes b e = simp bytes_to_hex-append at (ap bytes_to_hex (five b e))

module _ (b : Bytes) (h : AreBytes b) (e : length b ≡ 16) where
  abbrev g₀ : IsGroup 8 (group 0 4 b)
  g₀ = group-IsGroup 0 4 8 b h e (omega arith) (omega arith)

  abbrev g₁ : IsGroup 4 (group 4 2 b)
  g₁ = group-IsGroup 4 2 4 b h e (omega arith) (omega arith)

  abbrev g₂ : IsGroup 4 (group 6 2 b)
  g₂ = group-IsGroup 6 2 4 b h e (omega arith) (omega arith)

  abbrev g₃ : IsGroup 4 (group 8 2 b)
  g₃ = group-IsGroup 8 2 4 b h e (omega arith) (omega arith)

  abbrev g₄ : IsGroup 12 (group 10 6 b)
  g₄ = group-IsGroup 10 6 12 b h e (omega arith) (omega arith)

  pub bytes_to_uuid_lem : bytes_to_uuid b ≡ ok (groups b)
  unfolding bytes_to_uuid
  bytes_to_uuid_lem = rw ((==_iff (length b) 16).1 e) (ap ok (dashed-bytes_to_hex b e))

  groups-is_uuid : is_uuid (groups b) ≡ true
  unfolding is_uuid
  groups-is_uuid = rw (lower-joined g₀ g₁ g₂ g₃ g₄) (matches-joined g₀ g₁ g₂ g₃ g₄)

  -- 16 bytes written as a UUID are read back.
  pub uuid_to_bytes-groups : uuid_to_bytes (groups b) ≡ ok b
  unfolding uuid_to_bytes
  uuid_to_bytes-groups = rw groups-is_uuid (
      rw (lower-joined g₀ g₁ g₂ g₃ g₄) (
        rw (without_dashes-joined g₀ g₁ g₂ g₃ g₄)
          (rw (joined_bytes b e) (hex_to_bytes-bytes_to_hex b h))))

-- A canonical id: the text of 16 bytes.
pub record IsIdOf (id : Text) (b : Bytes) : Type 0 where
  pub in_range : AreBytes b
  pub sized : length b ≡ 16
  pub written : id ≡ groups b

module _ {id : Text} {b : Bytes} (c : IsIdOf id b) where
  pub uuid_to_bytes_id : uuid_to_bytes id ≡ ok b
  uuid_to_bytes_id = rw c.written (uuid_to_bytes-groups b c.in_range c.sized)

  pub bytes_to_uuid_id : bytes_to_uuid b ≡ ok id
  bytes_to_uuid_id = rw c.written (bytes_to_uuid_lem b c.in_range c.sized)

-- Any 16 bytes, written as a UUID and read back, are the same bytes.
pub uuid_to_bytes-bytes_to_uuid :
    (b : Bytes) → AreBytes b → length b ≡ 16 → (bytes_to_uuid b >>= uuid_to_bytes) ≡ ok b
uuid_to_bytes-bytes_to_uuid b h e = rw (bytes_to_uuid_lem b h e) (uuid_to_bytes-groups b h e)
