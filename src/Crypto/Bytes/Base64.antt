-- ===== src/Crypto/Bytes/Base64.antt =====
-- Standard base64 with padding: `b64encode` and `b64decode` of bytes.ts, over the platform's `btoa`
-- and `atob`.
use family_messenger_e2e.Base.{
  ℕ, ◌+◌, ◌-◌, ◌*◌, ◌/◌, ◌%◌, ◌<◌, ◌≡◌, ◌≢◌, refl, Text, Bool, true, false, not, ◌&&◌, ◌||◌, Option,
  none, some, [], ◌∷◌, filter, ltb, leb, ◌==◌, if◌then◌else◌, holds_below, test_of_holds_below,
  arith,
}
use family_messenger_e2e.Base.Outcome.{Outcome, ok, err, invalid_base64, ◌>>=◌}
use family_messenger_e2e.Crypto.Bytes.{Bytes, AreBytes}

abbrev pub pad : ℕ
pad = b'='

unfoldable pub sextet_char : ℕ → ℕ
sextet_char v =
    if ltb v 26
    then b'A' + v
    else if ltb v 52
    then b'a' + (v - 26)
    else if ltb v 62
    then b'0' + (v - 52)
    else if v == 62
    then b'+'
    else b'/'

unfoldable pub sextet_value : ℕ → Option ℕ
sextet_value c =
    if leb b'A' c && leb c b'Z'
    then some (c - b'A')
    else if leb b'a' c && leb c b'z'
    then some (c - b'a' + 26)
    else if leb b'0' c && leb c b'9'
    then some (c - b'0' + 52)
    else if c == b'+'
    then some 62
    else if c == b'/'
    then some 63
    else none

unfoldable pub b64encode : Bytes → Text
b64encode (x ∷ y ∷ z ∷ b) =
    sextet_char (x / 4)
    ∷ sextet_char (x % 4 * 16 + y / 16)
    ∷ sextet_char (y % 16 * 4 + z / 64)
    ∷ sextet_char (z % 64)
    ∷ b64encode b
b64encode (x ∷ y ∷ []) =
    sextet_char (x / 4) ∷ sextet_char (x % 4 * 16 + y / 16) ∷ sextet_char (y % 16 * 4) ∷ pad ∷ []
b64encode (x ∷ []) = sextet_char (x / 4) ∷ sextet_char (x % 4 * 16) ∷ pad ∷ pad ∷ []
b64encode [] = []

-- `atob` passes over ASCII white space.
abbrev pub is_ascii_space : ℕ → Bool
is_ascii_space c = c == 9 || c == 10 || c == 12 || c == 13 || c == 32

-- Of a text whose length is a multiple of 4, one or two `=` at the end are dropped.
unfoldable pub unpadded : Text → Text
unpadded (a ∷ b ∷ c ∷ d ∷ []) =
    if d == pad then (if c == pad then a ∷ b ∷ [] else a ∷ b ∷ c ∷ []) else a ∷ b ∷ c ∷ d ∷ []
unpadded (a ∷ b ∷ c ∷ d ∷ s) = a ∷ b ∷ c ∷ d ∷ unpadded s
unpadded s = s

infixl 5 ◌>>?◌
abbrev ◌>>?◌ : Option ℕ → (ℕ → Outcome Bytes) → Outcome Bytes
none >>? f = err invalid_base64
some v >>? f = f v

-- Four characters are three bytes; of a shorter last group the spare bits are dropped.
unfoldable pub decode_groups : Text → Outcome Bytes
decode_groups (a ∷ b ∷ c ∷ d ∷ s) =
    let rest = decode_groups s in
    sextet_value a >>? λ p. sextet_value b >>? λ q. sextet_value c >>? λ r. sextet_value d >>? λ t.
    (do more ← rest; ok ((p * 4 + q / 16) ∷ (q % 16 * 16 + r / 4) ∷ (r % 4 * 64 + t) ∷ more))
decode_groups (a ∷ b ∷ c ∷ []) = sextet_value a >>? λ p. sextet_value b >>? λ q.
    sextet_value c >>? λ r. ok ((p * 4 + q / 16) ∷ (q % 16 * 16 + r / 4) ∷ [])
decode_groups (a ∷ b ∷ []) =
    sextet_value a >>? λ p. sextet_value b >>? λ q. ok ((p * 4 + q / 16) ∷ [])
decode_groups (a ∷ []) = err invalid_base64
decode_groups [] = ok []

unfoldable pub b64decode : Text → Outcome Bytes
unfolding unpadded decode_groups
b64decode s = decode_groups (unpadded (filter (λ c. not (is_ascii_space c)) s))

-- A character of the alphabet is read back, and is no space and no padding.
plain : ℕ → Bool
plain v = elim (sextet_value (sextet_char v)) [
  | none ↦ false
  | some w ↦ w == v && not (is_ascii_space (sextet_char v)) && not (sextet_char v == pad)
]

plain_table : holds_below plain 64 ≡ true
unfolding holds_below plain sextet_char sextet_value
plain_table = refl

plain_sextet : (v : ℕ) → v < 64 → plain v ≡ true
plain_sextet v h = test_of_holds_below plain 64 v plain_table h

value_char : (v : ℕ) → v < 64 → sextet_value (sextet_char v) ≡ some v
unfolding plain
value_char v h = ground (arith, plain_sextet v h)

space_char : (v : ℕ) → v < 64 → not (is_ascii_space (sextet_char v)) ≡ true
unfolding plain
space_char v h = ground (arith, plain_sextet v h)

pad_char : (v : ℕ) → v < 64 → (sextet_char v == pad) ≡ false
unfolding plain
pad_char v h = ground (arith, plain_sextet v h)

unpadded_more :
    (a b c d : ℕ) (s : Text) → s ≢ [] → unpadded (a ∷ b ∷ c ∷ d ∷ s) ≡ a ∷ b ∷ c ∷ d ∷ unpadded s
unfolding unpadded
unpadded_more a b c d [] h = absurd (h refl)
unpadded_more a b c d (e ∷ s) h = refl

b64encode-ne-nil : (x : ℕ) (b : Bytes) → b64encode (x ∷ b) ≢ []
unfolding b64encode
b64encode-ne-nil x [] = cc
b64encode-ne-nil x (y ∷ []) = cc
b64encode-ne-nil x (y ∷ z ∷ b) = cc

-- The text holds no space, so `atob` passes over nothing.
spaceless :
    (b : Bytes) → AreBytes b → filter (λ c. not (is_ascii_space c)) (b64encode b) ≡ b64encode b
unfolding filter b64encode
spaceless [] h = refl
spaceless (x ∷ []) h =
    rw (space_char (x / 4) (omega arith)) (rw (space_char (x % 4 * 16) (omega arith)) refl)
spaceless (x ∷ y ∷ []) h = rw (space_char (x / 4) (omega arith)) (
    rw (space_char (x % 4 * 16 + y / 16) (omega arith))
      (rw (space_char (y % 16 * 4) (omega arith)) refl))
spaceless (x ∷ y ∷ z ∷ b) h = rw (space_char (x / 4) (omega arith)) (
    rw (space_char (x % 4 * 16 + y / 16) (omega arith)) (
      rw (space_char (y % 16 * 4 + z / 64) (omega arith))
        (rw (space_char (z % 64) (omega arith)) (rw (spaceless b h.1.1.1) refl))))

first : (x y : ℕ) → x < 256 → y < 256 → x / 4 * 4 + (x % 4 * 16 + y / 16) / 16 ≡ x
first x y h k = omega arith

middle :
    (x y z : ℕ)
    → y < 256
    → z < 256
    → (x % 4 * 16 + y / 16) % 16 * 16 + (y % 16 * 4 + z / 64) / 4 ≡ y
middle x y z h k = omega arith

last : (y z : ℕ) → z < 256 → (y % 16 * 4 + z / 64) % 4 * 64 + z % 64 ≡ z
last y z h = omega arith

group_of_three :
    (x y z : ℕ) (s : Text) (b : Bytes)
    → x < 256
    → y < 256
    → z < 256
    → decode_groups s ≡ ok b
    → decode_groups (
        sextet_char (x / 4)
        ∷ sextet_char (x % 4 * 16 + y / 16)
        ∷ sextet_char (y % 16 * 4 + z / 64)
        ∷ sextet_char (z % 64)
        ∷ s)
      ≡ ok (x ∷ y ∷ z ∷ b)
unfolding decode_groups
group_of_three x y z s b hx hy hz h = rw (value_char (x / 4) (omega arith)) (
    rw (value_char (x % 4 * 16 + y / 16) (omega arith)) (
      rw (value_char (y % 16 * 4 + z / 64) (omega arith)) (
        rw (value_char (z % 64) (omega arith))
          (rw h (rw (first x y hx hy, middle x y z hy hz, last y z hz))))))

group_of_two :
    (x y : ℕ)
    → x < 256
    → y < 256
    → decode_groups
        (sextet_char (x / 4) ∷ sextet_char (x % 4 * 16 + y / 16) ∷ sextet_char (y % 16 * 4) ∷ [])
      ≡ ok (x ∷ y ∷ [])
unfolding decode_groups
group_of_two x y hx hy =
    let e : (x % 4 * 16 + y / 16) % 16 * 16 + y % 16 * 4 / 4 ≡ y = omega arith in
    rw (value_char (x / 4) (omega arith)) (
      rw (value_char (x % 4 * 16 + y / 16) (omega arith))
        (rw (value_char (y % 16 * 4) (omega arith)) (rw (first x y hx hy, e))))

group_of_one :
    (x : ℕ)
    → x < 256
    → decode_groups (sextet_char (x / 4) ∷ sextet_char (x % 4 * 16) ∷ []) ≡ ok (x ∷ [])
unfolding decode_groups
group_of_one x hx =
    let e : x / 4 * 4 + x % 4 * 16 / 16 ≡ x = omega arith in
    rw (value_char (x / 4) (omega arith)) (rw (value_char (x % 4 * 16) (omega arith)) (rw e))

groups-b64encode : (b : Bytes) → AreBytes b → decode_groups (unpadded (b64encode b)) ≡ ok b
unfolding b64encode
groups-b64encode [] h = unfold unpadded decode_groups in refl
groups-b64encode (x ∷ []) h = unfold unpadded in group_of_one x h.0
groups-b64encode (x ∷ y ∷ []) h =
    unfold unpadded in rw (pad_char (y % 16 * 4) (omega arith)) (group_of_two x y h.0 h.1.0)
groups-b64encode (x ∷ y ∷ z ∷ []) h =
    unfold unpadded in
    rw (pad_char (z % 64) (omega arith))
      (group_of_three x y z [] [] h.0 h.1.0 h.1.1.0 (unfold decode_groups in refl))
groups-b64encode (x ∷ y ∷ z ∷ w ∷ b) h =
    rw (unpadded_more _ _ _ _ (b64encode (w ∷ b)) (b64encode-ne-nil w b)) (
      group_of_three x y z (unpadded (b64encode (w ∷ b))) (w ∷ b) h.0 h.1.0 h.1.1.0
        (groups-b64encode (w ∷ b) h.1.1.1))

-- Every byte array is read back from its base64 text.
pub b64decode-b64encode : (b : Bytes) → AreBytes b → b64decode (b64encode b) ≡ ok b
unfolding b64decode
b64decode-b64encode b h = rw (spaceless b h) (groups-b64encode b h)
