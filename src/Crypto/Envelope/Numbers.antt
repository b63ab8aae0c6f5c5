-- ===== src/Crypto/Envelope/Numbers.antt =====
-- The big-endian numbers that a `DataView` writes and reads.
use family_messenger_e2e.Base.{
  ℕ, zero, suc, ◌+◌, ◌*◌, ◌/◌, ◌%◌, ◌<◌, ◌≡◌, refl, ◌∙◌, [], ◌∷◌, ◌++◌, length, length-append,
  arith,
}
use family_messenger_e2e.Crypto.Bytes.{Bytes}

-- setUint16, setUint32, setBigUint64: the low bytes of the number, `w` of them.
unfoldable pub put_uint : ℕ → ℕ → Bytes
put_uint zero n = []
put_uint (suc w) n = put_uint w (n / 256) ++ (n % 256) ∷ []

unfoldable pub get_uint_from : ℕ → Bytes → ℕ
get_uint_from acc [] = acc
get_uint_from acc (x ∷ b) = get_uint_from (acc * 256 + x) b

-- getUint16, getUint32, getBigUint64 of the bytes of the field
unfoldable pub get_uint : Bytes → ℕ
unfolding get_uint_from
get_uint b = get_uint_from 0 b

pub length-put_uint : (w n : ℕ) → length (put_uint w n) ≡ w
unfolding put_uint
length-put_uint zero n = refl
length-put_uint (suc w) n =
    omega
      (arith, length-append (put_uint w (n / 256)) ((n % 256) ∷ []), length-put_uint w (n / 256))

get_uint_from-append :
    (acc : ℕ) (a : Bytes) (x : ℕ) → get_uint_from acc (a ++ x ∷ []) ≡ get_uint_from acc a * 256 + x
unfolding get_uint_from
get_uint_from-append acc [] x = refl
get_uint_from-append acc (y ∷ a) x = get_uint_from-append (acc * 256 + y) a x

-- `limit w` is 256 to the power `w`.
abbrev pub limit : ℕ → ℕ
limit zero = 1
limit (suc w) = limit w * 256

-- A number below the field's limit is read back.
pub get_uint-put_uint : (w n : ℕ) → n < limit w → get_uint (put_uint w n) ≡ n
unfolding get_uint put_uint
get_uint-put_uint zero n h = omega arith
get_uint-put_uint (suc w) n h =
    get_uint_from-append 0 (put_uint w (n / 256)) (n % 256)
    ∙ omega (arith, get_uint-put_uint w (n / 256) (omega arith))
