-- ===== src/Crypto/Bytes/Equality.antt =====
-- What the comparison and the joining of byte arrays compute.
use mathlib.Core.List.{append_assoc}
use Prim.Native.Nat.{bit_or, bit_xor}
use family_messenger_e2e.Base.{ℕ, ◌≡◌, refl, ◌↔◌, true, List, [], ◌∷◌, ◌++◌, length, arith}
use family_messenger_e2e.Crypto.Bits.{eq_of_bit_xor, zeros_of_bit_or, bit_xor_self}
use family_messenger_e2e.Crypto.Bytes.{Bytes, concat, difference, equal}

difference-zero : (d : ℕ) (a b : Bytes) → difference d a b ≡ 0 → d ≡ 0
unfolding difference
difference-zero d [] b h = h
difference-zero d (x ∷ a) [] h = h
difference-zero d (x ∷ a) (y ∷ b) h =
    (zeros_of_bit_or d (bit_xor x y) (difference-zero (bit_or d (bit_xor x y)) a b h)).0

difference_sound : (d : ℕ) (a b : Bytes) → length a ≡ length b → difference d a b ≡ 0 → a ≡ b
unfolding difference
difference_sound d [] [] e h = refl
difference_sound d [] (y ∷ b) e h = absurd (omega arith)
difference_sound d (x ∷ a) [] e h = absurd (omega arith)
difference_sound d (x ∷ a) (y ∷ b) e h =
    let r = bit_or d (bit_xor x y) in
    let parts = zeros_of_bit_or d (bit_xor x y) (difference-zero r a b h) in
    cc (eq_of_bit_xor x y parts.1, difference_sound r a b (omega arith) h)

difference_self : (a : Bytes) → difference 0 a a ≡ 0
unfolding difference
difference_self [] = refl
difference_self (x ∷ a) = rw (bit_xor_self x) (difference_self a)

-- The constant-time comparison answers true exactly for equal arrays, whatever their lengths.
pub equal_iff : (a b : Bytes) → (equal a b ≡ true) ↔ (a ≡ b)
unfolding equal
equal_iff a b = (
  λ h. difference_sound 0 a b (ground arith) (ground arith),
  λ e. rw e (ground (arith, difference_self b)),
)

pub concat-append : (xs ys : List Bytes) → concat (xs ++ ys) ≡ concat xs ++ concat ys
unfolding concat
concat-append [] ys = refl
concat-append (x ∷ xs) ys = simp (concat-append xs ys, append_assoc)
