-- ===== src/Examples/Toy.antt =====
-- A library of primitives that meets the documented laws, for the runs. It is no cipher: the
-- ciphertext is the plaintext and a tag of zeros, and a public key is its private key.
use family_messenger_e2e.Base.{
  ℕ, zero, suc, ◌<◌, ◌+◌, ◌-◌, ◌≡◌, refl, sym, ◌∙◌, ap, true, [], ◌∷◌, ◌++◌, length, length-append,
  take, take-append, replicate, ◌==◌, arith, if◌then◌else◌,
}
use family_messenger_e2e.Base.Outcome.{Outcome, ok, err, authentication_failed}
use family_messenger_e2e.Crypto.Bytes.{Bytes, AreBytes}
use family_messenger_e2e.Crypto.Primitives.{Library, IsStandard}

unfoldable pub sums : Bytes → Bytes → Bytes
sums [] b = []
sums (x ∷ a) [] = []
sums (x ∷ a) (y ∷ b) = (x + y) ∷ sums a b

sums_comm : (a b : Bytes) → sums a b ≡ sums b a
unfolding sums
sums_comm [] [] = refl
sums_comm [] (y ∷ b) = refl
sums_comm (x ∷ a) [] = refl
sums_comm (x ∷ a) (y ∷ b) = ground (arith, sums_comm a b)

abbrev checked : ℕ → Bytes → Bytes → Outcome Bytes
checked n b out = if length b == n then ok out else err authentication_failed

abbrev pub toy : Library
toy = record {
  ed25519_get_public_key = λ s. checked 32 s s;
  ed25519_sign = λ m s. checked 32 s (replicate 64 0);
  ed25519_verify = λ sig m p. ok true;
  x25519_get_public_key = λ k. checked 32 k k;
  x25519_get_shared_secret = λ a b. ok (1 ∷ sums a b);
  xchacha20poly1305_encrypt = λ k n a m. checked 24 n (m ++ replicate 16 0);
  xchacha20poly1305_decrypt = λ k n a c. ok (take (length c - 16) c);
  hkdf_sha256 = λ ss salt info n. replicate n 7;
  sha256 = λ m. replicate 32 9;
  argon2id = λ password salt params n. replicate n 5;
}

pub checked-eq-ok : (n : ℕ) (b out p : Bytes) → checked n b out ≡ ok p → (length b ≡ n) × (out ≡ p)
checked-eq-ok n b out p h = ground arith

ciphertext_size :
    (k n a m c : Bytes)
    → toy.xchacha20poly1305_encrypt k n a m ≡ ok c
    → (length c ≡ length m + 16) × (length n ≡ 24)
ciphertext_size k n a m c h =
    let (size, e) = checked-eq-ok 24 n (m ++ replicate 16 0) c h in
    (omega (arith, ap length e, length-append m (replicate 16 0)), size)

decrypts :
    (k n a m c : Bytes)
    → toy.xchacha20poly1305_encrypt k n a m ≡ ok c
    → toy.xchacha20poly1305_decrypt k n a c ≡ ok m
decrypts k n a m c h =
    let (size, e) = checked-eq-ok 24 n (m ++ replicate 16 0) c h in
    let body : length m ≡ length c - 16 = omega (arith, ciphertext_size k n a m c h) in
    ap (λ x. ok (take (length c - 16) x)) (sym e)
    ∙ ap ok (take-append (length c - 16) m (replicate 16 0) body)

agreement :
    (a b pa pb : Bytes)
    → toy.x25519_get_public_key a ≡ ok pa
    → toy.x25519_get_public_key b ≡ ok pb
    → toy.x25519_get_shared_secret a pb ≡ toy.x25519_get_shared_secret b pa
agreement a b pa pb h k =
    let (m, e) = checked-eq-ok 32 a a pa h in
    let (n, f) = checked-eq-ok 32 b b pb k in
    ap (λ s. ok (1 ∷ s)) (ap (sums a) (sym f) ∙ sums_comm a b ∙ ap (sums b) e)

public_size : (k p : Bytes) → toy.x25519_get_public_key k ≡ ok p → length p ≡ 32
public_size k p h = let (n, e) = checked-eq-ok 32 k k p h in sym (ap length e) ∙ n

verifies :
    (s p m sig : Bytes)
    → toy.ed25519_get_public_key s ≡ ok p
    → toy.ed25519_sign m s ≡ ok sig
    → (toy.ed25519_verify sig m p ≡ ok true) × (length sig ≡ 64) × (length p ≡ 32)
verifies s p m sig h k =
    let (n, e) = checked-eq-ok 32 s (replicate 64 0) sig k in
    (refl, sym (ap length e), public_size s p h)

pub toy-IsStandard : IsStandard toy
toy-IsStandard = record {
  public_size = public_size;
  agreement = agreement;
  ciphertext_size = ciphertext_size;
  decrypts = decrypts;
  verifies = verifies;
}

pub AreBytes-replicate : (n x : ℕ) → x < 256 → AreBytes (replicate n x)
AreBytes-replicate zero x h = tt
AreBytes-replicate (suc n) x h = (h, AreBytes-replicate n x h)
