-- ===== src/Crypto/Primitives.antt =====
-- web/src/crypto/primitives.ts over the libraries @noble and hash-wasm, which the program does not
-- implement: their functions are fields of a record, and what their documentation promises is a
-- record of laws.
use Prim.Native.Nat.{bit_or}
use family_messenger_e2e.Base.{
  ℕ, ◌+◌, ◌≡◌, Text, Bool, true, false, [], ◌∷◌, length, ◌==◌, ==_iff, refl, if◌then◌else◌,
}
use family_messenger_e2e.Base.Outcome.{Outcome, ok, err, low_order_point, ◌>>=◌}
use family_messenger_e2e.Crypto.Bytes.{Bytes}

pub record KdfParams : Type 0 where
  pub t : ℕ
  pub m : ℕ
  pub p : ℕ

-- The calls that the wrappers make. All but the hashes throw on arguments of a wrong length.
pub record Library : Type 0 where
  pub ed25519_get_public_key : Bytes → Outcome Bytes
  pub ed25519_sign : Bytes → Bytes → Outcome Bytes
  pub ed25519_verify : Bytes → Bytes → Bytes → Outcome Bool
  pub x25519_get_public_key : Bytes → Outcome Bytes
  pub x25519_get_shared_secret : Bytes → Bytes → Outcome Bytes
  pub xchacha20poly1305_encrypt : Bytes → Bytes → Bytes → Bytes → Outcome Bytes
  pub xchacha20poly1305_decrypt : Bytes → Bytes → Bytes → Bytes → Outcome Bytes
  pub hkdf_sha256 : Bytes → Bytes → Bytes → ℕ → Bytes
  pub sha256 : Bytes → Bytes
  pub argon2id : Text → Bytes → KdfParams → ℕ → Bytes

-- What the libraries document: key and tag sizes, that decryption undoes encryption, that both
-- sides of a key agreement get one secret, and that a signature verifies under its own key.
pub record IsStandard (l : Library) : Type 0 where
  pub public_size : (k p : Bytes) → l.x25519_get_public_key k ≡ ok p → length p ≡ 32
  pub agreement :
      (a b pa pb : Bytes)
      → l.x25519_get_public_key a ≡ ok pa
      → l.x25519_get_public_key b ≡ ok pb
      → l.x25519_get_shared_secret a pb ≡ l.x25519_get_shared_secret b pa
  pub ciphertext_size :
      (k n a m c : Bytes)
      → l.xchacha20poly1305_encrypt k n a m ≡ ok c
      → (length c ≡ length m + 16) × (length n ≡ 24)
  pub decrypts :
      (k n a m c : Bytes)
      → l.xchacha20poly1305_encrypt k n a m ≡ ok c
      → l.xchacha20poly1305_decrypt k n a c ≡ ok m
  pub verifies :
      (s p m sig : Bytes)
      → l.ed25519_get_public_key s ≡ ok p
      → l.ed25519_sign m s ≡ ok sig
      → (l.ed25519_verify sig m p ≡ ok true) × (length sig ≡ 64) × (length p ≡ 32)

abbrev pub nonce_size : ℕ
nonce_size = 24

abbrev pub tag_size : ℕ
tag_size = 16

abbrev pub key_size : ℕ
key_size = 32

-- The loop `acc |= b` over a shared secret.
unfoldable pub or_all : ℕ → Bytes → ℕ
or_all acc [] = acc
or_all acc (b ∷ ss) = or_all (bit_or acc b) ss

module _ (l : Library) where
  unfoldable pub sign : Bytes → Bytes → Outcome Bytes
  sign seed message = l.ed25519_sign message seed

  -- An exception of the library is caught, and means false.
  unfoldable pub verify : Bytes → Bytes → Bytes → Bool
  verify public_key message signature =
      if length signature == 64
      then (if length public_key == 32
          then (elim (l.ed25519_verify signature message public_key) [ ok b ↦ b | err e ↦ false ])
          else false)
      else false

  unfoldable pub ed25519_public : Bytes → Outcome Bytes
  ed25519_public seed = l.ed25519_get_public_key seed

  unfoldable pub x25519_public : Bytes → Outcome Bytes
  x25519_public priv = l.x25519_get_public_key priv

  unfoldable pub x25519_shared : Bytes → Bytes → Outcome Bytes
  x25519_shared priv public_key = do
    ss ← l.x25519_get_shared_secret priv public_key
    if or_all 0 ss == 0 then err low_order_point else ok ss

  unfoldable pub aead_encrypt : Bytes → Bytes → Bytes → Bytes → Outcome Bytes
  aead_encrypt key nonce aad plaintext = l.xchacha20poly1305_encrypt key nonce aad plaintext

  unfoldable pub aead_decrypt : Bytes → Bytes → Bytes → Bytes → Outcome Bytes
  aead_decrypt key nonce aad ciphertext = l.xchacha20poly1305_decrypt key nonce aad ciphertext

  -- The library's function is taken after the encoding of the password as UTF-8.
  unfoldable pub argon2id_hash : Text → Bytes → KdfParams → ℕ → Bytes
  argon2id_hash password salt params size = l.argon2id password salt params size

-- The documented laws, of the wrappers.
module _ (l : Library) (std : IsStandard l) where
  pub aead_encrypt_sizes :
      (k n a m c : Bytes)
      → aead_encrypt l k n a m ≡ ok c
      → (length c ≡ length m + 16) × (length n ≡ 24)
  unfolding aead_encrypt
  aead_encrypt_sizes k n a m c h = std.ciphertext_size k n a m c h

  pub aead_decrypt-aead_encrypt :
      (k n a m c : Bytes) → aead_encrypt l k n a m ≡ ok c → aead_decrypt l k n a c ≡ ok m
  unfolding aead_encrypt aead_decrypt
  aead_decrypt-aead_encrypt k n a m c h = std.decrypts k n a m c h

  pub verify-sign :
      (seed p m sig : Bytes)
      → l.ed25519_get_public_key seed ≡ ok p
      → sign l seed m ≡ ok sig
      → verify l p m sig ≡ true
  unfolding sign verify
  verify-sign seed p m sig h s =
      let (v, n, k) = std.verifies seed p m sig h s in
      rw ((==_iff (length sig) 64).1 n) (rw ((==_iff (length p) 32).1 k) (rw v refl))
