-- ===== src/Crypto/Seal.antt =====
-- Sealed message keys: web/src/crypto/seal.ts.
pub mod RoundTrip
use family_messenger_e2e.Base.{
  ℕ, ◌+◌, codes, List, [], ◌∷◌, ◌++◌, length, take, drop, replicate, ◌==◌, if◌then◌else◌,
}
use family_messenger_e2e.Base.Outcome.{Outcome, ok, err, malformed_sealed_key, ◌>>=◌}
use family_messenger_e2e.Crypto.Bytes.{Bytes, concat}
use family_messenger_e2e.Crypto.Primitives.{
  Library, key_size, nonce_size, tag_size, x25519_public, x25519_shared, aead_encrypt, aead_decrypt,
}

abbrev pub sealed_key_size : ℕ
sealed_key_size = 32 + key_size + tag_size

abbrev pub zero_nonce : Bytes
zero_nonce = replicate nonce_size 0

module _ (l : Library) where
  unfoldable pub seal_key : Bytes → Bytes → Bytes → Bytes
  seal_key ss eph_pub recipient_enc_pub =
      l.hkdf_sha256 ss (concat (eph_pub ∷ recipient_enc_pub ∷ [])) (codes "msgr-seal-v1") key_size

  unfoldable pub seal_with : Bytes → Bytes → Bytes → Bytes → Bytes → Outcome Bytes
  seal_with eph_priv recipient_enc_pub conv_id recipient_account key = do
    eph_pub ← x25519_public l eph_priv
    ss ← x25519_shared l eph_priv recipient_enc_pub
    let k = seal_key ss eph_pub recipient_enc_pub
    sealed ← aead_encrypt l k zero_nonce (concat (conv_id ∷ recipient_account ∷ [])) key
    ok (concat (eph_pub ∷ sealed ∷ []))

  unfoldable pub open_box : Bytes → Bytes → Bytes → Bytes → Outcome Bytes
  open_box enc_priv conv_id recipient_account box =
      if length box == sealed_key_size
      then (do
        let eph_pub = take 32 box
        ss ← x25519_shared l enc_priv eph_pub
        own_pub ← x25519_public l enc_priv
        let k = seal_key ss eph_pub own_pub
        aead_decrypt l k zero_nonce (concat (conv_id ∷ recipient_account ∷ [])) (drop 32 box))
      else err malformed_sealed_key
