-- ===== src/Crypto/Files.antt =====
-- Encryption of attachments: web/src/crypto/files.ts.
use family_messenger_e2e.Base.{◌≡◌, subst, codes}
use family_messenger_e2e.Base.Outcome.{Outcome, ok, ◌>>=◌, bind_inv, ok-injective}
use family_messenger_e2e.Crypto.Bytes.{Bytes}
use family_messenger_e2e.Crypto.Primitives.{
  Library, IsStandard, aead_encrypt, aead_decrypt, aead_decrypt-aead_encrypt,
}

abbrev pub blob_aad : Bytes
blob_aad = codes "msgr-blob-v1"

pub record EncryptedFile : Type 0 where
  pub key : Bytes
  pub nonce : Bytes
  pub ciphertext : Bytes

module _ (l : Library) where
  -- The random key and nonce are arguments.
  unfoldable pub encrypt_file : Bytes → Bytes → Bytes → Outcome EncryptedFile
  encrypt_file key nonce content = do
    ciphertext ← aead_encrypt l key nonce blob_aad content
    ok (record { key = key; nonce = nonce; ciphertext = ciphertext })

  unfoldable pub decrypt_file : Bytes → Bytes → Bytes → Outcome Bytes
  decrypt_file key nonce ciphertext = aead_decrypt l key nonce blob_aad ciphertext

module _ (l : Library) (std : IsStandard l) where
  -- An attachment that was encrypted opens under its key and nonce to the file that went in.
  pub decrypt_file-encrypt_file :
      (key nonce content : Bytes) (f : EncryptedFile)
      → encrypt_file l key nonce content ≡ ok f
      → decrypt_file l f.key f.nonce f.ciphertext ≡ ok content
  unfolding encrypt_file decrypt_file
  decrypt_file-encrypt_file key nonce content f h =
      let (c, e, h1) = bind_inv (aead_encrypt l key nonce blob_aad content) _ h in
      subst (λ x. aead_decrypt l x.key x.nonce blob_aad x.ciphertext ≡ ok content) (ok-injective h1)
        (aead_decrypt-aead_encrypt l std key nonce blob_aad content c e)
