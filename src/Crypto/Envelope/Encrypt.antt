-- ===== src/Crypto/Envelope/Encrypt.antt =====
-- Writing an envelope: `encryptWith`, `encrypt` and `verifyEnvelope`.
use family_messenger_e2e.Base.{
  ℕ, ◌+◌, ◌*◌, ◌%◌, Bool, not, ◌||◌, List, [], ◌∷◌, ◌++◌, length, ltb, ◌==◌,
}
use family_messenger_e2e.Base.Outcome.{
  Outcome, ok, ◌>>=◌, ◌>>◌, ensure, invalid_recipient_count, ephemeral_key_count_mismatch,
  envelope_too_large,
}
use family_messenger_e2e.Crypto.Bytes.{Bytes, concat}
use family_messenger_e2e.Crypto.Ids.{uuid_to_bytes}
use family_messenger_e2e.Crypto.Primitives.{
  Library, nonce_size, tag_size, sign, verify, aead_encrypt,
}
use family_messenger_e2e.Crypto.Seal.{seal_with}
use family_messenger_e2e.Crypto.Envelope.Numbers.{put_uint}
use family_messenger_e2e.Crypto.Envelope.Header.{
  version, max_recipients, max_envelope_size, fixed_header, recipient_entry, sig_prefix, Header,
  Recipient, Randomness, SignedEnvelope,
}

-- The fixed header. A timestamp is never negative here; the field keeps its low 64 bits.
unfoldable pub write_header : Header → ℕ → Bytes → Outcome Bytes
write_header hdr n conv_id = do
  sender ← uuid_to_bytes hdr.sender_account
  device ← uuid_to_bytes hdr.sender_device
  client ← uuid_to_bytes hdr.client_msg_id
  ok (
      version
      ∷ (hdr.flags % 256)
      ∷ (conv_id
          ++ (sender ++ (device ++ (client ++ (put_uint 8 hdr.timestamp_ms ++ put_uint 2 n))))))

module _ (l : Library) where
  -- The loop over the recipients: account and sealed key of each.
  unfoldable pub write_recipients : Bytes → Bytes → List Recipient → List Bytes → Outcome Bytes
  write_recipients conv_id key (rc ∷ recipients) (eph ∷ ephemeral) = do
    account ← uuid_to_bytes rc.account
    sealed ← seal_with l eph rc.enc_pub conv_id account key
    rest ← write_recipients conv_id key recipients ephemeral
    ok (account ++ (sealed ++ rest))
  write_recipients conv_id key _ _ = ok []

  unfoldable pub encrypt_with :
      Bytes → Header → List Recipient → Bytes → Randomness → Outcome SignedEnvelope
  encrypt_with sign_seed hdr recipients plaintext r = do
    let n = length recipients
    ensure (not (ltb n 1 || ltb max_recipients n)) invalid_recipient_count
    ensure (length r.ephemeral == n) ephemeral_key_count_mismatch
    let size = fixed_header + n * recipient_entry + nonce_size + 4 + length plaintext + tag_size
    ensure (not (ltb max_envelope_size size)) envelope_too_large
    conv_id ← uuid_to_bytes hdr.conv_id
    head ← write_header hdr n conv_id
    sealed ← write_recipients conv_id r.key recipients r.ephemeral
    let aad = head ++ (sealed ++ r.nonce)
    ciphertext ← aead_encrypt l r.key r.nonce aad plaintext
    let env = aad ++ (put_uint 4 (length plaintext + tag_size) ++ ciphertext)
    sig ← sign l sign_seed (concat (sig_prefix ∷ env ∷ []))
    ok (record { env = env; sig = sig })

  -- `encrypt`: the random inputs are drawn for the number of recipients.
  unfoldable pub encrypt :
      Bytes → Header → List Recipient → Bytes → (ℕ → Randomness) → Outcome SignedEnvelope
  encrypt sign_seed hdr recipients plaintext random =
      encrypt_with sign_seed hdr recipients plaintext (random (length recipients))

  unfoldable pub verify_envelope : Bytes → Bytes → Bytes → Bool
  verify_envelope sender_sign_pub env sig =
      verify l sender_sign_pub (concat (sig_prefix ∷ env ∷ [])) sig
