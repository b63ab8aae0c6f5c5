-- ===== src/Crypto/Envelope/RoundTrip/Theorem.antt =====
-- What the holder of an envelope gets back from `parse`, `verifyEnvelope` and `decrypt`.
use mathlib.Core.List.{append_assoc}
use family_messenger_e2e.Base.{
  ◌+◌, ◌%◌, ◌≡◌, refl, ap, ◌∙◌, sym, true, some, List, ◌++◌, Text, length, take, find, find_sound,
  ◌===◌, ===_iff, arith,
}
use family_messenger_e2e.Base.Outcome.{ok, ok-injective}
use family_messenger_e2e.Crypto.Bytes.{Bytes}
use family_messenger_e2e.Crypto.Ids.{uuid_to_bytes}
use family_messenger_e2e.Crypto.Ids.RoundTrip.{IsIdOf, uuid_to_bytes_id}
use family_messenger_e2e.Crypto.Primitives.{
  Library, IsStandard, key_size, x25519_public, aead_decrypt, aead_encrypt_sizes,
  aead_decrypt-aead_encrypt, verify-sign,
}
use family_messenger_e2e.Crypto.Seal.RoundTrip.{open_box-seal_with}
use family_messenger_e2e.Crypto.Envelope.Numbers.{put_uint}
use family_messenger_e2e.Crypto.Envelope.Header.{
  Header, Recipient, ParsedEnvelope, Randomness, SignedEnvelope, fixed_header,
}
use family_messenger_e2e.Crypto.Envelope.Encrypt.{write_header, encrypt_with, verify_envelope}
use family_messenger_e2e.Crypto.Envelope.Parse.{parse, decrypt, open_for}
use family_messenger_e2e.Crypto.Envelope.RoundTrip.Recipients.{
  AreIds, SealedTo, parse-write_recipients, find-SealedTo,
}
use family_messenger_e2e.Crypto.Envelope.RoundTrip.Written.{Written, encrypt_with_inv}
use family_messenger_e2e.Crypto.Envelope.RoundTrip.Fields.{
  HasIds, Fields-layout, layout, layout-write_header,
}
use family_messenger_e2e.Crypto.Envelope.RoundTrip.Parsed.{Facts, result, parse_lem, take_aad}

-- What a call of `encryptWith` is given: canonical ids, a 32-byte message key.
pub record IsInput (hdr : Header) (recipients : List Recipient) (r : Randomness) : Type 0 where
  pub ids : HasIds hdr
  pub accounts : AreIds recipients
  pub key_length : length r.key ≡ key_size

module _ (l : Library) (std : IsStandard l) (seed : Bytes) (hdr : Header)
    (recipients : List Recipient) (plaintext : Bytes) (r : Randomness) (e : SignedEnvelope)
    (input : IsInput hdr recipients r) where
  pub record Reading (p : ParsedEnvelope) (conv : Bytes) : Type 0 where
    pub parsed : parse e.env ≡ ok p
    pub header : p.header ≡ record hdr { flags = hdr.flags % 256 }
    pub sealed : SealedTo l conv r.key recipients p.recipients
    pub conv_id : IsIdOf hdr.conv_id conv
    pub opened : aead_decrypt l r.key p.nonce (take p.aad_len p.raw) p.ciphertext ≡ ok plaintext

  pub record Read : Type 0 where
    pub envelope : ParsedEnvelope
    pub conv : Bytes
    pub reading : Reading envelope conv

  read_written : Written l seed hdr recipients plaintext r e → Read
  read_written w =
      let ids = input.ids in
      let n = length recipients in
      let same : w.conv ≡ ids.conv = ok-injective (sym w.conv_id ∙ uuid_to_bytes_id ids.conv_id) in
      let sizes : (length w.ciphertext ≡ length plaintext + 16) × (length r.nonce ≡ 24) =
        aead_encrypt_sizes l std r.key r.nonce _ plaintext w.ciphertext w.encrypted in
      let body = r.nonce ++ (put_uint 4 (length w.ciphertext) ++ w.ciphertext) in
      let aad = w.head ++ (w.sealed ++ r.nonce) in
      let joined : e.env ≡ aad ++ (put_uint 4 (length w.ciphertext) ++ w.ciphertext) =
        w.joined ∙ ap (λ k. aad ++ (put_uint 4 k ++ w.ciphertext)) (sym sizes.0) in
      let front : e.env ≡ layout hdr ids n w.few_recipients (w.sealed ++ body) =
        joined
        ∙ (simp append_assoc)
        ∙ layout-write_header hdr ids n w.few_recipients w.head (w.sealed ++ body)
            (ap (λ c. write_header hdr n c) (sym same) ∙ w.header) in
      let fields = Fields-layout hdr ids n w.few_recipients e.env (w.sealed ++ body) front in
      let t =
        parse-write_recipients l std w.conv r.key input.key_length recipients r.ephemeral
          fixed_header e.env w.sealed body input.accounts w.ephemeral_count w.table fields.after in
      let facts : Facts hdr n e.env aad r.nonce w.ciphertext (w.sealed ++ body) t.entries = record {
        some_recipient = w.some_recipient;
        few = w.few_recipients;
        fields = fields;
        table = t.parsed;
        joined = joined;
        tail = t.after;
        nonce_length = sizes.1;
        tagged = omega (arith, sizes.0);
        fits = omega (arith, sizes.0, w.size_bound);
      } in
      record {
        envelope = result hdr n e.env r.nonce w.ciphertext t.entries;
        conv = w.conv;
        reading = record {
          parsed = parse_lem hdr n e.env aad r.nonce w.ciphertext _ t.entries facts;
          header = refl;
          sealed = t.sealed;
          conv_id = rw same ids.conv_id;
          opened =
              ap (λ a. aead_decrypt l r.key r.nonce a w.ciphertext)
                (take_aad hdr n e.env aad r.nonce w.ciphertext _ t.entries facts)
              ∙ aead_decrypt-aead_encrypt l std r.key r.nonce aad plaintext w.ciphertext
                  w.encrypted;
        };
      }

  -- An envelope that `encryptWith` made from canonical ids and a 32-byte message key parses to the
  -- header that went in, with its flags as one byte, and the signature beside it verifies under the
  -- public key of the seed that signed.
  pub verify-encrypt_with :
      (sign_pub : Bytes)
      → l.ed25519_get_public_key seed ≡ ok sign_pub
      → encrypt_with l seed hdr recipients plaintext r ≡ ok e
      → (p : ParsedEnvelope) × (parse e.env ≡ ok p)
        × (p.header ≡ record hdr { flags = hdr.flags % 256 })
        × (verify_envelope l sign_pub e.env e.sig ≡ true)
  unfolding verify_envelope
  verify-encrypt_with sign_pub h enc =
      let w = encrypt_with_inv l seed hdr recipients plaintext r e enc in
      let x = read_written w in
      (
        x.envelope,
        x.reading.parsed,
        x.reading.header,
        verify-sign l std seed sign_pub _ e.sig h w.signed,
      )

  -- The recipient that is first in the list with its account decrypts the plaintext.
  decrypt-Reading :
      (p : ParsedEnvelope) (conv : Bytes) (account : Text) (enc_priv : Bytes) (rc : Recipient)
      → Reading p conv
      → find (λ x. x.account === account) recipients ≡ some rc
      → x25519_public l enc_priv ≡ ok rc.enc_pub
      → decrypt l p account enc_priv ≡ ok plaintext
  unfolding decrypt open_for
  decrypt-Reading p conv account enc_priv rc rd found own =
      let en = find-SealedTo l conv r.key account rc rd.sealed found in
      let conv_id : uuid_to_bytes p.conv_id ≡ ok conv =
        ap (λ (h : Header). uuid_to_bytes h.conv_id) rd.header ∙ uuid_to_bytes_id rd.conv_id in
      let same =
        (===_iff rc.account account).0
          (find_sound (λ (x : Recipient). x.account === account) recipients found) in
      let own_id : uuid_to_bytes account ≡ ok en.account_bytes =
        ap uuid_to_bytes (sym same) ∙ uuid_to_bytes_id en.is_id in
      let key =
        open_box-seal_with l std en.eph enc_priv rc.enc_pub conv en.account_bytes r.key
          en.sealed.sealed_key input.key_length own en.made in
      rw en.found (rw conv_id (rw own_id (rw key rd.opened)))

  -- An envelope that `encryptWith` made from canonical ids and a 32-byte message key parses to the
  -- header that went in, with its flags as one byte, and every holder of the private key of the
  -- recipient that is first in the list with an account decrypts it, for that account, to the
  -- plaintext that went in.
  pub decrypt-encrypt_with :
      (account : Text) (enc_priv : Bytes) (rc : Recipient)
      → encrypt_with l seed hdr recipients plaintext r ≡ ok e
      → find (λ x. x.account === account) recipients ≡ some rc
      → x25519_public l enc_priv ≡ ok rc.enc_pub
      → (p : ParsedEnvelope) × (parse e.env ≡ ok p)
        × (p.header ≡ record hdr { flags = hdr.flags % 256 })
        × (decrypt l p account enc_priv ≡ ok plaintext)
  decrypt-encrypt_with account enc_priv rc enc found own =
      let x = read_written (encrypt_with_inv l seed hdr recipients plaintext r e enc) in
      let rd = x.reading in
      (
        x.envelope,
        rd.parsed,
        rd.header,
        decrypt-Reading x.envelope x.conv account enc_priv rc rd found own,
      )
