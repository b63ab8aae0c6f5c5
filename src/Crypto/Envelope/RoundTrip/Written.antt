-- ===== src/Crypto/Envelope/RoundTrip/Written.antt =====
-- What a successful call of `encryptWith` has computed, and the fields at their offsets.
use family_messenger_e2e.Base.{
  ◌+◌, ◌*◌, ◌≤◌, ◌≡◌, ap, ◌∙◌, sym, not, ◌||◌, List, [], ◌∷◌, ◌++◌, length, ltb, ◌==◌, arith,
}
use family_messenger_e2e.Base.Outcome.{ok, bind_inv, ensure-then, ok-injective}
use family_messenger_e2e.Crypto.Bytes.{Bytes, concat}
use family_messenger_e2e.Crypto.Ids.{uuid_to_bytes}
use family_messenger_e2e.Crypto.Primitives.{Library, nonce_size, tag_size, sign, aead_encrypt}
use family_messenger_e2e.Crypto.Envelope.Numbers.{put_uint}
use family_messenger_e2e.Crypto.Envelope.Header.{
  max_recipients, max_envelope_size, fixed_header, recipient_entry, sig_prefix, Header, Recipient,
  Randomness, SignedEnvelope,
}
use family_messenger_e2e.Crypto.Envelope.Encrypt.{write_recipients, write_header, encrypt_with}

module _ (l : Library) (seed : Bytes) (hdr : Header) (recipients : List Recipient)
    (plaintext : Bytes) (r : Randomness) (e : SignedEnvelope) where
  pub record Written : Type 0 where
    pub conv : Bytes
    pub head : Bytes
    pub sealed : Bytes
    pub ciphertext : Bytes
    pub some_recipient : 1 ≤ length recipients
    pub few_recipients : length recipients ≤ max_recipients
    pub ephemeral_count : length r.ephemeral ≡ length recipients
    pub conv_id : uuid_to_bytes hdr.conv_id ≡ ok conv
    pub header : write_header hdr (length recipients) conv ≡ ok head
    pub table : write_recipients l conv r.key recipients r.ephemeral ≡ ok sealed
    pub encrypted :
        aead_encrypt l r.key r.nonce (head ++ (sealed ++ r.nonce)) plaintext ≡ ok ciphertext
    pub joined :
        e.env
        ≡ (head ++ (sealed ++ r.nonce)) ++ (put_uint 4 (length plaintext + tag_size) ++ ciphertext)
    pub signed : sign l seed (concat (sig_prefix ∷ e.env ∷ [])) ≡ ok e.sig
    pub size_bound :
        fixed_header
          + length recipients * recipient_entry
          + nonce_size
          + 4
          + length plaintext
          + tag_size
        ≤ max_envelope_size

  pub encrypt_with_inv : encrypt_with l seed hdr recipients plaintext r ≡ ok e → Written
  unfolding encrypt_with
  encrypt_with_inv h =
      let n = length recipients in
      let size =
        fixed_header + n * recipient_entry + nonce_size + 4 + length plaintext + tag_size in
      let (t1, h1) = ensure-then (not (ltb n 1 || ltb max_recipients n)) _ _ h in
      let (t2, h2) = ensure-then (length r.ephemeral == n) _ _ h1 in
      let (t3, h3) = ensure-then (not (ltb max_envelope_size size)) _ _ h2 in
      let (conv, conv_id, h4) = bind_inv (uuid_to_bytes hdr.conv_id) _ h3 in
      let (head, header, h5) = bind_inv (write_header hdr (length recipients) conv) _ h4 in
      let (sealed, table, h6) =
        bind_inv (write_recipients l conv r.key recipients r.ephemeral) _ h5 in
      let (ct, encrypted, h7) =
        bind_inv (aead_encrypt l r.key r.nonce (head ++ (sealed ++ r.nonce)) plaintext) _ h6 in
      let env = (head ++ (sealed ++ r.nonce)) ++ (put_uint 4 (length plaintext + tag_size) ++ ct) in
      let (sig, signed, h8) = bind_inv (sign l seed (concat (sig_prefix ∷ env ∷ []))) _ h7 in
      let same : e.env ≡ env = sym (ap (λ (x : SignedEnvelope). x.env) (ok-injective h8)) in
      let same_sig : e.sig ≡ sig = sym (ap (λ (x : SignedEnvelope). x.sig) (ok-injective h8)) in
      record {
        conv = conv;
        head = head;
        sealed = sealed;
        ciphertext = ct;
        some_recipient = ground (arith, t1);
        few_recipients = ground (arith, t1);
        ephemeral_count = ground (arith, t2);
        conv_id = conv_id;
        header = header;
        table = table;
        encrypted = encrypted;
        joined = same;
        signed =
            ap (λ (v : Bytes). sign l seed (concat (sig_prefix ∷ v ∷ []))) same
            ∙ signed
            ∙ ap (λ (v : Bytes). ok v) (sym same_sig);
        size_bound = ground (arith, t3);
      }
