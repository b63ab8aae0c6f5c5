-- ===== src/Crypto/Envelope/RoundTrip/Parsed.antt =====
-- `parse` of a written envelope, on the facts about its fields and its length.
use family_messenger_e2e.Base.{
  ℕ, ◌+◌, ◌-◌, ◌*◌, ◌%◌, ◌≤◌, ◌≡◌, refl, ap, ◌∙◌, List, ◌++◌, length, length-append, length-drop,
  take, drop, take-append, field_at, ltb, not-ltb, not-or, not-not-==, arith,
}
use family_messenger_e2e.Base.Outcome.{ok}
use family_messenger_e2e.Crypto.Bytes.{Bytes}
use family_messenger_e2e.Crypto.Primitives.{nonce_size, tag_size}
use family_messenger_e2e.Crypto.Envelope.Numbers.{
  put_uint, length-put_uint, get_uint, get_uint-put_uint,
}
use family_messenger_e2e.Crypto.Envelope.Header.{
  max_recipients, max_envelope_size, fixed_header, recipient_entry, min_envelope, Header,
  SealedRecipient, ParsedEnvelope,
}
use family_messenger_e2e.Crypto.Envelope.Parse.{subarray, parse_recipients, parse}
use family_messenger_e2e.Crypto.Envelope.RoundTrip.Fields.{Fields}

module _ (hdr : Header) (n : ℕ) (env aad nonce ciphertext rest : Bytes)
    (entries : List SealedRecipient) where
  pub record Facts : Type 0 where
    pub some_recipient : 1 ≤ n
    pub few : n ≤ max_recipients
    pub fields : Fields hdr n env rest
    pub table : parse_recipients n fixed_header env ≡ ok entries
    pub joined : env ≡ aad ++ (put_uint 4 (length ciphertext) ++ ciphertext)
    pub tail :
        drop (fixed_header + n * recipient_entry) env
        ≡ nonce ++ (put_uint 4 (length ciphertext) ++ ciphertext)
    pub nonce_length : length nonce ≡ nonce_size
    pub tagged : tag_size ≤ length ciphertext
    pub fits :
        fixed_header + n * recipient_entry + nonce_size + 4 + length ciphertext ≤ max_envelope_size

-- The end of the authenticated data: the offset of the ciphertext's length.
abbrev pub aad_end : ℕ → ℕ
aad_end n = fixed_header + n * recipient_entry + nonce_size

abbrev pub result : Header → ℕ → Bytes → Bytes → Bytes → List SealedRecipient → ParsedEnvelope
result hdr n env nonce ciphertext entries = record {
  header = record hdr { flags = hdr.flags % 256 };
  recipients = entries;
  nonce = nonce;
  ciphertext = ciphertext;
  raw = env;
  aad_len = aad_end n;
}

module _ (hdr : Header) (n : ℕ) (env aad nonce ciphertext rest : Bytes)
    (entries : List SealedRecipient) (f : Facts hdr n env aad nonce ciphertext rest entries) where
  open f use {some_recipient, few, fields, table, joined, tail, nonce_length, tagged, fits}

  length_env : length env ≡ (aad_end n) + 4 + length ciphertext
  length_env = omega (
    arith,
    length-drop (fixed_header + n * recipient_entry) env,
    ap length tail,
    length-append nonce (put_uint 4 (length ciphertext) ++ ciphertext),
    length-append (put_uint 4 (length ciphertext)) ciphertext,
    length-put_uint 4 (length ciphertext),
    nonce_length,
  )

  pub take_aad : take (aad_end n) env ≡ aad
  take_aad =
      ap (take (aad_end n)) joined
      ∙ take-append (aad_end n) aad _ (
          omega (
            arith,
            length_env,
            ap length joined,
            length-append aad (put_uint 4 (length ciphertext) ++ ciphertext),
            length-append (put_uint 4 (length ciphertext)) ciphertext,
            length-put_uint 4 (length ciphertext),
          ))

  pub parse_lem : parse env ≡ ok (result hdr n env nonce ciphertext entries)
  unfolding parse
  parse_lem =
      let (v0, c1) =
        field_at (fixed_header + n * recipient_entry) nonce_size env nonce _ tail nonce_length in
      let (v1, c2) =
        field_at (aad_end n) 4 env (put_uint 4 (length ciphertext)) ciphertext c1
          (length-put_uint 4 (length ciphertext)) in
      let ct_len : get_uint (subarray env (aad_end n) 4) ≡ length ciphertext =
        ap get_uint v1 ∙ get_uint-put_uint 4 (length ciphertext) (omega arith) in
      let t1 = not-ltb max_envelope_size (length env) (omega (arith, length_env)) in
      let t2 = not-ltb (length env) min_envelope (omega (arith, length_env)) in
      let t3 = not-or (ltb n 1) _ (not-ltb n 1 some_recipient) (not-ltb max_recipients n few) in
      let t4 =
        not-ltb (length env) (fixed_header + n * recipient_entry + nonce_size + 4 + tag_size)
          (omega (arith, length_env)) in
      let t5 =
        not-or (ltb (length ciphertext) tag_size) _ (not-ltb (length ciphertext) tag_size tagged) (
          not-not-== (length env - ((aad_end n) + 4)) (length ciphertext)
            (omega (arith, length_env))) in
      rw t1 (
        rw t2 (
          rw fields.version_ok (
            rw fields.count (
              rw t3
                (rw t4 (rw table (rw ct_len (rw t5 (rw fields.parsed (rw v0 (rw c2 refl)))))))))))
