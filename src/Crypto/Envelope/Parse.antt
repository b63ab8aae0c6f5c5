-- ===== src/Crypto/Envelope/Parse.antt =====
-- Reading an envelope: `parse`, `isRecipient` and `decrypt`.
use family_messenger_e2e.Base.{
  ℕ, zero, suc, ◌+◌, ◌-◌, ◌*◌, Text, Bool, not, ◌||◌, Option, none, some, List, [], ◌∷◌, length,
  take, drop, any, find, ltb, ◌==◌, ◌===◌,
}
use family_messenger_e2e.Base.Outcome.{
  Outcome, ok, err, ◌>>=◌, ◌>>◌, ensure, invalid_recipient_count, envelope_too_large,
  malformed_envelope, unsupported_envelope_version, not_a_recipient,
}
use family_messenger_e2e.Crypto.Bytes.{Bytes}
use family_messenger_e2e.Crypto.Ids.{uuid_to_bytes, bytes_to_uuid}
use family_messenger_e2e.Crypto.Primitives.{Library, nonce_size, tag_size, aead_decrypt}
use family_messenger_e2e.Crypto.Seal.{sealed_key_size, open_box}
use family_messenger_e2e.Crypto.Envelope.Numbers.{get_uint}
use family_messenger_e2e.Crypto.Envelope.Header.{
  version, max_recipients, max_envelope_size, fixed_header, recipient_entry, min_envelope, Header,
  SealedRecipient, ParsedEnvelope,
}

-- `env.subarray(off, off + n)`
abbrev pub subarray : Bytes → ℕ → ℕ → Bytes
subarray env off n = take n (drop off env)

-- `env[0] !== VERSION`: an index out of range is undefined, which differs too.
abbrev pub has_version : Bytes → Bool
has_version [] = Bool.false
has_version (v ∷ _) = v == version

abbrev pub flags_of : Bytes → ℕ
flags_of (_ ∷ f ∷ _) = f
flags_of _ = 0

-- The loop over `n` recipients from offset `off`.
unfoldable pub parse_recipients : ℕ → ℕ → Bytes → Outcome (List SealedRecipient)
parse_recipients zero off env = ok []
parse_recipients (suc n) off env = do
  account ← bytes_to_uuid (subarray env off 16)
  rest ← parse_recipients n (off + recipient_entry) env
  ok (record { account = account; sealed_key = subarray env (off + 16) sealed_key_size } ∷ rest)

unfoldable pub parse_header : Bytes → Outcome Header
parse_header env = do
  conv_id ← bytes_to_uuid (subarray env 2 16)
  sender_account ← bytes_to_uuid (subarray env 18 16)
  sender_device ← bytes_to_uuid (subarray env 34 16)
  client_msg_id ← bytes_to_uuid (subarray env 50 16)
  ok (record {
    flags = flags_of env;
    conv_id = conv_id;
    sender_account = sender_account;
    sender_device = sender_device;
    client_msg_id = client_msg_id;
    timestamp_ms = get_uint (subarray env 66 8);
  })

unfoldable pub parse : Bytes → Outcome ParsedEnvelope
parse env = do
  ensure (not (ltb max_envelope_size (length env))) envelope_too_large
  ensure (not (ltb (length env) min_envelope)) malformed_envelope
  ensure (has_version env) unsupported_envelope_version
  let n = get_uint (subarray env 74 2)
  ensure (not (ltb n 1 || ltb max_recipients n)) invalid_recipient_count
  let off = fixed_header
  ensure (not (ltb (length env) (off + n * recipient_entry + nonce_size + 4 + tag_size)))
      malformed_envelope
  recipients ← parse_recipients n off env
  let after = off + n * recipient_entry
  let aad_len = after + nonce_size
  let ct_len = get_uint (subarray env aad_len 4)
  ensure (not (ltb ct_len tag_size || not (length env - (aad_len + 4) == ct_len)))
      malformed_envelope
  header ← parse_header env
  ok (record {
    header = header;
    recipients = recipients;
    nonce = subarray env after nonce_size;
    ciphertext = drop (aad_len + 4) env;
    raw = env;
    aad_len = aad_len;
  })

unfoldable pub is_recipient : ParsedEnvelope → Text → Bool
is_recipient e account = any (λ r. r.account === account) e.recipients

module _ (l : Library) where
  unfoldable pub open_for : ParsedEnvelope → Text → Bytes → Option SealedRecipient → Outcome Bytes
  open_for e account enc_priv none = err not_a_recipient
  open_for e account enc_priv (some rc) = do
    conv ← uuid_to_bytes e.conv_id
    own ← uuid_to_bytes account
    key ← open_box l enc_priv conv own rc.sealed_key
    aead_decrypt l key e.nonce (take e.aad_len e.raw) e.ciphertext

  unfoldable pub decrypt : ParsedEnvelope → Text → Bytes → Outcome Bytes
  decrypt e account enc_priv =
      open_for e account enc_priv (find (λ r. r.account === account) e.recipients)
