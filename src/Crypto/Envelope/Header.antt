-- ===== src/Crypto/Envelope/Header.antt =====
-- The types and the layout of an envelope.
use family_messenger_e2e.Base.{ℕ, ◌+◌, ◌*◌, Text, codes, List}
use family_messenger_e2e.Crypto.Bytes.{Bytes}
use family_messenger_e2e.Crypto.Primitives.{nonce_size, tag_size}
use family_messenger_e2e.Crypto.Seal.{sealed_key_size}

abbrev pub version : ℕ
version = 1

abbrev pub flag_ephemeral : ℕ
flag_ephemeral = 1

abbrev pub flag_urgent : ℕ
flag_urgent = 2

abbrev pub max_recipients : ℕ
max_recipients = 100

abbrev pub max_envelope_size : ℕ
max_envelope_size = 64 * 1024

abbrev pub fixed_header : ℕ
fixed_header = 1 + 1 + 4 * 16 + 8 + 2

abbrev pub recipient_entry : ℕ
recipient_entry = 16 + sealed_key_size

abbrev pub min_envelope : ℕ
min_envelope = fixed_header + recipient_entry + nonce_size + 4 + tag_size

abbrev pub sig_prefix : Bytes
sig_prefix = codes "msgr-env-v1"

pub record Header : Type 0 where
  pub flags : ℕ
  pub conv_id : Text
  pub sender_account : Text
  pub sender_device : Text
  pub client_msg_id : Text
  pub timestamp_ms : ℕ

pub record Recipient : Type 0 where
  pub account : Text
  pub enc_pub : Bytes

pub record SealedRecipient : Type 0 where
  pub account : Text
  pub sealed_key : Bytes

pub record ParsedEnvelope : Type 0 where
  pub header : Header
  pub open header use *
  pub recipients : List SealedRecipient
  pub nonce : Bytes
  pub ciphertext : Bytes
  pub raw : Bytes
  pub aad_len : ℕ

-- Every random input of `encrypt`.
pub record Randomness : Type 0 where
  pub key : Bytes
  pub nonce : Bytes
  pub ephemeral : List Bytes

pub record SignedEnvelope : Type 0 where
  pub env : Bytes
  pub sig : Bytes
