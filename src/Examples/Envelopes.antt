-- ===== src/Examples/Envelopes.antt =====
-- An envelope from one account to another, made with the primitives of the runs.
use family_messenger_e2e.Base.{
  ℕ, ◌<◌, ◌≡◌, ◌%◌, ◌↔◌, refl, true, Text, List, [], ◌∷◌, replicate, some, filter, find, ◌===◌,
  arith, codes,
}
use family_messenger_e2e.Base.Outcome.{Outcome, ok, err, ◌>>=◌}
use family_messenger_e2e.Crypto.Bytes.{Bytes, concat, equal, bytes_to_hex, hex_to_bytes, hex_pairs}
use family_messenger_e2e.Crypto.Bytes.Equality.{equal_iff}
use family_messenger_e2e.Crypto.Bytes.Base64.{b64encode, b64decode, b64decode-b64encode}
use family_messenger_e2e.Crypto.Bytes.Hex.{hex_to_bytes-bytes_to_hex}
use family_messenger_e2e.Crypto.Ids.{
  uuid_to_bytes, bytes_to_uuid, is_uuid, matches, to_lower, is_lower_hex,
}
use family_messenger_e2e.Crypto.Ids.RoundTrip.{IsIdOf, groups, uuid_to_bytes-bytes_to_uuid}
use family_messenger_e2e.Crypto.Primitives.{
  x25519_public, x25519_shared, aead_encrypt, sign, or_all,
}
use family_messenger_e2e.Crypto.Seal.{seal_with, seal_key, open_box}
use family_messenger_e2e.Crypto.Seal.RoundTrip.{open_box-seal_with}
use family_messenger_e2e.Crypto.Envelope.Numbers.{put_uint}
use family_messenger_e2e.Crypto.Envelope.Header.{
  Header, Recipient, Randomness, SignedEnvelope, ParsedEnvelope,
}
use family_messenger_e2e.Crypto.Envelope.Encrypt.{
  encrypt_with, write_header, write_recipients, verify_envelope,
}
use family_messenger_e2e.Crypto.Envelope.Parse.{parse, decrypt}
use family_messenger_e2e.Crypto.Envelope.RoundTrip.Theorem.{
  IsInput, decrypt-encrypt_with, verify-encrypt_with,
}
use family_messenger_e2e.Examples.Toy.{toy, sums, toy-IsStandard}

abbrev pub id_of : ℕ → Text
id_of k = groups (replicate 16 k)

abbrev hdr : Header
hdr = record {
  flags = 2;
  conv_id = id_of 1;
  sender_account = id_of 2;
  sender_device = id_of 3;
  client_msg_id = id_of 4;
  timestamp_ms = 1700000000000;
}

abbrev recipients : List Recipient
recipients =
    record { account = id_of 2; enc_pub = replicate 32 11 }
    ∷ record { account = id_of 5; enc_pub = replicate 32 12 }
    ∷ []

abbrev random : Randomness
random = record {
  key = replicate 32 21;
  nonce = replicate 24 22;
  ephemeral = replicate 32 31 ∷ replicate 32 32 ∷ [];
}

abbrev seed : Bytes
seed = replicate 32 41

abbrev plaintext : Bytes
plaintext = codes "hi"

unfoldable pub run : Outcome SignedEnvelope
unfolding encrypt_with write_header write_recipients put_uint uuid_to_bytes is_uuid matches to_lower
    is_lower_hex hex_to_bytes hex_pairs filter bytes_to_hex seal_with seal_key x25519_public
    x25519_shared aead_encrypt sign or_all concat sums
run = encrypt_with toy seed hdr recipients plaintext random

unfoldable pub sent : SignedEnvelope
unfolding run
sent = elim run [ ok e ↦ e | err _ ↦ record { env = []; sig = [] } ]

sent_lem : encrypt_with toy seed hdr recipients plaintext random ≡ ok sent
unfolding sent run
sent_lem = refl

IsIdOf-id_of : (k : ℕ) → k < 256 → IsIdOf (id_of k) (replicate 16 k)
IsIdOf-id_of k h = record { in_range = omega arith; sized = refl; written = refl }

input : IsInput hdr recipients random
input = record {
  ids = record {
    conv = replicate 16 1;
    sender = replicate 16 2;
    device = replicate 16 3;
    client = replicate 16 4;
    conv_id = IsIdOf-id_of 1 (omega arith);
    sender_account = IsIdOf-id_of 2 (omega arith);
    sender_device = IsIdOf-id_of 3 (omega arith);
    client_msg_id = IsIdOf-id_of 4 (omega arith);
    timestamp = omega arith;
  };
  accounts = ((_, IsIdOf-id_of 2 (omega arith)), ((_, IsIdOf-id_of 5 (omega arith)), tt));
  key_length = refl;
}

second :
    find (λ (x : Recipient). x.account === id_of 5) recipients
    ≡ some (record { account = id_of 5; enc_pub = replicate 32 12 })
unfolding find ◌===◌ bytes_to_hex
second = refl

decrypt-encrypt_with_example :
    (p : ParsedEnvelope) × (parse sent.env ≡ ok p)
    × (p.header ≡ record hdr { flags = 2 })
    × (decrypt toy p (id_of 5) (replicate 32 12) ≡ ok plaintext)
unfolding x25519_public
decrypt-encrypt_with_example =
    decrypt-encrypt_with toy toy-IsStandard seed hdr recipients plaintext random sent input
      (id_of 5) (replicate 32 12) (record { account = id_of 5; enc_pub = replicate 32 12 }) sent_lem
      second refl

verify-encrypt_with_example :
    (p : ParsedEnvelope) × (parse sent.env ≡ ok p)
    × (p.header ≡ record hdr { flags = hdr.flags % 256 })
    × (verify_envelope toy seed sent.env sent.sig ≡ true)
verify-encrypt_with_example =
    verify-encrypt_with toy toy-IsStandard seed hdr recipients plaintext random sent input seed refl
      sent_lem

uuid_to_bytes-bytes_to_uuid_example :
    (bytes_to_uuid (replicate 16 255) >>= uuid_to_bytes) ≡ ok (replicate 16 255)
uuid_to_bytes-bytes_to_uuid_example =
    uuid_to_bytes-bytes_to_uuid (replicate 16 255) (omega arith) refl

hex_to_bytes-bytes_to_hex_example : hex_to_bytes (bytes_to_hex (0 ∷ 171 ∷ [])) ≡ ok (0 ∷ 171 ∷ [])
hex_to_bytes-bytes_to_hex_example = hex_to_bytes-bytes_to_hex (0 ∷ 171 ∷ []) (omega arith)

equal_iff_example :
    (equal (1 ∷ 2 ∷ []) (1 ∷ 3 ∷ []) ≡ true) ↔ ◌≡◌ {A = Bytes} (1 ∷ 2 ∷ []) (1 ∷ 3 ∷ [])
equal_iff_example = equal_iff (1 ∷ 2 ∷ []) (1 ∷ 3 ∷ [])

sealed_box : Bytes
unfolding seal_with seal_key x25519_public x25519_shared aead_encrypt or_all concat sums
sealed_box =
    elim (seal_with toy (replicate 32 3) (replicate 32 12) (1 ∷ []) (2 ∷ []) (replicate 32 21)) [
      | ok b ↦ b
      | err _ ↦ []
    ]

open_box-seal_with_example :
    open_box toy (replicate 32 12) (1 ∷ []) (2 ∷ []) sealed_box ≡ ok (replicate 32 21)
unfolding sealed_box
open_box-seal_with_example =
    open_box-seal_with toy toy-IsStandard (replicate 32 3) (replicate 32 12) (replicate 32 12)
      (1 ∷ []) (2 ∷ []) (replicate 32 21) sealed_box refl refl refl

b64decode-b64encode_example :
    b64decode (b64encode (255 ∷ 0 ∷ 7 ∷ 66 ∷ [])) ≡ ok (255 ∷ 0 ∷ 7 ∷ 66 ∷ [])
b64decode-b64encode_example =
    b64decode-b64encode (255 ∷ 0 ∷ 7 ∷ 66 ∷ [])
      (omega arith, (omega arith, (omega arith, (omega arith, tt))))
