-- ===== src/Examples/Incoming.antt =====
-- The envelope of the runs, as the server delivers it to its second recipient.
use family_messenger_e2e.Base.{
  ◌≡◌, ◌⊎◌, ◌∷◌, true, none, refl, false, some, [], codes, replicate, filter, find, any, ◌===◌,
}
use family_messenger_e2e.Crypto.Bytes.{concat, bytes_to_hex, hex_to_bytes, hex_pairs}
use family_messenger_e2e.Crypto.Bytes.Base64.{
  b64encode, b64decode, decode_groups, unpadded, sextet_char, sextet_value,
}
use family_messenger_e2e.Crypto.Ids.{
  uuid_to_bytes, bytes_to_uuid, is_uuid, matches, to_lower, is_lower_hex, dashed,
}
use family_messenger_e2e.Crypto.Primitives.{
  verify, aead_decrypt, x25519_shared, x25519_public, or_all,
}
use family_messenger_e2e.Crypto.Seal.{seal_key, open_box}
use family_messenger_e2e.Crypto.Envelope.Numbers.{get_uint}
use family_messenger_e2e.Crypto.Envelope.Encrypt.{verify_envelope}
use family_messenger_e2e.Crypto.Envelope.Parse.{
  parse, parse_recipients, parse_header, decrypt, open_for,
}
use family_messenger_e2e.Model.Payload.{Payload, text, MessageView}
use family_messenger_e2e.Model.Client.{Client, SessionInfo, AccountKeys}
use family_messenger_e2e.Sync.Incoming.{
  Reading, with_sender, handle_incoming, authenticate, open_payload, read_known, read_from,
}
use family_messenger_e2e.Sync.Authentic.{IsAuthentic, handed_on, handle_incoming-IsAuthentic}
use family_messenger_e2e.Examples.Toy.{sums}
use family_messenger_e2e.Examples.Client.{alice, client, world}
use family_messenger_e2e.Base.Dict.{lookup}
use family_messenger_e2e.Examples.Envelopes.{id_of, sent, run}

abbrev view : MessageView
view = record {
  conv_id = id_of 1;
  seq = 9;
  sender_account = id_of 2;
  sender_device = id_of 3;
  client_msg_id = id_of 4;
  env = b64encode sent.env;
  sig = b64encode sent.sig;
  server_ts = 1700000000001;
  deleted_seq = 0;
}

abbrev receiver : SessionInfo
receiver = record {
  account_id = id_of 5;
  device_id = id_of 6;
  username = codes "bob";
  token = [];
  is_admin = false;
}

abbrev receiver_keys : AccountKeys
receiver_keys = record {
  sign_seed = replicate 32 50;
  sign_pub = replicate 32 50;
  enc_priv = replicate 32 12;
  enc_pub = replicate 32 12;
}

-- The envelope is read to its text.
reading :
    (read_from world receiver receiver_keys (some alice) view).payload ≡ some (text (codes "hi"))
unfolding read_from read_known authenticate open_payload b64encode b64decode decode_groups unpadded
    filter verify_envelope verify parse parse_recipients parse_header get_uint bytes_to_uuid
    bytes_to_hex decrypt open_for find ◌===◌ open_box seal_key uuid_to_bytes is_uuid matches
    to_lower is_lower_hex hex_to_bytes hex_pairs aead_decrypt x25519_shared x25519_public or_all
    concat sums sent run any sextet_char sextet_value dashed
reading = refl

abbrev listening : Client
listening = record client {
  session = some receiver;
  keys = some receiver_keys;
  contacts = (id_of 2, alice) ∷ [];
}

handle_incoming-IsAuthentic_example :
    let c' = with_sender world view listening in
    (r : Reading) × (handle_incoming world view true listening
      ≡ handed_on world receiver view true r c')
    × ((r.payload ≡ none)
        ⊎ ((p : Payload) × (r.payload ≡ some p)
            × IsAuthentic world receiver receiver_keys (lookup (id_of 2) c'.contacts) view p))
handle_incoming-IsAuthentic_example =
    handle_incoming-IsAuthentic world receiver receiver_keys view true listening refl refl refl
