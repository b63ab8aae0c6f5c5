-- ===== src/Examples/Client.antt =====
-- A client with one contact, one conversation and two messages, and a server that presents other
-- keys for the contact.
use family_messenger_e2e.Base.{ℕ, Text, true, false, some, none, List, [], ◌∷◌, codes, replicate}
use family_messenger_e2e.Base.Outcome.{ok}
use family_messenger_e2e.Crypto.Bytes.Base64.{b64encode}
use family_messenger_e2e.Crypto.Envelope.Header.{Randomness}
use family_messenger_e2e.Model.Payload.{Kind, Role, text, MemberView, ConversationView, MessageView}
use family_messenger_e2e.Model.Database.{Contact, Conversation, StoredMessage}
use family_messenger_e2e.Model.Client.{Client, World}
use family_messenger_e2e.Sync.Complete.{page_of}
use family_messenger_e2e.Examples.Toy.{toy}

abbrev pub me : Text
me = codes "m"

abbrev pub alice_id : Text
alice_id = codes "a"

abbrev pub chat_id : Text
chat_id = codes "c"

abbrev pub alice : Contact
alice = record {
  id = alice_id;
  username = codes "alice";
  display_name = none;
  is_bot = some false;
  sign_pub = replicate 32 1;
  enc_pub = replicate 32 2;
  verified = true;
  pending_keys = none;
  first_seen = 100;
}

abbrev pub myself : Contact
myself = record alice { id = me; username = codes "me" }

abbrev pub chat : Conversation
chat = record {
  id = chat_id;
  kind = Kind.direct;
  name = [];
  created_by = alice_id;
  created_at = 1;
  role = Role.member;
  joined_seq = 0;
  last_seq = 4;
  read_seq = 2;
  synced_seq = 4;
  server_members = alice_id ∷ me ∷ [];
  roster = none;
  roster_seq = 0;
  retention_seconds = 60;
  last_message = none;
  updated_at = 1000;
  removed = false;
}

-- A text of alice's, and one of ours.
abbrev pub message_of : ℕ → Text → Text → ℕ → Text → StoredMessage
message_of seq id sender at body = record {
  conv_id = chat_id;
  seq = seq;
  client_msg_id = id;
  sender = sender;
  sender_device = codes "d";
  ts = at;
  server_ts = at;
  payload = some (text body);
  error = none;
  edited = false;
}

abbrev pub old_text : StoredMessage
old_text = message_of 3 (codes "x") alice_id 1000 (codes "hello")

abbrev pub new_text : StoredMessage
new_text = message_of 4 (codes "y") me 99000 (codes "hi")

abbrev pub client : Client
client = record {
  session = some (record {
    account_id = me;
    device_id = codes "d";
    username = codes "me";
    token = [];
    is_admin = false;
  });
  keys = none;
  conversations = (chat_id, chat) ∷ [];
  contacts = (alice_id, alice) ∷ (me, myself) ∷ [];
  loaded = (chat_id, old_text ∷ new_text ∷ []) ∷ [];
  pending = [];
  selected_id = none;
  syncing = false;
  retention_days = none;
  password_changed_elsewhere = none;
  muted_chats = [];
  hidden_chats = [];
  db = record {
    contacts = (alice_id, alice) ∷ (me, myself) ∷ [];
    conversations = (chat_id, chat) ∷ [];
    messages = old_text ∷ new_text ∷ [];
  };
  now = 100000;
  notifications_granted = true;
  page_visible = false;
  requests = 0;
  effects = [];
}

abbrev pub false_alice : MemberView
false_alice = record {
  id = alice_id;
  username = codes "alice";
  display_name = none;
  sign_pub = b64encode (replicate 32 7);
  enc_pub = b64encode (replicate 32 8);
  is_bot = false;
}

abbrev view_of_chat : ConversationView
view_of_chat = record {
  id = chat_id;
  kind = Kind.direct;
  created_by = alice_id;
  created_at = 1;
  last_seq = 6;
  read_seq = 2;
  joined_seq = 0;
  role = Role.member;
  retention_seconds = none;
  members = false_alice ∷ [];
}

abbrev entry : ℕ → MessageView
entry seq = record {
  conv_id = chat_id;
  seq = seq;
  sender_account = alice_id;
  sender_device = codes "d";
  client_msg_id = codes "z";
  env = [];
  sig = [];
  server_ts = 99000;
  deleted_seq = 0;
}

abbrev pub history : List MessageView
history = entry 3 ∷ entry 4 ∷ entry 5 ∷ entry 6 ∷ []

abbrev pub random_for : ℕ → Randomness
random_for n = record {
  key = replicate 32 21;
  nonce = replicate 24 22;
  ephemeral = replicate n (replicate 32 31);
}

-- It refuses every envelope.
abbrev pub world : World
world = record {
  library = toy;
  decode_payload = λ b. ok (some (text b));
  encode_payload = λ p. [];
  translate = λ k. codes "?";
  randomness = λ n recipients. random_for recipients;
  new_uuid = λ n. codes "u";
  send = λ n conv_id env sig. false;
  accepts = λ n. true;
  user = λ n name. none;
  new_conversation = λ n. some view_of_chat;
  conversation = λ n id. some view_of_chat;
  conversation_list = λ n. some (view_of_chat ∷ []);
  page = λ n id after limit. some (page_of history after limit);
}
