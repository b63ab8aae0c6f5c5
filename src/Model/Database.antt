-- ===== src/Model/Database.antt =====
-- The local database: web/src/store/db.ts. Its object stores are IndexedDB's, keyed by id and, for
-- messages, by conversation and sequence number.
use family_messenger_e2e.Base.{
  ℕ, Text, Bool, not, ◌&&◌, Option, List, ◌∷◌, filter, find, length, ltb, ◌==◌, ◌===◌,
}
use family_messenger_e2e.Base.Dict.{Dict, insert}
use family_messenger_e2e.Base.Order.{sort_by}
use family_messenger_e2e.Base.Outcome.{Fault}
use family_messenger_e2e.Crypto.Bytes.{Bytes}
use family_messenger_e2e.Model.Payload.{Kind, Role, Payload}

pub record PublicKeys : Type 0 where
  pub sign_pub : Bytes
  pub enc_pub : Bytes

pub record Contact : Type 0 where
  pub id : Text
  pub username : Text
  pub display_name : Option Text
  pub is_bot : Option Bool
  pub sign_pub : Bytes
  pub enc_pub : Bytes
  pub verified : Bool
  -- Keys that the server or an event presented and that differ from the pinned ones.
  pub pending_keys : Option PublicKeys
  pub first_seen : ℕ

pub record Preview : Type 0 where
  pub text : Text
  pub ts : ℕ
  pub sender : Text
  pub seq : Option ℕ

pub record Conversation : Type 0 where
  pub id : Text
  pub kind : Kind
  pub name : Text
  pub created_by : Text
  pub created_at : ℕ
  pub role : Role
  pub joined_seq : ℕ
  pub last_seq : ℕ
  pub read_seq : ℕ
  pub synced_seq : ℕ
  pub server_members : List Text
  pub roster : Option (List Text)
  pub roster_seq : ℕ
  pub retention_seconds : ℕ
  pub last_message : Option Preview
  pub updated_at : ℕ
  pub removed : Bool

pub record StoredMessage : Type 0 where
  pub conv_id : Text
  pub seq : ℕ
  pub client_msg_id : Text
  pub sender : Text
  pub sender_device : Text
  pub ts : ℕ
  pub server_ts : ℕ
  pub payload : Option Payload
  pub error : Option Fault
  pub edited : Bool

pub record Database : Type 0 where
  pub contacts : Dict Contact
  pub conversations : Dict Conversation
  pub messages : List StoredMessage

-- Does the message stand under this key?
abbrev pub at_key : Text → ℕ → StoredMessage → Bool
at_key conv_id seq m = m.conv_id === conv_id && m.seq == seq

unfoldable pub put_contact : Contact → Database → Database
put_contact c db = record db { contacts = insert c.id c db.contacts }

unfoldable pub put_conversation : Conversation → Database → Database
put_conversation c db = record db { conversations = insert c.id c db.conversations }

unfoldable pub delete_stored_message : Text → ℕ → Database → Database
delete_stored_message conv_id seq db = record db {
  messages = filter (λ m. not (at_key conv_id seq m)) db.messages;
}

-- A `put` replaces what stands under the key.
unfoldable pub put_message : StoredMessage → Database → Database
put_message m db = record db {
  messages = m ∷ filter (λ x. not (at_key m.conv_id m.seq x)) db.messages;
}

unfoldable pub get_message : Text → ℕ → Database → Option StoredMessage
get_message conv_id seq db = find (at_key conv_id seq) db.messages

unfoldable pub messages_for : Text → Database → List StoredMessage
messages_for conv_id db =
    sort_by (λ (m : StoredMessage). m.seq) (filter (λ m. m.conv_id === conv_id) db.messages)

-- The index by client id is read in key order: within a conversation, by sequence number.
unfoldable pub message_by_client_id : Text → Text → Text → Database → Option StoredMessage
message_by_client_id conv_id sender client_msg_id db =
    find (λ m. m.client_msg_id === client_msg_id && m.sender === sender) (messages_for conv_id db)

abbrev pub is_old : Text → ℕ → StoredMessage → Bool
is_old conv_id server_ts m = m.conv_id === conv_id && ltb m.server_ts server_ts

-- How many messages are deleted, and the database without them.
unfoldable pub delete_messages_before : Text → ℕ → Database → ℕ × Database
delete_messages_before conv_id server_ts db = (
  length (filter (is_old conv_id server_ts) db.messages),
  record db { messages = filter (λ m. not (is_old conv_id server_ts m)) db.messages },
)
