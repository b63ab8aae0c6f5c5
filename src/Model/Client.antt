-- ===== src/Model/Client.antt =====
-- The reactive state of the client, web/src/state/model.ts, with what the sync engine keeps beside
-- it, the clock, and what the page has sent or shown.
use family_messenger_e2e.Base.{ℕ, Text, Bool, Option, List, [], ◌∷◌, ◌++◌}
use family_messenger_e2e.Base.Dict.{Dict, insert}
use family_messenger_e2e.Base.Outcome.{Outcome}
use family_messenger_e2e.Crypto.Bytes.{Bytes}
use family_messenger_e2e.Crypto.Primitives.{Library}
pub use family_messenger_e2e.Crypto.Account.{AccountKeys}
use family_messenger_e2e.Crypto.Envelope.Header.{Randomness}
use family_messenger_e2e.Model.Payload.{
  Payload, CallSignal, VoiceSignal, ConversationView, UserView, Page,
}
use family_messenger_e2e.Model.Database.{
  Contact, Conversation, StoredMessage, Database, put_contact, put_conversation,
}

pub record SessionInfo : Type 0 where
  pub account_id : Text
  pub device_id : Text
  pub username : Text
  pub token : Text
  pub is_admin : Bool

pub record PendingMessage : Type 0 where
  pub client_msg_id : Text
  pub conv_id : Text
  pub payload : Payload
  pub ts : ℕ
  -- The source keeps the reason's text.
  pub failed : Bool

-- What leaves the sync engine: requests whose answer is not awaited, notifications, and the signals
-- that the call and voice modules handle.
pub data Effect : Type 0 where
  mark_read : (conv_id : Text) (seq : ℕ) → Effect
  delete_blob : (blob : Text) → Effect
  notify : (conv_id from body : Text) → Effect
  call_signal : (sender device conv_id call : Text) → CallSignal → Effect
  voice_signal : (sender device conv_id session : Text) → VoiceSignal → Effect

pub record Client : Type 0 where
  pub session : Option SessionInfo
  pub keys : Option AccountKeys
  pub conversations : Dict Conversation
  pub contacts : Dict Contact
  -- Messages of conversations that have been opened (`messages` of the source).
  pub loaded : Dict (List StoredMessage)
  pub pending : List PendingMessage
  pub selected_id : Option Text
  pub syncing : Bool
  -- `serverSettings.value?.retention_days`
  pub retention_days : Option ℕ
  pub password_changed_elsewhere : Option ℕ
  pub muted_chats : List Text
  pub hidden_chats : List Text
  pub db : Database
  pub now : ℕ
  pub notifications_granted : Bool
  pub page_visible : Bool
  -- How many answers the server has given so far.
  pub requests : ℕ
  pub effects : List Effect

-- Texts that the interface translates.
pub data Key : Type 0 where
  you direct_chat untitled_group : Key
  preview_unreadable preview_photo preview_group_created preview_chat_started preview_left : Key
  preview_file preview_joined preview_renamed : Text → Key
  duration : ℕ → Key

-- What the program runs on: the primitives, JSON and UTF-8 of the platform (an error where
-- `JSON.parse` throws, nothing where it yields a value that counts as false), the translations,
-- and the server, whose answer may be another at each request.
pub record World : Type 0 where
  pub library : Library
  pub decode_payload : Bytes → Outcome (Option Payload)
  pub encode_payload : Payload → Bytes
  pub translate : Key → Text
  -- Random inputs of an envelope to so many recipients, and a random id.
  pub randomness : ℕ → ℕ → Randomness
  pub new_uuid : ℕ → Text
  -- Does the server take an envelope for a conversation, and does a plain request succeed?
  pub send : ℕ → (conv_id env sig : Text) → Bool
  pub accepts : ℕ → Bool
  -- `http.user`, and the conversation that createDirect, createGroup and addMember answer.
  pub user : ℕ → Text → Option UserView
  pub new_conversation : ℕ → Option ConversationView
  pub conversation : ℕ → Text → Option ConversationView
  pub conversation_list : ℕ → Option (List ConversationView)
  -- `http.messages(convId, after, limit)`
  pub page : ℕ → Text → ℕ → ℕ → Option Page

unfoldable pub set_conversation : Conversation → Client → Client
set_conversation v c = record c { conversations = insert v.id v c.conversations }

unfoldable pub set_contact : Contact → Client → Client
set_contact v c = record c { contacts = insert v.id v c.contacts }

unfoldable pub set_messages : Text → List StoredMessage → Client → Client
set_messages conv_id list c = record c { loaded = insert conv_id list c.loaded }

-- `persistConversation`: the signal, and the database.
unfoldable pub persist_conversation : Conversation → Client → Client
unfolding set_conversation put_conversation
persist_conversation v c =
    let c' = set_conversation v c in record c' { db = put_conversation v c'.db }

-- `setContact(c); await putContact(c)`
unfoldable pub save_contact : Contact → Client → Client
unfolding set_contact put_contact
save_contact v c = let c' = set_contact v c in record c' { db = put_contact v c'.db }

unfoldable pub emit : Effect → Client → Client
emit e c = record c { effects = c.effects ++ e ∷ [] }
