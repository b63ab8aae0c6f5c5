-- ===== src/Sync/Kept.antt =====
-- What an operation of the sync engine may do to contacts and conversations, as an interface.
use family_messenger_e2e.Base.{ℕ, ◌≤◌, ◌≡◌, refl, Text, Bool, Option, none, some, List, [], ◌∷◌}
use family_messenger_e2e.Base.Dict.{lookup}
use family_messenger_e2e.Model.Database.{PublicKeys, Conversation}
use family_messenger_e2e.Model.Client.{Client, persist_conversation}
use family_messenger_e2e.Sync.Contacts.{observe_keys}
pub mod Observed
pub mod Rewritten
pub mod Stored
pub mod Handled
pub mod Live
pub mod Synced
pub mod Runs
pub mod WriteThrough
pub mod Pins
pub mod Cursors

-- The cursors of a conversation only go forward.
pub record Grows (old new : Conversation) : Type 0 where
  pub id : new.id ≡ old.id
  pub synced_seq : old.synced_seq ≤ new.synced_seq
  pub last_seq : old.last_seq ≤ new.last_seq
  pub read_seq : old.read_seq ≤ new.read_seq

-- The same contacts and conversations, in memory and on disk.
pub record IsSameBook (c d : Client) : Type 0 where
  pub contacts : d.contacts ≡ c.contacts
  pub conversations : d.conversations ≡ c.conversations
  pub stored_contacts : d.db.contacts ≡ c.db.contacts
  pub stored_conversations : d.db.conversations ≡ c.db.conversations

pub record IsKept (P : Client → Type 0) : Type 0 where
  pub elsewhere : (c d : Client) → IsSameBook c d → P c → P d
  pub observed :
      (id username : Text) (keys : PublicKeys) (is_bot : Option Bool) (shown : Option Text)
      (c : Client)
      → P c
      → P (observe_keys id username keys is_bot shown c)
  pub extended :
      (id : Text) (conv next : Conversation) (c : Client)
      → lookup id c.conversations ≡ some conv
      → Grows conv next
      → P c
      → P (persist_conversation next c)
  pub opened :
      (conv : Conversation) (c : Client)
      → lookup conv.id c.conversations ≡ none
      → P c
      → P (persist_conversation conv c)

-- Not even a conversation that is written over spoils it.
pub record IsKeptByAll (P : Client → Type 0) : Type 0 where
  pub is_kept : IsKept P
  pub overwritten : (conv : Conversation) (c : Client) → P c → P (persist_conversation conv c)
