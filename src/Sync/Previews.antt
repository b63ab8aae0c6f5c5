-- ===== src/Sync/Previews.antt =====
-- Previews, retention and the rewriting and removal of stored messages.
use family_messenger_e2e.Base.{
  ℕ, ◌-◌, ◌*◌, Text, Bool, true, false, not, ◌&&◌, ◌||◌, Option, none, some, List, [], ◌∷◌, map,
  filter, codes, max, leb, ltb, ◌==◌, ◌===◌, ◌or_else◌, if◌then◌else◌,
}
use mathlib.Core.List.{reverse}
use family_messenger_e2e.Base.Dict.{lookup}
use family_messenger_e2e.Base.Outcome.{Fault}
use family_messenger_e2e.Model.Payload.{
  Payload, Kind, text, file, conv_create, member_add, member_remove, conv_rename, conv_retention,
}
use family_messenger_e2e.Model.Database.{
  Conversation, Preview, StoredMessage, put_message, get_message, delete_stored_message,
  messages_for, message_by_client_id,
}
use family_messenger_e2e.Model.Client.{
  Client, World, preview_unreadable, preview_photo, preview_group_created, preview_chat_started,
  preview_left, preview_file, preview_joined, preview_renamed, duration, mark_read, set_messages,
  persist_conversation, emit,
}

-- `s.startsWith(p)`
unfoldable pub starts_with : Text → Text → Bool
starts_with [] s = true
starts_with (c ∷ p) [] = false
starts_with (c ∷ p) (d ∷ s) = c == d && starts_with p s

-- `effectiveRetention`: the conversation's timer, capped by the server-wide limit.
abbrev pub capped : ℕ → ℕ → ℕ
capped global r = if ltb 0 global && (r == 0 || ltb global r) then global else r

unfoldable pub effective_retention : Client → Conversation → ℕ
effective_retention c conv = capped ((c.retention_days or_else 0) * 86400) conv.retention_seconds

unfoldable pub is_expired : Client → Conversation → ℕ → Bool
is_expired c conv server_ts =
    let r = effective_retention c conv in ltb 0 r && ltb server_ts (c.now - r * 1000)

-- The preview of a list that is read from its newest message.
module _ (w : World) where
  unfoldable pub preview_of : Option Payload → Option Fault → Text
  preview_of none none = []
  preview_of none (some e) = w.translate preview_unreadable
  preview_of (some (text body)) e = body
  preview_of (some (file f)) e =
      if starts_with (codes "image/") f.mime
      then w.translate preview_photo
      else w.translate (preview_file f.name)
  preview_of (some (conv_create Kind.group name members)) e = w.translate preview_group_created
  preview_of (some (conv_create Kind.direct name members)) e = w.translate preview_chat_started
  preview_of (some (member_add m members)) e = w.translate (preview_joined m.username)
  preview_of (some (member_remove id members)) e = w.translate preview_left
  preview_of (some (conv_rename name)) e = w.translate (preview_renamed name)
  preview_of (some (conv_retention seconds)) e =
      if ltb 0 seconds then w.translate (duration seconds) else []
  preview_of (some _) e = []

  unfoldable pub newest_preview : List StoredMessage → Option Preview
  newest_preview [] = none
  newest_preview (m ∷ older) =
      let rest = newest_preview older in
      elim (preview_of m.payload m.error) [
        | [] ↦ rest
        | x ∷ xs ↦ some (record { text = x ∷ xs; ts = m.ts; sender = m.sender; seq = some m.seq })
      ]

  unfoldable pub latest_preview : Text → Client → Option Preview
  latest_preview conv_id c = newest_preview (reverse (messages_for conv_id c.db))

-- `lastMessage?.seq === seq`
abbrev pub previews : Option Preview → ℕ → Bool
previews none seq = false
previews (some p) seq = elim p.seq [ none ↦ false | some s ↦ s == seq ]

abbrev pub retext : Text → Option Preview → Option Preview
retext body none = none
retext body (some p) = some (record p { text = body })

-- What is loaded of a conversation, changed if it is loaded.
unfoldable pub update_loaded : Text → (List StoredMessage → List StoredMessage) → Client → Client
update_loaded conv_id f c = elim (lookup conv_id c.loaded) [
  | none ↦ c
  | some list ↦ set_messages conv_id (f list) c
]

-- The conversation's entry, changed if there is one and it passes the test.
unfoldable pub update_conversation :
    Text → (Conversation → Bool) → (Conversation → Conversation) → Client → Client
update_conversation conv_id test f c = elim (lookup conv_id c.conversations) [
  | none ↦ c
  | some conv ↦ if test conv then persist_conversation (f conv) c else c
]

abbrev put_in_db : StoredMessage → Client → Client
put_in_db m c = record c { db = put_message m c.db }

-- `setMessageBody`: the text of a stored message, in the database, in memory and in the preview.
abbrev pub rewritten : Text → Bool → StoredMessage → StoredMessage
rewritten body edited m = record m { payload = some (text body); edited = edited }

unfoldable pub rewrite_body : Text → ℕ → Text → StoredMessage → Client → Client
rewrite_body conv_id seq body updated c =
    update_conversation conv_id (λ conv. previews conv.last_message seq)
      (λ conv. record conv { last_message = retext body conv.last_message })
      (update_loaded conv_id (map (λ x. if x.seq == seq then updated else x)) (put_in_db updated c))

-- Only a text has a body to rewrite; its `reply` field, which nothing reads, is not modelled.
abbrev pub is_text : Option Payload → Bool
is_text (some (text body)) = true
is_text _ = false

unfoldable pub set_message_body : Text → ℕ → Text → Bool → Client → Client
set_message_body conv_id seq body edited c = elim (get_message conv_id seq c.db) [
  | none ↦ c
  | some m ↦
      if is_text m.payload then rewrite_body conv_id seq body (rewritten body edited m) c else c
]

abbrev pub can_edit : StoredMessage → StoredMessage → Bool
can_edit edit original =
    original.sender === edit.sender && is_text original.payload && ltb original.seq edit.seq

-- `applyEdit`: only the sender may rewrite its own earlier text message.
unfoldable pub apply_edit : Text → StoredMessage → Option Text → Option Text → Client → Client
apply_edit conv_id edit (some ref) (some body) c =
    elim (message_by_client_id conv_id edit.sender ref c.db) [
      | none ↦ c
      | some original ↦
          if can_edit edit original then set_message_body conv_id original.seq body true c else c
    ]
apply_edit conv_id edit _ _ c = c

-- `advanceSilently`: an entry with nothing new to read never shows as unread.
abbrev pub is_next_unread : Conversation → ℕ → Bool
is_next_unread conv seq = leb (seq - 1) conv.read_seq && ltb conv.read_seq seq

unfoldable pub advanced : Conversation → ℕ → Conversation
advanced conv seq = record conv {
  synced_seq = max conv.synced_seq seq;
  last_seq = max conv.last_seq seq;
  read_seq = if is_next_unread conv seq then seq else conv.read_seq;
}

unfoldable pub advance_silently : Text → ℕ → Client → Client
advance_silently conv_id seq c = elim (lookup conv_id c.conversations) [
  | none ↦ c
  | some conv ↦
      persist_conversation (advanced conv seq)
        (if is_next_unread conv seq then emit (mark_read conv_id seq) c else c)
]

module _ (w : World) where
  abbrev delete_in_db : Text → ℕ → Client → Client
  delete_in_db conv_id seq c = record c { db = delete_stored_message conv_id seq c.db }

  abbrev refresh_preview : Text → ℕ → Client → Client
  refresh_preview conv_id seq c =
      update_conversation conv_id (λ conv. previews conv.last_message seq)
        (λ conv. record conv { last_message = latest_preview w conv_id c }) c

  unfoldable pub remove_local_message : Text → ℕ → Client → Client
  remove_local_message conv_id seq c =
      refresh_preview conv_id seq
        (update_loaded conv_id (filter (λ m. not (m.seq == seq))) (delete_in_db conv_id seq c))
