-- ===== src/Sync/Stored.antt =====
-- `applyStored`: what a stored entry of a conversation's history changes.
use family_messenger_e2e.Base.{
  ℕ, ◌+◌, Text, Bool, true, false, not, ◌&&◌, ◌||◌, Option, none, some, List, [], ◌∷◌, ◌++◌, filter,
  any, codes, take, max, leb, ltb, ◌==◌, ◌===◌, if◌then◌else◌,
}
use family_messenger_e2e.Base.Dict.{lookup}
use family_messenger_e2e.Base.Order.{sort_by}
use family_messenger_e2e.Model.Payload.{
  Payload, text, text_edit, file, conv_create, member_add, member_remove, conv_rename,
}
use family_messenger_e2e.Model.Database.{Contact, Conversation, StoredMessage, put_message}
use family_messenger_e2e.Model.Client.{
  Client, World, PendingMessage, notify, persist_conversation, emit,
}
use family_messenger_e2e.Sync.Contacts.{apply_roster}
use family_messenger_e2e.Sync.Previews.{
  is_expired, preview_of, update_loaded, apply_edit, advance_silently,
}

-- A message joins the loaded ones unless its number is there already.
abbrev pub has_seq : ℕ → List StoredMessage → Bool
has_seq seq = any (λ (m : StoredMessage). m.seq == seq)

unfoldable pub merge_loaded : StoredMessage → List StoredMessage → List StoredMessage
merge_loaded msg list =
    if has_seq msg.seq list then list else sort_by (λ (m : StoredMessage). m.seq) (list ++ msg ∷ [])

abbrev pub given_name : Option Text → Text → Text
given_name (some (x ∷ xs)) old = x ∷ xs
given_name _ old = old

-- The membership that a signed event carries.
unfoldable pub apply_membership : Payload → ℕ → Conversation → Client → Client × Conversation
apply_membership (conv_create kind name members) seq next c =
    let r = apply_roster members c in
    (r.0, record next { name = given_name name next.name; roster = some r.1; roster_seq = seq })
apply_membership (member_add m members) seq next c =
    let r = apply_roster members c in (r.0, record next { roster = some r.1; roster_seq = seq })
apply_membership (member_remove id members) seq next c =
    let r = apply_roster members c in (r.0, record next { roster = some r.1; roster_seq = seq })
apply_membership (conv_rename name) seq next c = (c, record next { name = name })
apply_membership _ seq next c = (c, next)

unfoldable pub follow_membership : StoredMessage → Conversation → Client → Client × Conversation
follow_membership msg next c = elim msg.payload [
  | none ↦ (c, next)
  | some p ↦ if ltb next.roster_seq msg.seq then apply_membership p msg.seq next c else (c, next)
]

unfoldable pub with_cursors : StoredMessage → Conversation → Conversation
with_cursors msg conv = record conv {
  synced_seq = max conv.synced_seq msg.seq;
  last_seq = max conv.last_seq msg.seq;
}

abbrev pub is_missing {ℓ} : {A : Type ℓ} → Option A → Bool
is_missing none = true
is_missing (some a) = false

-- The preview of the conversation `conv` as it was before the message.
abbrev pub with_preview : StoredMessage → Text → Conversation → Conversation → Conversation
with_preview msg [] conv next = next
with_preview msg (x ∷ xs) conv next =
    if is_missing conv.last_message || leb conv.synced_seq msg.seq
    then record next {
      last_message =
          some (record { text = x ∷ xs; ts = msg.ts; sender = msg.sender; seq = some msg.seq });
      updated_at = max conv.updated_at msg.server_ts;
    }
    else next

abbrev pub with_own : Text → StoredMessage → Conversation → Conversation
with_own account msg next =
    if msg.sender === account && ltb next.read_seq msg.seq
    then record next { read_seq = msg.seq }
    else next

-- The words of a text or file message, which may be worth a notification.
abbrev pub spoken : Option Payload → Text → Option Text
spoken (some (text body)) shown = some body
spoken (some (file f)) shown = some shown
spoken _ shown = none

abbrev pub mentions : Text → List Text → Bool
mentions id = any (λ x. x === id)

abbrev pub is_selected : Option Text → Text → Bool
is_selected none id = false
is_selected (some s) id = s === id

abbrev pub username_of : Option Contact → Text
username_of none = codes "New message"
username_of (some contact) = contact.username

-- `maybeNotify`; the click on a notification is the page's.
abbrev pub is_worth_notice : Text → StoredMessage → Client → Bool
is_worth_notice conv_id msg c =
    c.notifications_granted
    && not (mentions conv_id c.muted_chats)
    && not (c.page_visible && is_selected c.selected_id conv_id)
    && leb c.now (msg.server_ts + 60000)

unfoldable pub maybe_notify : Text → StoredMessage → Text → Client → Client
maybe_notify conv_id msg body c =
    if is_worth_notice conv_id msg c
    then emit (notify conv_id (username_of (lookup msg.sender c.contacts)) (take 140 body)) c
    else c

-- `unhideChat` of web/src/state/chatPrefs.ts
unfoldable pub unhide_chat : Text → Client → Client
unhide_chat id c = record c { hidden_chats = filter (λ x. not (x === id)) c.hidden_chats }

abbrev pub announce : Text → Conversation → StoredMessage → Text → Client → Client
announce account conv msg shown c = elim (spoken msg.payload shown) [
  | none ↦ c
  | some body ↦
      if not (msg.sender === account) && ltb conv.read_seq msg.seq
      then maybe_notify conv.id msg body (unhide_chat conv.id c)
      else c
]

unfoldable pub drop_pending : Text → Client → Client
drop_pending id c = record c {
  pending = filter (λ (p : PendingMessage). not (p.client_msg_id === id)) c.pending;
}

abbrev pub keep_message : StoredMessage → Client → Client
keep_message msg c =
    drop_pending msg.client_msg_id
      (update_loaded msg.conv_id (merge_loaded msg) (record c { db = put_message msg c.db }))

module _ (w : World) where
  -- A message that is shown: everything but edits.
  unfoldable pub store_message : Text → Conversation → StoredMessage → Client → Client
  store_message account conv msg c =
      let shown = preview_of w msg.payload msg.error in
      let r = follow_membership msg (with_cursors msg conv) (keep_message msg c) in
      let next = with_own account msg (with_preview msg shown conv r.1) in
      announce account conv msg shown (persist_conversation next r.0)

  unfoldable pub apply_known : Text → Conversation → StoredMessage → Client → Client
  apply_known account conv msg c = elim msg.payload [
    | some (text_edit ref body) ↦
        advance_silently conv.id msg.seq (apply_edit conv.id msg ref body c)
    | _ ↦ store_message account conv msg c
  ]

  unfoldable pub apply_stored : Text → StoredMessage → Client → Client
  apply_stored account msg c = elim (lookup msg.conv_id c.conversations) [
    | none ↦ c
    | some conv ↦ if is_expired c conv msg.server_ts then c else apply_known account conv msg c
  ]
