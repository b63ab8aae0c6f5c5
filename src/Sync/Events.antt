-- ===== src/Sync/Events.antt =====
-- `fullSync`, `onEvent`, `purgeExpired` and what is loaded from the database.
use family_messenger_e2e.Base.{
  ℕ, ◌-◌, ◌*◌, Text, Bool, true, false, not, ◌&&◌, Option, none, some, List, [], ◌∷◌, filter, any,
  ltb, ◌===◌, ◌or_else◌, if◌then◌else◌,
}
use family_messenger_e2e.Base.Dict.{lookup, values}
use family_messenger_e2e.Model.Payload.{
  ConversationView, Event, password_changed, conv_updated, member_added, member_removed,
  conv_removed, read_updated, other_event,
}
use family_messenger_e2e.Model.Database.{
  Conversation, Preview, delete_messages_before, messages_for,
}
use family_messenger_e2e.Model.Client.{
  Client, World, SessionInfo, persist_conversation, set_messages,
}
use family_messenger_e2e.Model.Task.{Task, modify, pure, ◌>>=◌, ◌>>◌, attempt, counted, answered}
use family_messenger_e2e.Sync.Contacts.{same_text}
use family_messenger_e2e.Sync.Conversations.{upsert_from_server}
use family_messenger_e2e.Sync.Previews.{effective_retention, update_loaded}
use family_messenger_e2e.Sync.Stored.{is_selected}
use family_messenger_e2e.Sync.Backfill.{backfill, refresh_conversation}

-- What was stored without a timer is read with none (`?? 0`); here a stored timer is a number.
unfoldable pub load_local_state : Client → Client
load_local_state c = record c { contacts = c.db.contacts; conversations = c.db.conversations }

unfoldable pub ensure_messages_loaded : Text → Client → Client
ensure_messages_loaded id c = elim (lookup id c.loaded) [
  | none ↦ set_messages id (messages_for id c.db) c
  | some list ↦ c
]

-- `purgeExpired`, for one conversation and its retention in seconds.
abbrev pub previewed_before : ℕ → Option Preview → Bool
previewed_before cutoff none = false
previewed_before cutoff (some p) = ltb p.ts cutoff

unfoldable pub purge_before : ℕ → Conversation → Client → Client
purge_before cutoff conv c =
    let r = delete_messages_before conv.id cutoff c.db in
    let c' =
      update_loaded conv.id (filter (λ m. not (ltb m.server_ts cutoff))) (record c { db = r.1 }) in
    if ltb 0 r.0 && previewed_before cutoff conv.last_message
    then persist_conversation (record conv { last_message = none }) c'
    else c'

unfoldable pub purge_conversation : Conversation → Client → Client
purge_conversation conv c =
    let r = effective_retention c conv in
    if ltb 0 r then purge_before (c.now - r * 1000) conv c else c

unfoldable pub purge_all : List Conversation → Client → Client
purge_all [] c = c
purge_all (conv ∷ convs) c = purge_all convs (purge_conversation conv c)

unfoldable pub purge_expired : Client → Client
purge_expired c = purge_all (values c.conversations) c

-- The loops of `fullSync`.
unfoldable pub upsert_all : List ConversationView → Task (Unit {0})
upsert_all [] = pure tt
upsert_all (cv ∷ list) = do conv ← upsert_from_server cv; upsert_all list

abbrev pub is_listed : List ConversationView → Text → Bool
is_listed list id = any (λ (cv : ConversationView). cv.id === id) list

unfoldable pub mark_removed : List ConversationView → List Conversation → Client → Client
mark_removed list [] c = c
mark_removed list (conv ∷ convs) c = mark_removed list convs (
    if not (is_listed list conv.id) && not conv.removed
    then persist_conversation (record conv { removed = true }) c
    else c)

abbrev pub set_syncing : Bool → Client → Client
set_syncing b c = record c { syncing = b }

abbrev pub device_of : Option SessionInfo → Option Text
device_of none = none
device_of (some s) = some s.device_id

abbrev pub forget_selection : Text → Client → Client
forget_selection id c = if is_selected c.selected_id id then record c { selected_id = none } else c

abbrev pub mark_left : Text → Client → Client
mark_left id c = elim (lookup id c.conversations) [
  | none ↦ c
  | some conv ↦ persist_conversation (record conv { removed = true }) c
]

abbrev pub read_elsewhere : Text → ℕ → Client → Client
read_elsewhere id seq c = elim (lookup id c.conversations) [
  | none ↦ c
  | some conv ↦
      if ltb conv.read_seq seq then persist_conversation (record conv { read_seq = seq }) c else c
]

module _ (w : World) where
  unfoldable pub backfill_all : (fuel : ℕ) → List ConversationView → Task (Unit {0})
  backfill_all fuel [] = pure tt
  backfill_all fuel (cv ∷ list) = do backfill w fuel cv.id; backfill_all fuel list

  unfoldable pub fetch_list : Task (List ConversationView)
  fetch_list c = (answered (w.conversation_list c.requests), counted c)

  unfoldable pub sync_list : (fuel : ℕ) → List ConversationView → Task (Unit {0})
  sync_list fuel list = do
    upsert_all list
    modify (λ (c : Client). mark_removed list (values c.conversations) c)
    backfill_all fuel list
    modify purge_expired

  unfoldable pub full_sync : (fuel : ℕ) → Client → Client
  full_sync fuel c =
      if c.syncing
      then c
      else set_syncing false
          (attempt (do list ← fetch_list; sync_list fuel list) (set_syncing true c))

  -- `loadAllHistory`, less the progress it shows.
  unfoldable pub load_histories : (fuel : ℕ) → List Conversation → Client → Client
  load_histories fuel [] c = c
  load_histories fuel (conv ∷ convs) c =
      load_histories fuel convs (attempt (backfill w fuel conv.id) c)

  unfoldable pub load_all_history : (fuel : ℕ) → Client → Client
  load_all_history fuel c =
      load_histories fuel (filter (λ conv. not conv.removed) (values c.conversations)) c

  unfoldable pub on_event : (fuel : ℕ) → Event → Client → Client
  on_event fuel (password_changed device at) c =
      if same_text device (device_of c.session)
      then c
      else record c { password_changed_elsewhere = some (at or_else 0) }
  on_event fuel (conv_updated []) c = c
  on_event fuel (conv_updated (x ∷ xs)) c = refresh_conversation w fuel (x ∷ xs) c
  on_event fuel (member_added []) c = c
  on_event fuel (member_added (x ∷ xs)) c = refresh_conversation w fuel (x ∷ xs) c
  on_event fuel (member_removed []) c = c
  on_event fuel (member_removed (x ∷ xs)) c = refresh_conversation w fuel (x ∷ xs) c
  on_event fuel (conv_removed []) c = c
  on_event fuel (conv_removed (x ∷ xs)) c = forget_selection (x ∷ xs) (mark_left (x ∷ xs) c)
  on_event fuel (read_updated [] seq) c = c
  on_event fuel (read_updated (x ∷ xs) none) c = c
  on_event fuel (read_updated (x ∷ xs) (some seq)) c = read_elsewhere (x ∷ xs) seq c
  on_event fuel other_event c = c
