-- ===== src/Messaging/Groups.antt =====
-- Conversations and their members: `lookupUser` to `renameGroup`.
use family_messenger_e2e.Base.{
  ℕ, Text, Bool, true, not, ◌&&◌, ◌||◌, none, some, List, [], ◌∷◌, ◌++◌, filter, length, leb, ◌==◌,
  ◌===◌, ◌or_else◌, if◌then◌else◌,
}
use mathlib.Core.List.{reverse}
use family_messenger_e2e.Base.Dict.{lookup}
use family_messenger_e2e.Base.Outcome.{ok, err, ensure, not_ready, that_is_you, invalid_key}
use family_messenger_e2e.Crypto.Bytes.Base64.{b64decode}
use family_messenger_e2e.Model.Payload.{
  Kind, MemberInfo, ConversationView, UserView, conv_create, member_add, member_remove, conv_rename,
}
use family_messenger_e2e.Model.Database.{Conversation}
use family_messenger_e2e.Model.Client.{Client, World, persist_conversation}
use family_messenger_e2e.Model.Task.{
  Task, lift, modify, pure, ◌>>=◌, ◌>>◌, attempt, counted, answered,
}
use family_messenger_e2e.Sync.Contacts.{observe_keys}
use family_messenger_e2e.Sync.Conversations.{upsert_from_server}
use family_messenger_e2e.Sync.Backfill.{refresh_conversation}
use family_messenger_e2e.Sync.Stored.{is_selected}
use family_messenger_e2e.Messaging.Recipients.{includes, sealing_members, member_info}
use family_messenger_e2e.Messaging.Send.{send_payload}
use family_messenger_e2e.Messaging.Edit.{request}

-- White space as `String.trim` takes it.
abbrev pub is_space : ℕ → Bool
is_space c =
    (leb 9 c && leb c 13)
    || c == 32
    || c == 160
    || c == 5760
    || (leb 8192 c && leb c 8202)
    || c == 8232
    || c == 8233
    || c == 8239
    || c == 8287
    || c == 12288
    || c == 65279

unfoldable pub trim_start : Text → Text
trim_start [] = []
trim_start (c ∷ s) = let rest = trim_start s in if is_space c then rest else c ∷ s

abbrev pub trim : Text → Text
trim s = reverse (trim_start (reverse (trim_start s)))

-- `.replace(/^@/, '')`
abbrev pub without_at : Text → Text
without_at [] = []
without_at (c ∷ s) = if c == 64 then s else c ∷ s

-- A JavaScript `Set` of ids, in insertion order.
abbrev pub add_id : Text → List Text → List Text
add_id id ids = if includes ids id then ids else ids ++ id ∷ []

unfoldable pub add_ids : List Text → List Text → List Text
add_ids [] set = set
add_ids (id ∷ ids) set = add_ids ids (add_id id set)

-- `ids.map(memberInfo)`
unfoldable pub member_infos : List Text → Task (List MemberInfo)
member_infos [] = pure []
member_infos (id ∷ ids) = do
  m ← λ (c : Client). (member_info c.contacts id, c)
  rest ← member_infos ids
  pure (m ∷ rest)

abbrev pub select_chat : Text → Client → Client
select_chat id c = record c { selected_id = some id }

-- `session.value!`
abbrev pub own_id : Task Text
own_id c = (elim c.session [ none ↦ err not_ready | some s ↦ ok s.account_id ], c)

module _ (w : World) where
  abbrev pub fetch_user : Text → Task UserView
  fetch_user name c = (answered (w.user c.requests name), counted c)

  abbrev pub fetch_new : Task ConversationView
  fetch_new c = (answered (w.new_conversation c.requests), counted c)

  unfoldable pub lookup_user : Text → Task Text
  lookup_user username = do
    u ← fetch_user (without_at (trim username))
    sign_pub ← lift (b64decode u.sign_pub)
    enc_pub ← lift (b64decode u.enc_pub)
    lift (ensure (length sign_pub == 32 && length enc_pub == 32) invalid_key)
    modify (
        observe_keys u.id u.username (record { sign_pub = sign_pub; enc_pub = enc_pub })
          (some u.is_bot) u.display_name)
    pure u.id

  unfoldable pub announce_direct : Text → Text → Text → Task (Unit {0})
  announce_direct me account conv_id = do
    members ← member_infos (me ∷ account ∷ [])
    send_payload w conv_id (conv_create Kind.direct none members) 0 true

  unfoldable pub open_direct_with : Text → Task Text
  open_direct_with account = do
    me ← own_id
    cv ← fetch_new
    conv ← upsert_from_server cv
    if cv.last_seq == 0 then announce_direct me account conv.id else pure tt
    modify (select_chat conv.id)
    pure conv.id

  unfoldable pub create_direct : Text → Task Text
  create_direct username = do
    me ← own_id
    id ← lookup_user username
    lift (ensure (not (id === me)) that_is_you)
    open_direct_with id

  -- The loop of `createGroup`: the ids so far, each once and without our own.
  unfoldable pub lookup_users : Text → List Text → List Text → Task (List Text)
  lookup_users me [] ids = pure ids
  lookup_users me (u ∷ usernames) ids = do
    id ← lookup_user u
    lookup_users me usernames (if id === me then ids else add_id id ids)

  unfoldable pub create_group : Text → List Text → Task Text
  create_group name usernames = do
    me ← own_id
    ids ← lookup_users me usernames []
    cv ← fetch_new
    conv ← upsert_from_server cv
    members ← member_infos (me ∷ ids)
    send_payload w conv.id (conv_create Kind.group (some (trim name)) members) 0 true
    modify (select_chat conv.id)
    pure conv.id

  unfoldable pub add_member : Text → Text → Task (Unit {0})
  add_member conv_id username = do
    me ← own_id
    id ← lookup_user username
    cv ← fetch_new
    conv ← upsert_from_server cv
    let base = conv.roster or_else filter (λ m. not (m === id)) conv.server_members
    let roster = add_id id (add_id me (add_ids base []))
    m ← λ (c : Client). (member_info c.contacts id, c)
    members ← member_infos roster
    send_payload w conv_id (member_add m members) 0 true

  -- The signed event goes out first, while the one who leaves can still seal it.
  unfoldable pub announce_removal : Text → Text → List Text → Task (Unit {0})
  announce_removal conv_id account remaining = do
    members ← member_infos remaining
    send_payload w conv_id (member_remove account members) 0 true

  abbrev pub leave_chat : Text → Conversation → Client → Client
  leave_chat conv_id conv c =
      let c' = persist_conversation (record conv { removed = true }) c in
      if is_selected c'.selected_id conv_id then record c' { selected_id = none } else c'

  unfoldable pub remove_known : (fuel : ℕ) → Text → Text → Text → Conversation → Task (Unit {0})
  remove_known fuel me conv_id account conv c =
      let remaining = filter (λ m. not (m === account)) (sealing_members c.contacts conv me) in
      (do
        modify (attempt (announce_removal conv_id account remaining))
        request w
        modify (
            if account === me
            then leave_chat conv_id conv
            else refresh_conversation w fuel conv_id))
        c

  unfoldable pub remove_member : (fuel : ℕ) → Text → Text → Task (Unit {0})
  remove_member fuel conv_id account = do
    me ← own_id
    λ c. elim (lookup conv_id c.conversations) [
      | none ↦ (ok tt, c)
      | some conv ↦ remove_known fuel me conv_id account conv c
    ]

  unfoldable pub rename_group : Text → Text → Task (Unit {0})
  rename_group conv_id name = send_payload w conv_id (conv_rename (trim name)) 0 true
