-- ===== src/Model/Views.antt =====
-- What the screen reads of the state, and the reset on signing out: the rest of
-- web/src/state/model.ts.
use family_messenger_e2e.Base.{
  Text, Bool, true, false, not, Option, none, some, [], ◌∷◌, any, find, take, ◌===◌, ◌or_else◌,
  if◌then◌else◌,
}
use family_messenger_e2e.Base.Dict.{Dict, lookup}
use family_messenger_e2e.Model.Payload.{Kind, direct, group}
use family_messenger_e2e.Model.Database.{Contact, Conversation}
use family_messenger_e2e.Model.Client.{Client, Key, you, direct_chat, untitled_group}

-- The signals only: the database and the sync engine's own variables stay.
unfoldable pub reset_state : Client → Client
reset_state c = record c {
  session = none;
  conversations = [];
  contacts = [];
  loaded = [];
  pending = [];
  selected_id = none;
  retention_days = none;
  password_changed_elsewhere = none;
}

unfoldable pub other_member : Conversation → Text → Option Text
other_member conv me =
    let other = λ (id : Text). not (id === me) in
    elim (find other conv.server_members) [
      | some id ↦ some id
      | none ↦ find other (conv.roster or_else [])
    ]

-- A flag that is absent counts as false.
abbrev pub is_marked_bot : Dict Contact → Text → Bool
is_marked_bot contacts id = elim (lookup id contacts) [
  | none ↦ false
  | some k ↦ k.is_bot or_else false
]

unfoldable pub has_bot : Dict Contact → Conversation → Bool
has_bot contacts conv = any (is_marked_bot contacts) conv.server_members

-- `a || b` on texts: the empty text counts as false.
abbrev pub non_empty_or : Text → Text → Text
non_empty_or [] other = other
non_empty_or (x ∷ xs) other = x ∷ xs

module _ (translate : Key → Text) where
  unfoldable pub title_of_contact : Option Contact → Text
  title_of_contact none = translate direct_chat
  title_of_contact (some k) =
      if k.is_bot or_else false
      then non_empty_or (k.display_name or_else []) k.username
      else k.username

  unfoldable pub title_of_kind : Kind → Dict Contact → Conversation → Text → Text
  title_of_kind direct contacts conv me = elim (other_member conv me) [
    | none ↦ title_of_contact none
    | some id ↦ title_of_contact (lookup id contacts)
  ]
  title_of_kind group contacts conv me = non_empty_or conv.name (translate untitled_group)

  unfoldable pub conversation_title : Dict Contact → Conversation → Text → Text
  conversation_title contacts conv me = title_of_kind conv.kind contacts conv me

  unfoldable pub username_of_id : Dict Contact → Text → Text → Text
  username_of_id contacts id me = elim (id === me) [
    | true ↦ translate you
    | false ↦ elim (lookup id contacts) [ none ↦ take 8 id | some k ↦ k.username ]
  ]
