-- ===== src/Messaging/Recipients.antt =====
-- Whom a message is sealed to: `sealingMembers`, `unverifiedMembers` and `recipientsFor`.
use family_messenger_e2e.Base.{
  Text, Bool, false, not, ◌&&◌, none, some, List, [], ◌∷◌, ◌++◌, filter, any, ◌===◌, ◌or_else◌,
  if◌then◌else◌,
}
use family_messenger_e2e.Base.Dict.{Dict, lookup}
use family_messenger_e2e.Base.Outcome.{
  Outcome, ok, err, no_keys_for_member, unknown_member, keys_changed, ◌>>=◌,
}
use family_messenger_e2e.Crypto.Bytes.Base64.{b64encode}
use family_messenger_e2e.Crypto.Envelope.Header.{Recipient}
use family_messenger_e2e.Model.Payload.{MemberInfo}
use family_messenger_e2e.Model.Database.{Contact, Conversation}

-- `ids.includes(id)`
abbrev pub includes : List Text → Text → Bool
includes ids id = any (λ x. x === id) ids

abbrev pub is_bot : Dict Contact → Text → Bool
is_bot contacts id = elim (lookup id contacts) [ none ↦ false | some k ↦ k.is_bot or_else false ]

-- The loop that adds the bots of the server's list.
unfoldable pub add_bots : Dict Contact → List Text → List Text → List Text
add_bots contacts [] ids = ids
add_bots contacts (id ∷ server) ids =
    add_bots contacts server
      (if not (includes ids id) && is_bot contacts id then ids ++ id ∷ [] else ids)

abbrev pub vouched : Conversation → List Text
vouched conv = filter (includes conv.server_members) (conv.roster or_else conv.server_members)

unfoldable pub sealing_members : Dict Contact → Conversation → Text → List Text
sealing_members contacts conv me =
    let ids = add_bots contacts conv.server_members (vouched conv) in
    if includes ids me then ids else ids ++ me ∷ []

unfoldable pub unverified_members : Dict Contact → Conversation → List Text
unverified_members contacts conv = elim conv.roster [
  | none ↦ []
  | some roster ↦
      filter (λ id. not (includes roster id) && not (is_bot contacts id)) conv.server_members
]

-- The loop of `recipientsFor`.
unfoldable pub recipient_of : Dict Contact → Text → Outcome Recipient
recipient_of contacts id = elim (lookup id contacts) [
  | none ↦ err no_keys_for_member
  | some k ↦ elim k.pending_keys [
    | some p ↦ err keys_changed
    | none ↦ ok (record { account = id; enc_pub = k.enc_pub })
  ]
]

unfoldable pub recipients_of : Dict Contact → List Text → Outcome (List Recipient)
recipients_of contacts [] = ok []
recipients_of contacts (id ∷ ids) = do
  rc ← recipient_of contacts id
  rest ← recipients_of contacts ids
  ok (rc ∷ rest)

unfoldable pub recipients_for : Dict Contact → Conversation → Text → Outcome (List Recipient)
recipients_for contacts conv me = recipients_of contacts (sealing_members contacts conv me)

-- `memberInfo`
unfoldable pub member_info : Dict Contact → Text → Outcome MemberInfo
member_info contacts id = elim (lookup id contacts) [
  | none ↦ err unknown_member
  | some k ↦ ok (record {
    id = id;
    username = k.username;
    sign_pub = b64encode k.sign_pub;
    enc_pub = b64encode k.enc_pub;
  })
]
