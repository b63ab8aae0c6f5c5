-- ===== src/Search/Matching.antt =====
-- What matches a query: chats, people and messages. `trim` and `toLowerCase` are the platform's.
use family_messenger_e2e.Base.{
  ℕ, suc, ◌+◌, Text, Bool, true, false, not, ◌&&◌, Option, none, some, List, [], ◌∷◌, ◌++◌, any,
  filter, map, length, take, drop, ◌==◌, ◌===◌, ◌or_else◌, if◌then◌else◌,
}
use family_messenger_e2e.Base.Dict.{Dict, lookup, values}
use family_messenger_e2e.Base.Order.{sort_by_desc}
use family_messenger_e2e.Base.Outcome.{Outcome, ok, err}
use family_messenger_e2e.Model.Payload.{Kind, direct, group, Payload, text, UserView}
use family_messenger_e2e.Model.Database.{Conversation, StoredMessage}
use family_messenger_e2e.Model.Client.{Client, Key}
use family_messenger_e2e.Model.Views.{conversation_title, has_bot}

pub record Platform : Type 0 where
  pub trim : Text → Text
  pub to_lower_case : Text → Text
  pub translate : Key → Text

pub record ChatHit : Type 0 where
  pub id : Text
  pub title : Text
  pub kind : Kind
  pub is_bot : Bool
  pub members : ℕ
  pub retention : ℕ

-- A person of the directory; the source's `online` and `last_seen` are absent there or not.
pub record DirectoryUser : Type 0 where
  pub id : Text
  pub username : Text
  pub display_name : Text
  pub is_bot : Bool
  pub online : Option Bool
  pub last_seen : Option ℕ

pub record PersonHit : Type 0 where
  pub user : DirectoryUser
  pub online : Bool
  pub last_seen : ℕ
  pub known : Bool

pub record MessageHit : Type 0 where
  pub conv_id : Text
  pub seq : ℕ
  pub title : Text
  pub sender : Text
  pub ts : ℕ
  pub body : Text

abbrev pub max_per_group : ℕ
max_per_group = 20

-- `s.startsWith(q)`, `s.indexOf(q)` and `s.includes(q)`.
unfoldable pub starts_with : Text → Text → Bool
starts_with [] s = true
starts_with (c ∷ q) [] = false
starts_with (c ∷ q) (d ∷ s) = c == d && starts_with q s

abbrev pub later : Option ℕ → Option ℕ
later none = none
later (some n) = some (suc n)

unfoldable pub index_of : Text → Text → Option ℕ
unfolding starts_with
index_of q [] = if starts_with q [] then some 0 else none
index_of q (c ∷ s) = let rest = index_of q s in if starts_with q (c ∷ s) then some 0 else later rest

unfoldable pub includes : Text → Text → Bool
unfolding index_of
includes q s = elim (index_of q s) [ none ↦ false | some n ↦ true ]

-- `replace(/^@/, '')`
abbrev pub without_at : Text → Text
without_at [] = []
without_at (c ∷ s) = if c == b'@' then s else c ∷ s

-- `sortedConversations` of web/src/state/model.ts.
unfoldable pub sorted_conversations : Dict Conversation → List Conversation
sorted_conversations conversations =
    sort_by_desc (λ c. c.updated_at) (filter (λ c. not c.removed) (values conversations))

module _ (p : Platform) where
  unfoldable pub normalise : Text → Text
  normalise s = p.to_lower_case (without_at (p.trim s))

  unfoldable pub chat_hit : Client → Text → Conversation → ChatHit
  chat_hit c me conv = record {
    id = conv.id;
    title = conversation_title p.translate c.contacts conv me;
    kind = conv.kind;
    is_bot = (elim conv.kind [ direct ↦ true | group ↦ false ]) && has_bot c.contacts conv;
    members = length conv.server_members;
    retention = conv.retention_seconds;
  }

  unfoldable pub match_chats : Client → Text → Text → List ChatHit
  unfolding chat_hit sorted_conversations
  match_chats c me q = take max_per_group (
      filter (λ h. includes q (p.to_lower_case h.title))
        (map (chat_hit c me) (sorted_conversations c.conversations)))

  unfoldable pub message_hit : Client → Text → Text → StoredMessage → Text → List MessageHit
  message_hit c me q m body =
      if not (includes q (p.to_lower_case body))
      then []
      else elim (lookup m.conv_id c.conversations) [
        | none ↦ []
        | some conv ↦
            if conv.removed
            then []
            else record {
              conv_id = m.conv_id;
              seq = m.seq;
              title = conversation_title p.translate c.contacts conv me;
              sender = m.sender;
              ts = m.ts;
              body = body;
            }
              ∷ []
      ]

  -- Only texts are looked into.
  unfoldable pub hit_of : Client → Text → Text → StoredMessage → Option Payload → List MessageHit
  unfolding message_hit
  hit_of c me q m (some (text body)) = message_hit c me q m body
  hit_of c me q m _ = []

  unfoldable pub message_hits : Client → Text → Text → List StoredMessage → List MessageHit
  unfolding hit_of
  message_hits c me q [] = []
  message_hits c me q (m ∷ all) = hit_of c me q m m.payload ++ message_hits c me q all

  unfoldable pub match_messages : Client → Text → List StoredMessage → Text → List MessageHit
  unfolding message_hits
  match_messages c me all q =
      take max_per_group (sort_by_desc (λ h. h.ts) (message_hits c me q all))

  -- `highlight`: before the match, the match, and after it.
  unfoldable pub highlight : Text → Text → Text × Text × Text
  unfolding normalise
  highlight s q = elim (index_of (normalise q) (p.to_lower_case s)) [
    | none ↦ (s, [], [])
    | some start ↦
        let size = length (normalise q) in
        (take start s, take size (drop start s), drop (start + size) s)
  ]

-- People in a conversation with us.
abbrev pub members_of : Conversation → List Text
members_of conv = if conv.removed then [] else conv.server_members

unfoldable pub known_members : List Conversation → List Text
known_members [] = []
known_members (conv ∷ convs) = members_of conv ++ known_members convs

unfoldable pub decorate : List Text → DirectoryUser → PersonHit
decorate known u = record {
  user = u;
  online = u.online or_else false;
  last_seen = u.last_seen or_else 0;
  known = any (λ id. id === u.id) known;
}

abbrev pub of_view : UserView → DirectoryUser
of_view u = record {
  id = u.id;
  username = u.username;
  display_name = u.display_name or_else [];
  is_bot = u.is_bot;
  online = none;
  last_seen = none;
}

-- The exact lookup, `http.user`.
unfoldable pub exact_match : Text → List Text → Outcome UserView → List PersonHit
unfolding decorate
exact_match me known (err e) = []
exact_match me known (ok u) = if u.id === me then [] else decorate known (of_view u) ∷ []

-- `matchPeople`, with the answers of `http.users` and `http.user`: the hits, and whether the
-- directory is not available.
unfoldable pub match_people :
    Client → Text → Outcome (List DirectoryUser) → Outcome UserView → List PersonHit × Bool
unfolding known_members decorate exact_match
match_people c me (err e) user = (
  exact_match me (filter (λ id. not (id === me)) (known_members (values c.conversations))) user,
  true,
)
match_people c me (ok users) user =
    let known = filter (λ id. not (id === me)) (known_members (values c.conversations)) in
    (
      elim (filter (λ u. not (u.id === me)) users) [
        | [] ↦ exact_match me known user
        | u ∷ us ↦ map (decorate known) (take max_per_group (u ∷ us))
      ],
      false,
    )
