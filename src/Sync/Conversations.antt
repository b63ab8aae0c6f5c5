-- ===== src/Sync/Conversations.antt =====
-- `upsertFromServer` and the requests for a conversation.
use family_messenger_e2e.Base.{◌*◌, Text, false, none, [], map, max, ◌or_else◌}
use family_messenger_e2e.Base.Dict.{lookup}
use family_messenger_e2e.Base.Outcome.{ok}
use family_messenger_e2e.Model.Payload.{ConversationView, MemberView}
use family_messenger_e2e.Model.Database.{Conversation}
use family_messenger_e2e.Model.Client.{Client, World, persist_conversation}
use family_messenger_e2e.Model.Task.{Task, pure, ◌>>=◌, ◌>>◌, attempt, counted, answered}
use family_messenger_e2e.Sync.Contacts.{observe_members}

abbrev pub fresh_conversation : ConversationView → Conversation
fresh_conversation cv = record {
  id = cv.id;
  kind = cv.kind;
  name = [];
  created_by = cv.created_by;
  created_at = cv.created_at;
  role = cv.role;
  joined_seq = cv.joined_seq;
  last_seq = cv.last_seq;
  read_seq = cv.read_seq;
  synced_seq = cv.joined_seq;
  server_members = [];
  roster = none;
  roster_seq = 0;
  retention_seconds = 0;
  last_message = none;
  updated_at = cv.created_at * 1000;
  removed = false;
}

unfoldable pub merge_view : ConversationView → Conversation → Conversation
merge_view cv conv = record conv {
  kind = cv.kind;
  role = cv.role;
  joined_seq = cv.joined_seq;
  last_seq = max conv.last_seq cv.last_seq;
  read_seq = max conv.read_seq cv.read_seq;
  server_members = map (λ (m : MemberView). m.id) cv.members;
  retention_seconds = cv.retention_seconds or_else 0;
  removed = false;
}

-- The entry after the server's view of it has been taken over.
abbrev pub upserted : ConversationView → Client → Conversation
upserted cv c = merge_view cv (lookup cv.id c.conversations or_else fresh_conversation cv)

unfoldable pub upsert_from_server : ConversationView → Task Conversation
upsert_from_server cv = do
  observe_members cv.members
  λ c. let conv = upserted cv c in (ok conv, persist_conversation conv c)

module _ (w : World) where
  unfoldable pub fetch_conversation : Text → Task ConversationView
  fetch_conversation id c = (answered (w.conversation c.requests id), counted c)

  unfoldable pub refresh_conversation_inline : Text → Client → Client
  refresh_conversation_inline id =
      attempt (do cv ← fetch_conversation id; conv ← upsert_from_server cv; pure tt)
