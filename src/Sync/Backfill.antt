-- ===== src/Sync/Backfill.antt =====
-- `backfill`, `onLiveMessage`, `refreshConversation`: the history in the order of the server.
use family_messenger_e2e.Base.{
  ℕ, zero, suc, ◌+◌, Text, Bool, true, Option, none, some, List, [], ◌∷◌, max, ltb, if◌then◌else◌,
}
use family_messenger_e2e.Base.Dict.{lookup}
use family_messenger_e2e.Base.Outcome.{ok, err, out_of_fuel}
use family_messenger_e2e.Model.Payload.{MessageView, Page}
use family_messenger_e2e.Model.Database.{Conversation}
use family_messenger_e2e.Model.Client.{Client, World}
use family_messenger_e2e.Model.Task.{
  Task, lift, modify, pure, ◌>>=◌, ◌>>◌, attempt, counted, answered,
}
use family_messenger_e2e.Sync.Conversations.{
  fetch_conversation, upsert_from_server, refresh_conversation_inline,
}
use family_messenger_e2e.Sync.Incoming.{handle_incoming}

abbrev pub page_limit : ℕ
page_limit = 200

-- `after = Math.max(after, m.seq)` over a page.
unfoldable pub reached : ℕ → List MessageView → ℕ
reached after [] = after
reached after (m ∷ views) = reached (max after m.seq) views

abbrev pub start_of : Conversation → ℕ
start_of conv = max conv.synced_seq conv.joined_seq

-- A conversation that is not known, or was left, is asked for.
abbrev pub is_absent : Option Conversation → Bool
is_absent none = true
is_absent (some conv) = conv.removed

module _ (w : World) where
  unfoldable pub handle_all : List MessageView → Client → Client
  handle_all [] c = c
  handle_all (m ∷ views) c = handle_all views (handle_incoming w m true c)

  unfoldable pub fetch_page : Text → ℕ → Task Page
  fetch_page id after c = (answered (w.page c.requests id after page_limit), counted c)

  -- The `for (;;)` loop, with at most `fuel` requests.
  unfoldable pub backfill_from : (fuel : ℕ) → Text → ℕ → Task (Unit {0})
  backfill_from zero id after = lift (err out_of_fuel)
  backfill_from (suc fuel) id after = do
    page ← fetch_page id after
    modify (handle_all page.messages)
    let rest = backfill_from fuel id (reached after page.messages)
    if page.has_more then rest else pure tt

  unfoldable pub backfill : (fuel : ℕ) → Text → Task (Unit {0})
  backfill fuel id c = elim (lookup id c.conversations) [
    | none ↦ (ok tt, c)
    | some conv ↦ backfill_from fuel id (start_of conv) c
  ]

  unfoldable pub refresh_conversation : (fuel : ℕ) → Text → Client → Client
  refresh_conversation fuel id =
      attempt do cv ← fetch_conversation w id; conv ← upsert_from_server cv; backfill fuel id

  abbrev pub with_conversation : Text → Client → Client
  with_conversation id c =
      if is_absent (lookup id c.conversations) then refresh_conversation_inline w id c else c

  unfoldable pub handle_live : (fuel : ℕ) → MessageView → Option Conversation → Task (Unit {0})
  handle_live fuel view none = pure tt
  handle_live fuel view (some conv) = do
    if ltb (start_of conv + 1) view.seq then backfill fuel view.conv_id else pure tt
    modify (handle_incoming w view true)

  unfoldable pub on_live_message : (fuel : ℕ) → MessageView → Client → Client
  on_live_message fuel view c =
      let c' = with_conversation view.conv_id c in
      attempt (handle_live fuel view (lookup view.conv_id c'.conversations)) c'
