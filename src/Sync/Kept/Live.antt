-- ===== src/Sync/Kept/Live.antt =====
-- Backfills, live messages and refreshed conversations.
use family_messenger_e2e.Base.{
  ℕ, zero, suc, ◌+◌, refl, Text, Option, none, some, Option-cases, Bool-cases, inl, inr, true, List,
  [], ◌∷◌, ltb,
}
use family_messenger_e2e.Base.Dict.{lookup}
use family_messenger_e2e.Model.Client.{Client, World}
use family_messenger_e2e.Model.Task.{counted, answered}
use family_messenger_e2e.Model.Database.{Conversation}
use family_messenger_e2e.Model.Payload.{MessageView}
use family_messenger_e2e.Sync.Conversations.{upsert_from_server, fetch_conversation}
use family_messenger_e2e.Sync.Backfill.{
  handle_all, fetch_page, backfill_from, backfill, refresh_conversation, is_absent, start_of,
  with_conversation, handle_live, on_live_message, reached,
}
use family_messenger_e2e.Sync.Kept.{IsKept}
use family_messenger_e2e.Sync.Kept.Observed.{
  continue-Kept, fetch_conversation-Kept, upsert_from_server-Kept, refresh_conversation_inline-Kept,
}
use family_messenger_e2e.Sync.Kept.Handled.{handle_incoming-Kept}

module _ (P : Client → Type 0) (kept : IsKept P) (w : World) where
  handle_all-Kept : (views : List MessageView) (c : Client) → P c → P (handle_all w views c)
  unfolding handle_all
  handle_all-Kept [] c h = h
  handle_all-Kept (m ∷ views) c h =
      handle_all-Kept views _ (handle_incoming-Kept P kept w m true c h)

  backfill_from-Kept :
      (fuel : ℕ) (id : Text) (after : ℕ) (c : Client) → P c → P (backfill_from w fuel id after c).1
  unfolding backfill_from fetch_page
  backfill_from-Kept zero id after c h = h
  backfill_from-Kept (suc fuel) id after c h =
      let k =
        kept.elsewhere c (counted c)
          (record {
            contacts = refl;
            conversations = refl;
            stored_contacts = refl;
            stored_conversations = refl;
          })
          h in
      continue-Kept P (answered (w.page c.requests id after 200)) _ (counted c) k λ page.
        let j = handle_all-Kept page.messages (counted c) k in
        elim (Bool-cases page.has_more) [
          | inl t ↦ rw t (backfill_from-Kept fuel id (reached after page.messages) _ j)
          | inr t ↦ rw t j
        ]

  pub backfill-Kept : (fuel : ℕ) (id : Text) (c : Client) → P c → P (backfill w fuel id c).1
  unfolding backfill
  backfill-Kept fuel id c h = elim (Option-cases (lookup id c.conversations)) [
    | inl e ↦ rw (e, backfill) h
    | inr (conv, e) ↦ rw (e, backfill) (backfill_from-Kept fuel id (start_of conv) c h)
  ]

  pub refresh_conversation-Kept :
      (fuel : ℕ) (id : Text) (c : Client) → P c → P (refresh_conversation w fuel id c)
  unfolding refresh_conversation
  refresh_conversation-Kept fuel id c h =
      let k = fetch_conversation-Kept P kept w id c h in
      continue-Kept P (fetch_conversation w id c).0 _ _ k λ cv.
        let j = upsert_from_server-Kept P kept cv _ k in
        continue-Kept P (upsert_from_server cv (fetch_conversation w id c).1).0 _ _ j
          (λ conv. backfill-Kept fuel id _ j)

  with_conversation-Kept : (id : Text) (c : Client) → P c → P (with_conversation w id c)
  with_conversation-Kept id c h = elim (Bool-cases (is_absent (lookup id c.conversations))) [
    | inl t ↦ rw (t, with_conversation) (refresh_conversation_inline-Kept P kept w id c h)
    | inr t ↦ rw (t, with_conversation) h
  ]

  handle_live-Kept :
      (fuel : ℕ) (view : MessageView) (conv : Option Conversation) (c : Client)
      → P c
      → P (handle_live w fuel view conv c).1
  unfolding handle_live
  handle_live-Kept fuel view none c h = h
  handle_live-Kept fuel view (some conv) c h =
      elim (Bool-cases (ltb (start_of conv + 1) view.seq)) [
        | inl t ↦
            rw (t, handle_live)
              (let k = backfill-Kept fuel view.conv_id c h in
                continue-Kept P (backfill w fuel view.conv_id c).0 _ _ k
                  (λ x. handle_incoming-Kept P kept w view true _ k))
        | inr t ↦ rw (t, handle_live) (handle_incoming-Kept P kept w view true c h)
      ]

  pub on_live_message-Kept :
      (fuel : ℕ) (view : MessageView) (c : Client) → P c → P (on_live_message w fuel view c)
  unfolding on_live_message
  on_live_message-Kept fuel view c h =
      handle_live-Kept fuel view _ _ (with_conversation-Kept view.conv_id c h)
