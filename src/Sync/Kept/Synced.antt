-- ===== src/Sync/Kept/Synced.antt =====
-- Events, the purge and the whole sync.
use family_messenger_e2e.Base.{
  ℕ, refl, Text, none, some, Option-cases, Bool-cases, inl, inr, true, not, List, [], ◌∷◌, filter,
  ltb, ◌&&◌, arith,
}
use family_messenger_e2e.Base.Dict.{lookup}
use family_messenger_e2e.Model.Client.{Client, World, set_messages}
use family_messenger_e2e.Model.Task.{counted, answered}
use family_messenger_e2e.Model.Database.{Conversation, delete_messages_before}
use family_messenger_e2e.Model.Payload.{
  ConversationView, Event, password_changed, conv_updated, member_added, member_removed,
  conv_removed, read_updated, other_event,
}
use family_messenger_e2e.Sync.Contacts.{same_text}
use family_messenger_e2e.Sync.Conversations.{upsert_from_server}
use family_messenger_e2e.Sync.Previews.{effective_retention}
use family_messenger_e2e.Sync.Stored.{is_selected}
use family_messenger_e2e.Sync.Backfill.{backfill}
use family_messenger_e2e.Sync.Events.{
  on_event, mark_left, forget_selection, read_elsewhere, device_of, ensure_messages_loaded,
  purge_before, purge_conversation, purge_all, purge_expired, previewed_before, upsert_all,
  mark_removed, is_listed, backfill_all, fetch_list, sync_list, full_sync, set_syncing,
  load_histories, load_all_history,
}
use family_messenger_e2e.Sync.Kept.{IsKept, IsKeptByAll}
use family_messenger_e2e.Sync.Kept.Observed.{continue-Kept, either_branch, upsert_from_server-Kept}
use family_messenger_e2e.Sync.Kept.Rewritten.{update_loaded-Kept}
use family_messenger_e2e.Sync.Kept.Live.{backfill-Kept, refresh_conversation-Kept}

module _ (P : Client → Type 0) (kept : IsKept P) (w : World) where
  mark_left-Kept : (id : Text) (c : Client) → P c → P (mark_left id c)
  mark_left-Kept id c h = elim (Option-cases (lookup id c.conversations)) [
    | inl e ↦ rw (e, mark_left) h
    | inr (conv, e) ↦
        rw (e, mark_left)
          (kept.extended id conv _ c e
            (record {
              id = refl;
              synced_seq = omega arith;
              last_seq = omega arith;
              read_seq = omega arith;
            })
            h)
  ]

  forget_selection-Kept : (id : Text) (c : Client) → P c → P (forget_selection id c)
  forget_selection-Kept id c h = elim (Bool-cases (is_selected c.selected_id id)) [
    | inl t ↦
        rw (t, forget_selection)
          (kept.elsewhere c _
            (record {
              contacts = refl;
              conversations = refl;
              stored_contacts = refl;
              stored_conversations = refl;
            })
            h)
    | inr t ↦ rw (t, forget_selection) h
  ]

  read_elsewhere-Kept : (id : Text) (seq : ℕ) (c : Client) → P c → P (read_elsewhere id seq c)
  read_elsewhere-Kept id seq c h = elim (Option-cases (lookup id c.conversations)) [
    | inl e ↦ rw (e, read_elsewhere) h
    | inr (conv, e) ↦ elim (Bool-cases (ltb conv.read_seq seq)) [
      | inl t ↦
          rw (e, t, read_elsewhere)
            (kept.extended id conv _ c e
              (record {
                id = refl;
                synced_seq = omega arith;
                last_seq = omega arith;
                read_seq = ground arith;
              })
              h)
      | inr t ↦ rw (e, t, read_elsewhere) h
    ]
  ]

  pub on_event-Kept : (fuel : ℕ) (ev : Event) (c : Client) → P c → P (on_event w fuel ev c)
  unfolding on_event
  on_event-Kept fuel (password_changed device at) c h =
      elim (Bool-cases (same_text device (device_of c.session))) [
        | inl t ↦ rw (t, on_event) h
        | inr t ↦
            rw (t, on_event)
              (kept.elsewhere c _
                (record {
                  contacts = refl;
                  conversations = refl;
                  stored_contacts = refl;
                  stored_conversations = refl;
                })
                h)
      ]
  on_event-Kept fuel (conv_updated []) c h = h
  on_event-Kept fuel (conv_updated (x ∷ xs)) c h =
      refresh_conversation-Kept P kept w fuel (x ∷ xs) c h
  on_event-Kept fuel (member_added []) c h = h
  on_event-Kept fuel (member_added (x ∷ xs)) c h =
      refresh_conversation-Kept P kept w fuel (x ∷ xs) c h
  on_event-Kept fuel (member_removed []) c h = h
  on_event-Kept fuel (member_removed (x ∷ xs)) c h =
      refresh_conversation-Kept P kept w fuel (x ∷ xs) c h
  on_event-Kept fuel (conv_removed []) c h = h
  on_event-Kept fuel (conv_removed (x ∷ xs)) c h =
      forget_selection-Kept (x ∷ xs) _ (mark_left-Kept (x ∷ xs) c h)
  on_event-Kept fuel (read_updated [] seq) c h = h
  on_event-Kept fuel (read_updated (x ∷ xs) none) c h = h
  on_event-Kept fuel (read_updated (x ∷ xs) (some seq)) c h = read_elsewhere-Kept (x ∷ xs) seq c h
  on_event-Kept fuel other_event c h = h

  pub ensure_messages_loaded-Kept : (id : Text) (c : Client) → P c → P (ensure_messages_loaded id c)
  unfolding ensure_messages_loaded set_messages
  ensure_messages_loaded-Kept id c h = elim (Option-cases (lookup id c.loaded)) [
    | inl e ↦
        rw (e, ensure_messages_loaded)
          (kept.elsewhere c _
            (record {
              contacts = refl;
              conversations = refl;
              stored_contacts = refl;
              stored_conversations = refl;
            })
            h)
    | inr (list, e) ↦ rw (e, ensure_messages_loaded) h
  ]

  load_histories-Kept :
      (fuel : ℕ) (convs : List Conversation) (c : Client) → P c → P (load_histories w fuel convs c)
  unfolding load_histories
  load_histories-Kept fuel [] c h = h
  load_histories-Kept fuel (conv ∷ convs) c h =
      load_histories-Kept fuel convs _ (backfill-Kept P kept w fuel conv.id c h)

  pub load_all_history-Kept : (fuel : ℕ) (c : Client) → P c → P (load_all_history w fuel c)
  unfolding load_all_history
  load_all_history-Kept fuel c h = load_histories-Kept fuel _ c h

  upsert_all-Kept : (list : List ConversationView) (c : Client) → P c → P (upsert_all list c).1
  unfolding upsert_all
  upsert_all-Kept [] c h = h
  upsert_all-Kept (cv ∷ list) c h =
      let k = upsert_from_server-Kept P kept cv c h in
      continue-Kept P (upsert_from_server cv c).0 _ _ k (λ conv. upsert_all-Kept list _ k)

  backfill_all-Kept :
      (fuel : ℕ) (list : List ConversationView) (c : Client)
      → P c
      → P (backfill_all w fuel list c).1
  unfolding backfill_all
  backfill_all-Kept fuel [] c h = h
  backfill_all-Kept fuel (cv ∷ list) c h =
      let k = backfill-Kept P kept w fuel cv.id c h in
      continue-Kept P (backfill w fuel cv.id c).0 _ _ k (λ x. backfill_all-Kept fuel list _ k)

module _ (P : Client → Type 0) (all : IsKeptByAll P) where
  mark_removed-Kept :
      (list : List ConversationView) (convs : List Conversation) (c : Client)
      → P c
      → P (mark_removed list convs c)
  unfolding mark_removed
  mark_removed-Kept list [] c h = h
  mark_removed-Kept list (conv ∷ convs) c h =
      elim (Bool-cases (not (is_listed list conv.id) && not conv.removed)) [
        | inl t ↦ rw (t, mark_removed) (mark_removed-Kept list convs _ (all.overwritten _ c h))
        | inr t ↦ rw (t, mark_removed) (mark_removed-Kept list convs c h)
      ]

  purge_before-Kept :
      (cutoff : ℕ) (conv : Conversation) (c : Client) → P c → P (purge_before cutoff conv c)
  unfolding purge_before delete_messages_before
  purge_before-Kept cutoff conv c h =
      let r = delete_messages_before conv.id cutoff c.db in
      let d = record c { db = r.1 } in
      let k =
        update_loaded-Kept P all.is_kept conv.id (filter (λ m. not (ltb m.server_ts cutoff))) d (
          all.is_kept.elsewhere c d
            (record {
              contacts = refl;
              conversations = refl;
              stored_contacts = refl;
              stored_conversations = refl;
            })
            h) in
      elim (Bool-cases (ltb 0 r.0 && previewed_before cutoff conv.last_message)) [
        | inl t ↦ rw t (all.overwritten _ _ k)
        | inr t ↦ rw t k
      ]

  purge_conversation-Kept : (conv : Conversation) (c : Client) → P c → P (purge_conversation conv c)
  unfolding purge_conversation
  purge_conversation-Kept conv c h = elim (Bool-cases (ltb 0 (effective_retention c conv))) [
    | inl t ↦ rw (t, purge_conversation) (purge_before-Kept _ conv c h)
    | inr t ↦ rw (t, purge_conversation) h
  ]

  purge_all-Kept : (convs : List Conversation) (c : Client) → P c → P (purge_all convs c)
  unfolding purge_all
  purge_all-Kept [] c h = h
  purge_all-Kept (conv ∷ convs) c h = purge_all-Kept convs _ (purge_conversation-Kept conv c h)

  pub purge_expired-Kept : (c : Client) → P c → P (purge_expired c)
  unfolding purge_expired
  purge_expired-Kept c h = purge_all-Kept _ c h

  module _ (w : World) where
    sync_list-Kept :
        (fuel : ℕ) (list : List ConversationView) (c : Client) → P c → P (sync_list w fuel list c).1
    unfolding sync_list
    sync_list-Kept fuel list c h =
        let k = upsert_all-Kept P all.is_kept w list c h in
        continue-Kept P (upsert_all list c).0 _ _ k λ x.
          let j = mark_removed-Kept list _ _ k in
          let i = backfill_all-Kept P all.is_kept w fuel list _ j in
          continue-Kept P (backfill_all w fuel list _).0 _ _ i (λ y. purge_expired-Kept _ i)

    pub full_sync-Kept : (fuel : ℕ) (c : Client) → P c → P (full_sync w fuel c)
    unfolding full_sync fetch_list
    full_sync-Kept fuel c h = either_branch P c.syncing h (
        let k =
          all.is_kept.elsewhere c _
            (record {
              contacts = refl;
              conversations = refl;
              stored_contacts = refl;
              stored_conversations = refl;
            })
            h in
        all.is_kept.elsewhere _ _
          (record {
            contacts = refl;
            conversations = refl;
            stored_contacts = refl;
            stored_conversations = refl;
          })
          (continue-Kept P (answered (w.conversation_list c.requests)) _
            (counted (set_syncing true c)) k (λ list. sync_list-Kept fuel list _ k)))
