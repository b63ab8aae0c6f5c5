-- ===== src/Sync/Kept/Rewritten.antt =====
-- Editing and removing stored messages.
use family_messenger_e2e.Base.{
  ℕ, refl, Text, Option, none, some, Option-cases, Bool-cases, inl, inr, Bool, true, List, arith,
}
use family_messenger_e2e.Base.Dict.{lookup}
use family_messenger_e2e.Model.Database.{
  Conversation, StoredMessage, get_message, put_message, delete_stored_message,
  message_by_client_id,
}
use family_messenger_e2e.Model.Client.{Client, World, set_messages, emit, mark_read}
use family_messenger_e2e.Sync.Previews.{
  update_loaded, update_conversation, rewrite_body, set_message_body, apply_edit, advanced,
  advance_silently, remove_local_message, is_next_unread, retext, is_text, can_edit,
}
use family_messenger_e2e.Sync.Kept.{Grows, IsSameBook, IsKept}

-- What is loaded of a conversation is no part of the book.
pub update_loaded-IsSameBook :
    (id : Text) (f : List StoredMessage → List StoredMessage) (c : Client)
    → IsSameBook c (update_loaded id f c)
unfolding update_loaded set_messages
update_loaded-IsSameBook id f c = elim (Option-cases (lookup id c.loaded)) [
  | inl e ↦
      rw (e, update_loaded)
        (record {
          contacts = refl;
          conversations = refl;
          stored_contacts = refl;
          stored_conversations = refl;
        })
  | inr (list, e) ↦
      rw (e, update_loaded)
        (record {
          contacts = refl;
          conversations = refl;
          stored_contacts = refl;
          stored_conversations = refl;
        })
]

pub advanced-Grows : (conv : Conversation) (seq : ℕ) → Grows conv (advanced conv seq)
unfolding advanced
advanced-Grows conv seq = record {
  id = refl;
  synced_seq = omega arith;
  last_seq = omega arith;
  read_seq = ground arith;
}

module _ (P : Client → Type 0) (kept : IsKept P) where
  pub update_loaded-Kept :
      (id : Text) (f : List StoredMessage → List StoredMessage) (c : Client)
      → P c
      → P (update_loaded id f c)
  update_loaded-Kept id f c h = kept.elsewhere c _ (update_loaded-IsSameBook id f c) h

  pub update_conversation-Kept :
      (id : Text) (test : Conversation → Bool) (f : Conversation → Conversation) (c : Client)
      → ((conv : Conversation) → Grows conv (f conv))
      → P c
      → P (update_conversation id test f c)
  unfolding update_conversation
  update_conversation-Kept id test f c g h = elim (Option-cases (lookup id c.conversations)) [
    | inl e ↦ rw (e, update_conversation) h
    | inr (conv, e) ↦ elim (Bool-cases (test conv)) [
      | inl t ↦ rw (e, t, update_conversation) (kept.extended id conv (f conv) c e (g conv) h)
      | inr t ↦ rw (e, t, update_conversation) h
    ]
  ]

  retexted-Grows :
      (body : Text) (conv : Conversation)
      → Grows conv (record conv { last_message = retext body conv.last_message })
  retexted-Grows body conv = record {
    id = refl;
    synced_seq = omega arith;
    last_seq = omega arith;
    read_seq = omega arith;
  }

  rewrite_body-Kept :
      (id : Text) (seq : ℕ) (body : Text) (m : StoredMessage) (c : Client)
      → P c
      → P (rewrite_body id seq body m c)
  unfolding rewrite_body put_message
  rewrite_body-Kept id seq body m c h = update_conversation-Kept id _ _ _ (retexted-Grows body) (
      update_loaded-Kept id _ _ (
        kept.elsewhere c _
          ((record {
            contacts = refl;
            conversations = refl;
            stored_contacts = refl;
            stored_conversations = refl;
          }))
          h))

  set_message_body-Kept :
      (id : Text) (seq : ℕ) (body : Text) (edited : Bool) (c : Client)
      → P c
      → P (set_message_body id seq body edited c)
  unfolding set_message_body
  set_message_body-Kept id seq body edited c h = elim (Option-cases (get_message id seq c.db)) [
    | inl e ↦ rw (e, set_message_body) h
    | inr (m, e) ↦ elim (Bool-cases (is_text m.payload)) [
      | inl t ↦ rw (e, t, set_message_body) (rewrite_body-Kept id seq body _ c h)
      | inr t ↦ rw (e, t, set_message_body) h
    ]
  ]

  pub apply_edit-Kept :
      (id : Text) (edit : StoredMessage) (ref body : Option Text) (c : Client)
      → P c
      → P (apply_edit id edit ref body c)
  unfolding apply_edit
  apply_edit-Kept id edit none body c h = h
  apply_edit-Kept id edit (some ref) none c h = h
  apply_edit-Kept id edit (some ref) (some body) c h =
      elim (Option-cases (message_by_client_id id edit.sender ref c.db)) [
        | inl e ↦ rw (e, apply_edit) h
        | inr (m, e) ↦ elim (Bool-cases (can_edit edit m)) [
          | inl t ↦ rw (e, t, apply_edit) (set_message_body-Kept id m.seq body true c h)
          | inr t ↦ rw (e, t, apply_edit) h
        ]
      ]

  pub advance_silently-Kept :
      (id : Text) (seq : ℕ) (c : Client) → P c → P (advance_silently id seq c)
  unfolding advance_silently
  advance_silently-Kept id seq c h = elim (Option-cases (lookup id c.conversations)) [
    | inl e ↦ rw (e, advance_silently) h
    | inr (conv, e) ↦ elim (Bool-cases (is_next_unread conv seq)) [
      | inl t ↦
          rw (e, t, advance_silently)
            (kept.extended id conv (advanced conv seq) (emit (mark_read id seq) c)
              (unfold emit in e) (advanced-Grows conv seq)
              (kept.elsewhere c _
                (unfold emit in
                  record {
                    contacts = refl;
                    conversations = refl;
                    stored_contacts = refl;
                    stored_conversations = refl;
                  })
                h))
      | inr t ↦
          rw (e, t, advance_silently)
            (kept.extended id conv (advanced conv seq) c e (advanced-Grows conv seq) h)
    ]
  ]

  module _ (w : World) where
    pub remove_local_message-Kept :
        (id : Text) (seq : ℕ) (c : Client) → P c → P (remove_local_message w id seq c)
    unfolding remove_local_message delete_stored_message
    remove_local_message-Kept id seq c h =
        update_conversation-Kept id _ _ _
          (λ conv. record {
            id = refl;
            synced_seq = omega arith;
            last_seq = omega arith;
            read_seq = omega arith;
          })
          (update_loaded-Kept id _ _ (
            kept.elsewhere c _
              ((record {
                contacts = refl;
                conversations = refl;
                stored_contacts = refl;
                stored_conversations = refl;
              }))
              h))
