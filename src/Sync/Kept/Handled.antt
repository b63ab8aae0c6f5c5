-- ===== src/Sync/Kept/Handled.antt =====
-- Handling one envelope.
use family_messenger_e2e.Base.{
  refl, Option, none, some, Option-cases, Bool-cases, inl, inr, Bool, true, false,
}
use family_messenger_e2e.Base.Dict.{lookup}
use family_messenger_e2e.Model.Client.{Client, World, SessionInfo, AccountKeys, emit}
use family_messenger_e2e.Model.Payload.{Payload, MessageView, call, voice}
use family_messenger_e2e.Sync.Incoming.{
  handle_incoming, handle_for, handle_envelope, pass_on, apply_deletion, with_sender, is_deletion,
}
use family_messenger_e2e.Sync.Kept.{IsSameBook, IsKept}
use family_messenger_e2e.Sync.Kept.Observed.{refresh_conversation_inline-Kept}
use family_messenger_e2e.Sync.Kept.Rewritten.{advance_silently-Kept, remove_local_message-Kept}
use family_messenger_e2e.Sync.Kept.Stored.{apply_stored-Kept}

pass_on-IsSameBook :
    (view : MessageView) (p : Option Payload) (c : Client) → IsSameBook c (pass_on view p c)
unfolding pass_on emit
pass_on-IsSameBook view (some (call id signal)) c = record {
  contacts = refl;
  conversations = refl;
  stored_contacts = refl;
  stored_conversations = refl;
}
pass_on-IsSameBook view (some (voice id signal)) c = record {
  contacts = refl;
  conversations = refl;
  stored_contacts = refl;
  stored_conversations = refl;
}
pass_on-IsSameBook view _ c = record {
  contacts = refl;
  conversations = refl;
  stored_contacts = refl;
  stored_conversations = refl;
}

module _ (P : Client → Type 0) (kept : IsKept P) (w : World) where
  apply_deletion-Kept : (view : MessageView) (c : Client) → P c → P (apply_deletion w view c)
  unfolding apply_deletion
  apply_deletion-Kept view c h = elim (Option-cases (lookup view.conv_id c.conversations)) [
    | inl e ↦ rw (e, apply_deletion) h
    | inr (conv, e) ↦
        rw (e, apply_deletion)
          (advance_silently-Kept P kept view.conv_id view.seq _
            (remove_local_message-Kept P kept w view.conv_id view.deleted_seq c h))
  ]

  with_sender-Kept : (view : MessageView) (c : Client) → P c → P (with_sender w view c)
  with_sender-Kept view c h = elim (Option-cases (lookup view.sender_account c.contacts)) [
    | inl e ↦ rw (e, with_sender) (refresh_conversation_inline-Kept P kept w view.conv_id c h)
    | inr (sender, e) ↦ rw (e, with_sender) h
  ]

  handle_envelope-Kept :
      (s : SessionInfo) (k : AccountKeys) (view : MessageView) (stored : Bool) (c : Client)
      → P c
      → P (handle_envelope w s k view stored c)
  unfolding handle_envelope
  handle_envelope-Kept s k view true c h =
      apply_stored-Kept P kept w s.account_id _ _ (with_sender-Kept view c h)
  handle_envelope-Kept s k view false c h =
      kept.elsewhere _ _ (pass_on-IsSameBook view _ _) (with_sender-Kept view c h)

  handle_for-Kept :
      (s : Option SessionInfo) (k : Option AccountKeys) (view : MessageView) (stored : Bool)
      (c : Client)
      → P c
      → P (handle_for w s k view stored c)
  unfolding handle_for
  handle_for-Kept (some s) (some k) view stored c h = elim (Bool-cases (is_deletion view stored)) [
    | inl t ↦ rw (t, handle_for) (apply_deletion-Kept view c h)
    | inr t ↦ rw (t, handle_for) (handle_envelope-Kept s k view stored c h)
  ]
  handle_for-Kept none k view stored c h = h
  handle_for-Kept (some s) none view stored c h = h

  -- Every branch of the handler keeps what the laws keep.
  pub handle_incoming-Kept :
      (view : MessageView) (stored : Bool) (c : Client) → P c → P (handle_incoming w view stored c)
  unfolding handle_incoming
  handle_incoming-Kept view stored c h = handle_for-Kept c.session c.keys view stored c h
