-- ===== src/Sync/Kept/Observed.antt =====
-- Taking over members and conversations from the server and from signed events.
use family_messenger_e2e.Base.{
  ◌≡◌, refl, Text, Option, none, some, Option-cases, inl, inr, Bool, true, false, if◌then◌else◌,
  List, [], ◌∷◌, arith, ◌∙◌,
}
use family_messenger_e2e.Base.Dict.{lookup}
use family_messenger_e2e.Base.Outcome.{Outcome, ok, err}
use family_messenger_e2e.Crypto.Bytes.Base64.{b64decode}
use family_messenger_e2e.Model.Payload.{MemberInfo, MemberView, ConversationView}
use family_messenger_e2e.Model.Database.{PublicKeys, Conversation}
use family_messenger_e2e.Model.Client.{
  Client, World, persist_conversation, save_contact, set_contact,
}
use family_messenger_e2e.Model.Task.{Task, continue, counted}
use family_messenger_e2e.Sync.Contacts.{
  observe_keys, observe_known, observe_members, apply_roster, usable,
}
use family_messenger_e2e.Sync.Conversations.{
  merge_view, upserted, upsert_from_server, fetch_conversation, refresh_conversation_inline,
}
use family_messenger_e2e.Sync.Kept.{Grows, IsKept}

-- Keys are pinned without touching a conversation.
pub conversations-observe_keys :
    (id username : Text) (keys : PublicKeys) (bot : Option Bool) (shown : Option Text) (c : Client)
    → (observe_keys id username keys bot shown c).conversations ≡ c.conversations
unfolding observe_keys observe_known save_contact set_contact
conversations-observe_keys id username keys bot shown c = ground arith

pub conversations-apply_roster :
    (members : List MemberInfo) (c : Client)
    → (apply_roster members c).0.conversations ≡ c.conversations
unfolding apply_roster
conversations-apply_roster [] c = refl
conversations-apply_roster (m ∷ members) c = elim (Option-cases (usable m)) [
  | inl e ↦ rw (e, apply_roster) (conversations-apply_roster members c)
  | inr (keys, e) ↦
      let d = observe_keys m.id m.username keys none none c in
      rw (e, apply_roster)
        (conversations-apply_roster members d
          ∙ conversations-observe_keys m.id m.username keys none none c)
]

merge_view-Grows : (cv : ConversationView) (conv : Conversation) → Grows conv (merge_view cv conv)
unfolding merge_view
merge_view-Grows cv conv = record {
  id = refl;
  synced_seq = omega arith;
  last_seq = omega arith;
  read_seq = omega arith;
}

-- A chain of actions keeps what its first action and what follows a success keep.
pub continue-Kept {ℓ} :
    {A B : Type ℓ} (P : Client → Type 0) (r : Outcome A) (f : A → Task B) (c : Client)
    → P c
    → ((a : A) → P (f a c).1)
    → P (continue f r c).1
continue-Kept P (ok a) f c h k = k a
continue-Kept P (err e) f c h k = h

pub either_branch :
    (P : Client → Type 0) (b : Bool) {c d : Client} → P c → P d → P (if b then c else d)
either_branch P true h k = h
either_branch P false h k = k

module _ (P : Client → Type 0) (kept : IsKept P) where
  pub apply_roster-Kept :
      (members : List MemberInfo) (c : Client) → P c → P (apply_roster members c).0
  unfolding apply_roster
  apply_roster-Kept [] c h = h
  apply_roster-Kept (m ∷ members) c h = elim (Option-cases (usable m)) [
    | inl e ↦ rw (e, apply_roster) (apply_roster-Kept members c h)
    | inr (keys, e) ↦
        rw (e, apply_roster)
          (apply_roster-Kept members _ (kept.observed m.id m.username keys none none c h))
  ]

  observe_members-Kept :
      (members : List MemberView) (c : Client) → P c → P (observe_members members c).1
  unfolding observe_members
  observe_members-Kept [] c h = h
  observe_members-Kept (m ∷ members) c h = continue-Kept P (b64decode m.sign_pub) _ c h λ sign_pub.
      continue-Kept P (b64decode m.enc_pub) _ c h λ enc_pub. observe_members-Kept members _ (
        kept.observed m.id m.username (record { sign_pub = sign_pub; enc_pub = enc_pub })
          (some m.is_bot) m.display_name c h)

  upserted-Kept :
      (cv : ConversationView) (c : Client) → P c → P (persist_conversation (upserted cv c) c)
  upserted-Kept cv c h = elim (Option-cases (lookup cv.id c.conversations)) [
    | inl e ↦ kept.opened (upserted cv c) c (rw e (unfold merge_view in e)) h
    | inr (conv, e) ↦
        kept.extended cv.id conv (upserted cv c) c e (rw e (merge_view-Grows cv conv)) h
  ]

  pub upsert_from_server-Kept :
      (cv : ConversationView) (c : Client) → P c → P (upsert_from_server cv c).1
  unfolding upsert_from_server
  upsert_from_server-Kept cv c h =
      let k = observe_members-Kept cv.members c h in
      continue-Kept P (observe_members cv.members c).0 _ _ k (λ x. upserted-Kept cv _ k)

  module _ (w : World) where
    pub fetch_conversation-Kept : (id : Text) (c : Client) → P c → P (fetch_conversation w id c).1
    unfolding fetch_conversation
    fetch_conversation-Kept id c h =
        kept.elsewhere c (counted c)
          (record {
            contacts = refl;
            conversations = refl;
            stored_contacts = refl;
            stored_conversations = refl;
          })
          h

    pub refresh_conversation_inline-Kept :
        (id : Text) (c : Client) → P c → P (refresh_conversation_inline w id c)
    unfolding refresh_conversation_inline
    refresh_conversation_inline-Kept id c h =
        let k = fetch_conversation-Kept id c h in
        continue-Kept P (fetch_conversation w id c).0 _ _ k λ cv.
          let j = upsert_from_server-Kept cv _ k in
          continue-Kept P (upsert_from_server cv (fetch_conversation w id c).1).0 _ _ j (λ conv. j)
