-- ===== src/Sync/Kept/Stored.antt =====
-- A stored entry, and the cursors of its conversation.
use family_messenger_e2e.Base.{
  ℕ, ◌≡◌, refl, Text, Option, some, Option-cases, Bool-cases, inl, inr, [], ◌∷◌, arith, ◌∙◌, ap,
  ltb, leb, ◌||◌,
}
use family_messenger_e2e.Base.Dict.{lookup}
use family_messenger_e2e.Model.Database.{Conversation, StoredMessage, put_message}
use family_messenger_e2e.Model.Client.{Client, World, emit}
use family_messenger_e2e.Model.Payload.{Payload, text_edit, conv_create, member_add, member_remove}
use family_messenger_e2e.Sync.Stored.{
  apply_membership, follow_membership, with_cursors, with_preview, with_own, announce, maybe_notify,
  unhide_chat, drop_pending, keep_message, spoken, store_message, apply_known, apply_stored,
  is_missing, merge_loaded,
}
use family_messenger_e2e.Sync.Previews.{preview_of, is_expired}
use family_messenger_e2e.Sync.Kept.{Grows, IsSameBook, IsKept}
use family_messenger_e2e.Sync.Kept.Observed.{apply_roster-Kept, conversations-apply_roster}
use family_messenger_e2e.Sync.Kept.Rewritten.{
  update_loaded-IsSameBook, apply_edit-Kept, advance_silently-Kept,
}

-- Steps of cursors, one after the other.
pub Grows-trans : {a b c : Conversation} → Grows a b → Grows b c → Grows a c
Grows-trans p q = record {
  id = q.id ∙ p.id;
  synced_seq = omega (arith, p.synced_seq, q.synced_seq);
  last_seq = omega (arith, p.last_seq, q.last_seq);
  read_seq = omega (arith, p.read_seq, q.read_seq);
}

pub Grows-refl : (conv : Conversation) → Grows conv conv
Grows-refl conv = record {
  id = refl;
  synced_seq = omega arith;
  last_seq = omega arith;
  read_seq = omega arith;
}

pub with_cursors-Grows :
    (msg : StoredMessage) (conv : Conversation) → Grows conv (with_cursors msg conv)
unfolding with_cursors
with_cursors-Grows msg conv = record {
  id = refl;
  synced_seq = omega arith;
  last_seq = omega arith;
  read_seq = omega arith;
}

apply_membership-Grows :
    (p : Payload) (seq : ℕ) (next : Conversation) (c : Client)
    → Grows next (apply_membership p seq next c).1
unfolding apply_membership
apply_membership-Grows (conv_create kind name members) seq next c = record {
  id = refl;
  synced_seq = omega arith;
  last_seq = omega arith;
  read_seq = omega arith;
}
apply_membership-Grows (member_add m members) seq next c = record {
  id = refl;
  synced_seq = omega arith;
  last_seq = omega arith;
  read_seq = omega arith;
}
apply_membership-Grows _ seq next c = record {
  id = refl;
  synced_seq = omega arith;
  last_seq = omega arith;
  read_seq = omega arith;
}

-- What `follow_membership` makes of the entry extends it, and leaves the other ones alone.
pub follow_membership-Grows :
    (msg : StoredMessage) (next : Conversation) (c : Client)
    → Grows next (follow_membership msg next c).1
unfolding follow_membership
follow_membership-Grows msg next c = elim (Option-cases msg.payload) [
  | inl e ↦ rw (e, follow_membership) (Grows-refl next)
  | inr (p, e) ↦ elim (Bool-cases (ltb next.roster_seq msg.seq)) [
    | inl t ↦ rw (e, t, follow_membership) (apply_membership-Grows p msg.seq next c)
    | inr t ↦ rw (e, t, follow_membership) (Grows-refl next)
  ]
]

conversations-apply_membership :
    (p : Payload) (seq : ℕ) (next : Conversation) (c : Client)
    → (apply_membership p seq next c).0.conversations ≡ c.conversations
unfolding apply_membership
conversations-apply_membership (conv_create kind name members) seq next c =
    conversations-apply_roster members c
conversations-apply_membership (member_add m members) seq next c =
    conversations-apply_roster members c
conversations-apply_membership (member_remove id members) seq next c =
    conversations-apply_roster members c
conversations-apply_membership _ seq next c = refl

pub conversations-follow_membership :
    (msg : StoredMessage) (next : Conversation) (c : Client)
    → (follow_membership msg next c).0.conversations ≡ c.conversations
unfolding follow_membership
conversations-follow_membership msg next c = elim (Option-cases msg.payload) [
  | inl e ↦ rw (e, follow_membership) refl
  | inr (p, e) ↦ elim (Bool-cases (ltb next.roster_seq msg.seq)) [
    | inl t ↦ rw (e, t, follow_membership) (conversations-apply_membership p msg.seq next c)
    | inr t ↦ rw (e, t, follow_membership) refl
  ]
]

pub with_preview-Grows :
    (msg : StoredMessage) (shown : Text) (conv next : Conversation)
    → Grows next (with_preview msg shown conv next)
with_preview-Grows msg [] conv next = Grows-refl next
with_preview-Grows msg (x ∷ xs) conv next =
    elim (Bool-cases (is_missing conv.last_message || leb conv.synced_seq msg.seq)) [
      | inl t ↦ rw t (record {
        id = refl;
        synced_seq = omega arith;
        last_seq = omega arith;
        read_seq = omega arith;
      })
      | inr t ↦ rw t (Grows-refl next)
    ]

pub with_own-Grows :
    (account : Text) (msg : StoredMessage) (next : Conversation)
    → Grows next (with_own account msg next)
with_own-Grows account msg next = record {
  id = ground arith;
  synced_seq = ground arith;
  last_seq = ground arith;
  read_seq = ground arith;
}

-- The entry that a stored message leaves, and the state it is written over.
pub keep_message-IsSameBook : (msg : StoredMessage) (c : Client) → IsSameBook c (keep_message msg c)
unfolding drop_pending put_message
keep_message-IsSameBook msg c =
    let s =
      update_loaded-IsSameBook msg.conv_id (merge_loaded msg)
        (record c { db = put_message msg c.db }) in
    record {
      contacts = s.contacts;
      conversations = s.conversations;
      stored_contacts = s.stored_contacts;
      stored_conversations = s.stored_conversations;
    }

pub announce-IsSameBook :
    (account : Text) (conv : Conversation) (msg : StoredMessage) (shown : Text) (c : Client)
    → IsSameBook c (announce account conv msg shown c)
unfolding maybe_notify unhide_chat emit
announce-IsSameBook account conv msg shown c = elim (Option-cases (spoken msg.payload shown)) [
  | inl e ↦
      rw (e, announce)
        (record {
          contacts = refl;
          conversations = refl;
          stored_contacts = refl;
          stored_conversations = refl;
        })
  | inr (body, e) ↦
      rw (e, announce)
        (record {
          contacts = ground arith;
          conversations = ground arith;
          stored_contacts = ground arith;
          stored_conversations = ground arith;
        })
]

-- Everything but edits.
module _ (P : Client → Type 0) (kept : IsKept P) (w : World) where
  apply_membership-Kept :
      (p : Payload) (seq : ℕ) (next : Conversation) (c : Client)
      → P c
      → P (apply_membership p seq next c).0
  unfolding apply_membership
  apply_membership-Kept (conv_create kind name members) seq next c h =
      apply_roster-Kept P kept members c h
  apply_membership-Kept (member_add m members) seq next c h = apply_roster-Kept P kept members c h
  apply_membership-Kept (member_remove id members) seq next c h =
      apply_roster-Kept P kept members c h
  apply_membership-Kept _ seq next c h = h

  follow_membership-Kept :
      (msg : StoredMessage) (next : Conversation) (c : Client)
      → P c
      → P (follow_membership msg next c).0
  unfolding follow_membership
  follow_membership-Kept msg next c h = elim (Option-cases msg.payload) [
    | inl e ↦ rw (e, follow_membership) h
    | inr (p, e) ↦ elim (Bool-cases (ltb next.roster_seq msg.seq)) [
      | inl t ↦ rw (e, t, follow_membership) (apply_membership-Kept p msg.seq next c h)
      | inr t ↦ rw (e, t, follow_membership) h
    ]
  ]

  store_message-Kept :
      (account : Text) (conv : Conversation) (msg : StoredMessage) (c : Client)
      → lookup msg.conv_id c.conversations ≡ some conv
      → P c
      → P (store_message w account conv msg c)
  unfolding store_message
  store_message-Kept account conv msg c e h =
      let shown = preview_of w msg.payload msg.error in
      let d = keep_message msg c in
      let s = keep_message-IsSameBook msg c in
      let base = with_cursors msg conv in
      let next = with_preview msg shown conv (follow_membership msg base d).1 in
      let g = Grows-trans (with_cursors-Grows msg conv) (
        Grows-trans (follow_membership-Grows msg base d)
          (Grows-trans (with_preview-Grows msg shown conv _) (with_own-Grows account msg next))) in
      let k = follow_membership-Kept msg base d (kept.elsewhere c d s h) in
      let found : lookup msg.conv_id (follow_membership msg base d).0.conversations ≡ some conv =
        ap (lookup msg.conv_id) (conversations-follow_membership msg base d ∙ s.conversations)
        ∙ e in
      kept.elsewhere _ _ (announce-IsSameBook account conv msg shown _)
        (kept.extended msg.conv_id conv (with_own account msg next) _ found g k)

  apply_known-Kept :
      (account : Text) (conv : Conversation) (msg : StoredMessage) (c : Client)
      → lookup msg.conv_id c.conversations ≡ some conv
      → P c
      → P (apply_known w account conv msg c)
  unfolding apply_known
  apply_known-Kept account conv msg c e h = go msg.payload refl
    where
      go : (p : Option Payload) → msg.payload ≡ p → P (apply_known w account conv msg c)
      go (some (text_edit ref body)) q =
          rw (q, apply_known)
            (advance_silently-Kept P kept conv.id msg.seq _
              (apply_edit-Kept P kept conv.id msg ref body c h))
      go _ q = rw (q, apply_known) (store_message-Kept account conv msg c e h)

  pub apply_stored-Kept :
      (account : Text) (msg : StoredMessage) (c : Client) → P c → P (apply_stored w account msg c)
  unfolding apply_stored
  apply_stored-Kept account msg c h = elim (Option-cases (lookup msg.conv_id c.conversations)) [
    | inl e ↦ rw (e, apply_stored) h
    | inr (conv, e) ↦ elim (Bool-cases (is_expired c conv msg.server_ts)) [
      | inl t ↦ rw (e, t, apply_stored) h
      | inr t ↦ rw (e, t, apply_stored) (apply_known-Kept account conv msg c e h)
    ]
  ]
