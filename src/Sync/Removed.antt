-- ===== src/Sync/Removed.antt =====
-- Deleting a message: the database, and what is loaded.
use family_messenger_e2e.Base.{
  ◌≡◌, ◌∙◌, refl, ap, ℕ, Text, Bool, true, false, not, ◌&&◌, some, none, Option-cases, Bool-cases,
  inl, inr, arith, List, [], ◌∷◌, ◌===◌, ===_iff, ===_refl, ◌==◌, ◌or_else◌, filter, any, find,
}
use family_messenger_e2e.Base.Dict.{Dict, lookup, insert, lookup-insert}
use family_messenger_e2e.Model.Database.{
  Conversation, StoredMessage, Database, at_key, get_message, delete_stored_message,
  put_conversation,
}
use family_messenger_e2e.Model.Client.{
  Client, World, persist_conversation, set_conversation, set_messages,
}
use family_messenger_e2e.Sync.Previews.{update_loaded, update_conversation, remove_local_message}
use family_messenger_e2e.Sync.Stored.{has_seq}

-- Nothing that a filter dropped is found.
find-filter : {A : Type 0} (p : A → Bool) (xs : List A) → find p (filter (λ x. not (p x)) xs) ≡ none
unfolding find filter
find-filter p [] = refl
find-filter p (x ∷ xs) = ground (arith, find-filter p xs)

any-filter : {A : Type 0} (p : A → Bool) (xs : List A) → any p (filter (λ x. not (p x)) xs) ≡ false
unfolding any filter
any-filter p [] = refl
any-filter p (x ∷ xs) = ground (arith, any-filter p xs)

-- What another test finds is still found.
pub find-filter_other :
    {A : Type 0} (p q : A → Bool) (xs : List A)
    → ((x : A) → q x ≡ true → p x ≡ false)
    → find q (filter (λ x. not (p x)) xs) ≡ find q xs
unfolding find filter
find-filter_other p q [] h = refl
find-filter_other p q (x ∷ xs) h = ground (arith, find-filter_other p q xs h, h x)

pub messages-update_loaded :
    (id : Text) (f : List StoredMessage → List StoredMessage) (c : Client)
    → (update_loaded id f c).db ≡ c.db
unfolding update_loaded set_messages
messages-update_loaded id f c = elim (Option-cases (lookup id c.loaded)) [
  | inl e ↦ rw (e, update_loaded) refl
  | inr (list, e) ↦ rw (e, update_loaded) refl
]

unseen-update_loaded :
    (id : Text) (seq : ℕ) (f : List StoredMessage → List StoredMessage) (c : Client)
    → ((old : List StoredMessage) → has_seq seq (f old) ≡ false)
    → has_seq seq (lookup id (update_loaded id f c).loaded or_else []) ≡ false
unfolding update_loaded set_messages any
unseen-update_loaded id seq f c h = elim (Option-cases (lookup id c.loaded)) [
  | inl e ↦ rw (e, update_loaded) (rw e refl)
  | inr (old, e) ↦
      let read : lookup id (insert id (f old) c.loaded) ≡ some (f old) =
        ground (arith, lookup-insert id id (f old) c.loaded, ===_refl id) in
      rw (e, update_loaded) (rw read (h old))
]

pub update_conversation-elsewhere :
    (id : Text) (test : Conversation → Bool) (f : Conversation → Conversation) (c : Client)
    → ((update_conversation id test f c).db.messages ≡ c.db.messages)
      × ((update_conversation id test f c).loaded ≡ c.loaded)
unfolding update_conversation persist_conversation set_conversation put_conversation
update_conversation-elsewhere id test f c = elim (Option-cases (lookup id c.conversations)) [
  | inl e ↦ rw (e, update_conversation) (refl, refl)
  | inr (conv, e) ↦ elim (Bool-cases (test conv)) [
    | inl t ↦ rw (e, t, update_conversation) (refl, refl)
    | inr t ↦ rw (e, t, update_conversation) (refl, refl)
  ]
]

-- A message stands under one key.
keys_differ :
    (id other : Text) (seq n : ℕ) (m : StoredMessage)
    → (other === id && n == seq) ≡ false
    → at_key other n m ≡ true
    → at_key id seq m ≡ false
keys_differ id other seq n m apart h =
    ground (arith, ===_iff m.conv_id other, ===_iff m.conv_id id, ===_iff other id)

module _ (w : World) where
  -- After a deletion the database does not hold the message, what is loaded of the conversation, if
  -- anything is, does not show it, and a message under another key is as it was.
  pub remove_local_message-Forgets :
      (id : Text) (seq : ℕ) (c : Client) (other : Text) (n : ℕ)
      → (other === id && n == seq) ≡ false
      → (let d = remove_local_message w id seq c in
          (get_message id seq d.db ≡ none)
          × (has_seq seq (lookup id d.loaded or_else []) ≡ false)
          × (get_message other n d.db ≡ get_message other n c.db))
  unfolding remove_local_message get_message delete_stored_message
  remove_local_message-Forgets id seq c other n apart =
      let d = remove_local_message w id seq c in
      let kept : d.db.messages ≡ filter (λ m. not (at_key id seq m)) c.db.messages =
        (update_conversation-elsewhere id _ _ _).0
        ∙ ap (λ (b : Database). b.messages) (messages-update_loaded id _ _) in
      let shown = (update_conversation-elsewhere id _ _ _).1 in
      let hide : List StoredMessage → List StoredMessage =
        filter (λ (m : StoredMessage). not (m.seq == seq)) in
      let hidden =
        λ (old : List StoredMessage). any-filter (λ (m : StoredMessage). m.seq == seq) old in
      (
        ap (find (at_key id seq)) kept ∙ find-filter (at_key id seq) c.db.messages,
        ap (λ (x : Dict (List StoredMessage)). has_seq seq (lookup id x or_else [])) shown
            ∙ unseen-update_loaded id seq hide _ hidden,
        ap (find (at_key other n)) kept
            ∙ find-filter_other (at_key id seq) (at_key other n) c.db.messages
                (λ m. keys_differ id other seq n m apart),
      )
