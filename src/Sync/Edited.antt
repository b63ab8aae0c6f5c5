-- ===== src/Sync/Edited.antt =====
-- What an edit may rewrite: applyEdit of web/src/state/sync.ts.
use family_messenger_e2e.Base.{
  ◌≡◌, ◌∙◌, refl, ap, subst, ℕ, ◌<◌, Text, Bool, true, ◌&&◌, some, Bool-cases, Option-cases, inl,
  inr, ◌⊎◌, arith, List, [], ◌∷◌, ◌===◌, ===_iff, leb, filter, find, find_sound, All, All-filter,
  if◌then◌else◌,
}
use family_messenger_e2e.Base.Order.{insert_by, sort_by}
use family_messenger_e2e.Model.Database.{
  StoredMessage, Database, at_key, get_message, put_message, messages_for, message_by_client_id,
}
use family_messenger_e2e.Model.Client.{Client}
use family_messenger_e2e.Sync.Previews.{
  apply_edit, set_message_body, rewrite_body, rewritten, is_text, can_edit,
}
use family_messenger_e2e.Sync.Removed.{
  messages-update_loaded, update_conversation-elsewhere, find-filter_other,
}

-- Every message is the one that is found under its key.
abbrev pub IsKeyed : Database → Type 0
IsKeyed db = All (λ (m : StoredMessage). get_message m.conv_id m.seq db ≡ some m) db.messages

module _ {A : Type 0} (P : A → Type 0) where
  All-insert_by : (key : A → ℕ) (x : A) (xs : List A) → P x → All P xs → All P (insert_by key x xs)
  unfolding insert_by
  All-insert_by key x [] h hs = (h, hs)
  All-insert_by key x (y ∷ ys) h hs = elim (Bool-cases (leb (key x) (key y))) [
    | inl t ↦ rw (t, insert_by) (h, hs)
    | inr t ↦ rw (t, insert_by) (hs.0, All-insert_by key x ys h hs.1)
  ]

  All-sort_by : (key : A → ℕ) (xs : List A) → All P xs → All P (sort_by key xs)
  unfolding sort_by
  All-sort_by key [] h = h
  All-sort_by key (x ∷ xs) h = All-insert_by key x _ h.0 (All-sort_by key xs h.1)

  All-find : (p : A → Bool) (xs : List A) {x : A} → All P xs → find p xs ≡ some x → P x
  unfolding find
  All-find p [] hs e = cc
  All-find p (y ∷ ys) {x} hs e = elim (Bool-cases (p y)) [
    | inl t ↦ let here : y ≡ x = ground (arith, e, t) in subst P here hs.0
    | inr t ↦ let there : find p ys ≡ some x = ground (arith, e, t) in All-find p ys hs.1 there
  ]

All-filter_test : {A : Type 0} (p : A → Bool) (xs : List A) → All (λ x. p x ≡ true) (filter p xs)
unfolding filter
All-filter_test p [] = tt
All-filter_test p (x ∷ xs) = elim (Bool-cases (p x)) [
  | inl t ↦ rw (t, filter) (t, All-filter_test p xs)
  | inr t ↦ rw (t, filter) (All-filter_test p xs)
]

-- What is found by its client id is stored under its own key, in this conversation.
found_under_key :
    (id sender ref : Text) (db : Database) (m : StoredMessage)
    → IsKeyed db
    → message_by_client_id id sender ref db ≡ some m
    → (get_message id m.seq db ≡ some m) × (m.client_msg_id ≡ ref)
unfolding message_by_client_id messages_for
found_under_key id sender ref db m keyed e =
    let here = λ (x : StoredMessage). x.conv_id === id in
    let key = λ (x : StoredMessage). x.seq in
    let own =
      All-find (λ x. get_message x.conv_id x.seq db ≡ some x) _ _
        (All-sort_by _ key _ (All-filter _ here db.messages keyed)) e in
    let inside =
      All-find (λ x. here x ≡ true) _ _ (All-sort_by _ key _ (All-filter_test here db.messages))
        e in
    let at : m.conv_id ≡ id = (===_iff m.conv_id id).0 inside in
    let test =
      find_sound (λ x. x.client_msg_id === ref && x.sender === sender) (messages_for id db) e in
    (
      subst (λ k. get_message k m.seq db ≡ some m) at own,
      ground (arith, test, ===_iff m.client_msg_id ref),
    )

-- What is stored after one message was written.
get_message-put_message :
    (id : Text) (n : ℕ) (m : StoredMessage) (db : Database)
    → get_message id n (put_message m db) ≡ (if at_key id n m then some m else get_message id n db)
unfolding get_message put_message find
get_message-put_message id n m db = elim (Bool-cases (at_key id n m)) [
  | inl t ↦ ground (arith, t)
  | inr t ↦ ground (
    arith,
    t,
    find-filter_other (at_key m.conv_id m.seq) (at_key id n) db.messages (λ x h.
        ground (arith, ===_iff x.conv_id id, ===_iff x.conv_id m.conv_id, ===_iff m.conv_id id)),
  )
]

-- What is stored after the text of a message was rewritten.
get_message-rewrite_body :
    (id : Text) (seq : ℕ) (body : Text) (m : StoredMessage) (c : Client) (at : Text) (n : ℕ)
    → get_message at n (rewrite_body id seq body m c).db
      ≡ (if at_key at n m then some m else get_message at n c.db)
unfolding rewrite_body get_message
get_message-rewrite_body id seq body m c at n =
    let messages : (rewrite_body id seq body m c).db.messages ≡ (put_message m c.db).messages =
      (update_conversation-elsewhere id _ _ _).0
      ∙ ap (λ (b : Database). b.messages) (messages-update_loaded id _ _) in
    ap (find (at_key at n)) messages ∙ get_message-put_message at n m c.db

pub get_message-set_message_body :
    (id : Text) (seq : ℕ) (body : Text) (edited : Bool) (m : StoredMessage) (c : Client) (at : Text)
    (n : ℕ)
    → get_message id seq c.db ≡ some m
    → is_text m.payload ≡ true
    → get_message at n (set_message_body id seq body edited c).db
      ≡ (if at_key at n m then some (rewritten body edited m) else get_message at n c.db)
unfolding set_message_body
get_message-set_message_body id seq body edited m c at n found t =
    rw (found, t, set_message_body)
      (get_message-rewrite_body id seq body (rewritten body edited m) c at n)

module _ (id : Text) (edit : StoredMessage) (ref body : Text) (c : Client) where
  -- The message may be rewritten by this edit.
  abbrev pub IsOwned : StoredMessage → Type 0
  IsOwned m =
      (get_message id m.seq c.db ≡ some m)
      × (m.sender ≡ edit.sender)
      × (m.client_msg_id ≡ ref)
      × (m.seq < edit.seq)
      × (is_text m.payload ≡ true)

  -- Every stored message is as it was, but for the body of at most one, which may be rewritten.
  abbrev pub Rewrites : Client → Type 0
  Rewrites d =
      ((at : Text) (n : ℕ) → get_message at n d.db ≡ get_message at n c.db)
      ⊎ ((m : StoredMessage) × IsOwned m
          × ((at : Text) (n : ℕ)
              → get_message at n d.db
                ≡ (if at_key at n m then some (rewritten body true m) else get_message at n c.db)))

  -- An edit leaves every stored message of every conversation as it was; or there is one message,
  -- stored in this conversation, a text, sent by the one who sent the edit, under the client id that
  -- the edit names, and earlier than it, whose body is rewritten, and every other stored message is
  -- as it was. Each stored message is assumed to be the one that is found under its key.
  pub get_message-apply_edit : IsKeyed c.db → Rewrites (apply_edit id edit (some ref) (some body) c)
  unfolding apply_edit
  get_message-apply_edit keyed =
      elim (Option-cases (message_by_client_id id edit.sender ref c.db)) [
        | inl e ↦ rw (e, apply_edit) (inl (λ at n. refl))
        | inr (o, e) ↦ elim (Bool-cases (can_edit edit o)) [
          | inl t ↦
              let (found, named) = found_under_key id edit.sender ref c.db o keyed e in
              let texts : is_text o.payload ≡ true = ground (arith, t) in
              rw (e, t, apply_edit)
                (inr (
                  o,
                  (
                    found,
                    ground (arith, t, ===_iff o.sender edit.sender),
                    named,
                    ground (arith, t),
                    texts,
                  ),
                  λ at n. get_message-set_message_body id o.seq body true o c at n found texts,
                ))
          | inr t ↦ rw (e, t, apply_edit) (inl (λ at n. refl))
        ]
      ]
