-- ===== src/Sync/Purged.antt =====
-- Disappearing messages: what the purge deletes and what it spares.
use family_messenger_e2e.Base.{
  ◌≡◌, ◌∙◌, refl, ap, ℕ, ◌*◌, ◌-◌, ◌<◌, Text, Bool, true, not, ◌&&◌, some, Bool-cases, Option-cases,
  inl, inr, arith, List, [], ◌∷◌, ◌===◌, ltb, filter, find, All, All-filter, min,
}
use family_messenger_e2e.Base.Dict.{lookup, values}
use family_messenger_e2e.Model.Database.{
  Conversation, StoredMessage, Database, at_key, is_old, get_message, delete_messages_before,
  put_conversation,
}
use family_messenger_e2e.Model.Client.{Client, persist_conversation, set_conversation, set_messages}
use family_messenger_e2e.Sync.Previews.{update_loaded, effective_retention, is_expired, capped}
use family_messenger_e2e.Sync.Events.{
  purge_before, purge_conversation, purge_all, purge_expired, previewed_before,
}
use family_messenger_e2e.Sync.Removed.{messages-update_loaded}

-- The timer of a conversation under a server-wide limit: none where neither is set, the one that is
-- set, or the shorter of the two.
capped-min :
    (global r : ℕ)
    → (global ≡ 0 → capped global r ≡ r)
      × (r ≡ 0 → capped global r ≡ global)
      × (0 < global → 0 < r → capped global r ≡ min global r)
capped-min global r = (λ h. ground arith, λ h. ground arith, λ h k. ground arith)

-- The clock and the limit that a purge reads.
abbrev IsSameClock : Client → Client → Type 0
IsSameClock c d = (d.now ≡ c.now) × (d.retention_days ≡ c.retention_days)

-- Does the retention of this conversation spare the message?
abbrev pub is_spared : Client → Conversation → StoredMessage → Bool
is_spared c conv m = not (m.conv_id === conv.id && is_expired c conv m.server_ts)

filter_ext :
    {A : Type 0} (p q : A → Bool) (xs : List A) → ((x : A) → p x ≡ q x) → filter p xs ≡ filter q xs
unfolding filter
filter_ext p q [] h = refl
filter_ext p q (x ∷ xs) h = ground (arith, filter_ext p q xs h, h x)

filter_all : {A : Type 0} (p : A → Bool) (xs : List A) → ((x : A) → p x ≡ true) → xs ≡ filter p xs
unfolding filter
filter_all p [] h = refl
filter_all p (x ∷ xs) h = ground (arith, filter_all p xs h, h x)

find-filter_kept :
    {A : Type 0} (p q : A → Bool) (xs : List A) {x : A}
    → find q xs ≡ some x
    → p x ≡ true
    → find q (filter p xs) ≡ some x
unfolding find filter
find-filter_kept p q [] h k = cc
find-filter_kept p q (y ∷ xs) {x} h k = elim (Bool-cases (q y)) [
  | inl t ↦
      let here : y ≡ x = ground (arith, h, t) in
      let keep : p y ≡ true = ap p here ∙ k in ground (arith, t, keep, here)
  | inr t ↦
      let there : find q xs ≡ some x = ground (arith, h, t) in
      ground (arith, t, find-filter_kept p q xs {x = x} there k)
]

clock-update_loaded :
    (id : Text) (f : List StoredMessage → List StoredMessage) (c : Client)
    → IsSameClock c (update_loaded id f c)
unfolding update_loaded set_messages
clock-update_loaded id f c = elim (Option-cases (lookup id c.loaded)) [
  | inl e ↦ rw (e, update_loaded) (refl, refl)
  | inr (list, e) ↦ rw (e, update_loaded) (refl, refl)
]

purge_before-filter :
    (cutoff : ℕ) (conv : Conversation) (c : Client)
    → ((purge_before cutoff conv c).db.messages
        ≡ filter (λ m. not (is_old conv.id cutoff m)) c.db.messages)
      × IsSameClock c (purge_before cutoff conv c)
unfolding purge_before delete_messages_before persist_conversation set_conversation put_conversation
purge_before-filter cutoff conv c =
    let r = delete_messages_before conv.id cutoff c.db in
    let d = record c { db = r.1 } in
    let f = filter (λ (m : StoredMessage). not (ltb m.server_ts cutoff)) in
    let same = ap (λ (b : Database). b.messages) (messages-update_loaded conv.id f d) in
    let clock = clock-update_loaded conv.id f d in
    elim (Bool-cases (ltb 0 r.0 && previewed_before cutoff conv.last_message)) [
      | inl t ↦ rw t (same, clock)
      | inr t ↦ rw t (same, clock)
    ]

-- A purge of one conversation filters the database and leaves the clock.
purge_conversation-filter :
    (conv : Conversation) (c : Client)
    → ((purge_conversation conv c).db.messages ≡ filter (is_spared c conv) c.db.messages)
      × IsSameClock c (purge_conversation conv c)
unfolding purge_conversation is_expired
purge_conversation-filter conv c =
    let cutoff = c.now - effective_retention c conv * 1000 in
    elim (Bool-cases (ltb 0 (effective_retention c conv))) [
      | inl t ↦
          let r = purge_before-filter cutoff conv c in
          rw (t, purge_conversation)
            (r.0 ∙ filter_ext _ _ c.db.messages (λ m. ground (arith, t)), r.1)
      | inr t ↦
          rw (t, purge_conversation)
            (filter_all (is_spared c conv) c.db.messages (λ m. ground (arith, t)), (refl, refl))
    ]

-- A conversation's retention reads the clock and the limit only.
is_spared-clock :
    (c d : Client) (conv : Conversation) (m : StoredMessage)
    → IsSameClock c d
    → is_spared d conv m ≡ is_spared c conv m
unfolding is_expired effective_retention
is_spared-clock c d conv m (h, k) = rw (h, k) refl

module _ (c : Client) where
  -- No message is left that the retention of this conversation has expired.
  abbrev pub IsClean : Conversation → List StoredMessage → Type 0
  IsClean conv = All (λ m. is_spared c conv m ≡ true)

  All-filter_self : {A : Type 0} (p : A → Bool) (xs : List A) → All (λ x. p x ≡ true) (filter p xs)
  unfolding filter
  All-filter_self p [] = tt
  All-filter_self p (x ∷ xs) = elim (Bool-cases (p x)) [
    | inl t ↦ rw (t, filter) (t, All-filter_self p xs)
    | inr t ↦ rw (t, filter) (All-filter_self p xs)
  ]

  purge_conversation-IsClean :
      (conv : Conversation) (d : Client)
      → IsSameClock c d
      → IsClean conv (purge_conversation conv d).db.messages
  purge_conversation-IsClean conv d same =
      rw
        ((purge_conversation-filter conv d).0
          ∙ filter_ext (is_spared d conv) (is_spared c conv) d.db.messages
              (λ m. is_spared-clock c d conv m same))
        (All-filter_self (is_spared c conv) d.db.messages)

  clock_after :
      (conv : Conversation) (d : Client)
      → IsSameClock c d
      → IsSameClock c (purge_conversation conv d)
  clock_after conv d same =
      let k = (purge_conversation-filter conv d).1 in (k.0 ∙ same.0, k.1 ∙ same.1)

  purge_all-IsClean_still :
      (conv : Conversation) (convs : List Conversation) (d : Client)
      → IsClean conv d.db.messages
      → IsClean conv (purge_all convs d).db.messages
  unfolding purge_all
  purge_all-IsClean_still conv [] d h = h
  purge_all-IsClean_still conv (other ∷ convs) d h = purge_all-IsClean_still conv convs _ (
      rw ((purge_conversation-filter other d).0)
        (All-filter (λ m. is_spared c conv m ≡ true) (is_spared d other) d.db.messages h))

  purge_all-IsClean :
      (convs : List Conversation) (d : Client)
      → IsSameClock c d
      → All (λ conv. IsClean conv (purge_all convs d).db.messages) convs
  unfolding purge_all
  purge_all-IsClean [] d same = tt
  purge_all-IsClean (conv ∷ convs) d same = (
    purge_all-IsClean_still conv convs _ (purge_conversation-IsClean conv d same),
    purge_all-IsClean convs _ (clock_after conv d same),
  )

  purge_all-Spares :
      (convs : List Conversation) (d : Client) (id : Text) (seq : ℕ) (m : StoredMessage)
      → IsSameClock c d
      → All (λ conv. is_spared c conv m ≡ true) convs
      → get_message id seq d.db ≡ some m
      → get_message id seq (purge_all convs d).db ≡ some m
  unfolding purge_all get_message
  purge_all-Spares [] d id seq m same h e = e
  purge_all-Spares (conv ∷ convs) d id seq m same h e =
      purge_all-Spares convs _ id seq m (clock_after conv d same) h.1 (
        ap (find (at_key id seq)) (purge_conversation-filter conv d).0
        ∙ find-filter_kept (is_spared d conv) (at_key id seq) d.db.messages e
            (is_spared-clock c d conv m same ∙ h.0))

  -- After a purge no stored message of any conversation of the client is past its retention.
  pub purge_expired-IsClean :
      All (λ conv. IsClean conv (purge_expired c).db.messages) (values c.conversations)
  unfolding purge_expired
  purge_expired-IsClean = purge_all-IsClean (values c.conversations) c (refl, refl)

  -- A purge spares a stored message that is past the retention of no conversation of the client.
  pub purge_expired-Spares :
      (id : Text) (seq : ℕ) (m : StoredMessage)
      → All (λ conv. is_spared c conv m ≡ true) (values c.conversations)
      → get_message id seq c.db ≡ some m
      → get_message id seq (purge_expired c).db ≡ some m
  unfolding purge_expired
  purge_expired-Spares id seq m h e =
      purge_all-Spares (values c.conversations) c id seq m (refl, refl) h e
