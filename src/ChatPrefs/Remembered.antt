-- ===== src/ChatPrefs/Remembered.antt =====
-- The sets of chats, and what the storage gives back.
use family_messenger_e2e.Base.{
  ◌≡◌, ◌∙◌, refl, sym, ap, All, Option-cases, Text, Bool, true, false, not, ◌||◌, Option, some,
  none, Bool-cases, inl, inr, List, [], ◌∷◌, ◌++◌, any, filter, arith, ◌===◌, ===_iff, ===_refl,
  if◌then◌else◌, ◌or_else◌,
}
use family_messenger_e2e.Base.Dict.{lookup, insert, lookup-insert}
use family_messenger_e2e.ChatPrefs.{
  Prefs, ChatLists, has_chat, switched, sign_in, save, empty_prefs, set_pinned, set_muted,
  set_hidden, toggle_pinned, toggle_muted, hide_chat, forget_chat,
}

has_chat-append :
    (set : List Text) (id j : Text) → has_chat (set ++ id ∷ []) j ≡ (has_chat set j || id === j)
unfolding any
has_chat-append [] id j = ground arith
has_chat-append (x ∷ set) id j = ground (arith, has_chat-append set id j)

has_chat-without :
    (set : List Text) (id j : Text)
    → has_chat (filter (λ x. not (x === id)) set) j ≡ (if id === j then false else has_chat set j)
unfolding any filter
has_chat-without [] id j = ground arith
has_chat-without (x ∷ set) id j =
    ground (arith, has_chat-without set id j, ===_iff x id, ===_iff x j, ===_iff id j)

-- Switching one chat answers for that chat, and leaves every other one as it was.
has_chat-switched :
    (set : List Text) (id j : Text) (on : Bool)
    → has_chat (switched set id on) j ≡ (if id === j then on else has_chat set j)
unfolding switched
has_chat-switched set id j false = has_chat-without set id j
has_chat-switched set id j true = elim (Bool-cases (id === j)) [
  | inl t ↦ listed (has_chat set id) (ap (has_chat set) ((===_iff id j).0 t)) t
  | inr t ↦ ground (arith, t, has_chat-append set id j)
]
  where
    listed :
        (b : Bool)
        → b ≡ has_chat set j
        → (id === j) ≡ true
        → has_chat (if b then set else set ++ id ∷ []) j
          ≡ (if id === j then true else has_chat set j)
    listed true e t = ground (arith, e, t)
    listed false e t = ground (arith, e, t, has_chat-append set id j)

-- What is stored for an account.
lookup-save :
    (me other : Text) (s : ChatLists)
    → s.account ≡ some me
    → lookup other (save s).storage
      ≡ (if me === other then some s.prefs else lookup other s.storage)
unfolding save
lookup-save me other s e = rw (e, save) (lookup-insert me other s.prefs s.storage)

prefs-save : (s : ChatLists) → (save s).prefs ≡ s.prefs
unfolding save
prefs-save s = elim (Option-cases s.account) [
  | inl e ↦ rw (e, save) refl
  | inr (id, e) ↦ rw (e, save) refl
]

account-save : (s : ChatLists) → (save s).account ≡ s.account
unfolding save
account-save s = kept s.account
  where
    kept :
        (o : Option Text)
        → (elim o as (λ y. ChatLists) [
          | none ↦ s
          | some id ↦ record s { storage = insert id s.prefs s.storage }
        ]).account
          ≡ s.account
    kept none = refl
    kept (some id) = refl

-- A change of preferences that is saved: what is shown, what stands in this account's entry of the
-- storage, and what in every other one.
abbrev Saves : Text → Text → ChatLists → Prefs → ChatLists → Type 0
Saves me other s p d =
    (d.prefs ≡ p)
    × (lookup other d.storage ≡ (if me === other then some p else lookup other s.storage))

save-Saves :
    (me other : Text) (s : ChatLists) (p : Prefs)
    → s.account ≡ some me
    → Saves me other s p (save (record s { prefs = p }))
save-Saves me other s p e =
    (prefs-save (record s { prefs = p }), lookup-save me other (record s { prefs = p }) e)

-- Toggling a chat as pinned or as muted turns it around and leaves every other chat and the other
-- two lists as they were; and it is saved, for the account that is signed in and no other.
pub toggle_pinned-toggle_muted :
    (me other id j : Text) (s : ChatLists)
    → s.account ≡ some me
    → let d = toggle_pinned id s in
      let e = toggle_muted id s in
      (has_chat d.prefs.pinned j
        ≡ (if id === j then not (has_chat s.prefs.pinned id) else has_chat s.prefs.pinned j))
      × (d.prefs.muted ≡ s.prefs.muted)
      × (d.prefs.hidden ≡ s.prefs.hidden)
      × (lookup other d.storage ≡ (if me === other then some d.prefs else lookup other s.storage))
      × (has_chat e.prefs.muted j
          ≡ (if id === j then not (has_chat s.prefs.muted id) else has_chat s.prefs.muted j))
      × (e.prefs.pinned ≡ s.prefs.pinned)
      × (e.prefs.hidden ≡ s.prefs.hidden)
      × (lookup other e.storage ≡ (if me === other then some e.prefs else lookup other s.storage))
unfolding toggle_pinned set_pinned toggle_muted set_muted
toggle_pinned-toggle_muted me other id j s e =
    let pin = not (has_chat s.prefs.pinned id) in
    let p = record s.prefs { pinned = switched s.prefs.pinned id pin } in
    let (shown, stored) = save-Saves me other s p e in
    let mute = not (has_chat s.prefs.muted id) in
    let q = record s.prefs { muted = switched s.prefs.muted id mute } in
    let (shown', stored') = save-Saves me other s q e in
    let entry : Prefs → Option Prefs =
      λ x. if me === other then some x else lookup other s.storage in
    (
      ap (λ x. has_chat x.pinned j) shown ∙ has_chat-switched s.prefs.pinned id j pin,
      ap (λ x. x.muted) shown,
      ap (λ x. x.hidden) shown,
      stored ∙ ap entry (sym shown),
      ap (λ x. has_chat x.muted j) shown' ∙ has_chat-switched s.prefs.muted id j mute,
      ap (λ x. x.pinned) shown',
      ap (λ x. x.hidden) shown',
      stored' ∙ ap entry (sym shown'),
    )

-- What somebody does who has signed in, and signing in and out.
pub data Act : Type 0 where
  signs_in : Option Text → Act
  pins mutes hides forgets : (chat : Text) → Act

unfoldable pub act : Act → ChatLists → ChatLists
act (signs_in account) s = sign_in account s
act (pins chat) s = toggle_pinned chat s
act (mutes chat) s = toggle_muted chat s
act (hides chat) s = hide_chat chat s
act (forgets chat) s = forget_chat chat s

unfoldable pub acts_all : List Act → ChatLists → ChatLists
unfolding act
acts_all [] s = s
acts_all (a ∷ acts) s = acts_all acts (act a s)

abbrev pub is_account : Text → Option Text → Bool
is_account id none = false
is_account id (some other) = other === id

-- Nobody signs in as this account.
abbrev pub is_other_than : Text → Act → Bool
is_other_than id (signs_in account) = not (is_account id account)
is_other_than id (pins chat) = true
is_other_than id (mutes chat) = true
is_other_than id (hides chat) = true
is_other_than id (forgets chat) = true

-- The account is away, and the storage keeps its preferences.
record IsAway (id : Text) (p : Prefs) (s : ChatLists) : Type 0 where
  away : is_account id s.account ≡ false
  kept : lookup id s.storage ≡ some p

module _ (id : Text) (p : Prefs) where
  sign_in-IsAway :
      (account : Option Text) (s : ChatLists)
      → is_account id account ≡ false
      → lookup id s.storage ≡ some p
      → IsAway id p (sign_in account s)
  unfolding sign_in
  sign_in-IsAway none s h k = record { away = refl; kept = k }
  sign_in-IsAway (some other) s h k = record { away = h; kept = k }

  lookup-save_other :
      (s : ChatLists)
      → is_account id s.account ≡ false
      → lookup id (save s).storage ≡ lookup id s.storage
  unfolding save
  lookup-save_other s h = elim (Option-cases s.account) [
    | inl e ↦ rw (e, save) refl
    | inr (me, e) ↦
        let apart : (me === id) ≡ false = ap (is_account id) (sym e) ∙ h in
        lookup-save me id s e ∙ rw apart refl
  ]

  save-IsAway :
      (q : Prefs) (s : ChatLists) → IsAway id p s → IsAway id p (save (record s { prefs = q }))
  save-IsAway q s h = record {
    away = ap (is_account id) (account-save (record s { prefs = q })) ∙ h.away;
    kept = lookup-save_other (record s { prefs = q }) h.away ∙ h.kept;
  }

  act-IsAway :
      (a : Act) (s : ChatLists) → is_other_than id a ≡ true → IsAway id p s → IsAway id p (act a s)
  unfolding act toggle_pinned set_pinned toggle_muted set_muted hide_chat set_hidden forget_chat
  act-IsAway (signs_in account) s h k = sign_in-IsAway account s (ground (arith, h)) k.kept
  act-IsAway (pins chat) s h k = save-IsAway _ s k
  act-IsAway (mutes chat) s h k = save-IsAway _ s k
  act-IsAway (hides chat) s h k = save-IsAway _ s k
  act-IsAway (forgets chat) s h k =
      save-IsAway _ (set_muted chat false (set_pinned chat false s))
        (save-IsAway _ (set_pinned chat false s) (save-IsAway _ s k))

  acts_all-IsAway :
      (acts : List Act) (s : ChatLists)
      → All (λ a. is_other_than id a ≡ true) acts
      → IsAway id p s
      → IsAway id p (acts_all acts s)
  unfolding acts_all
  acts_all-IsAway [] s h k = k
  acts_all-IsAway (a ∷ acts) s h k = acts_all-IsAway acts (act a s) h.1 (act-IsAway a s h.0 k)

-- What was saved for an account is there again when it comes back, whoever else signed in between
-- and whatever they pinned, muted, hid and forgot.
pub sign_in-save :
    (id : Text) (other : Option Text) (acts : List Act) (s : ChatLists)
    → s.account ≡ some id
    → is_account id other ≡ false
    → All (λ a. is_other_than id a ≡ true) acts
    → (sign_in (some id) (acts_all acts (sign_in other (save s)))).prefs ≡ s.prefs
unfolding sign_in
sign_in-save id other acts s e away others =
    let found : lookup id (save s).storage ≡ some s.prefs =
      ground (arith, lookup-save id id s e, ===_refl id) in
    let k =
      acts_all-IsAway id s.prefs acts (sign_in other (save s)) others
        (sign_in-IsAway id s.prefs other (save s) away found) in
    ap (λ o. o or_else empty_prefs) k.kept
