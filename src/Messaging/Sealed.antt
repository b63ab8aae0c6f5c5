-- ===== src/Messaging/Sealed.antt =====
-- The accounts that an outgoing message is sealed to, and the keys.
use family_messenger_e2e.Base.{
  ◌≡◌, ◌∙◌, refl, sym, ap, subst, Text, Bool, true, false, not, ◌&&◌, ◌||◌, Option, none, some,
  Bool-cases, inl, inr, List, [], ◌∷◌, ◌++◌, map, filter, any, All, arith, ◌===◌, ===_iff,
  ◌or_else◌, if◌then◌else◌,
}
use family_messenger_e2e.Base.Dict.{Dict, lookup}
use family_messenger_e2e.Base.Outcome.{
  ok, err, bind_inv, ok-injective, no_keys_for_member, keys_changed,
}
use family_messenger_e2e.Crypto.Envelope.Header.{Recipient}
use family_messenger_e2e.Model.Database.{PublicKeys, Contact, Conversation}
use family_messenger_e2e.Messaging.Recipients.{
  includes, is_bot, add_bots, vouched, sealing_members, recipient_of, recipients_of, recipients_for,
}

module _ (contacts : Dict Contact) where
  -- A recipient's key is the pinned key of a contact with no unconfirmed keys.
  pub record IsPinnedKey (r : Recipient) : Type 0 where
    pub contact : Contact
    pub known : lookup r.account contacts ≡ some contact
    pub confirmed : contact.pending_keys ≡ none
    pub key : r.enc_pub ≡ contact.enc_pub

  recipient_of-IsPinnedKey :
      (id : Text) (r : Recipient)
      → recipient_of contacts id ≡ ok r
      → (r.account ≡ id) × IsPinnedKey r
  unfolding recipient_of
  recipient_of-IsPinnedKey id r h = go (lookup id contacts) refl
    where
      go : (o : Option Contact) → lookup id contacts ≡ o → (r.account ≡ id) × IsPinnedKey r
      go none q =
          let e : recipient_of contacts id ≡ err no_keys_for_member = rw (q, recipient_of) refl in
          cc (h, e)
      go (some k) q = opened k.pending_keys refl
        where
          opened : (o : Option PublicKeys) → k.pending_keys ≡ o → (r.account ≡ id) × IsPinnedKey r
          opened (some p) f =
              let e : recipient_of contacts id ≡ err keys_changed = rw (q, f, recipient_of) refl in
              cc (h, e)
          opened none f =
              let made : Recipient = record { account = id; enc_pub = k.enc_pub } in
              let e : recipient_of contacts id ≡ ok made = rw (q, f, recipient_of) refl in
              let same : made ≡ r = ok-injective (sym e ∙ h) in
              subst (λ x. (x.account ≡ id) × IsPinnedKey x) same
                (refl, record { contact = k; known = q; confirmed = f; key = refl })

  recipients_of-IsPinnedKey :
      (ids : List Text) (rs : List Recipient)
      → recipients_of contacts ids ≡ ok rs
      → (map (λ (r : Recipient). r.account) rs ≡ ids) × All IsPinnedKey rs
  unfolding recipients_of
  recipients_of-IsPinnedKey [] rs h =
      subst (λ x. (map (λ (r : Recipient). r.account) x ≡ []) × All IsPinnedKey x) (ok-injective h)
        (refl, tt)
  recipients_of-IsPinnedKey (id ∷ ids) rs h =
      let (r, e, h1) = bind_inv (recipient_of contacts id) _ h in
      let (rest, f, h2) = bind_inv (recipients_of contacts ids) _ h1 in
      let (account, p) = recipient_of-IsPinnedKey id r e in
      let (accounts, ps) = recipients_of-IsPinnedKey ids rest f in
      subst (λ x. (map (λ (r : Recipient). r.account) x ≡ id ∷ ids) × All IsPinnedKey x)
        (ok-injective h2) (cc (account, accounts), (p, ps))

  -- Where a message is sealed at all, it is sealed to exactly the members that `sealingMembers` lists,
  -- each under the key that is pinned for them, and none of them has unconfirmed new keys.
  pub recipients_for-IsPinnedKey :
      (conv : Conversation) (me : Text) (rs : List Recipient)
      → recipients_for contacts conv me ≡ ok rs
      → (map (λ (r : Recipient). r.account) rs ≡ sealing_members contacts conv me)
        × All IsPinnedKey rs
  unfolding recipients_for
  recipients_for-IsPinnedKey conv me rs h =
      recipients_of-IsPinnedKey (sealing_members contacts conv me) rs h

any-append :
    {A : Type 0} (p : A → Bool) (xs ys : List A) → any p (xs ++ ys) ≡ (any p xs || any p ys)
unfolding any
any-append p [] ys = refl
any-append p (x ∷ xs) ys = ground (arith, any-append p xs ys)

includes-filter :
    (p : Text → Bool) (xs : List Text) (id : Text)
    → includes (filter p xs) id ≡ (includes xs id && p id)
unfolding any filter
includes-filter p [] id = refl
includes-filter p (x ∷ xs) id = elim (Bool-cases (x === id)) [
  | inl t ↦
      let e : p x ≡ p id = ap p ((===_iff x id).0 t) in
      ground (arith, t, e, includes-filter p xs id)
  | inr t ↦ ground (arith, t, includes-filter p xs id)
]

-- One bot more, if it is not there yet.
includes-add_bot :
    (contacts : Dict Contact) (ids : List Text) (x id : Text)
    → includes (if not (includes ids x) && is_bot contacts x then ids ++ x ∷ [] else ids) id
      ≡ (includes ids id || (x === id && is_bot contacts id))
unfolding any
includes-add_bot contacts ids x id = elim (Bool-cases (x === id)) [
  | inl t ↦
      let same : x ≡ id = (===_iff x id).0 t in
      let b : is_bot contacts x ≡ is_bot contacts id = ap (is_bot contacts) same in
      let i : includes ids x ≡ includes ids id = ap (includes ids) same in
      choose t (is_bot contacts x) (includes ids x) b i
  | inr t ↦ choose_other t (not (includes ids x) && is_bot contacts x)
]
  where
    choose :
        (x === id) ≡ true
        → (b i : Bool) → b ≡ is_bot contacts id
        → i ≡ includes ids id
        → includes (if not i && b then ids ++ x ∷ [] else ids) id
          ≡ (includes ids id || (x === id && is_bot contacts id))
    choose t true false e f = ground (arith, t, e, f, any-append (λ y. y === id) ids (x ∷ []))
    choose t true true e f = ground (arith, t, e, f)
    choose t false false e f = ground (arith, t, e, f)
    choose t false true e f = ground (arith, t, e, f)

    choose_other :
        (x === id) ≡ false
        → (b : Bool)
        → includes (if b then ids ++ x ∷ [] else ids) id
          ≡ (includes ids id || (x === id && is_bot contacts id))
    choose_other t true = ground (arith, t, any-append (λ y. y === id) ids (x ∷ []))
    choose_other t false = ground (arith, t)

includes-add_bots :
    (contacts : Dict Contact) (server ids : List Text) (id : Text)
    → includes (add_bots contacts server ids) id
      ≡ (includes ids id || (includes server id && is_bot contacts id))
unfolding add_bots any
includes-add_bots contacts [] ids id = ground arith
includes-add_bots contacts (x ∷ server) ids id =
    let more = if not (includes ids x) && is_bot contacts x then ids ++ x ∷ [] else ids in
    bool_sum _ _ (includes ids id) (x === id) (includes server id) (is_bot contacts id)
      (includes-add_bots contacts server more id) (includes-add_bot contacts ids x id)
  where
    bool_sum :
        (r m i t s b : Bool)
        → r ≡ (m || (s && b))
        → m ≡ (i || (t && b))
        → r ≡ (i || ((t || s) && b))
    bool_sum r m i t s b e f = ground (arith, e, f)

-- Who is meant to read a message: the sender, and of the server's list those whom the signed roster,
-- where there is one, vouches for, and the bots.
abbrev pub is_meant : Dict Contact → Conversation → Text → Text → Bool
is_meant contacts conv me id =
    me === id
    || (includes conv.server_members id
        && (includes (conv.roster or_else conv.server_members) id || is_bot contacts id))

-- The sender reads along, whether listed or added.
self_too :
    (me id : Text) (r : Bool)
    → (me === id) ≡ true
    → (ids : List Text) (b : Bool) → b ≡ includes ids id
    → includes (if b then ids else ids ++ me ∷ []) id ≡ (me === id || r)
unfolding any
self_too me id r t ids true e = ground (arith, t, e)
self_too me id r t ids false e = ground (arith, t, e, any-append (λ y. y === id) ids (me ∷ []))

others :
    (me id : Text) (v b s k : Bool)
    → (me === id) ≡ false
    → (ids : List Text) (c : Bool) → includes ids id ≡ (v || (s && k))
    → v ≡ (b && s)
    → includes (if c then ids else ids ++ me ∷ []) id ≡ (me === id || (s && (b || k)))
unfolding any
others me id v b s k t ids true e f = ground (arith, t, e, f)
others me id v b s k t ids false e f =
    ground (arith, t, e, f, any-append (λ y. y === id) ids (me ∷ []))

-- An account is among those a message is sealed to exactly if it is the sender's own, or the server
-- lists it as a member and it is a bot or stands in the signed roster, or there is no such roster.
pub includes-sealing_members :
    (contacts : Dict Contact) (conv : Conversation) (me id : Text)
    → includes (sealing_members contacts conv me) id ≡ is_meant contacts conv me id
unfolding sealing_members
includes-sealing_members contacts conv me id =
    let ids = add_bots contacts conv.server_members (vouched conv) in
    let base = conv.roster or_else conv.server_members in
    let inside = includes-add_bots contacts conv.server_members (vouched conv) id in
    let chosen = includes-filter (includes conv.server_members) base id in
    with_self (includes (vouched conv) id) (includes base id) (includes conv.server_members id)
      (is_bot contacts id) ids inside chosen
  where
    with_self :
        (v b s k : Bool) (ids : List Text)
        → includes ids id ≡ (v || (s && k))
        → v ≡ (b && s)
        → includes (if includes ids me then ids else ids ++ me ∷ []) id
          ≡ (me === id || (s && (b || k)))
    with_self v b s k ids e f = elim (Bool-cases (me === id)) [
      | inl t ↦
          let i : includes ids me ≡ includes ids id = ap (includes ids) ((===_iff me id).0 t) in
          self_too me id _ t ids (includes ids me) i
      | inr t ↦ others me id v b s k t ids (includes ids me) e f
    ]
