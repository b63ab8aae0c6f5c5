-- ===== src/Messaging/Rollback.antt =====
-- `editText` where the edit could not be sent.
use family_messenger_e2e.Base.{
  ◌≡◌, ◌∙◌, refl, sym, ap, ℕ, Text, Bool, true, false, Option, none, some, Bool-cases, inl, inr,
  find_sound, arith, ◌===◌, ===_iff, if◌then◌else◌,
}
use family_messenger_e2e.Base.Dict.{lookup}
use family_messenger_e2e.Base.Outcome.{Outcome, ok, err, Fault}
use family_messenger_e2e.Crypto.Envelope.Header.{SignedEnvelope}
use family_messenger_e2e.Model.Payload.{Payload, text, text_edit}
use family_messenger_e2e.Model.Database.{StoredMessage, Database, Conversation, at_key, get_message}
use family_messenger_e2e.Model.Client.{Client, World, SessionInfo, AccountKeys, PendingMessage}
use family_messenger_e2e.Messaging.Recipients.{recipients_for}
use family_messenger_e2e.Messaging.Send.{
  send_payload, send_as, send_ready, seal_payload, post, is_tracked, track_if, bubble,
}
use family_messenger_e2e.Messaging.Edit.{edit_text, edit_as, rewrite_own, own_text, or_restore}
use family_messenger_e2e.Sync.Previews.{set_message_body, rewritten, is_text}
use family_messenger_e2e.Sync.Kept.Observed.{continue-Kept}
use family_messenger_e2e.Sync.Edited.{get_message-set_message_body}

module _ (w : World) where
  abbrev HasDb : Database → Client → Type 0
  HasDb db c = c.db ≡ db

  post-HasDb :
      (tracked : Bool) (conv_id id : Text) (signed : SignedEnvelope) (c : Client)
      → HasDb c.db (post w tracked conv_id id signed c).1
  unfolding post
  post-HasDb tracked conv_id id signed c = ground arith

  send_ready-HasDb :
      (s : SessionInfo) (k : AccountKeys) (conv : Conversation) (conv_id : Text) (p : Payload)
      (flags : ℕ) (track : Bool) (c : Client)
      → HasDb c.db (send_ready w s k conv conv_id p flags track c).1
  unfolding send_ready
  send_ready-HasDb s k conv conv_id p flags track c =
      continue-Kept (HasDb c.db) (recipients_for c.contacts conv s.account_id) _ c refl
        λ recipients.
          continue-Kept (HasDb c.db) (seal_payload w s k conv_id p flags recipients c) _ c refl
            λ signed.
              post-HasDb (is_tracked flags track) conv_id (w.new_uuid c.requests) signed _
              ∙ tracked_db (is_tracked flags track) (bubble (w.new_uuid c.requests) conv_id p c)
    where
      tracked_db : (b : Bool) (q : PendingMessage) → (track_if b q c).db ≡ c.db
      tracked_db true q = refl
      tracked_db false q = refl

  send_as-HasDb :
      (s : Option SessionInfo) (k : Option AccountKeys) (conv : Option Conversation)
      (conv_id : Text) (p : Payload) (flags : ℕ) (track : Bool) (c : Client)
      → HasDb c.db (send_as w s k conv conv_id p flags track c).1
  unfolding send_as
  send_as-HasDb none k conv conv_id p flags track c = refl
  send_as-HasDb (some s) none conv conv_id p flags track c = refl
  send_as-HasDb (some s) (some k) none conv_id p flags track c = refl
  send_as-HasDb (some s) (some k) (some conv) conv_id p flags track c =
      send_ready-HasDb s k conv conv_id p flags track c

  -- Sending writes nothing to the database.
  pub send_payload-HasDb :
      (conv_id : Text) (p : Payload) (flags : ℕ) (track : Bool) (c : Client)
      → HasDb c.db (send_payload w conv_id p flags track c).1
  unfolding send_payload
  send_payload-HasDb conv_id p flags track c =
      send_as-HasDb c.session c.keys (lookup conv_id c.conversations) conv_id p flags track c

module _ (w : World) (conv_id : Text) (original : StoredMessage) (body : Text) (c : Client) where
  -- The database holds what it held, key by key.
  abbrev IsUndone : Client → Type 0
  IsUndone d = (at : Text) (n : ℕ) → get_message at n d.db ≡ get_message at n c.db

  -- The old text written back over the new one.
  restored :
      (previous : Text) (d : Client)
      → get_message conv_id original.seq c.db ≡ some original
      → original.payload ≡ some (text previous)
      → d.db ≡ (set_message_body conv_id original.seq body true c).db
      → IsUndone (set_message_body conv_id original.seq previous original.edited d)
  unfolding get_message
  restored previous d found own same at n =
      let texts : is_text original.payload ≡ true = rw own refl in
      let once : (j : Text) (k : ℕ)
          → get_message j k (set_message_body conv_id original.seq body true c).db ≡ (
              if at_key j k original
              then some (rewritten body true original)
              else get_message j k c.db) =
        λ j k.
          get_message-set_message_body conv_id original.seq body true original c j k found texts in
      let key = find_sound (at_key conv_id original.seq) c.db.messages found in
      let now : get_message conv_id original.seq d.db ≡ some (rewritten body true original) =
        ap (get_message conv_id original.seq) same ∙ once conv_id original.seq ∙ rw key refl in
      let twice =
        get_message-set_message_body conv_id original.seq previous original.edited
          (rewritten body true original) d at n now refl in
      let old : rewritten previous original.edited (rewritten body true original) ≡ original =
        ap (λ p. record original { payload = p }) (sym own) in
      elim (Bool-cases (at_key at n original)) [
        | inl t ↦
            let at_id : at ≡ conv_id =
              ground
                (arith, key, t, ===_iff original.conv_id at, ===_iff original.conv_id conv_id) in
            let num : original.seq ≡ n = ground (arith, t) in
            let here : get_message at n c.db ≡ some original = rw (at_id, ← num) found in
            twice ∙ rw t (ap some old ∙ sym here)
        | inr t ↦ twice ∙ rw t (ap (get_message at n) same ∙ once at n ∙ rw t refl)
      ]

  own_text_inv :
      (account : Text) (p : Option Payload) (previous : Text)
      → own_text account original p ≡ some previous
      → p ≡ some (text previous)
  own_text_inv account (some (text b)) previous h =
      elim (Bool-cases (original.sender === account)) [
        | inl t ↦ let e : b ≡ previous = ground (arith, h, t) in ap (λ x. some (text x)) e
        | inr t ↦ absurd (ground (arith, h, t))
      ]
  own_text_inv account none previous h = cc
  own_text_inv account (some _) previous h = cc

  abbrev sent : Outcome (Unit {0}) × Client
  sent =
      send_payload w conv_id (text_edit (some original.client_msg_id) (some body)) 0 false
        (set_message_body conv_id original.seq body true c)

  rewrite_own-IsUndone :
      (previous : Text) (e : Fault)
      → (rewrite_own w conv_id original previous body c).0 ≡ err e
      → get_message conv_id original.seq c.db ≡ some original
      → original.payload ≡ some (text previous)
      → IsUndone (rewrite_own w conv_id original previous body c).1
  unfolding rewrite_own
  rewrite_own-IsUndone previous e failed found own =
      answered_by sent.0 sent.1 failed
        (restored previous sent.1 found own (send_payload-HasDb w conv_id _ 0 false _))
    where
      answered_by :
          (r : Outcome (Unit {0})) (d : Client)
          → (or_restore (set_message_body conv_id original.seq previous original.edited) (r, d)).0
            ≡ err e
          → IsUndone (set_message_body conv_id original.seq previous original.edited d)
          → IsUndone
              (or_restore (set_message_body conv_id original.seq previous original.edited) (r, d)).1
      answered_by (ok x) d h k = cc
      answered_by (err f) d h k = k

  edit_as-IsUndone :
      (s : Option SessionInfo) (e : Fault)
      → (edit_as w s conv_id original body c).0 ≡ err e
      → get_message conv_id original.seq c.db ≡ some original
      → IsUndone (edit_as w s conv_id original body c).1
  unfolding edit_as
  edit_as-IsUndone none e failed found = λ at n. refl
  edit_as-IsUndone (some s) e failed found =
      by_text (own_text s.account_id original original.payload) refl
    where
      by_text :
          (o : Option Text)
          → own_text s.account_id original original.payload ≡ o
          → IsUndone (edit_as w (some s) conv_id original body c).1
      by_text none q = rw (q, edit_as) (λ at n. refl)
      by_text (some previous) q =
          let same : edit_as w (some s) conv_id original body c
              ≡ rewrite_own w conv_id original previous body c =
            rw (q, edit_as) refl in
          rw same (
            rewrite_own-IsUndone previous e (sym (ap (λ r. r.0) same) ∙ failed) found
              (own_text_inv s.account_id original.payload previous q))

  -- An edit that fails leaves every stored message as it was, if the message that is edited is the
  -- one that is stored under its number.
  pub get_message-edit_text :
      (e : Fault) (at : Text) (n : ℕ)
      → (edit_text w conv_id original body c).0 ≡ err e
      → get_message conv_id original.seq c.db ≡ some original
      → get_message at n (edit_text w conv_id original body c).1.db ≡ get_message at n c.db
  unfolding edit_text
  get_message-edit_text e at n failed found = edit_as-IsUndone c.session e failed found at n
