-- ===== src/Sync/Authentic.antt =====
-- What `handleIncoming` has checked of a payload: web/src/state/sync.ts.
use family_messenger_e2e.Base.{
  ◌≡◌, ◌∙◌, refl, sym, ap, subst, ℕ, Bool, true, ◌&&◌, Option, some, none, ◌⊎◌, inl, inr,
  Option-cases, false, if◌then◌else◌, arith, ◌===◌, ===_iff,
}
use family_messenger_e2e.Base.Outcome.{
  Outcome, ok, err, bind_inv, ensure-then, invalid_signature, header_mismatch, ok-injective,
}
use family_messenger_e2e.Crypto.Bytes.{Bytes}
use family_messenger_e2e.Crypto.Bytes.Base64.{b64decode}
use family_messenger_e2e.Crypto.Primitives.{Library}
use family_messenger_e2e.Crypto.Envelope.Header.{ParsedEnvelope}
use family_messenger_e2e.Crypto.Envelope.Encrypt.{verify_envelope}
use family_messenger_e2e.Crypto.Envelope.Parse.{parse, decrypt}
use family_messenger_e2e.Model.Payload.{Payload, untyped, MessageView}
use family_messenger_e2e.Model.Database.{Contact}
use family_messenger_e2e.Model.Client.{Client, World, SessionInfo, AccountKeys}
use family_messenger_e2e.Base.Dict.{lookup}
use family_messenger_e2e.Sync.Stored.{apply_stored}
use family_messenger_e2e.Sync.Incoming.{
  Reading, authenticate, open_payload, read_known, read_from, read_value, stored_of, pass_on,
  is_deletion, with_sender, handle_envelope, handle_for, handle_incoming,
}

-- The envelope of a view carries this signature, header and content.
pub record IsSignedBy (l : Library) (sign_pub : Bytes) (view : MessageView)
    (parsed : ParsedEnvelope) : Type 0 where
  pub env : Bytes
  pub sig : Bytes
  pub env_text : b64decode view.env ≡ ok env
  pub sig_text : b64decode view.sig ≡ ok sig
  pub signature : verify_envelope l sign_pub env sig ≡ true
  pub envelope : parse env ≡ ok parsed
  pub sender : parsed.sender_account ≡ view.sender_account
  pub conversation : parsed.conv_id ≡ view.conv_id

and_true : (a b : Bool) → (a && b) ≡ true → (a ≡ true) × (b ≡ true)
and_true a b h = (ground (arith, h), ground (arith, h))

pub authenticate-IsSignedBy :
    (l : Library) (sign_pub : Bytes) (view : MessageView) (parsed : ParsedEnvelope)
    → authenticate l sign_pub view ≡ ok parsed
    → IsSignedBy l sign_pub view parsed
unfolding authenticate
authenticate-IsSignedBy l sign_pub view parsed h =
    let (env, e, h1) = bind_inv (b64decode view.env) _ h in
    let (sig, f, h2) = bind_inv (b64decode view.sig) _ h1 in
    let (v, h3) = ensure-then (verify_envelope l sign_pub env sig) invalid_signature _ h2 in
    let (p, g, h4) = bind_inv (parse env) _ h3 in
    let (t, h5) =
      ensure-then (p.sender_account === view.sender_account && p.conv_id === view.conv_id)
        header_mismatch _ h4 in
    let same : p ≡ parsed = ok-injective h5 in
    let (a, b) = and_true _ _ t in
    record {
      env = env;
      sig = sig;
      env_text = e;
      sig_text = f;
      signature = v;
      envelope = g ∙ ap ok same;
      sender =
          subst (λ (q : ParsedEnvelope). q.sender_account ≡ view.sender_account) same
            ((===_iff p.sender_account view.sender_account).0 a);
      conversation =
          subst (λ (q : ParsedEnvelope). q.conv_id ≡ view.conv_id) same
            ((===_iff p.conv_id view.conv_id).0 b);
    }

-- What a payload that was read rests on.
pub record IsAuthentic (w : World) (s : SessionInfo) (k : AccountKeys) (sender : Option Contact)
    (view : MessageView) (p : Payload) : Type 0 where
  pub contact : Contact
  pub known : sender ≡ some contact
  pub parsed : ParsedEnvelope
  pub signed : IsSignedBy w.library contact.sign_pub view parsed
  pub plaintext : Bytes
  pub opened : decrypt w.library parsed s.account_id k.enc_priv ≡ ok plaintext
  pub decoded : w.decode_payload plaintext ≡ ok (some p)

read_value-some :
    (ts : ℕ) (r : Outcome (Option Payload)) (p : Payload)
    → (read_value ts r).payload ≡ some p
    → r ≡ ok (some p)
read_value-some ts (err e) p h = cc
read_value-some ts (ok none) p h = cc
read_value-some ts (ok (some untyped)) p h = ap ok h
read_value-some ts (ok (some _)) p h = ap ok h

module _ (w : World) where
  -- A payload that is read was signed by the sender's key and sealed for this account.
  read_from-IsAuthentic :
      (s : SessionInfo) (k : AccountKeys) (sender : Option Contact) (view : MessageView)
      (p : Payload)
      → (read_from w s k sender view).payload ≡ some p
      → IsAuthentic w s k sender view p
  unfolding read_from read_known open_payload
  read_from-IsAuthentic s k none view p h = cc
  read_from-IsAuthentic s k (some contact) view p h =
      go (authenticate w.library contact.sign_pub view) refl
    where
      go :
          (r : Outcome ParsedEnvelope)
          → authenticate w.library contact.sign_pub view ≡ r
          → IsAuthentic w s k (some contact) view p
      go (err e) q =
          let nothing : (read_known w s k contact view).payload ≡ none = rw (q, read_known) refl in
          cc (h, nothing)
      go (ok parsed) q =
          let read : (read_known w s k contact view).payload
              ≡ (read_value parsed.timestamp_ms
                  (open_payload w s.account_id k.enc_priv parsed)).payload =
            rw (q, read_known) refl in
          let value = read_value-some parsed.timestamp_ms _ p (sym read ∙ h) in
          let (plaintext, o, d) =
            bind_inv (decrypt w.library parsed s.account_id k.enc_priv) _ value in
          record {
            contact = contact;
            known = refl;
            parsed = parsed;
            signed = authenticate-IsSignedBy w.library contact.sign_pub view parsed q;
            plaintext = plaintext;
            opened = o;
            decoded = d;
          }

  -- What is stored or passed on of a reading.
  abbrev pub handed_on : SessionInfo → MessageView → Bool → Reading → Client → Client
  handed_on s view stored r c =
      if stored then apply_stored w s.account_id (stored_of view r) c else pass_on view r.payload c

  -- An envelope that comes in, and is no deletion, is applied as one reading: stored, or passed on as
  -- a signal. That reading has no payload; or its payload was signed under the key that is pinned for
  -- the account that the view names as the sender, after the conversation was asked for if that
  -- account was not known; the signed header names that account and that conversation; and it was
  -- sealed for our account.
  pub handle_incoming-IsAuthentic :
      (s : SessionInfo) (k : AccountKeys) (view : MessageView) (stored : Bool) (c : Client)
      → c.session ≡ some s
      → c.keys ≡ some k
      → is_deletion view stored ≡ false
      → let c' = with_sender w view c in
        (r : Reading) × (handle_incoming w view stored c ≡ handed_on s view stored r c')
        × ((r.payload ≡ none)
            ⊎ ((p : Payload) × (r.payload ≡ some p)
                × IsAuthentic w s k (lookup view.sender_account c'.contacts) view p))
  unfolding handle_incoming handle_for handle_envelope
  handle_incoming-IsAuthentic s k view stored c signed_in keys kept =
      let c' = with_sender w view c in
      let sender = lookup view.sender_account c'.contacts in
      let r = read_from w s k sender view in
      (
        r,
        rw (signed_in, keys, kept) refl,
        elim (Option-cases r.payload) [
          | inl e ↦ inl e
          | inr (p, e) ↦ inr (p, e, read_from-IsAuthentic s k sender view p e)
        ],
      )
