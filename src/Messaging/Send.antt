-- ===== src/Messaging/Send.antt =====
-- `sendPayload`: a payload is sealed, signed and sent, with a pending bubble meanwhile.
use Prim.Native.Nat.{bit_and}
use family_messenger_e2e.Base.{
  ℕ, Text, Bool, true, false, not, ◌&&◌, Option, some, List, [], ◌∷◌, ◌++◌, map, filter, ◌==◌,
  ◌===◌, if◌then◌else◌,
}
use family_messenger_e2e.Base.Dict.{lookup}
use family_messenger_e2e.Base.Outcome.{Outcome, ok, err, not_ready, request_failed}
use family_messenger_e2e.Crypto.Bytes.Base64.{b64encode}
use family_messenger_e2e.Crypto.Envelope.Header.{Header, Recipient, SignedEnvelope, flag_ephemeral}
use family_messenger_e2e.Crypto.Envelope.Encrypt.{encrypt}
use family_messenger_e2e.Model.Payload.{Payload, text}
use family_messenger_e2e.Model.Database.{Conversation}
use family_messenger_e2e.Model.Client.{Client, World, SessionInfo, AccountKeys, PendingMessage}
use family_messenger_e2e.Model.Task.{Task, lift, modify, ◌>>=◌, ◌>>◌, counted}
use family_messenger_e2e.Messaging.Recipients.{recipients_for}

abbrev pub add_pending : PendingMessage → Client → Client
add_pending p c = record c { pending = c.pending ++ p ∷ [] }

abbrev pub failed_if : Text → PendingMessage → PendingMessage
failed_if id p = if p.client_msg_id === id then record p { failed = true } else p

abbrev pub fail_pending : Text → Client → Client
fail_pending id c = record c { pending = map (failed_if id) c.pending }

unfoldable pub dismiss_pending : Text → Client → Client
dismiss_pending id c = record c {
  pending = filter (λ (p : PendingMessage). not (p.client_msg_id === id)) c.pending;
}

-- Is a bubble shown for it?
abbrev pub is_tracked : ℕ → Bool → Bool
is_tracked flags track = bit_and flags flag_ephemeral == 0 && track

abbrev pub bubble : Text → Text → Payload → Client → PendingMessage
bubble id conv_id payload c = record {
  client_msg_id = id;
  conv_id = conv_id;
  payload = payload;
  ts = c.now;
  failed = false;
}

abbrev pub track_if : Bool → PendingMessage → Client → Client
track_if tracked p c = if tracked then add_pending p c else c

module _ (w : World) where
  -- `http.send`, and what a failure leaves.
  unfoldable pub post : Bool → Text → Text → SignedEnvelope → Task (Unit {0})
  post tracked conv_id id signed c =
      let sent = w.send c.requests conv_id (b64encode signed.env) (b64encode signed.sig) in
      if sent
      then (ok tt, counted c)
      else (err request_failed, if tracked then fail_pending id (counted c) else counted c)

  abbrev pub header_of : SessionInfo → Text → ℕ → Client → Header
  header_of s conv_id flags c = record {
    flags = flags;
    conv_id = conv_id;
    sender_account = s.account_id;
    sender_device = s.device_id;
    client_msg_id = w.new_uuid c.requests;
    timestamp_ms = c.now;
  }

  unfoldable pub seal_payload :
      SessionInfo
      → AccountKeys
      → Text
      → Payload
      → ℕ
      → List Recipient
      → Client
      → Outcome SignedEnvelope
  seal_payload s k conv_id payload flags recipients c =
      encrypt w.library k.sign_seed (header_of s conv_id flags c) recipients
        (w.encode_payload payload) (w.randomness c.requests)

  unfoldable pub send_ready :
      SessionInfo → AccountKeys → Conversation → Text → Payload → ℕ → Bool → Task (Unit {0})
  send_ready s k conv conv_id payload flags track c =
      let id = w.new_uuid c.requests in
      let tracked = is_tracked flags track in
      (do
        recipients ← lift (recipients_for c.contacts conv s.account_id)
        signed ← lift (seal_payload s k conv_id payload flags recipients c)
        modify (track_if tracked (bubble id conv_id payload c))
        post tracked conv_id id signed)
        c

  unfoldable pub send_as :
      Option SessionInfo
      → Option AccountKeys
      → Option Conversation
      → Text
      → Payload
      → ℕ
      → Bool
      → Task (Unit {0})
  send_as (some s) (some k) (some conv) conv_id payload flags track =
      send_ready s k conv conv_id payload flags track
  send_as _ _ _ conv_id payload flags track = lift (err not_ready)

  unfoldable pub send_payload : Text → Payload → ℕ → Bool → Task (Unit {0})
  send_payload conv_id payload flags track c =
      send_as c.session c.keys (lookup conv_id c.conversations) conv_id payload flags track c

  unfoldable pub send_text : Text → Text → Task (Unit {0})
  send_text conv_id body = send_payload conv_id (text body) 0 true
