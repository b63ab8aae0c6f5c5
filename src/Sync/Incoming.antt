-- ===== src/Sync/Incoming.antt =====
-- `handleIncoming`: one envelope is verified, decrypted and applied.
use family_messenger_e2e.Base.{
  ℕ, Text, Bool, true, false, ◌&&◌, Option, none, some, ◌==◌, ◌===◌, if◌then◌else◌,
}
use family_messenger_e2e.Base.Dict.{lookup}
use family_messenger_e2e.Base.Outcome.{
  Outcome, ok, err, Fault, invalid_signature, header_mismatch, malformed_payload, unknown_sender,
  ensure, ◌>>=◌, ◌>>◌,
}
use family_messenger_e2e.Crypto.Bytes.{Bytes}
use family_messenger_e2e.Crypto.Bytes.Base64.{b64decode}
use family_messenger_e2e.Crypto.Primitives.{Library}
use family_messenger_e2e.Crypto.Envelope.Header.{ParsedEnvelope}
use family_messenger_e2e.Crypto.Envelope.Encrypt.{verify_envelope}
use family_messenger_e2e.Crypto.Envelope.Parse.{parse, decrypt}
use family_messenger_e2e.Model.Payload.{Payload, MessageView, call, voice, untyped}
use family_messenger_e2e.Model.Database.{Contact, StoredMessage}
use family_messenger_e2e.Model.Client.{
  Client, World, SessionInfo, AccountKeys, call_signal, voice_signal, emit,
}
use family_messenger_e2e.Sync.Conversations.{refresh_conversation_inline}
use family_messenger_e2e.Sync.Previews.{remove_local_message, advance_silently}
use family_messenger_e2e.Sync.Stored.{apply_stored}

-- What the `try` block of `handleIncoming` leaves in its three variables.
pub record Reading : Type 0 where
  pub ts : ℕ
  pub payload : Option Payload
  pub error : Option Fault

-- The checks before anything is decrypted.
unfoldable pub authenticate : Library → Bytes → MessageView → Outcome ParsedEnvelope
authenticate l sign_pub view = do
  env ← b64decode view.env
  sig ← b64decode view.sig
  ensure (verify_envelope l sign_pub env sig) invalid_signature
  parsed ← parse env
  ensure (parsed.sender_account === view.sender_account && parsed.conv_id === view.conv_id)
      header_mismatch
  ok parsed

-- A value that is no payload stays what it is, beside the error.
abbrev pub read_value : ℕ → Outcome (Option Payload) → Reading
read_value ts (err e) = record { ts = ts; payload = none; error = some e }
read_value ts (ok none) = record { ts = ts; payload = none; error = some malformed_payload }
read_value ts (ok (some untyped)) = record {
  ts = ts;
  payload = some untyped;
  error = some malformed_payload;
}
read_value ts (ok (some p)) = record { ts = ts; payload = some p; error = none }

abbrev pub stored_of : MessageView → Reading → StoredMessage
stored_of view r = record {
  conv_id = view.conv_id;
  seq = view.seq;
  client_msg_id = view.client_msg_id;
  sender = view.sender_account;
  sender_device = view.sender_device;
  ts = r.ts;
  server_ts = view.server_ts;
  payload = r.payload;
  error = r.error;
  edited = false;
}

-- A signal goes to the call and voice modules and is not kept.
unfoldable pub pass_on : MessageView → Option Payload → Client → Client
pass_on view (some (call id signal)) c =
    emit (call_signal view.sender_account view.sender_device view.conv_id id signal) c
pass_on view (some (voice id signal)) c =
    emit (voice_signal view.sender_account view.sender_device view.conv_id id signal) c
pass_on view _ c = c

abbrev pub is_deletion : MessageView → Bool → Bool
is_deletion view stored = stored && (if view.deleted_seq == 0 then false else true)

module _ (w : World) where
  unfoldable pub open_payload : Text → Bytes → ParsedEnvelope → Outcome (Option Payload)
  open_payload account enc_priv parsed = do
    plaintext ← decrypt w.library parsed account enc_priv
    w.decode_payload plaintext

  unfoldable pub read_known : SessionInfo → AccountKeys → Contact → MessageView → Reading
  read_known s k sender view = elim (authenticate w.library sender.sign_pub view) [
    | err e ↦ record { ts = view.server_ts; payload = none; error = some e }
    | ok parsed ↦ read_value parsed.timestamp_ms (open_payload s.account_id k.enc_priv parsed)
  ]

  unfoldable pub read_from : SessionInfo → AccountKeys → Option Contact → MessageView → Reading
  read_from s k none view = record {
    ts = view.server_ts;
    payload = none;
    error = some unknown_sender;
  }
  read_from s k (some sender) view = read_known s k sender view

  -- The sender is looked up, after one request for the conversation if it is not known.
  abbrev pub with_sender : MessageView → Client → Client
  with_sender view c = elim (lookup view.sender_account c.contacts) [
    | some sender ↦ c
    | none ↦ refresh_conversation_inline w view.conv_id c
  ]

  unfoldable pub apply_deletion : MessageView → Client → Client
  apply_deletion view c = elim (lookup view.conv_id c.conversations) [
    | none ↦ c
    | some conv ↦
        advance_silently view.conv_id view.seq
          (remove_local_message w view.conv_id view.deleted_seq c)
  ]

  unfoldable pub handle_envelope : SessionInfo → AccountKeys → MessageView → Bool → Client → Client
  handle_envelope s k view stored c =
      let c' = with_sender view c in
      let r = read_from s k (lookup view.sender_account c'.contacts) view in
      if stored
      then apply_stored w s.account_id (stored_of view r) c'
      else pass_on view r.payload c'

  unfoldable pub handle_for :
      Option SessionInfo → Option AccountKeys → MessageView → Bool → Client → Client
  handle_for (some s) (some k) view stored c =
      if is_deletion view stored then apply_deletion view c else handle_envelope s k view stored c
  handle_for _ _ view stored c = c

  unfoldable pub handle_incoming : MessageView → Bool → Client → Client
  handle_incoming view stored c = handle_for c.session c.keys view stored c
