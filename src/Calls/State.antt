-- ===== src/Calls/State.antt =====
-- The state of the call module: the signal `call`, and the variables beside it.
use family_messenger_e2e.Base.{
  ℕ, Text, Bool, true, false, Option, none, some, List, [], ◌∷◌, ◌++◌, ◌===◌,
}
use family_messenger_e2e.Model.Payload.{Candidate, CallSignal, Payload, call}
use family_messenger_e2e.Model.Client.{SessionInfo}

pub data CallStatus : Type 0 where
  ringing_out ringing_in connecting active ended : CallStatus

pub data EndReason : Type 0 where
  no_answer missed declined busy answered_elsewhere declined_elsewhere : EndReason
  connection_failed could_not_start could_not_answer hung_up : EndReason

pub data Direction : Type 0 where
  incoming outgoing : Direction

-- Of the streams, only whether the microphone's is held; what the peer sends is drawn by the page.
pub record CallState : Type 0 where
  pub id : Text
  pub conv_id : Text
  pub peer : Text
  pub direction : Direction
  pub status : CallStatus
  pub muted : Bool
  pub video : Bool
  pub sharing : Bool
  pub remote_video : Bool
  pub remote_sharing : Bool
  pub started_at : Option ℕ
  pub end_reason : Option EndReason
  pub local_stream : Bool

-- An RTCPeerConnection: which one it is, whether it has a remote description, the candidates added.
pub record Peer : Type 0 where
  pub number : ℕ
  pub has_remote : Bool
  pub candidates : List Candidate

pub record CallEngine : Type 0 where
  pub session : Option SessionInfo
  -- `voice.value`: in a group voice channel.
  pub in_voice : Bool
  pub call : Option CallState
  pub pc : Option Peer
  pub pending_offer : Option Text
  pub queued_ice : List Candidate
  pub outgoing_ice : List Candidate
  pub all_ice : List Candidate
  -- Is the timer set?
  pub ring_timer : Bool
  pub retry_timer : Bool
  pub flush_timer : Bool
  pub end_timer : Bool
  pub camera : Bool
  pub screen : Bool
  pub now : ℕ
  -- Signals handed to `sendSignal`, with their conversation.
  pub sent : List (Text × Payload)

abbrev pub has_ended : CallStatus → Bool
has_ended ended = true
has_ended _ = false

-- `call.value && call.value.status !== 'ended'`
abbrev pub is_live : Option CallState → Bool
is_live none = false
is_live (some s) = elim (has_ended s.status) [ true ↦ false | false ↦ true ]

abbrev pub is_ringing_in : CallStatus → Bool
is_ringing_in ringing_in = true
is_ringing_in _ = false

abbrev pub is_ringing_out : CallStatus → Bool
is_ringing_out ringing_out = true
is_ringing_out _ = false

abbrev pub is_connecting : CallStatus → Bool
is_connecting connecting = true
is_connecting _ = false

abbrev pub is_active : CallStatus → Bool
is_active active = true
is_active _ = false

-- `current?.id === id`
abbrev pub is_current : Option CallState → Text → Bool
is_current none id = false
is_current (some s) id = s.id === id

abbrev pub fresh_state : Text → Text → Text → Direction → CallStatus → CallState
fresh_state id conv_id peer direction status = record {
  id = id;
  conv_id = conv_id;
  peer = peer;
  direction = direction;
  status = status;
  muted = false;
  video = false;
  sharing = false;
  remote_video = false;
  remote_sharing = false;
  started_at = none;
  end_reason = none;
  local_stream = false;
}

abbrev pub patched : (CallState → CallState) → Option CallState → Option CallState
patched f none = none
patched f (some s) = some (f s)

-- `update`
unfoldable pub update : (CallState → CallState) → CallEngine → CallEngine
update f e = record e { call = patched f e.call }

-- `sendSignal`, whose failure is only logged.
unfoldable pub send_signal : Text → Text → CallSignal → CallEngine → CallEngine
send_signal conv_id id signal e = record e { sent = e.sent ++ (conv_id, call id signal) ∷ [] }
