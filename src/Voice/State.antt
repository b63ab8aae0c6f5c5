-- ===== src/Voice/State.antt =====
-- The state of the voice module: its signals, and the variables beside them.
use family_messenger_e2e.Base.{
  ℕ, Text, Bool, true, false, ◌&&◌, Option, none, some, List, [], ◌∷◌, ◌++◌, ltb, ◌==◌, ◌-◌,
  if◌then◌else◌,
}
use family_messenger_e2e.Base.Dict.{Dict, insert, delete}
use family_messenger_e2e.Model.Payload.{Candidate, VoiceSignal, here, Payload, voice}
use family_messenger_e2e.Model.Database.{Conversation}
use family_messenger_e2e.Model.Client.{SessionInfo}
use family_messenger_e2e.Calls.State.{CallState}

pub data PeerState : Type 0 where
  connecting connected failed : PeerState

pub record VoiceParticipant : Type 0 where
  pub session : Text
  pub account : Text
  pub device : Text
  pub muted : Bool
  pub sharing : Bool
  pub camera : Bool
  pub seen : ℕ

pub record VoiceState : Type 0 where
  pub conv_id : Text
  pub session : Text
  pub muted : Bool
  pub sharing : Bool
  pub camera : Bool
  pub joined_at : ℕ
  pub peers : Dict PeerState

-- A MediaStream or a track, by number.
abbrev pub Stream : Type 0
Stream = ℕ

-- A connection: which one it is, the description handed to setRemoteDescription and whether it has
-- taken effect, whether our offer is out (`have-local-offer`), the candidates added, and the tracks
-- of its two video slots once these are there.
pub record Peer : Type 0 where
  pub number : ℕ
  pub offered : Bool
  pub description : Option Text
  pub has_remote : Bool
  pub added : List Candidate
  pub audio_track : Option Stream
  pub has_senders : Bool
  pub camera_track : Option Stream
  pub screen_track : Option Stream
  pub queued : List Candidate
  pub outgoing : List Candidate
  pub flush : Bool

pub data Toast : Type 0 where
  already_in_call voice_mic_failed screen_share_failed camera_failed : Toast
  voice_joined : (who group : Text) → Toast

pub record VoiceEngine : Type 0 where
  -- `session`, `conversations` and `call` of the other modules.
  pub session : Option SessionInfo
  pub conversations : Dict Conversation
  pub call : Option CallState
  pub voice : Option VoiceState
  pub voice_rooms : Dict (List VoiceParticipant)
  pub voice_streams : Dict Stream
  pub voice_cameras : Dict Stream
  pub peers : Dict Peer
  pub local_stream : Option Stream
  pub screen_track : Option Stream
  pub camera_stream : Option Stream
  -- Is the timer set?
  pub heartbeat : Bool
  pub prune_timer : Bool
  pub ice_servers : List Text
  pub ice_fetched_at : ℕ
  pub now : ℕ
  -- Microphone, camera and screen streams that were given and not stopped.
  pub live : List Stream
  -- How many connections were made.
  pub created : ℕ
  -- Signals handed to `sendPayload`, with their conversation, and what was shown.
  pub sent : List (Text × Payload)
  pub toasts : List Toast

abbrev pub expire_ms : ℕ
expire_ms = 65000

abbrev pub ice_refresh_ms : ℕ
ice_refresh_ms = 1200000

-- `a < b` on strings, which compares code units.
unfoldable pub less : Text → Text → Bool
less s [] = false
less [] (d ∷ t) = true
less (c ∷ s) (d ∷ t) = let rest = less s t in if ltb c d then true else c == d && rest

-- `signalTo`, whose failure is only logged.
unfoldable pub signal_to : Text → Text → VoiceSignal → VoiceEngine → VoiceEngine
signal_to conv_id session signal e = record e {
  sent = e.sent ++ (conv_id, voice session signal) ∷ [];
}

abbrev pub show_toast : Toast → VoiceEngine → VoiceEngine
show_toast t e = record e { toasts = e.toasts ++ t ∷ [] }

-- `presence`, and sending it to a channel.
abbrev pub presence : VoiceState → VoiceSignal
presence v = here v.muted v.sharing v.camera

unfoldable pub announce : Text → VoiceEngine → VoiceEngine
unfolding signal_to
announce conv_id e = elim e.voice [ none ↦ e | some v ↦ signal_to conv_id v.session (presence v) e ]

unfoldable pub write_peer_state : Text → Option PeerState → VoiceState → VoiceState
write_peer_state session none v = record v { peers = delete session v.peers }
write_peer_state session (some state) v = record v { peers = insert session state v.peers }

abbrev pub patched : (VoiceState → VoiceState) → Option VoiceState → Option VoiceState
patched f none = none
patched f (some v) = some (f v)

unfoldable pub set_peer_state : Text → Option PeerState → VoiceEngine → VoiceEngine
set_peer_state session state e = record e {
  voice = patched (write_peer_state session state) e.voice;
}

abbrev pub published : Text → Option Stream → Dict Stream → Dict Stream
published session none streams = delete session streams
published session (some stream) streams = insert session stream streams

unfoldable pub publish_stream : Text → Option Stream → VoiceEngine → VoiceEngine
publish_stream session stream e = record e {
  voice_streams = published session stream e.voice_streams;
}

unfoldable pub publish_camera : Text → Option Stream → VoiceEngine → VoiceEngine
publish_camera session stream e = record e {
  voice_cameras = published session stream e.voice_cameras;
}

-- `refreshIce`, with the servers that `iceServers` answered.
unfoldable pub refresh_ice : List Text → VoiceEngine → VoiceEngine
refresh_ice servers e = record e {
  ice_servers = if ltb (e.now - e.ice_fetched_at) ice_refresh_ms then e.ice_servers else servers;
  ice_fetched_at =
      if ltb (e.now - e.ice_fetched_at) ice_refresh_ms then e.ice_fetched_at else e.now;
}
