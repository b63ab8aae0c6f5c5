-- ===== src/Voice/Steps.antt =====
-- What can happen to the voice module: signals, the user, timers, and the rests of asynchronous
-- functions, in any order. A callback of a connection that was closed may still come here, and the
-- rest of a function may run although an earlier part of it was left by a `return`, which allows
-- more than the program does.
use family_messenger_e2e.Base.{ℕ, Text, Bool, List}
use family_messenger_e2e.Model.Payload.{Candidate, VoiceSignal}
use family_messenger_e2e.Voice.State.{Stream, VoiceEngine, refresh_ice}
use family_messenger_e2e.Voice.Mesh.{
  ConnectionState, close_peer, send_offer, offer_described, send_answer, answer_described,
  gather_candidate, flush_outgoing, track_arrived, state_changed,
}
use family_messenger_e2e.Voice.Channel.{
  leave_voice, signed_out, join_voice, microphone_denied, microphone_given, join_sent, prune, beat,
  toggle_voice_mute, screen_given, camera_given, screen_refused, camera_refused, stop_voice_share,
  stop_voice_camera, page_hidden,
}
use family_messenger_e2e.Voice.Signals.{handle_voice_signal}

pub data VoiceStep : VoiceEngine → VoiceEngine → Type 0 where
  signal :
      (sender device conv_id session : Text) (s : VoiceSignal) (e : VoiceEngine)
      → VoiceStep e (handle_voice_signal sender device conv_id session s e)
  join_asked : (conv_id : Text) (e : VoiceEngine) → VoiceStep e (join_voice conv_id e)
  no_microphone : (e : VoiceEngine) → VoiceStep e (microphone_denied e)
  microphone :
      (conv_id id : Text) (mic : Stream) (e : VoiceEngine)
      → VoiceStep e (microphone_given conv_id id mic e)
  joined : (conv_id : Text) (e : VoiceEngine) → VoiceStep e (join_sent conv_id e)
  left : (e : VoiceEngine) → VoiceStep e (leave_voice e)
  logged_out : (e : VoiceEngine) → VoiceStep e (signed_out e)
  heartbeat : (e : VoiceEngine) → VoiceStep e (beat e)
  pruned : (e : VoiceEngine) → VoiceStep e (prune e)
  ice_answered : (servers : List Text) (e : VoiceEngine) → VoiceStep e (refresh_ice servers e)
  muted : (e : VoiceEngine) → VoiceStep e (toggle_voice_mute e)
  screen_on :
      (conv_id session : Text) (track : Stream) (e : VoiceEngine)
      → VoiceStep e (screen_given conv_id session track e)
  no_screen : (e : VoiceEngine) → VoiceStep e (screen_refused e)
  screen_off : (e : VoiceEngine) → VoiceStep e (stop_voice_share e)
  camera_on :
      (conv_id session : Text) (stream : Stream) (e : VoiceEngine)
      → VoiceStep e (camera_given conv_id session stream e)
  no_camera : (e : VoiceEngine) → VoiceStep e (camera_refused e)
  camera_off : (e : VoiceEngine) → VoiceStep e (stop_voice_camera e)
  offered :
      (conv_id session remote : Text) (number : ℕ) (sdp : Text) (e : VoiceEngine)
      → VoiceStep e (send_offer conv_id session remote number sdp e)
  offer_taken :
      (remote : Text) (number : ℕ) (e : VoiceEngine) → VoiceStep e (offer_described remote number e)
  answered :
      (conv_id session remote sdp : Text) (e : VoiceEngine)
      → VoiceStep e (send_answer conv_id session remote sdp e)
  answer_taken :
      (remote : Text) (number : ℕ) (e : VoiceEngine)
      → VoiceStep e (answer_described remote number e)
  -- An offer or an answer that threw.
  negotiation_failed : (remote : Text) (e : VoiceEngine) → VoiceStep e (close_peer remote e)
  candidate :
      (remote : Text) (number : ℕ) (c : Candidate) (e : VoiceEngine)
      → VoiceStep e (gather_candidate remote number c e)
  candidate_timer :
      (conv_id remote : Text) (number : ℕ) (e : VoiceEngine)
      → VoiceStep e (flush_outgoing conv_id remote number e)
  track :
      (remote : Text) (second_slot : Bool) (stream : Stream) (e : VoiceEngine)
      → VoiceStep e (track_arrived remote second_slot stream e)
  connection :
      (remote : Text) (number : ℕ) (state : ConnectionState) (e : VoiceEngine)
      → VoiceStep e (state_changed remote number state e)
  hidden : (e : VoiceEngine) → VoiceStep e (page_hidden e)
  clock : (later : ℕ) (e : VoiceEngine) → VoiceStep e (record e { now = later })

-- A run of any length.
pub data VoiceRun : VoiceEngine → VoiceEngine → Type 0 where
  stay : (e : VoiceEngine) → VoiceRun e e
  after : {e f g : VoiceEngine} → VoiceStep e f → VoiceRun f g → VoiceRun e g
