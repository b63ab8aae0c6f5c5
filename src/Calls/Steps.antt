-- ===== src/Calls/Steps.antt =====
-- What can happen to the call module: signals, the user, timers, and the rests of asynchronous
-- functions, in any order. A timer that was cleared may still fire here, which allows more than the
-- program does.
use family_messenger_e2e.Base.{ℕ, Text, Bool, Option}
use family_messenger_e2e.Model.Payload.{Candidate, CallSignal}
use family_messenger_e2e.Model.Database.{Conversation}
use family_messenger_e2e.Calls.State.{CallState, CallEngine}
use family_messenger_e2e.Calls.Engine.{handle_call_signal}
use family_messenger_e2e.Calls.Lifecycle.{
  start_call, create_peer, take_microphone, send_offer, ring_out_expired, ring_in_expired,
  repeat_offer, fail_start, accept_call, set_remote, remote_set, remote_failed, send_answer,
  repeat_answer, fail_answer, reject_call, hangup, gather_candidate, flush_outgoing_ice, connected,
  connection_lost, toggle_mute, camera_given, disable_camera, screen_given, stop_screen_share,
  dismiss_ended_call,
}

pub data CallStep : CallEngine → CallEngine → Type 0 where
  signal :
      (sender device conv_id id : Text) (s : CallSignal) (e : CallEngine)
      → CallStep e (handle_call_signal sender device conv_id id s e)
  started :
      (id conv_id : Text) (conv : Option Conversation) (e : CallEngine)
      → CallStep e (start_call id conv_id conv e)
  peer_created : (number : ℕ) (e : CallEngine) → CallStep e (create_peer number e)
  microphone : (e : CallEngine) → CallStep e (take_microphone e)
  offered : (id conv_id sdp : Text) (e : CallEngine) → CallStep e (send_offer id conv_id sdp e)
  start_failed : (e : CallEngine) → CallStep e (fail_start e)
  ring_out_timer : (id conv_id : Text) (e : CallEngine) → CallStep e (ring_out_expired id conv_id e)
  ring_in_timer : (id : Text) (e : CallEngine) → CallStep e (ring_in_expired id e)
  offer_timer :
      (id conv_id : Text) (number : ℕ) (sdp : Text) (e : CallEngine)
      → CallStep e (repeat_offer id conv_id number sdp e)
  accepted : (e : CallEngine) → CallStep e (accept_call e)
  described : (e : CallEngine) → CallStep e (set_remote e)
  answer_described : (e : CallEngine) → CallStep e (remote_set e)
  answer_refused : (e : CallEngine) → CallStep e (remote_failed e)
  answered : (id conv_id sdp : Text) (e : CallEngine) → CallStep e (send_answer id conv_id sdp e)
  answer_timer :
      (id conv_id : Text) (number : ℕ) (sdp : Text) (e : CallEngine)
      → CallStep e (repeat_answer id conv_id number sdp e)
  answer_failed : (e : CallEngine) → CallStep e (fail_answer e)
  rejected : (e : CallEngine) → CallStep e (reject_call e)
  hung_up : (e : CallEngine) → CallStep e (hangup e)
  candidate : (c : Candidate) (e : CallEngine) → CallStep e (gather_candidate c e)
  candidate_timer :
      (id conv_id : Text) (e : CallEngine) → CallStep e (flush_outgoing_ice id conv_id e)
  connection_up : (number : ℕ) (e : CallEngine) → CallStep e (connected number e)
  connection_down : (number : ℕ) (e : CallEngine) → CallStep e (connection_lost number e)
  muted : (e : CallEngine) → CallStep e (toggle_mute e)
  camera_on :
      (current : CallState) (notify : Bool) (e : CallEngine)
      → CallStep e (camera_given current notify e)
  camera_off : (notify : Bool) (e : CallEngine) → CallStep e (disable_camera notify e)
  screen_on : (current : CallState) (e : CallEngine) → CallStep e (screen_given current e)
  screen_off : (e : CallEngine) → CallStep e (stop_screen_share e)
  dismissed : (e : CallEngine) → CallStep e (dismiss_ended_call e)
