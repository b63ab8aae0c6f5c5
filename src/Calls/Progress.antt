-- ===== src/Calls/Progress.antt =====
-- The current call and its phase under every step of the call module, web/src/state/calls.ts.
use family_messenger_e2e.Base.{◌≡◌, refl, true, ◌&&◌, [], arith}
use family_messenger_e2e.Model.Payload.{CallSignal}
use family_messenger_e2e.Calls.State.{
  CallEngine, is_ringing_in, is_ringing_out, is_connecting, update, send_signal,
}
use family_messenger_e2e.Calls.Lifecycle.{
  create_peer, take_microphone, send_offer, ring_in_expired, repeat_offer, fail_start, set_remote,
  remote_set, remote_failed, send_answer, repeat_answer, fail_answer, gather_candidate, connected,
  connection_lost, screen_given, is_at, is_peer, has_video,
}
use family_messenger_e2e.Calls.Phases.{
  follows, follows_refl, choice, end_call-Follows, update-Follows, flush_queued_ice-Follows,
  handle_call_signal-Follows,
}
use family_messenger_e2e.Calls.Steps.{
  CallStep, signal, started, peer_created, microphone, offered, start_failed, ring_out_timer,
  ring_in_timer, offer_timer, accepted, described, answer_described, answer_refused, answered,
  answer_timer, answer_failed, rejected, hung_up, candidate, candidate_timer, connection_up,
  connection_down, muted, camera_on, camera_off, screen_on, screen_off, dismissed,
}
use family_messenger_e2e.Calls.Moves.{
  start_call-Follows, follows-activated, update_sharing-Follows, ring_out_expired-Follows,
  accept_call-Follows, reject_call-Follows, hangup-Follows, camera_given-Follows,
  disable_camera-Follows, stop_screen_share-Follows, dismiss_ended_call-Follows,
  flush_outgoing_ice-Follows, toggle_mute-Follows,
}

-- In whatever order signals, user actions, timers and the rests of asynchronous functions come: a
-- call that has not ended is still the call after the step, and its phase (ringing, connecting,
-- active, ended) has not gone back.
pub step-Follows : {e f : CallEngine} → CallStep e f → follows e.call f.call ≡ true
unfolding create_peer take_microphone send_offer send_signal ring_in_expired repeat_offer fail_start
    set_remote remote_set remote_failed send_answer repeat_answer fail_answer gather_candidate
    connected connection_lost screen_given update
step-Follows (signal sender device conv_id id s e) =
    handle_call_signal-Follows sender device conv_id id s e
step-Follows (started id conv_id conv e) = start_call-Follows id conv_id conv e
step-Follows (peer_created number e) = follows_refl e.call
step-Follows (microphone e) =
    update-Follows (λ s. record s { local_stream = true }) e (λ s. refl) (λ s. omega arith)
step-Follows (offered id conv_id sdp e) = follows_refl e.call
step-Follows (start_failed e) = end_call-Follows _ e
step-Follows (ring_out_timer id conv_id e) = ring_out_expired-Follows id conv_id e
step-Follows (ring_in_timer id e) =
    choice e.call (is_at id is_ringing_in e.call) _ e (end_call-Follows _ e) (follows_refl e.call)
step-Follows (offer_timer id conv_id number sdp e) =
    choice e.call (is_at id is_ringing_out e.call && is_peer e.pc number) _ _ (follows_refl e.call)
      (follows_refl e.call)
step-Follows (accepted e) = accept_call-Follows e
step-Follows (described e) = follows_refl e.call
step-Follows (answer_described e) = flush_queued_ice-Follows (set_remote e)
step-Follows (answer_refused e) = end_call-Follows _ e
step-Follows (answered id conv_id sdp e) =
    flush_queued_ice-Follows
      (send_signal conv_id id (CallSignal.answer sdp (has_video e.call) []) e)
step-Follows (answer_timer id conv_id number sdp e) =
    choice e.call (is_at id is_connecting e.call && is_peer e.pc number) _ _ (follows_refl e.call)
      (follows_refl e.call)
step-Follows (answer_failed e) = end_call-Follows _ e
step-Follows (rejected e) = reject_call-Follows e
step-Follows (hung_up e) = hangup-Follows e
step-Follows (candidate c e) = follows_refl e.call
step-Follows (candidate_timer id conv_id e) = flush_outgoing_ice-Follows id conv_id e
step-Follows (connection_up number e) =
    choice e.call (is_peer e.pc number) _ e (follows-activated e.now e.call) (follows_refl e.call)
step-Follows (connection_down number e) =
    choice e.call (is_peer e.pc number) _ e (end_call-Follows _ e) (follows_refl e.call)
step-Follows (muted e) = toggle_mute-Follows e
step-Follows (camera_on current notify e) = camera_given-Follows current notify e
step-Follows (camera_off notify e) = disable_camera-Follows notify e
step-Follows (screen_on current e) = update_sharing-Follows true (record e { screen = true })
step-Follows (screen_off e) = stop_screen_share-Follows e
step-Follows (dismissed e) = dismiss_ended_call-Follows e
