-- ===== src/Voice/Quiet/Run.antt =====
-- Devices and connections over runs of the voice module.
use family_messenger_e2e.Base.{
  ◌≡◌, refl, Text, Bool, not, ◌&&◌, Option, none, some, List, ◌===◌, is_some, any, find, arith,
  if◌then◌else◌,
}
use family_messenger_e2e.Base.Dict.{lookup}
use family_messenger_e2e.Model.Payload.{Candidate, VoiceSignal}
use family_messenger_e2e.Model.Client.{SessionInfo}
use family_messenger_e2e.Voice.State.{
  Stream, Peer, VoiceParticipant, VoiceEngine, voice_joined, voice_mic_failed, screen_share_failed,
  camera_failed,
}
use family_messenger_e2e.Voice.Rooms.{
  participants_of, is_session, set_participant, remove_participant,
}
use family_messenger_e2e.Voice.Channel.{is_in, microphone_denied, screen_refused, camera_refused}
use family_messenger_e2e.Voice.Signals.{
  participant, on_presence, greet, on_join, on_change, is_for_us, described, with_candidates,
  on_peer, from_other, is_own_session, handle_voice_signal,
}
use family_messenger_e2e.Voice.Steps.{
  VoiceStep, signal, join_asked, no_microphone, microphone, joined, left, logged_out, heartbeat,
  pruned, ice_answered, muted, screen_on, no_screen, screen_off, camera_on, no_camera, camera_off,
  offered, offer_taken, answered, answer_taken, negotiation_failed, candidate, candidate_timer,
  track, connection, hidden, clock, VoiceRun, stay, after,
}
use family_messenger_e2e.Voice.Frame.{on_option, on_test}
use family_messenger_e2e.Voice.Quiet.{
  IsQuiet, Shows, close_peer-IsQuiet, replaced-IsQuiet, same-IsQuiet, shown,
}
use family_messenger_e2e.Voice.Quiet.Mesh.{
  maybe_connect-IsQuiet, accept_offer-IsQuiet, offer_described-IsQuiet, answer_described-IsQuiet,
  send_answer-IsQuiet, send_offer-IsQuiet, gather_candidate-IsQuiet, flush_outgoing-IsQuiet,
  track_arrived-IsQuiet, state_changed-IsQuiet, announce-IsQuiet,
}
use family_messenger_e2e.Voice.Quiet.Channel.{
  leave_voice-IsQuiet, signed_out-IsQuiet, toast-IsQuiet, join_voice-IsQuiet,
  microphone_given-IsQuiet, join_sent-IsQuiet, prune-IsQuiet, beat-IsQuiet, refresh_ice-IsQuiet,
  toggle_voice_mute-IsQuiet, screen_given-IsQuiet, camera_given-IsQuiet, stop_voice_share-IsQuiet,
  stop_voice_camera-IsQuiet, page_hidden-IsQuiet,
}

set_participant-IsQuiet :
    (conv_id : Text) (p : VoiceParticipant) (e : VoiceEngine)
    → IsQuiet e
    → IsQuiet (set_participant conv_id p e)
unfolding set_participant
set_participant-IsQuiet conv_id p e = same-IsQuiet e _ refl refl (refl, refl, refl)

on_presence-IsQuiet :
    (conv_id : Text) (p : VoiceParticipant) (e : VoiceEngine)
    → IsQuiet e
    → IsQuiet (on_presence conv_id p e)
unfolding on_presence
on_presence-IsQuiet conv_id p e h =
    let e' = set_participant conv_id p e in
    let h' = set_participant-IsQuiet conv_id p e h in
    on_test IsQuiet (is_in e'.voice conv_id) _ e' (λ q. maybe_connect-IsQuiet p e' h') (λ q. h')

greet-IsQuiet :
    (me : SessionInfo) (sender conv_id : Text) (known : Bool) (e : VoiceEngine)
    → IsQuiet e
    → IsQuiet (greet me sender conv_id known e)
unfolding greet
greet-IsQuiet me sender conv_id known e h =
    on_test IsQuiet (is_in e.voice conv_id) _ _ (λ q. announce-IsQuiet conv_id e h)
      (λ q.
        on_test IsQuiet
          (not known && not (sender === me.account_id) && is_some (lookup conv_id e.conversations))
          _ e (λ r. toast-IsQuiet (voice_joined sender conv_id) e h) (λ r. h))

on_join-IsQuiet :
    (me : SessionInfo) (sender conv_id : Text) (p : VoiceParticipant) (e : VoiceEngine)
    → IsQuiet e
    → IsQuiet (on_join me sender conv_id p e)
unfolding on_join
on_join-IsQuiet me sender conv_id p e h =
    let known = any (is_session p.session) (participants_of conv_id e) in
    let e' = greet me sender conv_id known (set_participant conv_id p e) in
    let h' = greet-IsQuiet me sender conv_id known _ (set_participant-IsQuiet conv_id p e h) in
    on_test IsQuiet (is_in e'.voice conv_id) _ e' (λ q. maybe_connect-IsQuiet p e' h') (λ q. h')

on_change-IsQuiet :
    (conv_id session : Text) (f : VoiceParticipant → VoiceParticipant) (e : VoiceEngine)
    → IsQuiet e
    → IsQuiet (on_change conv_id session f e)
unfolding on_change
on_change-IsQuiet conv_id session f e h =
    on_option IsQuiet (find (is_session session) (participants_of conv_id e)) _ e h
      (λ p q. set_participant-IsQuiet conv_id _ e h)

on_peer-IsQuiet :
    (session : Text) (f : Peer → Peer) (e : VoiceEngine)
    → ((p : Peer)
        → Shows e.camera_stream e.screen_track p
        → Shows e.camera_stream e.screen_track (f p))
    → IsQuiet e
    → IsQuiet (on_peer session f e)
unfolding on_peer
on_peer-IsQuiet session f e k h =
    on_option IsQuiet (lookup session e.peers) _ e h
      (λ p q. replaced-IsQuiet session p (f p) e q (k p (shown session p e h q)) h)

Shows-described :
    (camera screen : Option Stream) (sdp : Text) (p : Peer)
    → Shows camera screen p
    → Shows camera screen (described sdp p)
Shows-described camera screen sdp p h = ground arith

Shows-with_candidates :
    (camera screen : Option Stream) (list : List Candidate) (p : Peer)
    → Shows camera screen p
    → Shows camera screen (with_candidates list p)
Shows-with_candidates camera screen list p h = ground arith

from_other-IsQuiet :
    (me : SessionInfo) (sender device conv_id session : Text) (s : VoiceSignal) (e : VoiceEngine)
    → IsQuiet e
    → IsQuiet (from_other me sender device conv_id session s e)
unfolding from_other remove_participant
from_other-IsQuiet me sender device conv_id session (VoiceSignal.join m s c) e h =
    on_join-IsQuiet me sender conv_id (participant session sender device m s c e) e h
from_other-IsQuiet me sender device conv_id session (VoiceSignal.here m s c) e h =
    on_presence-IsQuiet conv_id (participant session sender device m s c e) e h
from_other-IsQuiet me sender device conv_id session (VoiceSignal.share on) e h =
    on_change-IsQuiet conv_id session (λ p. record p { sharing = on }) e h
from_other-IsQuiet me sender device conv_id session (VoiceSignal.camera on) e h =
    on_change-IsQuiet conv_id session (λ p. record p { camera = on }) e h
from_other-IsQuiet me sender device conv_id session VoiceSignal.leave e h =
    close_peer-IsQuiet session (remove_participant conv_id session e)
      (same-IsQuiet e _ refl refl (refl, refl, refl) h)
from_other-IsQuiet me sender device conv_id session (VoiceSignal.offer to sdp) e h =
    on_test IsQuiet (is_for_us e.voice conv_id to) _ e (λ q. accept_offer-IsQuiet session sdp e h)
      (λ q. h)
from_other-IsQuiet me sender device conv_id session (VoiceSignal.answer to sdp) e h =
    on_test IsQuiet (is_for_us e.voice conv_id to) _ e
      (λ q.
        on_peer-IsQuiet session (described sdp) e
          (Shows-described e.camera_stream e.screen_track sdp) h)
      (λ q. h)
from_other-IsQuiet me sender device conv_id session (VoiceSignal.ice to list) e h =
    on_test IsQuiet (is_for_us e.voice conv_id to) _ e
      (λ q.
        on_peer-IsQuiet session (with_candidates list) e
          (Shows-with_candidates e.camera_stream e.screen_track list) h)
      (λ q. h)

handle_voice_signal-IsQuiet :
    (sender device conv_id session : Text) (s : VoiceSignal) (e : VoiceEngine)
    → IsQuiet e
    → IsQuiet (handle_voice_signal sender device conv_id session s e)
unfolding handle_voice_signal
handle_voice_signal-IsQuiet sender device conv_id session s e h =
    on_option IsQuiet e.session _ e h (λ me q.
      on_test IsQuiet (is_own_session e.voice session) e _ (λ r. h)
        (λ r. from_other-IsQuiet me sender device conv_id session s e h))

step-IsQuiet : {e f : VoiceEngine} → VoiceStep e f → IsQuiet e → IsQuiet f
unfolding microphone_denied screen_refused camera_refused
step-IsQuiet (signal sender device conv_id session s e) h =
    handle_voice_signal-IsQuiet sender device conv_id session s e h
step-IsQuiet (join_asked conv_id e) h = join_voice-IsQuiet conv_id e h
step-IsQuiet (no_microphone e) h = toast-IsQuiet voice_mic_failed e h
step-IsQuiet (microphone conv_id id mic e) h = microphone_given-IsQuiet conv_id id mic e h
step-IsQuiet (joined conv_id e) h = join_sent-IsQuiet conv_id e h
step-IsQuiet (left e) h = leave_voice-IsQuiet e h
step-IsQuiet (logged_out e) h = signed_out-IsQuiet e h
step-IsQuiet (heartbeat e) h = beat-IsQuiet e h
step-IsQuiet (pruned e) h = prune-IsQuiet e h
step-IsQuiet (ice_answered servers e) h = refresh_ice-IsQuiet servers e h
step-IsQuiet (muted e) h = toggle_voice_mute-IsQuiet e h
step-IsQuiet (screen_on conv_id session t e) h = screen_given-IsQuiet conv_id session t e h
step-IsQuiet (no_screen e) h = toast-IsQuiet screen_share_failed e h
step-IsQuiet (screen_off e) h = stop_voice_share-IsQuiet e h
step-IsQuiet (camera_on conv_id session s e) h = camera_given-IsQuiet conv_id session s e h
step-IsQuiet (no_camera e) h = toast-IsQuiet camera_failed e h
step-IsQuiet (camera_off e) h = stop_voice_camera-IsQuiet e h
step-IsQuiet (offered conv_id session remote n sdp e) h =
    send_offer-IsQuiet conv_id session remote n sdp e h
step-IsQuiet (offer_taken remote n e) h = offer_described-IsQuiet remote n e h
step-IsQuiet (answered conv_id session remote sdp e) h =
    send_answer-IsQuiet conv_id session remote sdp e h
step-IsQuiet (answer_taken remote n e) h = answer_described-IsQuiet remote n e h
step-IsQuiet (negotiation_failed remote e) h = close_peer-IsQuiet remote e h
step-IsQuiet (candidate remote n c e) h = gather_candidate-IsQuiet remote n c e h
step-IsQuiet (candidate_timer conv_id remote n e) h = flush_outgoing-IsQuiet conv_id remote n e h
step-IsQuiet (track remote slot s e) h = track_arrived-IsQuiet remote slot s e h
step-IsQuiet (connection remote n s e) h = state_changed-IsQuiet remote n s e h
step-IsQuiet (hidden e) h = page_hidden-IsQuiet e h
step-IsQuiet (clock later e) h = same-IsQuiet e _ refl refl (refl, refl, refl) h

run-IsQuiet : {e f : VoiceEngine} → VoiceRun e f → IsQuiet e → IsQuiet f
run-IsQuiet (stay e) h = h
run-IsQuiet (after s r) h = run-IsQuiet r (step-IsQuiet s h)

-- However signals, the user, timers and the rests of asynchronous functions follow each other:
-- every connection whose video slots are there is shown exactly the camera and the screen that are
-- on, and every other one is shown nothing, if that was so at the start and whoever was in no
-- channel had no connection and held neither microphone nor camera nor screen.
pub VoiceRun-Shows :
    {e f : VoiceEngine} (k : Text) (p : Peer)
    → VoiceRun e f
    → IsQuiet e
    → lookup k f.peers ≡ some p
    → (p.camera_track ≡ (if p.has_senders then f.camera_stream else none))
      × (p.screen_track ≡ (if p.has_senders then f.screen_track else none))
unfolding IsQuiet
VoiceRun-Shows k p r h found = (run-IsQuiet r h).shows k p found
