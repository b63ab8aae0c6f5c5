-- ===== src/Voice/Listed/Run.antt =====
-- The lists of participants over signals and runs.
use family_messenger_e2e.Base.{refl, Text, Bool, not, ◌&&◌, ◌===◌, is_some, any, find}
use family_messenger_e2e.Base.Dict.{lookup}
use family_messenger_e2e.Model.Payload.{VoiceSignal}
use family_messenger_e2e.Model.Client.{SessionInfo}
use family_messenger_e2e.Voice.State.{Peer, VoiceParticipant, VoiceEngine, refresh_ice}
use family_messenger_e2e.Voice.Rooms.{participants_of, is_session, set_participant}
use family_messenger_e2e.Voice.Mesh.{maybe_connect, gather_candidate}
use family_messenger_e2e.Voice.Channel.{is_in, microphone_denied, screen_refused, camera_refused}
use family_messenger_e2e.Voice.Signals.{
  participant, on_presence, greet, on_join, on_change, is_for_us, described, with_candidates,
  on_peer, from_other, is_own_session, handle_voice_signal,
}
use family_messenger_e2e.Voice.Steps.{
  VoiceStep, signal, join_asked, no_microphone, microphone, joined, left, logged_out, heartbeat,
  pruned, ice_answered, muted, screen_on, no_screen, screen_off, camera_on, no_camera, camera_off,
  offered, offer_taken, answered, answer_taken, negotiation_failed, candidate, candidate_timer,
  track, connection, hidden, clock, VoiceRun, stay, after,
}
use family_messenger_e2e.Voice.Frame.{on_option, on_test, close_peer-SameRoom}
use family_messenger_e2e.Voice.Reconnect.{change_peer-SameRoom, maybe_connect-SameRoom}
use family_messenger_e2e.Voice.Listed.{
  Once, IsListed, same_rooms-IsListed, set_participant-IsListed, remove_participant-IsListed,
  prune-IsListed, participants_of-Once,
}
use family_messenger_e2e.Voice.Listed.Operations.{
  SameRoom-IsListed, announce-IsListed, accept_offer-Same, offer_described-Same,
  answer_described-Same, send_answer-Same, send_offer-Same, flush_outgoing-Same, track_arrived-Same,
  state_changed-Same, leave_voice-IsListed, signed_out-IsListed, join_voice-IsListed,
  microphone_given-IsListed, join_sent-IsListed, beat-IsListed, toggle_voice_mute-IsListed,
  screen_given-IsListed, camera_given-IsListed, stop_voice_share-IsListed,
  stop_voice_camera-IsListed, page_hidden-Same, Same,
}

-- Signals.
maybe_connect-IsListed :
    (p : VoiceParticipant) (e : VoiceEngine) → IsListed e → IsListed (maybe_connect p e)
maybe_connect-IsListed p e = SameRoom-IsListed (maybe_connect-SameRoom p e)

on_presence-IsListed :
    (c : Text) (p : VoiceParticipant) (e : VoiceEngine) → IsListed e → IsListed (on_presence c p e)
unfolding on_presence
on_presence-IsListed c p e h =
    let e' = set_participant c p e in
    let h' = set_participant-IsListed c p e h in
    on_test IsListed (is_in e'.voice c) _ e' (λ q. maybe_connect-IsListed p e' h') (λ q. h')

greet-IsListed :
    (me : SessionInfo) (sender c : Text) (known : Bool) (e : VoiceEngine)
    → IsListed e
    → IsListed (greet me sender c known e)
unfolding greet
greet-IsListed me sender c known e h =
    on_test IsListed (is_in e.voice c) _ _ (λ q. announce-IsListed c e h)
      (λ q.
        on_test IsListed
          (not known && not (sender === me.account_id) && is_some (lookup c e.conversations)) _ e
          (λ r. same_rooms-IsListed e _ refl h) (λ r. h))

on_join-IsListed :
    (me : SessionInfo) (sender c : Text) (p : VoiceParticipant) (e : VoiceEngine)
    → IsListed e
    → IsListed (on_join me sender c p e)
unfolding on_join
on_join-IsListed me sender c p e h =
    let known = any (is_session p.session) (participants_of c e) in
    let e' = greet me sender c known (set_participant c p e) in
    let h' = greet-IsListed me sender c known _ (set_participant-IsListed c p e h) in
    on_test IsListed (is_in e'.voice c) _ e' (λ q. maybe_connect-IsListed p e' h') (λ q. h')

on_change-IsListed :
    (c session : Text) (f : VoiceParticipant → VoiceParticipant) (e : VoiceEngine)
    → IsListed e
    → IsListed (on_change c session f e)
unfolding on_change
on_change-IsListed c session f e h =
    on_option IsListed (find (is_session session) (participants_of c e)) _ e h
      (λ p q. set_participant-IsListed c _ e h)

on_peer-Same : (session : Text) (f : Peer → Peer) (e : VoiceEngine) → Same e (on_peer session f e)
unfolding on_peer
on_peer-Same session f e = on_option (Same e) (lookup session e.peers) _ e refl (λ p q. refl)

from_other-IsListed :
    (me : SessionInfo) (sender device c session : Text) (s : VoiceSignal) (e : VoiceEngine)
    → IsListed e
    → IsListed (from_other me sender device c session s e)
unfolding from_other
from_other-IsListed me sender device c session (VoiceSignal.join m s k) e h =
    on_join-IsListed me sender c (participant session sender device m s k e) e h
from_other-IsListed me sender device c session (VoiceSignal.here m s k) e h =
    on_presence-IsListed c (participant session sender device m s k e) e h
from_other-IsListed me sender device c session (VoiceSignal.share on) e h =
    on_change-IsListed c session (λ p. record p { sharing = on }) e h
from_other-IsListed me sender device c session (VoiceSignal.camera on) e h =
    on_change-IsListed c session (λ p. record p { camera = on }) e h
from_other-IsListed me sender device c session VoiceSignal.leave e h =
    SameRoom-IsListed (close_peer-SameRoom session _) (remove_participant-IsListed c session e h)
from_other-IsListed me sender device c session (VoiceSignal.offer to sdp) e h =
    on_test IsListed (is_for_us e.voice c to) _ e
      (λ q. same_rooms-IsListed e _ (accept_offer-Same session sdp e) h) (λ q. h)
from_other-IsListed me sender device c session (VoiceSignal.answer to sdp) e h =
    on_test IsListed (is_for_us e.voice c to) _ e
      (λ q. same_rooms-IsListed e _ (on_peer-Same session (described sdp) e) h) (λ q. h)
from_other-IsListed me sender device c session (VoiceSignal.ice to list) e h =
    on_test IsListed (is_for_us e.voice c to) _ e
      (λ q. same_rooms-IsListed e _ (on_peer-Same session (with_candidates list) e) h) (λ q. h)

handle_voice_signal-IsListed :
    (sender device c session : Text) (s : VoiceSignal) (e : VoiceEngine)
    → IsListed e
    → IsListed (handle_voice_signal sender device c session s e)
unfolding handle_voice_signal
handle_voice_signal-IsListed sender device c session s e h =
    on_option IsListed e.session _ e h (λ me q.
      on_test IsListed (is_own_session e.voice session) e _ (λ r. h)
        (λ r. from_other-IsListed me sender device c session s e h))

step-IsListed : {e f : VoiceEngine} → VoiceStep e f → IsListed e → IsListed f
unfolding microphone_denied screen_refused camera_refused refresh_ice gather_candidate
step-IsListed (signal sender device c session s e) h =
    handle_voice_signal-IsListed sender device c session s e h
step-IsListed (join_asked c e) h = join_voice-IsListed c e h
step-IsListed (no_microphone e) h = same_rooms-IsListed e _ refl h
step-IsListed (microphone c id mic e) h = microphone_given-IsListed c id mic e h
step-IsListed (joined c e) h = join_sent-IsListed c e h
step-IsListed (left e) h = leave_voice-IsListed e h
step-IsListed (logged_out e) h = signed_out-IsListed e h
step-IsListed (heartbeat e) h = beat-IsListed e h
step-IsListed (pruned e) h = prune-IsListed e h
step-IsListed (ice_answered servers e) h = same_rooms-IsListed e _ refl h
step-IsListed (muted e) h = toggle_voice_mute-IsListed e h
step-IsListed (screen_on c s t e) h = screen_given-IsListed c s t e h
step-IsListed (no_screen e) h = same_rooms-IsListed e _ refl h
step-IsListed (screen_off e) h = stop_voice_share-IsListed e h
step-IsListed (camera_on c s t e) h = camera_given-IsListed c s t e h
step-IsListed (no_camera e) h = same_rooms-IsListed e _ refl h
step-IsListed (camera_off e) h = stop_voice_camera-IsListed e h
step-IsListed (offered c s r n sdp e) h = same_rooms-IsListed e _ (send_offer-Same c s r n sdp e) h
step-IsListed (offer_taken r n e) h = same_rooms-IsListed e _ (offer_described-Same r n e) h
step-IsListed (answered c s r sdp e) h = same_rooms-IsListed e _ (send_answer-Same c s r sdp e) h
step-IsListed (answer_taken r n e) h = same_rooms-IsListed e _ (answer_described-Same r n e) h
step-IsListed (negotiation_failed r e) h = SameRoom-IsListed (close_peer-SameRoom r e) h
step-IsListed (candidate r n c e) h = SameRoom-IsListed (change_peer-SameRoom r n _ e) h
step-IsListed (candidate_timer c r n e) h = same_rooms-IsListed e _ (flush_outgoing-Same c r n e) h
step-IsListed (track r b s e) h = same_rooms-IsListed e _ (track_arrived-Same r b s e) h
step-IsListed (connection r n s e) h = same_rooms-IsListed e _ (state_changed-Same r n s e) h
step-IsListed (hidden e) h = same_rooms-IsListed e _ (page_hidden-Same e) h
step-IsListed (clock later e) h = same_rooms-IsListed e _ refl h

pub run-IsListed : {e f : VoiceEngine} → VoiceRun e f → IsListed e → IsListed f
run-IsListed (stay e) h = h
run-IsListed (after s r) h = run-IsListed r (step-IsListed s h)

-- However a run goes, a session stands at most once in the list of a conversation, if every list
-- was in such order at the start.
pub VoiceRun-Once :
    {e f : VoiceEngine} (c : Text) → VoiceRun e f → IsListed e → Once (participants_of c f)
VoiceRun-Once {e} {f} c r h = participants_of-Once c f (run-IsListed r h)
