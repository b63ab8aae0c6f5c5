-- ===== src/Voice/Listed/Operations.antt =====
-- The lists of participants over operations of connections, the user and the timers.
use family_messenger_e2e.Base.{
  ℕ, ◌≡◌, refl, ◌∙◌, Text, Bool, true, false, not, ◌||◌, none, some, List, [], ◌∷◌, ◌==◌, is_some,
  map,
}
use family_messenger_e2e.Base.Dict.{lookup}
use family_messenger_e2e.Model.Payload.{Candidate, VoiceSignal}
use family_messenger_e2e.Calls.State.{is_live}
use family_messenger_e2e.Voice.State.{
  Stream, VoiceState, VoiceEngine, announce, signal_to, set_peer_state, publish_stream,
  publish_camera,
}
use family_messenger_e2e.Voice.Rooms.{participants_of, remove_participant, update_self}
use family_messenger_e2e.Voice.Mesh.{
  close_all, accept_offer, create_peer, offer_described, flush_ice, ensure_video, send_answer,
  answer_described, send_offer, flush_outgoing, send_candidates, track_arrived, on_state,
  state_changed, ConnectionState, is_connected, is_disconnected, is_failed, is_closed, is_new,
}
use family_messenger_e2e.Voice.Channel.{
  is_in, is_group, leave_channel, leave_voice, drop_without_session, signed_out, join_voice, enter,
  microphone_given, join_sent, prune, beat, toggle_voice_mute, screen_given, camera_given,
  signal_if, stop_voice_share, stop_voice_camera, page_hidden, on_peers, with_camera, with_screen,
  stop_camera_tracks, stop_screen_track, stop_microphone,
}
use family_messenger_e2e.Voice.Frame.{
  on_option, on_test, SameRoom, close_peer-SameRoom, close_all-SameRoom,
}
use family_messenger_e2e.Voice.Reconnect.{
  change_peer-SameRoom, create_peer-SameRoom, connect_all-SameRoom, announce-SameRoom,
}
use family_messenger_e2e.Voice.Listed.{
  IsListed, same_rooms-IsListed, set_participant-IsListed, remove_participant-IsListed,
  prune-IsListed,
}

abbrev pub Same : VoiceEngine → VoiceEngine → Type 0
Same e f = f.voice_rooms ≡ e.voice_rooms

pub SameRoom-IsListed : {e f : VoiceEngine} → SameRoom e f → IsListed e → IsListed f
SameRoom-IsListed {e} {f} same = same_rooms-IsListed e f same.same_rooms

update_self-IsListed : (e : VoiceEngine) → IsListed e → IsListed (update_self e)
unfolding update_self
update_self-IsListed e h =
    on_option IsListed e.voice _ e h
      (λ v q. on_option IsListed e.session _ e h (λ me r. set_participant-IsListed v.conv_id _ e h))

signal_to-IsListed :
    (c s : Text) (x : VoiceSignal) (e : VoiceEngine) → IsListed e → IsListed (signal_to c s x e)
unfolding signal_to
signal_to-IsListed c s x e = same_rooms-IsListed e _ refl

pub announce-IsListed : (c : Text) (e : VoiceEngine) → IsListed e → IsListed (announce c e)
announce-IsListed c e = SameRoom-IsListed (announce-SameRoom c e)

updated-IsListed : (e f : VoiceEngine) → Same e f → IsListed e → IsListed (update_self f)
updated-IsListed e f same h = update_self-IsListed f (same_rooms-IsListed e f same h)

-- Operations on connections.
pub accept_offer-Same : (r sdp : Text) (e : VoiceEngine) → Same e (accept_offer r sdp e)
unfolding accept_offer
accept_offer-Same r sdp e = on_option (Same e) e.voice _ e refl (λ v q.
    (change_peer-SameRoom r _ _ (create_peer r e)).same_rooms
    ∙ (create_peer-SameRoom r e).same_rooms)

flush_ice-Same : (r : Text) (e : VoiceEngine) → Same e (flush_ice r e)
unfolding flush_ice
flush_ice-Same r e = on_option (Same e) (lookup r e.peers) _ e refl (λ p q. refl)

pub offer_described-Same : (r : Text) (n : ℕ) (e : VoiceEngine) → Same e (offer_described r n e)
unfolding offer_described ensure_video
offer_described-Same r n e =
    (change_peer-SameRoom r n _ _).same_rooms ∙ (change_peer-SameRoom r n _ e).same_rooms

pub answer_described-Same : (r : Text) (n : ℕ) (e : VoiceEngine) → Same e (answer_described r n e)
unfolding answer_described
answer_described-Same r n e = flush_ice-Same r _ ∙ (change_peer-SameRoom r n _ e).same_rooms

pub send_answer-Same : (c s r sdp : Text) (e : VoiceEngine) → Same e (send_answer c s r sdp e)
unfolding send_answer signal_to
send_answer-Same c s r sdp e = flush_ice-Same r _

pub send_offer-Same :
    (c s r : Text) (n : ℕ) (sdp : Text) (e : VoiceEngine) → Same e (send_offer c s r n sdp e)
unfolding send_offer signal_to
send_offer-Same c s r n sdp e = (change_peer-SameRoom r n _ e).same_rooms

send_candidates-Same :
    (c r : Text) (batch : List Candidate) (e : VoiceEngine) → Same e (send_candidates c r batch e)
unfolding signal_to
send_candidates-Same c r [] e = refl
send_candidates-Same c r (b ∷ batch) e = on_option (Same e) e.voice _ e refl (λ v q. refl)

pub flush_outgoing-Same : (c r : Text) (n : ℕ) (e : VoiceEngine) → Same e (flush_outgoing c r n e)
unfolding flush_outgoing
flush_outgoing-Same c r n e = on_option (Same e) (lookup r e.peers) _ e refl (λ p q.
    on_test (Same e) (p.number == n) _ e
      (λ t. send_candidates-Same c r p.outgoing _ ∙ (change_peer-SameRoom r n _ e).same_rooms)
      (λ t. refl))

pub track_arrived-Same :
    (r : Text) (b : Bool) (s : Stream) (e : VoiceEngine) → Same e (track_arrived r b s e)
unfolding track_arrived publish_stream publish_camera
track_arrived-Same r b s e = on_test (Same e) b _ _ (λ q. refl) (λ q. refl)

on_state-Same : (r : Text) (s : ConnectionState) (e : VoiceEngine) → Same e (on_state r s e)
unfolding on_state set_peer_state
on_state-Same r is_connected e = refl
on_state-Same r is_disconnected e = refl
on_state-Same r is_failed e = (close_peer-SameRoom r e).same_rooms
on_state-Same r is_closed e = (close_peer-SameRoom r e).same_rooms
on_state-Same r is_new e = refl

pub state_changed-Same :
    (r : Text) (n : ℕ) (s : ConnectionState) (e : VoiceEngine) → Same e (state_changed r n s e)
unfolding state_changed
state_changed-Same r n s e =
    on_option (Same e) (lookup r e.peers) _ e refl
      (λ p q. on_test (Same e) (p.number == n) _ e (λ t. on_state-Same r s e) (λ t. refl))

-- Operations of the user and the timers.
leave_channel-IsListed :
    (v : VoiceState) (e : VoiceEngine) → IsListed e → IsListed (leave_channel v e)
unfolding leave_channel signal_to
leave_channel-IsListed v e h =
    let quiet = stop_camera_tracks (stop_screen_track (record e { heartbeat = false })) in
    let alone = close_all (map (λ entry. entry.0) quiet.peers) quiet in
    let muted = stop_microphone (record alone { voice_streams = []; voice_cameras = [] }) in
    same_rooms-IsListed (remove_participant v.conv_id v.session muted) _ refl (
      remove_participant-IsListed v.conv_id v.session muted (
        same_rooms-IsListed e muted
          (close_all-SameRoom (map (λ entry. entry.0) quiet.peers) quiet).same_rooms h))

pub leave_voice-IsListed : (e : VoiceEngine) → IsListed e → IsListed (leave_voice e)
unfolding leave_voice
leave_voice-IsListed e h = on_option IsListed e.voice _ e h (λ v q. leave_channel-IsListed v e h)

drop_without_session-IsListed : (e : VoiceEngine) → IsListed e → IsListed (drop_without_session e)
unfolding drop_without_session
drop_without_session-IsListed e h =
    on_option IsListed e.session _ _ (leave_voice-IsListed e h) (λ me q. h)

pub signed_out-IsListed : (e : VoiceEngine) → IsListed e → IsListed (signed_out e)
unfolding signed_out
signed_out-IsListed e h =
    drop_without_session-IsListed (record e { session = none }) (same_rooms-IsListed e _ refl h)

pub join_voice-IsListed : (c : Text) (e : VoiceEngine) → IsListed e → IsListed (join_voice c e)
unfolding join_voice
join_voice-IsListed c e h =
    on_test IsListed (not (is_some e.session) || not (is_group (lookup c e.conversations))) e _
      (λ q. h)
      (λ q.
        on_test IsListed (is_live e.call) _ _ (λ r. same_rooms-IsListed e _ refl h)
          (λ r. on_test IsListed (is_in e.voice c) e _ (λ s. h) (λ s. leave_voice-IsListed e h)))

pub microphone_given-IsListed :
    (c id : Text) (mic : Stream) (e : VoiceEngine)
    → IsListed e
    → IsListed (microphone_given c id mic e)
unfolding microphone_given enter
microphone_given-IsListed c id mic e h =
    signal_to-IsListed c id (VoiceSignal.join false false false) _ (
      update_self-IsListed _
        (drop_without_session-IsListed (enter c id mic e) (same_rooms-IsListed e _ refl h)))

pub join_sent-IsListed : (c : Text) (e : VoiceEngine) → IsListed e → IsListed (join_sent c e)
unfolding join_sent
join_sent-IsListed c e =
    same_rooms-IsListed e _ (connect_all-SameRoom (participants_of c e) e).same_rooms

pub beat-IsListed : (e : VoiceEngine) → IsListed e → IsListed (beat e)
unfolding beat
beat-IsListed e h = on_option IsListed e.voice _ e h (λ v q.
    SameRoom-IsListed
      (connect_all-SameRoom (participants_of v.conv_id (announce v.conv_id (prune e))) _)
      (SameRoom-IsListed (announce-SameRoom v.conv_id (prune e)) (prune-IsListed e h)))

pub toggle_voice_mute-IsListed : (e : VoiceEngine) → IsListed e → IsListed (toggle_voice_mute e)
unfolding toggle_voice_mute
toggle_voice_mute-IsListed e h = on_option IsListed e.voice _ e h (λ v q.
    on_option IsListed e.local_stream _ e h (λ mic r.
      announce-IsListed v.conv_id _
        (updated-IsListed e (record e { voice = some (record v { muted = not v.muted }) }) refl h)))

pub screen_given-IsListed :
    (c s : Text) (t : Stream) (e : VoiceEngine) → IsListed e → IsListed (screen_given c s t e)
unfolding screen_given
screen_given-IsListed c s t e h = on_option IsListed e.voice _ e h (λ v q.
    signal_to-IsListed c s (VoiceSignal.share true) _ (
      updated-IsListed e
        (record e {
          screen_track = some t;
          live = t ∷ e.live;
          peers = on_peers (with_screen (some t)) e.peers;
          voice = some (record v { sharing = true });
        })
        refl h))

pub camera_given-IsListed :
    (c s : Text) (t : Stream) (e : VoiceEngine) → IsListed e → IsListed (camera_given c s t e)
unfolding camera_given
camera_given-IsListed c s t e h = on_option IsListed e.voice _ e h (λ v q.
    signal_to-IsListed c s (VoiceSignal.camera true) _ (
      updated-IsListed e
        (record e {
          camera_stream = some t;
          live = t ∷ e.live;
          peers = on_peers (with_camera (some t)) e.peers;
          voice = some (record v { camera = true });
        })
        refl h))

signal_if-IsListed :
    (b : Bool) (c s : Text) (x : VoiceSignal) (e : VoiceEngine)
    → IsListed e
    → IsListed (signal_if b c s x e)
signal_if-IsListed b c s x e h = on_test IsListed b _ e (λ q. signal_to-IsListed c s x e h) (λ q. h)

pub stop_voice_share-IsListed : (e : VoiceEngine) → IsListed e → IsListed (stop_voice_share e)
unfolding stop_voice_share
stop_voice_share-IsListed e h =
    on_option IsListed e.voice _ _ (same_rooms-IsListed e _ refl h) (λ v q.
      signal_if-IsListed _ v.conv_id v.session (VoiceSignal.share false) _ (
        updated-IsListed e
          (record (stop_screen_track (record e { peers = on_peers (with_screen none) e.peers })) {
            voice = some (record v { sharing = false });
          })
          refl h))

pub stop_voice_camera-IsListed : (e : VoiceEngine) → IsListed e → IsListed (stop_voice_camera e)
unfolding stop_voice_camera
stop_voice_camera-IsListed e h =
    on_option IsListed e.voice _ _ (same_rooms-IsListed e _ refl h) (λ v q.
      signal_if-IsListed _ v.conv_id v.session (VoiceSignal.camera false) _ (
        updated-IsListed e
          (record (stop_camera_tracks (record e { peers = on_peers (with_camera none) e.peers })) {
            voice = some (record v { camera = false });
          })
          refl h))

pub page_hidden-Same : (e : VoiceEngine) → Same e (page_hidden e)
unfolding page_hidden signal_to
page_hidden-Same e = on_option (Same e) e.voice _ e refl (λ v q. refl)
