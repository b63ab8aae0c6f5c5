-- ===== src/Voice/Quiet/Channel.antt =====
-- `IsQuiet` over the user's operations, the timers and the signals.
use family_messenger_e2e.Base.{
  ◌≡◌, refl, sym, ◌∙◌, Text, Bool, true, false, not, ◌||◌, Option, none, some, List, [], ◌∷◌, map,
  is_some, arith,
}
use family_messenger_e2e.Base.Dict.{Dict, lookup}
use family_messenger_e2e.Model.Payload.{VoiceSignal}
use family_messenger_e2e.Calls.State.{is_live}
use family_messenger_e2e.Voice.State.{
  Stream, Peer, VoiceState, VoiceEngine, signal_to, announce, already_in_call, show_toast,
  refresh_ice,
}
use family_messenger_e2e.Voice.Rooms.{
  participants_of, remove_participant, update_self, is_kept, gone_from,
}
use family_messenger_e2e.Voice.Channel.{
  with_camera, with_screen, on_peers, leave_channel, leave_voice, drop_without_session, signed_out,
  is_group, is_in, join_voice, enter, microphone_given, join_sent, session_of, prune, beat,
  toggle_voice_mute, screen_given, camera_given, signal_if, stop_voice_share, stop_voice_camera,
  page_hidden, stop_camera_tracks, stop_screen_track,
}
use family_messenger_e2e.Voice.Frame.{on_option, on_test, close_all-SameRoom, close_all_every}
use family_messenger_e2e.Voice.Quiet.{IsQuiet, Shows, close_all-IsQuiet, same-IsQuiet}
use family_messenger_e2e.Voice.Quiet.Mesh.{
  connect_all-IsQuiet, signal_to-IsQuiet, announce-IsQuiet, update_self-IsQuiet,
}

abbrev mapped : (Peer → Peer) → Option Peer → Option Peer
mapped f none = none
mapped f (some p) = some (f p)

lookup-on_peers :
    (f : Peer → Peer) (k : Text) (m : Dict Peer) → lookup k (on_peers f m) ≡ mapped f (lookup k m)
unfolding lookup
lookup-on_peers f k [] = refl
lookup-on_peers f k ((j, p) ∷ m) = ground (arith, lookup-on_peers f k m)

mapped_inv :
    (f : Peer → Peer) (o : Option Peer) (q : Peer)
    → mapped f o ≡ some q
    → (p : Peer) × (o ≡ some p) × (f p ≡ q)
mapped_inv f none q h = cc
mapped_inv f (some p) q h = (p, refl, cc)

-- New tracks in every slot.
retracked-IsQuiet :
    (e : VoiceEngine) (f : Peer → Peer) (v : Option VoiceState) (camera screen : Option Stream)
    (live : List Stream)
    → ((p : Peer) → Shows e.camera_stream e.screen_track p → Shows camera screen (f p))
    → is_some v ≡ is_some e.voice
    → (is_some v ≡ false → (camera ≡ none) × (screen ≡ none))
    → IsQuiet e
    → IsQuiet (record e {
      peers = on_peers f e.peers;
      camera_stream = camera;
      screen_track = screen;
      voice = v;
      live = live;
    })
unfolding IsQuiet
retracked-IsQuiet e f v camera screen live k same off h = record {
  alone = λ q. rw (h.alone (sym same ∙ q)) refl;
  microphone_off = λ q. h.microphone_off (sym same ∙ q);
  camera_off = λ q. (off q).0;
  screen_off = λ q. (off q).1;
  shows = λ j q r.
      let (p, found, e') =
        mapped_inv f (lookup j e.peers) q (sym (lookup-on_peers f j e.peers) ∙ r) in
      rw (sym e') (k p (h.shows j p found));
}

Shows-with_screen :
    (camera screen track : Option Stream) (p : Peer)
    → Shows camera screen p
    → Shows camera track (with_screen track p)
Shows-with_screen camera screen track p h = ground arith

Shows-with_camera :
    (camera screen track : Option Stream) (p : Peer)
    → Shows camera screen p
    → Shows track screen (with_camera track p)
Shows-with_camera camera screen track p h = ground arith

off_fields :
    (e : VoiceEngine)
    → IsQuiet e
    → is_some e.voice ≡ false
    → (e.camera_stream ≡ none) × (e.screen_track ≡ none)
unfolding IsQuiet
off_fields e h q = (h.camera_off q, h.screen_off q)

leave_channel-IsQuiet : (v : VoiceState) (e : VoiceEngine) → IsQuiet (leave_channel v e)
unfolding IsQuiet leave_channel remove_participant signal_to lookup
leave_channel-IsQuiet v e =
    let quiet = stop_camera_tracks (stop_screen_track (record e { heartbeat = false })) in
    let same = close_all-SameRoom (map (λ entry. entry.0) quiet.peers) quiet in
    record {
      alone = λ q. close_all_every quiet;
      microphone_off = λ q. refl;
      camera_off = λ q. same.same_camera;
      screen_off = λ q. same.same_screen;
      shows = λ j p r. let h = close_all_every quiet in cc;
    }

pub leave_voice-IsQuiet : (e : VoiceEngine) → IsQuiet e → IsQuiet (leave_voice e)
unfolding leave_voice
leave_voice-IsQuiet e h = on_option IsQuiet e.voice _ e h (λ v q. leave_channel-IsQuiet v e)

drop_without_session-IsQuiet : (e : VoiceEngine) → IsQuiet e → IsQuiet (drop_without_session e)
unfolding drop_without_session
drop_without_session-IsQuiet e h =
    on_option IsQuiet e.session _ _ (leave_voice-IsQuiet e h) (λ me q. h)

pub signed_out-IsQuiet : (e : VoiceEngine) → IsQuiet e → IsQuiet (signed_out e)
unfolding signed_out
signed_out-IsQuiet e h =
    drop_without_session-IsQuiet (record e { session = none })
      (same-IsQuiet e _ refl refl (refl, refl, refl) h)

pub toast-IsQuiet : (t : _) (e : VoiceEngine) → IsQuiet e → IsQuiet (show_toast t e)
toast-IsQuiet t e = same-IsQuiet e _ refl refl (refl, refl, refl)

pub join_voice-IsQuiet :
    (conv_id : Text) (e : VoiceEngine) → IsQuiet e → IsQuiet (join_voice conv_id e)
unfolding join_voice
join_voice-IsQuiet conv_id e h =
    on_test IsQuiet (not (is_some e.session) || not (is_group (lookup conv_id e.conversations))) e _
      (λ q. h)
      (λ q.
        on_test IsQuiet (is_live e.call) _ _ (λ r. toast-IsQuiet already_in_call e h)
          (λ r.
            on_test IsQuiet (is_in e.voice conv_id) e _ (λ s. h) (λ s. leave_voice-IsQuiet e h)))

enter-IsQuiet :
    (conv_id id : Text) (mic : Stream) (e : VoiceEngine)
    → IsQuiet e
    → IsQuiet (enter conv_id id mic e)
unfolding IsQuiet enter
enter-IsQuiet conv_id id mic e h = record {
  alone = λ q. cc;
  microphone_off = λ q. cc;
  camera_off = λ q. cc;
  screen_off = λ q. cc;
  shows = h.shows;
}

pub microphone_given-IsQuiet :
    (conv_id id : Text) (mic : Stream) (e : VoiceEngine)
    → IsQuiet e
    → IsQuiet (microphone_given conv_id id mic e)
unfolding microphone_given
microphone_given-IsQuiet conv_id id mic e h =
    signal_to-IsQuiet conv_id id (VoiceSignal.join false false false) _
      (update_self-IsQuiet _ (drop_without_session-IsQuiet _ (enter-IsQuiet conv_id id mic e h)))

pub join_sent-IsQuiet :
    (conv_id : Text) (e : VoiceEngine) → IsQuiet e → IsQuiet (join_sent conv_id e)
unfolding join_sent
join_sent-IsQuiet conv_id e h =
    same-IsQuiet _ _ refl refl (refl, refl, refl)
      (connect_all-IsQuiet (participants_of conv_id e) e h)

pub prune-IsQuiet : (e : VoiceEngine) → IsQuiet e → IsQuiet (prune e)
unfolding prune
prune-IsQuiet e h =
    same-IsQuiet _ _ refl refl (refl, refl, refl)
      (close_all-IsQuiet (map session_of (gone_from (is_kept e) e.voice_rooms)) e h)

pub beat-IsQuiet : (e : VoiceEngine) → IsQuiet e → IsQuiet (beat e)
unfolding beat
beat-IsQuiet e h = on_option IsQuiet e.voice _ e h (λ v q.
    connect_all-IsQuiet (participants_of v.conv_id (announce v.conv_id (prune e))) _
      (announce-IsQuiet v.conv_id (prune e) (prune-IsQuiet e h)))

pub refresh_ice-IsQuiet :
    (servers : List Text) (e : VoiceEngine) → IsQuiet e → IsQuiet (refresh_ice servers e)
unfolding refresh_ice
refresh_ice-IsQuiet servers e = same-IsQuiet e _ refl refl (refl, refl, refl)

pub toggle_voice_mute-IsQuiet : (e : VoiceEngine) → IsQuiet e → IsQuiet (toggle_voice_mute e)
unfolding toggle_voice_mute
toggle_voice_mute-IsQuiet e h = on_option IsQuiet e.voice _ e h (λ v q.
    on_option IsQuiet e.local_stream _ e h (λ mic r.
      let f = record e { voice = some (record v { muted = not v.muted }) } in
      announce-IsQuiet v.conv_id (update_self f)
        (update_self-IsQuiet f (same-IsQuiet e f (rw q refl) refl (refl, refl, refl) h))))

pub screen_given-IsQuiet :
    (conv_id session : Text) (track : Stream) (e : VoiceEngine)
    → IsQuiet e
    → IsQuiet (screen_given conv_id session track e)
unfolding screen_given
screen_given-IsQuiet conv_id session track e h = on_option IsQuiet e.voice _ e h (λ v q.
    signal_to-IsQuiet conv_id session (VoiceSignal.share true) _ (
      update_self-IsQuiet _ (
        retracked-IsQuiet e (with_screen (some track)) (some (record v { sharing = true }))
          e.camera_stream (some track) (track ∷ e.live)
          (Shows-with_screen e.camera_stream e.screen_track (some track)) (rw q refl) (λ off. cc)
          h)))

pub camera_given-IsQuiet :
    (conv_id session : Text) (stream : Stream) (e : VoiceEngine)
    → IsQuiet e
    → IsQuiet (camera_given conv_id session stream e)
unfolding camera_given
camera_given-IsQuiet conv_id session stream e h = on_option IsQuiet e.voice _ e h (λ v q.
    signal_to-IsQuiet conv_id session (VoiceSignal.camera true) _ (
      update_self-IsQuiet _ (
        retracked-IsQuiet e (with_camera (some stream)) (some (record v { camera = true }))
          (some stream) e.screen_track (stream ∷ e.live)
          (Shows-with_camera e.camera_stream e.screen_track (some stream)) (rw q refl) (λ off. cc)
          h)))

signal_if-IsQuiet :
    (test : Bool) (conv_id session : Text) (signal : VoiceSignal) (e : VoiceEngine)
    → IsQuiet e
    → IsQuiet (signal_if test conv_id session signal e)
signal_if-IsQuiet test conv_id session signal e h =
    on_test IsQuiet test _ e (λ q. signal_to-IsQuiet conv_id session signal e h) (λ q. h)

screen_stopped-IsQuiet :
    (v : Option VoiceState) (e : VoiceEngine)
    → is_some v ≡ is_some e.voice
    → IsQuiet e
    → IsQuiet
        (record (stop_screen_track (record e { peers = on_peers (with_screen none) e.peers })) {
          voice = v;
        })
screen_stopped-IsQuiet v e same h =
    retracked-IsQuiet e (with_screen none) v e.camera_stream none _
      (Shows-with_screen e.camera_stream e.screen_track none) same
      (λ off. ((off_fields e h (sym same ∙ off)).0, refl)) h

camera_stopped-IsQuiet :
    (v : Option VoiceState) (e : VoiceEngine)
    → is_some v ≡ is_some e.voice
    → IsQuiet e
    → IsQuiet
        (record (stop_camera_tracks (record e { peers = on_peers (with_camera none) e.peers })) {
          voice = v;
        })
camera_stopped-IsQuiet v e same h =
    retracked-IsQuiet e (with_camera none) v none e.screen_track _
      (Shows-with_camera e.camera_stream e.screen_track none) same
      (λ off. (refl, (off_fields e h (sym same ∙ off)).1)) h

pub stop_voice_share-IsQuiet : (e : VoiceEngine) → IsQuiet e → IsQuiet (stop_voice_share e)
unfolding stop_voice_share
stop_voice_share-IsQuiet e h =
    on_option IsQuiet e.voice _ _ (screen_stopped-IsQuiet e.voice e refl h) (λ v q.
      signal_if-IsQuiet (is_some e.screen_track || v.sharing) v.conv_id v.session
        (VoiceSignal.share false) _
        (update_self-IsQuiet _
          (screen_stopped-IsQuiet (some (record v { sharing = false })) e (rw q refl) h)))

pub stop_voice_camera-IsQuiet : (e : VoiceEngine) → IsQuiet e → IsQuiet (stop_voice_camera e)
unfolding stop_voice_camera
stop_voice_camera-IsQuiet e h =
    on_option IsQuiet e.voice _ _ (camera_stopped-IsQuiet e.voice e refl h) (λ v q.
      signal_if-IsQuiet (is_some e.camera_stream || v.camera) v.conv_id v.session
        (VoiceSignal.camera false) _
        (update_self-IsQuiet _
          (camera_stopped-IsQuiet (some (record v { camera = false })) e (rw q refl) h)))

pub page_hidden-IsQuiet : (e : VoiceEngine) → IsQuiet e → IsQuiet (page_hidden e)
unfolding page_hidden
page_hidden-IsQuiet e h =
    on_option IsQuiet e.voice _ e h
      (λ v q. signal_to-IsQuiet v.conv_id v.session VoiceSignal.leave e h)
