-- ===== src/Voice/Quiet/Media.antt =====
-- The media streams when a channel is left.
use family_messenger_e2e.Base.{
  ◌≡◌, refl, ◌∙◌, ap, Text, Bool, false, not, ◌&&◌, ◌||◌, Option, none, some, List, [], ◌∷◌, any,
  map, filter, ◌==◌, arith,
}
use family_messenger_e2e.Voice.State.{
  VoiceState, Stream, VoiceEngine, signal_to, set_peer_state, publish_stream, publish_camera,
}
use family_messenger_e2e.Voice.Rooms.{remove_participant}
use family_messenger_e2e.Voice.Mesh.{close_peer, close_all}
use family_messenger_e2e.Voice.Channel.{
  leave_channel, leave_voice, without, stop_camera_tracks, stop_screen_track,
}
use family_messenger_e2e.Voice.Frame.{on_some, on_option}

abbrev pub is_among : Stream → List Stream → Bool
is_among s live = any (λ t. t == s) live

abbrev pub is_stream : Stream → Option Stream → Bool
is_stream s none = false
is_stream s (some t) = t == s

-- The microphone, the camera and the screen that the module holds.
abbrev pub is_held : Stream → VoiceEngine → Bool
is_held s e =
    is_stream s e.local_stream || is_stream s e.camera_stream || is_stream s e.screen_track

is_among-filter :
    (s t : Stream) (live : List Stream)
    → is_among s (filter (λ x. not (x == t)) live) ≡ (is_among s live && not (t == s))
unfolding any filter
is_among-filter s t [] = ground arith
is_among-filter s t (x ∷ live) = ground (arith, is_among-filter s t live)

is_among-without :
    (s : Stream) (o : Option Stream) (live : List Stream)
    → is_among s (without o live) ≡ (is_among s live && not (is_stream s o))
is_among-without s none live = ground arith
is_among-without s (some t) live = is_among-filter s t live

close_peer_media :
    (k : Text) (e : VoiceEngine)
    → ((close_peer k e).live ≡ e.live) × ((close_peer k e).local_stream ≡ e.local_stream)
unfolding close_peer set_peer_state publish_stream publish_camera
close_peer_media k e =
    on_option (λ f. (f.live ≡ e.live) × (f.local_stream ≡ e.local_stream)) _ _ e (refl, refl)
      (λ p q. (refl, refl))

close_all_media :
    (ks : List Text) (e : VoiceEngine)
    → ((close_all ks e).live ≡ e.live) × ((close_all ks e).local_stream ≡ e.local_stream)
unfolding close_all
close_all_media [] e = (refl, refl)
close_all_media (k ∷ ks) e =
    let one = close_peer_media k e in
    let more = close_all_media ks (close_peer k e) in (more.0 ∙ one.0, more.1 ∙ one.1)

-- Leaving stops what is held, and nothing else, and the heartbeat.
abbrev pub Stopped : Stream → VoiceEngine → VoiceEngine → Type 0
Stopped s e f =
    (f.heartbeat ≡ false) × (is_among s f.live ≡ (is_among s e.live && not (is_held s e)))

close_all-heartbeat : (ks : List Text) (e : VoiceEngine) → (close_all ks e).heartbeat ≡ e.heartbeat
unfolding close_all close_peer set_peer_state publish_stream publish_camera
close_all-heartbeat [] e = refl
close_all-heartbeat (k ∷ ks) e =
    close_all-heartbeat ks (close_peer k e)
    ∙ on_option (λ f. f.heartbeat ≡ e.heartbeat) _ _ e refl (λ p q. refl)

leave_channel_stops :
    (s : Stream) (v : VoiceState) (e : VoiceEngine) → Stopped s e (leave_channel v e)
unfolding leave_channel signal_to remove_participant
leave_channel_stops s v e =
    let quiet = stop_camera_tracks (stop_screen_track (record e { heartbeat = false })) in
    let ks = map (λ entry. entry.0) quiet.peers in
    let same = close_all_media ks quiet in
    let screen = is_among-without s e.screen_track e.live in
    let camera = is_among-without s e.camera_stream (without e.screen_track e.live) in
    let mic = is_among-without s e.local_stream quiet.live in
    let kept : without (close_all ks quiet).local_stream (close_all ks quiet).live
        ≡ without e.local_stream quiet.live =
      ap (λ o. without o (close_all ks quiet).live) same.1 ∙ ap (without e.local_stream) same.0 in
    (close_all-heartbeat ks quiet, ap (is_among s) kept ∙ ground (arith, screen, camera, mic))

pub leave_voice_stops :
    (s : Stream) (v : VoiceState) (e : VoiceEngine) → e.voice ≡ some v → Stopped s e (leave_voice e)
unfolding leave_voice
leave_voice_stops s v e q = on_some (Stopped s e) e.voice _ e v q (leave_channel_stops s v e)

pub leave_voice-voice :
    (v : VoiceState) (e : VoiceEngine) → e.voice ≡ some v → (leave_voice e).voice ≡ none
unfolding leave_voice leave_channel signal_to remove_participant
leave_voice-voice v e q = on_some (λ f. f.voice ≡ none) e.voice _ e v q refl
