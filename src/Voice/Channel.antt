-- ===== src/Voice/Channel.antt =====
-- What the user and the timers do: joining and leaving a channel, the microphone, screen and camera.
use family_messenger_e2e.Base.{
  Text, Bool, true, false, not, ◌||◌, Option, none, some, List, [], ◌∷◌, map, filter, ◌==◌, ◌===◌,
  is_some, if◌then◌else◌,
}
use family_messenger_e2e.Base.Dict.{Dict, lookup}
use family_messenger_e2e.Model.Payload.{group, direct, VoiceSignal}
use family_messenger_e2e.Model.Database.{Conversation}
use family_messenger_e2e.Calls.State.{is_live}
use family_messenger_e2e.Voice.State.{
  VoiceState, Stream, Peer, VoiceEngine, VoiceParticipant, already_in_call, voice_mic_failed,
  screen_share_failed, camera_failed, signal_to, show_toast, announce,
}
use family_messenger_e2e.Voice.Rooms.{
  participants_of, update_self, remove_participant, is_kept, pruned_rooms, gone_from,
}
use family_messenger_e2e.Voice.Mesh.{close_all, connect_all}

abbrev pub without : Option Stream → List Stream → List Stream
without none live = live
without (some s) live = filter (λ t. not (t == s)) live

-- The track that a slot sends, for every connection that has its slots.
abbrev pub with_camera : Option Stream → Peer → Peer
with_camera track p = if p.has_senders then record p { camera_track = track } else p

abbrev pub with_screen : Option Stream → Peer → Peer
with_screen track p = if p.has_senders then record p { screen_track = track } else p

abbrev pub on_peers : (Peer → Peer) → Dict Peer → Dict Peer
on_peers f peers = map (λ entry. (entry.0, f entry.1)) peers

-- `stopCameraTracks`, and the same for the screen and the microphone.
abbrev pub stop_camera_tracks : VoiceEngine → VoiceEngine
stop_camera_tracks e = record e { camera_stream = none; live = without e.camera_stream e.live }

abbrev pub stop_screen_track : VoiceEngine → VoiceEngine
stop_screen_track e = record e { screen_track = none; live = without e.screen_track e.live }

abbrev pub stop_microphone : VoiceEngine → VoiceEngine
stop_microphone e = record e { local_stream = none; live = without e.local_stream e.live }

unfoldable pub leave_channel : VoiceState → VoiceEngine → VoiceEngine
unfolding close_all remove_participant signal_to
leave_channel v e =
    let quiet = stop_camera_tracks (stop_screen_track (record e { heartbeat = false })) in
    let alone = close_all (map (λ entry. entry.0) quiet.peers) quiet in
    let muted = stop_microphone (record alone { voice_streams = []; voice_cameras = [] }) in
    let away = remove_participant v.conv_id v.session muted in
    signal_to v.conv_id v.session VoiceSignal.leave (record away { voice = none })

unfoldable pub leave_voice : VoiceEngine → VoiceEngine
unfolding leave_channel
leave_voice e = elim e.voice [ none ↦ e | some v ↦ leave_channel v e ]

-- The `effect` at the end of the file: signing out drops the channel.
unfoldable pub drop_without_session : VoiceEngine → VoiceEngine
unfolding leave_voice
drop_without_session e = elim e.session [ none ↦ leave_voice e | some me ↦ e ]

unfoldable pub signed_out : VoiceEngine → VoiceEngine
unfolding drop_without_session
signed_out e = drop_without_session (record e { session = none })

-- `joinVoice` up to the request for the microphone.
abbrev pub is_group : Option Conversation → Bool
is_group none = false
is_group (some conv) = elim conv.kind [ group ↦ true | direct ↦ false ]

abbrev pub is_in : Option VoiceState → Text → Bool
is_in none conv_id = false
is_in (some v) conv_id = v.conv_id === conv_id

unfoldable pub join_voice : Text → VoiceEngine → VoiceEngine
unfolding leave_voice
join_voice conv_id e =
    if not (is_some e.session) || not (is_group (lookup conv_id e.conversations))
    then e
    else if is_live e.call
    then show_toast already_in_call e
    else if is_in e.voice conv_id
    then e
    else leave_voice e

unfoldable pub microphone_denied : VoiceEngine → VoiceEngine
microphone_denied e = show_toast voice_mic_failed e

-- The rest, with the microphone and the ICE servers there: the new state, seen by the effect
-- above, and the join signal. When that has been sent, the connections and the heartbeat.
unfoldable pub enter : Text → Text → Stream → VoiceEngine → VoiceEngine
enter conv_id id mic e = record e {
  local_stream = some mic;
  live = mic ∷ e.live;
  voice = some (record {
    conv_id = conv_id;
    session = id;
    muted = false;
    sharing = false;
    camera = false;
    joined_at = e.now;
    peers = [];
  });
}

unfoldable pub microphone_given : Text → Text → Stream → VoiceEngine → VoiceEngine
unfolding enter drop_without_session update_self signal_to
microphone_given conv_id id mic e =
    signal_to conv_id id (VoiceSignal.join false false false)
      (update_self (drop_without_session (enter conv_id id mic e)))

unfoldable pub join_sent : Text → VoiceEngine → VoiceEngine
unfolding connect_all participants_of
join_sent conv_id e = record (connect_all (participants_of conv_id e) e) { heartbeat = true }

-- `prune`, and the heartbeat.
abbrev pub session_of : VoiceParticipant → Text
session_of p = p.session

unfoldable pub prune : VoiceEngine → VoiceEngine
unfolding close_all pruned_rooms gone_from
prune e = record (close_all (map session_of (gone_from (is_kept e) e.voice_rooms)) e) {
  voice_rooms = pruned_rooms (is_kept e) e.voice_rooms;
}

unfoldable pub beat : VoiceEngine → VoiceEngine
unfolding prune announce connect_all participants_of
beat e = elim e.voice [
  | none ↦ e
  | some v ↦ let e' = announce v.conv_id (prune e) in connect_all (participants_of v.conv_id e') e'
]

unfoldable pub toggle_voice_mute : VoiceEngine → VoiceEngine
unfolding update_self announce
toggle_voice_mute e = elim e.voice [
  | none ↦ e
  | some v ↦ elim e.local_stream [
    | none ↦ e
    | some mic ↦
        announce v.conv_id
          (update_self (record e { voice = some (record v { muted = not v.muted }) }))
  ]
]

-- `startVoiceShare` and `startVoiceCamera` once the stream is there: `conv_id` and `session` are
-- those of the channel in which it was asked for.
unfoldable pub screen_given : Text → Text → Stream → VoiceEngine → VoiceEngine
unfolding update_self signal_to
screen_given conv_id session track e = elim e.voice [
  | none ↦ e
  | some v ↦ signal_to conv_id session (VoiceSignal.share true) (
      update_self (record e {
        screen_track = some track;
        live = track ∷ e.live;
        peers = on_peers (with_screen (some track)) e.peers;
        voice = some (record v { sharing = true });
      }))
]

unfoldable pub camera_given : Text → Text → Stream → VoiceEngine → VoiceEngine
unfolding update_self signal_to
camera_given conv_id session stream e = elim e.voice [
  | none ↦ e
  | some v ↦ signal_to conv_id session (VoiceSignal.camera true) (
      update_self (record e {
        camera_stream = some stream;
        live = stream ∷ e.live;
        peers = on_peers (with_camera (some stream)) e.peers;
        voice = some (record v { camera = true });
      }))
]

unfoldable pub screen_refused : VoiceEngine → VoiceEngine
screen_refused e = show_toast screen_share_failed e

unfoldable pub camera_refused : VoiceEngine → VoiceEngine
camera_refused e = show_toast camera_failed e

abbrev pub signal_if : Bool → Text → Text → VoiceSignal → VoiceEngine → VoiceEngine
signal_if test conv_id session signal e = if test then signal_to conv_id session signal e else e

unfoldable pub stop_voice_share : VoiceEngine → VoiceEngine
unfolding update_self signal_to
stop_voice_share e =
    let e' = stop_screen_track (record e { peers = on_peers (with_screen none) e.peers }) in
    elim e.voice [
      | none ↦ e'
      | some v ↦
          signal_if (is_some e.screen_track || v.sharing) v.conv_id v.session
            (VoiceSignal.share false)
            (update_self (record e' { voice = some (record v { sharing = false }) }))
    ]

unfoldable pub stop_voice_camera : VoiceEngine → VoiceEngine
unfolding update_self signal_to
stop_voice_camera e =
    let e' = stop_camera_tracks (record e { peers = on_peers (with_camera none) e.peers }) in
    elim e.voice [
      | none ↦ e'
      | some v ↦
          signal_if (is_some e.camera_stream || v.camera) v.conv_id v.session
            (VoiceSignal.camera false)
            (update_self (record e' { voice = some (record v { camera = false }) }))
    ]

-- The tab is closed: the others are told, and nothing else is done.
unfoldable pub page_hidden : VoiceEngine → VoiceEngine
unfolding signal_to
page_hidden e = elim e.voice [
  | none ↦ e
  | some v ↦ signal_to v.conv_id v.session VoiceSignal.leave e
]
