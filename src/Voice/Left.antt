-- ===== src/Voice/Left.antt =====
-- Leaving a channel, seen from the list of participants and from the others.
use family_messenger_e2e.Base.{
  ◌≡◌, refl, ◌∙◌, ap, Text, false, none, some, List, [], ◌∷◌, ◌++◌, map, filter, ◌===◌, ===_iff,
  ◌or_else◌, arith, if◌then◌else◌,
}
use family_messenger_e2e.Base.Dict.{Dict, lookup, lookup-insert, lookup-delete}
use family_messenger_e2e.Model.Payload.{VoiceSignal, voice}
use family_messenger_e2e.Voice.State.{
  VoiceState, VoiceParticipant, VoiceEngine, signal_to, set_peer_state, publish_stream,
  publish_camera,
}
use family_messenger_e2e.Voice.Rooms.{is_other, participants_of, with_room, remove_participant}
use family_messenger_e2e.Voice.Mesh.{close_peer, close_all}
use family_messenger_e2e.Voice.Channel.{
  leave_channel, leave_voice, stop_camera_tracks, stop_screen_track,
}
use family_messenger_e2e.Voice.Frame.{on_some, on_option, close_all-SameRoom}

lookup-with_room :
    (k c : Text) (list : List VoiceParticipant) (m : Dict (List VoiceParticipant))
    → (lookup k (with_room c list m) or_else []) ≡ (if k === c then list else lookup k m or_else [])
lookup-with_room k c [] m = ground (arith, lookup-delete c k m, ===_iff c k, ===_iff k c)
lookup-with_room k c (p ∷ list) m =
    ground (arith, lookup-insert c k (p ∷ list) m, ===_iff c k, ===_iff k c)

-- Taking a session out of a room takes it out of that room only, and nobody else with it.
pub participants_of-remove_participant :
    (k c s : Text) (e : VoiceEngine)
    → participants_of k (remove_participant c s e)
      ≡ (if k === c then filter (is_other s) (participants_of c e) else participants_of k e)
unfolding participants_of remove_participant
participants_of-remove_participant k c s e =
    lookup-with_room k c (filter (is_other s) (lookup c e.voice_rooms or_else [])) e.voice_rooms

pub close_peer-sent : (s : Text) (e : VoiceEngine) → (close_peer s e).sent ≡ e.sent
unfolding close_peer set_peer_state publish_stream publish_camera
close_peer-sent s e = on_option (λ f. f.sent ≡ e.sent) (lookup s e.peers) _ e refl (λ p q. refl)

close_all-sent : (ss : List Text) (e : VoiceEngine) → (close_all ss e).sent ≡ e.sent
unfolding close_all
close_all-sent [] e = refl
close_all-sent (s ∷ ss) e = close_all-sent ss (close_peer s e) ∙ close_peer-sent s e

left_lem :
    (k : Text) (v : VoiceState) (e : VoiceEngine)
    → let f = leave_channel v e in
      (f.voice ≡ none)
      × (participants_of k f ≡ (
          if k === v.conv_id
          then filter (is_other v.session) (participants_of v.conv_id e)
          else participants_of k e))
      × (f.sent ≡ e.sent ++ (v.conv_id, voice v.session VoiceSignal.leave) ∷ [])
unfolding leave_channel participants_of signal_to remove_participant
left_lem k v e =
    let quiet = stop_camera_tracks (stop_screen_track (record e { heartbeat = false })) in
    let ss = map (λ entry. entry.0) quiet.peers in
    let same = close_all-SameRoom ss quiet in
    (
      refl,
      lookup-with_room k v.conv_id
            (filter (is_other v.session)
              (lookup v.conv_id (close_all ss quiet).voice_rooms or_else []))
            (close_all ss quiet).voice_rooms
          ∙ ap
              (λ (rooms : Dict (List VoiceParticipant)).
                if k === v.conv_id
                then filter (is_other v.session) (lookup v.conv_id rooms or_else [])
                else lookup k rooms or_else [])
              same.same_rooms,
      ap (λ x. x ++ (v.conv_id, voice v.session VoiceSignal.leave) ∷ []) (close_all-sent ss quiet),
    )

-- Who leaves is in no channel, stands in the list of that channel no more while everybody else
-- does, in every room, and has sent the channel one signal more, that it left.
pub leave_voice_lem :
    (k : Text) (v : VoiceState) (e : VoiceEngine)
    → e.voice ≡ some v
    → let f = leave_voice e in
      (f.voice ≡ none)
      × (participants_of k f ≡ (
          if k === v.conv_id
          then filter (is_other v.session) (participants_of v.conv_id e)
          else participants_of k e))
      × (f.sent ≡ e.sent ++ (v.conv_id, voice v.session VoiceSignal.leave) ∷ [])
unfolding leave_voice
leave_voice_lem k v e q =
    on_some
      (λ f.
        (f.voice ≡ none)
        × (participants_of k f ≡ (
            if k === v.conv_id
            then filter (is_other v.session) (participants_of v.conv_id e)
            else participants_of k e))
        × (f.sent ≡ e.sent ++ (v.conv_id, voice v.session VoiceSignal.leave) ∷ []))
      e.voice _ e v q (left_lem k v e)
