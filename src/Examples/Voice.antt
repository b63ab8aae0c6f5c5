-- ===== src/Examples/Voice.antt =====
-- Runs of the voice module.
use family_messenger_e2e.Base.{
  ◌≡◌, ◌⊎◌, ◌&&◌, refl, true, false, some, none, [], ◌∷◌, ◌++◌, codes, filter, not, is_some, any,
  find, ◌===◌, if◌then◌else◌,
}
use family_messenger_e2e.Base.Dict.{lookup, insert, delete}
use family_messenger_e2e.Model.Payload.{VoiceSignal, voice}
use family_messenger_e2e.Voice.State.{
  VoiceState, VoiceParticipant, VoiceEngine, Peer, less, signal_to, set_peer_state,
  write_peer_state, publish_stream, publish_camera,
}
use family_messenger_e2e.Voice.Rooms.{
  participants_of, is_other, set_participant, update_self, remove_participant,
}
use family_messenger_e2e.Voice.Mesh.{
  close_peer, close_all, create_peer, change_peer, ensure_video, accept_offer, offer_described,
}
use family_messenger_e2e.Voice.Channel.{
  enter, microphone_given, leave_voice, leave_channel, drop_without_session, camera_given, prune,
  beat,
}
use family_messenger_e2e.Voice.Signals.{handle_voice_signal, from_other}
use family_messenger_e2e.Voice.Steps.{stay, after, microphone, signal, offer_taken, camera_on}
use family_messenger_e2e.Voice.Quiet.{IsQuiet}
use family_messenger_e2e.Voice.Quiet.Run.{VoiceRun-Shows}
use family_messenger_e2e.Voice.Orderly.{stays, participants_of-prune}
use family_messenger_e2e.Voice.Reconnect.{beat-IsConnected}
use family_messenger_e2e.Voice.Glare.{HasOffered, Waits, hear_of, maybe_connect_once}
use family_messenger_e2e.Voice.Listed.{Once, IsListed}
use family_messenger_e2e.Voice.Listed.Run.{VoiceRun-Once}
use family_messenger_e2e.Voice.Left.{leave_voice_lem}
use family_messenger_e2e.Examples.Client.{alice_id, chat_id, client}

abbrev quiet : VoiceEngine
quiet = record {
  session = client.session;
  conversations = client.conversations;
  call = none;
  voice = none;
  voice_rooms = [];
  voice_streams = [];
  voice_cameras = [];
  peers = [];
  local_stream = none;
  screen_track = none;
  camera_stream = none;
  heartbeat = false;
  prune_timer = false;
  ice_servers = [];
  ice_fetched_at = 0;
  now = 100000;
  live = [];
  created = 0;
  sent = [];
  toasts = [];
}

quiet-IsListed : IsListed quiet
unfolding IsListed
quiet-IsListed = (tt, tt)

-- We join under session 5, and alice under session `s`, which was seen at `seen`.
abbrev inside : VoiceState
inside = record {
  conv_id = chat_id;
  session = codes "5";
  muted = false;
  sharing = false;
  camera = false;
  joined_at = 90000;
  peers = [];
}

abbrev alice_there : VoiceParticipant
alice_there = record {
  session = codes "7";
  account = alice_id;
  device = codes "d";
  muted = false;
  sharing = false;
  camera = false;
  seen = 50000;
}

abbrev gone_there : VoiceParticipant
gone_there = record alice_there { session = codes "8"; seen = 1000 }

abbrev talking : VoiceEngine
talking = record quiet {
  voice = some inside;
  voice_rooms = (chat_id, alice_there ∷ gone_there ∷ []) ∷ [];
  local_stream = some 1;
  live = 1 ∷ [];
}

-- Alice offers, her offer takes effect, and our camera goes on.
abbrev with_alice : VoiceEngine
with_alice = camera_given chat_id (codes "5") 2 (
    offer_described (codes "7") 1 (
      handle_voice_signal alice_id (codes "d") chat_id (codes "7")
        (VoiceSignal.offer (codes "5") (codes "o")) talking))

participants_of-prune_example :
    (participants_of chat_id (prune talking)
      ≡ filter (stays talking chat_id) (participants_of chat_id talking))
    × ((any
            (λ p. p.session === codes "8" && not (stays talking chat_id p))
            (participants_of chat_id talking)
          ≡ false)
        ⊎ (lookup (codes "8") (prune talking).peers ≡ none))
unfolding lookup
participants_of-prune_example = participants_of-prune chat_id (codes "8") talking (refl, tt)

beat-IsConnected_example : is_some (lookup (codes "7") (beat talking).peers) ≡ true
unfolding lookup participants_of find ◌===◌ less
beat-IsConnected_example =
    beat-IsConnected alice_there inside talking (refl, tt) refl refl refl refl

-- The two sides of the same channel.
abbrev alice_inside : VoiceState
alice_inside = record inside { session = codes "7" }

abbrev alice_talking : VoiceEngine
alice_talking = record talking { voice = some alice_inside }

abbrev us_there : VoiceParticipant
us_there = record alice_there { session = codes "5" }

maybe_connect_once_example :
    (HasOffered inside
        (codes "7")
        (codes "o")
        talking
        (hear_of alice_there inside (codes "o") talking)
      × Waits (codes "5") alice_talking (hear_of us_there alice_inside (codes "p") alice_talking))
    ⊎ (Waits (codes "7") talking (hear_of alice_there inside (codes "o") talking)
        × HasOffered alice_inside
            (codes "5")
            (codes "p")
            alice_talking
            (hear_of us_there alice_inside (codes "p") alice_talking))
unfolding lookup ◌===◌
maybe_connect_once_example =
    maybe_connect_once alice_there us_there inside alice_inside talking alice_talking (codes "o")
      (codes "p") (refl, refl) (refl, refl) refl (refl, refl) (refl, refl)

VoiceRun-Once_example :
    Once (participants_of chat_id (microphone_given chat_id (codes "5") 1 quiet))
VoiceRun-Once_example =
    VoiceRun-Once chat_id (after (microphone chat_id (codes "5") 1 quiet) (stay _)) quiet-IsListed

leave_voice_lem_example :
    let f = leave_voice talking in
    (f.voice ≡ none)
    × (participants_of chat_id f ≡ (
        if chat_id === chat_id
        then filter (is_other (codes "5")) (participants_of chat_id talking)
        else participants_of chat_id talking))
    × (f.sent ≡ talking.sent ++ (chat_id, voice (codes "5") VoiceSignal.leave) ∷ [])
leave_voice_lem_example = leave_voice_lem chat_id inside talking refl

-- A second click on "join" before the microphone is there: the first session is never left, its
-- entry stays in our list, and its microphone stays open.
abbrev twice : VoiceEngine
twice =
    leave_voice
      (microphone_given chat_id (codes "6") 2 (microphone_given chat_id (codes "5") 1 quiet))

join_twice :
    (twice.live ≡ 1 ∷ [])
    × (any (λ p. p.session === codes "5") (participants_of chat_id twice) ≡ true)
unfolding leave_voice leave_channel microphone_given enter drop_without_session update_self
    set_participant signal_to close_all remove_participant participants_of filter lookup insert
    delete any ◌===◌
join_twice = (refl, refl)

talking-IsQuiet : IsQuiet talking
unfolding IsQuiet lookup
talking-IsQuiet = record {
  alone = λ h. refl;
  microphone_off = λ h. cc;
  camera_off = λ h. refl;
  screen_off = λ h. refl;
  shows = λ k p h. cc;
}

abbrev alice_peer : Peer
alice_peer = record {
  number = 1;
  offered = false;
  description = some (codes "o");
  has_remote = true;
  added = [];
  audio_track = some 1;
  has_senders = true;
  camera_track = some 2;
  screen_track = none;
  queued = [];
  outgoing = [];
  flush = false;
}

with_alice_peer : lookup (codes "7") with_alice.peers ≡ some alice_peer
unfolding camera_given offer_described handle_voice_signal from_other accept_offer create_peer
    close_peer change_peer ensure_video set_peer_state write_peer_state update_self set_participant
    signal_to participants_of lookup insert delete filter publish_stream publish_camera ◌===◌
with_alice_peer = refl

VoiceRun-Shows_example :
    (alice_peer.camera_track ≡ (if alice_peer.has_senders then with_alice.camera_stream else none))
    × (alice_peer.screen_track ≡ (if alice_peer.has_senders then with_alice.screen_track else none))
VoiceRun-Shows_example =
    VoiceRun-Shows (codes "7") alice_peer
      (after
        (signal alice_id (codes "d") chat_id (codes "7") (VoiceSignal.offer (codes "5") (codes "o"))
          talking)
        (after (offer_taken (codes "7") 1 _) (after (camera_on chat_id (codes "5") 2 _) (stay _))))
      talking-IsQuiet with_alice_peer
