-- ===== src/Voice/Mesh.antt =====
-- The mesh of connections: making and closing them, offers, answers and candidates. What an
-- asynchronous function does after an `await` is an operation of its own.
use family_messenger_e2e.Base.{
  ℕ, suc, Text, Bool, true, false, ◌||◌, Option, none, some, List, [], ◌∷◌, ◌++◌, ◌-◌, ltb, ◌==◌,
  ◌===◌, is_some, if◌then◌else◌,
}
use family_messenger_e2e.Base.Dict.{lookup, insert, delete}
use family_messenger_e2e.Model.Payload.{Candidate, VoiceSignal}
use family_messenger_e2e.Voice.State.{
  connecting, connected, failed, VoiceParticipant, Stream, Peer, VoiceEngine, expire_ms, less,
  signal_to, set_peer_state, publish_stream, publish_camera,
}

unfoldable pub close_peer : Text → VoiceEngine → VoiceEngine
unfolding publish_stream publish_camera set_peer_state
close_peer session e = elim (lookup session e.peers) [
  | none ↦ e
  | some p ↦ set_peer_state session none (
      publish_camera session none
        (publish_stream session none (record e { peers = delete session e.peers })))
]

unfoldable pub close_all : List Text → VoiceEngine → VoiceEngine
unfolding close_peer
close_all [] e = e
close_all (session ∷ sessions) e = close_all sessions (close_peer session e)

abbrev pub fresh_peer : ℕ → Option Stream → Peer
fresh_peer number audio = record {
  number = number;
  offered = false;
  description = none;
  has_remote = false;
  added = [];
  audio_track = audio;
  has_senders = false;
  camera_track = none;
  screen_track = none;
  queued = [];
  outgoing = [];
  flush = false;
}

unfoldable pub create_peer : Text → VoiceEngine → VoiceEngine
unfolding close_peer set_peer_state
create_peer remote e =
    let e' = close_peer remote e in
    set_peer_state remote (some connecting) (record e' {
      peers = insert remote (fresh_peer (suc e'.created) e'.local_stream) e'.peers;
      created = suc e'.created;
    })

-- A change of one connection, if it is still the one under its session.
unfoldable pub change_peer : Text → ℕ → (Peer → Peer) → VoiceEngine → VoiceEngine
change_peer remote number f e = elim (lookup remote e.peers) [
  | none ↦ e
  | some p ↦ if p.number == number then record e { peers = insert remote (f p) e.peers } else e
]

-- `ensureVideo`: the slots, with the tracks that are on.
abbrev pub with_slots : Option Stream → Option Stream → Peer → Peer
with_slots camera screen p = record p {
  has_senders = true;
  camera_track = elim camera [ none ↦ p.camera_track | some track ↦ some track ];
  screen_track = elim screen [ none ↦ p.screen_track | some track ↦ some track ];
}

unfoldable pub ensure_video : Text → ℕ → VoiceEngine → VoiceEngine
unfolding change_peer
ensure_video remote number e =
    change_peer remote number (with_slots e.camera_stream e.screen_track) e

-- `offerTo` up to its first `await`, and after its last.
unfoldable pub offer_to : Text → VoiceEngine → VoiceEngine
unfolding create_peer ensure_video
offer_to remote e = elim e.voice [
  | none ↦ e
  | some v ↦ let e' = create_peer remote e in ensure_video remote e'.created e'
]

unfoldable pub send_offer : Text → Text → Text → ℕ → Text → VoiceEngine → VoiceEngine
unfolding change_peer signal_to
send_offer conv_id session remote number sdp e =
    signal_to conv_id session (VoiceSignal.offer remote sdp)
      (change_peer remote number (λ p. record p { offered = true }) e)

unfoldable pub maybe_connect : VoiceParticipant → VoiceEngine → VoiceEngine
unfolding offer_to
maybe_connect p e = elim e.voice [
  | none ↦ e
  | some v ↦
      if p.session === v.session || is_some (lookup p.session e.peers)
      then e
      else if ltb expire_ms (e.now - p.seen)
      then e
      else if less v.session p.session
      then offer_to p.session e
      else e
]

unfoldable pub connect_all : List VoiceParticipant → VoiceEngine → VoiceEngine
unfolding maybe_connect
connect_all [] e = e
connect_all (p ∷ ps) e = connect_all ps (maybe_connect p e)

-- `acceptOffer`: the new connection is handed the description; when that has taken effect the
-- slots are filled; the answer goes out and the queued candidates are added.
unfoldable pub accept_offer : Text → Text → VoiceEngine → VoiceEngine
unfolding create_peer change_peer
accept_offer remote sdp e = elim e.voice [
  | none ↦ e
  | some v ↦
      let e' = create_peer remote e in
      change_peer remote e'.created (λ p. record p { description = some sdp }) e'
]

unfoldable pub offer_described : Text → ℕ → VoiceEngine → VoiceEngine
unfolding change_peer ensure_video
offer_described remote number e =
    ensure_video remote number (change_peer remote number (λ p. record p { has_remote = true }) e)

unfoldable pub flush_ice : Text → VoiceEngine → VoiceEngine
flush_ice remote e = elim (lookup remote e.peers) [
  | none ↦ e
  | some p ↦ record e {
    peers = insert remote (record p { added = p.added ++ p.queued; queued = [] }) e.peers;
  }
]

unfoldable pub send_answer : Text → Text → Text → Text → VoiceEngine → VoiceEngine
unfolding signal_to flush_ice
send_answer conv_id session remote sdp e =
    flush_ice remote (signal_to conv_id session (VoiceSignal.answer remote sdp) e)

-- The answer to our offer has taken effect.
unfoldable pub answer_described : Text → ℕ → VoiceEngine → VoiceEngine
unfolding change_peer flush_ice
answer_described remote number e =
    flush_ice remote
      (change_peer remote number (λ p. record p { offered = false; has_remote = true }) e)

-- `pc.onicecandidate`, and its timer.
unfoldable pub gather_candidate : Text → ℕ → Candidate → VoiceEngine → VoiceEngine
unfolding change_peer
gather_candidate remote number c e =
    change_peer remote number (λ p. record p { outgoing = p.outgoing ++ c ∷ []; flush = true }) e

abbrev pub send_candidates : Text → Text → List Candidate → VoiceEngine → VoiceEngine
send_candidates conv_id remote [] e = e
send_candidates conv_id remote (c ∷ batch) e = elim e.voice [
  | none ↦ e
  | some v ↦ signal_to conv_id v.session (VoiceSignal.ice remote (c ∷ batch)) e
]

unfoldable pub flush_outgoing : Text → Text → ℕ → VoiceEngine → VoiceEngine
unfolding change_peer signal_to
flush_outgoing conv_id remote number e = elim (lookup remote e.peers) [
  | none ↦ e
  | some p ↦
      if p.number == number
      then send_candidates conv_id remote p.outgoing
          (change_peer remote number (λ q. record q { outgoing = []; flush = false }) e)
      else e
]

-- `pc.ontrack` of a video slot, and `pc.onconnectionstatechange`.
pub data ConnectionState : Type 0 where
  is_connected is_disconnected is_failed is_closed is_new : ConnectionState

unfoldable pub track_arrived : Text → Bool → Stream → VoiceEngine → VoiceEngine
unfolding publish_stream publish_camera
track_arrived remote second_slot stream e =
    if second_slot
    then publish_stream remote (some stream) e
    else publish_camera remote (some stream) e

unfoldable pub on_state : Text → ConnectionState → VoiceEngine → VoiceEngine
unfolding set_peer_state close_peer
on_state remote is_connected e = set_peer_state remote (some connected) e
on_state remote is_disconnected e = set_peer_state remote (some connecting) e
on_state remote is_failed e = set_peer_state remote (some failed) (close_peer remote e)
on_state remote is_closed e = set_peer_state remote (some failed) (close_peer remote e)
on_state remote is_new e = e

unfoldable pub state_changed : Text → ℕ → ConnectionState → VoiceEngine → VoiceEngine
unfolding on_state
state_changed remote number state e = elim (lookup remote e.peers) [
  | none ↦ e
  | some p ↦ if p.number == number then on_state remote state e else e
]
