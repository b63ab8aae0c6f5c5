-- ===== src/Voice/Signals.antt =====
-- `handleVoiceSignal`: what a signal of another participant does.
use family_messenger_e2e.Base.{
  Text, Bool, false, not, ◌&&◌, Option, none, some, List, ◌++◌, find, any, ◌===◌, is_some,
  if◌then◌else◌,
}
use family_messenger_e2e.Base.Dict.{lookup, insert}
use family_messenger_e2e.Model.Payload.{VoiceSignal, Candidate}
use family_messenger_e2e.Model.Client.{SessionInfo}
use family_messenger_e2e.Voice.State.{
  VoiceParticipant, VoiceState, Peer, VoiceEngine, voice_joined, show_toast, announce,
}
use family_messenger_e2e.Voice.Rooms.{
  participants_of, is_session, set_participant, remove_participant,
}
use family_messenger_e2e.Voice.Mesh.{close_peer, maybe_connect, accept_offer}
use family_messenger_e2e.Voice.Channel.{is_in}

abbrev pub participant : Text → Text → Text → Bool → Bool → Bool → VoiceEngine → VoiceParticipant
participant session sender device muted sharing camera e = record {
  session = session;
  account = sender;
  device = device;
  muted = muted;
  sharing = sharing;
  camera = camera;
  seen = e.now;
}

-- Someone is there: listed, and perhaps connected to.
unfoldable pub on_presence : Text → VoiceParticipant → VoiceEngine → VoiceEngine
unfolding set_participant maybe_connect
on_presence conv_id p e =
    let e' = set_participant conv_id p e in
    if is_in e'.voice conv_id then maybe_connect p e' else e'

-- A newcomer is told of us, or we are told of the newcomer.
unfoldable pub greet : SessionInfo → Text → Text → Bool → VoiceEngine → VoiceEngine
unfolding announce
greet me sender conv_id known e =
    if is_in e.voice conv_id
    then announce conv_id e
    else if not known && not (sender === me.account_id) && is_some (lookup conv_id e.conversations)
    then show_toast (voice_joined sender conv_id) e
    else e

unfoldable pub on_join : SessionInfo → Text → Text → VoiceParticipant → VoiceEngine → VoiceEngine
unfolding participants_of set_participant greet maybe_connect
on_join me sender conv_id p e =
    let known = any (is_session p.session) (participants_of conv_id e) in
    let e' = greet me sender conv_id known (set_participant conv_id p e) in
    if is_in e'.voice conv_id then maybe_connect p e' else e'

-- `voice.share` and `voice.camera` of someone who is listed.
unfoldable pub on_change :
    Text → Text → (VoiceParticipant → VoiceParticipant) → VoiceEngine → VoiceEngine
unfolding participants_of set_participant
on_change conv_id session change e = elim (find (is_session session) (participants_of conv_id e)) [
  | none ↦ e
  | some existing ↦ set_participant conv_id (record (change existing) { seen = e.now }) e
]

-- Signals between two participants, for us: we are in this channel under this session.
abbrev pub is_for_us : Option VoiceState → Text → Text → Bool
is_for_us none conv_id to = false
is_for_us (some v) conv_id to = v.conv_id === conv_id && to === v.session

abbrev pub described : Text → Peer → Peer
described sdp p = if p.offered then record p { description = some sdp } else p

abbrev pub with_candidates : List Candidate → Peer → Peer
with_candidates list p =
    if p.has_remote
    then record p { added = p.added ++ list }
    else record p { queued = p.queued ++ list }

unfoldable pub on_peer : Text → (Peer → Peer) → VoiceEngine → VoiceEngine
on_peer session f e = elim (lookup session e.peers) [
  | none ↦ e
  | some p ↦ record e { peers = insert session (f p) e.peers }
]

unfoldable pub from_other :
    SessionInfo → Text → Text → Text → Text → VoiceSignal → VoiceEngine → VoiceEngine
unfolding on_join on_presence on_change remove_participant close_peer accept_offer on_peer
from_other me sender device conv_id session (VoiceSignal.join muted sharing camera) e =
    on_join me sender conv_id (participant session sender device muted sharing camera e) e
from_other me sender device conv_id session (VoiceSignal.here muted sharing camera) e =
    on_presence conv_id (participant session sender device muted sharing camera e) e
from_other me sender device conv_id session (VoiceSignal.share on) e =
    on_change conv_id session (λ p. record p { sharing = on }) e
from_other me sender device conv_id session (VoiceSignal.camera on) e =
    on_change conv_id session (λ p. record p { camera = on }) e
from_other me sender device conv_id session VoiceSignal.leave e =
    close_peer session (remove_participant conv_id session e)
from_other me sender device conv_id session (VoiceSignal.offer to sdp) e =
    if is_for_us e.voice conv_id to then accept_offer session sdp e else e
from_other me sender device conv_id session (VoiceSignal.answer to sdp) e =
    if is_for_us e.voice conv_id to then on_peer session (described sdp) e else e
from_other me sender device conv_id session (VoiceSignal.ice to candidates) e =
    if is_for_us e.voice conv_id to then on_peer session (with_candidates candidates) e else e

-- Is the signal of our own session, echoed back?
abbrev pub is_own_session : Option VoiceState → Text → Bool
is_own_session none session = false
is_own_session (some v) session = session === v.session

unfoldable pub handle_voice_signal :
    Text → Text → Text → Text → VoiceSignal → VoiceEngine → VoiceEngine
unfolding from_other
handle_voice_signal sender device conv_id session signal e = elim e.session [
  | none ↦ e
  | some me ↦
      if is_own_session e.voice session
      then e
      else from_other me sender device conv_id session signal e
]
