-- ===== src/Voice/Quiet/Mesh.antt =====
-- `IsQuiet` over the operations of connections.
use family_messenger_e2e.Base.{
  ℕ, ◌≡◌, refl, Text, Bool, true, false, ◌||◌, Option, some, List, [], ◌∷◌, ◌++◌, ◌==◌, ◌===◌,
  is_some, ltb, ◌-◌, arith,
}
use family_messenger_e2e.Base.Dict.{lookup}
use family_messenger_e2e.Model.Payload.{Candidate, VoiceSignal}
use family_messenger_e2e.Voice.State.{
  Stream, Peer, VoiceState, VoiceParticipant, VoiceEngine, connecting, connected, failed,
  publish_stream, publish_camera, signal_to, expire_ms, less, announce, presence,
}
use family_messenger_e2e.Voice.Rooms.{set_participant, update_self}
use family_messenger_e2e.Voice.Mesh.{
  create_peer, with_slots, ensure_video, offer_to, maybe_connect, connect_all, accept_offer,
  flush_ice, ConnectionState, is_connected, is_disconnected, is_failed, is_closed, is_new, on_state,
  state_changed, flush_outgoing, send_candidates, answer_described, offer_described, track_arrived,
  send_offer, send_answer, gather_candidate,
}
use family_messenger_e2e.Voice.Frame.{on_option, on_test}
use family_messenger_e2e.Voice.Quiet.{
  IsQuiet, Shows, set_peer_state-IsQuiet, close_peer-IsQuiet, create_peer-IsQuiet,
  change_peer-IsQuiet, replaced-IsQuiet, same-IsQuiet, shown,
}

is_on : {v : VoiceState} (o : Option VoiceState) → o ≡ some v → is_some o ≡ true
is_on o h = rw h refl

Shows-with_slots :
    (camera screen : Option Stream) (p : Peer)
    → Shows camera screen p
    → Shows camera screen (with_slots camera screen p)
Shows-with_slots camera screen p h = ground arith

pub ensure_video-IsQuiet :
    (remote : Text) (number : ℕ) (e : VoiceEngine)
    → IsQuiet e
    → IsQuiet (ensure_video remote number e)
unfolding ensure_video
ensure_video-IsQuiet remote number e =
    change_peer-IsQuiet remote number (with_slots e.camera_stream e.screen_track) e
      (Shows-with_slots e.camera_stream e.screen_track)

pub offer_to-IsQuiet : (remote : Text) (e : VoiceEngine) → IsQuiet e → IsQuiet (offer_to remote e)
unfolding offer_to
offer_to-IsQuiet remote e h = on_option IsQuiet e.voice _ e h (λ v q.
    ensure_video-IsQuiet remote _ (create_peer remote e)
      (create_peer-IsQuiet remote e (is_on e.voice q) h))

pub maybe_connect-IsQuiet :
    (p : VoiceParticipant) (e : VoiceEngine) → IsQuiet e → IsQuiet (maybe_connect p e)
unfolding maybe_connect
maybe_connect-IsQuiet p e h = on_option IsQuiet e.voice _ e h (λ v q.
    on_test IsQuiet (p.session === v.session || is_some (lookup p.session e.peers)) e _ (λ r. h)
      (λ r.
        on_test IsQuiet (ltb expire_ms (e.now - p.seen)) e _ (λ s. h)
          (λ s.
            on_test IsQuiet (less v.session p.session) _ e (λ t. offer_to-IsQuiet p.session e h)
              (λ t. h))))

pub connect_all-IsQuiet :
    (ps : List VoiceParticipant) (e : VoiceEngine) → IsQuiet e → IsQuiet (connect_all ps e)
unfolding connect_all
connect_all-IsQuiet [] e h = h
connect_all-IsQuiet (p ∷ ps) e h =
    connect_all-IsQuiet ps (maybe_connect p e) (maybe_connect-IsQuiet p e h)

pub accept_offer-IsQuiet :
    (remote sdp : Text) (e : VoiceEngine) → IsQuiet e → IsQuiet (accept_offer remote sdp e)
unfolding accept_offer
accept_offer-IsQuiet remote sdp e h = on_option IsQuiet e.voice _ e h (λ v q.
    change_peer-IsQuiet remote _ (λ p. record p { description = some sdp }) (create_peer remote e)
      (λ p k. k) (create_peer-IsQuiet remote e (is_on e.voice q) h))

pub offer_described-IsQuiet :
    (remote : Text) (number : ℕ) (e : VoiceEngine)
    → IsQuiet e
    → IsQuiet (offer_described remote number e)
unfolding offer_described
offer_described-IsQuiet remote number e h =
    ensure_video-IsQuiet remote number _
      (change_peer-IsQuiet remote number (λ p. record p { has_remote = true }) e (λ p k. k) h)

pub flush_ice-IsQuiet : (remote : Text) (e : VoiceEngine) → IsQuiet e → IsQuiet (flush_ice remote e)
unfolding flush_ice
flush_ice-IsQuiet remote e h = on_option IsQuiet (lookup remote e.peers) _ e h (λ p q.
    replaced-IsQuiet remote p (record p { added = p.added ++ p.queued; queued = [] }) e q
      (shown remote p e h q) h)

pub answer_described-IsQuiet :
    (remote : Text) (number : ℕ) (e : VoiceEngine)
    → IsQuiet e
    → IsQuiet (answer_described remote number e)
unfolding answer_described
answer_described-IsQuiet remote number e h = flush_ice-IsQuiet remote _ (
    change_peer-IsQuiet remote number (λ p. record p { offered = false; has_remote = true }) e
      (λ p k. k) h)

pub signal_to-IsQuiet :
    (conv_id session : Text) (signal : VoiceSignal) (e : VoiceEngine)
    → IsQuiet e
    → IsQuiet (signal_to conv_id session signal e)
unfolding signal_to
signal_to-IsQuiet conv_id session signal e = same-IsQuiet e _ refl refl (refl, refl, refl)

pub send_answer-IsQuiet :
    (conv_id session remote sdp : Text) (e : VoiceEngine)
    → IsQuiet e
    → IsQuiet (send_answer conv_id session remote sdp e)
unfolding send_answer
send_answer-IsQuiet conv_id session remote sdp e h =
    flush_ice-IsQuiet remote _
      (signal_to-IsQuiet conv_id session (VoiceSignal.answer remote sdp) e h)

pub send_offer-IsQuiet :
    (conv_id session remote : Text) (number : ℕ) (sdp : Text) (e : VoiceEngine)
    → IsQuiet e
    → IsQuiet (send_offer conv_id session remote number sdp e)
unfolding send_offer
send_offer-IsQuiet conv_id session remote number sdp e h =
    signal_to-IsQuiet conv_id session (VoiceSignal.offer remote sdp) _
      (change_peer-IsQuiet remote number (λ p. record p { offered = true }) e (λ p k. k) h)

pub gather_candidate-IsQuiet :
    (remote : Text) (number : ℕ) (c : Candidate) (e : VoiceEngine)
    → IsQuiet e
    → IsQuiet (gather_candidate remote number c e)
unfolding gather_candidate
gather_candidate-IsQuiet remote number c e =
    change_peer-IsQuiet remote number
      (λ p. record p { outgoing = p.outgoing ++ c ∷ []; flush = true }) e (λ p k. k)

pub send_candidates-IsQuiet :
    (conv_id remote : Text) (batch : List Candidate) (e : VoiceEngine)
    → IsQuiet e
    → IsQuiet (send_candidates conv_id remote batch e)
send_candidates-IsQuiet conv_id remote [] e h = h
send_candidates-IsQuiet conv_id remote (c ∷ batch) e h =
    on_option IsQuiet e.voice _ e h
      (λ v q. signal_to-IsQuiet conv_id v.session (VoiceSignal.ice remote (c ∷ batch)) e h)

pub flush_outgoing-IsQuiet :
    (conv_id remote : Text) (number : ℕ) (e : VoiceEngine)
    → IsQuiet e
    → IsQuiet (flush_outgoing conv_id remote number e)
unfolding flush_outgoing
flush_outgoing-IsQuiet conv_id remote number e h =
    on_option IsQuiet (lookup remote e.peers) _ e h (λ p q.
      on_test IsQuiet (p.number == number) _ e
        (λ r. send_candidates-IsQuiet conv_id remote p.outgoing _ (
          change_peer-IsQuiet remote number (λ q. record q { outgoing = []; flush = false }) e
            (λ p k. k) h))
        (λ r. h))

pub track_arrived-IsQuiet :
    (remote : Text) (second_slot : Bool) (stream : Stream) (e : VoiceEngine)
    → IsQuiet e
    → IsQuiet (track_arrived remote second_slot stream e)
unfolding track_arrived publish_stream publish_camera
track_arrived-IsQuiet remote second_slot stream e h =
    on_test IsQuiet second_slot _ _ (λ q. same-IsQuiet e _ refl refl (refl, refl, refl) h)
      (λ q. same-IsQuiet e _ refl refl (refl, refl, refl) h)

pub on_state-IsQuiet :
    (remote : Text) (state : ConnectionState) (e : VoiceEngine)
    → IsQuiet e
    → IsQuiet (on_state remote state e)
unfolding on_state
on_state-IsQuiet remote is_connected e h = set_peer_state-IsQuiet remote (some connected) e h
on_state-IsQuiet remote is_disconnected e h = set_peer_state-IsQuiet remote (some connecting) e h
on_state-IsQuiet remote is_failed e h =
    set_peer_state-IsQuiet remote (some failed) _ (close_peer-IsQuiet remote e h)
on_state-IsQuiet remote is_closed e h =
    set_peer_state-IsQuiet remote (some failed) _ (close_peer-IsQuiet remote e h)
on_state-IsQuiet remote is_new e h = h

pub state_changed-IsQuiet :
    (remote : Text) (number : ℕ) (state : ConnectionState) (e : VoiceEngine)
    → IsQuiet e
    → IsQuiet (state_changed remote number state e)
unfolding state_changed
state_changed-IsQuiet remote number state e h =
    on_option IsQuiet (lookup remote e.peers) _ e h (λ p q.
      on_test IsQuiet (p.number == number) _ e (λ r. on_state-IsQuiet remote state e h) (λ r. h))

pub announce-IsQuiet : (conv_id : Text) (e : VoiceEngine) → IsQuiet e → IsQuiet (announce conv_id e)
unfolding announce
announce-IsQuiet conv_id e h =
    on_option IsQuiet e.voice _ e h (λ v q. signal_to-IsQuiet conv_id v.session (presence v) e h)

pub update_self-IsQuiet : (e : VoiceEngine) → IsQuiet e → IsQuiet (update_self e)
unfolding update_self set_participant
update_self-IsQuiet e h = on_option IsQuiet e.voice _ e h (λ v q.
    on_option IsQuiet e.session _ e h (λ me r. same-IsQuiet e _ refl refl (refl, refl, refl) h))
