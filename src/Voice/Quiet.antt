-- ===== src/Voice/Quiet.antt =====
-- The devices that the voice module refers to, and the tracks of its connections.
pub mod Mesh
pub mod Channel
pub mod Media
pub mod Run
use family_messenger_e2e.Base.{
  ℕ, suc, ◌≡◌, refl, sym, ap, subst, Text, Bool, true, false, ◌||◌, Option, none, some, List, [],
  ◌∷◌, ◌++◌, map, ◌==◌, ◌===◌, ===_iff, is_some, Bool-cases, arith, if◌then◌else◌,
}
use family_messenger_e2e.Base.Dict.{Dict, lookup, insert, delete, lookup-insert, lookup-delete}
use family_messenger_e2e.Model.Payload.{Candidate, VoiceSignal}
use family_messenger_e2e.Voice.State.{
  Stream, Peer, connecting, VoiceState, VoiceParticipant, VoiceEngine, set_peer_state,
  publish_stream, publish_camera, signal_to, patched,
}
use family_messenger_e2e.Voice.Frame.{on_option, on_test, is_some-patched, close_peer-is_on}
use family_messenger_e2e.Voice.Mesh.{close_peer, close_all, create_peer, fresh_peer, change_peer}

-- A slot shows the track that is on once the slots are there.
abbrev pub Shows : Option Stream → Option Stream → Peer → Type 0
Shows camera screen p =
    (p.camera_track ≡ (if p.has_senders then camera else none))
    × (p.screen_track ≡ (if p.has_senders then screen else none))

pub record Quiet (on : Bool) (peers : Dict Peer) (microphone camera screen : Option Stream)
    : Type 0 where
  pub alone : on ≡ false → peers ≡ []
  pub microphone_off : on ≡ false → microphone ≡ none
  pub camera_off : on ≡ false → camera ≡ none
  pub screen_off : on ≡ false → screen ≡ none
  pub shows : (k : Text) (p : Peer) → lookup k peers ≡ some p → Shows camera screen p

unfoldable pub IsQuiet : VoiceEngine → Type 0
IsQuiet e = Quiet (is_some e.voice) e.peers e.local_stream e.camera_stream e.screen_track

delete_nil : (k : Text) (m : Dict Peer) → m ≡ [] → delete k m ≡ []
unfolding delete
delete_nil k m h = rw h refl

pub set_peer_state-IsQuiet :
    (s : Text) (state : _) (e : VoiceEngine) → IsQuiet e → IsQuiet (set_peer_state s state e)
unfolding IsQuiet set_peer_state
set_peer_state-IsQuiet s state e h = record {
  alone = rw is_some-patched h.alone;
  microphone_off = rw is_some-patched h.microphone_off;
  camera_off = rw is_some-patched h.camera_off;
  screen_off = rw is_some-patched h.screen_off;
  shows = h.shows;
}

pub delete-IsQuiet :
    (k : Text) (e : VoiceEngine) → IsQuiet e → IsQuiet (record e { peers = delete k e.peers })
unfolding IsQuiet
delete-IsQuiet k e h = record {
  alone = λ off. delete_nil k e.peers (h.alone off);
  microphone_off = h.microphone_off;
  camera_off = h.camera_off;
  screen_off = h.screen_off;
  shows = λ j p q. h.shows j p (ground (arith, lookup-delete k j e.peers, q));
}

pub insert-IsQuiet :
    (k : Text) (p : Peer) (e : VoiceEngine)
    → is_some e.voice ≡ true
    → Shows e.camera_stream e.screen_track p
    → IsQuiet e
    → IsQuiet (record e { peers = insert k p e.peers })
unfolding IsQuiet
insert-IsQuiet k p e on shows h = record {
  alone = λ off. cc;
  microphone_off = h.microphone_off;
  camera_off = h.camera_off;
  screen_off = h.screen_off;
  shows = λ j q r. grind (arith, lookup-insert k j p e.peers, h.shows j q);
}

-- Only these fields count.
pub same-IsQuiet :
    (e f : VoiceEngine)
    → is_some f.voice ≡ is_some e.voice
    → f.peers ≡ e.peers
    → (f.local_stream ≡ e.local_stream)
      × (f.camera_stream ≡ e.camera_stream)
      × (f.screen_track ≡ e.screen_track)
    → IsQuiet e
    → IsQuiet f
unfolding IsQuiet
same-IsQuiet e f p q (r, s, t) h = rw (p, q, r, s, t) h

pub close_peer-IsQuiet : (s : Text) (e : VoiceEngine) → IsQuiet e → IsQuiet (close_peer s e)
unfolding close_peer publish_stream publish_camera
close_peer-IsQuiet s e h = on_option IsQuiet (lookup s e.peers) _ e h (λ p q.
    set_peer_state-IsQuiet s none
      (publish_camera s none (publish_stream s none (record e { peers = delete s e.peers })))
      (same-IsQuiet (record e { peers = delete s e.peers }) _ refl refl (refl, refl, refl)
        (delete-IsQuiet s e h)))

pub close_all-IsQuiet :
    (sessions : List Text) (e : VoiceEngine) → IsQuiet e → IsQuiet (close_all sessions e)
unfolding close_all
close_all-IsQuiet [] e h = h
close_all-IsQuiet (s ∷ sessions) e h =
    close_all-IsQuiet sessions (close_peer s e) (close_peer-IsQuiet s e h)

pub create_peer-IsQuiet :
    (remote : Text) (e : VoiceEngine)
    → is_some e.voice ≡ true
    → IsQuiet e
    → IsQuiet (create_peer remote e)
unfolding create_peer
create_peer-IsQuiet remote e on h =
    let e' = close_peer remote e in
    let p = fresh_peer (suc e'.created) e'.local_stream in
    set_peer_state-IsQuiet remote (some connecting)
      (record e' { peers = insert remote p e'.peers; created = suc e'.created })
      (same-IsQuiet (record e' { peers = insert remote p e'.peers }) _ refl refl (refl, refl, refl)
        (insert-IsQuiet remote p e' (close_peer-is_on remote e on) (refl, refl)
          (close_peer-IsQuiet remote e h)))

pub shown :
    (k : Text) (p : Peer) (e : VoiceEngine)
    → IsQuiet e
    → lookup k e.peers ≡ some p
    → Shows e.camera_stream e.screen_track p
unfolding IsQuiet
shown k p e h = h.shows k p

-- A connection is there only in a channel.
on_of_lookup :
    (k : Text) (p : Peer) (e : VoiceEngine)
    → lookup k e.peers ≡ some p
    → IsQuiet e
    → is_some e.voice ≡ true
unfolding IsQuiet lookup
on_of_lookup k p e q h = ground (arith, Bool-cases (is_some e.voice), h.alone)

pub replaced-IsQuiet :
    (k : Text) (p p' : Peer) (e : VoiceEngine)
    → lookup k e.peers ≡ some p
    → Shows e.camera_stream e.screen_track p'
    → IsQuiet e
    → IsQuiet (record e { peers = insert k p' e.peers })
replaced-IsQuiet k p p' e q shows h = insert-IsQuiet k p' e (on_of_lookup k p e q h) shows h

-- A change that shows the same tracks.
pub change_peer-IsQuiet :
    (remote : Text) (number : ℕ) (f : Peer → Peer) (e : VoiceEngine)
    → ((p : Peer)
        → Shows e.camera_stream e.screen_track p
        → Shows e.camera_stream e.screen_track (f p))
    → IsQuiet e
    → IsQuiet (change_peer remote number f e)
unfolding change_peer
change_peer-IsQuiet remote number f e k h = on_option IsQuiet (lookup remote e.peers) _ e h (λ p q.
    on_test IsQuiet (p.number == number) _ e
      (λ r. replaced-IsQuiet remote p (f p) e q (k p (shown remote p e h q)) h) (λ r. h))
