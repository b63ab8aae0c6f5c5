-- ===== src/Voice/Reconnect.antt =====
-- The heartbeat and the connections to other participants.
use family_messenger_e2e.Base.{
  ℕ, suc, ◌≡◌, refl, sym, ◌∙◌, ap, subst, Text, Bool, true, false, ◌||◌, Option, none, some, List,
  [], ◌∷◌, ◌-◌, ltb, leb, map, filter, find, ◌==◌, ◌===◌, ===_iff, arith, is_some, if◌then◌else◌,
  inl, inr, Bool-cases,
}
use family_messenger_e2e.Base.Dict.{lookup, insert, lookup-insert, lookup-delete}
use family_messenger_e2e.Voice.State.{
  Peer, VoiceState, VoiceParticipant, VoiceEngine, expire_ms, less, set_peer_state, signal_to,
  announce,
}
use family_messenger_e2e.Voice.Rooms.{is_session, is_kept, participants_of, gone_from}
use family_messenger_e2e.Voice.Mesh.{
  close_peer, fresh_peer, create_peer, change_peer, ensure_video, offer_to, maybe_connect,
  connect_all,
}
use family_messenger_e2e.Voice.Channel.{prune, beat, session_of}
use family_messenger_e2e.Voice.Frame.{
  on_option, on_some, on_test, SameRoom, SameRoom-refl, SameRoom-trans, close_peer-SameRoom,
  close_peer-peers, close_all-SameRoom, set_peer_state-SameRoom, own,
}
use family_messenger_e2e.Voice.Orderly.{HasRooms, room-prune}

-- Nothing but connections, signals and timers.
pub plain-SameRoom :
    (e f : VoiceEngine)
    → (f.voice ≡ e.voice) × (f.voice_rooms ≡ e.voice_rooms) × (f.session ≡ e.session)
    → (f.now ≡ e.now) × (f.camera_stream ≡ e.camera_stream) × (f.screen_track ≡ e.screen_track)
    → f.local_stream ≡ e.local_stream
    → SameRoom e f
plain-SameRoom e f (a, b, c) (d, g, h) i = record {
  same_own = ap own a;
  same_rooms = b;
  same_session = c;
  same_now = d;
  same_camera = g;
  same_screen = h;
  same_microphone = i;
}

pub change_peer-SameRoom :
    (r : Text) (n : ℕ) (f : Peer → Peer) (e : VoiceEngine) → SameRoom e (change_peer r n f e)
unfolding change_peer
change_peer-SameRoom r n f e =
    on_option (SameRoom e) (lookup r e.peers) _ e (SameRoom-refl e) (λ p q.
      on_test (SameRoom e) (p.number == n) _ e
        (λ t. plain-SameRoom e _ (refl, refl, refl) (refl, refl, refl) refl) (λ t. SameRoom-refl e))

pub create_peer-SameRoom : (r : Text) (e : VoiceEngine) → SameRoom e (create_peer r e)
unfolding create_peer
create_peer-SameRoom r e =
    let e' = close_peer r e in
    let p = fresh_peer (suc e'.created) e'.local_stream in
    SameRoom-trans (close_peer-SameRoom r e) (
      SameRoom-trans {f = record e' { peers = insert r p e'.peers; created = suc e'.created }}
        (plain-SameRoom e' _ (refl, refl, refl) (refl, refl, refl) refl)
        (set_peer_state-SameRoom r _ _))

pub offer_to-SameRoom : (r : Text) (e : VoiceEngine) → SameRoom e (offer_to r e)
unfolding offer_to ensure_video
offer_to-SameRoom r e = on_option (SameRoom e) e.voice _ e (SameRoom-refl e) (λ v q.
    SameRoom-trans (create_peer-SameRoom r e) (change_peer-SameRoom r _ _ (create_peer r e)))

pub maybe_connect-SameRoom :
    (p : VoiceParticipant) (e : VoiceEngine) → SameRoom e (maybe_connect p e)
unfolding maybe_connect
maybe_connect-SameRoom p e = on_option (SameRoom e) e.voice _ e (SameRoom-refl e) (λ v q.
    on_test (SameRoom e) (p.session === v.session || is_some (lookup p.session e.peers)) e _
      (λ r. SameRoom-refl e)
      (λ r.
        on_test (SameRoom e) (ltb expire_ms (e.now - p.seen)) e _ (λ s. SameRoom-refl e)
          (λ s.
            on_test (SameRoom e) (less v.session p.session) _ e (λ t. offer_to-SameRoom p.session e)
              (λ t. SameRoom-refl e))))

pub connect_all-SameRoom :
    (ps : List VoiceParticipant) (e : VoiceEngine) → SameRoom e (connect_all ps e)
unfolding connect_all
connect_all-SameRoom [] e = SameRoom-refl e
connect_all-SameRoom (p ∷ ps) e =
    SameRoom-trans (maybe_connect-SameRoom p e) (connect_all-SameRoom ps (maybe_connect p e))

-- Is there a connection for a session?
abbrev pub is_connected_to : Text → VoiceEngine → Bool
is_connected_to k e = is_some (lookup k e.peers)

change_peer_keeps :
    (r : Text) (n : ℕ) (f : Peer → Peer) (k : Text) (e : VoiceEngine)
    → is_connected_to k e ≡ true
    → is_connected_to k (change_peer r n f e) ≡ true
unfolding change_peer
change_peer_keeps r n f k e h =
    on_option (λ g. is_connected_to k g ≡ true) (lookup r e.peers) _ e h
      (λ p q.
        on_test (λ g. is_connected_to k g ≡ true) (p.number == n) _ e
          (λ t. ground (arith, lookup-insert r k (f p) e.peers)) (λ t. h))

create_peer_connects :
    (r k : Text) (e : VoiceEngine)
    → ((k ≡ r) → is_connected_to k (create_peer r e) ≡ true)
      × (is_connected_to k e ≡ true → is_connected_to k (create_peer r e) ≡ true)
unfolding create_peer set_peer_state
create_peer_connects r k e =
    let e' = close_peer r e in
    let p = fresh_peer (suc e'.created) e'.local_stream in
    let read = lookup-insert r k p e'.peers in
    let gone : lookup k e'.peers ≡ (if r === k then none else lookup k e.peers) =
      ap (lookup k) (close_peer-peers r e) ∙ lookup-delete r k e.peers in
    (λ same. ground (arith, read, ===_iff r k), λ there. ground (arith, read, gone))

pub offer_to_connects :
    (r : Text) (v : VoiceState) (e : VoiceEngine)
    → e.voice ≡ some v
    → is_connected_to r (offer_to r e) ≡ true
unfolding offer_to ensure_video
offer_to_connects r v e q =
    on_some (λ g. is_connected_to r g ≡ true) e.voice _ e v q
      (change_peer_keeps r _ _ r (create_peer r e) ((create_peer_connects r r e).0 refl))

offer_to_keeps :
    (r k : Text) (e : VoiceEngine)
    → is_connected_to k e ≡ true
    → is_connected_to k (offer_to r e) ≡ true
unfolding offer_to ensure_video
offer_to_keeps r k e h =
    on_option (λ g. is_connected_to k g ≡ true) e.voice _ e h
      (λ v q. change_peer_keeps r _ _ k (create_peer r e) ((create_peer_connects r k e).1 h))

pub less_irreflexive : (s t : Text) → less s t ≡ true → (s === t) ≡ false
unfolding less ◌===◌
less_irreflexive s [] h = cc
less_irreflexive [] (d ∷ t) h = refl
less_irreflexive (c ∷ s) (d ∷ t) h = ground (arith, less_irreflexive s t)

pub ===_sym : (s t : Text) → (s === t) ≡ (t === s)
===_sym s t = ground (arith, ===_iff s t, ===_iff t s)

maybe_connect_keeps :
    (p : VoiceParticipant) (k : Text) (e : VoiceEngine)
    → is_connected_to k e ≡ true
    → is_connected_to k (maybe_connect p e) ≡ true
unfolding maybe_connect
maybe_connect_keeps p k e h =
    let P : VoiceEngine → Type 0 = λ g. is_connected_to k g ≡ true in
    on_option P e.voice _ e h (λ v q.
      on_test P (p.session === v.session || is_connected_to p.session e) e _ (λ r. h)
        (λ r.
          on_test P (ltb expire_ms (e.now - p.seen)) e _ (λ s. h)
            (λ s.
              on_test P (less v.session p.session) _ e (λ t. offer_to_keeps p.session k e h)
                (λ t. h))))

maybe_connect_connects :
    (p : VoiceParticipant) (v : VoiceState) (e : VoiceEngine)
    → e.voice ≡ some v
    → less v.session p.session ≡ true
    → leb (e.now - p.seen) expire_ms ≡ true
    → is_connected_to p.session (maybe_connect p e) ≡ true
unfolding maybe_connect
maybe_connect_connects p v e q order fresh =
    let P : VoiceEngine → Type 0 = λ g. is_connected_to p.session g ≡ true in
    let other : (p.session === v.session) ≡ false =
      ===_sym p.session v.session ∙ less_irreflexive v.session p.session order in
    on_some P e.voice _ e v q (
      on_test P (p.session === v.session || is_connected_to p.session e) e _
        (λ r. ground (arith, other, r))
        (λ r.
          on_test P (ltb expire_ms (e.now - p.seen)) e _
            (λ s. absurd (let h : ltb expire_ms (e.now - p.seen) ≡ false = ground arith in cc))
            (λ s.
              on_test P (less v.session p.session) _ e (λ t. offer_to_connects p.session v e q)
                (λ t. cc))))

connect_all_keeps :
    (ps : List VoiceParticipant) (k : Text) (e : VoiceEngine)
    → is_connected_to k e ≡ true
    → is_connected_to k (connect_all ps e) ≡ true
unfolding connect_all
connect_all_keeps [] k e h = h
connect_all_keeps (p ∷ ps) k e h =
    connect_all_keeps ps k (maybe_connect p e) (maybe_connect_keeps p k e h)

own_inv :
    (o : Option VoiceState) (c s : Text)
    → own o ≡ some (c, s)
    → (v : VoiceState) × (o ≡ some v) × (v.session ≡ s)
own_inv none c s h = cc
own_inv (some v) c s h = (v, refl, let k : v.session ≡ s = cc in k)

connect_all_connects :
    (ps : List VoiceParticipant) (p : VoiceParticipant) (c s : Text) (e : VoiceEngine)
    → own e.voice ≡ some (c, s)
    → less s p.session ≡ true
    → leb (e.now - p.seen) expire_ms ≡ true
    → find (is_session p.session) ps ≡ some p
    → is_connected_to p.session (connect_all ps e) ≡ true
unfolding connect_all find
connect_all_connects [] p c s e mine order fresh found = cc
connect_all_connects (q ∷ ps) p c s e mine order fresh found =
    elim (Bool-cases (is_session p.session q)) [
      | inl h ↦
          let is_p : q ≡ p = ground (arith, found, h) in
          let (v, there, its) = own_inv e.voice c s mine in
          connect_all_keeps ps p.session (maybe_connect q e) (
            subst (λ r. is_connected_to p.session (maybe_connect r e) ≡ true) (sym is_p)
              (maybe_connect_connects p v e there (rw its order) fresh))
      | inr h ↦
          let same = maybe_connect-SameRoom q e in
          connect_all_connects ps p c s (maybe_connect q e) (same.same_own ∙ mine) order
            (rw same.same_now fresh) (ground (arith, found, h))
    ]

find-filter :
    (t keep : VoiceParticipant → Bool) (ps : List VoiceParticipant) (p : VoiceParticipant)
    → find t ps ≡ some p
    → keep p ≡ true
    → find t (filter keep ps) ≡ some p
unfolding find filter
find-filter t keep [] p h k = cc
find-filter t keep (q ∷ ps) p h k = ground (arith, find-filter t keep ps p)

pub announce-SameRoom : (conv_id : Text) (e : VoiceEngine) → SameRoom e (announce conv_id e)
unfolding announce signal_to
announce-SameRoom conv_id e =
    on_option (SameRoom e) e.voice _ e (SameRoom-refl e)
      (λ v q. plain-SameRoom e _ (refl, refl, refl) (refl, refl, refl) refl)

prune_keeps : (e : VoiceEngine) → (own (prune e).voice ≡ own e.voice) × ((prune e).now ≡ e.now)
unfolding prune
prune_keeps e =
    let same = close_all-SameRoom (map session_of (gone_from (is_kept e) e.voice_rooms)) e in
    (same.same_own, same.same_now)

-- After a heartbeat there is a connection to every participant of our channel who was seen within 65
-- seconds and whose session is greater than ours, whether or not there was one before. The rooms
-- are assumed to have one entry for a conversation.
pub beat-IsConnected :
    (p : VoiceParticipant) (v : VoiceState) (e : VoiceEngine)
    → HasRooms e.voice_rooms
    → e.voice ≡ some v
    → find (is_session p.session) (participants_of v.conv_id e) ≡ some p
    → less v.session p.session ≡ true
    → leb (e.now - p.seen) expire_ms ≡ true
    → is_some (lookup p.session (beat e).peers) ≡ true
unfolding beat participants_of
beat-IsConnected p v e rooms there found order fresh =
    let (own_kept, now_kept) = prune_keeps e in
    let same = announce-SameRoom v.conv_id (prune e) in
    on_some (λ g. is_connected_to p.session g ≡ true) e.voice _ e v there
      (connect_all_connects (participants_of v.conv_id (announce v.conv_id (prune e))) p v.conv_id
        v.session (announce v.conv_id (prune e)) (same.same_own ∙ own_kept ∙ ap own there) order
        (rw (same.same_now, now_kept) fresh)
        (rw same.same_rooms (
          rw (room-prune v.conv_id e rooms) (
            find-filter (is_session p.session) (is_kept e v.conv_id) (participants_of v.conv_id e) p
              found (ground (arith, fresh))))))
