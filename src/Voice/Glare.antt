-- ===== src/Voice/Glare.antt =====
-- Two participants who hear of each other: maybeConnect and offerTo of web/src/state/voice.ts.
use family_messenger_e2e.Base.{
  ℕ, Bool, ◌≡◌, ◌⊎◌, inl, inr, Bool-cases, ◌++◌, ◌==◌, if◌then◌else◌, refl, sym, ◌∙◌, ap, Text,
  true, false, not, ◌||◌, some, [], ◌∷◌, ◌-◌, leb, ltb, ◌===◌, is_some, arith,
}
use family_messenger_e2e.Base.Dict.{lookup}
use family_messenger_e2e.Voice.State.{
  Peer, VoiceState, VoiceParticipant, VoiceEngine, expire_ms, less, signal_to, set_peer_state,
}
use family_messenger_e2e.Voice.Mesh.{
  change_peer, create_peer, ensure_video, offer_to, send_offer, maybe_connect,
}
use family_messenger_e2e.Model.Payload.{VoiceSignal, voice}
use family_messenger_e2e.Voice.Left.{close_peer-sent}
use family_messenger_e2e.Voice.Frame.{on_option, on_some, on_test}
use family_messenger_e2e.Voice.Reconnect.{is_connected_to, ===_sym, offer_to_connects}

less_total : (s t : Text) → (s === t) ≡ false → less s t ≡ not (less t s)
unfolding less ◌===◌
less_total [] [] h = cc
less_total [] (d ∷ t) h = refl
less_total (c ∷ s) [] h = refl
less_total (c ∷ s) (d ∷ t) h = ground (arith, less_total s t)

maybe_connect_follows :
    (p : VoiceParticipant) (v : VoiceState) (e : VoiceEngine)
    → e.voice ≡ some v
    → (p.session === v.session) ≡ false
    → is_connected_to p.session e ≡ false
    → leb (e.now - p.seen) expire_ms ≡ true
    → is_connected_to p.session (maybe_connect p e) ≡ less v.session p.session
unfolding maybe_connect
maybe_connect_follows p v e q other apart fresh =
    let P : VoiceEngine → Type 0 = λ g. is_connected_to p.session g ≡ less v.session p.session in
    on_some P e.voice _ e v q (
      on_test P (p.session === v.session || is_connected_to p.session e) e _
        (λ r. ground (arith, other, apart, r))
        (λ r.
          on_test P (ltb expire_ms (e.now - p.seen)) e _
            (λ s. absurd (let h : ltb expire_ms (e.now - p.seen) ≡ false = ground arith in cc))
            (λ s.
              on_test P (less v.session p.session) _ e
                (λ t. offer_to_connects p.session v e q ∙ sym t) (λ t. apart ∙ sym t))))

change_peer-sent :
    (k : Text) (number : ℕ) (g : Peer → Peer) (e : VoiceEngine)
    → (change_peer k number g e).sent ≡ e.sent
unfolding change_peer
change_peer-sent k number g e =
    on_option (λ f. f.sent ≡ e.sent) (lookup k e.peers) _ e refl
      (λ p q. on_test (λ f. f.sent ≡ e.sent) (p.number == number) _ e (λ t. refl) (λ t. refl))

offer_to-sent : (k : Text) (e : VoiceEngine) → (offer_to k e).sent ≡ e.sent
unfolding offer_to create_peer ensure_video set_peer_state
offer_to-sent k e =
    on_option (λ f. f.sent ≡ e.sent) e.voice _ e refl
      (λ v q. change_peer-sent k _ _ _ ∙ close_peer-sent k e)

maybe_connect-sent : (p : VoiceParticipant) (e : VoiceEngine) → (maybe_connect p e).sent ≡ e.sent
unfolding maybe_connect
maybe_connect-sent p e =
    let P : VoiceEngine → Type 0 = λ f. f.sent ≡ e.sent in
    on_option P e.voice _ e refl (λ v q.
      on_test P (p.session === v.session || is_connected_to p.session e) e _ (λ r. refl)
        (λ r.
          on_test P (ltb expire_ms (e.now - p.seen)) e _ (λ s. refl)
            (λ s.
              on_test P (less v.session p.session) _ e (λ t. offer_to-sent p.session e)
                (λ t. refl))))

-- Who has a connection after `maybeConnect` goes through with `offerTo`, with the description that
-- the browser makes.
abbrev pub hear_of : VoiceParticipant → VoiceState → Text → VoiceEngine → VoiceEngine
hear_of p v sdp e =
    let e' = maybe_connect p e in
    if is_some (lookup p.session e'.peers)
    then send_offer v.conv_id v.session p.session e'.created sdp e'
    else e'

-- An offer has gone out to the channel, and nothing else.
abbrev pub HasOffered : VoiceState → Text → Text → VoiceEngine → VoiceEngine → Type 0
HasOffered v remote sdp e f =
    f.sent ≡ e.sent ++ (v.conv_id, voice v.session (VoiceSignal.offer remote sdp)) ∷ []

-- Nothing was sent, and there is no connection yet.
abbrev pub Waits : Text → VoiceEngine → VoiceEngine → Type 0
Waits remote e f = (f.sent ≡ e.sent) × (is_some (lookup remote f.peers) ≡ false)

hear_of-HasOffered :
    (p : VoiceParticipant) (v : VoiceState) (sdp : Text) (e : VoiceEngine)
    → is_connected_to p.session (maybe_connect p e) ≡ true
    → HasOffered v p.session sdp e (hear_of p v sdp e)
unfolding send_offer signal_to
hear_of-HasOffered p v sdp e h = rw h (
    ap (λ x. x ++ (v.conv_id, voice v.session (VoiceSignal.offer p.session sdp)) ∷ [])
      (change_peer-sent p.session _ _ (maybe_connect p e) ∙ maybe_connect-sent p e))

hear_of-Waits :
    (p : VoiceParticipant) (v : VoiceState) (sdp : Text) (e : VoiceEngine)
    → is_connected_to p.session (maybe_connect p e) ≡ false
    → Waits p.session e (hear_of p v sdp e)
hear_of-Waits p v sdp e h =
    let still : hear_of p v sdp e ≡ maybe_connect p e =
      ap
        (λ (b : Bool).
          if b
          then send_offer v.conv_id v.session p.session (maybe_connect p e).created sdp
              (maybe_connect p e)
          else maybe_connect p e)
        h in
    (
      ap (λ (f : VoiceEngine). f.sent) still ∙ maybe_connect-sent p e,
      ap (λ (f : VoiceEngine). is_some (lookup p.session f.peers)) still ∙ h,
    )

-- Two devices in a channel, under different sessions and not connected, that hear of each other
-- within 65 seconds, and go through with what they begin: one of them sends the other an offer and
-- nothing else, and the other one sends nothing and makes no connection.
pub maybe_connect_once :
    (p q : VoiceParticipant) (v w : VoiceState) (e f : VoiceEngine) (sdp other_sdp : Text)
    → (e.voice ≡ some v) × (f.voice ≡ some w)
    → (p.session ≡ w.session) × (q.session ≡ v.session)
    → (v.session === w.session) ≡ false
    → (is_some (lookup p.session e.peers) ≡ false) × (is_some (lookup q.session f.peers) ≡ false)
    → (leb (e.now - p.seen) expire_ms ≡ true) × (leb (f.now - q.seen) expire_ms ≡ true)
    → (HasOffered v p.session sdp e (hear_of p v sdp e)
        × Waits q.session f (hear_of q w other_sdp f))
      ⊎ (Waits p.session e (hear_of p v sdp e)
          × HasOffered w q.session other_sdp f (hear_of q w other_sdp f))
maybe_connect_once p q v w e f sdp other_sdp (a, b) (c, d) other (g, h) (i, j) =
    let left =
      maybe_connect_follows p v e a
        (ap (λ s. s === v.session) c ∙ ===_sym w.session v.session ∙ other) g i in
    let right = maybe_connect_follows q w f b (ap (λ s. s === w.session) d ∙ other) h j in
    let both = ap (less v.session) c ∙ less_total v.session w.session other in
    let turned = ap not (ap (less w.session) d) in
    elim (Bool-cases (less w.session q.session)) [
      | inl t ↦ inr (
        hear_of-Waits p v sdp e (left ∙ both ∙ sym turned ∙ ap not t),
        hear_of-HasOffered q w other_sdp f (right ∙ t),
      )
      | inr t ↦ inl (
        hear_of-HasOffered p v sdp e (left ∙ both ∙ sym turned ∙ ap not t),
        hear_of-Waits q w other_sdp f (right ∙ t),
      )
    ]
