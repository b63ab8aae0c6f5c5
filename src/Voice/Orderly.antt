-- ===== src/Voice/Orderly.antt =====
-- Pruning the lists of participants.
use family_messenger_e2e.Base.{
  ◌≡◌, refl, sym, ap, subst, ◌∙◌, true, false, not, ◌&&◌, ◌||◌, ◌-◌, leb, ◌===◌, ◌⊎◌, inl, inr, any,
  map, ◌++◌, Bool-cases, Option-cases, if◌then◌else◌, Text, Bool, Option, none, some, List, [], ◌∷◌,
  ◌≤◌, length, filter, ==_iff, ===_iff, arith, ◌or_else◌,
}
use family_messenger_e2e.Base.Dict.{Dict, lookup, lookup-delete}
use family_messenger_e2e.Voice.State.{
  VoiceState, VoiceParticipant, VoiceEngine, set_peer_state, publish_stream, publish_camera,
}
use family_messenger_e2e.Voice.Rooms.{participants_of, is_own, is_kept, pruned_rooms, gone_from}
use family_messenger_e2e.Voice.Channel.{prune, session_of}
use family_messenger_e2e.Voice.Mesh.{close_peer, close_all}

-- Keys stand once, and no list is empty.
abbrev pub HasRooms : Dict (List VoiceParticipant) → Type 0
HasRooms [] = Unit
HasRooms ((k, list) ∷ m) = (lookup k m ≡ none) × HasRooms m

length-filter :
    (p : VoiceParticipant → Bool) (xs : List VoiceParticipant) → length (filter p xs) ≤ length xs
unfolding filter
length-filter p [] = omega arith
length-filter p (x ∷ xs) = ground (arith, length-filter p xs)

filter_full :
    (p : VoiceParticipant → Bool) (xs : List VoiceParticipant)
    → length (filter p xs) ≡ length xs
    → filter p xs ≡ xs
unfolding filter
filter_full p [] h = refl
filter_full p (x ∷ xs) h = ground (arith, filter_full p xs, length-filter p xs)

module _ (keep : Text → VoiceParticipant → Bool) where
  -- What a room is after the loop.
  kept_room : Text → Option (List VoiceParticipant) → List VoiceParticipant
  kept_room k none = []
  kept_room k (some list) = filter (keep k) list

  pub pruned_absent :
      (k : Text) (m : Dict (List VoiceParticipant))
      → lookup k m ≡ none
      → lookup k (pruned_rooms keep m) ≡ none
  unfolding lookup pruned_rooms
  pruned_absent k [] h = refl
  pruned_absent k ((j, list) ∷ m) h = ground (arith, pruned_absent k m)

  pub lookup-pruned_rooms :
      (k : Text) (m : Dict (List VoiceParticipant))
      → HasRooms m
      → (lookup k (pruned_rooms keep m) or_else []) ≡ filter (keep k) (lookup k m or_else [])
  unfolding lookup pruned_rooms filter
  lookup-pruned_rooms k [] h = refl
  lookup-pruned_rooms k ((j, list) ∷ m) h = ground (
    arith,
    ===_iff j k,
    pruned_absent j m h.0,
    lookup-pruned_rooms k m h.1,
    filter_full (keep j) list,
    ==_iff (length (filter (keep j) list)) (length list),
  )

-- Is it our own session, in the channel that we are in?
abbrev pub is_ours : Option VoiceState → Text → Text → Bool
is_ours none conv_id session = false
is_ours (some v) conv_id session = v.conv_id === conv_id && session === v.session

-- A prune stays with these: seen within 65 seconds, or ourselves.
abbrev pub stays : VoiceEngine → Text → VoiceParticipant → Bool
stays e conv_id p = leb (e.now - p.seen) 65000 || is_ours e.voice conv_id p.session

is_kept-stays : (e : VoiceEngine) (k : Text) (p : VoiceParticipant) → is_kept e k p ≡ stays e k p
is_kept-stays e k p = ap (λ b. leb (e.now - p.seen) 65000 || b) (own_is e.voice)
  where
    own_is : (o : Option VoiceState) → is_own o k p ≡ is_ours o k p.session
    own_is none = refl
    own_is (some v) = refl

lookup-close_peer :
    (j s : Text) (e : VoiceEngine)
    → lookup j (close_peer s e).peers ≡ (if s === j then none else lookup j e.peers)
unfolding close_peer set_peer_state publish_stream publish_camera
lookup-close_peer j s e = elim (Option-cases (lookup s e.peers)) [
  | inl h ↦ rw (h, close_peer) (same h)
  | inr (p, h) ↦ rw (h, close_peer) (lookup-delete s j e.peers)
]
  where
    same : lookup s e.peers ≡ none → lookup j e.peers ≡ (if s === j then none else lookup j e.peers)
    same h = elim (Bool-cases (s === j)) [
      | inl t ↦ rw t (subst (λ x. lookup x e.peers ≡ none) ((===_iff s j).0 t) h)
      | inr t ↦ rw t refl
    ]

close_all_absent :
    (s : Text) (ss : List Text) (e : VoiceEngine)
    → lookup s e.peers ≡ none
    → lookup s (close_all ss e).peers ≡ none
unfolding close_all
close_all_absent s [] e h = h
close_all_absent s (t ∷ ss) e h =
    close_all_absent s ss (close_peer t e) (ground (arith, lookup-close_peer s t e, h))

close_all_closes :
    (s : Text) (ss : List Text) (e : VoiceEngine)
    → any (λ t. t === s) ss ≡ true
    → lookup s (close_all ss e).peers ≡ none
unfolding close_all any
close_all_closes s [] e h = cc
close_all_closes s (t ∷ ss) e h = elim (Bool-cases (t === s)) [
  | inl r ↦ close_all_absent s ss (close_peer t e) (ground (arith, lookup-close_peer s t e, r))
  | inr r ↦ close_all_closes s ss (close_peer t e) (ground (arith, h, r))
]

module _ (s : Text) where
  any-sessions :
      (xs ys : List VoiceParticipant)
      → any (λ t. t === s) (map session_of (xs ++ ys))
        ≡ (any (λ t. t === s) (map session_of xs) || any (λ t. t === s) (map session_of ys))
  unfolding any
  any-sessions [] ys = refl
  any-sessions (x ∷ xs) ys = ground (arith, any-sessions xs ys)

  any-dropped :
      (keep : VoiceParticipant → Bool) (xs : List VoiceParticipant)
      → any (λ p. p.session === s && not (keep p)) xs ≡ true
      → any (λ t. t === s) (map session_of (filter (λ p. not (keep p)) xs)) ≡ true
  unfolding any filter
  any-dropped keep [] h = cc
  any-dropped keep (x ∷ xs) h = ground (arith, any-dropped keep xs, h)

  any-gone_from :
      (keep : Text → VoiceParticipant → Bool) (k : Text) (rooms : Dict (List VoiceParticipant))
      → any (λ p. p.session === s && not (keep k p)) (lookup k rooms or_else []) ≡ true
      → any (λ t. t === s) (map session_of (gone_from keep rooms)) ≡ true
  unfolding gone_from lookup any
  any-gone_from keep k [] h = cc
  any-gone_from keep k ((j, list) ∷ rooms) h =
      let joined = any-sessions (filter (λ p. not (keep j p)) list) (gone_from keep rooms) in
      elim (Bool-cases (j === k)) [
        | inl t ↦
            let here : any (λ p. p.session === s && not (keep k p)) list ≡ true =
              ground (arith, h, t) in
            let gone = any-dropped (keep j) list (
              subst (λ x. any (λ p. p.session === s && not (keep x p)) list ≡ true)
                (sym ((===_iff j k).0 t)) here) in
            ground (arith, joined, gone)
        | inr t ↦
            let later = any-gone_from keep k rooms (ground (arith, h, t)) in
            ground (arith, joined, later)
      ]

pub room-prune :
    (k : Text) (e : VoiceEngine)
    → HasRooms e.voice_rooms
    → participants_of k (prune e) ≡ filter (is_kept e k) (participants_of k e)
unfolding participants_of prune
room-prune k e h = lookup-pruned_rooms (is_kept e) k e.voice_rooms h

-- A prune leaves of a room, in its order, those who were seen within 65 seconds, and our own session
-- in the channel that we are in, and nobody else; and whoever it drops has no connection any more.
-- The rooms are assumed to have one entry for a conversation.
pub participants_of-prune :
    (k s : Text) (e : VoiceEngine)
    → HasRooms e.voice_rooms
    → (participants_of k (prune e) ≡ filter (stays e k) (participants_of k e))
      × ((any (λ p. p.session === s && not (stays e k p)) (participants_of k e) ≡ false)
          ⊎ (lookup s (prune e).peers ≡ none))
unfolding participants_of prune
participants_of-prune k s e h =
    let room = lookup k e.voice_rooms or_else [] in
    let same : is_kept e k ≡ stays e k = λ i p. is_kept-stays e k p i in
    (
      lookup-pruned_rooms (is_kept e) k e.voice_rooms h ∙ ap (λ f. filter f room) same,
      elim (Bool-cases (any (λ p. p.session === s && not (stays e k p)) room)) [
        | inl t ↦ inr (
            close_all_closes s _ e (
              any-gone_from s (is_kept e) k e.voice_rooms (
                subst
                  (λ (f : VoiceParticipant → Bool).
                    any (λ p. p.session === s && not (f p)) room ≡ true)
                  (sym same) t)))
        | inr t ↦ inl t
      ],
    )
