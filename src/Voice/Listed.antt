-- ===== src/Voice/Listed.antt =====
-- The lists of participants over operations of rooms.
pub mod Operations
pub mod Run
use family_messenger_e2e.Base.{
  ◌≡◌, refl, sym, ◌∙◌, ap, subst, Text, Bool, true, false, not, ◌||◌, ◌&&◌, Option, none, some,
  List, [], ◌∷◌, ◌++◌, map, length, filter, find, any, All, ◌==◌, ◌===◌, ===_iff, ===_refl, arith,
  ◌or_else◌, is_some, if◌then◌else◌,
}
use family_messenger_e2e.Base.Dict.{Dict, lookup, insert, delete, lookup-insert, lookup-delete}
use family_messenger_e2e.Voice.State.{VoiceParticipant, VoiceEngine}
use family_messenger_e2e.Voice.Rooms.{
  is_other, is_session, is_kept, participants_of, with_room, set_participant, remove_participant,
  pruned_room, pruned_rooms,
}
use family_messenger_e2e.Voice.Channel.{prune}
use family_messenger_e2e.Voice.Orderly.{HasRooms, pruned_absent}

-- Every session stands once.
abbrev pub Once : List VoiceParticipant → Type 0
Once [] = Unit
Once (p ∷ ps) = (any (is_session p.session) ps ≡ false) × Once ps

abbrev pub HasOnce : Dict (List VoiceParticipant) → Type 0
HasOnce m = All (λ entry. Once entry.1) m

any-filter :
    (s : Text) (keep : VoiceParticipant → Bool) (ps : List VoiceParticipant)
    → any (is_session s) ps ≡ false
    → any (is_session s) (filter keep ps) ≡ false
unfolding any filter
any-filter s keep [] h = refl
any-filter s keep (p ∷ ps) h = ground (arith, any-filter s keep ps)

Once-filter :
    (keep : VoiceParticipant → Bool) (ps : List VoiceParticipant) → Once ps → Once (filter keep ps)
unfolding filter
Once-filter keep [] h = h
Once-filter keep (p ∷ ps) h =
    ground (arith, Once-filter keep ps h.1, any-filter p.session keep ps h.0)

any-last :
    (s : Text) (p : VoiceParticipant) (ps : List VoiceParticipant)
    → any (is_session s) (ps ++ p ∷ []) ≡ (any (is_session s) ps || is_session s p)
unfolding any
any-last s p [] = ground arith
any-last s p (q ∷ ps) = ground (arith, any-last s p ps)

-- An entry that takes the place of the one with its session.
Once-replaced :
    (p : VoiceParticipant) (ps : List VoiceParticipant)
    → Once ps
    → Once (filter (is_other p.session) ps ++ p ∷ [])
unfolding filter any
Once-replaced p [] h = (refl, tt)
Once-replaced p (q ∷ ps) h = ground (
  arith,
  Once-replaced p ps h.1,
  any-last q.session p (filter (is_other p.session) ps),
  any-filter q.session (is_other p.session) ps h.0,
  ===_iff q.session p.session,
  ===_iff p.session q.session,
)

HasRooms-insert :
    (k : Text) (list : List VoiceParticipant) (m : Dict (List VoiceParticipant))
    → HasRooms m
    → HasRooms (insert k list m)
unfolding insert lookup
HasRooms-insert k list [] h = (refl, tt)
HasRooms-insert k list ((j, w) ∷ m) h =
    ground (arith, HasRooms-insert k list m h.1, lookup-insert k j list m, ===_iff j k, ===_iff k j)

HasRooms-delete : (k : Text) (m : Dict (List VoiceParticipant)) → HasRooms m → HasRooms (delete k m)
unfolding delete
HasRooms-delete k [] h = h
HasRooms-delete k ((j, w) ∷ m) h = ground (arith, HasRooms-delete k m h.1, lookup-delete k j m)

HasOnce-insert :
    (k : Text) (list : List VoiceParticipant) (m : Dict (List VoiceParticipant))
    → Once list
    → HasOnce m
    → HasOnce (insert k list m)
unfolding insert
HasOnce-insert k list [] o h = (o, tt)
HasOnce-insert k list ((j, w) ∷ m) o h = ground (arith, HasOnce-insert k list m o h.1)

HasOnce-delete : (k : Text) (m : Dict (List VoiceParticipant)) → HasOnce m → HasOnce (delete k m)
unfolding delete
HasOnce-delete k [] h = h
HasOnce-delete k ((j, w) ∷ m) h = ground (arith, HasOnce-delete k m h.1)

Once-lookup :
    (k : Text) (m : Dict (List VoiceParticipant)) → HasOnce m → Once (lookup k m or_else [])
unfolding lookup
Once-lookup k [] h = tt
Once-lookup k ((j, w) ∷ m) h = ground (arith, Once-lookup k m h.1)

module _ (keep : Text → VoiceParticipant → Bool) where
  HasRooms-pruned_rooms :
      (m : Dict (List VoiceParticipant)) → HasRooms m → HasRooms (pruned_rooms keep m)
  unfolding pruned_rooms
  HasRooms-pruned_rooms [] h = h
  HasRooms-pruned_rooms ((j, w) ∷ m) h =
      ground (arith, HasRooms-pruned_rooms m h.1, pruned_absent keep j m h.0)

  HasOnce-pruned_rooms :
      (m : Dict (List VoiceParticipant)) → HasOnce m → HasOnce (pruned_rooms keep m)
  unfolding pruned_rooms
  HasOnce-pruned_rooms [] h = h
  HasOnce-pruned_rooms ((j, w) ∷ m) h =
      ground (arith, HasOnce-pruned_rooms m h.1, Once-filter (keep j) w h.0)

unfoldable pub IsListed : VoiceEngine → Type 0
IsListed e = HasRooms e.voice_rooms × HasOnce e.voice_rooms

pub same_rooms-IsListed :
    (e f : VoiceEngine) → f.voice_rooms ≡ e.voice_rooms → IsListed e → IsListed f
unfolding IsListed
same_rooms-IsListed e f q h = rw q h

pub set_participant-IsListed :
    (c : Text) (p : VoiceParticipant) (e : VoiceEngine)
    → IsListed e
    → IsListed (set_participant c p e)
unfolding IsListed set_participant participants_of
set_participant-IsListed c p e h =
    let list = filter (is_other p.session) (lookup c e.voice_rooms or_else []) ++ p ∷ [] in
    (
      HasRooms-insert c list e.voice_rooms h.0,
      HasOnce-insert c list e.voice_rooms
          (Once-replaced p (lookup c e.voice_rooms or_else []) (Once-lookup c e.voice_rooms h.1))
          h.1,
    )

with_room-IsListed :
    (c : Text) (list : List VoiceParticipant) (m : Dict (List VoiceParticipant))
    → Once list
    → HasRooms m × HasOnce m
    → HasRooms (with_room c list m) × HasOnce (with_room c list m)
with_room-IsListed c [] m o h = (HasRooms-delete c m h.0, HasOnce-delete c m h.1)
with_room-IsListed c (p ∷ list) m o h =
    (HasRooms-insert c (p ∷ list) m h.0, HasOnce-insert c (p ∷ list) m o h.1)

pub remove_participant-IsListed :
    (c s : Text) (e : VoiceEngine) → IsListed e → IsListed (remove_participant c s e)
unfolding IsListed remove_participant participants_of
remove_participant-IsListed c s e h =
    with_room-IsListed c (filter (is_other s) (lookup c e.voice_rooms or_else [])) e.voice_rooms
      (Once-filter (is_other s) (lookup c e.voice_rooms or_else [])
        (Once-lookup c e.voice_rooms h.1))
      h

pub prune-IsListed : (e : VoiceEngine) → IsListed e → IsListed (prune e)
unfolding IsListed prune
prune-IsListed e h = (
  HasRooms-pruned_rooms (is_kept e) e.voice_rooms h.0,
  HasOnce-pruned_rooms (is_kept e) e.voice_rooms h.1,
)

-- What the list of a conversation holds then.
pub participants_of-Once : (c : Text) (e : VoiceEngine) → IsListed e → Once (participants_of c e)
unfolding IsListed participants_of
participants_of-Once c e h = Once-lookup c e.voice_rooms h.1

pub IsListed-rooms : (e : VoiceEngine) → IsListed e → HasRooms e.voice_rooms
unfolding IsListed
IsListed-rooms e h = h.0
