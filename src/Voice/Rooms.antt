-- ===== src/Voice/Rooms.antt =====
-- Who is in which channel: the list of participants by conversation.
use family_messenger_e2e.Base.{
  Text, Bool, true, false, not, ◌&&◌, ◌||◌, Option, none, some, List, [], ◌∷◌, ◌++◌, ◌-◌, filter,
  length, leb, ◌==◌, ◌===◌, ◌or_else◌, if◌then◌else◌,
}
use family_messenger_e2e.Base.Dict.{Dict, lookup, insert, delete}
use family_messenger_e2e.Voice.State.{VoiceParticipant, VoiceState, VoiceEngine, expire_ms}

unfoldable pub participants_of : Text → VoiceEngine → List VoiceParticipant
participants_of conv_id e = lookup conv_id e.voice_rooms or_else []

abbrev pub is_other : Text → VoiceParticipant → Bool
is_other session p = not (p.session === session)

abbrev pub is_session : Text → VoiceParticipant → Bool
is_session session p = p.session === session

unfoldable pub set_participant : Text → VoiceParticipant → VoiceEngine → VoiceEngine
unfolding participants_of
set_participant conv_id p e = record e {
  voice_rooms =
      insert conv_id (filter (is_other p.session) (participants_of conv_id e) ++ p ∷ [])
        e.voice_rooms;
  prune_timer = true;
}

-- A room without participants is no room.
abbrev pub with_room :
    Text → List VoiceParticipant → Dict (List VoiceParticipant) → Dict (List VoiceParticipant)
with_room conv_id [] rooms = delete conv_id rooms
with_room conv_id (p ∷ list) rooms = insert conv_id (p ∷ list) rooms

unfoldable pub remove_participant : Text → Text → VoiceEngine → VoiceEngine
unfolding participants_of
remove_participant conv_id session e = record e {
  voice_rooms =
      with_room conv_id (filter (is_other session) (participants_of conv_id e)) e.voice_rooms;
}

-- Our own entry, from the current state.
unfoldable pub update_self : VoiceEngine → VoiceEngine
unfolding set_participant
update_self e = elim e.voice [
  | none ↦ e
  | some v ↦ elim e.session [
    | none ↦ e
    | some me ↦
        set_participant v.conv_id
          (record {
            session = v.session;
            account = me.account_id;
            device = me.device_id;
            muted = v.muted;
            sharing = v.sharing;
            camera = v.camera;
            seen = e.now;
          })
          e
  ]
]

-- What `prune` keeps: who was seen lately, and ourselves.
abbrev pub is_own : Option VoiceState → Text → VoiceParticipant → Bool
is_own none conv_id p = false
is_own (some v) conv_id p = v.conv_id === conv_id && p.session === v.session

abbrev pub is_kept : VoiceEngine → Text → VoiceParticipant → Bool
is_kept e conv_id p = leb (e.now - p.seen) expire_ms || is_own e.voice conv_id p

module _ (keep : Text → VoiceParticipant → Bool) where
  abbrev pub pruned_room :
      Text
      → List VoiceParticipant
      → List VoiceParticipant
      → Dict (List VoiceParticipant)
      → Dict (List VoiceParticipant)
  pruned_room conv_id list kept rest =
      if length kept == length list
      then (conv_id, list) ∷ rest
      else elim kept [ [] ↦ rest | p ∷ ps ↦ (conv_id, p ∷ ps) ∷ rest ]

  -- The rooms after the loop of `prune`.
  unfoldable pub pruned_rooms : Dict (List VoiceParticipant) → Dict (List VoiceParticipant)
  pruned_rooms [] = []
  pruned_rooms ((conv_id, list) ∷ rooms) =
      pruned_room conv_id list (filter (keep conv_id) list) (pruned_rooms rooms)

  -- Everyone whom the loop drops.
  unfoldable pub gone_from : Dict (List VoiceParticipant) → List VoiceParticipant
  gone_from [] = []
  gone_from ((conv_id, list) ∷ rooms) = filter (λ p. not (keep conv_id p)) list ++ gone_from rooms
