-- ===== src/Voice/Frame.antt =====
-- Case distinctions on what an operation of a channel looks up, and what closing a connection leaves
-- as it was.
use family_messenger_e2e.Base.{
  ◌≡◌, refl, sym, ◌∙◌, Text, Bool, true, false, Option, none, some, List, [], ◌∷◌, ◌===◌, ===_iff,
  ===_refl, is_some, All, any, map, subst, arith, if◌then◌else◌,
}
use family_messenger_e2e.Base.Dict.{Dict, lookup, delete}
use family_messenger_e2e.Voice.State.{
  Peer, PeerState, VoiceState, VoiceEngine, set_peer_state, publish_stream, publish_camera, patched,
  write_peer_state,
}
use family_messenger_e2e.Voice.Mesh.{close_peer, close_all}

-- A case distinction on a value that an operation looks up, and on a test.
some-injective {ℓ} : {A : Type ℓ} {a b : A} → some a ≡ some b → a ≡ b
some-injective h = cc

pub on_option {ℓ} :
    {A : Type ℓ} (P : VoiceEngine → Type 0) (o : Option A) (f : A → VoiceEngine) (e : VoiceEngine)
    → P e
    → ((a : A) → o ≡ some a → P (f a))
    → P (elim o as (λ y. VoiceEngine) [ none ↦ e | some a ↦ f a ])
on_option P none f e h k = h
on_option P (some a) f e h k = k a refl

pub on_some {ℓ} :
    {A : Type ℓ} (P : VoiceEngine → Type 0) (o : Option A) (f : A → VoiceEngine) (e : VoiceEngine)
    (a : A)
    → o ≡ some a
    → P (f a)
    → P (elim o as (λ y. VoiceEngine) [ none ↦ e | some a ↦ f a ])
on_some P none f e a q h = cc
on_some {A = A} P (some b) f e a q h = subst (λ x. P (f x)) (sym (some-injective q)) h

pub on_test :
    (P : VoiceEngine → Type 0) (b : Bool) (x y : VoiceEngine)
    → (b ≡ true → P x)
    → (b ≡ false → P y)
    → P (if b then x else y)
on_test P true x y h k = h refl
on_test P false x y h k = k refl

-- The channel and the session under which we are in it.
abbrev pub own : Option VoiceState → Option (Text × Text)
own none = none
own (some v) = some (v.conv_id, v.session)

pub is_some-patched :
    (f : VoiceState → VoiceState) (o : Option VoiceState) → is_some (patched f o) ≡ is_some o
is_some-patched f none = refl
is_some-patched f (some v) = refl

own-patched :
    (s : Text) (state : Option PeerState) (o : Option VoiceState)
    → own (patched (write_peer_state s state) o) ≡ own o
unfolding write_peer_state
own-patched s state none = refl
own-patched s none (some v) = refl
own-patched s (some state) (some v) = refl

-- What changes of the peers leave as it was.
pub record SameRoom (e f : VoiceEngine) : Type 0 where
  pub same_own : own f.voice ≡ own e.voice
  pub same_rooms : f.voice_rooms ≡ e.voice_rooms
  pub same_session : f.session ≡ e.session
  pub same_now : f.now ≡ e.now
  pub same_camera : f.camera_stream ≡ e.camera_stream
  pub same_screen : f.screen_track ≡ e.screen_track
  pub same_microphone : f.local_stream ≡ e.local_stream

pub SameRoom-refl : (e : VoiceEngine) → SameRoom e e
SameRoom-refl e = record {
  same_own = refl;
  same_rooms = refl;
  same_session = refl;
  same_now = refl;
  same_camera = refl;
  same_screen = refl;
  same_microphone = refl;
}

pub SameRoom-trans : {e f g : VoiceEngine} → SameRoom e f → SameRoom f g → SameRoom e g
SameRoom-trans h k = record {
  same_own = k.same_own ∙ h.same_own;
  same_rooms = k.same_rooms ∙ h.same_rooms;
  same_session = k.same_session ∙ h.same_session;
  same_now = k.same_now ∙ h.same_now;
  same_camera = k.same_camera ∙ h.same_camera;
  same_screen = k.same_screen ∙ h.same_screen;
  same_microphone = k.same_microphone ∙ h.same_microphone;
}

pub set_peer_state-SameRoom :
    (s : Text) (state : Option PeerState) (e : VoiceEngine) → SameRoom e (set_peer_state s state e)
unfolding set_peer_state
set_peer_state-SameRoom s state e = record {
  same_own = own-patched s state e.voice;
  same_rooms = refl;
  same_session = refl;
  same_now = refl;
  same_camera = refl;
  same_screen = refl;
  same_microphone = refl;
}

pub close_peer-SameRoom : (s : Text) (e : VoiceEngine) → SameRoom e (close_peer s e)
unfolding close_peer set_peer_state publish_stream publish_camera
close_peer-SameRoom s e = on_option (SameRoom e) (lookup s e.peers) _ e (SameRoom-refl e) (λ p q.
    record {
      same_own = own-patched s none e.voice;
      same_rooms = refl;
      same_session = refl;
      same_now = refl;
      same_camera = refl;
      same_screen = refl;
      same_microphone = refl;
    })

is_some_of_own : (o p : Option VoiceState) → own o ≡ own p → is_some o ≡ is_some p
is_some_of_own none none h = refl
is_some_of_own none (some v) h = cc
is_some_of_own (some v) none h = cc
is_some_of_own (some v) (some w) h = refl

pub SameRoom-on : {e f : VoiceEngine} → SameRoom e f → is_some f.voice ≡ is_some e.voice
SameRoom-on {e} {f} h = is_some_of_own f.voice e.voice h.same_own

pub close_peer-is_on :
    (s : Text) (e : VoiceEngine) → is_some e.voice ≡ true → is_some (close_peer s e).voice ≡ true
close_peer-is_on s e on = SameRoom-on (close_peer-SameRoom s e) ∙ on

pub close_all-SameRoom : (ss : List Text) (e : VoiceEngine) → SameRoom e (close_all ss e)
unfolding close_all
close_all-SameRoom [] e = SameRoom-refl e
close_all-SameRoom (s ∷ ss) e =
    SameRoom-trans (close_peer-SameRoom s e) (close_all-SameRoom ss (close_peer s e))

-- Closing removes the connection, also where there is none.
delete_absent {ℓ} : {V : Type ℓ} (k : Text) (m : Dict V) → lookup k m ≡ none → delete k m ≡ m
unfolding lookup delete
delete_absent k [] h = refl
delete_absent k ((j, v) ∷ m) h = ground (arith, delete_absent k m)

pub close_peer-peers : (s : Text) (e : VoiceEngine) → (close_peer s e).peers ≡ delete s e.peers
unfolding close_peer set_peer_state publish_stream publish_camera
close_peer-peers s e = by_lookup (lookup s e.peers) refl
  where
    by_lookup :
        (o : Option Peer)
        → lookup s e.peers ≡ o
        → (elim o as (λ y. VoiceEngine) [
          | none ↦ e
          | some p ↦ set_peer_state s none (
              publish_camera s none (publish_stream s none (record e { peers = delete s e.peers })))
        ]).peers
          ≡ delete s e.peers
    by_lookup none h = sym (delete_absent s e.peers h)
    by_lookup (some p) h = refl

module _ {ℓ} {V : Type ℓ} where
  -- All keys of a map are among those of a list.
  abbrev Within : List Text → Dict V → Type 0
  Within ks m = All (λ entry. any (λ k. k === entry.0) ks ≡ true) m

  Within-delete :
      (k : Text) (ks : List Text) (m : Dict V) → Within (k ∷ ks) m → Within ks (delete k m)
  unfolding delete any
  Within-delete k ks [] h = tt
  Within-delete k ks ((j, v) ∷ m) h =
      ground (arith, Within-delete k ks m h.1, ===_iff j k, ===_iff k j)

  Within-more : (k : Text) (ks : List Text) (m : Dict V) → Within ks m → Within (k ∷ ks) m
  unfolding any
  Within-more k ks [] h = tt
  Within-more k ks ((j, v) ∷ m) h = (ground (arith, h.0), Within-more k ks m h.1)

  Within-keys : (m : Dict V) → Within (map (λ entry. entry.0) m) m
  unfolding any
  Within-keys [] = tt
  Within-keys ((k, v) ∷ m) =
      (ground (arith, ===_refl k), Within-more k (map (λ entry. entry.0) m) m (Within-keys m))

Within-nil {ℓ} : {V : Type ℓ} (m : Dict V) → Within [] m → m ≡ []
unfolding any
Within-nil [] h = refl
Within-nil (x ∷ m) h = cc

close_all-Within :
    (ss : List Text) (e : VoiceEngine) → Within ss e.peers → (close_all ss e).peers ≡ []
unfolding close_all
close_all-Within [] e h = Within-nil e.peers h
close_all-Within (s ∷ ss) e h =
    close_all-Within ss (close_peer s e)
      (subst (Within ss) (sym (close_peer-peers s e)) (Within-delete s ss e.peers h))

pub close_all_every : (e : VoiceEngine) → (close_all (map (λ entry. entry.0) e.peers) e).peers ≡ []
close_all_every e = close_all-Within (map (λ entry. entry.0) e.peers) e (Within-keys e.peers)
