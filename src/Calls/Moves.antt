-- ===== src/Calls/Moves.antt =====
-- Starting, answering and ending a call, the camera and the screen, seen from the current call.
use family_messenger_e2e.Base.{
  ℕ, ◌≡◌, ◌≤◌, refl, sym, subst, ◌or_else◌, Text, Bool, true, false, not, ◌&&◌, ◌||◌, Option, none,
  some, List, [], ◌∷◌, arith, if◌then◌else◌, codes,
}
use family_messenger_e2e.Model.Payload.{Candidate, CallSignal}
use family_messenger_e2e.Model.Database.{Conversation}
use family_messenger_e2e.Model.Client.{SessionInfo}
use family_messenger_e2e.Calls.State.{
  CallStatus, connecting, active, ended, ringing_out, ringing_in, fresh_state, outgoing, CallState,
  CallEngine, has_ended, is_live, is_active, is_ringing_in, is_ringing_out, update, send_signal,
  patched,
}
use family_messenger_e2e.Model.Views.{other_member}
use family_messenger_e2e.Calls.Lifecycle.{
  start_call, begin_call, is_direct, ring_out_expired, accept_call, reject_call, hangup,
  flush_outgoing_ice, activated, toggle_mute, camera_given, disable_camera, stop_screen_share,
  dismiss_ended_call, is_at,
}
use family_messenger_e2e.Calls.Phases.{
  rank, follows, follows_refl, choice, on_call, Follows, end_call-Follows, update-Follows, not_live,
  raised, ended_follows, rank_ringing_in,
}

pub start_call-Follows :
    (id conv_id : Text) (conv : Option Conversation) → Follows (start_call id conv_id conv)
unfolding start_call begin_call
start_call-Follows id conv_id none e = follows_refl e.call
start_call-Follows id conv_id (some conv) e = by_session e.session
  where
    by_other :
        (o : Option Text)
        → is_live e.call ≡ false
        → follows e.call
            (elim o as (λ y. CallEngine) [
              | none ↦ e
              | some peer ↦ record e {
                call = some (fresh_state id conv_id peer outgoing ringing_out);
              }
            ]).call
          ≡ true
    by_other none h = follows_refl e.call
    by_other (some peer) h = not_live e.call _ h

    by_test :
        (s : SessionInfo) (b : Bool)
        → (not (is_direct conv.kind) || is_live e.call || e.in_voice) ≡ b
        → follows e.call
            (if b then e else (elim (other_member conv s.account_id) as (λ y. CallEngine) [
              | none ↦ e
              | some peer ↦ record e {
                call = some (fresh_state id conv_id peer outgoing ringing_out);
              }
            ])).call
          ≡ true
    by_test s true h = follows_refl e.call
    by_test s false h = by_other (other_member conv s.account_id) (ground (arith, h))

    by_session :
        (o : Option SessionInfo)
        → follows e.call
            (elim o as (λ y. CallEngine) [
              | none ↦ e
              | some s ↦ begin_call id conv_id conv s e
            ]).call
          ≡ true
    by_session none = follows_refl e.call
    by_session (some s) = by_test s _ refl

rank_live : (t : CallStatus) → has_ended t ≡ false → rank t ≤ 2
rank_live ringing_out h = omega arith
rank_live ringing_in h = omega arith
rank_live connecting h = omega arith
rank_live active h = omega arith
rank_live ended h = cc

-- The connection is up.
pub follows-activated :
    (now : ℕ) (o : Option CallState) → follows o (patched (activated now) o) ≡ true
follows-activated now none = refl
follows-activated now (some s) = by_end (has_ended s.status) refl
  where
    by_active :
        (b : Bool)
        → has_ended s.status ≡ false
        → rank s.status
          ≤ rank
              (if b then s else record s {
                status = active;
                started_at = some (s.started_at or_else now);
              }).status
    by_active true q = omega arith
    by_active false q = rank_live s.status q

    by_end : (b : Bool) → has_ended s.status ≡ b → follows (some s) (some (activated now s)) ≡ true
    by_end true q = ended_follows s (some (activated now s)) q
    by_end false q =
        raised (activated now) (some s) s refl (ground arith) (by_active (is_active s.status) q)

pub update_video-Follows :
    (b : Bool) (e : CallEngine)
    → follows e.call (update (λ s. record s { video = b }) e).call ≡ true
update_video-Follows b e =
    update-Follows (λ s. record s { video = b }) e (λ s. refl) (λ s. omega arith)

pub update_sharing-Follows :
    (b : Bool) (e : CallEngine)
    → follows e.call (update (λ s. record s { sharing = b }) e).call ≡ true
update_sharing-Follows b e =
    update-Follows (λ s. record s { sharing = b }) e (λ s. refl) (λ s. omega arith)

pub ring_out_expired-Follows : (id conv_id : Text) → Follows (ring_out_expired id conv_id)
unfolding ring_out_expired send_signal
ring_out_expired-Follows id conv_id e =
    choice e.call (is_at id is_ringing_out e.call) _ e
      (end_call-Follows _ (send_signal conv_id id CallSignal.hangup e)) (follows_refl e.call)

pub accept_call-Follows : Follows accept_call
unfolding accept_call update
accept_call-Follows e =
    on_call e.call e.call e _ (follows_refl e.call) λ s q. by_offer s q e.pending_offer
  where
    by_test :
        (s : CallState)
        → e.call ≡ some s
        → (b : Bool) → is_ringing_in s.status ≡ b
        → follows e.call
            (if b
              then update (λ x. record x { status = connecting }) (record e { ring_timer = false })
              else e).call
          ≡ true
    by_test s q false h = follows_refl e.call
    by_test s q true h =
        raised (λ x. record x { status = connecting }) e.call s q refl
          (omega (arith, rank_ringing_in s.status h))

    by_offer :
        (s : CallState)
        → e.call ≡ some s
        → (o : Option Text)
        → follows e.call
            (elim o as (λ y. CallEngine) [
              | none ↦ e
              | some offer ↦
                  if is_ringing_in s.status
                  then update
                      (λ x. record x { status = connecting })
                      (record e { ring_timer = false })
                  else e
            ]).call
          ≡ true
    by_offer s q none = follows_refl e.call
    by_offer s q (some offer) = by_test s q (is_ringing_in s.status) refl

pub reject_call-Follows : Follows reject_call
unfolding reject_call send_signal
reject_call-Follows e = on_call e.call e.call e _ (follows_refl e.call) λ s q.
    choice e.call (is_ringing_in s.status) _ e
      (end_call-Follows _ (send_signal s.conv_id s.id (CallSignal.reject (codes "declined")) e))
      (follows_refl e.call)

pub hangup-Follows : Follows hangup
unfolding hangup send_signal
hangup-Follows e = on_call e.call e.call e _ (follows_refl e.call) λ s q.
    choice e.call (has_ended s.status) e _ (follows_refl e.call)
      (end_call-Follows _ (send_signal s.conv_id s.id CallSignal.hangup e))

pub camera_given-Follows :
    (current : CallState) (notify : Bool) → Follows (camera_given current notify)
unfolding camera_given send_signal
camera_given-Follows current notify e =
    let h = update_video-Follows true (record e { camera = true }) in
    choice e.call (is_live e.call) _ e (choice e.call notify _ _ h h) (follows_refl e.call)

pub disable_camera-Follows : (notify : Bool) → Follows (disable_camera notify)
unfolding disable_camera send_signal
disable_camera-Follows notify e =
    let h = update_video-Follows false (record e { camera = false }) in
    on_call e.call e.call _ _ h λ s q. choice e.call (notify && not (has_ended s.status)) _ _ h h

pub stop_screen_share-Follows : Follows stop_screen_share
unfolding stop_screen_share send_signal
stop_screen_share-Follows e =
    let h = update_sharing-Follows false (record e { screen = false }) in
    on_call e.call e.call _ _ h
      λ s q. choice e.call ((e.screen || s.sharing) && not (has_ended s.status)) _ _ h h

pub dismiss_ended_call-Follows : Follows dismiss_ended_call
unfolding dismiss_ended_call
dismiss_ended_call-Follows e =
    on_call e.call e.call e _ (follows_refl e.call) λ s q. by_test s q (has_ended s.status) refl
  where
    by_test :
        (s : CallState)
        → e.call ≡ some s
        → (b : Bool) → has_ended s.status ≡ b
        → follows e.call (if b then record e { call = none } else e).call ≡ true
    by_test s q false h = follows_refl e.call
    by_test s q true h = subst (λ o. follows o none ≡ true) (sym q) h

pub flush_outgoing_ice-Follows : (id conv_id : Text) → Follows (flush_outgoing_ice id conv_id)
unfolding flush_outgoing_ice send_signal
flush_outgoing_ice-Follows id conv_id e = by_batch e.outgoing_ice
  where
    rest : CallEngine
    rest = record e { flush_timer = false; outgoing_ice = [] }

    by_batch :
        (l : List Candidate)
        → follows e.call
            (elim l as (λ y. CallEngine) [
              | [] ↦ rest
              | c ∷ batch ↦
                  if is_at id (λ x. true) e.call
                  then send_signal conv_id id (CallSignal.ice (c ∷ batch)) rest
                  else rest
            ]).call
          ≡ true
    by_batch [] = follows_refl e.call
    by_batch (c ∷ batch) =
        choice e.call (is_at id (λ x. true) e.call) _ _ (follows_refl e.call) (follows_refl e.call)

pub toggle_mute-Follows : Follows toggle_mute
unfolding toggle_mute
toggle_mute-Follows e = on_call e.call e.call e _ (follows_refl e.call) λ s q.
    choice e.call s.local_stream _ e
      (update-Follows (λ x. record x { muted = not s.muted }) e (λ x. refl) (λ x. omega arith))
      (follows_refl e.call)
