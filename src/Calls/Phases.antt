-- ===== src/Calls/Phases.antt =====
-- The current call and its phase under the signals of the peer and of our own devices.
use family_messenger_e2e.Base.{
  ℕ, ◌≡◌, ◌≤◌, refl, sym, subst, Text, Bool, true, false, not, ◌&&◌, ◌||◌, Option, none, some,
  Option-cases, inl, inr, List, arith, leb, ◌===◌, ===_refl, if◌then◌else◌, codes,
}
use family_messenger_e2e.Model.Payload.{Candidate, CallSignal}
use family_messenger_e2e.Model.Client.{SessionInfo}
use family_messenger_e2e.Calls.State.{
  CallStatus, ringing_out, ringing_in, connecting, active, ended, EndReason, CallState, CallEngine,
  has_ended, is_live, is_current, is_ringing_in, is_ringing_out, patched, update, send_signal,
}
use family_messenger_e2e.Calls.Engine.{
  ended_with, end_call, add_candidates, flush_queued_ice, from_own_device, ring, on_offer,
  take_answer, on_answer, if_current, is_some_peer, reason_of, hangup_reason, from_peer,
  handle_call_signal,
}

abbrev pub rank : CallStatus → ℕ
rank ringing_out = 0
rank ringing_in = 0
rank connecting = 1
rank active = 2
rank ended = 3

-- What may come of a call in one step: of one that has ended, anything.
abbrev pub follows : Option CallState → Option CallState → Bool
follows none after = true
follows (some s) none = has_ended s.status
follows (some s) (some t) =
    has_ended s.status || (s.id === t.id && leb (rank s.status) (rank t.status))

pub follows_refl : (o : Option CallState) → follows o o ≡ true
follows_refl none = refl
follows_refl (some s) = ground (arith, ===_refl s.id)

-- A change that keeps the id and does not lower the rank.
pub follows-patched :
    (f : CallState → CallState) (o : Option CallState)
    → ((s : CallState) → (f s).id ≡ s.id)
    → ((s : CallState) → rank s.status ≤ rank (f s).status)
    → follows o (patched f o) ≡ true
follows-patched f none same up = refl
follows-patched f (some s) same up = ground (arith, same s, up s, ===_refl s.id)

rank_bound : (t : CallStatus) → rank t ≤ 3
rank_bound ringing_out = omega arith
rank_bound ringing_in = omega arith
rank_bound connecting = omega arith
rank_bound active = omega arith
rank_bound ended = omega arith

pub rank_ringing_out : (t : CallStatus) → is_ringing_out t ≡ true → rank t ≡ 0
rank_ringing_out ringing_out h = refl
rank_ringing_out ringing_in h = refl
rank_ringing_out connecting h = cc
rank_ringing_out active h = cc
rank_ringing_out ended h = cc

pub rank_ringing_in : (t : CallStatus) → is_ringing_in t ≡ true → rank t ≡ 0
rank_ringing_in ringing_out h = refl
rank_ringing_in ringing_in h = refl
rank_ringing_in connecting h = cc
rank_ringing_in active h = cc
rank_ringing_in ended h = cc

ended_rank :
    (r : EndReason) (s : CallState)
    → ((ended_with r s).id ≡ s.id) × (rank s.status ≤ rank (ended_with r s).status)
ended_rank r s = (ground arith, by_test (has_ended s.status))
  where
    by_test :
        (b : Bool)
        → rank s.status
          ≤ rank
              (if b then s else record s {
                status = ended;
                end_reason = some r;
                local_stream = false;
                video = false;
                sharing = false;
              }).status
    by_test true = omega arith
    by_test false = rank_bound s.status

-- The call before, and either of two states after.
pub choice :
    (o : Option CallState) (b : Bool) (x y : CallEngine)
    → follows o x.call ≡ true
    → follows o y.call ≡ true
    → follows o (if b then x else y).call ≡ true
choice o true x y h k = h
choice o false x y h k = k

-- The step from one state to the next.
abbrev pub Follows : (CallEngine → CallEngine) → Type 0
Follows f = (e : CallEngine) → follows e.call (f e).call ≡ true

pub end_call-Follows : (r : EndReason) → Follows (end_call r)
unfolding end_call
end_call-Follows r e =
    follows-patched (ended_with r) e.call (λ s. (ended_rank r s).0) (λ s. (ended_rank r s).1)

add_candidates-Follows : (list : List Candidate) → Follows (add_candidates list)
unfolding add_candidates
add_candidates-Follows list e = elim (Option-cases e.pc) [
  | inl q ↦ rw (q, add_candidates) (follows_refl e.call)
  | inr (p, q) ↦ ground (arith, q, follows_refl e.call)
]

pub flush_queued_ice-Follows : Follows flush_queued_ice
unfolding flush_queued_ice
flush_queued_ice-Follows e = elim (Option-cases e.pc) [
  | inl q ↦ rw (q, flush_queued_ice) (follows_refl e.call)
  | inr (p, q) ↦ rw (q, flush_queued_ice) (follows_refl e.call)
]

-- An update that touches neither id nor status.
pub update-Follows :
    (f : CallState → CallState) (e : CallEngine)
    → ((s : CallState) → (f s).id ≡ s.id)
    → ((s : CallState) → rank s.status ≤ rank (f s).status)
    → follows e.call (update f e).call ≡ true
unfolding update
update-Follows f e same up = follows-patched f e.call same up

-- A split on the current call.
pub on_call :
    (o : Option CallState) (here : Option CallState) (x : CallEngine) (f : CallState → CallEngine)
    → follows o x.call ≡ true
    → ((s : CallState) → here ≡ some s → follows o (f s).call ≡ true)
    → follows o (elim here as (λ y. CallEngine) [ none ↦ x | some s ↦ f s ]).call ≡ true
on_call o none x f h k = h
on_call o (some s) x f h k = k s refl

from_own_device-Follows : (id : Text) (s : CallSignal) → Follows (from_own_device id s)
unfolding from_own_device
from_own_device-Follows id (CallSignal.answer sdp video list) e =
    on_call e.call e.call e _ (follows_refl e.call) λ s q.
      choice e.call (s.id === id && is_ringing_in s.status) _ e (end_call-Follows _ e)
        (follows_refl e.call)
from_own_device-Follows id (CallSignal.reject reason) e =
    on_call e.call e.call e _ (follows_refl e.call) λ s q.
      choice e.call (s.id === id && is_ringing_in s.status) _ e (end_call-Follows _ e)
        (follows_refl e.call)
from_own_device-Follows id _ e = follows_refl e.call

-- A new call only rings where none is live.
pub ended_follows :
    (s : CallState) (after : Option CallState)
    → has_ended s.status ≡ true
    → follows (some s) after ≡ true
ended_follows s none h = h
ended_follows s (some t) h = ground (arith, h)

pub not_live : (o after : Option CallState) → is_live o ≡ false → follows o after ≡ true
not_live none after h = refl
not_live (some s) after h = ended_follows s after (ground (arith, h))

on_offer-Follows :
    (sender conv_id id sdp : Text) (video : Bool) (list : List Candidate)
    → Follows (on_offer sender conv_id id sdp video list)
unfolding on_offer send_signal ring
on_offer-Follows sender conv_id id sdp video list e =
    choice e.call (is_current e.call id) _ _ (add_candidates-Follows list e)
      (offered (is_live e.call || e.in_voice) refl)
  where
    offered :
        (b : Bool)
        → (is_live e.call || e.in_voice) ≡ b
        → follows e.call
            (if b
              then send_signal conv_id id (CallSignal.reject (codes "busy")) e
              else ring sender conv_id id sdp video list e).call
          ≡ true
    offered true t = follows_refl e.call
    offered false t = not_live e.call _ (ground (arith, t))

-- The call that rings moves on to connecting.
pub raised :
    (f : CallState → CallState) (o : Option CallState) (s : CallState)
    → o ≡ some s
    → (f s).id ≡ s.id
    → rank s.status ≤ rank (f s).status
    → follows o (patched f o) ≡ true
raised f o s q same up =
    subst (λ x. follows x (patched f x) ≡ true) (sym q) (ground (arith, same, up, ===_refl s.id))

on_answer-Follows :
    (id : Text) (video : Bool) (list : List Candidate) → Follows (on_answer id video list)
unfolding on_answer take_answer update
on_answer-Follows id video list e = on_call e.call e.call e _ (follows_refl e.call) λ s q.
    choice e.call (not (s.id === id)) e _ (follows_refl e.call)
      (answered_by s q (is_ringing_out s.status && is_some_peer e.pc) refl)
  where
    answered_by :
        (s : CallState)
        → e.call ≡ some s
        → (b : Bool) → (is_ringing_out s.status && is_some_peer e.pc) ≡ b
        → follows e.call (if b then take_answer video list e else add_candidates list e).call ≡ true
    answered_by s q false t = add_candidates-Follows list e
    answered_by s q true t =
        let low = rank_ringing_out s.status (ground (arith, t)) in
        raised _ e.call s q refl (omega (arith, low))

if_current-Follows :
    (id : Text) (f : CallEngine → CallEngine) (e : CallEngine)
    → follows e.call (f e).call ≡ true
    → follows e.call (if_current id f e).call ≡ true
if_current-Follows id f e h = choice e.call (is_current e.call id) (f e) e h (follows_refl e.call)

from_peer-Follows :
    (sender conv_id id : Text) (s : CallSignal) → Follows (from_peer sender conv_id id s)
unfolding from_peer
from_peer-Follows sender conv_id id (CallSignal.offer sdp video list) e =
    on_offer-Follows sender conv_id id sdp video list e
from_peer-Follows sender conv_id id (CallSignal.answer sdp video list) e =
    on_answer-Follows id video list e
from_peer-Follows sender conv_id id (CallSignal.ice list) e =
    if_current-Follows id (add_candidates list) e (add_candidates-Follows list e)
from_peer-Follows sender conv_id id (CallSignal.reject reason) e =
    if_current-Follows id (end_call (reason_of reason)) e (end_call-Follows (reason_of reason) e)
from_peer-Follows sender conv_id id CallSignal.hangup e =
    if_current-Follows id (end_call (hangup_reason e.call)) e
      (end_call-Follows (hangup_reason e.call) e)
from_peer-Follows sender conv_id id (CallSignal.video on) e =
    let f = λ (s : CallState). record s { remote_video = on } in
    if_current-Follows id (update f) e (update-Follows f e (λ s. refl) (λ s. omega arith))
from_peer-Follows sender conv_id id (CallSignal.share on) e =
    let f = λ (s : CallState). record s { remote_sharing = on } in
    if_current-Follows id (update f) e (update-Follows f e (λ s. refl) (λ s. omega arith))

-- Whatever signal comes in.
pub handle_call_signal-Follows :
    (sender device conv_id id : Text) (s : CallSignal)
    → Follows (handle_call_signal sender device conv_id id s)
unfolding handle_call_signal
handle_call_signal-Follows sender device conv_id id signal e = by_session e.session
  where
    by_session :
        (o : Option SessionInfo)
        → follows e.call
            (elim o as (λ y. CallEngine) [
              | none ↦ e
              | some s ↦
                  if sender === s.account_id
                  then (if device === s.device_id then e else from_own_device id signal e)
                  else from_peer sender conv_id id signal e
            ]).call
          ≡ true
    by_session none = follows_refl e.call
    by_session (some s) =
        choice e.call (sender === s.account_id) _ _
          (choice e.call (device === s.device_id) e _ (follows_refl e.call)
            (from_own_device-Follows id signal e))
          (from_peer-Follows sender conv_id id signal e)
