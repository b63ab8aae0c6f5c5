-- ===== src/Calls/Engine.antt =====
-- The operations of the call module. What an asynchronous function does after an `await` is an
-- operation of its own, since other callbacks run in between.
use family_messenger_e2e.Base.{
  Text, Bool, true, false, not, ◌&&◌, ◌||◌, Option, none, some, List, [], ◌++◌, codes, ◌===◌,
  if◌then◌else◌,
}
use family_messenger_e2e.Model.Payload.{Candidate, CallSignal}
use family_messenger_e2e.Calls.State.{
  ringing_in, connecting, ended, EndReason, missed, declined, busy, answered_elsewhere,
  declined_elsewhere, hung_up, incoming, CallState, Peer, CallEngine, has_ended, is_live,
  is_ringing_in, is_ringing_out, is_current, fresh_state, patched, update, send_signal,
}

-- `endCall`: everything is let go of, and a call that has not ended ends.
abbrev pub ended_with : EndReason → CallState → CallState
ended_with reason s = if has_ended s.status then s else record s {
  status = ended;
  end_reason = some reason;
  local_stream = false;
  video = false;
  sharing = false;
}

unfoldable pub end_call : EndReason → CallEngine → CallEngine
end_call reason e = record e {
  ring_timer = false;
  retry_timer = false;
  flush_timer = false;
  outgoing_ice = [];
  all_ice = [];
  queued_ice = [];
  pending_offer = none;
  screen = false;
  camera = false;
  pc = none;
  call = patched (ended_with reason) e.call;
  end_timer = e.end_timer || is_live e.call;
}

-- `addCandidates`
abbrev pub with_candidates : List Candidate → Peer → Peer
with_candidates list p = record p { candidates = p.candidates ++ list }

unfoldable pub add_candidates : List Candidate → CallEngine → CallEngine
add_candidates list e = elim e.pc [
  | none ↦ record e { queued_ice = e.queued_ice ++ list }
  | some p ↦
      if p.has_remote
      then record e { pc = some (with_candidates list p) }
      else record e { queued_ice = e.queued_ice ++ list }
]

-- `flushQueuedIce`
unfoldable pub flush_queued_ice : CallEngine → CallEngine
flush_queued_ice e = elim e.pc [
  | none ↦ e
  | some p ↦ record e { pc = some (with_candidates e.queued_ice p); queued_ice = [] }
]

-- What our own other device did with the same incoming call.
unfoldable pub from_own_device : Text → CallSignal → CallEngine → CallEngine
from_own_device id (CallSignal.answer sdp video candidates) e = elim e.call [
  | none ↦ e
  | some s ↦ if s.id === id && is_ringing_in s.status then end_call answered_elsewhere e else e
]
from_own_device id (CallSignal.reject reason) e = elim e.call [
  | none ↦ e
  | some s ↦ if s.id === id && is_ringing_in s.status then end_call declined_elsewhere e else e
]
from_own_device id _ e = e

-- An offer: a repeat of the current call's, one while busy, or a new call.
unfoldable pub ring : Text → Text → Text → Text → Bool → List Candidate → CallEngine → CallEngine
ring sender conv_id id sdp video candidates e = record e {
  pending_offer = some sdp;
  queued_ice = candidates;
  call = some (record (fresh_state id conv_id sender incoming ringing_in) { remote_video = video });
  ring_timer = true;
}

unfoldable pub on_offer :
    Text → Text → Text → Text → Bool → List Candidate → CallEngine → CallEngine
on_offer sender conv_id id sdp video candidates e =
    if is_current e.call id
    then add_candidates candidates e
    else if is_live e.call || e.in_voice
    then send_signal conv_id id (CallSignal.reject (codes "busy")) e
    else ring sender conv_id id sdp video candidates e

-- An answer to our ringing call. The remote description is set after this, `remote_set` below.
unfoldable pub take_answer : Bool → List Candidate → CallEngine → CallEngine
take_answer video candidates e =
    update (λ s. record s { status = connecting; remote_video = video })
      (record e {
        ring_timer = false;
        retry_timer = false;
        queued_ice = e.queued_ice ++ candidates;
      })

abbrev pub is_some_peer : Option Peer → Bool
is_some_peer none = false
is_some_peer (some p) = true

unfoldable pub on_answer : Text → Bool → List Candidate → CallEngine → CallEngine
on_answer id video candidates e = elim e.call [
  | none ↦ e
  | some s ↦
      if not (s.id === id)
      then e
      else if is_ringing_out s.status && is_some_peer e.pc
      then take_answer video candidates e
      else add_candidates candidates e
]

abbrev pub if_current : Text → (CallEngine → CallEngine) → CallEngine → CallEngine
if_current id f e = if is_current e.call id then f e else e

abbrev pub reason_of : Text → EndReason
reason_of reason = if reason === codes "busy" then busy else declined

abbrev pub hangup_reason : Option CallState → EndReason
hangup_reason none = hung_up
hangup_reason (some s) = if is_ringing_in s.status then missed else hung_up

unfoldable pub from_peer : Text → Text → Text → CallSignal → CallEngine → CallEngine
from_peer sender conv_id id (CallSignal.offer sdp video candidates) e =
    on_offer sender conv_id id sdp video candidates e
from_peer sender conv_id id (CallSignal.answer sdp video candidates) e =
    on_answer id video candidates e
from_peer sender conv_id id (CallSignal.ice candidates) e =
    if_current id (add_candidates candidates) e
from_peer sender conv_id id (CallSignal.reject reason) e =
    if_current id (end_call (reason_of reason)) e
from_peer sender conv_id id CallSignal.hangup e = if_current id (end_call (hangup_reason e.call)) e
from_peer sender conv_id id (CallSignal.video on) e =
    if_current id (update (λ s. record s { remote_video = on })) e
from_peer sender conv_id id (CallSignal.share on) e =
    if_current id (update (λ s. record s { remote_sharing = on })) e

unfoldable pub handle_call_signal : Text → Text → Text → Text → CallSignal → CallEngine → CallEngine
handle_call_signal sender device conv_id id signal e = elim e.session [
  | none ↦ e
  | some s ↦
      if sender === s.account_id
      then (if device === s.device_id then e else from_own_device id signal e)
      else from_peer sender conv_id id signal e
]
