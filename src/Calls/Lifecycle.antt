-- ===== src/Calls/Lifecycle.antt =====
-- Starting, answering and ending a call, its timers, and the camera and screen. Where an
-- asynchronous function awaits, the rest of it is an operation that gets what the rest closes over.
use family_messenger_e2e.Base.{
  ℕ, Text, Bool, true, false, not, ◌&&◌, ◌||◌, Option, none, some, [], ◌∷◌, ◌++◌, codes, ◌==◌,
  ◌===◌, ◌or_else◌, if◌then◌else◌,
}
use family_messenger_e2e.Model.Payload.{Candidate, CallSignal, Kind, direct, group}
use family_messenger_e2e.Model.Database.{Conversation}
use family_messenger_e2e.Model.Client.{SessionInfo}
use family_messenger_e2e.Model.Views.{other_member}
use family_messenger_e2e.Calls.State.{
  CallStatus, ringing_out, connecting, active, no_answer, missed, declined, connection_failed,
  could_not_start, could_not_answer, hung_up, outgoing, CallState, Peer, CallEngine, has_ended,
  is_live, is_ringing_in, is_ringing_out, is_connecting, is_active, fresh_state, update,
  send_signal,
}
use family_messenger_e2e.Calls.Engine.{end_call, flush_queued_ice}

abbrev pub is_direct : Kind → Bool
is_direct direct = true
is_direct group = false

-- `startCall` up to its first `await`.
unfoldable pub begin_call : Text → Text → Conversation → SessionInfo → CallEngine → CallEngine
begin_call id conv_id conv s e =
    if not (is_direct conv.kind) || is_live e.call || e.in_voice
    then e
    else elim (other_member conv s.account_id) [
      | none ↦ e
      | some peer ↦ record e { call = some (fresh_state id conv_id peer outgoing ringing_out) }
    ]

unfoldable pub start_call : Text → Text → Option Conversation → CallEngine → CallEngine
start_call id conv_id none e = e
start_call id conv_id (some conv) e = elim e.session [
  | none ↦ e
  | some s ↦ begin_call id conv_id conv s e
]

-- `createPeer`: the connection, and then the microphone.
unfoldable pub create_peer : ℕ → CallEngine → CallEngine
create_peer number e = record e {
  pc = some (record { number = number; has_remote = false; candidates = [] });
}

unfoldable pub take_microphone : CallEngine → CallEngine
take_microphone e = update (λ s. record s { local_stream = true }) e

abbrev pub has_video : Option CallState → Bool
has_video none = false
has_video (some s) = s.video

-- The rest of `startCall`, once the local description is set.
unfoldable pub send_offer : Text → Text → Text → CallEngine → CallEngine
send_offer id conv_id sdp e =
    let e' = send_signal conv_id id (CallSignal.offer sdp (has_video e.call) []) e in
    record e' { ring_timer = true; retry_timer = true }

-- A test of the current call, by its id and status.
abbrev pub is_at : Text → (CallStatus → Bool) → Option CallState → Bool
is_at id test none = false
is_at id test (some s) = s.id === id && test s.status

abbrev pub is_peer : Option Peer → ℕ → Bool
is_peer none number = false
is_peer (some p) number = p.number == number

unfoldable pub ring_out_expired : Text → Text → CallEngine → CallEngine
ring_out_expired id conv_id e =
    if is_at id is_ringing_out e.call
    then end_call no_answer (send_signal conv_id id CallSignal.hangup e)
    else e

unfoldable pub ring_in_expired : Text → CallEngine → CallEngine
ring_in_expired id e = if is_at id is_ringing_in e.call then end_call missed e else e

unfoldable pub repeat_offer : Text → Text → ℕ → Text → CallEngine → CallEngine
repeat_offer id conv_id number sdp e =
    if is_at id is_ringing_out e.call && is_peer e.pc number
    then send_signal conv_id id (CallSignal.offer sdp (has_video e.call) e.all_ice) e
    else record e { retry_timer = false }

unfoldable pub fail_start : CallEngine → CallEngine
fail_start e = end_call could_not_start e

-- `acceptCall` up to its first `await`.
unfoldable pub accept_call : CallEngine → CallEngine
accept_call e = elim e.call [
  | none ↦ e
  | some s ↦ elim e.pending_offer [
    | none ↦ e
    | some offer ↦
        if is_ringing_in s.status
        then update (λ x. record x { status = connecting }) (record e { ring_timer = false })
        else e
  ]
]

-- A remote description is set: on accepting a call, and after an answer.
abbrev pub described : Option Peer → Option Peer
described none = none
described (some p) = some (record p { has_remote = true })

unfoldable pub set_remote : CallEngine → CallEngine
set_remote e = record e { pc = described e.pc }

unfoldable pub remote_set : CallEngine → CallEngine
remote_set e = flush_queued_ice (set_remote e)

unfoldable pub remote_failed : CallEngine → CallEngine
remote_failed e = end_call connection_failed e

-- The rest of `acceptCall`, once the local description is set.
unfoldable pub send_answer : Text → Text → Text → CallEngine → CallEngine
send_answer id conv_id sdp e =
    let e' =
      flush_queued_ice (send_signal conv_id id (CallSignal.answer sdp (has_video e.call) []) e) in
    record e' { retry_timer = true }

unfoldable pub repeat_answer : Text → Text → ℕ → Text → CallEngine → CallEngine
repeat_answer id conv_id number sdp e =
    if is_at id is_connecting e.call && is_peer e.pc number
    then send_signal conv_id id (CallSignal.answer sdp (has_video e.call) e.all_ice) e
    else record e { retry_timer = false }

unfoldable pub fail_answer : CallEngine → CallEngine
fail_answer e = end_call could_not_answer e

unfoldable pub reject_call : CallEngine → CallEngine
reject_call e = elim e.call [
  | none ↦ e
  | some s ↦
      if is_ringing_in s.status
      then end_call declined (send_signal s.conv_id s.id (CallSignal.reject (codes "declined")) e)
      else e
]

unfoldable pub hangup : CallEngine → CallEngine
hangup e = elim e.call [
  | none ↦ e
  | some s ↦
      if has_ended s.status
      then e
      else end_call hung_up (send_signal s.conv_id s.id CallSignal.hangup e)
]

-- `onicecandidate`, and its timer.
unfoldable pub gather_candidate : Candidate → CallEngine → CallEngine
gather_candidate candidate e = record e {
  outgoing_ice = e.outgoing_ice ++ candidate ∷ [];
  all_ice = e.all_ice ++ candidate ∷ [];
  flush_timer = true;
}

unfoldable pub flush_outgoing_ice : Text → Text → CallEngine → CallEngine
flush_outgoing_ice id conv_id e =
    let e' = record e { flush_timer = false; outgoing_ice = [] } in
    elim e.outgoing_ice [
      | [] ↦ e'
      | c ∷ batch ↦
          if is_at id (λ x. true) e.call
          then send_signal conv_id id (CallSignal.ice (c ∷ batch)) e'
          else e'
    ]

-- `onconnectionstatechange` of the connection with this number; an interruption only shows a toast.
abbrev pub activated : ℕ → CallState → CallState
activated now s =
    if is_active s.status
    then s
    else record s { status = active; started_at = some (s.started_at or_else now) }

unfoldable pub connected : ℕ → CallEngine → CallEngine
connected number e = if is_peer e.pc number then update (activated e.now) e else e

unfoldable pub connection_lost : ℕ → CallEngine → CallEngine
connection_lost number e = if is_peer e.pc number then end_call connection_failed e else e

unfoldable pub toggle_mute : CallEngine → CallEngine
toggle_mute e = elim e.call [
  | none ↦ e
  | some s ↦ if s.local_stream then update (λ x. record x { muted = not s.muted }) e else e
]

-- `enableCamera`, once the camera is given; `current` is the call it was asked for.
unfoldable pub camera_given : CallState → Bool → CallEngine → CallEngine
camera_given current notify e =
    if is_live e.call
    then (let e' = update (λ s. record s { video = true }) (record e { camera = true }) in
        if notify then send_signal current.conv_id current.id (CallSignal.video true) e' else e')
    else e

unfoldable pub disable_camera : Bool → CallEngine → CallEngine
disable_camera notify e =
    let e' = update (λ s. record s { video = false }) (record e { camera = false }) in
    elim e.call [
      | none ↦ e'
      | some s ↦
          if notify && not (has_ended s.status)
          then send_signal s.conv_id s.id (CallSignal.video false) e'
          else e'
    ]

-- `startScreenShare`, once the screen is given.
unfoldable pub screen_given : CallState → CallEngine → CallEngine
screen_given current e =
    send_signal current.conv_id current.id (CallSignal.share true)
      (update (λ s. record s { sharing = true }) (record e { screen = true }))

abbrev pub is_sharing : Option CallState → Bool
is_sharing none = false
is_sharing (some s) = s.sharing

unfoldable pub stop_screen_share : CallEngine → CallEngine
stop_screen_share e =
    let e' = update (λ s. record s { sharing = false }) (record e { screen = false }) in
    elim e.call [
      | none ↦ e'
      | some s ↦
          if (e.screen || s.sharing) && not (has_ended s.status)
          then send_signal s.conv_id s.id (CallSignal.share false) e'
          else e'
    ]

-- The timer of an ended call, and its dismissal.
unfoldable pub dismiss_ended_call : CallEngine → CallEngine
dismiss_ended_call e = elim e.call [
  | none ↦ e
  | some s ↦ if has_ended s.status then record e { call = none } else e
]
