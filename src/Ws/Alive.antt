-- ===== src/Ws/Alive.antt =====
-- Sockets, timers and the keepalive over runs of the WebSocket client.
use family_messenger_e2e.Base.{
  ℕ, zero, suc, ◌-◌, ◌≤◌, ◌<◌, ◌≡◌, refl, Text, true, false, ◌||◌, Option, none, some, is_some,
  arith, ◌⊎◌, inr, Bool, List, [], ◌∷◌, ◌++◌, any, ◌==◌, ◌&&◌,
}
use family_messenger_e2e.Ws.Connection.{
  WsClient, Socket, open_socket, timer_fired, connect, close, send, reopen, check_liveness, poke,
  poke_expired, on, off, dispatch, on_open, on_message, backoff, lose, on_close,
}
use family_messenger_e2e.Ws.Steps.{
  WsStep, connected, closed, sent, poked, poke_timer, keepalive_timer, reconnect_timer, subscribed,
  unsubscribed, socket_open, message, socket_closed, clock, WsRun, stay, after,
}

-- Is the timer of the field pending?
abbrev pub is_pending : WsClient → Bool
is_pending c = is_some c.timer && any (λ t. t == c.timers) c.pending

pub record IsAlive (c : WsClient) : Type 0 where
  pub waits : c.stopped ≡ false → (is_some c.socket || is_pending c) ≡ true
  pub watched : c.keepalive ≡ is_some c.socket
  pub attempts : c.attempt ≤ 6
  pub delay : (d : ℕ) → c.timer ≡ some d → (700 ≤ d) × (d ≤ 39000)

backoff_bounds :
    (attempt random : ℕ)
    → attempt ≤ 6
    → random < 1000000
    → (700 ≤ backoff attempt random) × (backoff attempt random ≤ 39000)
unfolding backoff
backoff_bounds zero random h k = omega arith
backoff_bounds (suc zero) random h k = omega arith
backoff_bounds (suc (suc zero)) random h k = omega arith
backoff_bounds (suc (suc (suc zero))) random h k = omega arith
backoff_bounds (suc (suc (suc (suc zero)))) random h k = omega arith
backoff_bounds (suc (suc (suc (suc (suc zero))))) random h k = omega arith
backoff_bounds (suc (suc (suc (suc (suc (suc zero)))))) random h k = omega arith
backoff_bounds (suc (suc (suc (suc (suc (suc (suc n))))))) random h k = absurd (omega arith)

open_socket-IsAlive : (c : WsClient) → IsAlive c → IsAlive (open_socket c)
unfolding open_socket
open_socket-IsAlive c h = ground (arith, h)

timer_fired-IsAlive : (number : ℕ) (c : WsClient) → IsAlive c → IsAlive (timer_fired number c)
unfolding timer_fired open_socket
timer_fired-IsAlive number c h = ground (arith, h)

reopen-IsAlive : (c : WsClient) → IsAlive c → IsAlive (reopen c)
unfolding reopen open_socket
reopen-IsAlive c h = ground (arith, h)

send-IsAlive : (type : Text) (c : WsClient) → IsAlive c → IsAlive (send type c)
unfolding send
send-IsAlive type c h = ground (arith, h)

check_liveness-IsAlive : (c : WsClient) → IsAlive c → IsAlive (check_liveness c)
unfolding check_liveness reopen open_socket send
check_liveness-IsAlive c h = ground (arith, h)

poke-IsAlive : (c : WsClient) → IsAlive c → IsAlive (poke c)
unfolding poke open_socket send
poke-IsAlive c h = ground (arith, h)

poke_expired-IsAlive : (sent_at : ℕ) (c : WsClient) → IsAlive c → IsAlive (poke_expired sent_at c)
unfolding poke_expired reopen open_socket
poke_expired-IsAlive sent_at c h = ground (arith, h)

on_open-IsAlive : (number : ℕ) (c : WsClient) → IsAlive c → IsAlive (on_open number c)
unfolding on_open
on_open-IsAlive number c h = ground (arith, h)

on_message-IsAlive : (type : Option Text) (c : WsClient) → IsAlive c → IsAlive (on_message type c)
unfolding on_message dispatch
on_message-IsAlive none c h = ground (arith, h)
on_message-IsAlive (some type) c h = ground (arith, h)

pending-last :
    (pending : List ℕ) (number : ℕ) → any (λ t. t == number) (pending ++ number ∷ []) ≡ true
unfolding any
pending-last [] number = ground arith
pending-last (t ∷ pending) number = ground (arith, pending-last pending number)

on_close-IsAlive :
    (number code random : ℕ) (c : WsClient)
    → random < 1000000
    → IsAlive c
    → IsAlive (on_close number code random c)
unfolding on_close lose dispatch
on_close-IsAlive number code random c k h =
    ground (
      arith,
      h,
      backoff_bounds c.attempt random h.attempts k,
      pending-last c.pending (suc c.timers),
    )

step-IsAlive : {c d : WsClient} → WsStep c d → IsAlive c → IsAlive d
unfolding connect open_socket close on off
step-IsAlive (connected token c) h = ground (arith, h)
step-IsAlive (closed c) h = ground (arith, h)
step-IsAlive (sent type c) h = send-IsAlive type c h
step-IsAlive (poked c) h = poke-IsAlive c h
step-IsAlive (poke_timer sent_at c) h = poke_expired-IsAlive sent_at c h
step-IsAlive (keepalive_timer c) h = check_liveness-IsAlive c h
step-IsAlive (reconnect_timer number c k) h = timer_fired-IsAlive number c h
step-IsAlive (subscribed type g c) h = ground (arith, h)
step-IsAlive (unsubscribed type g c) h = ground (arith, h)
step-IsAlive (socket_open number c) h = on_open-IsAlive number c h
step-IsAlive (message type c) h = on_message-IsAlive type c h
step-IsAlive (socket_closed number code random c k) h = on_close-IsAlive number code random c k h
step-IsAlive (clock later c k) h = ground (arith, h)

run-IsAlive : {c d : WsClient} → WsRun c d → IsAlive c → IsAlive d
run-IsAlive (stay c) h = h
run-IsAlive (after s r) h = run-IsAlive r (step-IsAlive s h)

-- However the client is used and whatever its sockets do, a reconnection never waits less than 0.7
-- nor more than 39 seconds, if that was so of the timer at the start, no more than six attempts were
-- counted, and a client that was not stopped had a socket, watched by the keepalive, or a pending
-- timer.
pub WsRun-bounds :
    {c d : WsClient} (t : ℕ) → WsRun c d → IsAlive c → d.timer ≡ some t → (700 ≤ t) × (t ≤ 39000)
WsRun-bounds t r h e = (run-IsAlive r h).delay t e

-- A client that is not stopped and has heard nothing for more than 35 seconds comes back: either its
-- keepalive timer runs, and replaces the socket by a new one when it fires, or the timer of the
-- next attempt was set and has neither fired nor been cleared, and makes a new socket when it
-- fires. That is assumed of the state at the start: a client that is not stopped has a socket,
-- watched by the keepalive, or a pending timer; the timer's delay and the attempts are within
-- their bounds.
pub WsRun-revives :
    {c d : WsClient}
    → WsRun c d
    → IsAlive c
    → d.stopped ≡ false
    → 35000 < d.now - d.last_frame
    → let fresh : Option Socket = some (record { number = suc d.opened; is_open = false }) in
      ((d.keepalive ≡ true) × ((check_liveness d).socket ≡ fresh))
      ⊎ ((any (λ t. t == d.timers) d.pending ≡ true) × ((timer_fired d.timers d).socket ≡ fresh))
unfolding check_liveness reopen open_socket timer_fired
WsRun-revives {d = d} r h running silent = ground (arith, run-IsAlive r h)

-- A client that is stopped makes no socket and sets no timer and stays stopped, whatever happens,
-- until it is told to connect.
pub step_stopped :
    {c d : WsClient}
    → WsStep c d
    → c.stopped ≡ true
    → c.timer ≡ none
    → ((d.stopped ≡ true) × (d.opened ≡ c.opened) × (d.timer ≡ none))
      ⊎ ((token : Text) × (d ≡ connect token c))
unfolding open_socket timer_fired close on off send check_liveness reopen poke poke_expired on_open
    on_message dispatch on_close lose
step_stopped (connected token c) h k = inr (token, refl)
step_stopped (closed c) h k = ground arith
step_stopped (sent type c) h k = ground arith
step_stopped (poked c) h k = ground arith
step_stopped (poke_timer sent_at c) h k = ground arith
step_stopped (keepalive_timer c) h k = ground arith
step_stopped (reconnect_timer number c l) h k = ground arith
step_stopped (subscribed type g c) h k = ground arith
step_stopped (unsubscribed type g c) h k = ground arith
step_stopped (socket_open number c) h k = ground arith
step_stopped (message none c) h k = ground arith
step_stopped (message (some type) c) h k = ground arith
step_stopped (socket_closed number code random c l) h k = ground arith
step_stopped (clock later c l) h k = ground arith
