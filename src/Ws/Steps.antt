-- ===== src/Ws/Steps.antt =====
-- What can happen to the client: calls of its methods, and callbacks of the socket and the timers,
-- in any order. A reconnection timer fires only while it is pending; the other timers may fire here
-- after they were cleared, which allows more than the program does. `random` is what Math.random yields, in millionths.
use family_messenger_e2e.Base.{ℕ, ◌<◌, ◌≤◌, ◌≡◌, ◌==◌, any, true, Text, Option}
use family_messenger_e2e.Ws.Connection.{
  WsClient, timer_fired, connect, close, send, check_liveness, poke, poke_expired, on, off, on_open,
  on_message, on_close,
}

pub data WsStep : WsClient → WsClient → Type 0 where
  connected : (token : Text) (c : WsClient) → WsStep c (connect token c)
  closed : (c : WsClient) → WsStep c (close c)
  sent : (type : Text) (c : WsClient) → WsStep c (send type c)
  poked : (c : WsClient) → WsStep c (poke c)
  poke_timer : (sent_at : ℕ) (c : WsClient) → WsStep c (poke_expired sent_at c)
  keepalive_timer : (c : WsClient) → WsStep c (check_liveness c)
  reconnect_timer :
      (number : ℕ) (c : WsClient)
      → any (λ t. t == number) c.pending ≡ true
      → WsStep c (timer_fired number c)
  subscribed : (type : Text) (h : ℕ) (c : WsClient) → WsStep c (on type h c)
  unsubscribed : (type : Text) (h : ℕ) (c : WsClient) → WsStep c (off type h c)
  socket_open : (number : ℕ) (c : WsClient) → WsStep c (on_open number c)
  message : (type : Option Text) (c : WsClient) → WsStep c (on_message type c)
  socket_closed :
      (number code random : ℕ) (c : WsClient)
      → random < 1000000
      → WsStep c (on_close number code random c)
  clock : (later : ℕ) (c : WsClient) → c.now ≤ later → WsStep c (record c { now = later })

pub data WsRun : WsClient → WsClient → Type 0 where
  stay : (c : WsClient) → WsRun c c
  after : {c d e : WsClient} → WsStep c d → WsRun d e → WsRun c e
