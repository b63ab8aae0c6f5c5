-- ===== src/Ws/Connection.antt =====
-- The class WsClient: its fields as a record, and its methods and the callbacks of its socket and
-- timers as functions. A handler is a number, and a call of one is recorded; what a handler does
-- to other modules is theirs.
use family_messenger_e2e.Base.{
  ℕ, suc, ◌+◌, ◌*◌, ◌-◌, ◌/◌, ◌^◌, min, Text, Bool, true, false, not, ◌&&◌, Option, none, some,
  List, [], ◌∷◌, ◌++◌, any, filter, map, ltb, leb, ◌==◌, ◌===◌, codes, ◌or_else◌, if◌then◌else◌,
}
use family_messenger_e2e.Base.Dict.{Dict, lookup, insert}

pub data ConnectionStatus : Type 0 where
  offline connecting online : ConnectionStatus

-- A socket: which one it is, and whether its `readyState` is OPEN.
pub record Socket : Type 0 where
  pub number : ℕ
  pub is_open : Bool

pub record WsClient : Type 0 where
  pub status : ConnectionStatus
  pub socket : Option Socket
  pub handlers : Dict (List ℕ)
  pub token : Text
  pub stopped : Bool
  pub attempt : ℕ
  -- The field `timer` keeps its timer when that fires; here the timer's delay in
  -- milliseconds. Timers are numbered as they are set, so it is the last one's. `pending` are the
  -- timers that were set and neither fired nor were cleared.
  pub timer : Option ℕ
  pub timers : ℕ
  pub pending : List ℕ
  pub keepalive : Bool
  pub last_frame : ℕ
  pub ping_sent : ℕ
  pub now : ℕ
  -- Sockets that were made, and those that were closed from here.
  pub opened : ℕ
  pub closed : List ℕ
  -- Frames that went out, with their socket, and calls of handlers with the frame's type.
  pub sent : List (ℕ × Text)
  pub called : List (Text × ℕ)

abbrev pub ping_after_ms : ℕ
ping_after_ms = 15000

abbrev pub dead_after_ms : ℕ
dead_after_ms = 35000

-- `socket?.close()`
abbrev pub closing : Option Socket → List ℕ → List ℕ
closing none closed = closed
closing (some s) closed = closed ++ s.number ∷ []

unfoldable pub open_socket : WsClient → WsClient
open_socket c = if c.stopped then c else record c {
  status = connecting;
  socket = some (record { number = suc c.opened; is_open = false });
  opened = suc c.opened;
  last_frame = c.now;
  ping_sent = 0;
  keepalive = true;
}

unfoldable pub connect : Text → WsClient → WsClient
unfolding open_socket
connect token c = open_socket (record c { token = token; stopped = false; attempt = 0 })

-- `clearTimeout` of the field.
abbrev pub cleared : Option ℕ → ℕ → List ℕ → List ℕ
cleared none number pending = pending
cleared (some delay) number pending = filter (λ t. not (t == number)) pending

-- The timer of a number fires.
unfoldable pub timer_fired : ℕ → WsClient → WsClient
unfolding open_socket
timer_fired number c =
    open_socket (record c { pending = filter (λ t. not (t == number)) c.pending })

unfoldable pub close : WsClient → WsClient
close c = record c {
  stopped = true;
  timer = none;
  pending = cleared c.timer c.timers c.pending;
  keepalive = false;
  socket = none;
  closed = closing c.socket c.closed;
  status = offline;
}

-- `send`, on the current socket.
abbrev pub sending : Option Socket → Text → List (ℕ × Text) → List (ℕ × Text)
sending none type sent = sent
sending (some s) type sent = if s.is_open then sent ++ (s.number, type) ∷ [] else sent

unfoldable pub send : Text → WsClient → WsClient
send type c = record c { sent = sending c.socket type c.sent }

-- `reopen`: a fresh connection at once.
unfoldable pub reopen : WsClient → WsClient
unfolding open_socket
reopen c =
    let c' = record c { socket = none; keepalive = false; closed = closing c.socket c.closed } in
    if c.stopped
    then c'
    else open_socket
        (record c' { timer = none; pending = cleared c.timer c.timers c.pending; attempt = 0 })

unfoldable pub check_liveness : WsClient → WsClient
unfolding reopen send
check_liveness c = elim c.socket [
  | none ↦ c
  | some s ↦
      if ltb dead_after_ms (c.now - c.last_frame)
      then reopen c
      else if leb ping_after_ms (c.now - c.last_frame) && leb ping_after_ms (c.now - c.ping_sent)
      then send (codes "ping") (record c { ping_sent = c.now })
      else c
]

-- `poke`, and the timer that it starts; `sent_at` is the time of the poke.
unfoldable pub poke : WsClient → WsClient
unfolding open_socket send
poke c = if c.stopped then c else elim c.socket [
  | none ↦
      open_socket
        (record c { timer = none; pending = cleared c.timer c.timers c.pending; attempt = 0 })
  | some s ↦ if s.is_open then send (codes "ping") (record c { ping_sent = c.now }) else c
]

unfoldable pub poke_expired : ℕ → WsClient → WsClient
unfolding reopen
poke_expired sent_at c = elim c.socket [
  | none ↦ c
  | some s ↦ if ltb c.last_frame sent_at then reopen c else c
]

-- `on`, and what it returns.
abbrev pub added : ℕ → List ℕ → List ℕ
added h set = if any (λ g. g == h) set then set else set ++ h ∷ []

unfoldable pub on : Text → ℕ → WsClient → WsClient
on type h c = record c {
  handlers = insert type (added h (lookup type c.handlers or_else [])) c.handlers;
}

unfoldable pub off : Text → ℕ → WsClient → WsClient
off type h c = record c {
  handlers =
      insert type (filter (λ g. not (g == h)) (lookup type c.handlers or_else [])) c.handlers;
}

-- The handlers of a type are called in order; one that throws is only logged.
unfoldable pub dispatch : Text → WsClient → WsClient
dispatch type c = record c {
  called = c.called ++ map (λ h. (type, h)) (lookup type c.handlers or_else []);
}

-- `socket.onopen`: the token goes out on the socket that has opened.
abbrev pub marked_open : ℕ → Socket → Socket
marked_open number s = if s.number == number then record s { is_open = true } else s

abbrev pub changed : (Socket → Socket) → Option Socket → Option Socket
changed f none = none
changed f (some s) = some (f s)

unfoldable pub on_open : ℕ → WsClient → WsClient
on_open number c = record c {
  socket = changed (marked_open number) c.socket;
  sent = c.sent ++ (number, codes "auth") ∷ [];
}

-- `socket.onmessage`, with the type of the frame, none where it is no JSON.
unfoldable pub on_message : Option Text → WsClient → WsClient
unfolding dispatch
on_message none c = record c { last_frame = c.now }
on_message (some type) c =
    if type === codes "hello"
    then dispatch type (record c { last_frame = c.now; attempt = 0; status = online })
    else dispatch type (record c { last_frame = c.now })

-- The delay before the next attempt. `random` is `Math.random()` in millionths; setTimeout drops
-- the fraction of a millisecond.
unfoldable pub backoff : ℕ → ℕ → ℕ
backoff attempt random = min 30000 (1000 * 2 ^ attempt) * (7000000 + 6 * random) / 10000000

-- `socket.onclose`: a socket that was replaced is not looked at; code 1008 means that the token was
-- refused.
unfoldable pub lose : Bool → ℕ → WsClient → WsClient
unfolding dispatch backoff
lose refused random c =
    let c' = record c { socket = none; keepalive = false; status = offline } in
    if c.stopped then c' else record (if refused then dispatch (codes "revoked") c' else c') {
      attempt = min (c.attempt + 1) 6;
      timer = some (backoff c.attempt random);
      timers = suc c.timers;
      pending = c.pending ++ suc c.timers ∷ [];
    }

unfoldable pub on_close : ℕ → ℕ → ℕ → WsClient → WsClient
unfolding lose
on_close number code random c = elim c.socket [
  | none ↦ c
  | some s ↦ if s.number == number then lose (code == 1008) random c else c
]
