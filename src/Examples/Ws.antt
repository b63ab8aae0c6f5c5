-- ===== src/Examples/Ws.antt =====
-- Runs of the WebSocket client.
use family_messenger_e2e.Base.{
  ◌≡◌, ◌≤◌, ◌⊎◌, refl, arith, Text, true, false, some, none, Option, [], codes, any, ◌==◌,
}
use family_messenger_e2e.Ws.Connection.{
  WsClient, Socket, offline, connect, open_socket, timer_fired, check_liveness, poke, on_close,
  lose, backoff,
}
use family_messenger_e2e.Ws.Steps.{connected, poked, socket_closed, clock, after, stay}
use family_messenger_e2e.Ws.Alive.{IsAlive, WsRun-bounds, WsRun-revives, step_stopped}

abbrev pub idle : WsClient
idle = record {
  status = offline;
  socket = none;
  handlers = [];
  token = [];
  stopped = true;
  attempt = 0;
  timer = none;
  timers = 0;
  pending = [];
  keepalive = false;
  last_frame = 0;
  ping_sent = 0;
  now = 100;
  opened = 0;
  closed = [];
  sent = [];
  called = [];
}

idle-IsAlive : IsAlive idle
idle-IsAlive = record { waits = λ h. cc; watched = refl; attempts = omega arith; delay = λ d h. cc }

-- The first socket is lost after a connect.
lost_timer : (on_close 1 1006 500000 (connect (codes "t") idle)).timer ≡ some 1000
unfolding on_close lose connect open_socket backoff
lost_timer = refl

WsRun-bounds_example : (700 ≤ 1000) × (1000 ≤ 39000)
WsRun-bounds_example =
    WsRun-bounds 1000
      (after (connected (codes "t") idle)
        (after (socket_closed 1 1006 500000 (connect (codes "t") idle) (omega arith)) (stay _)))
      idle-IsAlive lost_timer

-- A socket that says nothing for a minute.
abbrev silent : WsClient
silent = record (connect (codes "t") idle) { now = 60000 }

WsRun-revives_example :
    let fresh : Option Socket = some (record { number = 2; is_open = false }) in
    ((silent.keepalive ≡ true) × ((check_liveness silent).socket ≡ fresh))
    ⊎ ((any (λ t. t == silent.timers) silent.pending ≡ true)
        × ((timer_fired silent.timers silent).socket ≡ fresh))
unfolding connect open_socket
WsRun-revives_example =
    WsRun-revives
      (after (connected (codes "t") idle)
        (after (clock 60000 (connect (codes "t") idle) (omega arith)) (stay _)))
      idle-IsAlive refl (omega arith)

step_stopped_example :
    (((poke idle).stopped ≡ true) × ((poke idle).opened ≡ 0) × ((poke idle).timer ≡ none))
    ⊎ ((token : Text) × (poke idle ≡ connect token idle))
step_stopped_example = step_stopped (poked idle) refl refl
