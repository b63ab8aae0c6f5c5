-- ===== src/Examples/Calls.antt =====
-- Runs of the call module.
use family_messenger_e2e.Base.{◌≡◌, refl, true, false, some, none, [], ◌∷◌, codes, find, ◌===◌}
use family_messenger_e2e.Model.Payload.{CallSignal, call}
use family_messenger_e2e.Calls.State.{
  CallEngine, fresh_state, outgoing, ringing_out, update, send_signal,
}
use family_messenger_e2e.Calls.Engine.{end_call, handle_call_signal}
use family_messenger_e2e.Model.Views.{other_member}
use family_messenger_e2e.Calls.Lifecycle.{
  hangup, create_peer, take_microphone, send_offer, start_call, begin_call,
}
use family_messenger_e2e.Calls.Phases.{follows}
use family_messenger_e2e.Calls.Steps.{signal}
use family_messenger_e2e.Calls.Progress.{step-Follows}
use family_messenger_e2e.Examples.Client.{alice_id, chat_id, chat, client}

abbrev idle : CallEngine
idle = record {
  session = client.session;
  in_voice = false;
  call = none;
  pc = none;
  pending_offer = none;
  queued_ice = [];
  outgoing_ice = [];
  all_ice = [];
  ring_timer = false;
  retry_timer = false;
  flush_timer = false;
  end_timer = false;
  camera = false;
  screen = false;
  now = 5;
  sent = [];
}

abbrev ringing : CallEngine
ringing = record idle {
  call = some (fresh_state (codes "1") chat_id alice_id outgoing ringing_out);
}

-- Another offer arrives while we are calling.
step-Follows_example :
    follows ringing.call
      (handle_call_signal alice_id
        (codes "d")
        chat_id
        (codes "2")
        (CallSignal.offer [] false [])
        ringing).call
    ≡ true
step-Follows_example =
    step-Follows
      (signal alice_id (codes "d") chat_id (codes "2") (CallSignal.offer [] false []) ringing)

-- Who hangs up while the connection is still being made ends the call, and the offer goes out all
-- the same.
abbrev late : CallEngine
late =
    send_offer (codes "1") chat_id (codes "s")
      (take_microphone (create_peer 1 (hangup (start_call (codes "1") chat_id (some chat) idle))))

late_offer :
    late.sent
    ≡ (chat_id, call (codes "1") CallSignal.hangup)
      ∷ (chat_id, call (codes "1") (CallSignal.offer (codes "s") false []))
      ∷ []
unfolding send_offer take_microphone create_peer hangup start_call begin_call other_member update
    send_signal end_call ◌===◌ find
late_offer = refl
