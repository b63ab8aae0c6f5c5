-- ===== src/Sync/Steps.antt =====
-- What can happen to a running client, one step after the other: frames and events of the server,
-- syncs, purges, restarts, and all that goes on outside the sync engine.
use family_messenger_e2e.Base.{ℕ, Text, false}
use family_messenger_e2e.Model.Payload.{MessageView, Event}
use family_messenger_e2e.Model.Client.{Client, World}
use family_messenger_e2e.Sync.Incoming.{handle_incoming}
use family_messenger_e2e.Sync.Backfill.{on_live_message, refresh_conversation}
use family_messenger_e2e.Sync.Events.{
  on_event, ensure_messages_loaded, purge_expired, full_sync, load_all_history, load_local_state,
}
use family_messenger_e2e.Sync.Kept.{IsSameBook}

pub data LiveStep (w : World) : Client → Client → Type 0 where
  message :
      (fuel : ℕ) (view : MessageView) (c : Client) → LiveStep w c (on_live_message w fuel view c)
  signal : (view : MessageView) (c : Client) → LiveStep w c (handle_incoming w view false c)
  event : (fuel : ℕ) (ev : Event) (c : Client) → LiveStep w c (on_event w fuel ev c)
  refresh : (fuel : ℕ) (id : Text) (c : Client) → LiveStep w c (refresh_conversation w fuel id c)
  history : (fuel : ℕ) (c : Client) → LiveStep w c (load_all_history w fuel c)
  open_chat : (id : Text) (c : Client) → LiveStep w c (ensure_messages_loaded id c)
  -- The clock, the page, the composer: contacts and conversations stay what they are.
  elsewhere : (c d : Client) → IsSameBook c d → LiveStep w c d

pub data SyncStep (w : World) : Client → Client → Type 0 where
  live : {c d : Client} → LiveStep w c d → SyncStep w c d
  sync : (fuel : ℕ) (c : Client) → SyncStep w c (full_sync w fuel c)
  purge : (c : Client) → SyncStep w c (purge_expired c)
  restart : (c : Client) → SyncStep w c (load_local_state c)

pub data Run (R : Client → Client → Type 0) : Client → Client → Type 0 where
  done : (c : Client) → Run R c c
  then : {c d e : Client} → R c d → Run R d e → Run R c e
