-- ===== src/Sync/Kept/Runs.antt =====
-- The interface over the steps and the runs of the sync engine.
use family_messenger_e2e.Model.Client.{Client, World}
use family_messenger_e2e.Sync.Steps.{
  LiveStep, message, signal, event, refresh, history, open_chat, elsewhere, SyncStep, live, sync,
  purge, restart, Run, done, then,
}
use family_messenger_e2e.Sync.Events.{load_local_state}
use family_messenger_e2e.Sync.Kept.{IsSameBook, IsKept, IsKeptByAll}
use family_messenger_e2e.Sync.Kept.Handled.{handle_incoming-Kept}
use family_messenger_e2e.Sync.Kept.Live.{on_live_message-Kept, refresh_conversation-Kept}
use family_messenger_e2e.Sync.Kept.Synced.{
  on_event-Kept, ensure_messages_loaded-Kept, load_all_history-Kept, purge_expired-Kept,
  full_sync-Kept,
}
use family_messenger_e2e.Base.{false}

pub run-Kept :
    (R : Client → Client → Type 0) (P : Client → Type 0)
    → ((c d : Client) → R c d → P c → P d)
    → {c d : Client} → Run R c d
    → P c
    → P d
run-Kept R P step (done c) h = h
run-Kept R P step (then s rest) h = run-Kept R P step rest (step _ _ s h)

module _ (w : World) (P : Client → Type 0) where
  pub live_step-Kept : (kept : IsKept P) {c d : Client} → LiveStep w c d → P c → P d
  live_step-Kept kept (message fuel view c) h = on_live_message-Kept P kept w fuel view c h
  live_step-Kept kept (signal view c) h = handle_incoming-Kept P kept w view false c h
  live_step-Kept kept (event fuel ev c) h = on_event-Kept P kept w fuel ev c h
  live_step-Kept kept (refresh fuel id c) h = refresh_conversation-Kept P kept w fuel id c h
  live_step-Kept kept (history fuel c) h = load_all_history-Kept P kept w fuel c h
  live_step-Kept kept (open_chat id c) h = ensure_messages_loaded-Kept P kept w id c h
  live_step-Kept kept (elsewhere c d s) h = kept.elsewhere c d s h

  -- A restart reads back what the property's written-through state holds.
  pub step-Kept :
      (all : IsKeptByAll P)
      → ((c : Client) → P c → IsSameBook c (load_local_state c))
      → {c d : Client} → SyncStep w c d
      → P c
      → P d
  step-Kept all reload (live s) h = live_step-Kept all.is_kept s h
  step-Kept all reload (sync fuel c) h = full_sync-Kept P all w fuel c h
  step-Kept all reload (purge c) h = purge_expired-Kept P all c h
  step-Kept all reload (restart c) h = all.is_kept.elsewhere c _ (reload c h) h
