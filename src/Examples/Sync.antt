-- ===== src/Examples/Sync.antt =====
-- Runs of the sync engine, and its theorems at inputs that meet their hypotheses.
use family_messenger_e2e.Base.{
  [], ◌≡◌, ◌or_else◌, refl, Text, true, false, some, none, codes, All, arith, ◌===◌, ===_iff,
  filter, find,
}
use family_messenger_e2e.Base.Dict.{lookup, values}
use family_messenger_e2e.Base.Outcome.{ok}
use family_messenger_e2e.Model.Payload.{member_added}
use family_messenger_e2e.Model.Database.{Contact, StoredMessage, get_message}
use family_messenger_e2e.Model.Client.{Client}
use family_messenger_e2e.Sync.Contacts.{pinned}
use family_messenger_e2e.Sync.Previews.{
  apply_edit, remove_local_message, is_expired, effective_retention,
}
use family_messenger_e2e.Sync.Stored.{has_seq}
use family_messenger_e2e.Sync.Backfill.{backfill}
use family_messenger_e2e.Sync.Events.{on_event, full_sync, purge_expired}
use family_messenger_e2e.Sync.Steps.{event, live, sync, done, then}
use family_messenger_e2e.Sync.Kept.WriteThrough.{IsWrittenThrough, Run-IsWrittenThrough}
use family_messenger_e2e.Sync.Kept.Pins.{IsPinned, Run-IsPinned}
use family_messenger_e2e.Sync.Kept.Cursors.{IsPast, HasOwnIds, Run-IsPast}
use family_messenger_e2e.Sync.Complete.{newer, Handles, backfill-Completes}
use family_messenger_e2e.Sync.Edited.{IsKeyed, Rewrites, get_message-apply_edit}
use family_messenger_e2e.Sync.Removed.{remove_local_message-Forgets}
use family_messenger_e2e.Sync.Purged.{
  IsClean, is_spared, purge_expired-IsClean, purge_expired-Spares,
}
use family_messenger_e2e.Examples.Client.{
  me, alice_id, chat_id, alice, chat, old_text, new_text, client, history, world,
}

client-IsWrittenThrough : IsWrittenThrough client
client-IsWrittenThrough = record { contacts = refl; conversations = refl }

contacts_own : (j : Text) (k : Contact) → lookup j client.contacts ≡ some k → k.id ≡ j
unfolding lookup
contacts_own j k h = ground (arith, ===_iff alice_id j, ===_iff me j)

client-IsPinned : IsPinned alice_id (pinned alice) true client.contacts
client-IsPinned = record {
  names = contacts_own;
  contact = alice;
  found = unfold lookup ◌===◌ in refl;
  same_keys = refl;
  same_mark = refl;
}

chats_own : HasOwnIds client.conversations
unfolding lookup
chats_own j k h = ground (arith, ===_iff chat_id j)

client-IsPast : IsPast chat client.conversations
client-IsPast = record {
  names = chats_own;
  now = chat;
  found = unfold lookup ◌===◌ in refl;
  grows = record {
    id = refl;
    synced_seq = omega arith;
    last_seq = omega arith;
    read_seq = omega arith;
  };
}

-- A member event, on which the server presents false keys, and then a sync.
abbrev after_event : Client
after_event = on_event world 2 (member_added chat_id) client

Run-IsPinned_example :
    IsPinned alice_id (pinned alice) true (full_sync world 2 after_event).contacts
Run-IsPinned_example =
    Run-IsPinned alice_id (pinned alice) true world
      (then (live (event 2 (member_added chat_id) client)) (then (sync 2 after_event) (done _)))
      client-IsWrittenThrough client-IsPinned

Run-IsWrittenThrough_example : IsWrittenThrough (full_sync world 2 after_event)
Run-IsWrittenThrough_example =
    Run-IsWrittenThrough world
      (then (live (event 2 (member_added chat_id) client)) (then (sync 2 after_event) (done _)))
      client-IsWrittenThrough

Run-IsPast_example : IsPast chat after_event.conversations
Run-IsPast_example =
    Run-IsPast chat world (then (event 2 (member_added chat_id) client) (done _)) client-IsPast

backfill-Completes_example :
    (let r = backfill world 1 chat_id client in
      (r.0 ≡ ok tt) × Handles world (newer 4 history) client r.1)
backfill-Completes_example =
    backfill-Completes world chat_id history 0 chat client (unfold lookup ◌===◌ in refl)
      (λ n after limit. refl) (omega arith, (omega arith, (omega arith, (omega arith, tt))))
      (unfold filter in omega arith)

client-IsKeyed : IsKeyed client.db
unfolding get_message find ◌===◌
client-IsKeyed = (refl, (refl, tt))

abbrev edit : StoredMessage
edit = record old_text { seq = 6 }

get_message-apply_edit_example :
    Rewrites chat_id edit
      (codes "x")
      (codes "bye")
      client
      (apply_edit chat_id edit (some (codes "x")) (some (codes "bye")) client)
get_message-apply_edit_example =
    get_message-apply_edit chat_id edit (codes "x") (codes "bye") client client-IsKeyed

remove_local_message-Forgets_example :
    (let d = remove_local_message world chat_id 3 client in
      (get_message chat_id 3 d.db ≡ none)
      × (has_seq 3 (lookup chat_id d.loaded or_else []) ≡ false)
      × (get_message chat_id 4 d.db ≡ get_message chat_id 4 client.db))
unfolding ◌===◌
remove_local_message-Forgets_example =
    remove_local_message-Forgets world chat_id 3 client chat_id 4 refl

purge_expired-IsClean_example :
    All
      (λ conv. IsClean client conv (purge_expired client).db.messages)
      (values client.conversations)
purge_expired-IsClean_example = purge_expired-IsClean client

purge_expired-Spares_example : get_message chat_id 4 (purge_expired client).db ≡ some new_text
unfolding is_expired effective_retention ◌===◌ values get_message find
purge_expired-Spares_example = purge_expired-Spares client chat_id 4 new_text (refl, tt) refl

-- Of the two messages of the client, the old one is past the timer of a minute.
spared : (is_spared client chat old_text ≡ false) × (is_spared client chat new_text ≡ true)
unfolding is_expired effective_retention ◌===◌
spared = (refl, refl)
