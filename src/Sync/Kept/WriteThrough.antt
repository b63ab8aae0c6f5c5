-- ===== src/Sync/Kept/WriteThrough.antt =====
-- Contacts and conversations in memory and in the database.
use family_messenger_e2e.Base.{◌≡◌, refl, sym, ap, ◌∙◌, Text, Bool, Option, Option-cases, inl, inr}
use family_messenger_e2e.Base.Dict.{lookup, insert}
use family_messenger_e2e.Model.Database.{
  PublicKeys, Contact, Conversation, put_contact, put_conversation,
}
use family_messenger_e2e.Model.Client.{
  Client, World, save_contact, set_contact, persist_conversation, set_conversation,
}
use family_messenger_e2e.Sync.Contacts.{observe_keys, observe_known, keys_equal, pinned}
use family_messenger_e2e.Sync.Events.{load_local_state}
use family_messenger_e2e.Sync.Steps.{SyncStep, Run}
use family_messenger_e2e.Sync.Kept.{IsSameBook, IsKeptByAll}
use family_messenger_e2e.Sync.Kept.Observed.{either_branch}
use family_messenger_e2e.Sync.Kept.Runs.{run-Kept, step-Kept}

pub record IsWrittenThrough (c : Client) : Type 0 where
  pub contacts : c.db.contacts ≡ c.contacts
  pub conversations : c.db.conversations ≡ c.conversations

save_contact-WrittenThrough :
    (v : Contact) (c : Client) → IsWrittenThrough c → IsWrittenThrough (save_contact v c)
unfolding save_contact set_contact put_contact
save_contact-WrittenThrough v c h = record {
  contacts = ap (insert v.id v) h.contacts;
  conversations = h.conversations;
}

persisted :
    (v : Conversation) (c : Client)
    → IsWrittenThrough c
    → IsWrittenThrough (persist_conversation v c)
unfolding persist_conversation set_conversation put_conversation
persisted v c h = record {
  contacts = h.contacts;
  conversations = ap (insert v.id v) h.conversations;
}

observe_keys-WrittenThrough :
    (id username : Text) (keys : PublicKeys) (bot : Option Bool) (shown : Option Text) (c : Client)
    → IsWrittenThrough c
    → IsWrittenThrough (observe_keys id username keys bot shown c)
unfolding observe_keys observe_known
observe_keys-WrittenThrough id username keys bot shown c h =
    elim (Option-cases (lookup id c.contacts)) [
      | inl e ↦ rw (e, observe_keys) (save_contact-WrittenThrough _ c h)
      | inr (existing, e) ↦
          rw (e, observe_keys)
            (either_branch IsWrittenThrough (keys_equal (pinned existing) keys)
              (either_branch IsWrittenThrough _ h (save_contact-WrittenThrough _ c h))
              (either_branch IsWrittenThrough _ h (save_contact-WrittenThrough _ c h)))
    ]

pub IsWrittenThrough-IsKeptByAll : IsKeptByAll IsWrittenThrough
IsWrittenThrough-IsKeptByAll = record {
  is_kept = record {
    elsewhere = λ c d s h. record {
      contacts = s.stored_contacts ∙ h.contacts ∙ sym s.contacts;
      conversations = s.stored_conversations ∙ h.conversations ∙ sym s.conversations;
    };
    observed = observe_keys-WrittenThrough;
    extended = λ id conv next c e g h. persisted next c h;
    opened = λ conv c e h. persisted conv c h;
  };
  overwritten = persisted;
}

-- Read back from disk, the book is the one in memory.
pub load_local_state-IsSameBook :
    (c : Client) → IsWrittenThrough c → IsSameBook c (load_local_state c)
unfolding load_local_state
load_local_state-IsSameBook c h = record {
  contacts = h.contacts;
  conversations = h.conversations;
  stored_contacts = refl;
  stored_conversations = refl;
}

-- However the sync engine runs, the contacts and conversations in memory are those of the database,
-- if they were at the start.
pub Run-IsWrittenThrough :
    (w : World) {c d : Client} → Run (SyncStep w) c d → IsWrittenThrough c → IsWrittenThrough d
Run-IsWrittenThrough w r h =
    run-Kept (SyncStep w) IsWrittenThrough
      (λ c d s k.
        step-Kept w IsWrittenThrough IsWrittenThrough-IsKeptByAll load_local_state-IsSameBook s k)
      r h
