-- ===== src/Sync/Kept/Pins.antt =====
-- The pinned keys of contacts over runs of the sync engine.
use family_messenger_e2e.Base.{
  ◌≡◌, refl, sym, ap, subst, ◌∙◌, Text, Bool, Option, none, some, Option-cases, Bool-cases, inl,
  inr, arith, ◌===◌, ===_iff,
}
use family_messenger_e2e.Base.Dict.{Dict, lookup, insert, lookup-insert}
use family_messenger_e2e.Model.Database.{PublicKeys, Contact}
use family_messenger_e2e.Model.Client.{
  Client, World, save_contact, set_contact, persist_conversation, set_conversation,
}
use family_messenger_e2e.Sync.Contacts.{observe_keys, observe_known, keys_equal, pinned}
use family_messenger_e2e.Sync.Steps.{SyncStep, Run}
use family_messenger_e2e.Sync.Kept.{IsKeptByAll}
use family_messenger_e2e.Sync.Kept.Observed.{either_branch}
use family_messenger_e2e.Sync.Kept.Runs.{run-Kept, step-Kept}
use family_messenger_e2e.Sync.Kept.WriteThrough.{
  IsWrittenThrough, IsWrittenThrough-IsKeptByAll, load_local_state-IsSameBook,
}

-- Contacts stand under their own ids, and the one with this id has these keys and this mark.
pub record IsPinned (id : Text) (keys : PublicKeys) (verified : Bool) (contacts : Dict Contact)
    : Type 0 where
  pub names : (j : Text) (k : Contact) → lookup j contacts ≡ some k → k.id ≡ j
  pub contact : Contact
  pub found : lookup id contacts ≡ some contact
  pub same_keys : pinned contact ≡ keys
  pub same_mark : contact.verified ≡ verified

module _ (id : Text) (keys : PublicKeys) (verified : Bool) where
  -- A contact with the keys and mark of the one it replaces, or one that is new.
  names-insert :
      (v : Contact) (m : Dict Contact)
      → ((j : Text) (k : Contact) → lookup j m ≡ some k → k.id ≡ j)
      → (j : Text) (k : Contact) → lookup j (insert v.id v m) ≡ some k
      → k.id ≡ j
  names-insert v m names j k e = ground (arith, lookup-insert v.id j v m, ===_iff v.id j, names j k)

  replaced :
      (j : Text) (old v : Contact) (m : Dict Contact)
      → lookup j m ≡ some old
      → v.id ≡ old.id
      → pinned v ≡ pinned old
      → v.verified ≡ old.verified
      → IsPinned id keys verified m
      → IsPinned id keys verified (insert v.id v m)
  replaced j old v m e own same mark p = elim (Bool-cases (v.id === id)) [
    | inl t ↦
        let i : v.id ≡ id = (===_iff v.id id).0 t in
        let at : j ≡ id = sym (p.names j old e) ∙ sym own ∙ i in
        let o : old ≡ p.contact = cc (e, p.found, at) in
        record {
          names = names-insert v m p.names;
          contact = v;
          found = ground (arith, lookup-insert v.id id v m, t);
          same_keys = same ∙ ap pinned o ∙ p.same_keys;
          same_mark = mark ∙ ap (λ (x : Contact). x.verified) o ∙ p.same_mark;
        }
    | inr t ↦ record {
      names = names-insert v m p.names;
      contact = p.contact;
      found = ground (arith, lookup-insert v.id id v m, t, p.found);
      same_keys = p.same_keys;
      same_mark = p.same_mark;
    }
  ]

  added :
      (v : Contact) (m : Dict Contact)
      → lookup v.id m ≡ none
      → IsPinned id keys verified m
      → IsPinned id keys verified (insert v.id v m)
  added v m e p = record {
    names = names-insert v m p.names;
    contact = p.contact;
    found = ground (arith, lookup-insert v.id id v m, ===_iff v.id id, e, p.found);
    same_keys = p.same_keys;
    same_mark = p.same_mark;
  }

  abbrev HasPins : Client → Type 0
  HasPins d = IsPinned id keys verified d.contacts

  observe_keys-IsPinned :
      (j username : Text) (seen : PublicKeys) (bot : Option Bool) (shown : Option Text) (c : Client)
      → IsPinned id keys verified c.contacts
      → IsPinned id keys verified (observe_keys j username seen bot shown c).contacts
  unfolding observe_keys observe_known save_contact set_contact
  observe_keys-IsPinned j username seen bot shown c h = elim (Option-cases (lookup j c.contacts)) [
    | inl e ↦ rw (e, observe_keys) (added _ c.contacts e h)
    | inr (old, e) ↦
        rw (e, observe_keys)
          (either_branch HasPins (keys_equal (pinned old) seen)
            (either_branch HasPins _ h (replaced j old _ c.contacts e refl refl refl h))
            (either_branch HasPins _ h (replaced j old _ c.contacts e refl refl refl h)))
  ]

  abbrev pub Keeps : Client → Type 0
  Keeps c = IsWrittenThrough c × IsPinned id keys verified c.contacts

  Keeps-IsKeptByAll : IsKeptByAll Keeps
  unfolding persist_conversation set_conversation
  Keeps-IsKeptByAll =
      let all = IsWrittenThrough-IsKeptByAll in
      record {
        is_kept = record {
          elsewhere = λ c d s h. (
            all.is_kept.elsewhere c d s h.0,
            subst (IsPinned id keys verified) (sym s.contacts) h.1,
          );
          observed = λ j username seen bot shown c h. (
            all.is_kept.observed j username seen bot shown c h.0,
            observe_keys-IsPinned j username seen bot shown c h.1,
          );
          extended = λ j conv next c e g h. (all.is_kept.extended j conv next c e g h.0, h.1);
          opened = λ conv c e h. (all.is_kept.opened conv c e h.0, h.1);
        };
        overwritten = λ conv c h. (all.overwritten conv c h.0, h.1);
      }

  -- However the sync engine runs, and whatever keys the server and other members present, a contact
  -- keeps the keys it is pinned to and its verified mark. The database is assumed to agree with
  -- memory at the start, and contacts to stand under their own ids; accepting new keys is an act of
  -- the user and no step of the run.
  pub Run-IsPinned :
      (w : World) {c d : Client}
      → Run (SyncStep w) c d
      → IsWrittenThrough c
      → IsPinned id keys verified c.contacts
      → IsPinned id keys verified d.contacts
  Run-IsPinned w r h p =
      (run-Kept (SyncStep w) Keeps
        (λ c d s k.
          step-Kept w Keeps Keeps-IsKeptByAll (λ e q. load_local_state-IsSameBook e q.0) s k)
        r (h, p)).1
