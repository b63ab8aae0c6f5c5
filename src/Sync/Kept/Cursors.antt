-- ===== src/Sync/Kept/Cursors.antt =====
-- The cursors of a conversation: what has been synced, what exists and what has been read.
use family_messenger_e2e.Base.{
  ◌≡◌, sym, subst, ◌∙◌, Text, none, some, Bool-cases, inl, inr, arith, ◌===◌, ===_iff,
}
use family_messenger_e2e.Base.Dict.{Dict, lookup, insert, lookup-insert}
use family_messenger_e2e.Model.Database.{Conversation}
use family_messenger_e2e.Model.Client.{Client, World, persist_conversation, set_conversation}
use family_messenger_e2e.Sync.Steps.{LiveStep, Run}
use family_messenger_e2e.Sync.Kept.{Grows, IsKept}
use family_messenger_e2e.Sync.Kept.Observed.{conversations-observe_keys}
use family_messenger_e2e.Sync.Kept.Stored.{Grows-trans}
use family_messenger_e2e.Sync.Kept.Runs.{run-Kept, live_step-Kept}

-- Conversations stand under their own ids.
abbrev pub HasOwnIds : Dict Conversation → Type 0
HasOwnIds m = (j : Text) (v : Conversation) → lookup j m ≡ some v → v.id ≡ j

-- The entry that `old` has become.
pub record IsPast (old : Conversation) (m : Dict Conversation) : Type 0 where
  pub names : HasOwnIds m
  pub now : Conversation
  pub found : lookup old.id m ≡ some now
  pub grows : Grows old now

module _ (old : Conversation) where
  insert-HasOwnIds :
      (v : Conversation) (m : Dict Conversation) → HasOwnIds m → HasOwnIds (insert v.id v m)
  insert-HasOwnIds v m names j k e =
      ground (arith, lookup-insert v.id j v m, ===_iff v.id j, names j k)

  extended :
      (j : Text) (conv next : Conversation) (m : Dict Conversation)
      → lookup j m ≡ some conv
      → Grows conv next
      → IsPast old m
      → IsPast old (insert next.id next m)
  extended j conv next m e g p = elim (Bool-cases (next.id === old.id)) [
    | inl t ↦
        let i : next.id ≡ old.id = (===_iff next.id old.id).0 t in
        let at : j ≡ old.id = sym (p.names j conv e) ∙ sym g.id ∙ i in
        let o : conv ≡ p.now = cc (e, p.found, at) in
        record {
          names = insert-HasOwnIds next m p.names;
          now = next;
          found = ground (arith, lookup-insert next.id old.id next m, t);
          grows = Grows-trans p.grows (subst (λ x. Grows x next) o g);
        }
    | inr t ↦ record {
      names = insert-HasOwnIds next m p.names;
      now = p.now;
      found = ground (arith, lookup-insert next.id old.id next m, t, p.found);
      grows = p.grows;
    }
  ]

  added :
      (v : Conversation) (m : Dict Conversation)
      → lookup v.id m ≡ none
      → IsPast old m
      → IsPast old (insert v.id v m)
  added v m e p = record {
    names = insert-HasOwnIds v m p.names;
    now = p.now;
    found = ground (arith, lookup-insert v.id old.id v m, ===_iff v.id old.id, e, p.found);
    grows = p.grows;
  }

  abbrev pub HasPast : Client → Type 0
  HasPast c = IsPast old c.conversations

  HasPast-IsKept : IsKept HasPast
  unfolding persist_conversation set_conversation
  HasPast-IsKept = record {
    elsewhere = λ c d s h. subst (IsPast old) (sym s.conversations) h;
    observed = λ id username keys bot shown c h.
        subst (IsPast old) (sym (conversations-observe_keys id username keys bot shown c)) h;
    extended = λ j conv next c e g h. extended j conv next c.conversations e g h;
    opened = λ conv c e h. added conv c.conversations e h;
  }

  -- However live frames, signals, events, refreshes and backfills follow each other, a conversation
  -- stays known, and its synced, last and read cursors never go back, where
  -- conversations stand under their own ids at the start.
  pub Run-IsPast :
      (w : World) {c d : Client}
      → Run (LiveStep w) c d
      → IsPast old c.conversations
      → IsPast old d.conversations
  Run-IsPast w r h =
      run-Kept (LiveStep w) HasPast (λ c d s k. live_step-Kept w HasPast HasPast-IsKept s k) r h
