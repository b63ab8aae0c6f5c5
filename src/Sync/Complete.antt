-- ===== src/Sync/Complete.antt =====
-- A backfill against a server that pages through its history in order.
use family_messenger_e2e.Base.{
  ℕ, zero, suc, ◌*◌, ◌≡◌, ◌≤◌, ◌<◌, refl, sym, ap, subst, ◌∙◌, Text, true, false, some, List, [],
  ◌∷◌, ◌++◌, arith, max, ltb, length, take, drop, filter, length-drop, take-append-drop, take_all,
  ltb→lt, Bool-cases, inl, inr,
}
use family_messenger_e2e.Base.Dict.{lookup}
use family_messenger_e2e.Base.Outcome.{ok}
use family_messenger_e2e.Model.Payload.{MessageView, Page}
use family_messenger_e2e.Model.Database.{Conversation}
use family_messenger_e2e.Model.Client.{Client, World}
use family_messenger_e2e.Model.Task.{counted}
use family_messenger_e2e.Sync.Incoming.{handle_incoming}
use family_messenger_e2e.Sync.Backfill.{
  page_limit, reached, handle_all, fetch_page, backfill_from, backfill, start_of,
}

-- Sequence numbers go up, from above `a`.
abbrev pub IsAscending : ℕ → List MessageView → Type 0
IsAscending a [] = Unit
IsAscending a (m ∷ views) = (a < m.seq) × IsAscending m.seq views

abbrev pub newer : ℕ → List MessageView → List MessageView
newer after = filter (λ (m : MessageView). ltb after m.seq)

-- The documented answer: the entries after a number, as many as fit a page.
abbrev pub page_of : List MessageView → ℕ → ℕ → Page
page_of history after limit = record {
  messages = take limit (newer after history);
  has_more = ltb limit (length (newer after history));
}

abbrev pub Serves : World → Text → List MessageView → Type 0
Serves w id history =
    (n after limit : ℕ) → w.page n id after limit ≡ some (page_of history after limit)

-- These views, each once and in this order, are handled on the way from one state to the other, with
-- requests in between.
pub data Handles (w : World) : List MessageView → Client → Client → Type 0 where
  none_left : (c : Client) → Handles w [] c c
  asked :
      {views : List MessageView} {c d : Client}
      → Handles w views (counted c) d
      → Handles w views c d
  handled :
      {m : MessageView} {views : List MessageView} {c d : Client}
      → Handles w views (handle_incoming w m true c) d
      → Handles w (m ∷ views) c d

reached_ge : (a : ℕ) (views : List MessageView) → a ≤ reached a views
unfolding reached
reached_ge a [] = omega arith
reached_ge a (m ∷ views) = omega (arith, reached_ge (max a m.seq) views)

newer_all :
    (a b : ℕ) (views : List MessageView) → IsAscending a views → b ≤ a → newer b views ≡ views
unfolding filter
newer_all a b [] h k = refl
newer_all a b (m ∷ views) h k =
    ground (arith, newer_all m.seq b views h.1 (omega (arith, h.0)), h.0)

newer-newer : (a b : ℕ) (views : List MessageView) → a ≤ b → newer b (newer a views) ≡ newer b views
unfolding filter
newer-newer a b [] h = refl
newer-newer a b (m ∷ views) h = ground (arith, newer-newer a b views h)

newer-IsAscending :
    (a b : ℕ) (views : List MessageView)
    → IsAscending a views
    → IsAscending (max a b) (newer b views)
unfolding filter
newer-IsAscending a b [] h = tt
newer-IsAscending a b (m ∷ views) h =
    let rest = newer-IsAscending m.seq b views h.1 in
    elim (Bool-cases (ltb b m.seq)) [
      | inl t ↦
          rw (t, filter)
            (
              omega (arith, h.0, ltb→lt b m.seq t),
              subst (λ x. IsAscending x (newer b views)) (omega (arith, ltb→lt b m.seq t)) rest,
            )
      | inr t ↦
          let below : m.seq ≤ b = ground (arith, t) in
          rw (t, filter)
            (subst (λ x. IsAscending x (newer b views))
              (let e : max m.seq b ≡ max a b = omega (arith, below, h.0) in e) rest)
    ]

-- After a page comes what the page left over.
newer-reached :
    (n a : ℕ) (views : List MessageView)
    → IsAscending a views
    → newer (reached a (take n views)) views ≡ drop n views
unfolding reached filter
newer-reached zero a views h = newer_all a a views h (omega arith)
newer-reached (suc n) a [] h = refl
newer-reached (suc n) a (m ∷ views) h =
    let from : max a m.seq ≡ m.seq = omega (arith, h.0) in
    let above = reached_ge m.seq (take n views) in
    let r = reached m.seq (take n views) in
    let go : newer r (m ∷ views) ≡ drop n views =
      ground (arith, above, newer-reached n m.seq views h.1) in
    ap (λ x. newer (reached x (take n views)) (m ∷ views)) from ∙ go

append-Handles :
    (w : World) (views rest : List MessageView) (c d : Client)
    → Handles w rest (handle_all w views c) d
    → Handles w (views ++ rest) c d
unfolding handle_all
append-Handles w [] rest c d h = h
append-Handles w (m ∷ views) rest c d h = handled (append-Handles w views rest _ d h)

Handles-all :
    (w : World) (views : List MessageView) (c : Client) → Handles w views c (handle_all w views c)
unfolding handle_all
Handles-all w [] c = none_left c
Handles-all w (m ∷ views) c = handled (Handles-all w views _)

module _ (w : World) (id : Text) (history : List MessageView) where
  -- What a backfill does with what is missing.
  abbrev Completes : ℕ → ℕ → Client → Type 0
  Completes fuel after c =
      let r = backfill_from w fuel id after c in
      (r.0 ≡ ok tt) × Handles w (newer after history) c r.1

  missing_after :
      (after : ℕ)
      → IsAscending 0 history
      → newer (reached after (take page_limit (newer after history))) history
        ≡ drop page_limit (newer after history)
  missing_after after h =
      let views = newer after history in
      let next = reached after (take page_limit views) in
      sym (newer-newer after next history (reached_ge after (take page_limit views)))
      ∙ newer-reached page_limit after views
          (subst (λ x. IsAscending x views) (omega arith) (newer-IsAscending 0 after history h))

  -- One request answers with everything that is missing.
  last_page :
      (fuel after : ℕ) (c : Client)
      → Serves w id history
      → ltb page_limit (length (newer after history)) ≡ false
      → Completes (suc fuel) after c
  unfolding backfill_from fetch_page
  last_page fuel after c serves t =
      let views = newer after history in
      rw (serves c.requests after page_limit, t, backfill_from, fetch_page)
        (
          refl,
          asked (
              subst
                (λ x. Handles w x (counted c) (handle_all w (take page_limit views) (counted c)))
                (take_all page_limit views (ground (arith, t)))
                (Handles-all w (take page_limit views) (counted c))),
        )

  -- One request, and then the rest.
  next_page :
      (fuel after : ℕ) (c : Client)
      → Serves w id history
      → IsAscending 0 history
      → ltb page_limit (length (newer after history)) ≡ true
      → (let views = take page_limit (newer after history) in
          Completes fuel (reached after views) (handle_all w views (counted c)))
      → Completes (suc fuel) after c
  unfolding backfill_from fetch_page
  next_page fuel after c serves h t rest =
      let views = newer after history in
      let page = take page_limit views in
      let d = handle_all w page (counted c) in
      let end = (backfill_from w fuel id (reached after page) d).1 in
      let tail = subst (λ x. Handles w x d end) (missing_after after h) rest.1 in
      let all = append-Handles w page (drop page_limit views) (counted c) end tail in
      rw (serves c.requests after page_limit, t, backfill_from, fetch_page)
        (
          rest.0,
          asked (subst (λ x. Handles w x (counted c) end) (take-append-drop page_limit views) all),
        )

  -- A server that answers in pages of its ascending history is read to its end: `k` requests are
  -- enough for `k * 200` missing entries, and these are handled once each, in the server's order.
  pub backfill_from-Completes :
      (k after : ℕ) (c : Client)
      → Serves w id history
      → IsAscending 0 history
      → length (newer after history) ≤ suc k * page_limit
      → Completes (suc k) after c
  backfill_from-Completes zero after c serves h enough =
      last_page zero after c serves (ground (arith, enough))
  backfill_from-Completes (suc j) after c serves h enough =
      let views = newer after history in
      elim (Bool-cases (ltb page_limit (length views))) [
        | inl t ↦ next_page (suc j) after c serves h t (
            backfill_from-Completes j (reached after (take page_limit views)) _ serves h
              (rw (missing_after after h) (omega (arith, length-drop page_limit views, enough))))
        | inr t ↦ last_page (suc j) after c serves t
      ]

  -- Against a server that answers in pages of its ascending history, a backfill of a known
  -- conversation ends well with `suc k` requests if at most `suc k` pages of 200 are missing after
  -- the synced cursor, and on the way handles exactly the missing entries, once each and in order.
  pub backfill-Completes :
      (k : ℕ) (conv : Conversation) (c : Client)
      → lookup id c.conversations ≡ some conv
      → Serves w id history
      → IsAscending 0 history
      → length (newer (start_of conv) history) ≤ suc k * page_limit
      → (let r = backfill w (suc k) id c in
          (r.0 ≡ ok tt) × Handles w (newer (start_of conv) history) c r.1)
  unfolding backfill
  backfill-Completes k conv c e serves h enough =
      rw (e, backfill) (backfill_from-Completes k (start_of conv) c serves h enough)
