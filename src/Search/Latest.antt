-- ===== src/Search/Latest.antt =====
-- Runs of the search that overlap: web/src/state/search.ts.
use family_messenger_e2e.Base.{
  ℕ, suc, ◌≡◌, refl, ap, ◌∙◌, Text, Bool, true, false, Option, none, some, List, [], ◌∷◌, any, inl,
  inr, Bool-cases, ◌==◌, ==_iff, arith, if◌then◌else◌,
}
use family_messenger_e2e.Model.Client.{Client, SessionInfo}
use family_messenger_e2e.Search.Matching.{Platform, normalise, match_chats, match_messages}
use family_messenger_e2e.Search.Running.{
  SearchFilter, Search, Answer, begin_with, begin, finish, search_for, reset, listing_answered,
  Later, listing, ended, SearchEvent, typed, was_reset, later, go_on, go_on_all, happen, happen_all,
}

some-injective : {a b : SessionInfo} → some a ≡ some b → a ≡ b
some-injective h = cc

-- What is done with a session that is there.
of_session :
    (o : Option SessionInfo) (s : Search) (f : SessionInfo → Search) (me : SessionInfo)
    → o ≡ some me
    → (elim o as (λ y. Search) [ none ↦ s | some m ↦ f m ]) ≡ f me
of_session none s f me h = cc
of_session (some m) s f me h = ap f (some-injective h)

on_true : (b : Bool) (x y : Search) → b ≡ true → (if b then x else y) ≡ x
on_true true x y h = refl
on_true false x y h = cc

on_false : (b : Bool) (x y : Search) → b ≡ false → (if b then x else y) ≡ y
on_false true x y h = cc
on_false false x y h = refl

client_either :
    (o : Option SessionInfo) (s : Search) (f : SessionInfo → Search) (c : Client)
    → s.client ≡ c
    → ((me : SessionInfo) → (f me).client ≡ c)
    → (elim o as (λ y. Search) [ none ↦ s | some m ↦ f m ]).client ≡ c
client_either none s f c h k = h
client_either (some m) s f c h k = k m

module _ (p : Platform) where
  -- The end of a run that was overtaken changes nothing.
  finish_late :
      (token : ℕ) (q : Text) (a : Answer) (s : Search)
      → (token == s.run_token) ≡ false
      → finish p token q a s ≡ s
  unfolding finish
  finish_late token q a s h = on_false (token == s.run_token) _ s h

  finish_now :
      (token : ℕ) (q : Text) (a : Answer) (s : Search) (me : SessionInfo)
      → (token == s.run_token) ≡ true
      → s.client.session ≡ some me
      → finish p token q a s ≡ record s {
        messages = match_messages p s.client me.account_id a.stored q;
        people = a.found;
        busy = false;
      }
  unfolding finish
  finish_now token q a s me same h =
      on_true (token == s.run_token) _ s same ∙ of_session s.client.session s _ me h

  finish-client :
      (token : ℕ) (q : Text) (a : Answer) (s : Search) → (finish p token q a s).client ≡ s.client
  unfolding finish
  finish-client token q a s = elim (Bool-cases (token == s.run_token)) [
    | inl e ↦
        ap (λ (x : Search). x.client) (on_true (token == s.run_token) _ s e)
        ∙ client_either s.client.session s _ s.client refl (λ me. refl)
    | inr e ↦ ap (λ (x : Search). x.client) (finish_late token q a s e)
  ]

  begin_with-client : (q : Text) (s : Search) → (begin_with p q s).client ≡ s.client
  unfolding begin_with
  begin_with-client [] s = refl
  begin_with-client (x ∷ q) s =
      client_either s.client.session (record s { busy = true }) _ s.client refl (λ me. refl)

  search_for_value :
      (q r : Text) (x : ℕ) (t : Search) (me : SessionInfo)
      → t.client.session ≡ some me
      → normalise p q ≡ x ∷ r
      → search_for p q t ≡ record t {
        query = q;
        run_token = suc t.run_token;
        busy = true;
        chats = match_chats p t.client me.account_id (x ∷ r);
      }
  unfolding search_for begin begin_with
  search_for_value q r x t me h e =
      let t' = record t { query = q; run_token = suc t.run_token } in
      ap (λ k. begin_with p k t') e ∙ of_session t.client.session _ _ me h

-- What the directory said last.
abbrev pub last_listing : List Later → Bool → Bool
last_listing [] refused = refused
last_listing (listing b ∷ ls) refused = last_listing ls b
last_listing (ended token ∷ ls) refused = last_listing ls refused

abbrev pub is_end : ℕ → Later → Bool
is_end token (listing b) = false
is_end token (ended t) = t == token

module _ (p : Platform) (run : ℕ → Text × Answer) (me : SessionInfo) where
  -- A state whose current run has ended.
  abbrev done : Search → Bool → Search
  done s refused = record s {
    messages =
        match_messages p s.client me.account_id (run s.run_token).1.stored (run s.run_token).0;
    people = (run s.run_token).1.found;
    busy = false;
    people_unavailable = refused;
  }

  finish_mine :
      (t : ℕ) (s : Search)
      → s.client.session ≡ some me
      → (t == s.run_token) ≡ true
      → finish p t (run t).0 (run t).1 s ≡ done s s.people_unavailable
  finish_mine t s h e =
      let same_run = (==_iff s.run_token s.run_token).1 refl in
      ap (λ k. finish p k (run k).0 (run k).1 s) ((==_iff t s.run_token).0 e)
      ∙ finish_now p s.run_token (run s.run_token).0 (run s.run_token).1 s me same_run h

  -- What comes after the current run's end changes nothing but the word of the directory.
  go_on_all-done :
      (ls : List Later) (s : Search) (refused : Bool)
      → s.client.session ≡ some me
      → go_on_all p run ls (done s refused) ≡ done s (last_listing ls refused)
  unfolding go_on_all go_on listing_answered
  go_on_all-done [] s refused h = refl
  go_on_all-done (listing b ∷ ls) s refused h = go_on_all-done ls s b h
  go_on_all-done (ended t ∷ ls) s refused h =
      let one : finish p t (run t).0 (run t).1 (done s refused) ≡ done s refused =
        elim (Bool-cases (t == s.run_token)) [
          | inl e ↦ finish_mine t (done s refused) h e
          | inr e ↦ finish_late p t (run t).0 (run t).1 (done s refused) e
        ] in
      ap (go_on_all p run ls) one ∙ go_on_all-done ls s refused h

  go_on_all-current :
      (ls : List Later) (s : Search)
      → s.client.session ≡ some me
      → any (is_end s.run_token) ls ≡ true
      → go_on_all p run ls s ≡ done s (last_listing ls s.people_unavailable)
  unfolding go_on_all go_on listing_answered any
  go_on_all-current [] s h member = cc
  go_on_all-current (listing b ∷ ls) s h member =
      go_on_all-current ls (record s { people_unavailable = b }) h member
  go_on_all-current (ended t ∷ ls) s h member = elim (Bool-cases (t == s.run_token)) [
    | inl e ↦
        ap (go_on_all p run ls) (finish_mine t s h e) ∙ go_on_all-done ls s s.people_unavailable h
    | inr e ↦
        ap (go_on_all p run ls) (finish_late p t (run t).0 (run t).1 s e)
        ∙ go_on_all-current ls s h (ground (arith, member, e))
  ]

  happen-client : (e : SearchEvent) (s : Search) → (happen p run e s).client ≡ s.client
  unfolding happen search_for begin reset go_on listing_answered
  happen-client (typed q) s = begin_with-client p (normalise p q) _
  happen-client was_reset s = refl
  happen-client (later (listing b)) s = refl
  happen-client (later (ended t)) s = finish-client p t (run t).0 (run t).1 s

  happen_all-client :
      (es : List SearchEvent) (s : Search) → (happen_all p run es s).client ≡ s.client
  unfolding happen_all
  happen_all-client [] s = refl
  happen_all-client (e ∷ es) s = happen_all-client es (happen p run e s) ∙ happen-client e s

  -- The state that one search makes, written out.
  abbrev pub result : Client → SearchFilter → Bool → ℕ → Text → Text → Answer → Search
  result client filter refused token typed_in q a = record {
    client = client;
    query = typed_in;
    filter = filter;
    chats = match_chats p client me.account_id q;
    people = a.found;
    messages = match_messages p client me.account_id a.stored q;
    busy = false;
    people_unavailable = refused;
    run_token = token;
  }

  -- However queries are typed, searches are reset, the directory answers and runs end, in any order,
  -- and then one more query is typed, and no other: once its run has ended, whatever else the
  -- directory answered and whatever other runs ended before and after that, the query, the three
  -- lists and the busy mark are what that query and its answers alone make, the filter is as it was,
  -- and the people are marked unavailable as the directory's last answer, to whichever run, said.
  -- The last query is not empty, somebody is signed in, and its run ends with the query that it
  -- began with.
  pub go_on_all-happen_all :
      (es : List SearchEvent) (q r : Text) (x : ℕ) (ls : List Later) (s : Search)
      → s.client.session ≡ some me
      → normalise p q ≡ x ∷ r
      → (run (suc (happen_all p run es s).run_token)).0 ≡ x ∷ r
      → any (is_end (suc (happen_all p run es s).run_token)) ls ≡ true
      → let t = happen_all p run es s in
        go_on_all p run ls (search_for p q t)
        ≡ result s.client t.filter
            (last_listing ls t.people_unavailable)
            (suc t.run_token)
            q
            (x ∷ r)
            (run (suc t.run_token)).1
  go_on_all-happen_all es q r x ls s h e mine member =
      let t = happen_all p run es s in
      let same = happen_all-client es s in
      let there : t.client.session ≡ some me = ap (λ (d : Client). d.session) same ∙ h in
      let u = record t {
        query = q;
        run_token = suc t.run_token;
        busy = true;
        chats = match_chats p t.client me.account_id (x ∷ r);
      } in
      let at : Client → Text → Search = λ c k. record {
        client = c;
        query = q;
        filter = t.filter;
        chats = match_chats p c me.account_id (x ∷ r);
        people = (run (suc t.run_token)).1.found;
        messages = match_messages p c me.account_id (run (suc t.run_token)).1.stored k;
        busy = false;
        people_unavailable = last_listing ls t.people_unavailable;
        run_token = suc t.run_token;
      } in
      ap (go_on_all p run ls) (search_for_value p q r x t me there e)
      ∙ go_on_all-current ls u there member
      ∙ ap (at t.client) mine
      ∙ ap (λ c. at c (x ∷ r)) same
