-- ===== src/Examples/Search.antt =====
-- Runs of the search.
use family_messenger_e2e.Base.{
  ℕ, ◌≡◌, refl, List, true, Text, false, [], ◌∷◌, codes, any, suc, zero,
}
use family_messenger_e2e.Model.Client.{SessionInfo}
use family_messenger_e2e.Search.Matching.{Platform, normalise, highlight, index_of, starts_with}
use family_messenger_e2e.Search.Running.{
  SearchFilter, Search, Answer, search_for, begin, begin_with, Later, listing, ended, typed,
  go_on_all, happen, happen_all,
}
use family_messenger_e2e.Search.Latest.{result, last_listing, go_on_all-happen_all}
use family_messenger_e2e.Examples.Client.{client, me, old_text, new_text}

abbrev plain : Platform
plain = record { trim = λ s. s; to_lower_case = λ s. s; translate = λ k. codes "?" }

abbrev empty : Search
empty = record {
  client = client;
  query = [];
  filter = SearchFilter.all;
  chats = [];
  people = [];
  messages = [];
  busy = false;
  people_unavailable = false;
  run_token = 0;
}

-- Two queries, and what they are answered.
abbrev run : ℕ → Text × Answer
run (suc zero) = (codes "he", record { stored = old_text ∷ []; found = [] })
run _ = (codes "hi", record { stored = old_text ∷ new_text ∷ []; found = [] })

abbrev signed_in : SessionInfo
signed_in = record {
  account_id = me;
  device_id = codes "d";
  username = codes "me";
  token = [];
  is_admin = false;
}

-- The directory refuses the first query when the second has been typed, and then answers that one.
abbrev course : List Later
course = listing true ∷ ended 2 ∷ listing false ∷ ended 1 ∷ []

go_on_all-happen_all_example :
    let t = happen_all plain run (typed (codes "he") ∷ []) empty in
    go_on_all plain run course (search_for plain (codes "hi") t)
    ≡ result plain run signed_in client t.filter
        (last_listing course t.people_unavailable)
        (suc t.run_token)
        (codes "hi")
        (codes "hi")
        (run (suc t.run_token)).1
unfolding any normalise happen_all happen search_for begin begin_with
go_on_all-happen_all_example =
    go_on_all-happen_all plain run signed_in (typed (codes "he") ∷ []) (codes "hi") (codes "i") b'h'
      course empty refl refl refl refl

highlights :
    highlight plain (codes "oh hello") (codes "@he") ≡ (codes "oh ", codes "he", codes "llo")
unfolding highlight normalise index_of starts_with
highlights = refl
