-- ===== src/Search/Running.antt =====
-- Running searches: what is done before the answers are there, and what when they are.
use family_messenger_e2e.Base.{
  ℕ, suc, Text, Bool, true, false, none, some, List, [], ◌∷◌, ◌==◌, if◌then◌else◌,
}
use family_messenger_e2e.Model.Database.{StoredMessage}
use family_messenger_e2e.Model.Client.{Client}
use family_messenger_e2e.Search.Matching.{
  Platform, ChatHit, PersonHit, MessageHit, normalise, match_chats, match_messages,
}

pub data SearchFilter : Type 0 where
  all chats people messages : SearchFilter

pub record Search : Type 0 where
  -- The client's state, which the search only reads.
  pub client : Client
  pub query : Text
  pub filter : SearchFilter
  pub chats : List ChatHit
  pub people : List PersonHit
  pub messages : List MessageHit
  pub busy : Bool
  pub people_unavailable : Bool
  pub run_token : ℕ

-- What a run is answered: all stored messages, and the people that match.
pub record Answer : Type 0 where
  pub stored : List StoredMessage
  pub found : List PersonHit

unfoldable pub reset : Search → Search
reset s = record s {
  run_token = suc s.run_token;
  query = [];
  filter = SearchFilter.all;
  chats = [];
  people = [];
  messages = [];
  busy = false;
}

module _ (p : Platform) where
  -- `run` up to its `await`. Without a session the search of chats throws.
  unfoldable pub begin_with : Text → Search → Search
  begin_with [] s = record s { chats = []; people = []; messages = []; busy = false }
  begin_with (x ∷ q) s = elim s.client.session [
    | none ↦ record s { busy = true }
    | some me ↦ record s { busy = true; chats = match_chats p s.client me.account_id (x ∷ q) }
  ]

  unfoldable pub begin : Search → Search
  unfolding begin_with
  begin s = begin_with (normalise p s.query) (record s { run_token = suc s.run_token })

  -- The rest of `run`, of a run with this token and normalised query: it is dropped where a later
  -- run has begun.
  unfoldable pub finish : ℕ → Text → Answer → Search → Search
  finish token q a s =
      if token == s.run_token
      then elim s.client.session [
        | none ↦ s
        | some me ↦ record s {
          messages = match_messages p s.client me.account_id a.stored q;
          people = a.found;
          busy = false;
        }
      ]
      else s

  -- A query that is typed, and the run that it starts.
  unfoldable pub search_for : Text → Search → Search
  unfolding begin
  search_for q s = begin (record s { query = q })

-- The directory has answered a run, or refused (`matchPeople`). No token is looked at here.
unfoldable pub listing_answered : Bool → Search → Search
listing_answered refused s = record s { people_unavailable = refused }

-- What happens to runs that have begun, in any order: the directory answers one, or one ends. A
-- token stands for one run, with the query that it has normalised.
pub data Later : Type 0 where
  listing : (refused : Bool) → Later
  ended : (token : ℕ) → Later

pub data SearchEvent : Type 0 where
  typed : Text → SearchEvent
  was_reset : SearchEvent
  later : Later → SearchEvent

module _ (p : Platform) (run : ℕ → Text × Answer) where
  unfoldable pub go_on : Later → Search → Search
  unfolding listing_answered finish
  go_on (listing refused) s = listing_answered refused s
  go_on (ended token) s = finish p token (run token).0 (run token).1 s

  unfoldable pub go_on_all : List Later → Search → Search
  unfolding go_on
  go_on_all [] s = s
  go_on_all (l ∷ ls) s = go_on_all ls (go_on l s)

  unfoldable pub happen : SearchEvent → Search → Search
  unfolding search_for reset go_on
  happen (typed q) s = search_for p q s
  happen was_reset s = reset s
  happen (later l) s = go_on l s

  unfoldable pub happen_all : List SearchEvent → Search → Search
  unfolding happen
  happen_all [] s = s
  happen_all (e ∷ es) s = happen_all es (happen e s)
