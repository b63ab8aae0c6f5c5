-- ===== src/Session/App.antt =====
-- The client together with its socket, its token and the store of settings: establishing a session,
-- restoring it when the page is loaded, and ending it; startSync and stopSync of
-- web/src/state/sync.ts.
use family_messenger_e2e.Base.{
  ℕ, suc, Text, Bool, true, false, not, Option, none, some, List, [], ◌∷◌, ◌++◌, if◌then◌else◌,
}
use family_messenger_e2e.Base.Outcome.{Outcome, ok, err}
use family_messenger_e2e.Base.{codes}
use family_messenger_e2e.Crypto.Bytes.{Bytes}
use family_messenger_e2e.Crypto.Primitives.{Library}
use family_messenger_e2e.Crypto.Account.{AccountKeys, keys_from_secrets}
use family_messenger_e2e.Model.Database.{Database}
use family_messenger_e2e.Model.Client.{Client, SessionInfo}
use family_messenger_e2e.Model.Views.{reset_state}
use family_messenger_e2e.Sync.Events.{load_local_state}
use family_messenger_e2e.Ws.Connection.{WsClient, connect, close, on, off}
use family_messenger_e2e.Session.Credentials.{ApiSession}

-- What is kept of the keys in the store of settings.
pub record StoredKeys : Type 0 where
  pub sign_seed : Bytes
  pub enc_priv : Bytes

pub record Visibility : Type 0 where
  pub find_me_in_search : Bool
  pub show_online : Bool
  pub allow_group_add : Bool

pub record App : Type 0 where
  pub client : Client
  pub ws : WsClient
  -- The subscriptions that stopSync takes back, and how many handlers were made.
  pub unsubscribers : List (Text × ℕ)
  pub made : ℕ
  pub purge_timer : Bool
  -- The token of web/src/api/http.ts.
  pub token : Option Text
  -- The entries 'session' and 'keys' of the object store meta.
  pub meta_session : Option SessionInfo
  pub meta_keys : Option StoredKeys
  pub booting : Bool
  pub server_version : Text
  pub visibility : Option Visibility

abbrev pub empty_database : Database
empty_database = record { contacts = []; conversations = []; messages = [] }

unfoldable pub clear_all : App → App
clear_all a = record a {
  client = record (a.client) { db = empty_database };
  meta_session = none;
  meta_keys = none;
}

unfoldable pub unsubscribe_all : List (Text × ℕ) → WsClient → WsClient
unsubscribe_all [] ws = ws
unsubscribe_all ((type, h) ∷ subscriptions) ws = unsubscribe_all subscriptions (off type h ws)

unfoldable pub stop_sync : App → App
unfolding unsubscribe_all close
stop_sync a = record a {
  ws = close (unsubscribe_all a.unsubscribers a.ws);
  unsubscribers = [];
  purge_timer = false;
}

-- One handler more, which is a function of its own.
unfoldable pub subscribe : Text → App → App
unfolding on
subscribe type a = record a {
  ws = on type (suc a.made) a.ws;
  unsubscribers = a.unsubscribers ++ (type, suc a.made) ∷ [];
  made = suc a.made;
}

unfoldable pub begin_sync : Text → App → App
unfolding stop_sync subscribe connect
begin_sync token a =
    let heard = subscribe (codes "event") (
      subscribe (codes "signal")
        (subscribe (codes "message") (subscribe (codes "hello") (stop_sync a)))) in
    record heard { ws = connect token heard.ws; purge_timer = true }

unfoldable pub start_sync : App → App
unfolding begin_sync
start_sync a = elim a.client.session [ none ↦ a | some s ↦ begin_sync s.token a ]

abbrev pub info_of : ApiSession → SessionInfo
info_of sess = record {
  account_id = sess.account_id;
  device_id = sess.device_id;
  username = sess.username;
  token = sess.token;
  is_admin = sess.is_admin;
}

-- `establish`, up to the refresh of /me, which is not awaited.
unfoldable pub signed_in : SessionInfo → AccountKeys → Client → Client
unfolding load_local_state
signed_in info k c = load_local_state (record c { keys = some k; session = some info })

unfoldable pub establish : ApiSession → AccountKeys → App → App
unfolding clear_all signed_in start_sync
establish sess k a =
    let cleared = clear_all a in
    start_sync (record cleared {
      meta_session = some (info_of sess);
      meta_keys = some (record { sign_seed = k.sign_seed; enc_priv = k.enc_priv });
      token = some sess.token;
      client = signed_in (info_of sess) k cleared.client;
    })

-- `register` and `login` once the keys are there, or where they threw.
unfoldable pub sign_in : Outcome (ApiSession × AccountKeys) → App → Outcome (Unit {0}) × App
unfolding establish
sign_in (err e) a = (err e, a)
sign_in (ok (sess, k)) a = (ok tt, establish sess k a)

-- `restoreSession`, where it may throw, and with `finally`.
unfoldable pub restored : Outcome AccountKeys → SessionInfo → App → App
unfolding signed_in start_sync
restored (err e) s a = record a { token = some s.token }
restored (ok k) s a =
    start_sync (record a { token = some s.token; client = signed_in s k a.client })

module _ (l : Library) where
  unfoldable pub restore_from : Option SessionInfo → Option StoredKeys → App → App
  unfolding restored
  restore_from none keys a = a
  restore_from (some s) none a = a
  restore_from (some s) (some k) a = restored (keys_from_secrets l k.sign_seed k.enc_priv) s a

  unfoldable pub restore_session : App → App
  unfolding restore_from
  restore_session a = record (restore_from a.meta_session a.meta_keys a) { booting = false }

unfoldable pub logout : App → App
unfolding stop_sync reset_state clear_all
logout a =
    let stopped = stop_sync a in
    clear_all (record stopped {
      token = none;
      client = reset_state (record (stopped.client) { keys = none });
    })

-- The answer of /me: what it says, that the token is refused (401 or 403), or another failure.
pub record Me : Type 0 where
  pub retention_days : Option ℕ
  pub version : Text
  pub visibility : Visibility
  pub is_admin : Bool

pub data MeAnswer : Type 0 where
  me : Me → MeAnswer
  refused failed : MeAnswer

abbrev pub same_flag : Bool → Bool → Bool
same_flag true b = b
same_flag false b = not b

unfoldable pub take_me : Me → SessionInfo → App → App
take_me m s a = if same_flag s.is_admin m.is_admin then a else record a {
  client = record (a.client) { session = some (record s { is_admin = m.is_admin }) };
  meta_session = some (record s { is_admin = m.is_admin });
}

unfoldable pub refresh_me : MeAnswer → App → App
unfolding take_me logout
refresh_me (me m) a =
    let seen = record a {
      client = record (a.client) { retention_days = m.retention_days };
      server_version = m.version;
      visibility = some m.visibility;
    } in
    elim a.client.session [ none ↦ seen | some s ↦ take_me m s seen ]
refresh_me refused a = logout a
refresh_me failed a = a
