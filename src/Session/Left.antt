-- ===== src/Session/Left.antt =====
-- Signing out, and a reload of the page: web/src/state/session.ts.
use family_messenger_e2e.Base.{
  ℕ, suc, ◌≡◌, refl, ap, Text, Bool, true, false, not, ◌&&◌, none, some, List, [], ◌∷◌, any, ◌==◌,
  ◌===◌, arith,
}
use family_messenger_e2e.Base.Outcome.{ok}
use family_messenger_e2e.Crypto.Primitives.{Library}
use family_messenger_e2e.Crypto.Account.{AccountKeys, keys_from_secrets}
use family_messenger_e2e.Model.Views.{reset_state}
use family_messenger_e2e.Sync.Events.{load_local_state}
use family_messenger_e2e.Ws.Connection.{connecting, WsClient, connect, close, off, open_socket}
use family_messenger_e2e.Ws.Handlers.{is_handler, is_handler-on_off}
use family_messenger_e2e.Session.Credentials.{ApiSession}
use family_messenger_e2e.Session.App.{
  App, clear_all, unsubscribe_all, stop_sync, subscribe, begin_sync, start_sync, info_of, signed_in,
  establish, restored, restore_from, restore_session, logout,
}

-- Is a handler of a type among the subscriptions?
abbrev pub is_subscribed : Text → ℕ → List (Text × ℕ) → Bool
is_subscribed type h subscriptions = any (λ s. s.0 === type && s.1 == h) subscriptions

is_handler-unsubscribe_all :
    (type : Text) (h : ℕ) (subscriptions : List (Text × ℕ)) (ws : WsClient)
    → is_handler type h (unsubscribe_all subscriptions ws)
      ≡ (is_handler type h ws && not (is_subscribed type h subscriptions))
unfolding unsubscribe_all any
is_handler-unsubscribe_all type h [] ws = ground arith
is_handler-unsubscribe_all type h ((t, g) ∷ subscriptions) ws =
    let ih = is_handler-unsubscribe_all type h subscriptions (off t g ws) in
    let step = (is_handler-on_off t type g h ws).1 in ground (arith, ih, step)

-- After signing out there is no session, no key, no token and no timer, the database and the store
-- of settings are empty, the socket is gone, and a handler is called exactly if it was before and
-- is none of the sync engine's.
pub logout_lem :
    (type : Text) (h : ℕ) (a : App)
    → let b = logout a in
      (b.client.session ≡ none)
      × (b.client.keys ≡ none)
      × (b.token ≡ none)
      × (b.meta_session ≡ none)
      × (b.meta_keys ≡ none)
      × (b.client.db.contacts ≡ [])
      × (b.client.db.conversations ≡ [])
      × (b.client.db.messages ≡ [])
      × (b.purge_timer ≡ false)
      × (b.ws.stopped ≡ true)
      × (b.ws.socket ≡ none)
      × (is_handler type h b.ws
          ≡ (is_handler type h a.ws && not (is_subscribed type h a.unsubscribers)))
unfolding logout stop_sync reset_state clear_all close
logout_lem type h a = (
  refl,
  refl,
  refl,
  refl,
  refl,
  refl,
  refl,
  refl,
  refl,
  refl,
  refl,
  is_handler-unsubscribe_all type h a.unsubscribers a.ws,
)

-- The page is loaded again: what IndexedDB holds is there, and everything else is as it is at the
-- start.
abbrev pub reloaded : App → App → App
reloaded a fresh = record fresh {
  client = record (fresh.client) { db = a.client.db };
  meta_session = a.meta_session;
  meta_keys = a.meta_keys;
}

opened-unsubscribe_all :
    (subscriptions : List (Text × ℕ)) (ws : WsClient)
    → (unsubscribe_all subscriptions ws).opened ≡ ws.opened
unfolding unsubscribe_all off
opened-unsubscribe_all [] ws = refl
opened-unsubscribe_all ((type, h) ∷ subscriptions) ws =
    opened-unsubscribe_all subscriptions (off type h ws)

-- A session that was established is there again when the page is loaded anew, with the same keys
-- and token, and is connecting with it: a new socket is made and watched. The keys are as
-- `keysFromSecrets` makes them.
pub restore_session-establish :
    (l : Library) (sess : ApiSession) (k : AccountKeys) (a fresh : App)
    → keys_from_secrets l k.sign_seed k.enc_priv ≡ ok k
    → let b = restore_session l (reloaded (establish sess k a) fresh) in
      (b.client.session ≡ some (info_of sess))
      × (b.client.keys ≡ some k)
      × (b.token ≡ some sess.token)
      × (b.booting ≡ false)
      × (b.ws.stopped ≡ false)
      × (b.ws.token ≡ sess.token)
      × (b.ws.status ≡ connecting)
      × (b.ws.socket ≡ some (record { number = suc fresh.ws.opened; is_open = false }))
      × (b.ws.keepalive ≡ true)
unfolding restore_session restore_from restored establish clear_all signed_in start_sync begin_sync
    subscribe stop_sync load_local_state connect open_socket
restore_session-establish l sess k a fresh made = rw made (
  refl,
  refl,
  refl,
  refl,
  refl,
  refl,
  refl,
  ap (λ n. some (record { number = suc n; is_open = false }))
      (opened-unsubscribe_all fresh.unsubscribers fresh.ws),
  refl,
)
