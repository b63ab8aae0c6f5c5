-- ===== src/Session/Unlocked.antt =====
-- Signing in after a registration or a password change: web/src/state/session.ts.
use family_messenger_e2e.Base.{
  ℕ, ◌≡◌, ◌≤◌, arith, ◌<◌, ◌∙◌, refl, ap, sym, subst, Text, Bool, true, false, some, [], ◌∷◌,
  All-append, ◌===◌, ===_refl, if◌then◌else◌, ◌⊎◌, inl, inr,
}
use family_messenger_e2e.Base.Outcome.{
  Outcome, ok, err, bind_inv, ensure-then, ok-injective, unauthorized,
}
use family_messenger_e2e.Crypto.Bytes.{Bytes, AreBytes, concat}
use family_messenger_e2e.Crypto.Bytes.Base64.{b64encode, b64decode, b64decode-b64encode}
use family_messenger_e2e.Crypto.Ids.{uuid_to_bytes}
use family_messenger_e2e.Crypto.Primitives.{
  Library, IsStandard, aead_encrypt, ed25519_public, x25519_public,
}
use family_messenger_e2e.Crypto.Account.{
  AccountKeys, DerivedKeys, bundle_aad, default_kdf, check_kdf_params, keys_from_secrets,
  derive_keys, seal_key_bundle, open_key_bundle, sign_password_change,
}
use family_messenger_e2e.Crypto.Account.Bundle.{open_key_bundle-seal_key_bundle, concat_pair}
use family_messenger_e2e.Model.Client.{SessionInfo}
use family_messenger_e2e.Session.Credentials.{
  ApiSession, AuthParams, Registration, PasswordUpdate, Draws, validate_password, registration,
  unlock, login, attempt, is_expired, change_password,
}

-- The library's outputs are byte arrays where its inputs are.
pub record YieldsBytes (l : Library) : Type 0 where
  pub sign_public_bytes :
      (s p : Bytes) → AreBytes s → l.ed25519_get_public_key s ≡ ok p → AreBytes p
  pub enc_public_bytes : (s p : Bytes) → AreBytes s → l.x25519_get_public_key s ≡ ok p → AreBytes p
  pub ciphertext_bytes :
      (k n a m c : Bytes) → AreBytes m → l.xchacha20poly1305_encrypt k n a m ≡ ok c → AreBytes c

-- A server that has stored salt, login secret, bundle and public keys of an account.
abbrev pub stored_params : Text → AuthParams
stored_params salt = record { salt = salt; kdf = default_kdf }

abbrev pub stored_session : ApiSession → Text → AccountKeys → ApiSession
stored_session base bundle k = record base {
  key_bundle = bundle;
  sign_pub = b64encode k.sign_pub;
  enc_pub = b64encode k.enc_pub;
}

abbrev pub answer_for : Text → ApiSession → Text → Text → Outcome ApiSession
answer_for secret sess username auth_key = if auth_key === secret then ok sess else err unauthorized

module _ (l : Library) (std : IsStandard l) (bytes : YieldsBytes l) where
  -- The keys, and the public halves, of drawn secrets.
  record Made (k : AccountKeys) : Type 0 where
    seed : Bytes
    priv : Bytes
    made : keys_from_secrets l seed priv ≡ ok k
    sign_bytes : AreBytes k.sign_pub
    enc_bytes : AreBytes k.enc_pub
    seed_bytes : AreBytes k.sign_seed
    priv_bytes : AreBytes k.enc_priv

  keys_from_secrets-Made :
      (seed priv : Bytes) (k : AccountKeys)
      → AreBytes seed
      → AreBytes priv
      → keys_from_secrets l seed priv ≡ ok k
      → Made k
  unfolding keys_from_secrets ed25519_public x25519_public
  keys_from_secrets-Made seed priv k hs hp h =
      let (sizes, h1) = ensure-then _ _ _ h in
      let (p, e, h2) = bind_inv (l.ed25519_get_public_key seed) _ h1 in
      let (q, f, h3) = bind_inv (l.x25519_get_public_key priv) _ h2 in
      let same = ok-injective h3 in
      record {
        seed = seed;
        priv = priv;
        made = h;
        sign_bytes = subst (λ x. AreBytes x.sign_pub) same (bytes.sign_public_bytes seed p hs e);
        enc_bytes = subst (λ x. AreBytes x.enc_pub) same (bytes.enc_public_bytes priv q hp f);
        seed_bytes = subst (λ x. AreBytes x.sign_seed) same hs;
        priv_bytes = subst (λ x. AreBytes x.enc_priv) same hp;
      }

  bundle-AreBytes :
      (enc_key nonce bundle : Bytes) (k : AccountKeys)
      → Made k
      → AreBytes nonce
      → seal_key_bundle l enc_key nonce k ≡ ok bundle
      → AreBytes bundle
  unfolding seal_key_bundle aead_encrypt
  bundle-AreBytes enc_key nonce bundle k m hn h =
      let plain = concat (k.sign_seed ∷ k.enc_priv ∷ []) in
      let (sealed, e, h1) =
        bind_inv (l.xchacha20poly1305_encrypt enc_key nonce bundle_aad plain) _ h in
      let plain_bytes =
        subst AreBytes (sym (concat_pair k.sign_seed k.enc_priv))
          (All-append (λ x. x < 256) k.sign_seed k.enc_priv m.seed_bytes m.priv_bytes) in
      subst AreBytes (sym (concat_pair nonce sealed) ∙ ok-injective h1) (
        All-append (λ x. x < 256) nonce sealed hn
          (bytes.ciphertext_bytes enc_key nonce bundle_aad plain sealed plain_bytes e))

  -- Signing in against what was stored.
  login_stored :
      (base : ApiSession) (username password : Text) (salt nonce bundle : Bytes) (k : AccountKeys)
      (d : DerivedKeys)
      → Made k
      → (AreBytes salt × AreBytes nonce)
      → derive_keys l password salt default_kdf ≡ ok d
      → seal_key_bundle l d.enc_key nonce k ≡ ok bundle
      → let sess = stored_session base (b64encode bundle) k in
        login l
          (λ name. ok (stored_params (b64encode salt)))
          (answer_for (b64encode d.auth_key) sess)
          username
          password
        ≡ ok (sess, k)
  unfolding login unlock check_kdf_params
  login_stored base username password salt nonce bundle k d m (hs, hn) derived sealed =
      rw (b64decode-b64encode salt hs) (
        rw derived (
          rw (===_refl (b64encode d.auth_key)) (
            rw (b64decode-b64encode bundle (bundle-AreBytes d.enc_key nonce bundle k m hn sealed)) (
              rw (b64decode-b64encode k.sign_pub m.sign_bytes) (
                rw (b64decode-b64encode k.enc_pub m.enc_bytes) (
                  rw
                    (open_key_bundle-seal_key_bundle l d.enc_key nonce bundle m.seed m.priv k std
                      m.made sealed)
                    refl))))))

  -- The same, of the texts in which these came to the server.
  login_texts :
      (base : ApiSession) (username password : Text) (salt nonce bundle : Bytes) (k : AccountKeys)
      (d : DerivedKeys) (salt_text secret_text bundle_text : Text)
      → Made k
      → (AreBytes salt × AreBytes nonce)
      → derive_keys l password salt default_kdf ≡ ok d
      → seal_key_bundle l d.enc_key nonce k ≡ ok bundle
      → (b64encode salt ≡ salt_text)
        × (b64encode d.auth_key ≡ secret_text)
        × (b64encode bundle ≡ bundle_text)
      → login l
          (λ name. ok (stored_params salt_text))
          (answer_for secret_text (stored_session base bundle_text k))
          username
          password
        ≡ ok (stored_session base bundle_text k, k)
  login_texts base username password salt nonce bundle k d t u v m h derived sealed (p, q, r) =
      rw (← p, ← q, ← r)
        (login_stored base username password salt nonce bundle k d m h derived sealed)

  -- What a registration sends: salt, secret and bundle are those of the password.
  record Sent (r : Draws) (password : Text) (body : Registration) (k : AccountKeys) : Type 0 where
    keys : keys_from_secrets l r.sign_seed r.enc_priv ≡ ok k
    derived : DerivedKeys
    from_password : derive_keys l password r.salt default_kdf ≡ ok derived
    bundle : Bytes
    sealed : seal_key_bundle l derived.enc_key r.nonce k ≡ ok bundle
    salt_sent : b64encode r.salt ≡ body.salt
    secret_sent : b64encode derived.auth_key ≡ body.auth_key
    bundle_sent : b64encode bundle ≡ body.key_bundle

  registration_inv :
      (r : Draws) (username password invite : Text) (body : Registration) (k : AccountKeys)
      → registration l r username password invite ≡ ok (body, k)
      → Sent r password body k
  unfolding registration
  registration_inv r username password invite body k h =
      let (x, valid, h1) = bind_inv (validate_password password) _ h in
      let (keys, made, h2) = bind_inv (keys_from_secrets l r.sign_seed r.enc_priv) _ h1 in
      let (d, derived, h3) = bind_inv (derive_keys l password r.salt default_kdf) _ h2 in
      let (bundle, sealed, h4) = bind_inv (seal_key_bundle l d.enc_key r.nonce keys) _ h3 in
      let same = ok-injective h4 in
      let is_k : keys ≡ k = ap (λ (x : Registration × AccountKeys). x.1) same in
      record {
        keys = subst (λ y. keys_from_secrets l r.sign_seed r.enc_priv ≡ ok y) is_k made;
        derived = d;
        from_password = derived;
        bundle = bundle;
        sealed = subst (λ y. seal_key_bundle l d.enc_key r.nonce y ≡ ok bundle) is_k sealed;
        salt_sent = ap (λ (x : Registration × AccountKeys). x.0.salt) same;
        secret_sent = ap (λ (x : Registration × AccountKeys). x.0.auth_key) same;
        bundle_sent = ap (λ (x : Registration × AccountKeys). x.0.key_bundle) same;
      }

  -- Whoever registers can sign in with that password: a server that keeps what the registration
  -- sent, and answers to the login secret that it sent, lets the same keys be unlocked. The random
  -- draws are byte arrays.
  pub login-registration :
      (base : ApiSession) (r : Draws) (username password invite : Text) (body : Registration)
      (k : AccountKeys)
      → (AreBytes r.sign_seed × AreBytes r.enc_priv × AreBytes r.salt × AreBytes r.nonce)
      → registration l r username password invite ≡ ok (body, k)
      → login l
          (λ name. ok (stored_params body.salt))
          (answer_for body.auth_key (stored_session base body.key_bundle k))
          username
          password
        ≡ ok (stored_session base body.key_bundle k, k)
  login-registration base r username password invite body k (hs, hp, ht, hn) h =
      let s = registration_inv r username password invite body k h in
      login_texts base username password r.salt r.nonce s.bundle k s.derived body.salt body.auth_key
        body.key_bundle (keys_from_secrets-Made r.sign_seed r.enc_priv k hs hp s.keys) (ht, hn)
        s.from_password s.sealed (s.salt_sent, s.secret_sent, s.bundle_sent)

  -- An attempt that ends well has sent the new salt, secret and bundle, and they were accepted.
  attempt_inv :
      (challenge : Outcome Text) (answer : PasswordUpdate → Outcome ℕ) (s : SessionInfo)
      (k : AccountKeys) (salt : Bytes) (fresh : DerivedKeys) (bundle : Bytes) (others : Bool)
      (n : ℕ)
      → attempt l challenge answer s k salt fresh bundle others ≡ ok n
      → (u : PasswordUpdate) × (answer u ≡ ok n)
        × (b64encode salt ≡ u.new_salt)
        × (b64encode fresh.auth_key ≡ u.new_auth_key)
        × (b64encode bundle ≡ u.new_key_bundle)
  unfolding attempt
  attempt_inv challenge answer s k salt fresh bundle others n h =
      let (text, a, h1) = bind_inv challenge _ h in
      let (b, c, h2) = bind_inv (b64decode text) _ h1 in
      let (account, d, h3) = bind_inv (uuid_to_bytes s.account_id) _ h2 in
      let (device, e, h4) = bind_inv (uuid_to_bytes s.device_id) _ h3 in
      let (sig, f, h5) = bind_inv (sign_password_change l k.sign_seed _) _ h4 in
      (_, h5, refl, refl, refl)

  one_of :
      (b : Bool) (first again : Outcome ℕ) (n : ℕ)
      → (if b then again else first) ≡ ok n
      → (first ≡ ok n) ⊎ (again ≡ ok n)
  one_of true first again n h = inr h
  one_of false first again n h = inl h

  -- A password change that succeeds has been accepted by the server at its first or its second
  -- attempt, and a server that keeps what that attempt sent lets the new password unlock the keys
  -- that the device holds. The device's keys are of drawn secrets, and all draws are byte arrays.
  pub login-change_password :
      (challenge : ℕ → Outcome Text) (answer : ℕ → PasswordUpdate → Outcome ℕ) (base : ApiSession)
      (s : SessionInfo) (k : AccountKeys) (r : Draws) (next username : Text) (others : Bool) (n : ℕ)
      → (AreBytes r.sign_seed × AreBytes r.enc_priv × AreBytes r.salt × AreBytes r.nonce)
      → keys_from_secrets l r.sign_seed r.enc_priv ≡ ok k
      → change_password l challenge answer (some s) (some k) r next others ≡ ok n
      → (i : ℕ) × (i ≤ 1)
        × (u : PasswordUpdate) × (answer i u ≡ ok n)
        × (login l
              (λ name. ok (stored_params u.new_salt))
              (answer_for u.new_auth_key (stored_session base u.new_key_bundle k))
              username
              next
            ≡ ok (stored_session base u.new_key_bundle k, k))
  unfolding change_password
  login-change_password challenge answer base s k r next username others n (hs, hp, ht, hn) made h =
      let (x, valid, h1) = bind_inv (validate_password next) _ h in
      let (d, derived, h2) = bind_inv (derive_keys l next r.salt default_kdf) _ h1 in
      let (bundle, sealed, h3) = bind_inv (seal_key_bundle l d.enc_key r.nonce k) _ h2 in
      let (opened, o, h4) =
        bind_inv (open_key_bundle l d.enc_key bundle k.sign_pub k.enc_pub) _ h3 in
      let m = keys_from_secrets-Made r.sign_seed r.enc_priv k hs hp made in
      let first = attempt l (challenge 0) (answer 0) s k r.salt d bundle others in
      let again = attempt l (challenge 1) (answer 1) s k r.salt d bundle others in
      elim (one_of (is_expired first) first again n h4) [
        | inl q ↦
            let (u, a, p, q1, q2) =
              attempt_inv (challenge 0) (answer 0) s k r.salt d bundle others n q in
            (
              0,
              omega arith,
              u,
              a,
              login_texts base username next r.salt r.nonce bundle k d _ _ _ m (ht, hn) derived
                  sealed (p, q1, q2),
            )
        | inr q ↦
            let (u, a, p, q1, q2) =
              attempt_inv (challenge 1) (answer 1) s k r.salt d bundle others n q in
            (
              1,
              omega arith,
              u,
              a,
              login_texts base username next r.salt r.nonce bundle k d _ _ _ m (ht, hn) derived
                  sealed (p, q1, q2),
            )
      ]
