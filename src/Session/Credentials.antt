-- ===== src/Session/Credentials.antt =====
-- What the flows compute and ask of the server. A request is a function from what is sent to the
-- answer; the random salt, nonce and seeds are arguments. The progress text (authBusy), which is
-- cleared at the end in every case, is left out.
use family_messenger_e2e.Base.{
  ℕ, Text, Bool, true, false, not, Option, none, some, length, ltb, if◌then◌else◌,
}
use family_messenger_e2e.Base.Outcome.{
  Outcome, ok, err, ◌>>=◌, ◌>>◌, ensure, not_signed_in, password_too_short, key_unlock_failed,
  challenge_expired,
}
use family_messenger_e2e.Crypto.Bytes.{Bytes}
use family_messenger_e2e.Crypto.Bytes.Base64.{b64encode, b64decode}
use family_messenger_e2e.Crypto.Ids.{uuid_to_bytes}
use family_messenger_e2e.Crypto.Primitives.{Library, KdfParams}
use family_messenger_e2e.Crypto.Account.{
  AccountKeys, DerivedKeys, default_kdf, check_kdf_params, keys_from_secrets, derive_keys,
  seal_key_bundle, open_key_bundle, sign_password_change,
}
use family_messenger_e2e.Model.Client.{SessionInfo}

abbrev pub min_password_length : ℕ
min_password_length = 12

unfoldable pub validate_password : Text → Outcome (Unit {0})
validate_password password =
    ensure (not (ltb (length password) min_password_length)) password_too_short

pub record ApiSession : Type 0 where
  pub account_id : Text
  pub username : Text
  pub device_id : Text
  pub token : Text
  pub sign_pub : Text
  pub enc_pub : Text
  pub key_bundle : Text
  pub is_admin : Bool

pub record AuthParams : Type 0 where
  pub salt : Text
  pub kdf : KdfParams

-- The body of a registration; the device's name is only shown.
pub record Registration : Type 0 where
  pub username : Text
  pub salt : Text
  pub auth_key : Text
  pub sign_pub : Text
  pub enc_pub : Text
  pub key_bundle : Text
  pub invite : Text

pub record PasswordUpdate : Type 0 where
  pub challenge : Text
  pub sig : Text
  pub new_salt : Text
  pub new_auth_key : Text
  pub new_key_bundle : Text
  pub sign_out_others : Bool

-- The random bytes that a flow draws.
pub record Draws : Type 0 where
  pub sign_seed : Bytes
  pub enc_priv : Bytes
  pub salt : Bytes
  pub nonce : Bytes

-- `catch { throw new Error(t('key_unlock_failed')) }`
abbrev pub or_unlock_failed : Outcome AccountKeys → Outcome AccountKeys
or_unlock_failed (ok k) = ok k
or_unlock_failed (err e) = err key_unlock_failed

-- One more attempt where the challenge was used up.
abbrev pub is_expired : Outcome ℕ → Bool
is_expired (err challenge_expired) = true
is_expired _ = false

abbrev pub once_more : Outcome ℕ → Outcome ℕ → Outcome ℕ
once_more first again = if is_expired first then again else first

module _ (l : Library) where
  -- `register` up to the request. The invitation is trimmed before it comes here.
  unfoldable pub registration : Draws → Text → Text → Text → Outcome (Registration × AccountKeys)
  unfolding validate_password
  registration r username password invite = do
    validate_password password
    k ← keys_from_secrets l r.sign_seed r.enc_priv
    derived ← derive_keys l password r.salt default_kdf
    bundle ← seal_key_bundle l derived.enc_key r.nonce k
    ok (
      record {
        username = username;
        salt = b64encode r.salt;
        auth_key = b64encode derived.auth_key;
        sign_pub = b64encode k.sign_pub;
        enc_pub = b64encode k.enc_pub;
        key_bundle = b64encode bundle;
        invite = invite;
      },
      k,
    )

  unfoldable pub register :
      (Registration → Outcome ApiSession)
      → Draws
      → Text
      → Text
      → Text
      → Outcome (ApiSession × AccountKeys)
  unfolding registration
  register answer r username password invite = do
    (body, k) ← registration r username password invite
    sess ← answer body
    ok (sess, k)

  unfoldable pub unlock : Bytes → ApiSession → Outcome AccountKeys
  unlock enc_key sess = do
    bundle ← b64decode sess.key_bundle
    sign_pub ← b64decode sess.sign_pub
    enc_pub ← b64decode sess.enc_pub
    open_key_bundle l enc_key bundle sign_pub enc_pub

  unfoldable pub login :
      (Text → Outcome AuthParams)
      → (Text → Text → Outcome ApiSession)
      → Text
      → Text
      → Outcome (ApiSession × AccountKeys)
  unfolding unlock
  login auth_params answer username password = do
    params ← auth_params username
    check_kdf_params params.kdf
    salt ← b64decode params.salt
    derived ← derive_keys l password salt params.kdf
    sess ← answer username (b64encode derived.auth_key)
    k ← or_unlock_failed (unlock derived.enc_key sess)
    ok (sess, k)

  -- `attempt` of `changePassword`: a challenge, and the signed update.
  unfoldable pub attempt :
      Outcome Text
      → (PasswordUpdate → Outcome ℕ)
      → SessionInfo
      → AccountKeys
      → Bytes
      → DerivedKeys
      → Bytes
      → Bool
      → Outcome ℕ
  attempt challenge answer s k salt fresh bundle others = do
    text ← challenge
    bytes ← b64decode text
    account ← uuid_to_bytes s.account_id
    device ← uuid_to_bytes s.device_id
    sig ← sign_password_change l k.sign_seed (record {
      challenge = bytes;
      account_id = account;
      device_id = device;
      new_salt = salt;
      new_auth_key = fresh.auth_key;
      new_key_bundle = bundle;
      sign_out_others = others;
    })
    answer (record {
      challenge = text;
      sig = b64encode sig;
      new_salt = b64encode salt;
      new_auth_key = b64encode fresh.auth_key;
      new_key_bundle = b64encode bundle;
      sign_out_others = others;
    })

  unfoldable pub change_password :
      (ℕ → Outcome Text)
      → (ℕ → PasswordUpdate → Outcome ℕ)
      → Option SessionInfo
      → Option AccountKeys
      → Draws
      → Text
      → Bool
      → Outcome ℕ
  unfolding validate_password attempt
  change_password challenge answer none keys r next others = do
    validate_password next
    err not_signed_in
  change_password challenge answer (some s) none r next others = do
    validate_password next
    err not_signed_in
  change_password challenge answer (some s) (some k) r next others = do
    validate_password next
    fresh ← derive_keys l next r.salt default_kdf
    bundle ← seal_key_bundle l fresh.enc_key r.nonce k
    opened ← open_key_bundle l fresh.enc_key bundle k.sign_pub k.enc_pub
    once_more (attempt (challenge 0) (answer 0) s k r.salt fresh bundle others)
        (attempt (challenge 1) (answer 1) s k r.salt fresh bundle others)
