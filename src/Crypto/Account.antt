-- ===== src/Crypto/Account.antt =====
-- Account keys, password-derived keys, the encrypted key bundle and the password change message:
-- web/src/crypto/account.ts.
pub mod Bundle
pub mod Signed
use family_messenger_e2e.Base.{
  ℕ, ◌+◌, ◌*◌, Text, Bool, true, false, not, ◌&&◌, [], ◌∷◌, ◌++◌, codes, length, take, drop, ltb,
  ◌==◌, if◌then◌else◌,
}
use family_messenger_e2e.Base.Outcome.{
  Outcome, ok, err, ◌>>=◌, ◌>>◌, ensure, secrets_must_be_32_bytes, weak_kdf, invalid_salt,
  malformed_key_bundle, key_bundle_mismatch, invalid_password_change_input,
}
use family_messenger_e2e.Crypto.Bytes.{Bytes, concat, equal}
use family_messenger_e2e.Crypto.Primitives.{
  Library, KdfParams, nonce_size, tag_size, ed25519_public, x25519_public, argon2id_hash, sign,
  aead_encrypt, aead_decrypt,
}

pub record AccountKeys : Type 0 where
  pub sign_seed : Bytes
  pub sign_pub : Bytes
  pub enc_priv : Bytes
  pub enc_pub : Bytes

abbrev pub salt_size : ℕ
salt_size = 16

abbrev pub key_bundle_size : ℕ
key_bundle_size = nonce_size + 64 + tag_size

abbrev pub default_kdf : KdfParams
default_kdf = record { t = 3; m = 64 * 1024; p = 1 }

abbrev pub bundle_aad : Bytes
bundle_aad = codes "msgr-keybundle-v1"

unfoldable pub check_kdf_params : KdfParams → Outcome (Unit {0})
check_kdf_params params =
    ensure
      (not (ltb params.t default_kdf.t)
        && not (ltb params.m default_kdf.m)
        && params.p == default_kdf.p)
      weak_kdf

pub record DerivedKeys : Type 0 where
  pub auth_key : Bytes
  pub enc_key : Bytes

module _ (l : Library) where
  unfoldable pub keys_from_secrets : Bytes → Bytes → Outcome AccountKeys
  keys_from_secrets sign_seed enc_priv = do
    ensure (length sign_seed == 32 && length enc_priv == 32) secrets_must_be_32_bytes
    sign_pub ← ed25519_public l sign_seed
    enc_pub ← x25519_public l enc_priv
    ok (record {
      sign_seed = sign_seed;
      sign_pub = sign_pub;
      enc_priv = enc_priv;
      enc_pub = enc_pub;
    })

  unfoldable pub derive_keys : Text → Bytes → KdfParams → Outcome DerivedKeys
  unfolding check_kdf_params
  derive_keys password salt params = do
    check_kdf_params params
    ensure (length salt == salt_size) invalid_salt
    let out = argon2id_hash l password salt params 64
    ok (record { auth_key = take 32 out; enc_key = take 32 (drop 32 out) })

  unfoldable pub seal_key_bundle : Bytes → Bytes → AccountKeys → Outcome Bytes
  seal_key_bundle enc_key nonce keys = do
    sealed ← aead_encrypt l enc_key nonce bundle_aad (concat (keys.sign_seed ∷ keys.enc_priv ∷ []))
    ok (concat (nonce ∷ sealed ∷ []))

  -- The keys of what was decrypted, if they are the expected ones.
  unfoldable pub check_secrets : Bytes → Bytes → Bytes → Outcome AccountKeys
  unfolding keys_from_secrets
  check_secrets secrets sign_pub enc_pub = do
    keys ← keys_from_secrets (take 32 secrets) (take 32 (drop 32 secrets))
    ensure (equal keys.sign_pub sign_pub && equal keys.enc_pub enc_pub) key_bundle_mismatch
    ok keys

  unfoldable pub open_key_bundle : Bytes → Bytes → Bytes → Bytes → Outcome AccountKeys
  unfolding check_secrets
  open_key_bundle enc_key bundle sign_pub enc_pub = do
    ensure (length bundle == key_bundle_size) malformed_key_bundle
    secrets ← aead_decrypt l enc_key (take nonce_size bundle) bundle_aad (drop nonce_size bundle)
    check_secrets secrets sign_pub enc_pub

abbrev pub pw_change_challenge_size : ℕ
pw_change_challenge_size = 32

abbrev pub pw_change_prefix : Bytes
pw_change_prefix = codes "msgr-pwchange-v1"

-- What a device signs to change the password.
pub record PasswordChange : Type 0 where
  pub challenge : Bytes
  pub account_id : Bytes
  pub device_id : Bytes
  pub new_salt : Bytes
  pub new_auth_key : Bytes
  pub new_key_bundle : Bytes
  pub sign_out_others : Bool

unfoldable pub password_change_message : PasswordChange → Outcome Bytes
password_change_message c = do
  ensure
      (length c.challenge == pw_change_challenge_size
        && length c.account_id == 16
        && length c.device_id == 16
        && length c.new_salt == salt_size
        && length c.new_auth_key == 32
        && length c.new_key_bundle == key_bundle_size)
      invalid_password_change_input
  ok (
      concat (
        pw_change_prefix
        ∷ c.challenge
        ∷ c.account_id
        ∷ c.device_id
        ∷ c.new_salt
        ∷ c.new_auth_key
        ∷ c.new_key_bundle
        ∷ ((if c.sign_out_others then 1 else 0) ∷ [])
        ∷ []))

unfoldable pub sign_password_change : Library → Bytes → PasswordChange → Outcome Bytes
unfolding sign password_change_message
sign_password_change l sign_seed c = do
  message ← password_change_message c
  sign l sign_seed message
