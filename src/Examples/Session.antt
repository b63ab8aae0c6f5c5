-- ===== src/Examples/Session.antt =====
-- Runs of registration, sign-in, password change and sign-out.
use family_messenger_e2e.Base.{
  ℕ, ◌≡◌, ◌≤◌, take, drop, ◌≤◌, ◌<◌, refl, subst, arith, zero, suc, Text, true, false, some, none,
  [], ◌∷◌, ◌++◌, codes, replicate, length, filter, All-append,
}
use family_messenger_e2e.Base.Outcome.{Outcome, ok, err, challenge_expired}
use family_messenger_e2e.Crypto.Bytes.{Bytes, AreBytes, hex_to_bytes, concat, equal, difference}
use family_messenger_e2e.Crypto.Bytes.Base64.{b64encode, b64decode, sextet_char, sextet_value}
use family_messenger_e2e.Crypto.Ids.{uuid_to_bytes, is_uuid, matches, is_lower_hex, to_lower}
use family_messenger_e2e.Crypto.Primitives.{
  ed25519_public, x25519_public, argon2id_hash, aead_encrypt, aead_decrypt,
}
use family_messenger_e2e.Crypto.Account.{
  AccountKeys, PasswordChange, default_kdf, check_kdf_params, keys_from_secrets, derive_keys,
  seal_key_bundle, open_key_bundle, check_secrets, sign_password_change, password_change_message,
}
use family_messenger_e2e.Crypto.Account.Bundle.{derive_keys-IsCostly}
use family_messenger_e2e.Crypto.Account.Signed.{password_change_message-injective}
use family_messenger_e2e.Session.Credentials.{
  ApiSession, Draws, Registration, PasswordUpdate, validate_password, registration, login, attempt,
  change_password,
}
use family_messenger_e2e.Session.Unlocked.{
  YieldsBytes, stored_params, stored_session, answer_for, login-registration, login-change_password,
}
use family_messenger_e2e.Session.App.{App, info_of, establish, restore_session}
use family_messenger_e2e.Session.Left.{reloaded, restore_session-establish}
use family_messenger_e2e.Examples.Toy.{toy, toy-IsStandard, checked-eq-ok, AreBytes-replicate}
use family_messenger_e2e.Examples.Client.{client}
use family_messenger_e2e.Ws.Connection.{connecting}
use family_messenger_e2e.Examples.Ws.{idle}

toy-YieldsBytes : YieldsBytes toy
toy-YieldsBytes = record {
  sign_public_bytes = λ s p h e. subst AreBytes (checked-eq-ok 32 s s p e).1 h;
  enc_public_bytes = λ s p h e. subst AreBytes (checked-eq-ok 32 s s p e).1 h;
  ciphertext_bytes = λ k n a m c h e.
      subst AreBytes (checked-eq-ok 24 n (m ++ replicate 16 0) c e).1
        (All-append (λ x. x < 256) m (replicate 16 0) h (AreBytes-replicate 16 0 (omega arith)));
}

abbrev draws : Draws
draws = record {
  sign_seed = replicate 32 1;
  enc_priv = replicate 32 2;
  salt = replicate 16 3;
  nonce = replicate 24 4;
}

draws_bytes :
    AreBytes draws.sign_seed × AreBytes draws.enc_priv × AreBytes draws.salt × AreBytes draws.nonce
draws_bytes = (
  AreBytes-replicate 32 1 (omega arith),
  AreBytes-replicate 32 2 (omega arith),
  AreBytes-replicate 16 3 (omega arith),
  AreBytes-replicate 24 4 (omega arith),
)

abbrev toy_keys : AccountKeys
toy_keys = record {
  sign_seed = replicate 32 1;
  sign_pub = replicate 32 1;
  enc_priv = replicate 32 2;
  enc_pub = replicate 32 2;
}

toy_keys_made : keys_from_secrets toy (replicate 32 1) (replicate 32 2) ≡ ok toy_keys
unfolding keys_from_secrets ed25519_public x25519_public
toy_keys_made = refl

abbrev password : Text
password = codes "long password"

abbrev toy_bundle : Bytes
toy_bundle = replicate 24 4 ++ (replicate 32 1 ++ replicate 32 2) ++ replicate 16 0

abbrev body : Registration
body = record {
  username = codes "me";
  salt = b64encode (replicate 16 3);
  auth_key = b64encode (replicate 32 5);
  sign_pub = b64encode (replicate 32 1);
  enc_pub = b64encode (replicate 32 2);
  key_bundle = b64encode toy_bundle;
  invite = [];
}

registers : registration toy draws (codes "me") password [] ≡ ok (body, toy_keys)
unfolding registration validate_password keys_from_secrets derive_keys seal_key_bundle
    ed25519_public x25519_public argon2id_hash aead_encrypt check_kdf_params concat
registers = refl

abbrev base : ApiSession
base = record {
  account_id = codes "018f0000-0000-7000-8000-000000000001";
  username = codes "me";
  device_id = codes "018f0000-0000-7000-8000-000000000002";
  token = codes "t";
  sign_pub = [];
  enc_pub = [];
  key_bundle = [];
  is_admin = false;
}

login-registration_example :
    login toy
      (λ name. ok (stored_params body.salt))
      (answer_for body.auth_key (stored_session base body.key_bundle toy_keys))
      (codes "me")
      password
    ≡ ok (stored_session base body.key_bundle toy_keys, toy_keys)
login-registration_example =
    login-registration toy toy-IsStandard toy-YieldsBytes base draws (codes "me") password [] body
      toy_keys draws_bytes registers

-- The server takes the second attempt; at the first the challenge has expired.
abbrev answers : ℕ → PasswordUpdate → Outcome ℕ
answers zero u = err challenge_expired
answers (suc n) u = ok 2

changes :
    change_password toy
      (λ i. ok (b64encode (replicate 32 9)))
      answers
      (some (info_of base))
      (some toy_keys)
      draws
      password
      true
    ≡ ok 2
unfolding change_password validate_password derive_keys seal_key_bundle attempt open_key_bundle
    check_secrets keys_from_secrets ed25519_public x25519_public argon2id_hash aead_encrypt
    aead_decrypt check_kdf_params concat equal difference b64decode b64encode filter sextet_char
    sextet_value uuid_to_bytes is_uuid matches is_lower_hex to_lower hex_to_bytes
    sign_password_change
changes = refl

login-change_password_example :
    (i : ℕ) × (i ≤ 1)
    × (u : PasswordUpdate) × (answers i u ≡ ok 2)
    × (login toy
          (λ name. ok (stored_params u.new_salt))
          (answer_for u.new_auth_key (stored_session base u.new_key_bundle toy_keys))
          (codes "me")
          password
        ≡ ok (stored_session base u.new_key_bundle toy_keys, toy_keys))
login-change_password_example =
    login-change_password toy toy-IsStandard toy-YieldsBytes (λ i. ok (b64encode (replicate 32 9)))
      answers base (info_of base) toy_keys draws password (codes "me") true 2 draws_bytes
      toy_keys_made changes

derive_keys-IsCostly_example :
    ◌≡◌ {A = Bytes} (replicate 32 5) (take 32 (toy.argon2id password draws.salt default_kdf 64))
    × ◌≡◌ {A = Bytes}
        (replicate 32 5)
        (take 32 (drop 32 (toy.argon2id password draws.salt default_kdf 64)))
    × (3 ≤ default_kdf.t)
    × (65536 ≤ default_kdf.m)
    × (default_kdf.p ≡ 1)
    × (length draws.salt ≡ 16)
derive_keys-IsCostly_example =
    derive_keys-IsCostly toy password draws.salt default_kdf
      (record { auth_key = replicate 32 5; enc_key = replicate 32 5 })
      (unfold derive_keys check_kdf_params argon2id_hash in refl)

abbrev change : PasswordChange
change = record {
  challenge = replicate 32 9;
  account_id = replicate 16 1;
  device_id = replicate 16 2;
  new_salt = replicate 16 3;
  new_auth_key = replicate 32 5;
  new_key_bundle = toy_bundle;
  sign_out_others = true;
}

abbrev change_message : Bytes
change_message =
    codes "msgr-pwchange-v1"
    ++ replicate 32 9
    ++ replicate 16 1
    ++ replicate 16 2
    ++ replicate 16 3
    ++ replicate 32 5
    ++ toy_bundle
    ++ 1 ∷ []

change_has_message : password_change_message change ≡ ok change_message
unfolding password_change_message concat
change_has_message = refl

password_change_message-injective_example : change ≡ change
password_change_message-injective_example =
    password_change_message-injective change change change_message change_has_message
      change_has_message

abbrev started : App
started = record {
  client = client;
  ws = idle;
  unsubscribers = [];
  made = 0;
  purge_timer = false;
  token = none;
  meta_session = none;
  meta_keys = none;
  booting = true;
  server_version = [];
  visibility = none;
}

restore_session-establish_example :
    let b = restore_session toy (reloaded (establish base toy_keys started) started) in
    (b.client.session ≡ some (info_of base))
    × (b.client.keys ≡ some toy_keys)
    × (b.token ≡ some (codes "t"))
    × (b.booting ≡ false)
    × (b.ws.stopped ≡ false)
    × (b.ws.token ≡ codes "t")
    × (b.ws.status ≡ connecting)
    × (b.ws.socket ≡ some (record { number = 1; is_open = false }))
    × (b.ws.keepalive ≡ true)
restore_session-establish_example =
    restore_session-establish toy base toy_keys started started toy_keys_made
