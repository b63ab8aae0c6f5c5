-- ===== src/Crypto/Account/Signed.antt =====
-- The message of a password change: passwordChangeMessage of web/src/crypto/account.ts.
use family_messenger_e2e.Base.{
  ℕ, ◌≡◌, refl, sym, ap, ◌∙◌, Bool, true, false, ◌&&◌, [], ◌∷◌, ◌++◌, length, take, drop,
  take-append, drop-append, ◌==◌, arith, if◌then◌else◌,
}
use family_messenger_e2e.Base.Outcome.{ok, ensure-then, ok-injective}
use family_messenger_e2e.Crypto.Bytes.{Bytes, concat}
use family_messenger_e2e.Crypto.Account.{
  PasswordChange, pw_change_prefix, key_bundle_size, salt_size, pw_change_challenge_size,
  password_change_message,
}

-- A field of one size at the front of two equal buffers.
front :
    (n : ℕ) (a b x y : Bytes) → length a ≡ n → length b ≡ n → a ++ x ≡ b ++ y → (a ≡ b) × (x ≡ y)
front n a b x y p q h = (
  sym (take-append n a x p) ∙ ap (take n) h ∙ take-append n b y q,
  sym (drop-append n a x p) ∙ ap (drop n) h ∙ drop-append n b y q,
)

abbrev after_prefix : PasswordChange → Bytes
after_prefix c = concat (
    c.challenge
    ∷ c.account_id
    ∷ c.device_id
    ∷ c.new_salt
    ∷ c.new_auth_key
    ∷ c.new_key_bundle
    ∷ ((if c.sign_out_others then 1 else 0) ∷ [])
    ∷ [])

record HasSizes (c : PasswordChange) : Type 0 where
  challenge_size : length c.challenge ≡ 32
  account_size : length c.account_id ≡ 16
  device_size : length c.device_id ≡ 16
  salt : length c.new_salt ≡ 16
  auth_size : length c.new_auth_key ≡ 32
  bundle_size : length c.new_key_bundle ≡ 104

message_inv :
    (c : PasswordChange) (m : Bytes)
    → password_change_message c ≡ ok m
    → HasSizes c × (pw_change_prefix ++ after_prefix c ≡ m)
unfolding password_change_message concat
message_inv c m h =
    let (sizes, h1) =
      ensure-then
        (length c.challenge == pw_change_challenge_size
          && length c.account_id == 16
          && length c.device_id == 16
          && length c.new_salt == salt_size
          && length c.new_auth_key == 32
          && length c.new_key_bundle == key_bundle_size)
        _ _ h in
    (
      record {
        challenge_size = ground (arith, sizes);
        account_size = ground (arith, sizes);
        device_size = ground (arith, sizes);
        salt = ground (arith, sizes);
        auth_size = ground (arith, sizes);
        bundle_size = ground (arith, sizes);
      },
      ok-injective h1,
    )

abbrev flag : Bool → Bytes
flag b = concat (((if b then 1 else 0) ∷ []) ∷ [])

same_flag : (a b : Bool) → flag a ≡ flag b → a ≡ b
unfolding concat
same_flag true true h = refl
same_flag true false h = cc
same_flag false true h = cc
same_flag false false h = refl

-- Two password changes have one message only if they are the same in every field.
pub password_change_message-injective :
    (c d : PasswordChange) (m : Bytes)
    → password_change_message c ≡ ok m
    → password_change_message d ≡ ok m
    → c ≡ d
unfolding concat
password_change_message-injective c d m h k =
    let (s, e) = message_inv c m h in
    let (t, f) = message_inv d m k in
    let (p0, r0) = front 16 pw_change_prefix pw_change_prefix _ _ refl refl (e ∙ sym f) in
    let (p1, r1) = front 32 c.challenge d.challenge _ _ s.challenge_size t.challenge_size r0 in
    let (p2, r2) = front 16 c.account_id d.account_id _ _ s.account_size t.account_size r1 in
    let (p3, r3) = front 16 c.device_id d.device_id _ _ s.device_size t.device_size r2 in
    let (p4, r4) = front 16 c.new_salt d.new_salt _ _ s.salt t.salt r3 in
    let (p5, r5) = front 32 c.new_auth_key d.new_auth_key _ _ s.auth_size t.auth_size r4 in
    let (p6, r6) = front 104 c.new_key_bundle d.new_key_bundle _ _ s.bundle_size t.bundle_size r5 in
    let p7 = same_flag c.sign_out_others d.sign_out_others r6 in cc
