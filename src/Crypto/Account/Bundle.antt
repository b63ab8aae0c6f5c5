-- ===== src/Crypto/Account/Bundle.antt =====
-- Key bundles and derived keys: web/src/crypto/account.ts.
use mathlib.Core.List.{append-nil}
use family_messenger_e2e.Base.{
  ◌≡◌, ◌≤◌, ◌∙◌, refl, ap, sym, subst, Text, true, ◌&&◌, [], ◌∷◌, ◌++◌, length, length-append, take,
  take_all, drop, take-append, drop-append, ◌==◌, ==_iff, arith,
}
use family_messenger_e2e.Base.Outcome.{
  Outcome, ok, bind_inv, ensure-then, ok-injective, key_bundle_mismatch,
}
use family_messenger_e2e.Crypto.Bytes.{Bytes, concat, equal}
use family_messenger_e2e.Crypto.Bytes.Equality.{equal_iff}
use family_messenger_e2e.Crypto.Primitives.{
  Library, IsStandard, KdfParams, aead_encrypt, aead_decrypt, aead_encrypt_sizes,
  aead_decrypt-aead_encrypt, ed25519_public, x25519_public, argon2id_hash,
}
use family_messenger_e2e.Crypto.Account.{
  AccountKeys, DerivedKeys, salt_size, key_bundle_size, bundle_aad, check_kdf_params,
  keys_from_secrets, derive_keys, seal_key_bundle, check_secrets, open_key_bundle,
}

check_kdf_params_inv :
    (params : KdfParams)
    → check_kdf_params params ≡ ok tt
    → (3 ≤ params.t) × (65536 ≤ params.m) × (params.p ≡ 1)
unfolding check_kdf_params
check_kdf_params_inv params h = ground arith

unit_ok : (o : Outcome (Unit {0})) {x : Unit {0}} → o ≡ ok x → o ≡ ok tt
unit_ok o {x = tt} h = h

-- Derived keys are the two halves of the 64 bytes that Argon2id makes of the password and the salt
-- under exactly the parameters that were asked for, and these are at least as costly as the
-- protocol's, with its parallelism, and the salt has 16 bytes.
pub derive_keys-IsCostly :
    (l : Library) (password : Text) (salt : Bytes) (params : KdfParams) (k : DerivedKeys)
    → derive_keys l password salt params ≡ ok k
    → (k.auth_key ≡ take 32 (l.argon2id password salt params 64))
      × (k.enc_key ≡ take 32 (drop 32 (l.argon2id password salt params 64)))
      × (3 ≤ params.t)
      × (65536 ≤ params.m)
      × (params.p ≡ 1)
      × (length salt ≡ 16)
unfolding derive_keys argon2id_hash
derive_keys-IsCostly l password salt params k h =
    let (x, checked, h1) = bind_inv (check_kdf_params params) _ h in
    let (t, m, p) = check_kdf_params_inv params (unit_ok (check_kdf_params params) checked) in
    let (size, h2) = ensure-then (length salt == salt_size) _ _ h1 in
    let made = sym (ok-injective h2) in
    (ap (λ x. x.auth_key) made, ap (λ x. x.enc_key) made, t, m, p, (==_iff (length salt) 16).0 size)

-- Keys as `keysFromSecrets` makes them.
keys_from_secrets_inv :
    (l : Library) (seed priv : Bytes) (k : AccountKeys)
    → keys_from_secrets l seed priv ≡ ok k
    → (k.sign_seed ≡ seed) × (k.enc_priv ≡ priv) × (length seed ≡ 32) × (length priv ≡ 32)
unfolding keys_from_secrets
keys_from_secrets_inv l seed priv k h =
    let (sizes, h1) = ensure-then (length seed == 32 && length priv == 32) _ _ h in
    let (p, e, h2) = bind_inv (ed25519_public l seed) _ h1 in
    let (q, f, h3) = bind_inv (x25519_public l priv) _ h2 in
    (
      ap (λ x. x.sign_seed) (sym (ok-injective h3)),
      ap (λ x. x.enc_priv) (sym (ok-injective h3)),
      ground (arith, sizes),
      ground (arith, sizes),
    )

check_secrets_inv :
    (l : Library) (secrets sign_pub enc_pub : Bytes) (k : AccountKeys)
    → check_secrets l secrets sign_pub enc_pub ≡ ok k
    → (k.sign_pub ≡ sign_pub)
      × (k.enc_pub ≡ enc_pub)
      × (length k.sign_seed ≡ 32)
      × (length k.enc_priv ≡ 32)
unfolding check_secrets
check_secrets_inv l secrets sign_pub enc_pub k h =
    let seed = take 32 secrets in
    let priv = take 32 (drop 32 secrets) in
    let (keys, f, h3) = bind_inv (keys_from_secrets l seed priv) _ h in
    let (same, h4) =
      ensure-then (equal keys.sign_pub sign_pub && equal keys.enc_pub enc_pub) key_bundle_mismatch
        (ok keys) h3 in
    let (seed_is, priv_is, n, m) = keys_from_secrets_inv l seed priv keys f in
    let halves : (equal keys.sign_pub sign_pub ≡ true) × (equal keys.enc_pub enc_pub ≡ true) =
      ground (arith, same) in
    subst
      (λ x.
        (x.sign_pub ≡ sign_pub)
        × (x.enc_pub ≡ enc_pub)
        × (length x.sign_seed ≡ 32)
        × (length x.enc_priv ≡ 32))
      (ok-injective h4)
      (
        (equal_iff keys.sign_pub sign_pub).0 halves.0,
        (equal_iff keys.enc_pub enc_pub).0 halves.1,
        ap length seed_is ∙ n,
        ap length priv_is ∙ m,
      )

-- A bundle opens only to keys whose public halves are the expected ones, and whose secrets have 32
-- bytes.
pub open_key_bundle-IsExpected :
    (l : Library) (enc_key bundle sign_pub enc_pub : Bytes) (k : AccountKeys)
    → open_key_bundle l enc_key bundle sign_pub enc_pub ≡ ok k
    → (k.sign_pub ≡ sign_pub)
      × (k.enc_pub ≡ enc_pub)
      × (length k.sign_seed ≡ 32)
      × (length k.enc_priv ≡ 32)
unfolding open_key_bundle
open_key_bundle-IsExpected l enc_key bundle sign_pub enc_pub k h =
    let (size, h1) = ensure-then (length bundle == key_bundle_size) _ _ h in
    let (secrets, e, h2) = bind_inv (aead_decrypt l enc_key _ bundle_aad _) _ h1 in
    check_secrets_inv l secrets sign_pub enc_pub k h2

pub concat_pair : (a b : Bytes) → concat (a ∷ b ∷ []) ≡ a ++ b
unfolding concat
concat_pair a b = ap (λ r. a ++ r) (append-nil b)

-- Keys that `keysFromSecrets` made come back from the bundle that they were sealed into, under the
-- key that sealed it.
pub open_key_bundle-seal_key_bundle :
    (l : Library) (enc_key nonce bundle seed priv : Bytes) (k : AccountKeys)
    → IsStandard l
    → keys_from_secrets l seed priv ≡ ok k
    → seal_key_bundle l enc_key nonce k ≡ ok bundle
    → open_key_bundle l enc_key bundle k.sign_pub k.enc_pub ≡ ok k
unfolding open_key_bundle check_secrets seal_key_bundle
open_key_bundle-seal_key_bundle l enc_key nonce bundle seed priv k std made h =
    let (seed_is, priv_is, n, m) = keys_from_secrets_inv l seed priv k made in
    let again : keys_from_secrets l k.sign_seed k.enc_priv ≡ ok k =
      ap (λ x. keys_from_secrets l x k.enc_priv) seed_is
      ∙ ap (λ x. keys_from_secrets l seed x) priv_is
      ∙ made in
    let plain = concat (k.sign_seed ∷ k.enc_priv ∷ []) in
    let (sealed, e, h1) = bind_inv (aead_encrypt l enc_key nonce bundle_aad plain) _ h in
    let (c_size, n_size) = aead_encrypt_sizes l std enc_key nonce bundle_aad plain sealed e in
    let joined : bundle ≡ nonce ++ sealed = sym (ok-injective h1) ∙ concat_pair nonce sealed in
    let plain_is = concat_pair k.sign_seed k.enc_priv in
    let size = (==_iff (length bundle) key_bundle_size).1 (
      ap length joined
      ∙ omega (
        arith,
        length-append nonce sealed,
        c_size,
        n_size,
        ap length plain_is,
        length-append k.sign_seed k.enc_priv,
        ap length seed_is,
        ap length priv_is,
        n,
        m,
      )) in
    let front = ap (take 24) joined ∙ take-append 24 nonce sealed n_size in
    let back = ap (drop 24) joined ∙ drop-append 24 nonce sealed n_size in
    let seed_size = ap length seed_is ∙ n in
    let priv_size = ap length priv_is ∙ m in
    let first : take 32 plain ≡ k.sign_seed =
      ap (take 32) plain_is ∙ take-append 32 k.sign_seed k.enc_priv seed_size in
    let second : take 32 (drop 32 plain) ≡ k.enc_priv =
      ap (λ x. take 32 (drop 32 x)) plain_is
      ∙ ap (take 32) (drop-append 32 k.sign_seed k.enc_priv seed_size)
      ∙ take_all 32 k.enc_priv (omega (arith, priv_size)) in
    let opened = aead_decrypt-aead_encrypt l std enc_key nonce bundle_aad plain sealed e in
    rw size (
      rw (front, back)
        (rw opened (
          rw (first, second)
            (rw again (
              rw ((equal_iff k.sign_pub k.sign_pub).1 refl, (equal_iff k.enc_pub k.enc_pub).1 refl)
                refl)))))
