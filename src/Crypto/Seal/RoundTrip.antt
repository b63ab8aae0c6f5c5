-- ===== src/Crypto/Seal/RoundTrip.antt =====
-- Sealing a message key and opening it.
use mathlib.Core.List.{append-nil}
use family_messenger_e2e.Base.{
  ◌+◌, ◌≡◌, ◌∙◌, refl, ap, sym, [], ◌∷◌, ◌++◌, length, length-append, take, drop, take-append,
  drop-append, ==_iff, arith,
}
use family_messenger_e2e.Base.Outcome.{ok, bind_inv}
use family_messenger_e2e.Crypto.Bytes.{Bytes, concat}
use family_messenger_e2e.Crypto.Primitives.{
  Library, IsStandard, key_size, x25519_public, x25519_shared, aead_encrypt, aead_encrypt_sizes,
  aead_decrypt-aead_encrypt,
}
use family_messenger_e2e.Crypto.Seal.{sealed_key_size, zero_nonce, seal_key, seal_with, open_box}

concat_pair : (a b : Bytes) → concat (a ∷ b ∷ []) ≡ a ++ b
unfolding concat
concat_pair a b = ap (λ r. a ++ r) (append-nil b)

module _ (l : Library) (std : IsStandard l) where
  shared_comm :
      (a b pa pb : Bytes)
      → x25519_public l a ≡ ok pa
      → x25519_public l b ≡ ok pb
      → x25519_shared l a pb ≡ x25519_shared l b pa
  unfolding x25519_public x25519_shared
  shared_comm a b pa pb ha hb = rw (std.agreement a b pa pb ha hb) refl

  -- What a successful call of `sealWith` has computed.
  record Sealing (eph rpub conv account key box : Bytes) : Type 0 where
    eph_pub : Bytes
    ss : Bytes
    sealed : Bytes
    public_key : x25519_public l eph ≡ ok eph_pub
    shared : x25519_shared l eph rpub ≡ ok ss
    encrypted :
        aead_encrypt l (seal_key l ss eph_pub rpub) zero_nonce (concat (conv ∷ account ∷ [])) key
        ≡ ok sealed
    joined : box ≡ eph_pub ++ sealed
    eph_size : length eph_pub ≡ 32
    sealed_size : length sealed ≡ length key + 16

  seal_with_inv :
      (eph rpub conv account key box : Bytes)
      → seal_with l eph rpub conv account key ≡ ok box
      → Sealing eph rpub conv account key box
  unfolding seal_with
  seal_with_inv eph rpub conv account key box h =
      let (eph_pub, p, h1) = bind_inv (x25519_public l eph) _ h in
      let (ss, s, h2) = bind_inv (x25519_shared l eph rpub) _ h1 in
      let (sealed, c, h3) = bind_inv (aead_encrypt l _ _ _ key) _ h2 in
      record {
        eph_pub = eph_pub;
        ss = ss;
        sealed = sealed;
        public_key = p;
        shared = s;
        encrypted = c;
        joined = cc (concat_pair eph_pub sealed);
        eph_size = unfold x25519_public in std.public_size eph eph_pub p;
        sealed_size = (aead_encrypt_sizes l std _ zero_nonce _ key sealed c).0;
      }

  seal_with-size :
      (eph rpub conv account key box : Bytes)
      → length key ≡ key_size
      → Sealing eph rpub conv account key box
      → length box ≡ sealed_key_size
  seal_with-size eph rpub conv account key box n s =
      rw s.joined (omega (arith, length-append s.eph_pub s.sealed, s.eph_size, s.sealed_size))

  -- The sealed key that `sealWith` makes for a public key has the fixed size.
  pub length-seal_with :
      (eph rpub conv account key box : Bytes)
      → length key ≡ key_size
      → seal_with l eph rpub conv account key ≡ ok box
      → length box ≡ sealed_key_size
  length-seal_with eph rpub conv account key box n h =
      seal_with-size eph rpub conv account key box n (seal_with_inv eph rpub conv account key box h)

  -- A 32-byte key sealed to a public key is recovered by the holder of the private key, given the
  -- same conversation and account.
  pub open_box-seal_with :
      (eph priv rpub conv account key box : Bytes)
      → length key ≡ key_size
      → x25519_public l priv ≡ ok rpub
      → seal_with l eph rpub conv account key ≡ ok box
      → open_box l priv conv account box ≡ ok key
  unfolding open_box
  open_box-seal_with eph priv rpub conv account key box n own h =
      let s = seal_with_inv eph rpub conv account key box h in
      let size =
        (==_iff (length box) sealed_key_size).1
          (seal_with-size eph rpub conv account key box n s) in
      let front : take 32 box ≡ s.eph_pub =
        ap (take 32) s.joined ∙ take-append 32 s.eph_pub s.sealed s.eph_size in
      let back : drop 32 box ≡ s.sealed =
        ap (drop 32) s.joined ∙ drop-append 32 s.eph_pub s.sealed s.eph_size in
      let agreed = sym (shared_comm eph priv s.eph_pub rpub s.public_key own) ∙ s.shared in
      rw size (
        rw front (
          rw agreed (
            rw own
              (rw back (aead_decrypt-aead_encrypt l std _ zero_nonce _ key s.sealed s.encrypted)))))
