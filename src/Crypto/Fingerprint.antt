-- ===== src/Crypto/Fingerprint.antt =====
-- The safety number of an account: web/src/crypto/fingerprint.ts.
use family_messenger_e2e.Base.{Text, [], ◌∷◌, codes, take}
use family_messenger_e2e.Crypto.Bytes.{Bytes, concat, bytes_to_hex}
use family_messenger_e2e.Crypto.Primitives.{Library}

-- Groups of four, joined by blanks.
unfoldable pub grouped : Text → Text
grouped (a ∷ b ∷ c ∷ d ∷ e ∷ s) = a ∷ b ∷ c ∷ d ∷ 32 ∷ grouped (e ∷ s)
grouped s = s

unfoldable pub fingerprint : Library → Bytes → Bytes → Text
fingerprint l sign_pub enc_pub =
    grouped
      (bytes_to_hex (take 16 (l.sha256 (concat (codes "msgr-fp-v1" ∷ sign_pub ∷ enc_pub ∷ [])))))
