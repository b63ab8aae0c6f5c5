-- ===== src/Attachments/Opened.antt =====
-- The recipient's side of attachments: fileUrl of web/src/state/attachments.ts.
use family_messenger_e2e.Base.{◌≡◌, refl, subst, Text, Option, none, some, ===_refl}
use family_messenger_e2e.Base.Dict.{Dict, lookup, insert, lookup-insert}
use family_messenger_e2e.Base.Outcome.{Outcome, ok, err, ◌>>=◌, bind_inv, ok-injective}
use family_messenger_e2e.Crypto.Bytes.{Bytes, AreBytes}
use family_messenger_e2e.Crypto.Bytes.Base64.{b64decode, b64decode-b64encode}
use family_messenger_e2e.Crypto.Primitives.{Library, IsStandard, aead_encrypt}
use family_messenger_e2e.Crypto.Files.{
  EncryptedFile, encrypt_file, decrypt_file, decrypt_file-encrypt_file, blob_aad,
}
use family_messenger_e2e.Model.Payload.{FilePayload}
use family_messenger_e2e.Model.Task.{answered}
use family_messenger_e2e.Attachments.{File, announced}

module _ (l : Library) (download : Text → Option Bytes) where
  unfoldable pub open_file : FilePayload → Outcome Bytes
  open_file p = do
    bytes ← answered (download p.blob)
    key ← b64decode p.key
    nonce ← b64decode p.nonce
    decrypt_file l key nonce bytes

  -- A download that failed is not kept.
  abbrev pub kept : Text → Outcome Bytes → Dict Bytes → Dict Bytes
  kept blob (ok plain) cache = insert blob plain cache
  kept blob (err e) cache = cache

  abbrev from_cache : Option Bytes → FilePayload → Dict Bytes → Outcome Bytes × Dict Bytes
  from_cache none p cache = (open_file p, kept p.blob (open_file p) cache)
  from_cache (some plain) p cache = (ok plain, cache)

  -- `fileUrl`: the bytes behind the URL, and the cache by blob.
  unfoldable pub file_url : FilePayload → Dict Bytes → Outcome Bytes × Dict Bytes
  file_url p cache = from_cache (lookup p.blob cache) p cache

-- What `encrypt_file` returns carries the key and the nonce it was given.
encrypt_file-keeps :
    (l : Library) (key nonce content : Bytes) (e : EncryptedFile)
    → encrypt_file l key nonce content ≡ ok e
    → (key ≡ e.key) × (nonce ≡ e.nonce)
unfolding encrypt_file
encrypt_file-keeps l key nonce content e h =
    let (c, _, h1) = bind_inv (aead_encrypt l key nonce blob_aad content) _ h in
    let p = ok-injective h1 in (λ i. (p i).key, λ i. (p i).nonce)

module _ (l : Library) (std : IsStandard l) (download : Text → Option Bytes) where
  pub open_file-announced :
      (key nonce : Bytes) (f : File) (id : Text) (e : EncryptedFile)
      → AreBytes key
      → AreBytes nonce
      → encrypt_file l key nonce f.content ≡ ok e
      → download id ≡ some e.ciphertext
      → open_file l download (announced f id e) ≡ ok f.content
  unfolding open_file
  open_file-announced key nonce f id e hk hn he hd =
      let (k, n) = encrypt_file-keeps l key nonce f.content e he in
      rw
        (
          hd,
          b64decode-b64encode e.key (subst AreBytes k hk),
          b64decode-b64encode e.nonce (subst AreBytes n hn),
        )
        (decrypt_file-encrypt_file l std key nonce f.content e he)

  -- A file that was encrypted under a key and a nonce of bytes, stored as a blob and announced in a
  -- payload opens at the recipient's, who has not opened that blob before, to the picked file; and
  -- from then on it opens without a download, whatever the server answers.
  pub file_url-announced :
      (key nonce : Bytes) (f : File) (id : Text) (e : EncryptedFile) (cache : Dict Bytes)
      (later : Text → Option Bytes)
      → AreBytes key
      → AreBytes nonce
      → encrypt_file l key nonce f.content ≡ ok e
      → download id ≡ some e.ciphertext
      → lookup id cache ≡ none
      → let opened = file_url l download (announced f id e) cache in
        (opened.0 ≡ ok f.content)
        × (file_url l later (announced f id e) opened.1 ≡ (ok f.content, opened.1))
  unfolding file_url
  file_url-announced key nonce f id e cache later hk hn he hd hc =
      rw
        (
          hc,
          open_file-announced key nonce f id e hk hn he hd,
          lookup-insert id id f.content cache,
          ===_refl id,
        )
        (refl, refl)
