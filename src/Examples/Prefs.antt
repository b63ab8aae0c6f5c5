-- ===== src/Examples/Prefs.antt =====
-- The theorems on attachments and on the chat list at concrete inputs.
use family_messenger_e2e.Base.{
  ◌≡◌, refl, not, Text, Option, arith, some, none, [], ◌∷◌, ◌++◌, codes, replicate, ◌===◌,
  if◌then◌else◌,
}
use family_messenger_e2e.Base.Outcome.{ok}
use family_messenger_e2e.Crypto.Primitives.{aead_encrypt}
use family_messenger_e2e.Crypto.Files.{EncryptedFile, encrypt_file}
use family_messenger_e2e.Crypto.Bytes.{Bytes}
use family_messenger_e2e.Base.Dict.{lookup}
use family_messenger_e2e.Attachments.{File, announced}
use family_messenger_e2e.Attachments.Opened.{file_url, file_url-announced}
use family_messenger_e2e.ChatPrefs.{
  ChatLists, empty_prefs, has_chat, toggle_pinned, toggle_muted, sign_in, save,
}
use family_messenger_e2e.ChatPrefs.Remembered.{
  signs_in, pins, forgets, acts_all, toggle_pinned-toggle_muted, sign_in-save,
}
use family_messenger_e2e.Examples.Toy.{toy, toy-IsStandard, AreBytes-replicate}
use family_messenger_e2e.Examples.Client.{chat_id, alice_id, me}

abbrev encrypted : EncryptedFile
encrypted = record {
  key = replicate 32 1;
  nonce = replicate 24 2;
  ciphertext = codes "photo" ++ replicate 16 0;
}

abbrev photo : File
photo = record {
  name = codes "me.jpg";
  type = codes "image/jpeg";
  size = 5;
  content = codes "photo";
}

abbrev stored : Text → Option Bytes
stored id = if id === alice_id then some encrypted.ciphertext else none

file_url-announced_example :
    let opened = file_url toy stored (announced photo alice_id encrypted) [] in
    (opened.0 ≡ ok (codes "photo"))
    × (file_url toy (λ id. none) (announced photo alice_id encrypted) opened.1
        ≡ (ok (codes "photo"), opened.1))
unfolding encrypt_file aead_encrypt lookup ◌===◌
file_url-announced_example =
    file_url-announced toy toy-IsStandard stored (replicate 32 1) (replicate 24 2) photo alice_id
      encrypted [] (λ id. none) (AreBytes-replicate 32 1 (omega arith))
      (AreBytes-replicate 24 2 (omega arith)) refl refl refl

abbrev lists : ChatLists
lists = record {
  account = some me;
  prefs = record empty_prefs { muted = chat_id ∷ [] };
  storage = [];
}

toggle_pinned-toggle_muted_example :
    let d = toggle_pinned chat_id lists in
    let e = toggle_muted chat_id lists in
    (has_chat d.prefs.pinned alice_id ≡ (
      if chat_id === alice_id
      then not (has_chat lists.prefs.pinned chat_id)
      else has_chat lists.prefs.pinned alice_id))
    × (d.prefs.muted ≡ lists.prefs.muted)
    × (d.prefs.hidden ≡ lists.prefs.hidden)
    × (lookup me d.storage ≡ (if me === me then some d.prefs else lookup me lists.storage))
    × (has_chat e.prefs.muted alice_id ≡ (
        if chat_id === alice_id
        then not (has_chat lists.prefs.muted chat_id)
        else has_chat lists.prefs.muted alice_id))
    × (e.prefs.pinned ≡ lists.prefs.pinned)
    × (e.prefs.hidden ≡ lists.prefs.hidden)
    × (lookup me e.storage ≡ (if me === me then some e.prefs else lookup me lists.storage))
toggle_pinned-toggle_muted_example = toggle_pinned-toggle_muted me me chat_id alice_id lists refl

sign_in-save_example :
    (sign_in (some me) (
      acts_all
        (pins chat_id ∷ signs_in none ∷ forgets chat_id ∷ [])
        (sign_in (some alice_id) (save lists)))).prefs
    ≡ lists.prefs
unfolding ◌===◌
sign_in-save_example =
    sign_in-save me (some alice_id) (pins chat_id ∷ signs_in none ∷ forgets chat_id ∷ []) lists refl
      refl (refl, (refl, (refl, tt)))
