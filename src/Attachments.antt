-- ===== src/Attachments.antt =====
-- Encrypted attachments: web/src/state/attachments.ts. Thumbnails and sizes of pictures, which the
-- page draws, are left out, and so is the mark of a bubble that is being uploaded.
pub mod Opened
use family_messenger_e2e.Base.{
  ℕ, Text, Bool, true, false, not, Option, none, some, [], ◌∷◌, ltb, codes, ◌or_else◌,
}
use family_messenger_e2e.Base.Outcome.{
  Outcome, ok, err, ensure, attachments_disabled, file_too_large, request_failed,
}
use family_messenger_e2e.Crypto.Bytes.{Bytes}
use family_messenger_e2e.Crypto.Bytes.Base64.{b64encode}
use family_messenger_e2e.Crypto.Files.{EncryptedFile, encrypt_file}
use family_messenger_e2e.Model.Payload.{file, FilePayload}
use family_messenger_e2e.Model.Client.{Client, World, PendingMessage}
use family_messenger_e2e.Model.Task.{Task, lift, modify, ◌>>=◌, ◌>>◌, counted, answered}
use family_messenger_e2e.Model.Views.{non_empty_or}
use family_messenger_e2e.Messaging.Send.{add_pending, fail_pending, dismiss_pending, send_payload}

-- A file that the user picked.
pub record File : Type 0 where
  pub name : Text
  pub type : Text
  pub size : ℕ
  pub content : Bytes

-- `attachmentLimit`, of the server's setting.
unfoldable pub attachment_limit : Option ℕ → ℕ
attachment_limit max_attachment_bytes = max_attachment_bytes or_else 52428800

abbrev pub payload_of : File → FilePayload
payload_of f = record {
  blob = [];
  key = [];
  nonce = [];
  name = non_empty_or f.name (codes "file");
  mime = non_empty_or f.type (codes "application/octet-stream");
  size = f.size;
}

abbrev pub announced : File → Text → EncryptedFile → FilePayload
announced f id e = record (payload_of f) {
  blob = id;
  key = b64encode e.key;
  nonce = b64encode e.nonce;
}

abbrev pub uploading : Text → Text → File → Client → PendingMessage
uploading temp_id conv_id f c = record {
  client_msg_id = temp_id;
  conv_id = conv_id;
  payload = file (payload_of f);
  ts = c.now;
  failed = false;
}

-- `catch` that marks the bubble and throws on.
abbrev pub or_failed : Text → Outcome (Unit {0}) × Client → Outcome (Unit {0}) × Client
or_failed temp_id (ok x, c) = (ok x, c)
or_failed temp_id (err e, c) = (err e, fail_pending temp_id c)

-- The answer of uploadBlob.
module _ (w : World) (upload : ℕ → Text → Bytes → Option Text) where
  unfoldable pub upload_blob : Text → Bytes → Task Text
  upload_blob conv_id content c = (answered (upload c.requests conv_id content), counted c)

  unfoldable pub upload_and_send : Text → Text → File → Bytes → Bytes → Task (Unit {0})
  unfolding upload_blob
  upload_and_send temp_id conv_id f key nonce = do
    e ← lift (encrypt_file w.library key nonce f.content)
    id ← upload_blob conv_id e.ciphertext
    modify (dismiss_pending temp_id)
    send_payload w conv_id (file (announced f id e)) 0 true

  -- The identifier of the bubble, and the random key and nonce, are arguments.
  unfoldable pub send_file : Option ℕ → Text → Text → File → Bytes → Bytes → Task (Unit {0})
  unfolding attachment_limit upload_and_send
  send_file max_bytes temp_id conv_id f key nonce = do
    lift (ensure (ltb 0 (attachment_limit max_bytes)) attachments_disabled)
    lift (ensure (not (ltb (attachment_limit max_bytes) f.size)) file_too_large)
    modify (λ c. add_pending (uploading temp_id conv_id f c) c)
    λ c. or_failed temp_id (upload_and_send temp_id conv_id f key nonce c)
