-- ===== src/Messaging/Trust.antt =====
-- `markRead`, `setRetention`, `setVerified` and `acceptNewKeys`.
use family_messenger_e2e.Base.{ℕ, Text, Bool, true, false, none, some, leb, if◌then◌else◌}
use family_messenger_e2e.Base.Dict.{lookup}
use family_messenger_e2e.Model.Payload.{conv_retention}
use family_messenger_e2e.Model.Database.{Contact, PublicKeys}
use family_messenger_e2e.Model.Client.{
  Client, World, persist_conversation, save_contact, emit, mark_read,
}
use family_messenger_e2e.Model.Task.{Task, modify, ◌>>◌, attempt}
use family_messenger_e2e.Messaging.Send.{send_payload}
use family_messenger_e2e.Messaging.Edit.{request}

-- The request to the server is best effort.
unfoldable pub mark_as_read : Text → ℕ → Client → Client
mark_as_read conv_id seq c = elim (lookup conv_id c.conversations) [
  | none ↦ c
  | some conv ↦
      if leb seq conv.read_seq
      then c
      else emit (mark_read conv_id seq) (persist_conversation (record conv { read_seq = seq }) c)
]

unfoldable pub set_verified : Text → Bool → Client → Client
set_verified id verified c = elim (lookup id c.contacts) [
  | none ↦ c
  | some k ↦ save_contact (record k { verified = verified }) c
]

abbrev pub accepted : Contact → PublicKeys → Contact
accepted k p = record k {
  sign_pub = p.sign_pub;
  enc_pub = p.enc_pub;
  verified = false;
  pending_keys = none;
}

unfoldable pub accept_new_keys : Text → Client → Client
accept_new_keys id c = elim (lookup id c.contacts) [
  | none ↦ c
  | some k ↦ elim k.pending_keys [ none ↦ c | some p ↦ save_contact (accepted k p) c ]
]

abbrev pub keep_retention : Text → ℕ → Client → Client
keep_retention conv_id seconds c = elim (lookup conv_id c.conversations) [
  | none ↦ c
  | some conv ↦ persist_conversation (record conv { retention_seconds = seconds }) c
]

module _ (w : World) where
  unfoldable pub set_retention : Text → ℕ → Task (Unit {0})
  set_retention conv_id seconds = do
    request w
    modify (keep_retention conv_id seconds)
    modify (attempt (send_payload w conv_id (conv_retention seconds) 0 true))
