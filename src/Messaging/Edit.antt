-- ===== src/Messaging/Edit.antt =====
-- `editText` and `deleteMessage`.
use family_messenger_e2e.Base.{Text, true, false, Option, none, some, [], ◌∷◌, ◌===◌, if◌then◌else◌}
use family_messenger_e2e.Base.Outcome.{Outcome, ok, err, not_ready, not_editable, request_failed}
use family_messenger_e2e.Model.Payload.{Payload, text, text_edit, file}
use family_messenger_e2e.Model.Database.{StoredMessage}
use family_messenger_e2e.Model.Client.{Client, World, SessionInfo, emit, delete_blob}
use family_messenger_e2e.Model.Task.{Task, lift, modify, ◌>>◌, counted}
use family_messenger_e2e.Sync.Previews.{set_message_body, remove_local_message}
use family_messenger_e2e.Messaging.Send.{send_payload}

-- The body of one of our own text messages.
abbrev pub own_text : Text → StoredMessage → Option Payload → Option Text
own_text account original (some (text body)) =
    if original.sender === account then some body else none
own_text account original _ = none

-- The `catch` of `editText` writes the old body back.
abbrev pub or_restore :
    (Client → Client) → Outcome (Unit {0}) × Client → Outcome (Unit {0}) × Client
or_restore restore (ok x, c) = (ok x, c)
or_restore restore (err e, c) = (err e, restore c)

abbrev pub delete_attachment : Option Payload → Client → Client
delete_attachment (some (file f)) c = elim f.blob [ [] ↦ c | _ ∷ _ ↦ emit (delete_blob f.blob) c ]
delete_attachment _ c = c

module _ (w : World) where
  unfoldable pub request : Task (Unit {0})
  request c = (if w.accepts c.requests then ok tt else err request_failed, counted c)

  unfoldable pub rewrite_own : Text → StoredMessage → (previous body : Text) → Task (Unit {0})
  rewrite_own conv_id original previous body c =
      or_restore (set_message_body conv_id original.seq previous original.edited) (
        send_payload w conv_id (text_edit (some original.client_msg_id) (some body)) 0 false
          (set_message_body conv_id original.seq body true c))

  unfoldable pub edit_as : Option SessionInfo → Text → StoredMessage → Text → Task (Unit {0})
  edit_as none conv_id original body = lift (err not_ready)
  edit_as (some s) conv_id original body = elim (own_text s.account_id original original.payload) [
    | none ↦ lift (err not_editable)
    | some previous ↦ rewrite_own conv_id original previous body
  ]

  unfoldable pub edit_text : Text → StoredMessage → Text → Task (Unit {0})
  edit_text conv_id original body c = edit_as c.session conv_id original body c

  unfoldable pub delete_message : Text → StoredMessage → Task (Unit {0})
  delete_message conv_id m = do
    request
    modify (remove_local_message w conv_id m.seq)
    modify (delete_attachment m.payload)
