-- ===== src/Examples/Messaging.antt =====
-- The theorems on outgoing messages at the client of the runs.
use family_messenger_e2e.Base.{
  ◌≡◌, refl, List, [], ◌∷◌, codes, replicate, All, map, filter, any, ◌===◌, find,
}
use family_messenger_e2e.Base.Dict.{lookup}
use family_messenger_e2e.Base.Outcome.{not_ready}
use family_messenger_e2e.Crypto.Envelope.Header.{Recipient}
use family_messenger_e2e.Model.Database.{get_message}
use family_messenger_e2e.Messaging.Recipients.{
  includes, sealing_members, recipients_for, recipients_of, recipient_of, add_bots,
}
use family_messenger_e2e.Messaging.Edit.{edit_text, edit_as, rewrite_own}
use family_messenger_e2e.Messaging.Send.{send_payload, send_as}
use family_messenger_e2e.Messaging.Sealed.{
  IsPinnedKey, is_meant, recipients_for-IsPinnedKey, includes-sealing_members,
}
use family_messenger_e2e.Messaging.Rollback.{get_message-edit_text}
use family_messenger_e2e.Sync.Previews.{
  set_message_body, rewrite_body, update_conversation, update_loaded,
}
use family_messenger_e2e.Model.Client.{set_messages}
use family_messenger_e2e.Examples.Client.{me, alice_id, chat_id, chat, new_text, client, world}

abbrev recipients : List Recipient
recipients =
    record { account = alice_id; enc_pub = replicate 32 2 }
    ∷ record { account = me; enc_pub = replicate 32 2 }
    ∷ []

recipients_for-IsPinnedKey_example :
    (map (λ (r : Recipient). r.account) recipients ≡ sealing_members client.contacts chat me)
    × All (IsPinnedKey client.contacts) recipients
unfolding recipients_for recipients_of recipient_of sealing_members add_bots lookup ◌===◌ filter any
recipients_for-IsPinnedKey_example =
    recipients_for-IsPinnedKey client.contacts chat me recipients refl

includes-sealing_members_example :
    includes (sealing_members client.contacts chat me) alice_id
    ≡ is_meant client.contacts chat me alice_id
includes-sealing_members_example = includes-sealing_members client.contacts chat me alice_id

-- Without keys nothing can be sent, and the edit is taken back.
get_message-edit_text_example :
    get_message chat_id 4 (edit_text world chat_id new_text (codes "ho") client).1.db
    ≡ get_message chat_id 4 client.db
unfolding edit_text edit_as rewrite_own send_payload send_as ◌===◌ find get_message set_message_body
    rewrite_body update_conversation lookup update_loaded set_messages
get_message-edit_text_example =
    get_message-edit_text world chat_id new_text (codes "ho") client not_ready chat_id 4 refl refl
