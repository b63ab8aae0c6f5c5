-- ===== src/Model/Payload.antt =====
-- Plaintext payloads and the wire types of the server's API: web/src/api/types.ts.
use family_messenger_e2e.Base.{ℕ, Text, Bool, Option, List}

pub data Kind : Type 0 where
  direct group : Kind

pub data Role : Type 0 where
  owner member : Role

-- A member as carried inside signed membership events; the keys are base64.
pub record MemberInfo : Type 0 where
  pub id : Text
  pub username : Text
  pub sign_pub : Text
  pub enc_pub : Text

pub record FilePayload : Type 0 where
  pub blob : Text
  pub key : Text
  pub nonce : Text
  pub name : Text
  pub mime : Text
  pub size : ℕ

-- An ICE candidate is passed on unread.
abbrev pub Candidate : Type 0
Candidate = Text

pub data CallSignal : Type 0 where
  offer answer : (sdp : Text) (video : Bool) (candidates : List Candidate) → CallSignal
  video share : (on : Bool) → CallSignal
  ice : List Candidate → CallSignal
  reject : (reason : Text) → CallSignal
  hangup : CallSignal

pub data VoiceSignal : Type 0 where
  join here : (muted sharing camera : Bool) → VoiceSignal
  share camera : (on : Bool) → VoiceSignal
  leave : VoiceSignal
  offer answer : (to sdp : Text) → VoiceSignal
  ice : (to : Text) → List Candidate → VoiceSignal

-- One constructor for each `t`. A text.edit's fields are `none` where they are no strings; `untyped`
-- is a value whose `t` is no string, and `other` one whose `t` the client does not know.
pub data Payload : Type 0 where
  text : (body : Text) → Payload
  text_edit : (ref body : Option Text) → Payload
  file : FilePayload → Payload
  conv_create : Kind → (name : Option Text) → List MemberInfo → Payload
  member_add : MemberInfo → List MemberInfo → Payload
  member_remove : (id : Text) → List MemberInfo → Payload
  conv_rename : (name : Text) → Payload
  conv_retention : (seconds : ℕ) → Payload
  call : (id : Text) → CallSignal → Payload
  voice : (session : Text) → VoiceSignal → Payload
  other untyped : Payload

pub record MemberView : Type 0 where
  pub id : Text
  pub username : Text
  pub display_name : Option Text
  pub sign_pub : Text
  pub enc_pub : Text
  pub is_bot : Bool

pub record UserView : Type 0 where
  pub id : Text
  pub username : Text
  pub display_name : Option Text
  pub sign_pub : Text
  pub enc_pub : Text
  pub is_bot : Bool

pub record ConversationView : Type 0 where
  pub id : Text
  pub kind : Kind
  pub created_by : Text
  pub created_at : ℕ
  pub last_seq : ℕ
  pub read_seq : ℕ
  pub joined_seq : ℕ
  pub role : Role
  pub retention_seconds : Option ℕ
  pub members : List MemberView

pub record MessageView : Type 0 where
  pub conv_id : Text
  pub seq : ℕ
  pub sender_account : Text
  pub sender_device : Text
  pub client_msg_id : Text
  pub env : Text
  pub sig : Text
  pub server_ts : ℕ
  -- Of a deletion record: the message that was removed. 0 counts as absent.
  pub deleted_seq : ℕ

-- The answer to a request for messages.
pub record Page : Type 0 where
  pub messages : List MessageView
  pub has_more : Bool

pub data Event : Type 0 where
  password_changed : (device : Option Text) (at : Option ℕ) → Event
  conv_updated member_added member_removed conv_removed : (conv_id : Text) → Event
  read_updated : (conv_id : Text) (seq : Option ℕ) → Event
  other_event : Event
