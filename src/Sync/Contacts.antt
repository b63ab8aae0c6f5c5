-- ===== src/Sync/Contacts.antt =====
-- `observeKeys` and `applyRoster`: pinning the keys of accounts on first use.
use family_messenger_e2e.Base.{
  ℕ, Text, Bool, true, false, not, ◌&&◌, Option, none, some, List, [], ◌∷◌, length, ◌==◌, ◌===◌,
  ◌or_else◌, if◌then◌else◌,
}
use family_messenger_e2e.Base.Dict.{lookup}
use family_messenger_e2e.Base.Outcome.{ok, err}
use family_messenger_e2e.Crypto.Bytes.{equal}
use family_messenger_e2e.Crypto.Bytes.Base64.{b64decode}
use family_messenger_e2e.Model.Payload.{MemberInfo, MemberView}
use family_messenger_e2e.Model.Database.{PublicKeys, Contact}
use family_messenger_e2e.Model.Client.{Client, save_contact}
use family_messenger_e2e.Model.Task.{Task, lift, modify, pure, ◌>>=◌, ◌>>◌}

abbrev pub same_flag : Option Bool → Option Bool → Bool
same_flag none none = true
same_flag none (some b) = false
same_flag (some a) none = false
same_flag (some true) (some b) = b
same_flag (some false) (some b) = not b

abbrev pub same_text : Option Text → Option Text → Bool
same_text none none = true
same_text none (some b) = false
same_text (some a) none = false
same_text (some a) (some b) = a === b

-- `extra.isBot ?? existing.isBot`
abbrev pub or_old {ℓ} : {A : Type ℓ} → Option A → Option A → Option A
or_old none old = old
or_old (some a) old = some a

abbrev pub keys_equal : PublicKeys → PublicKeys → Bool
keys_equal a b = equal a.sign_pub b.sign_pub && equal a.enc_pub b.enc_pub

abbrev pub pinned : Contact → PublicKeys
pinned c = record { sign_pub = c.sign_pub; enc_pub = c.enc_pub }

abbrev pub already_pending : Option PublicKeys → PublicKeys → Bool
already_pending none keys = false
already_pending (some p) keys = keys_equal p keys

-- What is observed of an account that is not known yet.
abbrev pub first_contact : Text → Text → PublicKeys → Option Bool → Option Text → ℕ → Contact
first_contact id username keys is_bot display_name now = record {
  id = id;
  username = username;
  display_name = display_name;
  is_bot = some (is_bot or_else false);
  sign_pub = keys.sign_pub;
  enc_pub = keys.enc_pub;
  verified = false;
  pending_keys = none;
  first_seen = now;
}

unfoldable pub observe_known :
    Contact → Text → PublicKeys → Option Bool → Option Text → Client → Client
observe_known existing username keys is_bot display_name c =
    if keys_equal (pinned existing) keys
    then (let bot = or_old is_bot existing.is_bot in
        let shown = or_old display_name existing.display_name in
        if existing.username === username
          && same_flag existing.is_bot bot
          && same_text existing.display_name shown
        then c
        else save_contact
            (record existing { username = username; is_bot = bot; display_name = shown }) c)
    else if already_pending existing.pending_keys keys
    then c
    else save_contact (record existing { pending_keys = some keys }) c

unfoldable pub observe_keys : Text → Text → PublicKeys → Option Bool → Option Text → Client → Client
observe_keys id username keys is_bot display_name c = elim (lookup id c.contacts) [
  | none ↦ save_contact (first_contact id username keys is_bot display_name c.now) c
  | some existing ↦ observe_known existing username keys is_bot display_name c
]

-- The keys of a signed membership event, if they are base64 of 32 bytes each.
unfoldable pub member_info_keys : MemberInfo → Option PublicKeys
member_info_keys m = elim (b64decode m.sign_pub) [
  | err e ↦ none
  | ok sign_pub ↦ elim (b64decode m.enc_pub) [
    | err e ↦ none
    | ok enc_pub ↦
        if length sign_pub == 32 && length enc_pub == 32
        then some (record { sign_pub = sign_pub; enc_pub = enc_pub })
        else none
  ]
]

abbrev pub usable : MemberInfo → Option PublicKeys
usable m = elim m.id [ [] ↦ none | _ ∷ _ ↦ member_info_keys m ]

-- The loop of `applyRoster`: the state, and the ids that were taken over.
unfoldable pub apply_roster : List MemberInfo → Client → Client × List Text
apply_roster [] c = (c, [])
apply_roster (m ∷ members) c = elim (usable m) [
  | none ↦ apply_roster members c
  | some keys ↦
      let r = apply_roster members (observe_keys m.id m.username keys none none c) in
      (r.0, m.id ∷ r.1)
]

-- The loop over the members that the server lists; `b64decode` may throw in the middle of it.
unfoldable pub observe_members : List MemberView → Task (Unit {0})
observe_members [] = pure tt
observe_members (m ∷ members) = do
  sign_pub ← lift (b64decode m.sign_pub)
  enc_pub ← lift (b64decode m.enc_pub)
  modify (
      observe_keys m.id m.username (record { sign_pub = sign_pub; enc_pub = enc_pub })
        (some m.is_bot) m.display_name)
  observe_members members
