-- ===== src/ChatPrefs.antt =====
-- Pinned, muted and hidden chats: web/src/state/chatPrefs.ts. The storage of the browser is a map
-- from accounts to preferences that takes every change; a storage that refuses one is not modelled.
use family_messenger_e2e.Base.{
  ◌≡◌, refl, Text, Bool, true, false, not, Option, none, some, List, [], ◌∷◌, ◌++◌, filter, any,
  ◌===◌, ◌or_else◌, if◌then◌else◌,
}
use family_messenger_e2e.Base.Dict.{Dict, lookup, insert}
pub mod Remembered

pub record Prefs : Type 0 where
  pub pinned : List Text
  pub muted : List Text
  pub hidden : List Text

abbrev pub empty_prefs : Prefs
empty_prefs = record { pinned = []; muted = []; hidden = [] }

-- The signals and the storage.
pub record ChatLists : Type 0 where
  pub account : Option Text
  pub prefs : Prefs
  pub storage : Dict Prefs

abbrev pub has_chat : List Text → Text → Bool
has_chat set id = any (λ x. x === id) set

-- A `Set` with the chat, or without it.
unfoldable pub switched : List Text → Text → Bool → List Text
switched set id true = if has_chat set id then set else set ++ id ∷ []
switched set id false = filter (λ x. not (x === id)) set

-- `read`, when the account changes.
unfoldable pub sign_in : Option Text → ChatLists → ChatLists
sign_in none s = record s { account = none; prefs = empty_prefs }
sign_in (some id) s = record s {
  account = some id;
  prefs = lookup id s.storage or_else empty_prefs;
}

-- `save`
unfoldable pub save : ChatLists → ChatLists
save s = elim s.account [ none ↦ s | some id ↦ record s { storage = insert id s.prefs s.storage } ]

unfoldable pub set_pinned : Text → Bool → ChatLists → ChatLists
set_pinned id on s =
    save (record s { prefs = record s.prefs { pinned = switched s.prefs.pinned id on } })

unfoldable pub set_muted : Text → Bool → ChatLists → ChatLists
set_muted id on s =
    save (record s { prefs = record s.prefs { muted = switched s.prefs.muted id on } })

unfoldable pub set_hidden : Text → Bool → ChatLists → ChatLists
set_hidden id on s =
    save (record s { prefs = record s.prefs { hidden = switched s.prefs.hidden id on } })

unfoldable pub toggle_pinned : Text → ChatLists → ChatLists
toggle_pinned id s = set_pinned id (not (has_chat s.prefs.pinned id)) s

unfoldable pub toggle_muted : Text → ChatLists → ChatLists
toggle_muted id s = set_muted id (not (has_chat s.prefs.muted id)) s

unfoldable pub hide_chat : Text → ChatLists → ChatLists
hide_chat id s = set_hidden id true s

unfoldable pub forget_chat : Text → ChatLists → ChatLists
forget_chat id s = set_hidden id false (set_muted id false (set_pinned id false s))
