-- ===== src/Examples/Invites.antt =====
-- The theorem on invitation links for the code and the address of one server.
use family_messenger_e2e.Base.{◌≡◌, refl, Text, some, [], any, ◌===◌, codes}
use family_messenger_e2e.Invites.{
  UriCodec, is_code, is_code_char, is_alnum, is_letter, is_space, drop_end, drop_join, has_scheme,
  drop_while, is_scheme_char, invite_link, parse_invite_link,
}
use family_messenger_e2e.Invites.Characters.{All-of_any}
use family_messenger_e2e.Invites.Parsed.{
  KeepsCodes, IsOrigin, is_address_char, parse_invite_link-invite_link,
}

-- Neither function touches a character of a code.
abbrev verbatim : UriCodec
verbatim = record { encode = λ s. some s; decode = λ s. some s }

verbatim-KeepsCodes : KeepsCodes verbatim
verbatim-KeepsCodes = record { encode_code = λ s h. refl; decode_code = λ s h. refl }

abbrev server : Text
server = codes "https://chat.example"

abbrev invite : Text
invite = codes "k7mq2xw5"

server-IsOrigin : IsOrigin server
unfolding any is_address_char is_space has_scheme drop_while is_scheme_char is_alnum is_letter
    drop_end drop_join ◌===◌
server-IsOrigin = record {
  plain = All-of_any is_address_char server refl;
  scheme = refl;
  no_slash = refl;
  no_join = refl;
}

parse_invite_link-invite_link_example :
    ((link : Text) × (invite_link verbatim [] invite (some server) ≡ some link)
      × (parse_invite_link verbatim link ≡ some (record { server = server; code = invite })))
    × (parse_invite_link verbatim invite ≡ some (record { server = []; code = invite }))
unfolding is_code is_code_char is_alnum is_letter any
parse_invite_link-invite_link_example =
    parse_invite_link-invite_link verbatim verbatim-KeepsCodes invite refl server server-IsOrigin []
