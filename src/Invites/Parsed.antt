-- ===== src/Invites/Parsed.antt =====
-- Reading an invitation link back: web/src/state/invite.ts.
use family_messenger_e2e.Base.{
  ℕ, Text, Bool, true, false, not, ◌&&◌, ◌≡◌, refl, ◌∙◌, some, [], ◌∷◌, ◌++◌, any, All, All-append,
  arith, ◌==◌, ◌===◌, codes,
}
use family_messenger_e2e.Invites.{
  UriCodec, is_letter, is_alnum, is_code_char, is_space, is_slash, drop_end, trim, trim_slashes,
  is_code, cut, split, query_param, param_of, drop_join, has_scheme, with_scheme, is_special,
  invite_link, parse_invite_link, of_trimmed, server_of, of_raw, of_link,
}
use family_messenger_e2e.Invites.Characters.{
  drop_end-last, trim-clean, cut-past, split-none, any-reached, All-of_any, All-imp, All-none,
  any-none, after_all,
}

is_code-chars : (s : Text) → is_code s ≡ true → All (λ c. is_code_char c ≡ true) s
unfolding is_code is_code_char
is_code-chars [] h = cc
is_code-chars (c ∷ s) h = (ground arith, All-of_any is_code_char s (ground arith))

-- What is no code character.
code_char-clean : (c : ℕ) → is_code_char c ≡ true → is_space c ≡ false
unfolding is_code_char is_alnum is_letter is_space
code_char-clean c h = ground arith

code_char-plain : (c : ℕ) → is_code_char c ≡ true → (c == 38) ≡ false
unfolding is_code_char is_alnum is_letter
code_char-plain c h = ground arith

code_char-ordinary : (c : ℕ) → is_code_char c ≡ true → is_special c ≡ false
unfolding is_code_char is_alnum is_letter
code_char-ordinary c h = ground arith

-- The documented behaviour of the two functions on the characters of a code.
pub record KeepsCodes (u : UriCodec) : Type 0 where
  pub encode_code : (s : Text) → All (λ c. is_code_char c ≡ true) s → u.encode s ≡ some s
  pub decode_code : (s : Text) → All (λ c. is_code_char c ≡ true) s → u.decode s ≡ some s

-- No white space, query or fragment.
unfoldable pub is_address_char : ℕ → Bool
is_address_char c = not (is_space c) && (not (c == 63) && not (c == 35))

-- An origin as browsers and servers name it: a scheme, and no slash or `/join` at its end.
pub record IsOrigin (o : Text) : Type 0 where
  pub plain : All (λ c. is_address_char c ≡ true) o
  pub scheme : has_scheme o ≡ true
  pub no_slash : drop_end is_slash o ≡ o
  pub no_join : drop_join o ≡ o

address_char-clean : (c : ℕ) → is_address_char c ≡ true → is_space c ≡ false
unfolding is_address_char
address_char-clean c h = ground arith

address_char-ordinary :
    (c : ℕ) → is_address_char c ≡ true → ((c == 63) ≡ false) × ((c == 35) ≡ false)
unfolding is_address_char
address_char-ordinary c h = (ground arith, ground arith)

abbrev link_of : Text → Text → Text
link_of o code = o ++ (codes "/#/join?code=" ++ code)

module _ (u : UriCodec) (ku : KeepsCodes u) (code : Text) (hc : is_code code ≡ true) where
  trim-code : trim code ≡ code
  trim-code = trim-clean code (
      All-imp (λ c. is_code_char c ≡ true) (λ c. is_space c ≡ false) code code_char-clean
        (is_code-chars code hc))

  invite_link-code :
      (page o : Text)
      → trim_slashes o ≡ o
      → invite_link u page code (some o) ≡ some (link_of o code)
  unfolding invite_link
  invite_link-code page o h = rw (trim-code, ku.encode_code code (is_code-chars code hc), h) refl

  query_param-join : query_param (codes "/join?code=" ++ code) (codes "code") ≡ some code
  unfolding query_param cut split param_of ◌===◌
  query_param-join =
      rw
        (split-none 38 code (
          All-imp (λ c. is_code_char c ≡ true) (λ c. (c == 38) ≡ false) code code_char-plain
            (is_code-chars code hc)))
        refl

  of_raw-code :
      (base : Text)
      → of_raw u base (some code) ≡ some (record { server = server_of u base; code = code })
  of_raw-code base = rw (ku.decode_code code (is_code-chars code hc), trim-code, hc) refl

with_scheme-origin : (o : Text) → has_scheme o ≡ true → with_scheme o ≡ o
unfolding with_scheme has_scheme
with_scheme-origin [] h = refl
with_scheme-origin (c ∷ s) h = rw h refl

module _ (o : Text) (ho : IsOrigin o) where
  origin-clean : All (λ c. is_space c ≡ false) o
  origin-clean =
      All-imp (λ c. is_address_char c ≡ true) (λ c. is_space c ≡ false) o address_char-clean
        ho.plain

  trim_slashes-origin : trim_slashes o ≡ o
  unfolding trim_slashes
  trim_slashes-origin = rw (trim-clean o origin-clean) ho.no_slash

  trim_slashes-slash : trim_slashes (o ++ codes "/") ≡ o
  unfolding trim_slashes is_space
  trim_slashes-slash =
      rw
        (trim-clean (o ++ codes "/")
          (All-append (λ c. is_space c ≡ false) o (codes "/") origin-clean (refl, tt)))
        (drop_end-last is_slash o 47 refl ∙ ho.no_slash)

  server_of-slash : (u : UriCodec) → server_of u (o ++ codes "/") ≡ o
  unfolding cut
  server_of-slash u =
      rw
        (
          cut-past 63 o (codes "/") (
              All-imp (λ c. is_address_char c ≡ true) (λ c. (c == 63) ≡ false) o
                (λ c h. (address_char-ordinary c h).0) ho.plain),
          trim_slashes-slash,
          ho.no_join,
        )
        (with_scheme-origin o ho.scheme)

of_trimmed-special :
    (u : UriCodec) (s : Text) → any is_special s ≡ true → of_trimmed u s ≡ of_link u s
unfolding any
of_trimmed-special u [] h = cc
of_trimmed-special u (c ∷ s) h = rw h refl

of_trimmed-bare :
    (u : UriCodec) (s : Text)
    → any is_special s ≡ false
    → is_code s ≡ true
    → of_trimmed u s ≡ some (record { server = []; code = s })
unfolding any is_code
of_trimmed-bare u [] h k = cc
of_trimmed-bare u (c ∷ s) h k = rw (h, k) refl

module _ (u : UriCodec) (ku : KeepsCodes u) (code : Text) (hc : is_code code ≡ true) (o : Text)
    (ho : IsOrigin o) where
  trim-link : trim (link_of o code) ≡ link_of o code
  unfolding any is_space
  trim-link = trim-clean (link_of o code) (
      All-append (λ c. is_space c ≡ false) o (codes "/#/join?code=" ++ code) (origin-clean o ho)
        (All-append (λ c. is_space c ≡ false) (codes "/#/join?code=") code
          (All-none is_space (codes "/#/join?code=") refl)
          (All-imp (λ c. is_code_char c ≡ true) (λ c. is_space c ≡ false) code code_char-clean
            (is_code-chars code hc))))

  of_link-code : of_link u (link_of o code) ≡ some (record { server = o; code = code })
  unfolding cut after_all
  of_link-code =
      rw
        (
          cut-past 35 o (codes "/#/join?code=" ++ code) (
              All-imp (λ c. is_address_char c ≡ true) (λ c. (c == 35) ≡ false) o
                (λ c h. (address_char-ordinary c h).1) ho.plain),
          query_param-join u ku code hc,
          of_raw-code u ku code hc,
          server_of-slash o ho u,
        )
        refl

  -- The link that is made for an invite code and an origin exists and is read back as that code and
  -- that origin, and the bare code is read as the code with no server, where the origin has a
  -- scheme, no white space, query or fragment, and neither a slash nor `/join` at its end, and where
  -- the platform encodes and decodes the characters of codes as themselves.
  pub parse_invite_link-invite_link :
      (page : Text)
      → ((link : Text) × (invite_link u page code (some o) ≡ some link)
          × (parse_invite_link u link ≡ some (record { server = o; code = code })))
        × (parse_invite_link u code ≡ some (record { server = []; code = code }))
  unfolding parse_invite_link
  parse_invite_link-invite_link page = (
    (
      link_of o code,
      invite_link-code u ku code hc page o (trim_slashes-origin o ho),
      rw (trim-link) (
          of_trimmed-special u (link_of o code)
            (any-reached is_special o (codes "#/join?code=" ++ code) 47 refl)
          ∙ of_link-code),
    ),
    rw (trim-code u ku code hc) (
        of_trimmed-bare u code
          (any-none is_special code (
            All-imp (λ c. is_code_char c ≡ true) (λ c. is_special c ≡ false) code code_char-ordinary
              (is_code-chars code hc)))
          hc),
  )
