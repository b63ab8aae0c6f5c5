-- ===== src/Invites.antt =====
-- Invitation links: web/src/state/invite.ts. The two functions of the platform that encode and
-- decode a component of an address are a parameter.
pub mod Characters
pub mod Parsed
use family_messenger_e2e.Base.{
  ℕ, Text, Bool, true, false, not, ◌&&◌, ◌||◌, Option, none, some, List, [], ◌∷◌, ◌++◌, any, length,
  leb, ◌==◌, ◌===◌, codes, ◌or_else◌, if◌then◌else◌,
}

-- `encodeURIComponent` and `decodeURIComponent`, `none` where they throw.
pub record UriCodec : Type 0 where
  pub encode : Text → Option Text
  pub decode : Text → Option Text

pub record ParsedInvite : Type 0 where
  pub server : Text
  pub code : Text

abbrev between : ℕ → ℕ → ℕ → Bool
between low high c = leb low c && leb c high

-- `[A-Za-z]`, `[A-Za-z0-9]`, `[A-Za-z0-9_-]` and `[a-zA-Z0-9+.-]`
unfoldable pub is_letter : ℕ → Bool
is_letter c = between 65 90 c || between 97 122 c

unfoldable pub is_alnum : ℕ → Bool
unfolding is_letter
is_alnum c = is_letter c || between 48 57 c

unfoldable pub is_code_char : ℕ → Bool
is_code_char c = is_alnum c || (c == 95 || c == 45)

unfoldable pub is_scheme_char : ℕ → Bool
is_scheme_char c = is_alnum c || (c == 43 || (c == 46 || c == 45))

-- The white space and line ends that `trim` takes off.
unfoldable pub is_space : ℕ → Bool
is_space c =
    between 9 13 c
    || c == 32
    || c == 160
    || c == 5760
    || between 8192 8202 c
    || between 8232 8233 c
    || c == 8239
    || c == 8287
    || c == 12288
    || c == 65279

abbrev pub is_slash : ℕ → Bool
is_slash c = c == 47

unfoldable pub drop_while : (ℕ → Bool) → Text → Text
drop_while p [] = []
drop_while p (c ∷ s) = let rest = drop_while p s in if p c then rest else c ∷ s

abbrev pub unless_empty : Bool → ℕ → Text → Text
unless_empty dropped c [] = if dropped then [] else c ∷ []
unless_empty dropped c (d ∷ s) = c ∷ d ∷ s

-- Without the longest ending whose characters all pass the test.
unfoldable pub drop_end : (ℕ → Bool) → Text → Text
drop_end p [] = []
drop_end p (c ∷ s) = unless_empty (p c) c (drop_end p s)

unfoldable pub trim : Text → Text
trim s = drop_end is_space (drop_while is_space s)

unfoldable pub trim_slashes : Text → Text
trim_slashes origin = drop_end is_slash (trim origin)

-- `CODE_RE`
unfoldable pub is_code : Text → Bool
is_code [] = false
is_code (c ∷ s) = is_alnum c && (not (any (λ d. not (is_code_char d)) s) && between 2 63 (length s))

abbrev pub prepend : ℕ → Text × Text → Text × Text
prepend d (before, after) = (d ∷ before, after)

abbrev pub mapped {ℓ} : {A : Type ℓ} → (A → A) → Option A → Option A
mapped f none = none
mapped f (some a) = some (f a)

-- What stands before and after the first `c`, where there is one.
unfoldable pub cut : ℕ → Text → Option (Text × Text)
cut c [] = none
cut c (d ∷ s) = let rest = cut c s in if d == c then some ([], s) else mapped (prepend d) rest

abbrev pub onto_first : ℕ → List Text → List Text
onto_first d [] = (d ∷ []) ∷ []
onto_first d (s ∷ ss) = (d ∷ s) ∷ ss

unfoldable pub split : ℕ → Text → List Text
split c [] = [] ∷ []
split c (d ∷ s) = let rest = split c s in if d == c then [] ∷ rest else onto_first d rest

abbrev pub value_in : Text → Option (Text × Text) → Option Text
value_in name none = none
value_in name (some (key, value)) = if key === name then some value else none

abbrev pub either : Option Text → Option Text → Option Text
either none next = next
either (some value) next = some value

unfoldable pub param_of : Text → List Text → Option Text
param_of name [] = none
param_of name (pair ∷ pairs) = either (value_in name (cut 61 pair)) (param_of name pairs)

abbrev pub query_of : Text → Option (Text × Text) → Text
query_of part (some (path, query)) = query
query_of part none = if any (λ c. c == 61) part then part else []

unfoldable pub query_param : Text → Text → Option Text
query_param part name = param_of name (split 38 (query_of part (cut 63 part)))

-- `replace(/\/join$/, '')`
unfoldable pub drop_join : Text → Text
drop_join [] = []
drop_join (c ∷ s) = let rest = drop_join s in if (c ∷ s) === codes "/join" then [] else c ∷ rest

abbrev starts_with : Text → Text → Bool
starts_with [] s = true
starts_with (c ∷ p) [] = false
starts_with (c ∷ p) (d ∷ s) = c == d && starts_with p s

unfoldable pub has_scheme : Text → Bool
has_scheme [] = false
has_scheme (c ∷ s) = is_letter c && starts_with (codes "://") (drop_while is_scheme_char s)

unfoldable pub with_scheme : Text → Text
with_scheme [] = []
with_scheme (c ∷ s) = if has_scheme (c ∷ s) then c ∷ s else codes "https://" ++ c ∷ s

-- `/[/?#:]/`
abbrev pub is_special : ℕ → Bool
is_special c = c == 47 || (c == 63 || (c == 35 || c == 58))

abbrev pub before : Text → Option (Text × Text) → Text
before s none = s
before s (some (head, tail)) = head

abbrev pub after : Option (Text × Text) → Text
after none = []
after (some (head, tail)) = tail

module _ (u : UriCodec) where
  -- `location.origin` of the page is an argument.
  unfoldable pub invite_link : Text → Text → Option Text → Option Text
  invite_link page code origin =
      mapped (λ encoded. trim_slashes (origin or_else page) ++ (codes "/#/join?code=" ++ encoded))
        (u.encode (trim code))

  abbrev pub server_of : Text → Text
  server_of base = with_scheme (drop_join (trim_slashes (before base (cut 63 base))))

  abbrev pub of_raw : Text → Option Text → Option ParsedInvite
  of_raw base none = none
  of_raw base (some raw) =
      let code = trim (u.decode raw or_else raw) in
      if is_code code then some (record { server = server_of base; code = code }) else none

  abbrev pub of_link : Text → Option ParsedInvite
  of_link s =
      let hash = cut 35 s in
      let base = before s hash in
      of_raw base
        (either (query_param (after hash) (codes "code")) (query_param base (codes "code")))

  abbrev pub of_trimmed : Text → Option ParsedInvite
  of_trimmed [] = none
  of_trimmed (c ∷ s) =
      if any is_special (c ∷ s)
      then of_link (c ∷ s)
      else if is_code (c ∷ s)
      then some (record { server = []; code = c ∷ s })
      else none

  unfoldable pub parse_invite_link : Text → Option ParsedInvite
  parse_invite_link value = of_trimmed (trim value)
