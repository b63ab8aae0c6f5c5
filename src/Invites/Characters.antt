-- ===== src/Invites/Characters.antt =====
-- What the cutting and trimming of texts leaves: web/src/state/invite.ts.
use family_messenger_e2e.Base.{
  ℕ, Text, Bool, true, false, not, ◌≡◌, refl, sym, ap, Option, none, some, [], ◌∷◌, ◌++◌, any, All,
  arith, ◌==◌,
}
use family_messenger_e2e.Invites.{
  is_space, drop_while, drop_end, unless_empty, trim, cut, split, mapped, prepend,
}

module _ (p : ℕ → Bool) where
  pub drop_while-none : (s : Text) → All (λ c. p c ≡ false) s → drop_while p s ≡ s
  unfolding drop_while
  drop_while-none [] h = refl
  drop_while-none (c ∷ s) h = ground (arith, h.0)

  pub drop_end-none : (s : Text) → All (λ c. p c ≡ false) s → drop_end p s ≡ s
  unfolding drop_end
  drop_end-none [] h = refl
  drop_end-none (c ∷ []) h = rw h.0 refl
  drop_end-none (c ∷ d ∷ s) h = rw (drop_end-none (d ∷ s) h.1) refl

  pub drop_end-last : (s : Text) (c : ℕ) → p c ≡ true → drop_end p (s ++ c ∷ []) ≡ drop_end p s
  unfolding drop_end
  drop_end-last [] c h = rw h refl
  drop_end-last (d ∷ s) c h = ap (unless_empty (p d) d) (drop_end-last s c h)

pub trim-clean : (s : Text) → All (λ c. is_space c ≡ false) s → trim s ≡ s
unfolding trim
trim-clean s h = rw (drop_while-none is_space s h) (drop_end-none is_space s h)

unfoldable pub after_all : Text → Text × Text → Text × Text
after_all s (a, b) = (s ++ a, b)

mapped-after_none : (r : Option (Text × Text)) → mapped (after_all []) r ≡ r
unfolding after_all
mapped-after_none none = refl
mapped-after_none (some r) = refl

mapped-after_more :
    (d : ℕ) (s : Text) (r : Option (Text × Text))
    → mapped (prepend d) (mapped (after_all s) r) ≡ mapped (after_all (d ∷ s)) r
unfolding after_all
mapped-after_more d s none = refl
mapped-after_more d s (some r) = refl

-- A character is looked for behind a text that has none.
pub cut-past :
    (c : ℕ) (s t : Text)
    → All (λ d. (d == c) ≡ false) s
    → cut c (s ++ t) ≡ mapped (after_all s) (cut c t)
unfolding cut
cut-past c [] t h = sym (mapped-after_none (cut c t))
cut-past c (d ∷ s) t h = rw (h.0, cut-past c s t h.1) (mapped-after_more d s (cut c t))

pub split-none : (c : ℕ) (s : Text) → All (λ d. (d == c) ≡ false) s → split c s ≡ s ∷ []
unfolding split
split-none c [] h = refl
split-none c (d ∷ s) h = rw (h.0, split-none c s h.1) refl

pub any-reached : (p : ℕ → Bool) (s t : Text) (c : ℕ) → p c ≡ true → any p (s ++ c ∷ t) ≡ true
unfolding any
any-reached p [] t c h = ground (arith, h)
any-reached p (d ∷ s) t c h = ground (arith, any-reached p s t c h)

pub All-of_any :
    (p : ℕ → Bool) (s : Text) → any (λ d. not (p d)) s ≡ false → All (λ d. p d ≡ true) s
unfolding any
All-of_any p [] h = tt
All-of_any p (c ∷ s) h = (ground arith, All-of_any p s (ground arith))

pub All-imp : (P Q : ℕ → Type 0) (s : Text) → ((c : ℕ) → P c → Q c) → All P s → All Q s
All-imp P Q [] f h = tt
All-imp P Q (c ∷ s) f h = (f c h.0, All-imp P Q s f h.1)

pub All-none : (p : ℕ → Bool) (s : Text) → any p s ≡ false → All (λ c. p c ≡ false) s
unfolding any
All-none p [] h = tt
All-none p (c ∷ s) h = (ground arith, All-none p s (ground arith))

pub any-none : (p : ℕ → Bool) (s : Text) → All (λ c. p c ≡ false) s → any p s ≡ false
unfolding any
any-none p [] h = refl
any-none p (c ∷ s) h = ground (arith, h.0, any-none p s h.1)
