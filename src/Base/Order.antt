-- ===== src/Base/Order.antt =====
-- Stable sorting by a numeric key, as `Array.sort` with `(a, b) => a.seq - b.seq` does.
use Prim.Native.Nat.{ℕ}
use mathlib.Core.List.{List, [], ◌∷◌}
use family_messenger_e2e.Base.Tests.{leb, if◌then◌else◌}

module _ {ℓ} {A : Type ℓ} (key : A → ℕ) where
  unfoldable pub insert_by : A → List A → List A
  insert_by x [] = x ∷ []
  insert_by x (y ∷ ys) =
      let rest = insert_by x ys in if leb (key x) (key y) then x ∷ y ∷ ys else y ∷ rest

  unfoldable pub sort_by : List A → List A
  unfolding insert_by
  sort_by [] = []
  sort_by (x ∷ xs) = insert_by x (sort_by xs)

  -- The same, greatest first: `(a, b) => b.ts - a.ts`.
  unfoldable pub insert_by_desc : A → List A → List A
  insert_by_desc x [] = x ∷ []
  insert_by_desc x (y ∷ ys) =
      let rest = insert_by_desc x ys in if leb (key y) (key x) then x ∷ y ∷ ys else y ∷ rest

  unfoldable pub sort_by_desc : List A → List A
  unfolding insert_by_desc
  sort_by_desc [] = []
  sort_by_desc (x ∷ xs) = insert_by_desc x (sort_by_desc xs)
