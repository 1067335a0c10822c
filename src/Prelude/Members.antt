-- ===== src/Prelude/Members.antt =====
-- Which rows a filtered or sorted table holds.
use mathlib.Core.Bool.{Bool, true}
use mathlib.Core.List.{List, [], ◌∷◌, Memᴰ}
use mathlib.Core.Logic.{inl, inr}
use mathlib.Core.Path.{◌≡◌, refl, ap}
use package.vision_bill.Prelude.Tests.{Bool-cases}
use package.vision_bill.Prelude.Lists.{All}
use package.vision_bill.Prelude.Rows.{filter, insert_by, sort_by}

module _ {ℓ} {A : Type ℓ} where
  Mem-insert_by :
      (before : A → A → Bool) (a x : A) (ys : List A)
      → Memᴰ a (x ∷ ys)
      → Memᴰ a (insert_by before x ys)
  Mem-insert_by before a x [] m = m
  Mem-insert_by before a x (y ∷ ys) m = elim (Bool-cases (before x y)) [
    | inl e ↦ rw e m
    | inr e ↦ rw e (later (Mem-insert_by before a x ys) m)
  ]
    where
      later :
          (Memᴰ a (x ∷ ys) → Memᴰ a (insert_by before x ys))
          → Memᴰ a (x ∷ y ∷ ys)
          → Memᴰ a (y ∷ insert_by before x ys)
      later ih (Memᴰ.head q) = Memᴰ.tail (ih (Memᴰ.head q))
      later ih (Memᴰ.tail (Memᴰ.head q)) = Memᴰ.head q
      later ih (Memᴰ.tail (Memᴰ.tail m)) = Memᴰ.tail (ih (Memᴰ.tail m))

  pub Mem-sort_by :
      (before : A → A → Bool) (a : A) (xs : List A) → Memᴰ a xs → Memᴰ a (sort_by before xs)
  Mem-sort_by before a [] m = elim m [ ]
  Mem-sort_by before a (x ∷ xs) (Memᴰ.head q) =
      Mem-insert_by before a x (sort_by before xs) (Memᴰ.head q)
  Mem-sort_by before a (x ∷ xs) (Memᴰ.tail m) =
      Mem-insert_by before a x (sort_by before xs) (Memᴰ.tail (Mem-sort_by before a xs m))

  pub Mem-filter :
      (p : A → Bool) (a : A) (xs : List A) → p a ≡ true → Memᴰ a xs → Memᴰ a (filter p xs)
  Mem-filter p a [] h m = elim m [ ]
  Mem-filter p a (x ∷ xs) h (Memᴰ.head q) = rw (← ap p q, h) (Memᴰ.head q)
  Mem-filter p a (x ∷ xs) h (Memᴰ.tail m) = elim (Bool-cases (p x)) [
    | inl e ↦ rw e (Memᴰ.tail (Mem-filter p a xs h m))
    | inr e ↦ rw e (Mem-filter p a xs h m)
  ]

  -- What all rows have, each of them has.
  pub Mem-All {κ} : (P : A → Type κ) (a : A) (xs : List A) → All P xs → Memᴰ a xs → P a
  Mem-All P a [] h m = elim m [ ]
  Mem-All P a (x ∷ xs) h (Memᴰ.head q) = rw q h.0
  Mem-All P a (x ∷ xs) h (Memᴰ.tail m) = Mem-All P a xs h.1 m

  pub All-Mem : (xs ys : List A) → ((a : A) → Memᴰ a xs → Memᴰ a ys) → All (λ a. Memᴰ a ys) xs
  All-Mem [] ys h = tt
  All-Mem (x ∷ xs) ys h = (h x (Memᴰ.head refl), All-Mem xs ys (λ a m. h a (Memᴰ.tail m)))
