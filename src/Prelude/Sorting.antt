-- ===== src/Prelude/Sorting.antt =====
-- ORDER BY by insertion: the result is ordered and holds the same rows as often.
use Prim.Native.Nat.{suc}
use mathlib.Core.Path.{◌≡◌, refl}
use mathlib.Core.Bool.{Bool, true, false, ◌&&◌}
use mathlib.Core.Logic.{inl, inr}
use mathlib.Core.List.{List, [], ◌∷◌}
use native.Mathlib.Omega.{arith}
use package.vision_bill.Prelude.Tests.{if◌then◌else◌, Bool-cases}
use package.vision_bill.Prelude.Lists.{All}
use package.vision_bill.Prelude.Rows.{filter, count, insert_by, sort_by}

module _ {ℓ} {A : Type ℓ} where
  -- Every row may stand in front of all that follow it.
  abbrev pub IsOrdered : (A → A → Bool) → List A → Type 0
  IsOrdered before [] = Unit
  IsOrdered before (x ∷ xs) = All (λ y. before x y ≡ true) xs × IsOrdered before xs

  pub All-impl {κ μ} :
      (P : A → Type κ) (Q : A → Type μ) (xs : List A) → ((x : A) → P x → Q x) → All P xs → All Q xs
  All-impl P Q [] h a = tt
  All-impl P Q (x ∷ xs) h a = (h x a.0, All-impl P Q xs h a.1)

  pub All-insert_by {κ} :
      (P : A → Type κ) (before : A → A → Bool) (x : A) (ys : List A)
      → P x
      → All P ys
      → All P (insert_by before x ys)
  All-insert_by P before x [] px a = (px, tt)
  All-insert_by P before x (y ∷ ys) px a = elim (Bool-cases (before x y)) [
    | inl e ↦ rw e (px, (a.0, a.1))
    | inr e ↦ rw e (a.0, All-insert_by P before x ys px a.1)
  ]

  pub All-sort_by {κ} :
      (P : A → Type κ) (before : A → A → Bool) (xs : List A) → All P xs → All P (sort_by before xs)
  All-sort_by P before [] a = tt
  All-sort_by P before (x ∷ xs) a =
      All-insert_by P before x (sort_by before xs) a.0 (All-sort_by P before xs a.1)

  count-insert_by :
      (p : A → Bool) (before : A → A → Bool) (x : A) (ys : List A)
      → count p (insert_by before x ys) ≡ (if p x then suc (count p ys) else count p ys)
  count-insert_by p before x [] = ground arith
  count-insert_by p before x (y ∷ ys) = ground (arith, count-insert_by p before x ys)

  pub count-sort_by :
      (p : A → Bool) (before : A → A → Bool) (xs : List A)
      → count p (sort_by before xs) ≡ count p xs
  count-sort_by p before [] = refl
  count-sort_by p before (x ∷ xs) =
      ground (arith, count-insert_by p before x (sort_by before xs), count-sort_by p before xs)

  pub count-filter :
      (p q : A → Bool) (xs : List A) → count p (filter q xs) ≡ count (λ x. q x && p x) xs
  count-filter p q [] = refl
  count-filter p q (x ∷ xs) = ground (arith, count-filter p q xs)

  module _ (before : A → A → Bool) (total : (x y : A) → before x y ≡ false → before y x ≡ true)
      (trans : (x y z : A) → before x y ≡ true → before y z ≡ true → before x z ≡ true) where
    insert_by-IsOrdered :
        (x : A) (ys : List A) → IsOrdered before ys → IsOrdered before (insert_by before x ys)
    insert_by-IsOrdered x [] o = (tt, tt)
    insert_by-IsOrdered x (y ∷ ys) o = elim (Bool-cases (before x y)) [
      | inl e ↦ rw e (
        (
          e,
          All-impl (λ z. before y z ≡ true) (λ z. before x z ≡ true) ys (λ z h. trans x y z e h)
              o.0,
        ),
        o,
      )
      | inr e ↦ rw e (
        All-insert_by (λ z. before y z ≡ true) before x ys (total x y e) o.0,
        insert_by-IsOrdered x ys o.1,
      )
    ]

    pub sort_by-IsOrdered : (xs : List A) → IsOrdered before (sort_by before xs)
    sort_by-IsOrdered [] = tt
    sort_by-IsOrdered (x ∷ xs) = insert_by-IsOrdered x (sort_by before xs) (sort_by-IsOrdered xs)
