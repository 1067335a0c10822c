-- ===== src/Prelude/Rewritten.antt =====
-- An UPDATE that keeps what WHERE and ORDER BY read: it may come before or after them.
use mathlib.Core.Path.{◌≡◌, refl}
use mathlib.Core.Bool.{Bool}
use mathlib.Core.List.{List, [], ◌∷◌, ◌++◌}
use native.Mathlib.Omega.{arith}
use package.vision_bill.Prelude.Tests.{if◌then◌else◌}
use package.vision_bill.Prelude.Rows.{filter, update_where, insert_by, sort_by}

module _ {ℓ} {A : Type ℓ} where
  pub filter-append :
      (p : A → Bool) (xs ys : List A) → filter p (xs ++ ys) ≡ filter p xs ++ filter p ys
  filter-append p [] ys = refl
  filter-append p (x ∷ xs) ys = ground (arith, filter-append p xs ys)

module _ {ℓ} {A : Type ℓ} (q : A → Bool) (f : A → A) where
  pub filter-update_where :
      (p : A → Bool) (xs : List A)
      → ((x : A) → p (f x) ≡ p x)
      → filter p (update_where q f xs) ≡ update_where q f (filter p xs)
  filter-update_where p [] keeps = refl
  filter-update_where p (x ∷ xs) keeps = ground (arith, keeps x, filter-update_where p xs keeps)

  module _ (before : A → A → Bool) (keeps_left : (x y : A) → before (f x) y ≡ before x y)
      (keeps_right : (x y : A) → before x (f y) ≡ before x y) where
    insert_by-update_where :
        (x : A) (ys : List A)
        → insert_by before (if q x then f x else x) (update_where q f ys)
          ≡ update_where q f (insert_by before x ys)
    insert_by-update_where x [] = refl
    insert_by-update_where x (y ∷ ys) =
        ground
          (arith, keeps_left x y, keeps_right x y, keeps_right (f x) y, insert_by-update_where x ys)

    pub sort_by-update_where :
        (xs : List A) → sort_by before (update_where q f xs) ≡ update_where q f (sort_by before xs)
    sort_by-update_where [] = refl
    sort_by-update_where (x ∷ xs) =
        rw (sort_by-update_where xs) (insert_by-update_where x (sort_by before xs))
