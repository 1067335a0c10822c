-- ===== src/Prelude/Found.antt =====
-- Every row of a table with unique keys is the row of its key.
use Prim.Native.Nat.{ℕ}
use mathlib.Core.Path.{◌≡◌, refl, ap, sym, ◌∙◌}
use mathlib.Core.Bool.{Bool, true, false}
use mathlib.Core.Logic.{◌≢◌, inl, inr}
use mathlib.Core.List.{List, [], ◌∷◌, ◌++◌}
use mathlib.Core.Option.{Option, none, some}
use native.Mathlib.Omega.{arith}
use package.vision_bill.Prelude.Tests.{◌==◌, Bool-cases, ==_iff}
use package.vision_bill.Prelude.Lists.{All}
use package.vision_bill.Prelude.Rows.{find?, filter, update_where}
use package.vision_bill.Prelude.Keyed.{keyed, HasUniqueKeys, find?-filter-none}
use package.vision_bill.Prelude.Sorting.{All-impl}

module _ {ℓ} {A : Type ℓ} (key : A → ℕ) where
  pub All-found :
      (t : List A) → HasUniqueKeys key t → All (λ x. find? (keyed key (key x)) t ≡ some x) t
  All-found [] u = tt
  All-found (x ∷ t) u = (ground arith, All-impl _ _ t later (All-found t u.1))
    where
      conflict : {a b : Option A} {y : A} → a ≡ b → a ≡ none → b ≢ some y
      conflict p q r = cc

      later :
          (y : A)
          → find? (keyed key (key y)) t ≡ some y
          → find? (keyed key (key y)) (x ∷ t) ≡ some y
      later y h = elim (Bool-cases (key x == key y)) [
        | inl e ↦
            absurd (conflict (ap (λ k. find? (keyed key k) t) ((==_iff (key x) (key y)).0 e)) u.0 h)
        | inr e ↦ rw e h
      ]

  -- A row that a statement passes over is found as before.
  pub find?-update_where_kept :
      (p : A → Bool) (f : A → A) (k : ℕ) (t : List A) {x : A}
      → ((y : A) → key (f y) ≡ key y)
      → find? (keyed key k) t ≡ some x
      → p x ≡ false
      → find? (keyed key k) (update_where p f t) ≡ some x
  find?-update_where_kept p f k [] keeps h px = absurd (cc)
  find?-update_where_kept p f k (y ∷ t) {x} keeps h px =
      ground (arith, keeps y, find?-update_where_kept p f k t {x = x} keeps)

  pub find?-filter_kept :
      (q : A → Bool) (k : ℕ) (t : List A) {x : A}
      → find? (keyed key k) t ≡ some x
      → q x ≡ true
      → find? (keyed key k) (filter q t) ≡ some x
  find?-filter_kept q k [] h qx = absurd (cc)
  find?-filter_kept q k (y ∷ t) {x} h qx = ground (arith, find?-filter_kept q k t {x = x})

  pub find?-filter_out :
      (q : A → Bool) (k : ℕ) (t : List A) {x : A}
      → HasUniqueKeys key t
      → find? (keyed key k) t ≡ some x
      → q x ≡ false
      → find? (keyed key k) (filter q t) ≡ none
  find?-filter_out q k [] u h qx = refl
  find?-filter_out q k (y ∷ t) {x} u h qx = elim (Bool-cases (key y == k)) [
    | inl e ↦
        let gone =
          find?-filter-none key q k t
            (ap (λ j. find? (keyed key j) t) (sym ((==_iff (key y) k).0 e)) ∙ u.0) in
        ground arith
    | inr e ↦ let rest = find?-filter_out q k t {x = x} u.1 (rw e at h) qx in ground arith
  ]

  find?-append_none :
      (k : ℕ) (xs ys : List A)
      → find? (keyed key k) xs ≡ none
      → find? (keyed key k) ys ≡ none
      → find? (keyed key k) (xs ++ ys) ≡ none
  find?-append_none k [] ys h q = q
  find?-append_none k (x ∷ xs) ys h q = ground (arith, find?-append_none k xs ys)

  -- Rows that a table lacks may be appended.
  pub HasUniqueKeys-append-All :
      (xs ys : List A)
      → HasUniqueKeys key xs
      → HasUniqueKeys key ys
      → All (λ x. find? (keyed key (key x)) ys ≡ none) xs
      → HasUniqueKeys key (xs ++ ys)
  HasUniqueKeys-append-All [] ys u v a = v
  HasUniqueKeys-append-All (x ∷ xs) ys u v a =
      (find?-append_none (key x) xs ys u.0 a.0, HasUniqueKeys-append-All xs ys u.1 v a.1)

module _ {ℓ} {A : Type ℓ} where
  pub All-zip {κ μ} :
      (P : A → Type κ) (Q : A → Type μ) (xs : List A)
      → All P xs
      → All Q xs
      → All (λ x. P x × Q x) xs
  All-zip P Q [] a b = tt
  All-zip P Q (x ∷ xs) a b = ((a.0, b.0), All-zip P Q xs a.1 b.1)
