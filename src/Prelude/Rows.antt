-- ===== src/Prelude/Rows.antt =====
-- A table is the list of its rows. These are the parts of SQL statements and of Python's
-- comprehensions: WHERE as a test on a row, the first row found, UPDATE, ORDER BY.
use Prim.Native.Nat.{ℕ, suc, ◌+◌}
use mathlib.Core.Path.{◌≡◌, refl, ap}
use mathlib.Core.Bool.{Bool, true, false, ◌&&◌, ◌||◌}
use mathlib.Core.Logic.{inl, inr}
use mathlib.Core.List.{List, [], ◌∷◌, ◌++◌}
use mathlib.Core.Option.{Option, none, some}
use native.Mathlib.Omega.{arith}
use package.vision_bill.Prelude.Tests.{if◌then◌else◌, Bool-cases}
use package.vision_bill.Prelude.Lists.{length, All}

module _ {ℓ} {A : Type ℓ} where
  -- SELECT … WHERE p
  abbrev pub filter : (A → Bool) → List A → List A
  filter p [] = []
  filter p (x ∷ xs) = if p x then x ∷ filter p xs else filter p xs

  -- The row that `fetchrow` returns.
  abbrev pub find? : (A → Bool) → List A → Option A
  find? p [] = none
  find? p (x ∷ xs) = if p x then some x else find? p xs

  -- The value, or the given one where there is none.
  abbrev pub or_same : A → Option A → A
  or_same a none = a
  or_same a (some b) = b

  abbrev pub any : (A → Bool) → List A → Bool
  any p [] = false
  any p (x ∷ xs) = p x || any p xs

  abbrev pub all : (A → Bool) → List A → Bool
  all p [] = true
  all p (x ∷ xs) = p x && all p xs

  abbrev pub count : (A → Bool) → List A → ℕ
  count p [] = 0
  count p (x ∷ xs) = if p x then suc (count p xs) else count p xs

  -- UPDATE … SET f WHERE p
  abbrev pub update_where : (A → Bool) → (A → A) → List A → List A
  update_where p f [] = []
  update_where p f (x ∷ xs) = (if p x then f x else x) ∷ update_where p f xs

  -- ORDER BY: `before x y` says that `x` may stand in front of `y`.
  abbrev pub insert_by : (A → A → Bool) → A → List A → List A
  insert_by before x [] = x ∷ []
  insert_by before x (y ∷ ys) = if before x y then x ∷ y ∷ ys else y ∷ insert_by before x ys

  abbrev pub sort_by : (A → A → Bool) → List A → List A
  sort_by before [] = []
  sort_by before (x ∷ xs) = insert_by before x (sort_by before xs)

module _ {ℓ} {A : Type ℓ} where
  -- A row found satisfies the test, and any predicate that all rows satisfy.
  pub find?-sound : {x : A} (p : A → Bool) (xs : List A) → find? p xs ≡ some x → p x ≡ true
  find?-sound p [] h = cc
  find?-sound {x} p (y ∷ xs) h = elim (Bool-cases (p y)) [
    | inl e ↦ ground arith
    | inr e ↦ find?-sound p xs (rw e at h)
  ]

  pub find?-All {κ} :
      (P : A → Type κ) (p : A → Bool) (xs : List A) {x : A} → All P xs → find? p xs ≡ some x → P x
  find?-All P p [] a h = absurd (cc)
  find?-All P p (y ∷ xs) {x} a h = elim (Bool-cases (p y)) [
    | inl e ↦ rw (← first (rw e at h)) a.0
    | inr e ↦ find?-All P p xs a.1 (rw e at h)
  ]
    where
      first : {u v : A} → some u ≡ some v → u ≡ v
      first q = cc

  pub All-filter {κ} :
      (P : A → Type κ) (p : A → Bool) (xs : List A) → All P xs → All P (filter p xs)
  All-filter P p [] a = tt
  All-filter P p (x ∷ xs) a = elim (Bool-cases (p x)) [
    | inl e ↦ rw e (a.0, All-filter P p xs a.1)
    | inr e ↦ rw e (All-filter P p xs a.1)
  ]

  pub filter-holds : (p : A → Bool) (xs : List A) → All (λ x. p x ≡ true) (filter p xs)
  filter-holds p [] = tt
  filter-holds p (x ∷ xs) = elim (Bool-cases (p x)) [
    | inl e ↦ rw e (e, filter-holds p xs)
    | inr e ↦ rw e (filter-holds p xs)
  ]

  pub length-filter : (p : A → Bool) (xs : List A) → length (filter p xs) ≡ count p xs
  length-filter p [] = refl
  length-filter p (x ∷ xs) = ground (arith, length-filter p xs)

  pub length-update_where :
      (p : A → Bool) (f : A → A) (xs : List A) → length (update_where p f xs) ≡ length xs
  length-update_where p f [] = refl
  length-update_where p f (x ∷ xs) = ap suc (length-update_where p f xs)

  pub All-update_where {κ} :
      (P : A → Type κ) (p : A → Bool) (f : A → A) (xs : List A)
      → ((x : A) → P x → p x ≡ true → P (f x))
      → All P xs
      → All P (update_where p f xs)
  All-update_where P p f [] keep a = tt
  All-update_where P p f (x ∷ xs) keep a = elim (Bool-cases (p x)) [
    | inl e ↦ rw e (keep x a.0 e, All-update_where P p f xs keep a.1)
    | inr e ↦ rw e (a.0, All-update_where P p f xs keep a.1)
  ]

  pub count-append :
      (p : A → Bool) (xs : List A) (y : A)
      → count p (xs ++ y ∷ []) ≡ count p xs + (if p y then 1 else 0)
  count-append p [] y = ground arith
  count-append p (x ∷ xs) y = let ih = count-append p xs y in ground arith

  pub count-find?-none : (p : A → Bool) (xs : List A) → find? p xs ≡ none → count p xs ≡ 0
  count-find?-none p [] h = refl
  count-find?-none p (x ∷ xs) h = let ih = count-find?-none p xs in ground arith
