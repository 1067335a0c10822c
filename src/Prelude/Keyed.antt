-- ===== src/Prelude/Keyed.antt =====
-- Tables with a numeric key: what a lookup by key finds before and after an UPDATE, an INSERT or
-- a DELETE.
use Prim.Native.Nat.{ℕ}
use mathlib.Core.Path.{◌≡◌, refl, ap, sym}
use mathlib.Core.Bool.{Bool, true, false, not, ◌&&◌}
use mathlib.Core.Logic.{◌≢◌, inl, inr}
use mathlib.Core.List.{List, [], ◌∷◌, ◌++◌}
use mathlib.Core.Option.{none, some}
use native.Mathlib.Omega.{arith}
use package.vision_bill.Prelude.Tests.{◌==◌, if◌then◌else◌, Bool-cases, ==_iff}
use package.vision_bill.Prelude.Rows.{find?, update_where, filter, insert_by, sort_by}

module _ {ℓ} {A : Type ℓ} (key : A → ℕ) where
  abbrev pub keyed : ℕ → A → Bool
  keyed id x = key x == id

  -- No key occurs twice: what PRIMARY KEY promises.
  abbrev pub HasUniqueKeys : List A → Type ℓ
  HasUniqueKeys [] = Unit
  HasUniqueKeys (x ∷ xs) = (find? (keyed (key x)) xs ≡ none) × HasUniqueKeys xs

  pub find?-key : (id : ℕ) (t : List A) {x : A} → find? (keyed id) t ≡ some x → key x ≡ id
  find?-key id [] h = absurd (cc)
  find?-key id (y ∷ t) {x} h = elim (Bool-cases (key y == id)) [
    | inl e ↦ ap key (sym (same (rw e at h))) ∙' (==_iff _ _).0 e
    | inr e ↦ find?-key id t (rw e at h)
  ]
    where
      same : {u v : A} → some u ≡ some v → u ≡ v
      same q = cc

      infixl 5 ◌∙'◌
      ◌∙'◌ : {a b c : ℕ} → a ≡ b → b ≡ c → a ≡ c
      p ∙' q = cc

  module _ (p : A → Bool) (f : A → A) (id : ℕ) where
    pub find?-update_where_ne :
        (j : ℕ) (t : List A)
        → ((x : A) → p x ≡ true → key x ≡ id)
        → ((x : A) → key (f x) ≡ key x)
        → j ≢ id
        → find? (keyed j) (update_where p f t) ≡ find? (keyed j) t
    find?-update_where_ne j [] only keeps ne = refl
    find?-update_where_ne j (x ∷ t) only keeps ne =
        ground (arith, only x, keeps x, find?-update_where_ne j t only keeps ne)

    pub find?-update_where_self :
        (t : List A) {x : A}
        → ((y : A) → key (f y) ≡ key y)
        → find? (keyed id) t ≡ some x
        → p x ≡ true
        → find? (keyed id) (update_where p f t) ≡ some (f x)
    find?-update_where_self [] keeps h px = absurd (cc)
    find?-update_where_self (y ∷ t) {x} keeps h px =
        ground (arith, keeps y, find?-update_where_self t {x = x} keeps)

    pub HasUniqueKeys-update_where :
        (t : List A)
        → ((x : A) → key (f x) ≡ key x)
        → HasUniqueKeys t
        → HasUniqueKeys (update_where p f t)
    HasUniqueKeys-update_where [] keeps u = tt
    HasUniqueKeys-update_where (x ∷ t) keeps u =
        (ground (arith, keeps x, absent (key x) t u.0), HasUniqueKeys-update_where t keeps u.1)
      where
        absent :
            (k : ℕ) (t : List A)
            → find? (keyed k) t ≡ none
            → find? (keyed k) (update_where p f t) ≡ none
        absent k [] h = refl
        absent k (y ∷ t) h = ground (arith, keeps y, absent k t)

  -- A statement whose WHERE names a key and a further test `q`.
  module _ (q : A → Bool) (id : ℕ) where
    pub find?-and_absent :
        (t : List A) → find? (keyed id) t ≡ none → find? (λ x. keyed id x && q x) t ≡ none
    find?-and_absent [] h = refl
    find?-and_absent (y ∷ t) h = ground (arith, find?-and_absent t)

    pub find?-and_true :
        (t : List A) {x : A}
        → find? (keyed id) t ≡ some x
        → q x ≡ true
        → find? (λ y. keyed id y && q y) t ≡ some x
    find?-and_true [] h qx = absurd (cc)
    find?-and_true (y ∷ t) {x} h qx = ground (arith, find?-and_true t {x = x})

    pub find?-and_false :
        (t : List A) {x : A}
        → HasUniqueKeys t
        → find? (keyed id) t ≡ some x
        → q x ≡ false
        → find? (λ y. keyed id y && q y) t ≡ none
    find?-and_false [] u h qx = absurd (cc)
    find?-and_false (y ∷ t) {x} u h qx = elim (Bool-cases (key y == id)) [
      | inl e ↦
          ground (arith, find?-and_absent t, ap (λ k. find? (keyed k) t) ((==_iff (key y) id).0 e))
      | inr e ↦ ground (arith, find?-and_false t {x = x} u.1)
    ]

    -- A found row that satisfies both tests is the row of the key.
    pub find?-and_found :
        (t : List A) {x : A}
        → HasUniqueKeys t
        → find? (λ y. keyed id y && q y) t ≡ some x
        → (find? (keyed id) t ≡ some x) × (q x ≡ true)
    find?-and_found [] u h = absurd (cc)
    find?-and_found (y ∷ t) {x} u h = elim (Bool-cases (key y == id)) [
      | inl e ↦
          ground (arith, find?-and_absent t, ap (λ k. find? (keyed k) t) ((==_iff (key y) id).0 e))
      | inr e ↦ ground (arith, find?-and_found t {x = x} u.1)
    ]

    -- Where no row satisfies the tests, the statement changes nothing.
    pub update_where-none :
        (f : A → A) (t : List A)
        → find? (λ y. keyed id y && q y) t ≡ none
        → update_where (λ y. keyed id y && q y) f t ≡ t
    update_where-none f [] h = refl
    update_where-none f (y ∷ t) h = ground (arith, update_where-none f t)

  pub find?-append :
      (id : ℕ) (t : List A) (x : A)
      → find? (keyed id) t ≡ none
      → find? (keyed id) (t ++ x ∷ []) ≡ (if keyed id x then some x else none)
  find?-append id [] x h = refl
  find?-append id (y ∷ t) x h = ground (arith, find?-append id t x)

  pub HasUniqueKeys-append :
      (t : List A) (x : A)
      → HasUniqueKeys t
      → find? (keyed (key x)) t ≡ none
      → HasUniqueKeys (t ++ x ∷ [])
  HasUniqueKeys-append [] x u h = (refl, tt)
  HasUniqueKeys-append (y ∷ t) x u h =
      (ground (arith, find?-append (key y) t x u.0), HasUniqueKeys-append t x u.1 (ground arith))

  pub find?-append_ne :
      (id : ℕ) (t : List A) (x : A)
      → key x ≢ id
      → find? (keyed id) (t ++ x ∷ []) ≡ find? (keyed id) t
  find?-append_ne id [] x h = ground arith
  find?-append_ne id (y ∷ t) x h = ground (arith, find?-append_ne id t x)

  -- DELETE … WHERE id = …
  pub find?-delete_self :
      (id : ℕ) (t : List A) → find? (keyed id) (filter (λ x. not (keyed id x)) t) ≡ none
  find?-delete_self id [] = refl
  find?-delete_self id (x ∷ t) = ground (arith, find?-delete_self id t)

  pub find?-filter_ne :
      (q : A → Bool) (j : ℕ) (t : List A)
      → ((x : A) → key x ≡ j → q x ≡ true)
      → find? (keyed j) (filter q t) ≡ find? (keyed j) t
  find?-filter_ne q j [] h = refl
  find?-filter_ne q j (x ∷ t) h = ground (arith, h x, find?-filter_ne q j t h)

  pub find?-filter-none :
      (q : A → Bool) (j : ℕ) (t : List A)
      → find? (keyed j) t ≡ none
      → find? (keyed j) (filter q t) ≡ none
  find?-filter-none q j [] h = refl
  find?-filter-none q j (x ∷ t) h = ground (arith, find?-filter-none q j t)

  pub HasUniqueKeys-filter :
      (q : A → Bool) (t : List A) → HasUniqueKeys t → HasUniqueKeys (filter q t)
  HasUniqueKeys-filter q [] u = tt
  HasUniqueKeys-filter q (x ∷ t) u = elim (Bool-cases (q x)) [
    | inl e ↦ rw e (find?-filter-none q (key x) t u.0, HasUniqueKeys-filter q t u.1)
    | inr e ↦ rw e (HasUniqueKeys-filter q t u.1)
  ]

  -- ORDER BY
  module _ (before : A → A → Bool) where
    find?-insert_by-none :
        (id : ℕ) (x : A) (t : List A)
        → key x ≢ id
        → find? (keyed id) t ≡ none
        → find? (keyed id) (insert_by before x t) ≡ none
    find?-insert_by-none id x [] ne h = ground arith
    find?-insert_by-none id x (y ∷ t) ne h = ground (arith, find?-insert_by-none id x t)

    pub find?-sort_by-none :
        (id : ℕ) (t : List A)
        → find? (keyed id) t ≡ none
        → find? (keyed id) (sort_by before t) ≡ none
    find?-sort_by-none id [] h = refl
    find?-sort_by-none id (x ∷ t) h =
        find?-insert_by-none id x (sort_by before t) (λ e. ground arith)
          (find?-sort_by-none id t (ground arith))

    HasUniqueKeys-insert_by :
        (x : A) (t : List A)
        → find? (keyed (key x)) t ≡ none
        → HasUniqueKeys t
        → HasUniqueKeys (insert_by before x t)
    HasUniqueKeys-insert_by x [] h u = (refl, tt)
    HasUniqueKeys-insert_by x (y ∷ t) h u = elim (Bool-cases (before x y)) [
      | inl e ↦ rw e (h, u)
      | inr e ↦ rw e (
        find?-insert_by-none (key y) x t (λ q. ground arith) u.0,
        HasUniqueKeys-insert_by x t (ground arith) u.1,
      )
    ]

    pub HasUniqueKeys-sort_by : (t : List A) → HasUniqueKeys t → HasUniqueKeys (sort_by before t)
    HasUniqueKeys-sort_by [] u = tt
    HasUniqueKeys-sort_by (x ∷ t) u =
        HasUniqueKeys-insert_by x (sort_by before t) (find?-sort_by-none (key x) t u.0)
          (HasUniqueKeys-sort_by t u.1)
