-- ===== src/Statistics/Balance.antt =====
-- The sums of each currency agree with one another.
use vision_bill.Prelude.Int.{ℤ, pos, ◌+ℤ◌, ◌-ℤ◌, +ℤ_parts, -ℤ_parts, eq_of_parts}
use vision_bill.Statistics.{
  TotalRow, Dict, add_to, value_of, Keys, keys_eq, Sums, category_of, add_row, add_rows, no_sums,
  reconciliation,
}
use vision_bill.Prelude.{
  ◌≡◌, refl, ap, ◌∙◌, sym, Bool, true, false, ◌&&◌, List, [], ◌∷◌, inl, inr, arith, Bool-cases,
  if◌then◌else◌, Text, text_eq, text_eq→eq, codes,
}

-- The amounts of the entries whose key passes a test.
unfoldable pub sum_where {ℓ} : {K : Type ℓ} → (K → Bool) → Dict K → ℤ
sum_where p [] = pos 0
sum_where p ((k, v) ∷ d) = if p k then v +ℤ sum_where p d else sum_where p d

-- Equal texts are equal to the same ones.
pub text_eq-cong : (a b c : Text) → text_eq a b ≡ true → text_eq a c ≡ text_eq b c
text_eq-cong a b c h = ap (λ t. text_eq t c) (text_eq→eq a b h)

pub text_eq_comm : (a b : Text) → text_eq a b ≡ text_eq b a
text_eq_comm a b = elim (Bool-cases (text_eq a b)) [
  | inl e ↦
      ap (λ t. text_eq t b) (text_eq→eq a b e) ∙ ap (λ t. text_eq b t) (sym (text_eq→eq a b e))
  | inr e ↦ elim (Bool-cases (text_eq b a)) [
    | inl f ↦
        ap (λ t. text_eq t b) (sym (text_eq→eq b a f)) ∙ ap (λ t. text_eq b t) (text_eq→eq b a f)
    | inr f ↦ e ∙ sym f
  ]
]

pub zero_add : (v : ℤ) → pos 0 +ℤ v ≡ v
zero_add v = eq_of_parts (pos 0 +ℤ v) v (omega (arith, +ℤ_parts (pos 0) v))

pub add_zero : (v : ℤ) → v +ℤ pos 0 ≡ v
add_zero v = eq_of_parts (v +ℤ pos 0) v (omega (arith, +ℤ_parts v (pos 0)))

add_swap : (w v s : ℤ) → (w +ℤ v) +ℤ s ≡ (w +ℤ s) +ℤ v
add_swap w v s =
    eq_of_parts ((w +ℤ v) +ℤ s) ((w +ℤ s) +ℤ v)
      (omega (arith, +ℤ_parts w v, +ℤ_parts (w +ℤ v) s, +ℤ_parts w s, +ℤ_parts (w +ℤ s) v))

pub add_assoc : (w s v : ℤ) → w +ℤ (s +ℤ v) ≡ (w +ℤ s) +ℤ v
add_assoc w s v =
    eq_of_parts (w +ℤ (s +ℤ v)) ((w +ℤ s) +ℤ v)
      (omega (arith, +ℤ_parts s v, +ℤ_parts w (s +ℤ v), +ℤ_parts w s, +ℤ_parts (w +ℤ s) v))

pub value_of-add_to {ℓ} :
    {K : Type ℓ} (eq : K → K → Bool)
    → ((a b c : K) → eq a b ≡ true → eq a c ≡ eq b c)
    → ((a b : K) → eq a b ≡ eq b a)
    → (c k : K) (v : ℤ) (d : Dict K)
    → value_of eq c (add_to eq k v d) ≡ (if eq k c then value_of eq c d +ℤ v else value_of eq c d)
unfolding value_of add_to
value_of-add_to eq cong comm c k v [] = elim (Bool-cases (eq k c)) [
  | inl e ↦ rw e (sym (zero_add v))
  | inr e ↦ rw e refl
]
value_of-add_to eq cong comm c k v ((j, w) ∷ d) = elim (Bool-cases (eq j k)) [
  | inl e ↦ elim (Bool-cases (eq k c)) [
    | inl f ↦ rw (e, f, cong j k c e ∙ f) refl
    | inr f ↦ rw (e, f, cong j k c e ∙ f) refl
  ]
  | inr e ↦ elim (Bool-cases (eq j c)) [
    | inl f ↦ rw (e, f, other e f) refl
    | inr f ↦ rw (e, f) (value_of-add_to eq cong comm c k v d)
  ]
]
  where
    other : eq j k ≡ false → eq j c ≡ true → eq k c ≡ false
    other e f = elim (Bool-cases (eq k c)) [
      | inl g ↦ absurd (clash (cong j c k f ∙ comm c k ∙ g) e)
      | inr g ↦ g
    ]
      where
        clash : {b : Bool} → b ≡ true → b ≡ false → ⊥
        clash p q = cc

sum_where-add_to :
    (c : Text) (k : Keys) (v : ℤ) (d : Dict Keys)
    → sum_where (λ (x : Keys). text_eq x.1 c) (add_to keys_eq k v d) ≡ (
        if text_eq k.1 c
        then sum_where (λ (x : Keys). text_eq x.1 c) d +ℤ v
        else sum_where (λ (x : Keys). text_eq x.1 c) d)
unfolding sum_where add_to
sum_where-add_to c k v [] = elim (Bool-cases (text_eq k.1 c)) [
  | inl e ↦ rw e (add_zero v ∙ sym (zero_add v))
  | inr e ↦ rw e refl
]
sum_where-add_to c k v ((j, w) ∷ d) = elim (Bool-cases (keys_eq j k)) [
  | inl e ↦
      let same = text_eq-cong j.1 k.1 c (second (text_eq j.0 k.0) (text_eq j.1 k.1) e) in
      elim (Bool-cases (text_eq k.1 c)) [
        | inl f ↦ rw (e, f, same ∙ f) (add_swap w v (sum_where (λ (x : Keys). text_eq x.1 c) d))
        | inr f ↦ rw (e, f, same ∙ f) refl
      ]
  | inr e ↦ elim (Bool-cases (text_eq j.1 c)) [
    | inl f ↦ elim (Bool-cases (text_eq k.1 c)) [
      | inl g ↦
          rw (e, f, g)
            (ap (λ s. w +ℤ s) (rw g at (sum_where-add_to c k v d))
              ∙ add_assoc w (sum_where (λ (x : Keys). text_eq x.1 c) d) v)
      | inr g ↦ rw (e, f, g) (ap (λ s. w +ℤ s) (rw g at (sum_where-add_to c k v d)))
    ]
    | inr f ↦ rw (e, f) (sum_where-add_to c k v d)
  ]
]
  where
    second : (a b : Bool) → (a && b) ≡ true → b ≡ true
    second a b h = ground arith

-- In each currency the items are the categories and the deposits together, and the categories'
-- amounts sum up to the currency's.
pub record IsBalanced (c : Text) (s : Sums) : Type 0 where
  pub items :
      value_of text_eq c s.item_totals
      ≡ value_of text_eq c s.currency_totals +ℤ value_of text_eq c s.deposits
  pub categories :
      sum_where (λ (x : Keys). text_eq x.1 c) s.totals ≡ value_of text_eq c s.currency_totals

add_row-IsBalanced :
    (c : Text) (r : TotalRow) (s : Sums) → IsBalanced c s → IsBalanced c (add_row r s)
unfolding add_row
add_row-IsBalanced c r s b = elim (Bool-cases r.is_receipt) [
  | inl e ↦ rw e (record { items = b.items; categories = b.categories })
  | inr e ↦ elim (Bool-cases (text_eq (category_of r.category) (codes "deposit"))) [
    | inl f ↦ rw (e, f) (record { items = deposit_items; categories = b.categories })
    | inr f ↦ rw (e, f) (record { items = item_items; categories = item_categories })
  ]
]
  where
    deposit_items :
        value_of text_eq c (add_to text_eq r.currency r.total s.item_totals)
        ≡ value_of text_eq c s.currency_totals
          +ℤ value_of text_eq c (add_to text_eq r.currency r.total s.deposits)
    deposit_items =
        rw
          (
            value_of-add_to text_eq text_eq-cong text_eq_comm c r.currency r.total s.item_totals,
            value_of-add_to text_eq text_eq-cong text_eq_comm c r.currency r.total s.deposits,
          )
          (elim (Bool-cases (text_eq r.currency c)) [
            | inl g ↦ rw g (
                ap (λ x. x +ℤ r.total) b.items
                ∙ sym (
                    add_assoc (value_of text_eq c s.currency_totals) (value_of text_eq c s.deposits)
                      r.total))
            | inr g ↦ rw g b.items
          ])

    item_items :
        value_of text_eq c (add_to text_eq r.currency r.total s.item_totals)
        ≡ value_of text_eq c (add_to text_eq r.currency r.total s.currency_totals)
          +ℤ value_of text_eq c s.deposits
    item_items =
        rw
          (
            value_of-add_to text_eq text_eq-cong text_eq_comm c r.currency r.total s.item_totals,
            value_of-add_to text_eq text_eq-cong text_eq_comm c r.currency r.total
                s.currency_totals,
          )
          (elim (Bool-cases (text_eq r.currency c)) [
            | inl g ↦ rw g (
                ap (λ x. x +ℤ r.total) b.items
                ∙ add_swap (value_of text_eq c s.currency_totals) (value_of text_eq c s.deposits)
                    r.total)
            | inr g ↦ rw g b.items
          ])

    item_categories :
        sum_where
          (λ (x : Keys). text_eq x.1 c)
          (add_to keys_eq (category_of r.category, r.currency) r.total s.totals)
        ≡ value_of text_eq c (add_to text_eq r.currency r.total s.currency_totals)
    item_categories =
        rw
          (
            sum_where-add_to c (category_of r.category, r.currency) r.total s.totals,
            value_of-add_to text_eq text_eq-cong text_eq_comm c r.currency r.total
                s.currency_totals,
          )
          (elim (Bool-cases (text_eq r.currency c)) [
            | inl g ↦ rw g (ap (λ x. x +ℤ r.total) b.categories)
            | inr g ↦ rw g b.categories
          ])

add_rows-IsBalanced :
    (c : Text) (rs : List TotalRow) (s : Sums) → IsBalanced c s → IsBalanced c (add_rows rs s)
unfolding add_rows
add_rows-IsBalanced c [] s b = b
add_rows-IsBalanced c (r ∷ rs) s b =
    add_rows-IsBalanced c rs (add_row r s) (add_row-IsBalanced c r s b)

-- What the receipts say is made up of the amounts of all categories, the deposits and the
-- unallocated rest.
pub reconciliation-parts :
    (c : Text) (rs : List TotalRow)
    → (reconciliation c (add_rows rs no_sums)).receipt_total
      ≡ (sum_where (λ (x : Keys). text_eq x.1 c) (add_rows rs no_sums).totals
          +ℤ (reconciliation c (add_rows rs no_sums)).deposit_total)
        +ℤ (reconciliation c (add_rows rs no_sums)).unallocated_total
unfolding reconciliation value_of sum_where
reconciliation-parts c rs =
    let s = add_rows rs no_sums in
    let b = add_rows-IsBalanced c rs no_sums start in
    rest (value_of text_eq c s.receipt_totals) (value_of text_eq c s.item_totals) _
      (b.items ∙ ap (λ x. x +ℤ value_of text_eq c s.deposits) (sym b.categories))
  where
    start : IsBalanced c no_sums
    start = record { items = sym (zero_add (pos 0)); categories = refl }

    rest : (r i x : ℤ) → i ≡ x → r ≡ x +ℤ (r -ℤ i)
    rest r i x e =
        rw (← e) (eq_of_parts r (i +ℤ (r -ℤ i)) (omega (arith, +ℤ_parts i (r -ℤ i), -ℤ_parts r i)))
