-- ===== src/Statistics/Tally.antt =====
-- What the sums of the loop are in terms of the rows that the database returns.
use vision_bill.Prelude.Int.{ℤ, pos, ◌+ℤ◌, ◌-ℤ◌}
use vision_bill.Statistics.{
  TotalRow, Month, Dict, add_receipt, add_deposit, add_item, month_eq, add_to, value_of, Keys,
  keys_eq, MonthKeys, month_keys_eq, Sums, category_of, add_row, add_rows, no_sums, reconciliation,
}
use vision_bill.Statistics.Balance.{
  sum_where, text_eq-cong, text_eq_comm, zero_add, add_zero, add_assoc, value_of-add_to,
  reconciliation-parts,
}
use vision_bill.Prelude.{
  ◌≡◌, refl, ap, ◌∙◌, sym, Bool, true, not, ◌&&◌, List, [], ◌∷◌, inl, inr, arith, Bool-cases,
  if◌then◌else◌, Text, text_eq, text_eq→eq, codes,
}

-- The sum of the rows that pass a test.
unfoldable pub total_of : (TotalRow → Bool) → List TotalRow → ℤ
total_of p [] = pos 0
total_of p (r ∷ rs) = if p r then r.total +ℤ total_of p rs else total_of p rs

-- The rows of one currency that are receipts, items, deposits, or items of one category.
abbrev pub is_receipt_in : Text → TotalRow → Bool
is_receipt_in c r = r.is_receipt && text_eq r.currency c

abbrev pub is_item_in : Text → TotalRow → Bool
is_item_in c r = not r.is_receipt && text_eq r.currency c

abbrev pub is_of : Text → TotalRow → Bool
is_of category r = text_eq (category_of r.category) category

abbrev pub is_deposit_in : Text → TotalRow → Bool
is_deposit_in c r = is_item_in c r && is_of (codes "deposit") r

abbrev pub is_spent_in : Text → Text → TotalRow → Bool
is_spent_in category c r =
    not r.is_receipt
    && not (is_of (codes "deposit") r)
    && (is_of category r && text_eq r.currency c)

abbrev pub is_spent_during : Month → Text → Text → TotalRow → Bool
is_spent_during m category c r =
    not r.is_receipt
    && not (is_of (codes "deposit") r)
    && (month_eq r.month m && is_of category r && text_eq r.currency c)

-- An amount to which each row adds its own or nothing is a sum of rows.
tally :
    (f : Sums → ℤ) (p : TotalRow → Bool)
    → ((r : TotalRow) (s : Sums) → f (add_row r s) ≡ (if p r then f s +ℤ r.total else f s))
    → (rs : List TotalRow) (s : Sums) → f (add_rows rs s) ≡ f s +ℤ total_of p rs
unfolding add_rows total_of
tally f p step [] s = sym (add_zero (f s))
tally f p step (r ∷ rs) s = elim (Bool-cases (p r)) [
  | inl e ↦ rw e (
      tally f p step rs (add_row r s)
      ∙ ap (λ x. x +ℤ total_of p rs) (rw e at (step r s))
      ∙ sym (add_assoc (f s) r.total (total_of p rs)))
  | inr e ↦
      rw e (tally f p step rs (add_row r s) ∙ ap (λ x. x +ℤ total_of p rs) (rw e at (step r s)))
]

tally_all :
    (f : Sums → ℤ) (p : TotalRow → Bool)
    → ((r : TotalRow) (s : Sums) → f (add_row r s) ≡ (if p r then f s +ℤ r.total else f s))
    → f no_sums ≡ pos 0
    → (rs : List TotalRow) → f (add_rows rs no_sums) ≡ total_of p rs
tally_all f p step start rs =
    tally f p step rs no_sums ∙ ap (λ x. x +ℤ total_of p rs) start ∙ zero_add (total_of p rs)

keys_eq-cong : (a b c : Keys) → keys_eq a b ≡ true → keys_eq a c ≡ keys_eq b c
keys_eq-cong (a, x) (b, y) c h =
    ap (λ k. keys_eq (k, x) c) (text_eq→eq a b (ground arith))
    ∙ ap (λ k. keys_eq (b, k) c) (text_eq→eq x y (ground arith))

keys_eq_comm : (a b : Keys) → keys_eq a b ≡ keys_eq b a
keys_eq_comm (a, x) (b, y) = rw (text_eq_comm a b, text_eq_comm x y) refl

month_eq_comm : (a b : Month) → month_eq a b ≡ month_eq b a
month_eq_comm (a, x) (b, y) = ground arith

month_eq-cong : (a b c : Month) → month_eq a b ≡ true → month_eq a c ≡ month_eq b c
month_eq-cong (a, x) (b, y) c h = ground arith

month_keys_eq-cong :
    (a b c : MonthKeys) → month_keys_eq a b ≡ true → month_keys_eq a c ≡ month_keys_eq b c
month_keys_eq-cong (m, a, x) (n, b, y) (o, c, z) h =
    ap (λ t. t && text_eq a c && text_eq x z) (month_eq-cong m n o (ground arith))
    ∙ ap (λ t. month_eq n o && t && text_eq x z) (text_eq-cong a b c (ground arith))
    ∙ ap (λ t. month_eq n o && text_eq b c && t) (text_eq-cong x y z (ground arith))

month_keys_eq_comm : (a b : MonthKeys) → month_keys_eq a b ≡ month_keys_eq b a
month_keys_eq_comm (m, a, x) (n, b, y) =
    rw (month_eq_comm m n, text_eq_comm a b, text_eq_comm x y) refl

-- How each amount changes with a row.
module _ (r : TotalRow) (s : Sums) where
  receipt-add_row :
      (c : Text)
      → value_of text_eq c (add_row r s).receipt_totals ≡ (
          if is_receipt_in c r
          then value_of text_eq c s.receipt_totals +ℤ r.total
          else value_of text_eq c s.receipt_totals)
  unfolding add_row
  receipt-add_row c = elim (Bool-cases r.is_receipt) [
    | inl e ↦
        rw e
          (value_of-add_to text_eq text_eq-cong text_eq_comm c r.currency r.total s.receipt_totals)
    | inr e ↦ elim (Bool-cases (text_eq (category_of r.category) (codes "deposit"))) [
      | inl d ↦ rw (e, d) refl
      | inr d ↦ rw (e, d) refl
    ]
  ]

  item-add_row :
      (c : Text)
      → value_of text_eq c (add_row r s).item_totals ≡ (
          if is_item_in c r
          then value_of text_eq c s.item_totals +ℤ r.total
          else value_of text_eq c s.item_totals)
  unfolding add_row
  item-add_row c =
      let added =
        value_of-add_to text_eq text_eq-cong text_eq_comm c r.currency r.total s.item_totals in
      elim (Bool-cases r.is_receipt) [
        | inl e ↦ rw e refl
        | inr e ↦ elim (Bool-cases (text_eq (category_of r.category) (codes "deposit"))) [
          | inl d ↦ rw (e, d) added
          | inr d ↦ rw (e, d) added
        ]
      ]

  deposit-add_row :
      (c : Text)
      → value_of text_eq c (add_row r s).deposits ≡ (
          if is_deposit_in c r
          then value_of text_eq c s.deposits +ℤ r.total
          else value_of text_eq c s.deposits)
  unfolding add_row
  deposit-add_row c = elim (Bool-cases r.is_receipt) [
    | inl e ↦ rw e refl
    | inr e ↦ elim (Bool-cases (text_eq (category_of r.category) (codes "deposit"))) [
      | inl d ↦ elim (Bool-cases (text_eq r.currency c)) [
        | inl g ↦
            rw (e, d, g)
              (rw g at
                (value_of-add_to text_eq text_eq-cong text_eq_comm c r.currency r.total s.deposits))
        | inr g ↦
            rw (e, d, g)
              (rw g at
                (value_of-add_to text_eq text_eq-cong text_eq_comm c r.currency r.total s.deposits))
      ]
      | inr d ↦ elim (Bool-cases (text_eq r.currency c)) [
        | inl g ↦ rw (e, d, g) refl
        | inr g ↦ rw (e, d, g) refl
      ]
    ]
  ]

  -- A sum of items by a key that a row may have.
  keyed-add_row :
      {K : Type 0} (eq : K → K → Bool) (f : Sums → Dict K) (key : K) (of_row : K)
      → ((a b c : K) → eq a b ≡ true → eq a c ≡ eq b c)
      → ((a b : K) → eq a b ≡ eq b a)
      → f (add_receipt r s) ≡ f s
      → f (add_deposit r s) ≡ f s
      → f (add_item (category_of r.category) r s) ≡ add_to eq of_row r.total (f s)
      → value_of eq key (f (add_row r s)) ≡ (
          if not r.is_receipt && not (is_of (codes "deposit") r) && eq of_row key
          then value_of eq key (f s) +ℤ r.total
          else value_of eq key (f s))
  unfolding add_row
  keyed-add_row eq f key of_row cong comm receipt deposit item = elim (Bool-cases r.is_receipt) [
    | inl e ↦ rw e (ap (value_of eq key) receipt)
    | inr e ↦ elim (Bool-cases (text_eq (category_of r.category) (codes "deposit"))) [
      | inl d ↦ rw (e, d) (ap (value_of eq key) deposit)
      | inr d ↦
          rw (e, d)
            (ap (value_of eq key) item ∙ value_of-add_to eq cong comm key of_row r.total (f s))
    ]
  ]

-- Whatever rows the database returns: in every currency the receipt total is the sum of the receipt
-- rows, the item total that of the item rows, the deposit total that of the deposit rows, and what
-- is left of the receipts beside the items is reported as unallocated; the amount of a category,
-- overall and in a month, is the sum of its rows other than deposits; and the amounts of all
-- categories, the deposits and the unallocated rest make up the receipt total.
pub reconciliation_lem :
    (c category : Text) (m : Month) (rs : List TotalRow)
    → let s = add_rows rs no_sums in
      let report = reconciliation c s in
      (report.receipt_total ≡ total_of (is_receipt_in c) rs)
      × (report.item_total ≡ total_of (is_item_in c) rs)
      × (report.deposit_total ≡ total_of (is_deposit_in c) rs)
      × (report.unallocated_total ≡ total_of (is_receipt_in c) rs -ℤ total_of (is_item_in c) rs)
      × (value_of keys_eq (category, c) s.totals ≡ total_of (is_spent_in category c) rs)
      × (value_of month_keys_eq (m, category, c) s.monthly
          ≡ total_of (is_spent_during m category c) rs)
      × (report.receipt_total
          ≡ (sum_where (λ (x : Keys). text_eq x.1 c) s.totals +ℤ report.deposit_total)
            +ℤ report.unallocated_total)
unfolding reconciliation value_of
reconciliation_lem c category m rs = (
  receipts,
  items,
  tally_all (λ s. value_of text_eq c s.deposits) (is_deposit_in c) (λ r s. deposit-add_row r s c)
      refl rs,
  ap (λ x. x -ℤ value_of text_eq c (add_rows rs no_sums).item_totals) receipts
      ∙ ap (λ x. total_of (is_receipt_in c) rs -ℤ x) items,
  tally_all (λ s. value_of keys_eq (category, c) s.totals) (is_spent_in category c)
      (λ r s.
        keyed-add_row r s keys_eq (λ t. t.totals) (category, c) (category_of r.category, r.currency)
          keys_eq-cong keys_eq_comm refl refl refl)
      refl rs,
  tally_all (λ s. value_of month_keys_eq (m, category, c) s.monthly) (is_spent_during m category c)
      (λ r s.
        keyed-add_row r s month_keys_eq (λ t. t.monthly) (m, category, c)
          (r.month, category_of r.category, r.currency) month_keys_eq-cong month_keys_eq_comm refl
          refl refl)
      refl rs,
  reconciliation-parts c rs,
)
  where
    receipts :
        value_of text_eq c (add_rows rs no_sums).receipt_totals ≡ total_of (is_receipt_in c) rs
    receipts =
        tally_all (λ s. value_of text_eq c s.receipt_totals) (is_receipt_in c)
          (λ r s. receipt-add_row r s c) refl rs

    items : value_of text_eq c (add_rows rs no_sums).item_totals ≡ total_of (is_item_in c) rs
    items =
        tally_all (λ s. value_of text_eq c s.item_totals) (is_item_in c) (λ r s. item-add_row r s c)
          refl rs
