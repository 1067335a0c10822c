-- ===== src/Benchmark/Scoring/Self.antt =====
-- The score of an extraction that is exact.
use vision_bill.Benchmark.Scoring.Returned.{AreQuantizable}
use vision_bill.Benchmark.Scoring.{
  Floats, Scores, collected, scores_of, count_true, header_tests, total_tests, item_tests,
  tax_tests, labelled_from, category_tests, category_score, fraction, score_receipts,
}
use vision_bill.Money.{Decimal}
use vision_bill.Money.Rounding.{IsQuantizable, money_equal_refl}
use vision_bill.Prelude.Result.{ok}
use vision_bill.Names.{unknown}
use vision_bill.Receipts.{LineItem, TaxLine, Receipt}
use vision_bill.Prelude.{
  ℕ, zero, suc, ◌≡◌, refl, ap, All, inl, inr, max, Bool, true, not, List, [], ◌∷◌, Option, none,
  some, arith, ◌==◌, if◌then◌else◌, Text, text_eq, text_eq_refl, option_eq, is_some, length,
  get_elem?, Bool-cases, drop,
}

option_eq_refl : (o : Option Text) → option_eq text_eq o o ≡ true
option_eq_refl none = refl
option_eq_refl (some t) = text_eq_refl t

header_tests_self : (r : Receipt) → count_true (header_tests r r) ≡ 8
unfolding header_tests
header_tests_self r =
    rw
      (
        text_eq_refl r.merchant_name,
        option_eq_refl r.merchant_address,
        option_eq_refl r.receipt_number,
        option_eq_refl r.time,
        text_eq_refl r.currency,
        text_eq_refl r.category,
        text_eq_refl r.payment_method,
      )
      (ground arith)

-- A tip that is missing on both sides counts as a mismatch.
total_tests_self :
    (r : Receipt)
    → AreQuantizable r
    → collected (total_tests r r) ≡ ok (true ∷ true ∷ true ∷ is_some r.tip ∷ true ∷ [])
unfolding total_tests
total_tests_self r h =
    rw
      (
        money_equal_refl (some r.subtotal) h.subtotal,
        money_equal_refl (some r.discount_total) h.discount_total,
        money_equal_refl (some r.tax_total) h.tax_total,
        money_equal_refl r.tip h.tip,
        money_equal_refl (some r.total) h.total,
      )
      refl

item_tests_self :
    (es : List LineItem)
    → All (λ (i : LineItem). IsQuantizable (some i.total_price)) es
    → (bs : List Bool) × (collected (item_tests es es) ≡ ok bs) × (count_true bs ≡ length es)
unfolding item_tests
item_tests_self [] h = ([], refl, refl)
item_tests_self (e ∷ es) h =
    let (bs, back, all_true) = item_tests_self es h.1 in
    (
      true ∷ bs,
      rw (text_eq_refl e.description, money_equal_refl (some e.total_price) h.0, back) refl,
      ap suc all_true,
    )

tax_tests_self :
    (ts : List TaxLine)
    → All (λ (t : TaxLine). IsQuantizable (some t.amount)) ts
    → (bs : List Bool) × (collected (tax_tests ts ts) ≡ ok bs) × (count_true bs ≡ length ts)
unfolding tax_tests
tax_tests_self [] h = ([], refl, refl)
tax_tests_self (t ∷ ts) h =
    let (bs, back, all_true) = tax_tests_self ts h.1 in
    (
      true ∷ bs,
      rw (text_eq_refl t.name, money_equal_refl (some t.amount) h.0, back) refl,
      ap suc all_true,
    )

get_elem?-drop :
    (i : ℕ) (xs : List LineItem) {e : LineItem} {es : List LineItem}
    → drop i xs ≡ e ∷ es
    → get_elem? xs i ≡ some e
get_elem?-drop zero [] h = absurd (cc)
get_elem?-drop zero (x ∷ xs) h = cc
get_elem?-drop (suc i) [] h = absurd (cc)
get_elem?-drop (suc i) (x ∷ xs) h = get_elem?-drop i xs h

drop-suc :
    (i : ℕ) (xs : List LineItem) {e : LineItem} {es : List LineItem}
    → drop i xs ≡ e ∷ es
    → drop (suc i) xs ≡ es
drop-suc zero [] h = absurd (cc)
drop-suc zero (x ∷ xs) h = cc
drop-suc (suc i) [] h = absurd (cc)
drop-suc (suc i) (x ∷ xs) h = drop-suc i xs h

category_tests_self :
    (i : ℕ) (es actual : List LineItem)
    → drop i actual ≡ es
    → count_true (category_tests (labelled_from i es) actual) ≡ length (labelled_from i es)
unfolding category_tests labelled_from
category_tests_self i [] actual h = refl
category_tests_self i (e ∷ es) actual h =
    elim (Bool-cases (not (text_eq e.spending_category unknown))) [
      | inl k ↦
          rw
            (
              k,
              get_elem?-drop i actual h,
              text_eq_refl e.description,
              text_eq_refl e.spending_category,
            )
            (ap suc (category_tests_self (suc i) es actual (drop-suc i actual h)))
      | inr k ↦ rw k (category_tests_self (suc i) es actual (drop-suc i actual h))
    ]

max_self : (n : ℕ) → max n n ≡ n
max_self n = omega arith

module _ (fl : Floats) where
  open fl use {
    Float, le, one_float, zero_float, plus_mono, header_mono, totals_mono, line_items_mono,
    taxes_mono, ratio_le_one, ratio_self, le_refl,
  }

  fraction_self : (n : ℕ) → fraction fl n n ≡ one_float
  unfolding fraction
  fraction_self n = elim (Bool-cases (n == 0)) [
    | inl e ↦ rw e
    | inr e ↦ rw e (ratio_self n (ground arith))
  ]

  fraction_part : fraction fl 4 5 ≡ fl.ratio 4 5
  unfolding fraction
  fraction_part = refl

  category_score_self :
      (es : List LineItem)
      → category_score fl (labelled_from 0 es) es
        ≡ elim (labelled_from 0 es) [ [] ↦ none | _ ∷ _ ↦ some one_float ]
  category_score_self es = go (labelled_from 0 es) (category_tests_self 0 es es refl)
    where
      go :
          (ls : List (ℕ × LineItem))
          → count_true (category_tests ls es) ≡ length ls
          → category_score fl ls es ≡ elim ls [ [] ↦ none | _ ∷ _ ↦ some one_float ]
      go [] h = refl
      go (l ∷ ls) h = rw h (ap some (fraction_self (length (l ∷ ls))))

  -- A receipt whose amounts have at most 28 digits in hundredths, scored against itself: the header,
  -- the line items and the taxes score 1, so do the spending categories where any item has one, and
  -- the totals score 1 exactly if the receipt has a tip; without a tip they score 4 / 5, since a
  -- missing amount matches nothing.
  pub score_receipts_self :
      (r : Receipt)
      → AreQuantizable r
      → (s : Scores fl) × (score_receipts fl r r ≡ ok s)
        × (s.header ≡ one_float)
        × (s.line_items ≡ one_float)
        × (s.taxes ≡ one_float)
        × (s.totals ≡ (if is_some r.tip then one_float else fl.ratio 4 5))
        × (s.spending_categories
            ≡ elim (labelled_from 0 r.line_items) [ [] ↦ none | _ ∷ _ ↦ some one_float ])
  unfolding score_receipts scores_of
  score_receipts_self r h =
      let (is_, items_back, items_true) = item_tests_self r.line_items h.items in
      let (xs, taxes_back, taxes_true) = tax_tests_self r.taxes h.taxes in
      (
        scores_of fl r r (true ∷ true ∷ true ∷ is_some r.tip ∷ true ∷ []) is_ xs,
        rw (total_tests_self r h, items_back, taxes_back) refl,
        rw (header_tests_self r) (fraction_self 8),
        rw (items_true, max_self (length r.line_items)) (fraction_self (length r.line_items)),
        rw (taxes_true, max_self (length r.taxes)) (fraction_self (length r.taxes)),
        totals r.tip,
        category_score_self r.line_items,
      )
    where
      totals :
          (o : Option Decimal)
          → fraction fl (count_true (true ∷ true ∷ true ∷ is_some o ∷ true ∷ [])) 5
            ≡ (if is_some o then one_float else fl.ratio 4 5)
      totals none = fraction_part
      totals (some t) = fraction_self 5
