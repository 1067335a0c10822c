-- ===== src/Benchmark/Scoring/Bounds.antt =====
-- The range of the scores.
use vision_bill.Benchmark.Scoring.Returned.{AreQuantizable, score_receipts-AreQuantizable}
use vision_bill.Benchmark.Scoring.{
  Floats, Scores, Test, collected, scores_of, count_true, header_tests, total_tests, item_tests,
  tax_tests, labelled_from, category_tests, category_score, fraction, weighted, score_receipts,
}
use vision_bill.Money.{InvalidOperation, invalid_operation}
use vision_bill.Prelude.Result.{ok, err, ◌>>=◌, >>=-eq-ok, ok-injective, err-ne-ok, Result-cases}
use vision_bill.Receipts.{LineItem, TaxLine, Receipt}
use vision_bill.Prelude.{
  ℕ, suc, ◌≤◌, ◌≡◌, ◌⊎◌, refl, sym, ap, ◌∙◌, inl, inr, max, Bool, List, [], ◌∷◌, Option, none, some,
  arith, ◌==◌, length, Bool-cases,
}

count_true-le-length : (bs : List Bool) → count_true bs ≤ length bs
count_true-le-length [] = omega arith
count_true-le-length (b ∷ bs) = ground (arith, count_true-le-length bs)

length-item_tests-le :
    (es as_ : List LineItem) → length (item_tests es as_) ≤ max (length es) (length as_)
unfolding item_tests
length-item_tests-le [] as_ = omega arith
length-item_tests-le (e ∷ es) [] = omega arith
length-item_tests-le (e ∷ es) (a ∷ as_) = omega (arith, length-item_tests-le es as_)

length-tax_tests-le :
    (es as_ : List TaxLine) → length (tax_tests es as_) ≤ max (length es) (length as_)
unfolding tax_tests
length-tax_tests-le [] as_ = omega arith
length-tax_tests-le (e ∷ es) [] = omega arith
length-tax_tests-le (e ∷ es) (a ∷ as_) = omega (arith, length-tax_tests-le es as_)

length-category_tests :
    (ls : List (ℕ × LineItem)) (actual : List LineItem)
    → length (category_tests ls actual) ≡ length ls
unfolding category_tests
length-category_tests [] actual = refl
length-category_tests ((i, e) ∷ ls) actual = ap suc (length-category_tests ls actual)

header_tests-le : (e a : Receipt) → count_true (header_tests e a) ≤ 8
unfolding header_tests
header_tests-le e a = count_true-le-length (header_tests e a)

length-collected : (ms : List Test) {bs : List Bool} → collected ms ≡ ok bs → length bs ≡ length ms
length-collected [] {bs} h = ap length (sym (ok-injective h))
length-collected (m ∷ ms) {bs} h =
    let (b, first, later) = >>=-eq-ok m (λ b. collected ms >>= λ bs. ok (b ∷ bs)) h in
    let (rest, e, last) = >>=-eq-ok (collected ms) (λ bs. ok (b ∷ bs)) later in
    ap length (sym (ok-injective last)) ∙ ap suc (length-collected ms e)

count_true-collected :
    (ms : List Test) (n : ℕ) {bs : List Bool}
    → collected ms ≡ ok bs
    → length ms ≤ n
    → count_true bs ≤ n
count_true-collected ms n {bs} h few =
    omega (arith, count_true-le-length bs, length-collected ms h, few)

length-total_tests : (e a : Receipt) → length (total_tests e a) ≤ 5
unfolding total_tests
length-total_tests e a = omega arith

module _ (fl : Floats) where
  open fl use {
    Float, le, one_float, zero_float, plus_mono, header_mono, totals_mono, line_items_mono,
    taxes_mono, ratio_le_one, ratio_self, le_refl,
  }

  fraction-le-one : (m n : ℕ) → m ≤ n → le (fraction fl m n) one_float
  unfolding fraction
  fraction-le-one m n h = elim (Bool-cases (n == 0)) [
    | inl e ↦ rw e (le_refl one_float)
    | inr e ↦ rw e (ratio_le_one m n (ground arith) h)
  ]

  abbrev pub AtMostOne : Option Float → Type 0
  AtMostOne none = Unit
  AtMostOne (some s) = le s one_float

  category_score-AtMostOne :
      (ls : List (ℕ × LineItem)) (actual : List LineItem) → AtMostOne (category_score fl ls actual)
  category_score-AtMostOne [] actual = tt
  category_score-AtMostOne (e ∷ ls) actual = fraction-le-one _ _ (
      omega (
        arith,
        count_true-le-length (category_tests (e ∷ ls) actual),
        length-category_tests (e ∷ ls) actual,
      ))

  -- No component exceeds 1, and the overall score is at most that of four perfect components.
  abbrev pub AreBounded : Scores fl → Type 0
  AreBounded s =
      le s.header one_float
      × le s.totals one_float
      × le s.line_items one_float
      × le s.taxes one_float
      × AtMostOne s.spending_categories
      × le s.overall (weighted fl one_float one_float one_float one_float)

  scores_of-AreBounded :
      (e a : Receipt) (ts is_ xs : List Bool)
      → collected (total_tests e a) ≡ ok ts
      → collected (item_tests e.line_items a.line_items) ≡ ok is_
      → collected (tax_tests e.taxes a.taxes) ≡ ok xs
      → AreBounded (scores_of fl e a ts is_ xs)
  unfolding scores_of weighted
  scores_of-AreBounded e a ts is_ xs total_back item_back tax_back =
      let h = fraction-le-one _ 8 (header_tests-le e a) in
      let t =
        fraction-le-one _ 5
          (count_true-collected (total_tests e a) 5 total_back (length-total_tests e a)) in
      let l = fraction-le-one _ _ (
        count_true-collected (item_tests e.line_items a.line_items) _ item_back
          (length-item_tests-le e.line_items a.line_items)) in
      let x = fraction-le-one _ _ (
        count_true-collected (tax_tests e.taxes a.taxes) _ tax_back
          (length-tax_tests-le e.taxes a.taxes)) in
      (
        h,
        t,
        l,
        x,
        category_score-AtMostOne (labelled_from 0 e.line_items) a.line_items,
        plus_mono _ _ _ _
            (plus_mono _ _ _ _
              (plus_mono _ _ _ _ (plus_mono _ _ _ _ (le_refl zero_float) (header_mono _ _ h))
                (totals_mono _ _ t))
              (line_items_mono _ _ l))
            (taxes_mono _ _ x),
      )

  returned-AreBounded :
      (e a : Receipt) (s : Scores fl) → score_receipts fl e a ≡ ok s → AreBounded s
  unfolding score_receipts
  returned-AreBounded e a s h =
      let (ts, t, h') = >>=-eq-ok (collected (total_tests e a)) _ h in
      let (is_, i, h'') = >>=-eq-ok (collected (item_tests e.line_items a.line_items)) _ h' in
      let (xs, x, last) = >>=-eq-ok (collected (tax_tests e.taxes a.taxes)) _ h'' in
      rw (← ok-injective last) (scores_of-AreBounded e a ts is_ xs t i x)

  -- Either the scores are returned, and then no component exceeds 1 and the overall score is at
  -- most that of four perfect components; or an amount of one of the receipts has more than 28
  -- digits in hundredths, and the rounding of it raises.
  pub score_receipts_bounds :
      (e a : Receipt)
      → ((s : Scores fl) × (score_receipts fl e a ≡ ok s) × AreBounded s)
        ⊎ ((score_receipts fl e a ≡ err invalid_operation)
            × ¬ (AreQuantizable e × AreQuantizable a))
  score_receipts_bounds e a = elim (Result-cases (score_receipts fl e a)) [
    | inl (fault, h) ↦ inr (only fault h, λ (p, q). raised fault h p q)
    | inr (s, h) ↦ inl (s, h, bounded s h)
  ]
    where
      only :
          (fault : InvalidOperation)
          → score_receipts fl e a ≡ err fault
          → score_receipts fl e a ≡ err invalid_operation
      only invalid_operation h = h

      raised :
          (fault : InvalidOperation)
          → score_receipts fl e a ≡ err fault
          → AreQuantizable e
          → AreQuantizable a
          → ⊥
      raised fault h p q =
          let (s, back) = score_receipts-AreQuantizable fl e a p q in err-ne-ok (sym h ∙ back)

      bounded : (s : Scores fl) → score_receipts fl e a ≡ ok s → AreBounded s
      bounded s h = returned-AreBounded e a s h
