-- ===== src/Benchmark/Scoring/Returned.antt =====
-- Receipts whose amounts can be rounded to cents have scores
-- (src/vision_bill/service/benchmark_scoring.py).
use vision_bill.Benchmark.Scoring.{
  Floats, Scores, Test, and_equal, collected, scores_of, total_tests, item_tests, tax_tests,
  score_receipts,
}
use vision_bill.Money.{Decimal}
use vision_bill.Money.Rounding.{IsQuantizable, money_equal-IsQuantizable}
use vision_bill.Prelude.Result.{ok}
use vision_bill.Receipts.{LineItem, TaxLine, Receipt}
use vision_bill.Prelude.{◌≡◌, refl, All, false, Bool, true, List, [], ◌∷◌, some}

-- All amounts of a receipt have at most 28 digits in hundredths.
pub record AreQuantizable (r : Receipt) : Type 0 where
  pub subtotal : IsQuantizable (some r.subtotal)
  pub discount_total : IsQuantizable (some r.discount_total)
  pub tax_total : IsQuantizable (some r.tax_total)
  pub tip : IsQuantizable r.tip
  pub total : IsQuantizable (some r.total)
  pub items : All (λ (i : LineItem). IsQuantizable (some i.total_price)) r.line_items
  pub taxes : All (λ (t : TaxLine). IsQuantizable (some t.amount)) r.taxes

-- A test that returns.
IsReturned : Test → Type 0
IsReturned m = (b : Bool) × (m ≡ ok b)

collected-IsReturned :
    (ms : List Test) → All IsReturned ms → (bs : List Bool) × (collected ms ≡ ok bs)
unfolding IsReturned
collected-IsReturned [] a = ([], refl)
collected-IsReturned (m ∷ ms) ((b, e), later) =
    let (bs, es) = collected-IsReturned ms later in (b ∷ bs, rw (e, es) refl)

and_equal-IsReturned :
    (same : Bool) (e a : Decimal)
    → IsQuantizable (some e)
    → IsQuantizable (some a)
    → IsReturned (and_equal same e a)
unfolding IsReturned
and_equal-IsReturned true e a h k = money_equal-IsQuantizable (some e) (some a) h k
and_equal-IsReturned false e a h k = (false, refl)

total_tests-IsReturned :
    (e a : Receipt) → AreQuantizable e → AreQuantizable a → All IsReturned (total_tests e a)
unfolding total_tests IsReturned
total_tests-IsReturned e a h k = (
  money_equal-IsQuantizable _ _ h.subtotal k.subtotal,
  (
    money_equal-IsQuantizable _ _ h.discount_total k.discount_total,
    (
      money_equal-IsQuantizable _ _ h.tax_total k.tax_total,
      (
        money_equal-IsQuantizable _ _ h.tip k.tip,
        (money_equal-IsQuantizable _ _ h.total k.total, tt),
      ),
    ),
  ),
)

item_tests-IsReturned :
    (es as_ : List LineItem)
    → All (λ (i : LineItem). IsQuantizable (some i.total_price)) es
    → All (λ (i : LineItem). IsQuantizable (some i.total_price)) as_
    → All IsReturned (item_tests es as_)
unfolding item_tests
item_tests-IsReturned [] as_ h k = tt
item_tests-IsReturned (e ∷ es) [] h k = tt
item_tests-IsReturned (e ∷ es) (a ∷ as_) h k =
    (and_equal-IsReturned _ _ _ h.0 k.0, item_tests-IsReturned es as_ h.1 k.1)

tax_tests-IsReturned :
    (es as_ : List TaxLine)
    → All (λ (t : TaxLine). IsQuantizable (some t.amount)) es
    → All (λ (t : TaxLine). IsQuantizable (some t.amount)) as_
    → All IsReturned (tax_tests es as_)
unfolding tax_tests
tax_tests-IsReturned [] as_ h k = tt
tax_tests-IsReturned (e ∷ es) [] h k = tt
tax_tests-IsReturned (e ∷ es) (a ∷ as_) h k =
    (and_equal-IsReturned _ _ _ h.0 k.0, tax_tests-IsReturned es as_ h.1 k.1)

module _ (fl : Floats) where
  open fl use {
    Float, le, one_float, zero_float, plus_mono, header_mono, totals_mono, line_items_mono,
    taxes_mono, ratio_le_one, ratio_self, le_refl,
  }

  -- Receipts with such amounts have scores.
  pub score_receipts-AreQuantizable :
      (e a : Receipt)
      → AreQuantizable e
      → AreQuantizable a
      → (s : Scores fl) × (score_receipts fl e a ≡ ok s)
  unfolding score_receipts
  score_receipts-AreQuantizable e a h k =
      let (ts, t) = collected-IsReturned _ (total_tests-IsReturned e a h k) in
      let (is_, i) =
        collected-IsReturned _ (item_tests-IsReturned e.line_items a.line_items h.items k.items) in
      let (xs, x) = collected-IsReturned _ (tax_tests-IsReturned e.taxes a.taxes h.taxes k.taxes) in
      (scores_of fl e a ts is_ xs, rw (t, i, x) refl)
