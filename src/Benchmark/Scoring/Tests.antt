-- ===== src/Benchmark/Scoring/Tests.antt =====
-- Scores of one receipt, with floats replaced by sixtieths.
use vision_bill.Benchmark.Scoring.{Floats, Scores, score_receipts, labelled_from}
use vision_bill.Benchmark.Scoring.Bounds.{AreBounded, score_receipts_bounds}
use vision_bill.Money.{Decimal, invalid_operation, cents, round_half_up}
use vision_bill.Benchmark.Scoring.Returned.{AreQuantizable}
use vision_bill.Benchmark.Scoring.Self.{score_receipts_self}
use vision_bill.Money.Rounding.{IsQuantizable}
use vision_bill.Prelude.Result.{ok, err}
use vision_bill.Prelude.Int.{pos}
use vision_bill.Receipts.{LineItem, Receipt}
use vision_bill.Prelude.{
  ℕ, ◌+◌, ◌*◌, ◌/◌, ◌≤◌, ◌<◌, ◌≡◌, ◌⊎◌, min, [], ◌∷◌, none, some, arith, codes, leb, text_eq,
  if◌then◌else◌,
}

abbrev ratio : ℕ → ℕ → ℕ
ratio m n = if leb n m then 60 else min 60 (60 * m / n)

ratio_le_one : (m n : ℕ) → 0 < n → m ≤ n → ratio m n ≤ 60
ratio_le_one m n h k = ground arith

ratio_self : (n : ℕ) → 0 < n → ratio n n ≡ 60
ratio_self n h = ground arith

abbrev sixtieths : Floats
sixtieths = record {
  Float = ℕ;
  le = λ a b. a ≤ b;
  zero_float = 0;
  one_float = 60;
  plus = λ a b. a + b;
  times = λ a b. a * b;
  ratio = ratio;
  header_weight = 25;
  totals_weight = 25;
  line_items_weight = 40;
  taxes_weight = 10;
  le_refl = λ a. omega arith;
  plus_mono = λ a b c d h k. omega (arith, h, k);
  header_mono = λ a b h. omega (arith, h);
  totals_mono = λ a b h. omega (arith, h);
  line_items_mono = λ a b h. omega (arith, h);
  taxes_mono = λ a b h. omega (arith, h);
  ratio_le_one = ratio_le_one;
  ratio_self = ratio_self;
}

abbrev euros : ℕ → Decimal
euros n = record { coefficient = pos n; places = 0 }

abbrev milk : LineItem
milk = record {
  description = codes "milk";
  spending_category = codes "milk";
  quantity = euros 1;
  unit_price = euros 2;
  total_price = euros 2;
  tags = [];
}

abbrev slip : Receipt
slip = record {
  confidence = 90;
  merchant_name = codes "shop";
  merchant_address = none;
  receipt_number = none;
  date = 20000;
  time = none;
  currency = codes "EUR";
  category = codes "groceries";
  line_items = milk ∷ milk ∷ [];
  taxes = record { name = codes "A"; rate = none; amount = euros 1 } ∷ [];
  subtotal = euros 3;
  discount_total = euros 0;
  tax_total = euros 1;
  tip = none;
  total = euros 4;
  payment_method = codes "cash";
}

-- One row was missed.
abbrev shorter : Receipt
shorter = record slip { line_items = milk ∷ [] }

slip-AreQuantizable : AreQuantizable slip
unfolding IsQuantizable cents round_half_up
slip-AreQuantizable = record {
  subtotal = omega arith;
  discount_total = omega arith;
  tax_total = omega arith;
  tip = tt;
  total = omega arith;
  items = (omega arith, (omega arith, tt));
  taxes = (omega arith, tt);
}

score_receipts_bounds_example :
    ((s : Scores sixtieths) × (score_receipts sixtieths slip shorter ≡ ok s)
      × AreBounded sixtieths s)
    ⊎ ((score_receipts sixtieths slip shorter ≡ err invalid_operation)
        × ¬ (AreQuantizable slip × AreQuantizable shorter))
score_receipts_bounds_example = score_receipts_bounds sixtieths slip shorter

score_receipts_self_example :
    (s : Scores sixtieths) × (score_receipts sixtieths slip slip ≡ ok s)
    × (s.header ≡ 60)
    × (s.line_items ≡ 60)
    × (s.taxes ≡ 60)
    × (s.totals ≡ 48)
    × (s.spending_categories ≡ some 60)
unfolding labelled_from text_eq
score_receipts_self_example = score_receipts_self sixtieths slip slip-AreQuantizable
