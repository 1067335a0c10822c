-- ===== src/Benchmark/Scoring.antt =====
-- `score_receipts` of src/vision_bill/service/benchmark_scoring.py. Scores are floats: their
-- operations are the interface `Floats`, with what IEEE rounding keeps of the order.
pub mod Returned
pub mod Bounds
pub mod Self
mod Tests
use vision_bill.Money.{Decimal, InvalidOperation, money_equal}
use vision_bill.Prelude.Result.{Result, ok, ◌>>=◌}
use vision_bill.Names.{unknown}
use vision_bill.Receipts.{LineItem, TaxLine, Receipt}
use vision_bill.Prelude.{
  ℕ, zero, suc, ◌+◌, ◌≤◌, ◌<◌, ◌≡◌, max, Bool, true, false, not, ◌&&◌, List, [], ◌∷◌, Option, none,
  some, ◌==◌, if◌then◌else◌, Text, text_eq, option_eq, length, get_elem?,
}

pub record Floats : Type 1 where
  pub Float : Type 0
  pub le : Float → Float → Type 0
  pub zero_float : Float
  pub one_float : Float
  pub plus : Float → Float → Float
  pub times : Float → Float → Float
  -- `m / n` of two ints
  pub ratio : ℕ → ℕ → Float
  -- COMPONENT_WEIGHTS, in the order of the dict
  pub header_weight : Float
  pub totals_weight : Float
  pub line_items_weight : Float
  pub taxes_weight : Float
  pub le_refl : (a : Float) → le a a
  pub plus_mono : (a b c d : Float) → le a b → le c d → le (plus a c) (plus b d)
  pub header_mono : (a b : Float) → le a b → le (times a header_weight) (times b header_weight)
  pub totals_mono : (a b : Float) → le a b → le (times a totals_weight) (times b totals_weight)
  pub line_items_mono :
      (a b : Float) → le a b → le (times a line_items_weight) (times b line_items_weight)
  pub taxes_mono : (a b : Float) → le a b → le (times a taxes_weight) (times b taxes_weight)
  pub ratio_le_one : (m n : ℕ) → 0 < n → m ≤ n → le (ratio m n) one_float
  pub ratio_self : (n : ℕ) → 0 < n → ratio n n ≡ one_float

-- `sum` of a list of bools.
abbrev pub count_true : List Bool → ℕ
count_true [] = 0
count_true (b ∷ bs) = if b then suc (count_true bs) else count_true bs

-- The comparisons of the eight header fields, in the order of `header_fields`.
unfoldable pub header_tests : Receipt → Receipt → List Bool
header_tests e a =
    text_eq e.merchant_name a.merchant_name
    ∷ option_eq text_eq e.merchant_address a.merchant_address
    ∷ option_eq text_eq e.receipt_number a.receipt_number
    ∷ (e.date == a.date)
    ∷ option_eq text_eq e.time a.time
    ∷ text_eq e.currency a.currency
    ∷ text_eq e.category a.category
    ∷ text_eq e.payment_method a.payment_method
    ∷ []

-- A comparison of amounts may raise.
abbrev pub Test : Type 0
Test = Result InvalidOperation Bool

-- The comparisons of the five amounts, in the order of `total_fields`.
unfoldable pub total_tests : Receipt → Receipt → List Test
total_tests e a =
    money_equal (some e.subtotal) (some a.subtotal)
    ∷ money_equal (some e.discount_total) (some a.discount_total)
    ∷ money_equal (some e.tax_total) (some a.tax_total)
    ∷ money_equal e.tip a.tip
    ∷ money_equal (some e.total) (some a.total)
    ∷ []

-- `same and money_equal(…)`
abbrev pub and_equal : Bool → Decimal → Decimal → Test
and_equal true e a = money_equal (some e) (some a)
and_equal false e a = ok false

unfoldable pub item_tests : List LineItem → List LineItem → List Test
item_tests (e ∷ es) (a ∷ as_) =
    and_equal (text_eq e.description a.description) e.total_price a.total_price ∷ item_tests es as_
item_tests _ _ = []

unfoldable pub tax_tests : List TaxLine → List TaxLine → List Test
tax_tests (e ∷ es) (a ∷ as_) =
    and_equal (text_eq e.name a.name) e.amount a.amount ∷ tax_tests es as_
tax_tests _ _ = []

-- The results of the tests, or the first exception.
abbrev pub collected : List Test → Result InvalidOperation (List Bool)
collected [] = ok []
collected (m ∷ ms) = m >>= λ b. collected ms >>= λ bs. ok (b ∷ bs)

-- The expected items with a category, and their indices counted from `i`.
unfoldable pub labelled_from : ℕ → List LineItem → List (ℕ × LineItem)
labelled_from i [] = []
labelled_from i (e ∷ es) =
    if not (text_eq e.spending_category unknown)
    then (i, e) ∷ labelled_from (suc i) es
    else labelled_from (suc i) es

abbrev pub category_test : LineItem → Option LineItem → Bool
category_test e none = false
category_test e (some a) =
    text_eq e.description a.description && text_eq e.spending_category a.spending_category

unfoldable pub category_tests : List (ℕ × LineItem) → List LineItem → List Bool
category_tests [] actual = []
category_tests ((i, e) ∷ labelled) actual =
    category_test e (get_elem? actual i) ∷ category_tests labelled actual

module _ (fl : Floats) where
  open fl use {
    Float, zero_float, one_float, plus, times, ratio, header_weight, totals_weight,
    line_items_weight, taxes_weight,
  }

  -- The dict that `score_receipts` returns; `spending_categories` is absent without labels.
  pub record Scores : Type 0 where
    pub header : Float
    pub totals : Float
    pub line_items : Float
    pub taxes : Float
    pub spending_categories : Option Float
    pub overall : Float

  unfoldable pub fraction : ℕ → ℕ → Float
  fraction matches all_ = if all_ == 0 then one_float else ratio matches all_

  -- `sum(components[name] * weight …)`, which starts from 0.
  unfoldable pub weighted : Float → Float → Float → Float → Float
  weighted h t l x =
      plus
        (plus (plus (plus zero_float (times h header_weight)) (times t totals_weight))
          (times l line_items_weight))
        (times x taxes_weight)

  abbrev pub category_score : List (ℕ × LineItem) → List LineItem → Option Float
  category_score [] actual = none
  category_score (e ∷ es) actual =
      some (fraction (count_true (category_tests (e ∷ es) actual)) (length (e ∷ es)))

  -- The dict from the results of the tests.
  unfoldable pub scores_of : Receipt → Receipt → List Bool → List Bool → List Bool → Scores
  scores_of e a total_results item_results tax_results =
      let header = fraction (count_true (header_tests e a)) 8 in
      let totals = fraction (count_true total_results) 5 in
      let line_items =
        fraction (count_true item_results) (max (length e.line_items) (length a.line_items)) in
      let taxes = fraction (count_true tax_results) (max (length e.taxes) (length a.taxes)) in
      record {
        header = header;
        totals = totals;
        line_items = line_items;
        taxes = taxes;
        spending_categories = category_score (labelled_from 0 e.line_items) a.line_items;
        overall = weighted header totals line_items taxes;
      }

  unfoldable pub score_receipts : Receipt → Receipt → Result InvalidOperation Scores
  score_receipts e a = collected (total_tests e a) >>= λ total_results.
      collected (item_tests e.line_items a.line_items) >>= λ item_results.
      collected (tax_tests e.taxes a.taxes) >>= λ tax_results.
      ok (scores_of e a total_results item_results tax_results)
