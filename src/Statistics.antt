-- ===== src/Statistics.antt =====
-- Spending by item category: the sums of `build_item_statistics` in
-- src/vision_bill/service/item_statistics_service.py. Amounts are in cents, as the NUMERIC columns
-- with two places hold them. A month is its year and its number; a dict with default 0 is the list
-- of its entries. The order and the percentages of the output are not modelled.
pub mod Balance
pub mod Tally
pub mod Months
mod Tests
use vision_bill.Names.{unknown}
use vision_bill.Prelude.Int.{ℤ, pos, ◌+ℤ◌, ◌-ℤ◌}
use vision_bill.Prelude.{
  ℕ, zero, suc, ◌+◌, ◌-◌, ◌*◌, ◌/◌, ◌%◌, Bool, true, false, ◌&&◌, List, [], ◌∷◌, ◌++◌, map, Option,
  none, some, ◌==◌, if◌then◌else◌, Text, text_eq, codes, mem_text,
}

abbrev pub Month : Type 0
Month = ℕ × ℕ

-- `value.year * 12 + value.month - 1`
abbrev pub month_index : Month → ℕ
month_index (year, month) = year * 12 + month - 1

abbrev pub of_index : ℕ → Month
of_index i = (i / 12, i % 12 + 1)

-- `month_start` with an offset that is not negative, and with one that is not positive.
unfoldable pub month_after : Month → ℕ → Month
month_after m k = of_index (month_index m + k)

unfoldable pub month_before : Month → ℕ → Month
month_before m k = of_index (month_index m - k)

-- The months of the history: `start = month_start(today, 1 - months)`, then each offset.
abbrev pub months_from : Month → ℕ → ℕ → List Month
months_from start offset zero = []
months_from start offset (suc n) = month_after start offset ∷ months_from start (suc offset) n

unfoldable pub history_months : Month → ℕ → List Month
history_months today months = months_from (month_before today (months - 1)) 0 months

-- A row of ITEM_STATISTICS_SQL; the month of a receipt row is not read.
pub record TotalRow : Type 0 where
  pub is_receipt : Bool
  pub month : Month
  pub category : Option Text
  pub currency : Text
  pub total : ℤ

abbrev pub Dict {ℓ} : Type ℓ → Type ℓ
Dict K = List (K × ℤ)

-- `d[key] += amount`
unfoldable pub add_to {ℓ} : {K : Type ℓ} → (K → K → Bool) → K → ℤ → Dict K → Dict K
add_to eq k v [] = (k, v) ∷ []
add_to eq k v ((j, w) ∷ d) = if eq j k then (j, w +ℤ v) ∷ d else (j, w) ∷ add_to eq k v d

-- `d[key]`
unfoldable pub value_of {ℓ} : {K : Type ℓ} → (K → K → Bool) → K → Dict K → ℤ
value_of eq k [] = pos 0
value_of eq k ((j, w) ∷ d) = if eq j k then w else value_of eq k d

abbrev pub Keys : Type 0
Keys = Text × Text

abbrev pub keys_eq : Keys → Keys → Bool
keys_eq (a, b) (c, d) = text_eq a c && text_eq b d

abbrev pub MonthKeys : Type 0
MonthKeys = Month × Text × Text

abbrev pub month_eq : Month → Month → Bool
month_eq (y, m) (z, n) = y == z && m == n

abbrev pub month_keys_eq : MonthKeys → MonthKeys → Bool
month_keys_eq (m, a, b) (n, c, d) = month_eq m n && text_eq a c && text_eq b d

abbrev pub month_key_eq : Month × Text → Month × Text → Bool
month_key_eq (m, a) (n, c) = month_eq m n && text_eq a c

pub record Sums : Type 0 where
  pub totals : Dict Keys
  pub monthly : Dict MonthKeys
  pub currency_totals : Dict Text
  pub month_totals : Dict (Month × Text)
  pub receipt_totals : Dict Text
  pub deposits : Dict Text
  pub item_totals : Dict Text

-- `str(row["category"] or "unknown")`
abbrev pub category_of : Option Text → Text
category_of none = unknown
category_of (some []) = unknown
category_of (some (c ∷ s)) = c ∷ s

abbrev pub add_item : Text → TotalRow → Sums → Sums
add_item category r s = record s {
  totals = add_to keys_eq (category, r.currency) r.total s.totals;
  monthly = add_to month_keys_eq (r.month, category, r.currency) r.total s.monthly;
  currency_totals = add_to text_eq r.currency r.total s.currency_totals;
  month_totals = add_to month_key_eq (r.month, r.currency) r.total s.month_totals;
  item_totals = add_to text_eq r.currency r.total s.item_totals;
}

abbrev pub add_deposit : TotalRow → Sums → Sums
add_deposit r s = record s {
  deposits = add_to text_eq r.currency r.total s.deposits;
  item_totals = add_to text_eq r.currency r.total s.item_totals;
}

abbrev pub add_receipt : TotalRow → Sums → Sums
add_receipt r s = record s { receipt_totals = add_to text_eq r.currency r.total s.receipt_totals }

-- One round of the loop over the rows.
unfoldable pub add_row : TotalRow → Sums → Sums
add_row r s =
    if r.is_receipt
    then add_receipt r s
    else if text_eq (category_of r.category) (codes "deposit")
    then add_deposit r s
    else add_item (category_of r.category) r s

unfoldable pub add_rows : List TotalRow → Sums → Sums
add_rows [] s = s
add_rows (r ∷ rs) s = add_rows rs (add_row r s)

abbrev pub no_sums : Sums
no_sums = record {
  totals = [];
  monthly = [];
  currency_totals = [];
  month_totals = [];
  receipt_totals = [];
  deposits = [];
  item_totals = [];
}

pub record ItemReconciliation : Type 0 where
  pub currency : Text
  pub receipt_total : ℤ
  pub item_total : ℤ
  pub deposit_total : ℤ
  pub unallocated_total : ℤ

-- The row of one currency.
unfoldable pub reconciliation : Text → Sums → ItemReconciliation
reconciliation currency s = record {
  currency = currency;
  receipt_total = value_of text_eq currency s.receipt_totals;
  item_total = value_of text_eq currency s.item_totals;
  deposit_total = value_of text_eq currency s.deposits;
  unallocated_total =
      value_of text_eq currency s.receipt_totals -ℤ value_of text_eq currency s.item_totals;
}
