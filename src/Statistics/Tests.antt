-- ===== src/Statistics/Tests.antt =====
-- Two months of spending in euros.
use vision_bill.Prelude.Int.{pos, negsuc, ◌+ℤ◌, ◌-ℤ◌}
use vision_bill.Statistics.{
  TotalRow, Month, Keys, value_of, keys_eq, month_keys_eq, ItemReconciliation, no_sums, add_rows,
  reconciliation, month_index, history_months,
}
use vision_bill.Statistics.Balance.{sum_where}
use vision_bill.Statistics.Tally.{
  total_of, is_receipt_in, is_item_in, is_deposit_in, is_spent_in, is_spent_during,
  reconciliation_lem,
}
use vision_bill.Statistics.Months.{history_months_lem}
use vision_bill.Prelude.{
  ◌+◌, ◌≤◌, ◌≡◌, true, false, List, [], ◌∷◌, none, some, arith, Text, codes, text_eq, get_elem?,
}

abbrev euro : Text
euro = codes "EUR"

abbrev rows : List TotalRow
rows =
    record {
      is_receipt = false;
      month = (2026, 1);
      category = some (codes "milk");
      currency = euro;
      total = pos 350;
    }
    ∷ record {
      is_receipt = false;
      month = (2026, 2);
      category = none;
      currency = euro;
      total = pos 120;
    }
    ∷ record {
      is_receipt = false;
      month = (2026, 2);
      category = some (codes "deposit");
      currency = euro;
      total = negsuc 24;
    }
    ∷ record {
      is_receipt = true;
      month = (2026, 2);
      category = none;
      currency = euro;
      total = pos 500;
    }
    ∷ []

abbrev report : ItemReconciliation
report = reconciliation euro (add_rows rows no_sums)

reconciliation_lem_example :
    (report.receipt_total ≡ total_of (is_receipt_in euro) rows)
    × (report.item_total ≡ total_of (is_item_in euro) rows)
    × (report.deposit_total ≡ total_of (is_deposit_in euro) rows)
    × (report.unallocated_total
        ≡ total_of (is_receipt_in euro) rows -ℤ total_of (is_item_in euro) rows)
    × (value_of keys_eq (codes "milk", euro) (add_rows rows no_sums).totals
        ≡ total_of (is_spent_in (codes "milk") euro) rows)
    × (value_of month_keys_eq ((2026, 1), codes "milk", euro) (add_rows rows no_sums).monthly
        ≡ total_of (is_spent_during (2026, 1) (codes "milk") euro) rows)
    × (report.receipt_total
        ≡ (sum_where (λ (x : Keys). text_eq x.1 euro) (add_rows rows no_sums).totals
            +ℤ report.deposit_total)
          +ℤ report.unallocated_total)
reconciliation_lem_example = reconciliation_lem euro (codes "milk") (2026, 1) rows

-- Three months up to February 2026: the first one is December 2025.
history_months_lem_example :
    (m : Month) × (get_elem? (history_months (2026, 2) 3) 0 ≡ some m)
    × (month_index m + 2 ≡ month_index (2026, 2))
    × (1 ≤ m.1)
    × (m.1 ≤ 12)
history_months_lem_example = history_months_lem (2026, 2) 3 0 (omega arith) (omega arith)
