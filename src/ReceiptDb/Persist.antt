-- ===== src/ReceiptDb/Persist.antt =====
-- `persist_receipt` of src/vision_bill/provider/db/receipt_db.py: the receipt of an image is
-- written over, any other is inserted; its line items and taxes are replaced.
pub mod Linked
pub mod Reread
pub mod Written
pub mod Details
use vision_bill.Receipts.{Receipt, LineItem, TaxLine}
use vision_bill.ReceiptDb.{
  Ledger, ReceiptRow, ReceiptStatus, LineItemRow, TaxLineRow, Columns, Fresh, write_receipt,
  receipt_time_value, optional, get_receipt_by_image_id,
}
use vision_bill.ReceiptDb.Categories.{ItemCategoryDecision, history_for_items, decide}
use vision_bill.Prelude.{
  ℕ, zero, suc, Bool, not, List, [], ◌∷◌, ◌++◌, map, Option, none, some, or_same, ◌==◌, Text,
  filter, update_where,
}

abbrev pub item_row : Columns → ℕ → ℕ → ℕ → LineItem → ItemCategoryDecision → LineItemRow
item_row columns generated receipt_id position item d = record {
  id = or_same generated d.id;
  receipt_id = receipt_id;
  description = item.description;
  original_description = some d.original_description;
  spending_category = d.category;
  category_source = d.source;
  quantity = columns.quantity item.quantity;
  unit_price = columns.money item.unit_price;
  total_price = columns.money item.total_price;
  tags = item.tags;
  position = position;
}

-- The items of `_insert_children`, from a position on. The lists are equally long: each caller
-- makes one decision for each item.
unfoldable pub item_rows :
    Columns → (ℕ → ℕ) → ℕ → ℕ → List LineItem → List ItemCategoryDecision → List LineItemRow
item_rows columns item_id receipt_id position (item ∷ items) (d ∷ ds) =
    item_row columns (item_id position) receipt_id position item d
    ∷ item_rows columns item_id receipt_id (suc position) items ds
item_rows columns item_id receipt_id position _ _ = []

unfoldable pub tax_rows : Columns → (ℕ → ℕ) → ℕ → ℕ → List TaxLine → List TaxLineRow
tax_rows columns tax_id receipt_id n [] = []
tax_rows columns tax_id receipt_id n (tax ∷ taxes) =
    record {
      id = tax_id n;
      receipt_id = receipt_id;
      name = tax.name;
      rate = optional columns.rate tax.rate;
      amount = columns.money tax.amount;
    }
    ∷ tax_rows columns tax_id receipt_id (suc n) taxes

-- DELETE_LINE_ITEMS_SQL, DELETE_TAXES_SQL and `_insert_children`.
unfoldable pub replace_children :
    Columns → Fresh → ℕ → Receipt → List ItemCategoryDecision → Ledger → Ledger
replace_children columns fresh receipt_id receipt ds l = record l {
  line_items =
      filter (λ i. not (i.receipt_id == receipt_id)) l.line_items
      ++ item_rows columns fresh.item_id receipt_id 0 receipt.line_items ds;
  taxes =
      filter (λ x. not (x.receipt_id == receipt_id)) l.taxes
      ++ tax_rows columns fresh.tax_id receipt_id 0 receipt.taxes;
}

module _ (columns : Columns) (fresh : Fresh) where
  -- INSERT_RECEIPT_SQL
  abbrev pub inserted_receipt : Receipt → Option ℕ → ReceiptStatus → Bool → Option ℕ → ReceiptRow
  inserted_receipt receipt image_id status verified user_id = record {
    id = fresh.receipt_id;
    confidence = receipt.confidence;
    merchant_name = receipt.merchant_name;
    merchant_address = receipt.merchant_address;
    receipt_number = receipt.receipt_number;
    date = receipt.date;
    time = receipt_time_value columns.time receipt.time;
    currency = receipt.currency;
    category = receipt.category;
    subtotal = columns.money receipt.subtotal;
    discount_total = columns.money receipt.discount_total;
    tax_total = columns.money receipt.tax_total;
    tip = optional columns.money receipt.tip;
    total = columns.money receipt.total;
    payment_method = receipt.payment_method;
    created_at = fresh.now;
    status = status;
    image_id = image_id;
    thumbnail_path = none;
    verified = verified;
    user_id = user_id;
  }

  -- UPDATE_RECEIPT_BY_IMAGE_SQL
  abbrev pub rewritten_receipt : Receipt → ReceiptStatus → Bool → Option ℕ → ReceiptRow → ReceiptRow
  rewritten_receipt receipt status verified user_id r = record (write_receipt columns receipt r) {
    status = status;
    verified = verified;
    user_id = user_id;
  }

  abbrev pub existing_receipt : Option ℕ → List ReceiptRow → Option ReceiptRow
  existing_receipt none t = none
  existing_receipt (some image) t = get_receipt_by_image_id image t

  -- The row that RETURNING answers, and the table.
  unfoldable pub write_row :
      Receipt
      → Option ℕ
      → ReceiptStatus
      → Bool
      → Option ℕ
      → List ReceiptRow
      → ReceiptRow × List ReceiptRow
  write_row receipt image_id status verified user_id t = written (existing_receipt image_id t)
    where
      written : Option ReceiptRow → ReceiptRow × List ReceiptRow
      written none =
          let row = inserted_receipt receipt image_id status verified user_id in
          (row, t ++ row ∷ [])
      written (some old) =
          let rewrite = rewritten_receipt receipt status verified user_id in
          (rewrite old, update_where (λ r. r.id == old.id) rewrite t)

  unfoldable pub persist_receipt :
      (ℕ → Text)
      → Receipt
      → Option ℕ
      → ReceiptStatus
      → Bool
      → Option ℕ
      → Ledger
      → ReceiptRow × Ledger
  persist_receipt fold receipt image_id status verified user_id l =
      let (row, receipts) = write_row receipt image_id status verified user_id l.receipts in
      let history =
        history_for_items fold user_id receipt.merchant_name
          (map (λ (item : LineItem). item.description) receipt.line_items) l.aliases in
      let decisions = decide fold history receipt.line_items in
      (
        row,
        replace_children columns fresh row.id receipt decisions (record l { receipts = receipts }),
      )
