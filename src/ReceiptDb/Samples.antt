-- ===== src/ReceiptDb/Samples.antt =====
-- Sample rows for the tests of the receipts, the receipt service and the handlers.
use vision_bill.Money.{Decimal, zero_decimal}
use vision_bill.Prelude.Int.{pos}
use vision_bill.ReceiptDb.{Ledger, ReceiptRow, unverified, LineItemRow, llm_source, Columns, Fresh}
use vision_bill.ReceiptDb.Update.{LineItemUpdate}
use vision_bill.Receipts.{Receipt, LineItem}
use vision_bill.Prelude.{ℕ, ◌+◌, true, false, [], ◌∷◌, none, some, Text, codes}

abbrev pub same_columns : Columns
same_columns = record { money = λ d. d; quantity = λ d. d; rate = λ d. d; time = λ t. t }

abbrev pub same_letter : ℕ → Text
same_letter c = c ∷ []

abbrev pub euro : Decimal
euro = record { coefficient = pos 100; places = 2 }

abbrev pub milk_item : Text → LineItem
milk_item category = record {
  description = codes "Milk";
  spending_category = category;
  quantity = euro;
  unit_price = euro;
  total_price = euro;
  tags = [];
}

abbrev pub shop_receipt : Receipt
shop_receipt = record {
  confidence = 90;
  merchant_name = codes "Shop";
  merchant_address = none;
  receipt_number = none;
  date = 20000;
  time = none;
  currency = codes "EUR";
  category = codes "groceries";
  line_items = milk_item (codes "unknown") ∷ [];
  taxes = [];
  subtotal = euro;
  discount_total = zero_decimal;
  tax_total = zero_decimal;
  tip = none;
  total = euro;
  payment_method = codes "cash";
}

abbrev pub receipt_row : ℕ → ℕ → ReceiptRow
receipt_row id user = record {
  id = id;
  confidence = 90;
  merchant_name = codes "Shop";
  merchant_address = none;
  receipt_number = none;
  date = 20000;
  time = none;
  currency = codes "EUR";
  category = codes "groceries";
  subtotal = euro;
  discount_total = zero_decimal;
  tax_total = zero_decimal;
  tip = none;
  total = euro;
  payment_method = codes "cash";
  created_at = id;
  status = unverified;
  image_id = some (id + 100);
  thumbnail_path = none;
  verified = false;
  user_id = some user;
}

abbrev pub milk_row : ℕ → ℕ → LineItemRow
milk_row id receipt_id = record {
  id = id;
  receipt_id = receipt_id;
  description = codes "Milk";
  original_description = some (codes "MLK 1L");
  spending_category = codes "milk";
  category_source = llm_source;
  quantity = euro;
  unit_price = euro;
  total_price = euro;
  tags = [];
  position = 0;
}

-- User 7 has the receipt 1, user 8 the receipt 2.
abbrev pub two_users : Ledger
two_users = record {
  receipts = receipt_row 1 7 ∷ receipt_row 2 8 ∷ [];
  line_items = milk_row 10 1 ∷ milk_row 20 2 ∷ [];
  taxes = [];
  aliases =
      record {
        user_id = 7;
        merchant_key = codes "Shop";
        description_key = codes "Milk";
        category = codes "milk";
      }
      ∷ [];
}

abbrev pub generated : Fresh
generated = record { receipt_id = 50; item_id = λ n. n + 100; tax_id = λ n. n + 100; now = 30 }

-- The item of the receipt, with another category to remember.
abbrev pub milk_update : Text → LineItemUpdate
milk_update category = record {
  item = milk_item category;
  id = some 10;
  explicit = true;
  remember_category = true;
}
