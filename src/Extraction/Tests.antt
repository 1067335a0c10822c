-- ===== src/Extraction/Tests.antt =====
-- Two photos of one receipt that overlap in one row.
use vision_bill.Extraction.{SourceLineItem, MultiImageReceipt}
use vision_bill.Money.{Decimal}
use vision_bill.Prelude.Int.{pos}
use vision_bill.Receipts.{LineItem, Receipt}
use vision_bill.Prelude.{ℕ, [], ◌∷◌, none, Text, codes, text_eq, if◌then◌else◌}

-- The ratio of equal texts is 1; here it is 0 for any others.
abbrev similarity : Text → Text → Decimal
similarity s t = record { coefficient = if text_eq s t then pos 1 else pos 0; places = 0 }

abbrev fold : ℕ → Text
fold c = c ∷ []

abbrev euros : ℕ → Decimal
euros n = record { coefficient = pos n; places = 0 }

abbrev item : Text → ℕ → LineItem
item description price = record {
  description = description;
  spending_category = codes "milk";
  quantity = euros 1;
  unit_price = euros price;
  total_price = euros price;
  tags = [];
}

abbrev at_photo : ℕ → LineItem → SourceLineItem
at_photo i l = record { item = l; source_image = i }

abbrev milk : LineItem
milk = item (codes "milk") 2

abbrev cheese : LineItem
cheese = item (codes "cheese") 5

abbrev slip : Receipt
slip = record {
  confidence = 90;
  merchant_name = codes "shop";
  merchant_address = none;
  receipt_number = none;
  date = 20000;
  time = none;
  currency = codes "EUR";
  category = codes "groceries";
  line_items = [];
  taxes = [];
  subtotal = euros 9;
  discount_total = euros 0;
  tax_total = euros 0;
  tip = none;
  total = euros 9;
  payment_method = codes "cash";
}

-- The last row of the first photo is the first row of the second one.
abbrev overlapping : MultiImageReceipt
overlapping = record {
  receipt = slip;
  line_items = at_photo 0 milk ∷ at_photo 0 cheese ∷ at_photo 1 cheese ∷ at_photo 1 milk ∷ [];
  duplicate_candidates = record { first_index = 1; second_index = 2 } ∷ [];
}

abbrev separate : MultiImageReceipt
separate = record overlapping { duplicate_candidates = [] }
