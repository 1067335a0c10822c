-- ===== src/Receipts.antt =====
-- The receipt as the model reads it from a photo (src/vision_bill/model/receipt.py): values after
-- validation. Dates are day numbers; the literals of `category` and `payment_method` are texts.
use vision_bill.Money.{Decimal}
use vision_bill.Prelude.{ℕ, List, Option, Text}

pub record LineItem : Type 0 where
  pub description : Text
  pub spending_category : Text
  pub quantity : Decimal
  pub unit_price : Decimal
  pub total_price : Decimal
  pub tags : List Text

pub record TaxLine : Type 0 where
  pub name : Text
  pub rate : Option Decimal
  pub amount : Decimal

pub record Receipt : Type 0 where
  pub confidence : ℕ
  pub merchant_name : Text
  pub merchant_address : Option Text
  pub receipt_number : Option Text
  pub date : ℕ
  pub time : Option Text
  pub currency : Text
  pub category : Text
  pub line_items : List LineItem
  pub taxes : List TaxLine
  pub subtotal : Decimal
  pub discount_total : Decimal
  pub tax_total : Decimal
  pub tip : Option Decimal
  pub total : Decimal
  pub payment_method : Text
