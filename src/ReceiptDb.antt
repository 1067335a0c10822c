-- ===== src/ReceiptDb.antt =====
-- The receipts tables (src/vision_bill/model/db/receipt.py and
-- src/vision_bill/provider/db/receipt_db.py): their rows and the statements on single receipts. Ids
-- and times come from the database and are arguments; a date is its day number.
pub mod Categories
pub mod Persist
pub mod Update
pub mod Queries
pub mod Foreign
pub mod Samples
mod Tests
use vision_bill.Access.{in_scope}
use vision_bill.Money.{Decimal}
use vision_bill.Receipts.{Receipt, LineItem, TaxLine}
use vision_bill.Prelude.{
  ℕ, suc, ◌+◌, Bool, true, false, not, ◌&&◌, ◌||◌, List, [], ◌∷◌, ◌++◌, map, Option, none, some,
  ltb, leb, ◌==◌, if◌then◌else◌, Text, filter, find?, update_where, sort_by, is_some,
}
use vision_bill.Prelude.Result.{Result, ok, err}

-- The values that the CHECK constraint of the column allows.
pub data ReceiptStatus : Type 0 where
  unverified verified : ReceiptStatus

-- All but thumbnail_path are columns: a query that joins the image fills it, and it is `none` in the
-- table.
pub record ReceiptRow : Type 0 where
  pub id : ℕ
  pub confidence : ℕ
  pub merchant_name : Text
  pub merchant_address : Option Text
  pub receipt_number : Option Text
  pub date : ℕ
  pub time : Option Text
  pub currency : Text
  pub category : Text
  pub subtotal : Decimal
  pub discount_total : Decimal
  pub tax_total : Decimal
  pub tip : Option Decimal
  pub total : Decimal
  pub payment_method : Text
  pub created_at : ℕ
  pub status : ReceiptStatus
  pub image_id : Option ℕ
  pub thumbnail_path : Option Text
  pub verified : Bool
  pub user_id : Option ℕ

-- Who decided on the category of a line item: the values of the column category_source.
pub data CategorySource : Type 0 where
  history_source llm_source user_source unknown_source : CategorySource

pub record LineItemRow : Type 0 where
  pub id : ℕ
  pub receipt_id : ℕ
  pub description : Text
  pub original_description : Option Text
  pub spending_category : Text
  pub category_source : CategorySource
  pub quantity : Decimal
  pub unit_price : Decimal
  pub total_price : Decimal
  pub tags : List Text
  pub position : ℕ

pub record TaxLineRow : Type 0 where
  pub id : ℕ
  pub receipt_id : ℕ
  pub name : Text
  pub rate : Option Decimal
  pub amount : Decimal

-- A row of item_category_aliases.
pub record CategoryAlias : Type 0 where
  pub user_id : ℕ
  pub merchant_key : Text
  pub description_key : Text
  pub category : Text

pub record Ledger : Type 0 where
  pub receipts : List ReceiptRow
  pub line_items : List LineItemRow
  pub taxes : List TaxLineRow
  pub aliases : List CategoryAlias

-- What a value is after `float(…)` and its column: NUMERIC(14,2), NUMERIC(10,4) and
-- NUMERIC(6,4); and a time text after `Time.fromisoformat` and `isoformat`.
pub record Columns : Type 0 where
  pub money : Decimal → Decimal
  pub quantity : Decimal → Decimal
  pub rate : Decimal → Decimal
  pub time : Text → Text

-- gen_random_uuid() and CURRENT_TIMESTAMP in one transaction.
pub record Fresh : Type 0 where
  pub receipt_id : ℕ
  pub item_id : ℕ → ℕ
  pub tax_id : ℕ → ℕ
  pub now : ℕ

abbrev pub optional {ℓ κ} : {A : Type ℓ} {B : Type κ} → (A → B) → Option A → Option B
optional f none = none
optional f (some a) = some (f a)

-- `_receipt_time_value`: no time where the text is empty.
abbrev pub receipt_time_value : (Text → Text) → Option Text → Option Text
receipt_time_value clock none = none
receipt_time_value clock (some []) = none
receipt_time_value clock (some (c ∷ s)) = some (clock (c ∷ s))

-- The columns that both UPDATE statements set from the receipt.
unfoldable pub write_receipt : Columns → Receipt → ReceiptRow → ReceiptRow
write_receipt columns receipt r = record r {
  confidence = receipt.confidence;
  merchant_name = receipt.merchant_name;
  merchant_address = receipt.merchant_address;
  receipt_number = receipt.receipt_number;
  date = receipt.date;
  time = receipt_time_value columns.time receipt.time;
  currency = receipt.currency;
  category = receipt.category;
  subtotal = columns.money receipt.subtotal;
  discount_total = columns.money receipt.discount_total;
  tax_total = columns.money receipt.tax_total;
  tip = optional columns.money receipt.tip;
  total = columns.money receipt.total;
  payment_method = receipt.payment_method;
}

-- `WHERE id = $1 AND user_id = $2`, the second test as for every statement.
abbrev pub receipt_scoped : ℕ → Option ℕ → Bool → ReceiptRow → Bool
receipt_scoped id user_id can_see_all r = r.id == id && in_scope user_id can_see_all r.user_id

unfoldable pub get_receipt_by_id : ℕ → Option ℕ → Bool → List ReceiptRow → Option ReceiptRow
get_receipt_by_id id user_id can_see_all = find? (receipt_scoped id user_id can_see_all)

abbrev pub is_of_image : ℕ → ReceiptRow → Bool
is_of_image image r = is_image r.image_id
  where
    is_image : Option ℕ → Bool
    is_image none = false
    is_image (some linked) = linked == image

-- ORDER BY created_at ASC, id ASC
abbrev pub older_receipt : ReceiptRow → ReceiptRow → Bool
older_receipt a b = ltb a.created_at b.created_at || a.created_at == b.created_at && leb a.id b.id

-- LIMIT 1
abbrev pub first_row {ℓ} : {A : Type ℓ} → List A → Option A
first_row [] = none
first_row (r ∷ rs) = some r

unfoldable pub get_receipt_by_image_id : ℕ → List ReceiptRow → Option ReceiptRow
get_receipt_by_image_id image t = first_row (sort_by older_receipt (filter (is_of_image image) t))

abbrev pub set_verified : ReceiptRow → ReceiptRow
set_verified r = record r { status = verified; verified = true }

unfoldable pub verify_receipt : ℕ → Option ℕ → Bool → Ledger → Option ReceiptRow × Ledger
verify_receipt id user_id can_see_all l =
    let after = update_where (receipt_scoped id user_id can_see_all) set_verified l.receipts in
    (get_receipt_by_id id user_id can_see_all after, record l { receipts = after })

-- The foreign key of benchmark_tasks has no ON DELETE rule.
pub data ReceiptReferenced : Type 0 where
  receipt_referenced : ReceiptReferenced

abbrev pub without_receipt : ℕ → Option ℕ → Bool → Ledger → Ledger
without_receipt id user_id can_see_all l = record l {
  receipts = filter (λ r. not (receipt_scoped id user_id can_see_all r)) l.receipts;
  line_items = filter (λ i. not (i.receipt_id == id)) l.line_items;
  taxes = filter (λ x. not (x.receipt_id == id)) l.taxes;
}

-- Line items and taxes cascade. `is_referenced` says which receipts a benchmark task refers to.
unfoldable pub delete_receipt :
    (ℕ → Bool)
    → ℕ
    → Option ℕ
    → Bool
    → Ledger
    → Result ReceiptReferenced (Option ReceiptRow) × Ledger
delete_receipt is_referenced id user_id can_see_all l =
    deleted (get_receipt_by_id id user_id can_see_all l.receipts)
  where
    deleted : Option ReceiptRow → Result ReceiptReferenced (Option ReceiptRow) × Ledger
    deleted none = (ok none, l)
    deleted (some r) =
        if is_referenced id
        then (err receipt_referenced, l)
        else (ok (some r), without_receipt id user_id can_see_all l)
