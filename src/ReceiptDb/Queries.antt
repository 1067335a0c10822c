-- ===== src/ReceiptDb/Queries.antt =====
-- The SELECT statements of src/vision_bill/provider/db/receipt_db.py that answer many rows or join
-- tables, the tag vocabulary, and the price summary of a product search in
-- src/vision_bill/service/receipt_service.py. `ilike` is PostgreSQL's operator, from a pattern.
pub mod Prices
use vision_bill.Access.{in_scope}
use vision_bill.Collections.Links.{Link, collection_ids_for_receipt}
use vision_bill.Images.{ImageRow, Images}
use vision_bill.Money.{Decimal, zero_decimal, is_negsuc, add_decimal, decimal_leb}
use vision_bill.ReceiptDb.{
  Ledger, ReceiptRow, ReceiptStatus, unverified, verified, LineItemRow, TaxLineRow, optional,
  get_receipt_by_id,
}
use vision_bill.ReceiptDb.Update.{list_line_items}
use vision_bill.Prelude.{
  ℕ, Bool, true, false, not, ◌&&◌, ◌||◌, List, [], ◌∷◌, ◌++◌, map, Option, none, some, ltb, leb,
  ◌==◌, if◌then◌else◌, Text, text_eq, mem_text, filter, find?, any, sort_by, take, drop, length,
}

abbrev pub receipt_status_eq : ReceiptStatus → ReceiptStatus → Bool
receipt_status_eq unverified unverified = true
receipt_status_eq verified verified = true
receipt_status_eq _ _ = false

-- `%text%`
abbrev pub containing : Text → Text
containing text = 37 ∷ (text ++ 37 ∷ [])

-- The filters of `list_receipts` except the collection.
pub record ReceiptFilter : Type 0 where
  pub status : List ReceiptStatus
  pub date_from : Option ℕ
  pub date_to : Option ℕ
  pub search : Text

-- LEFT JOIN images i ON i.id = r.image_id
abbrev pub image_of : Option ℕ → Images → Option ImageRow
image_of none t = none
image_of (some image) t = find? (λ i. i.id == image) t

abbrev pub image_path_of : Option ImageRow → Option Text
image_path_of none = none
image_path_of (some i) = i.image_path

abbrev pub thumbnail_path_of : Option ImageRow → Option Text
thumbnail_path_of none = none
thumbnail_path_of (some i) = i.thumbnail_path

abbrev pub joined_receipt : Images → ReceiptRow → ReceiptRow
joined_receipt images r = record r {
  thumbnail_path = thumbnail_path_of (image_of r.image_id images);
}

module _ (ilike : Text → Text → Bool) where
  abbrev pub ilike_optional : Text → Option Text → Bool
  ilike_optional pattern_text none = false
  ilike_optional pattern_text (some text) = ilike pattern_text text

  abbrev pub status_in : List ReceiptStatus → ReceiptStatus → Bool
  status_in [] status = true
  status_in (s ∷ ss) status = any (receipt_status_eq status) (s ∷ ss)

  abbrev pub not_before : Option ℕ → ℕ → Bool
  not_before none date = true
  not_before (some date_from) date = leb date_from date

  abbrev pub not_after : Option ℕ → ℕ → Bool
  not_after none date = true
  not_after (some date_to) date = leb date date_to

  abbrev pub has_text : Text → ReceiptRow → Bool
  has_text [] r = true
  has_text (c ∷ search) r =
      ilike (containing (c ∷ search)) r.merchant_name
      || ilike_optional (containing (c ∷ search)) r.receipt_number

  abbrev pub passes : ReceiptFilter → Option ℕ → Bool → ReceiptRow → Bool
  passes f user_id can_see_all r =
      in_scope user_id can_see_all r.user_id
      && status_in f.status r.status
      && not_before f.date_from r.date
      && not_after f.date_to r.date
      && has_text f.search r

  unfoldable pub list_receipts :
      ℕ → ℕ → ReceiptFilter → Option ℕ → Bool → Images → List ReceiptRow → List ReceiptRow
  list_receipts limit offset f user_id can_see_all images t = map (joined_receipt images) (
      take limit (
        drop offset (sort_by (λ a b. leb b.date a.date) (filter (passes f user_id can_see_all) t))))

pub record ProductPurchase : Type 0 where
  pub receipt_id : ℕ
  pub description : Text
  pub merchant_name : Text
  pub date : ℕ
  pub time : Option Text
  pub quantity : Decimal
  pub unit_price : Decimal
  pub currency : Text

-- A line item and its receipt, as the JOIN yields them.
pub record Purchased : Type 0 where
  pub item : LineItemRow
  pub receipt : ReceiptRow

abbrev pub is_receipt_of : LineItemRow → ReceiptRow → Bool
is_receipt_of i r = r.id == i.receipt_id

unfoldable pub join_receipts : List LineItemRow → List ReceiptRow → List Purchased
join_receipts [] rs = []
join_receipts (i ∷ is) rs =
    map (λ r. record { item = i; receipt = r }) (filter (is_receipt_of i) rs) ++ join_receipts is rs

-- The first column of ORDER BY … DESC that differs decides.
abbrev pub descending : ℕ → ℕ → Bool → Bool
descending a b rest = ltb b a || a == b && rest

-- ISO times of one form are ordered as texts.
unfoldable pub text_ltb : Text → Text → Bool
text_ltb s [] = false
text_ltb [] (d ∷ t) = true
text_ltb (c ∷ s) (d ∷ t) = ltb c d || c == d && text_ltb s t

-- `r.time DESC NULLS LAST`
abbrev pub time_descending : Option Text → Option Text → Bool → Bool
time_descending none none rest = rest
time_descending none (some t) rest = false
time_descending (some s) none rest = true
time_descending (some s) (some t) rest = text_ltb t s || text_eq s t && rest

abbrev pub purchase_before : Purchased → Purchased → Bool
purchase_before p q = descending p.receipt.date q.receipt.date (
    time_descending p.receipt.time q.receipt.time (
      descending p.receipt.created_at q.receipt.created_at
        (descending p.receipt.id q.receipt.id (leb q.item.id p.item.id))))

abbrev pub product_purchase : Purchased → ProductPurchase
product_purchase p = record {
  receipt_id = p.item.receipt_id;
  description = p.item.description;
  merchant_name = p.receipt.merchant_name;
  date = p.receipt.date;
  time = p.receipt.time;
  quantity = p.item.quantity;
  unit_price = p.item.unit_price;
  currency = p.receipt.currency;
}

module _ (ilike : Text → Text → Bool) where
  abbrev pub is_match : Text → Option ℕ → Bool → Purchased → Bool
  is_match query user_id can_see_all p =
      receipt_status_eq p.receipt.status verified
      && p.receipt.verified
      && ilike (containing query) p.item.description
      && in_scope user_id can_see_all p.receipt.user_id

  unfoldable pub search_products : Text → Option ℕ → Bool → Ledger → List ProductPurchase
  search_products query user_id can_see_all l = map product_purchase (
      sort_by purchase_before
        (filter (is_match query user_id can_see_all) (join_receipts l.line_items l.receipts)))

pub record ProductSearchResponse : Type 0 where
  pub query : Text
  pub purchases : List ProductPurchase
  pub latest_price : Option Decimal
  pub cheapest_price : Option Decimal
  pub average_price : Option Decimal
  pub currency : Option Text

abbrev pub unit_prices : List ProductPurchase → List Decimal
unit_prices = map (λ (p : ProductPurchase). p.unit_price)

abbrev pub is_non_negative : Decimal → Bool
is_non_negative d = not (is_negsuc d.coefficient)

-- `min(prices)`: of equal prices the first.
unfoldable pub cheapest : List Decimal → Option Decimal
cheapest [] = none
cheapest (d ∷ ds) = cheaper (cheapest ds)
  where
    cheaper : Option Decimal → Option Decimal
    cheaper none = some d
    cheaper (some e) = if decimal_leb d e then some d else some e

-- `sum(prices, Decimal(0))`, from the left.
unfoldable pub sum_from : Decimal → List Decimal → Decimal
sum_from d [] = d
sum_from d (e ∷ es) = sum_from (add_decimal d e) es

-- `ReceiptService.search_products` of the rows; `divide` is Decimal's division by a count.
unfoldable pub price_summary :
    (Decimal → ℕ → Decimal) → Text → List ProductPurchase → ProductSearchResponse
price_summary divide query [] = record {
  query = query;
  purchases = [];
  latest_price = none;
  cheapest_price = none;
  average_price = none;
  currency = none;
}
price_summary divide query (p ∷ ps) =
    let prices = unit_prices (p ∷ ps) in
    record {
      query = query;
      purchases = p ∷ ps;
      latest_price = some p.unit_price;
      cheapest_price = cheapest (filter is_non_negative prices);
      average_price = some (divide (sum_from zero_decimal prices) (length prices));
      currency = some p.currency;
    }

pub record ReceiptWithDetails : Type 0 where
  pub receipt : ReceiptRow
  pub line_items : List LineItemRow
  pub taxes : List TaxLineRow
  pub image_path : Option Text
  pub collection_ids : List ℕ

-- LIST_TAXES_SQL
unfoldable pub list_taxes : ℕ → List TaxLineRow → List TaxLineRow
list_taxes receipt_id t =
    sort_by (λ x y. leb x.id y.id) (filter (λ x. x.receipt_id == receipt_id) t)

abbrev pub with_details : Images → List Link → ℕ → Ledger → ReceiptRow → ReceiptWithDetails
with_details images links receipt_id l row = record {
  receipt = joined_receipt images row;
  line_items = list_line_items receipt_id l.line_items;
  taxes = list_taxes receipt_id l.taxes;
  image_path = image_path_of (image_of row.image_id images);
  collection_ids = collection_ids_for_receipt receipt_id links;
}

unfoldable pub get_receipt_with_details :
    Images → List Link → ℕ → Option ℕ → Bool → Ledger → Option ReceiptWithDetails
get_receipt_with_details images links receipt_id user_id can_see_all l =
    optional (with_details images links receipt_id l)
      (get_receipt_by_id receipt_id user_id can_see_all l.receipts)

-- The names of the table tags; `name_leb` is the order of the database's collation.
unfoldable pub list_tags : (Text → Text → Bool) → List Text → List Text
list_tags name_leb = sort_by name_leb

-- ON CONFLICT (name) DO NOTHING
unfoldable pub create_tag : Text → List Text → Bool × List Text
create_tag name t = if mem_text name t then (false, t) else (true, t ++ name ∷ [])
