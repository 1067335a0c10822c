-- ===== src/ReceiptDb/Persist/Reread.antt =====
-- What `get_receipt_with_details` reads after `persist_receipt`
-- (src/vision_bill/provider/db/receipt_db.py).
use vision_bill.ReceiptDb.{CategoryAlias, LineItemRow, Columns}
use vision_bill.ReceiptDb.Categories.{ItemCategoryDecision, decision, get_category_suggestion}
use vision_bill.ReceiptDb.Persist.{item_row, item_rows}
use vision_bill.ReceiptDb.Update.{list_line_items}
use vision_bill.Receipts.{LineItem}
use vision_bill.Prelude.{
  ℕ, suc, ◌≡◌, refl, ap, Bool, not, List, [], ◌∷◌, ◌++◌, map, Option, none, some, or_same, leb,
  ◌==◌, Text, filter, insert_by, sort_by, arith,
}
use vision_bill.Prelude.Rewritten.{filter-append}

filter-filter-not {ℓ} :
    {A : Type ℓ} (p : A → Bool) (xs : List A) → filter p (filter (λ x. not (p x)) xs) ≡ []
filter-filter-not p [] = refl
filter-filter-not p (x ∷ xs) = ground (arith, filter-filter-not p xs)

module _ (columns : Columns) (item_id : ℕ → ℕ) (receipt_id : ℕ) where
  abbrev rows : ℕ → List LineItem → List ItemCategoryDecision → List LineItemRow
  rows = item_rows columns item_id receipt_id

  filter-item_rows :
      (n : ℕ) (items : List LineItem) (ds : List ItemCategoryDecision)
      → filter (λ i. i.receipt_id == receipt_id) (rows n items ds) ≡ rows n items ds
  unfolding item_rows
  filter-item_rows n [] ds = refl
  filter-item_rows n (item ∷ items) [] = refl
  filter-item_rows n (item ∷ items) (d ∷ ds) = ground (arith, filter-item_rows (suc n) items ds)

  sort_by-item_rows :
      (n : ℕ) (items : List LineItem) (ds : List ItemCategoryDecision)
      → sort_by (λ i j. leb i.position j.position) (rows n items ds) ≡ rows n items ds
  unfolding item_rows
  sort_by-item_rows n [] ds = refl
  sort_by-item_rows n (item ∷ items) [] = refl
  sort_by-item_rows n (item ∷ items) (d ∷ ds) =
      rw (sort_by-item_rows (suc n) items ds) (first items ds)
    where
      first :
          (items : List LineItem) (ds : List ItemCategoryDecision)
          → insert_by
              (λ i j. leb i.position j.position)
              (item_row columns (item_id n) receipt_id n item d)
              (rows (suc n) items ds)
            ≡ item_row columns (item_id n) receipt_id n item d ∷ rows (suc n) items ds
      first [] ds = refl
      first (next ∷ items) [] = refl
      first (next ∷ items) (e ∷ ds) = ground arith

  -- The children of the receipt are the new ones, in their order.
  pub list_line_items-replace :
      (old : List LineItemRow) (items : List LineItem) (ds : List ItemCategoryDecision)
      → list_line_items receipt_id
          (filter (λ i. not (i.receipt_id == receipt_id)) old ++ rows 0 items ds)
        ≡ rows 0 items ds
  unfolding list_line_items
  list_line_items-replace old items ds =
      rw
        (filter-append (λ i. i.receipt_id == receipt_id)
          (filter (λ (i : LineItemRow). not (i.receipt_id == receipt_id)) old) (rows 0 items ds))
        (rw (filter-filter-not (λ (i : LineItemRow). i.receipt_id == receipt_id) old)
          (rw (filter-item_rows 0 items ds) (sort_by-item_rows 0 items ds)))

-- The item of a row, as the receipt of the model has it.
abbrev pub line_item : LineItemRow → LineItem
line_item i = record {
  description = i.description;
  spending_category = i.spending_category;
  quantity = i.quantity;
  unit_price = i.unit_price;
  total_price = i.total_price;
  tags = i.tags;
}

-- An item as the columns hold it, in a category.
abbrev pub in_columns : Columns → LineItem → Text → LineItem
in_columns columns item category = record {
  description = item.description;
  spending_category = category;
  quantity = columns.quantity item.quantity;
  unit_price = columns.money item.unit_price;
  total_price = columns.money item.total_price;
  tags = item.tags;
}

-- The remembered category, or else the model's.
abbrev pub suggested : (ℕ → Text) → ℕ → Text → List CategoryAlias → LineItem → Text
suggested fold user merchant_name t item =
    or_same item.spending_category
      (get_category_suggestion fold user merchant_name item.description t)

pub map-item_rows :
    (columns : Columns) (item_id : ℕ → ℕ) (receipt_id n : ℕ) (items : List LineItem)
    (choice : LineItem → Option Text)
    → map line_item (
        item_rows columns item_id receipt_id n items
          (map (λ (item : LineItem). decision item (choice item)) items))
      ≡ map
          (λ (item : LineItem).
            in_columns columns item (or_same item.spending_category (choice item)))
          items
unfolding item_rows
map-item_rows columns item_id receipt_id n [] choice = refl
map-item_rows columns item_id receipt_id n (item ∷ items) choice =
    rw (map-item_rows columns item_id receipt_id (suc n) items choice) (
      ap
        (λ x.
          x
          ∷ map (λ (i : LineItem). in_columns columns i (or_same i.spending_category (choice i)))
              items)
        (same (choice item)))
  where
    same :
        (o : Option Text)
        → line_item (item_row columns (item_id n) receipt_id n item (decision item o))
          ≡ in_columns columns item (or_same item.spending_category o)
    same none = refl
    same (some category) = refl
