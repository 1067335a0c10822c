-- ===== src/ReceiptDb/Foreign/Children.antt =====
-- Line items and taxes of a receipt while those of another one are replaced
-- (src/vision_bill/provider/db/receipt_db.py).
use vision_bill.ReceiptDb.{LineItemRow, TaxLineRow, Columns}
use vision_bill.ReceiptDb.Categories.{ItemCategoryDecision}
use vision_bill.ReceiptDb.Persist.{item_rows, tax_rows}
use vision_bill.Receipts.{LineItem, TaxLine}
use vision_bill.Prelude.{ℕ, suc, ◌≡◌, ◌≢◌, refl, not, List, [], ◌∷◌, ◌==◌, filter, arith}
use vision_bill.ReceiptDb.Foreign.{items_of, taxes_of}

module _ (columns : Columns) (other : ℕ) where
  -- The children of another receipt are not replaced.
  pub items_of-filter_ne :
      (id : ℕ) (t : List LineItemRow)
      → id ≢ other
      → items_of other (filter (λ i. not (i.receipt_id == id)) t) ≡ items_of other t
  items_of-filter_ne id [] ne = refl
  items_of-filter_ne id (i ∷ t) ne = ground (arith, items_of-filter_ne id t ne)

  pub taxes_of-filter_ne :
      (id : ℕ) (t : List TaxLineRow)
      → id ≢ other
      → taxes_of other (filter (λ x. not (x.receipt_id == id)) t) ≡ taxes_of other t
  taxes_of-filter_ne id [] ne = refl
  taxes_of-filter_ne id (x ∷ t) ne = ground (arith, taxes_of-filter_ne id t ne)

  pub items_of-item_rows :
      (item_id : ℕ → ℕ) (id n : ℕ) (items : List LineItem) (ds : List ItemCategoryDecision)
      → id ≢ other
      → items_of other (item_rows columns item_id id n items ds) ≡ []
  unfolding item_rows
  items_of-item_rows item_id id n [] ds ne = refl
  items_of-item_rows item_id id n (item ∷ items) [] ne = refl
  items_of-item_rows item_id id n (item ∷ items) (d ∷ ds) ne =
      ground (arith, items_of-item_rows item_id id (suc n) items ds ne)

  pub taxes_of-tax_rows :
      (tax_id : ℕ → ℕ) (id n : ℕ) (taxes : List TaxLine)
      → id ≢ other
      → taxes_of other (tax_rows columns tax_id id n taxes) ≡ []
  unfolding tax_rows
  taxes_of-tax_rows tax_id id n [] ne = refl
  taxes_of-tax_rows tax_id id n (x ∷ taxes) ne =
      ground (arith, taxes_of-tax_rows tax_id id (suc n) taxes ne)
