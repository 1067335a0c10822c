-- ===== src/ReceiptDb/Tests.antt =====
-- Tests and witnesses of the receipts tables (src/vision_bill/provider/db/receipt_db.py).
use vision_bill.Images.{ImageRow, analyzed}
use vision_bill.ReceiptDb.{unverified}
use vision_bill.ReceiptDb.Categories.{decision, decide, history_for_items, get_category_suggestion}
use vision_bill.ReceiptDb.Categories.Batched.{decide-history_for_items}
use vision_bill.ReceiptDb.Foreign.{correcting, deleting, requests, IsUntouched}
use vision_bill.ReceiptDb.Foreign.Requests.{requests-IsUntouched}
use vision_bill.ReceiptDb.Persist.{persist_receipt}
use vision_bill.ReceiptDb.Persist.Details.{IsJoined, get_receipt_with_details-persist_receipt}
use vision_bill.ReceiptDb.Persist.Reread.{line_item, in_columns, suggested}
use vision_bill.ReceiptDb.Queries.{ReceiptWithDetails, get_receipt_with_details}
use vision_bill.ReceiptDb.Samples.{
  same_columns, same_letter, milk_item, shop_receipt, receipt_row, two_users, generated,
  milk_update,
}
use vision_bill.ReceiptDb.Update.{decide_update, remember_item, update_receipt}
use vision_bill.ReceiptDb.Update.Ids.{item_id}
use vision_bill.ReceiptDb.Update.Suggested.{get_category_suggestion-remember_item}
use vision_bill.ReceiptDb.Update.Unique.{IsFresh, update_receipt-HasUniqueKeys}
use vision_bill.Names.{
  normalize_history_key, recase, join, split, first_word, is_space, is_category,
}
use vision_bill.Prelude.{
  ℕ, ◌≡◌, ◌≢◌, refl, arith, false, [], ◌∷◌, map, Option, none, some, inl, codes, text_eq,
}
use vision_bill.Prelude.Keyed.{HasUniqueKeys}
use vision_bill.ReceiptDb.Queries.{ProductPurchase, price_summary, unit_prices}
use vision_bill.ReceiptDb.Queries.Prices.{IsCheapest, price_summary-IsCheapest}
use vision_bill.Money.{Decimal}
use vision_bill.Prelude.{List}
use vision_bill.Prelude.Int.{pos, negsuc}

decide-history_for_items_example :
    decide same_letter
      (history_for_items same_letter (some 7) (codes "Shop") (codes "Milk" ∷ []) two_users.aliases)
      (milk_item (codes "unknown") ∷ [])
    ≡ decision
        (milk_item (codes "unknown"))
        (get_category_suggestion same_letter 7 (codes "Shop") (codes "Milk") two_users.aliases)
      ∷ []
decide-history_for_items_example =
    decide-history_for_items same_letter 7 (codes "Shop") (milk_item (codes "unknown") ∷ [])
      two_users.aliases (λ c. refl) (refl, tt)

get_category_suggestion-remember_item_example :
    get_category_suggestion same_letter 7 (codes "Shop") (codes "Milk") (
      remember_item same_letter
        (some 7)
        (normalize_history_key same_letter (codes "Shop"))
        (milk_update (codes "cheese"))
        (decide_update none (milk_update (codes "cheese")))
        two_users.aliases)
    ≡ some (codes "cheese")
unfolding decide_update normalize_history_key recase join split first_word is_space is_category
    text_eq
get_category_suggestion-remember_item_example =
    get_category_suggestion-remember_item same_letter 7 (codes "Shop")
      (milk_update (codes "cheese")) (decide_update none (milk_update (codes "cheese")))
      two_users.aliases (codes "Milk") refl refl refl (inl refl)

-- The photo of the receipt, and another one.
abbrev photo : ℕ → ImageRow
photo id = record {
  id = id;
  original_filename = none;
  media_type = none;
  size_bytes = none;
  image_path = some (codes "a.png");
  thumbnail_path = some (codes "b.png");
  status = analyzed;
  error = none;
  receipt_id = some 1;
  bypass_review = false;
  user_id = some 7;
  created_at = 1;
  analyzed_at = some 2;
  processing_at = none;
  additional_images = [];
  model_id = none;
}

get_receipt_with_details-persist_receipt_example :
    (details : ReceiptWithDetails) × (get_receipt_with_details
        (photo 100 ∷ photo 101 ∷ [])
        []
        (persist_receipt same_columns generated same_letter shop_receipt
          (some 101)
          unverified
          false
          (some 7)
          two_users).0.id
        (some 7)
        false
        (persist_receipt same_columns generated same_letter shop_receipt
          (some 101)
          unverified
          false
          (some 7)
          two_users).1
      ≡ some details)
    × (details.receipt
        ≡ record (persist_receipt same_columns generated same_letter shop_receipt
            (some 101)
            unverified
            false
            (some 7)
            two_users).0 { thumbnail_path = details.receipt.thumbnail_path })
    × IsJoined
        (some 101)
        (photo 100 ∷ photo 101 ∷ [])
        details.image_path
        details.receipt.thumbnail_path
    × (map line_item details.line_items
        ≡ in_columns same_columns
            (milk_item (codes "unknown"))
            (suggested same_letter 7 (codes "Shop") two_users.aliases (milk_item (codes "unknown")))
          ∷ [])
get_receipt_with_details-persist_receipt_example =
    get_receipt_with_details-persist_receipt same_columns generated same_letter
      (photo 100 ∷ photo 101 ∷ []) [] shop_receipt (some 101) unverified false 7 two_users
      (refl, (refl, tt)) refl (refl, tt) (λ c. refl)

requests-IsUntouched_example :
    IsUntouched same_columns same_letter
      (λ id. false)
      7
      (receipt_row 2 8)
      two_users
      (requests same_columns same_letter
        (λ id. false)
        7
        (correcting generated 2 shop_receipt [] ∷ deleting 2 ∷ deleting 1 ∷ [])
        two_users)
requests-IsUntouched_example =
    requests-IsUntouched same_columns same_letter (λ id. false) 7
      (correcting generated 2 shop_receipt [] ∷ deleting 2 ∷ deleting 1 ∷ []) two_users
      (receipt_row 2 8) other refl (refl, (refl, tt))
  where
    other : ◌≢◌ {A = Option ℕ} (some 8) (some 7)
    other h = ground arith

generated-IsFresh : IsFresh generated.item_id two_users.line_items
generated-IsFresh = record { distinct = λ m n h. omega (arith, h); unused = λ n. ground arith }

update_receipt-HasUniqueKeys_example :
    HasUniqueKeys item_id
      (update_receipt same_columns generated same_letter 1 shop_receipt
        (milk_update (codes "cheese") ∷ [])
        (some 7)
        false
        two_users).1.line_items
update_receipt-HasUniqueKeys_example =
    update_receipt-HasUniqueKeys same_columns generated same_letter 1 shop_receipt
      (milk_update (codes "cheese") ∷ []) (some 7) false two_users (refl, (refl, tt))
      generated-IsFresh

abbrev bought : Decimal → ProductPurchase
bought price = record {
  receipt_id = 1;
  description = codes "Milk";
  merchant_name = codes "Shop";
  date = 5;
  time = none;
  quantity = record { coefficient = pos 1; places = 0 };
  unit_price = price;
  currency = codes "EUR";
}

-- 1.20, a refund of 0.25, and 0.9.
abbrev purchases : List ProductPurchase
purchases =
    bought (record { coefficient = pos 120; places = 2 })
    ∷ bought (record { coefficient = negsuc 24; places = 2 })
    ∷ bought (record { coefficient = pos 9; places = 1 })
    ∷ []

price_summary-IsCheapest_example :
    IsCheapest
      (price_summary (λ d n. d) (codes "milk") purchases).cheapest_price
      (unit_prices purchases)
price_summary-IsCheapest_example = price_summary-IsCheapest (λ d n. d) (codes "milk") purchases
