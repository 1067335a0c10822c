-- ===== src/Scheduler/Tests.antt =====
-- A cycle over two uploads, with a store of receipts that knows the image of each receipt.
use vision_bill.Images.{ImageRow, pending}
use vision_bill.Money.{zero_decimal}
use vision_bill.Prelude.Result.{ok}
use vision_bill.Receipts.{Receipt}
use vision_bill.Scheduler.{
  extracted, unclear, World, ReceiptStore, Desk, analyze_one, process_pending,
}
use vision_bill.Scheduler.Cycle.{process_pending-IsSettledAs}
use vision_bill.Scheduler.Outcome.{IsSettledAs, IsOutcome, analyze_one-IsOutcome}
use vision_bill.Prelude.{
  ℕ, refl, true, List, [], ◌∷◌, Option, none, some, Text, codes, mem_text, if◌then◌else◌, length,
  ◌==◌, All,
}

abbrev slip : Receipt
slip = record {
  confidence = 90;
  merchant_name = codes "shop";
  merchant_address = none;
  receipt_number = none;
  date = 20000;
  time = none;
  currency = codes "EUR";
  category = codes "groceries";
  line_items = [];
  taxes = [];
  subtotal = zero_decimal;
  discount_total = zero_decimal;
  tax_total = zero_decimal;
  tip = none;
  total = zero_decimal;
  payment_method = codes "cash";
}

-- The images of the stored receipts; a receipt's id is its place.
abbrev numbered : ℕ → List ℕ → Option ℕ
numbered image [] = none
numbered image (i ∷ is_) = if i == image then some (length is_) else numbered image is_

abbrev store : ReceiptStore (List ℕ)
store = record {
  receipt_of_image = numbered;
  persist_receipt = λ receipt image verified images. (ok (length images), image.id ∷ images);
}

-- Only one of the two photos can be read.
abbrev world : World
world = record {
  file_exists = λ path. true;
  extract = λ model paths.
      if mem_text (codes "b.png") paths then unclear (codes "blurred") else extracted slip;
  has_image_service = true;
  store_perm_image = λ path receipt_id. ok (some (codes "perm.png"), none);
}

abbrev upload : ℕ → Text → ImageRow
upload id path = record {
  id = id;
  original_filename = none;
  media_type = none;
  size_bytes = none;
  image_path = some path;
  thumbnail_path = none;
  status = pending;
  error = none;
  receipt_id = none;
  bypass_review = true;
  user_id = some 4;
  created_at = id;
  analyzed_at = none;
  processing_at = none;
  additional_images = [];
  model_id = none;
}

abbrev desk : Desk (List ℕ) store world
desk = record { images = upload 1 (codes "a.png") ∷ upload 2 (codes "b.png") ∷ []; receipts = [] }

analyze_one-IsOutcome_example :
    IsOutcome
      (List ℕ)
      store
      world
      (upload 1 (codes "a.png"))
      desk
      refl
      (analyze_one (List ℕ) store world 50 (codes "qwen") (upload 1 (codes "a.png")) desk)
analyze_one-IsOutcome_example =
    analyze_one-IsOutcome (List ℕ) store world (upload 1 (codes "a.png")) desk refl 50
      (codes "qwen")

process_pending-IsSettledAs_example :
    All
      (λ res.
        IsSettledAs res
          (process_pending
            (List ℕ)
            store
            world
            (λ id t. t)
            (λ id. 40)
            (λ id. 50)
            true
            (codes "qwen")
            30
            (some (codes "qwen" ∷ []))
            desk).1.images)
      (process_pending
        (List ℕ)
        store
        world
        (λ id t. t)
        (λ id. 40)
        (λ id. 50)
        true
        (codes "qwen")
        30
        (some (codes "qwen" ∷ []))
        desk).0
process_pending-IsSettledAs_example =
    process_pending-IsSettledAs (List ℕ) store world (λ id. 40) (λ id. 50) true (codes "qwen") 30
      (some (codes "qwen" ∷ [])) desk (refl, (refl, tt))
