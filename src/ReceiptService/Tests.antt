-- ===== src/ReceiptService/Tests.antt =====
-- Tests and witnesses of the receipt service (src/vision_bill/service/receipt_service.py) as the
-- store of the scheduler.
use vision_bill.Images.{ImageRow, pending}
use vision_bill.ReceiptDb.{get_receipt_by_image_id}
use vision_bill.ReceiptDb.Persist
use vision_bill.ReceiptDb.Persist.{write_row, replace_children}
use vision_bill.ReceiptDb.Samples.{same_columns, same_letter, shop_receipt, two_users, generated}
use vision_bill.ReceiptService.{Archive, attached, archive_store, persist_receipt}
use vision_bill.ReceiptService.Stored.{archive_store-IsReceiptStore}
use vision_bill.Scheduler.{extracted, late, World, ReceiptStore, Desk, done, analyze_one, relocate}
use vision_bill.Scheduler.Once.{IsReceiptStore, analyze_one_again}
use vision_bill.Prelude.Result.{ok}
use vision_bill.Prelude.{◌≡◌, refl, true, false, [], ◌∷◌, none, some, codes}

abbrev store : ReceiptStore Archive
store = archive_store same_columns same_letter attached (λ a. generated) (λ receipt a. none)

archive_store-IsReceiptStore_example :
    IsReceiptStore
      (archive_store same_columns same_letter attached (λ a. generated) (λ receipt a. none))
archive_store-IsReceiptStore_example =
    archive_store-IsReceiptStore same_columns same_letter attached (λ a. generated)
      (λ receipt a. none)

abbrev photo : ImageRow
photo = record {
  id = 5;
  original_filename = none;
  media_type = none;
  size_bytes = none;
  image_path = some (codes "a.png");
  thumbnail_path = none;
  status = pending;
  error = none;
  receipt_id = none;
  bypass_review = false;
  user_id = some 7;
  created_at = 5;
  analyzed_at = none;
  processing_at = none;
  additional_images = [];
  model_id = none;
}

abbrev readable : World
readable = record {
  file_exists = λ path. true;
  extract = λ model paths. extracted shop_receipt;
  has_image_service = true;
  store_perm_image = λ path receipt_id. ok (none, none);
}

-- Later the file is gone and the model is slow.
abbrev slow : World
slow = record {
  file_exists = λ path. false;
  extract = λ model paths. late (codes "timeout");
  has_image_service = true;
  store_perm_image = λ path receipt_id. ok (none, none);
}

abbrev empty_archive : Archive
empty_archive = record { ledger = two_users; collections = []; links = [] }

abbrev desk : Desk Archive store readable
desk = record { images = photo ∷ []; receipts = empty_archive }

abbrev first : Desk Archive store readable
first = (analyze_one Archive store readable 40 (codes "qwen") photo desk).1

abbrev later : Desk Archive store slow
later = record { images = []; receipts = first.receipts }

analyze_one_again_example :
    ((analyze_one Archive store slow 90 (codes "llava") photo later).0
      ≡ done Archive store slow photo 50)
    × ((analyze_one Archive store slow 90 (codes "llava") photo later).1.receipts ≡ later.receipts)
unfolding analyze_one archive_store persist_receipt Persist.persist_receipt write_row
    get_receipt_by_image_id relocate
analyze_one_again_example =
    analyze_one_again Archive store
      (archive_store-IsReceiptStore same_columns same_letter attached (λ a. generated)
        (λ receipt a. none))
      readable 40 (codes "qwen") photo desk 50 refl refl slow 90 (codes "llava") later refl
