-- ===== src/Api/Tests.antt =====
-- Tests and witnesses of the HTTP handlers (src/vision_bill/api).
use vision_bill.Api.Uploads.{analyse_upload, upload_model}
use vision_bill.Api.Uploads.Inline.{result_of, analyse_upload-analyze_one}
use vision_bill.Api.Corrections.{Office, FileStore, verify_request, move_image}
use vision_bill.Api.Corrections.Verified.{verify_request_again}
use vision_bill.Sessions.{User}
use vision_bill.Images.{ImageRow, processing, get_image_by_id}
use vision_bill.ReceiptDb.{
  verified, get_receipt_by_image_id, get_receipt_by_id, set_verified, verify_receipt,
}
use vision_bill.ReceiptDb.Samples.{
  same_columns, same_letter, shop_receipt, receipt_row, two_users, generated,
}
use vision_bill.ReceiptService.{Archive, attached, archive_store}
use vision_bill.Receipts.{Receipt}
use vision_bill.Scheduler.{
  extracted, World, ReceiptStore, Desk, analyze_one, chosen_model, select_model,
}
use vision_bill.Prelude.Result.{ok, err}
use vision_bill.Prelude.{◌≡◌, ◌≢◌, refl, true, false, [], ◌∷◌, Option, none, some, Text, codes}
use vision_bill.Api.Folders.{activate_folder, serve}
use vision_bill.Api.Folders.Refused.{IsAnswered}
use vision_bill.Api.Folders.Refused.Requests.{serve-IsAnswered}
use vision_bill.Collections.{Collection}
use vision_bill.Collections.Active.{HasOneActive}
use vision_bill.Collections.Links.{Shelves}
use vision_bill.Prelude.{ℕ, Bool, arith}

abbrev store : ReceiptStore Archive
store = archive_store same_columns same_letter attached (λ a. generated) (λ receipt a. none)

abbrev world : World
world = record {
  file_exists = λ path. true;
  extract = λ model paths. extracted shop_receipt;
  has_image_service = true;
  store_perm_image = λ path receipt_id. ok (some (codes "perm.png"), none);
}

abbrev claimed : ImageRow
claimed = record {
  id = 5;
  original_filename = none;
  media_type = none;
  size_bytes = none;
  image_path = some (codes "a.png");
  thumbnail_path = none;
  status = processing;
  error = none;
  receipt_id = none;
  bypass_review = true;
  user_id = some 7;
  created_at = 5;
  analyzed_at = none;
  processing_at = some 6;
  additional_images = [];
  model_id = none;
}

abbrev desk : Desk Archive store world
desk = record {
  images = claimed ∷ [];
  receipts = record { ledger = two_users; collections = []; links = [] };
}

analyse_upload-analyze_one_example :
    (
      result_of Archive store world claimed
          (analyse_upload Archive store world 40
            (upload_model (codes "llava") (codes "qwen") [] none)
            claimed
            (codes "a.png")
            desk).0,
      (analyse_upload Archive store world 40
          (upload_model (codes "llava") (codes "qwen") [] none)
          claimed
          (codes "a.png")
          desk).1,
    )
    ≡ analyze_one Archive store world 40
        (chosen_model (codes "qwen" ∷ []) (select_model (codes "llava") (codes "qwen") []) none)
        claimed
        desk
unfolding archive_store get_receipt_by_image_id
analyse_upload-analyze_one_example =
    analyse_upload-analyze_one Archive store world 40 (codes "llava") (codes "qwen") [] claimed
      (codes "a.png") desk refl refl refl refl refl refl no_text stored
  where
    no_text : ◌≢◌ {A = Option Text} none (some [])
    no_text h = cc

    stored :
        (receipt : Receipt) (e : Text)
        → (store.persist_receipt receipt claimed true desk.receipts).0 ≢ err e
    stored receipt e h = cc

abbrev anna : User
anna = record { id = 7; username = codes "anna"; is_admin = false; can_see_all = false }

abbrev office : Office
office = record { ledger = two_users; images = []; links = [] }

abbrev file_store : FileStore
file_store = λ path receipt_id. ok (none, none)

verify_request_again_example :
    (verified ≡ verified)
    × (get_receipt_by_id 1
          (some 7)
          false
          (verify_request file_store true anna 1 office).1.ledger.receipts
        ≡ some (set_verified (receipt_row 1 7)))
    × (verify_request file_store true anna 1 (verify_request file_store true anna 1 office).1
        ≡ (err 409, (verify_request file_store true anna 1 office).1))
unfolding verify_request verify_receipt get_receipt_by_id move_image get_image_by_id
verify_request_again_example =
    verify_request_again file_store anna 1 office (set_verified (receipt_row 1 7)) file_store refl

abbrev trip : ℕ → ℕ → Bool → Collection
trip id user active = record {
  id = id;
  user_id = user;
  name = codes "trip";
  color = none;
  start_date = none;
  end_date = none;
  active = active;
  created_at = 1;
}

-- Anna has an active collection, and another user has one as well.
abbrev shelves : Shelves
shelves = record {
  collections = trip 1 7 true ∷ trip 2 7 false ∷ trip 3 8 true ∷ [];
  receipts = [];
  links = [];
}

shelves-HasOneActive : HasOneActive shelves.collections
unfolding HasOneActive
shelves-HasOneActive user = ground arith

serve-IsAnswered_example :
    IsAnswered (serve (λ c. c ∷ []) true anna (activate_folder 2) shelves) shelves
serve-IsAnswered_example =
    serve-IsAnswered (λ c. c ∷ []) true anna (activate_folder 2) shelves refl
      (refl, (refl, (refl, tt))) shelves-HasOneActive
