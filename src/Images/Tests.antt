-- ===== src/Images/Tests.antt =====
-- Runs of the image queue on a small table.
use mathlib.Core.List.{Memᴰ}
use vision_bill.Prelude.{◌↔◌, ◌≤◌}
use vision_bill.Images.{
  ImageRow, Images, pending, processing, analyzed, unreadable, claim_row, claim_for_analysis,
  list_pending_images,
}
use vision_bill.Images.Lease.{HasUniqueIds, claim_exclusive, claim_after_expiry}
use vision_bill.Images.Queue.{IsInLine, IsWaiting, list_pending_images_lem}
use vision_bill.Images.Workflow.{
  Call, claim, failed_with, ended_as, analyzed_as, run, IsConsistent, run-IsConsistent,
}
use vision_bill.Prelude.{ℕ, ◌≡◌, refl, false, List, [], ◌∷◌, none, some, arith, codes, count, All}

abbrev upload : ℕ → ℕ → ImageRow
upload id created_at = record {
  id = id;
  original_filename = some (codes "receipt.png");
  media_type = some (codes "image/png");
  size_bytes = some 1024;
  image_path = some (codes "tmp/a.png");
  thumbnail_path = none;
  status = pending;
  error = none;
  receipt_id = none;
  bypass_review = false;
  user_id = some 4;
  created_at = created_at;
  analyzed_at = none;
  processing_at = none;
  additional_images = [];
  model_id = none;
}

-- One image waits, one is analysed, one is being worked on since 100.
abbrev waiting : ImageRow
waiting = upload 1 30

abbrev ready_receipt : ImageRow
ready_receipt = record (upload 2 10) {
  status = analyzed;
  analyzed_at = some 20;
  receipt_id = some 8;
}

abbrev busy : ImageRow
busy = record (upload 3 20) { status = processing; processing_at = some 100 }

abbrev table : Images
table = waiting ∷ ready_receipt ∷ busy ∷ []

table-HasUniqueIds : HasUniqueIds table
table-HasUniqueIds = (refl, (refl, (refl, tt)))

claim_exclusive_example :
    claim_for_analysis 500 1 (claim_for_analysis 200 1 table).1
    ≡ (none, (claim_for_analysis 200 1 table).1)
unfolding claim_for_analysis
claim_exclusive_example = claim_exclusive 200 500 1 table table-HasUniqueIds refl (omega arith)

claim_after_expiry_example :
    (claim_for_analysis 900_000_201 1 (claim_for_analysis 200 1 table).1).0
    ≡ some (claim_row 900_000_201 (claim_row 200 waiting))
unfolding claim_for_analysis
claim_after_expiry_example =
    claim_after_expiry 200 900_000_201 1 table table-HasUniqueIds refl (omega arith)

-- Just over 15 minutes later the image that was being worked on waits again.
list_pending_images_lem_example :
    IsInLine (list_pending_images 900_000_101 table)
    × (Memᴰ busy (list_pending_images 900_000_101 table)
        ↔ (Memᴰ busy table × IsWaiting 900_000_101 busy))
    × (count (λ r. r.bypass_review) (list_pending_images 900_000_101 table)
        ≤ count (λ r. r.bypass_review) table)
list_pending_images_lem_example =
    list_pending_images_lem 900_000_101 table busy (λ r. r.bypass_review)

-- The waiting image is claimed, fails, is claimed again and ends as unreadable.
abbrev calls : List (ℕ × Call)
calls =
    (200, claim 1)
    ∷ (210, failed_with 1 (codes "no answer"))
    ∷ (220, claim 1)
    ∷ (230, ended_as 1 unreadable (codes "blurred"))
    ∷ (240, analyzed_as 3 9)
    ∷ []

run-IsConsistent_example : All IsConsistent (run calls (waiting ∷ []))
run-IsConsistent_example =
    run-IsConsistent calls (waiting ∷ []) (tt, (tt, (tt, (tt, (tt, tt))))) ((refl, refl), tt)
