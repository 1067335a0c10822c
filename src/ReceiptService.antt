-- ===== src/ReceiptService.antt =====
-- What src/vision_bill/service/receipt_service.py adds to the tables: a new receipt is put into the
-- owner's active collection. It is the receipt store of the scheduler.
pub mod Stored
mod Tests
use vision_bill.Collections.{Collection, Collections, active_collection}
use vision_bill.Collections.Links.{Link, assign}
use vision_bill.Images.{ImageRow}
use vision_bill.ReceiptDb.{
  Ledger, ReceiptRow, ReceiptStatus, unverified, verified, Columns, Fresh, ReceiptReferenced,
  optional, get_receipt_by_image_id,
}
use vision_bill.ReceiptDb.Persist
use vision_bill.Receipts.{Receipt}
use vision_bill.Scheduler.{ReceiptStore}
use vision_bill.Prelude.{ℕ, Bool, true, false, List, Option, none, some, if◌then◌else◌, Text}
use vision_bill.Prelude.Result.{Result, ok, err}

-- Everything that the service writes.
pub record Archive : Type 0 where
  pub ledger : Ledger
  pub collections : Collections
  pub links : List Link

-- Whether `set_collection_db` was called, and whether the statements on collections raise.
pub data CollectionDb : Type 0 where
  detached raising attached : CollectionDb

abbrev pub assign_to : Option Collection → ℕ → List Link → List Link
assign_to none receipt_id ls = ls
assign_to (some active) receipt_id ls = assign active.id receipt_id ls

-- `_capture_to_active`; an exception is logged.
unfoldable pub capture_to_active : CollectionDb → ℕ → Option ℕ → Collections → List Link → List Link
capture_to_active attached receipt_id (some user) t ls =
    assign_to (active_collection (some user) false t) receipt_id ls
capture_to_active db receipt_id user_id t ls = ls

-- The status that the scheduler persists with.
abbrev pub status_of_review : Bool → ReceiptStatus
status_of_review bypass = if bypass then verified else unverified

module _ (columns : Columns) (fold : ℕ → Text) (db : CollectionDb) where
  unfoldable pub persist_receipt :
      Fresh → Receipt → Option ℕ → ReceiptStatus → Bool → Option ℕ → Archive → ReceiptRow × Archive
  persist_receipt fresh receipt image_id status is_verified user_id a =
      let (row, ledger) =
        Persist.persist_receipt columns fresh fold receipt image_id status is_verified user_id
          a.ledger in
      (
        row,
        record a {
          ledger = ledger;
          links = capture_to_active db row.id user_id a.collections a.links;
        },
      )

  -- The calls that the scheduler makes. The database chooses ids and times (`fresh`), and where
  -- it raises (`failure`) the transaction leaves nothing.
  module _ (fresh : Archive → Fresh) (failure : Receipt → Archive → Option Text) where
    unfoldable pub archive_store : ReceiptStore Archive
    archive_store = record {
      receipt_of_image = λ image a.
          optional (λ (r : ReceiptRow). r.id) (get_receipt_by_image_id image a.ledger.receipts);
      persist_receipt = λ receipt image bypass a.
          stored (failure receipt a)
            (persist_receipt (fresh a) receipt (some image.id) (status_of_review bypass) bypass
              image.user_id a)
            a;
    }
      where
        stored : Option Text → ReceiptRow × Archive → Archive → Result Text ℕ × Archive
        stored (some error) written a = (err error, a)
        stored none (row, after) a = (ok row.id, after)
