-- ===== src/ReceiptService/Stored.antt =====
-- The receipt service is the receipt store that the scheduler asks for.
use vision_bill.Images.{ImageRow}
use vision_bill.ReceiptDb.{ReceiptRow, Columns, Fresh}
use vision_bill.ReceiptDb.Persist.{replace_children, write_row}
use vision_bill.ReceiptDb.Persist
use vision_bill.ReceiptDb.Persist.Linked.{write_row-links, write_row-keeps, write_row-links_ne}
use vision_bill.ReceiptService.{
  Archive, CollectionDb, persist_receipt, status_of_review, archive_store,
}
use vision_bill.Receipts.{Receipt}
use vision_bill.Scheduler.{ReceiptStore}
use vision_bill.Scheduler.Once.{IsReceiptStore}
use vision_bill.Prelude.{
  ℕ, List, ◌⊎◌, ◌≡◌, refl, ◌∙◌, ap, sym, Bool, Option, some, Text, Option-cases, inl, inr,
}
use vision_bill.Prelude.Result.{ok, err, ok-injective, err-ne-ok}

module _ (columns : Columns) (fold : ℕ → Text) (db : CollectionDb) where
  module _ (fresh : Archive → Fresh) (failure : Receipt → Archive → Option Text) where
    abbrev store : ReceiptStore Archive
    store = archive_store columns fold db fresh failure

    module _ (receipt : Receipt) (image : ImageRow) (bypass : Bool) (a : Archive) where
      abbrev written : ReceiptRow × List ReceiptRow
      written =
          write_row columns (fresh a) receipt (some image.id) (status_of_review bypass) bypass
            image.user_id a.ledger.receipts

      -- Either the statements raise, or the answer is the row that is written.
      persist-cases :
          ((e : Text) × (store.persist_receipt receipt image bypass a ≡ (err e, a)))
          ⊎ ((store.persist_receipt receipt image bypass a).0 ≡ ok written.0.id)
            × ((store.persist_receipt receipt image bypass a).1.ledger.receipts ≡ written.1)
      unfolding archive_store persist_receipt Persist.persist_receipt replace_children
      persist-cases = elim (Option-cases (failure receipt a)) [
        | inl e ↦ inr (rw e (refl, refl))
        | inr (message, e) ↦ inl (message, rw e refl)
      ]

    -- Persisting through the service meets the promises that the scheduler works with, whatever
    -- the receipt, the image and the tables are, also where a statement raises: the receipt of an
    -- image is found by the image from then on, an image that has a receipt keeps its id, no other
    -- image's receipt changes, and a failure leaves the tables as they were.
    pub archive_store-IsReceiptStore : IsReceiptStore (archive_store columns fold db fresh failure)
    unfolding archive_store
    archive_store-IsReceiptStore = record {
      receipt_of_image-persist = λ receipt image bypass a h.
          elim (persist-cases receipt image bypass a) [
            | inl (e, q) ↦ absurd (err-ne-ok (rw q at h))
            | inr (q, r) ↦ rw r (
                write_row-links columns (fresh a) receipt (status_of_review bypass) bypass
                  image.user_id image.id a.ledger.receipts
                ∙ ap some (ok-injective (sym q ∙ h)))
          ];
      persist-same = λ receipt image bypass a h h'. elim (persist-cases receipt image bypass a) [
        | inl (e, q) ↦ absurd (err-ne-ok (rw q at h'))
        | inr (q, r) ↦
            sym (ok-injective (sym q ∙ h'))
            ∙ write_row-keeps columns (fresh a) receipt (status_of_review bypass) bypass
                image.user_id image.id a.ledger.receipts h
      ];
      receipt_of_image-persist_ne = λ receipt image bypass a j ne.
          elim (persist-cases receipt image bypass a) [
            | inl (e, q) ↦ rw q refl
            | inr (q, r) ↦ rw r (
                write_row-links_ne columns (fresh a) receipt (status_of_review bypass) bypass
                  image.user_id image.id j a.ledger.receipts ne)
          ];
      persist-failed = λ receipt image bypass a h. elim (persist-cases receipt image bypass a) [
        | inl (e, q) ↦ rw q refl
        | inr (q, r) ↦ absurd (err-ne-ok (sym h ∙ q))
      ];
    }
