-- ===== src/Scheduler/Once.antt =====
-- What a receipt store promises the scheduler, and that an image is then analysed into one receipt.
use vision_bill.Images.{ImageRow}
use vision_bill.Receipts.{Receipt}
use vision_bill.Scheduler.{
  PendingImageResult, Extracted, extracted, late, unclear, broken, World, ReceiptStore, Desk, done,
  finish, persisted, recorded, extract_from, unless_stored, unless_linked, analyze_one,
}
use vision_bill.Prelude.{
  ℕ, ◌≡◌, ◌≢◌, refl, ap, ◌∙◌, Bool, Option, none, some, Text, Option-cases, inl, inr,
}
use vision_bill.Prelude.Result.{Result, ok, err}

-- A receipt is found by its image from then on; an image that has one keeps it; other images are
-- left alone; a failure leaves nothing behind.
pub record IsReceiptStore {Receipts : Type 0} (store : ReceiptStore Receipts) : Type 0 where
  pub receipt_of_image-persist :
      (receipt : Receipt) (image : ImageRow) (bypass : Bool) (rs : Receipts) {id : ℕ}
      → (store.persist_receipt receipt image bypass rs).0 ≡ ok id
      → store.receipt_of_image image.id (store.persist_receipt receipt image bypass rs).1 ≡ some id
  pub persist-same :
      (receipt : Receipt) (image : ImageRow) (bypass : Bool) (rs : Receipts) {id old : ℕ}
      → store.receipt_of_image image.id rs ≡ some old
      → (store.persist_receipt receipt image bypass rs).0 ≡ ok id
      → id ≡ old
  pub receipt_of_image-persist_ne :
      (receipt : Receipt) (image : ImageRow) (bypass : Bool) (rs : Receipts) (j : ℕ)
      → j ≢ image.id
      → store.receipt_of_image j (store.persist_receipt receipt image bypass rs).1
        ≡ store.receipt_of_image j rs
  pub persist-failed :
      (receipt : Receipt) (image : ImageRow) (bypass : Bool) (rs : Receipts) {e : Text}
      → (store.persist_receipt receipt image bypass rs).0 ≡ err e
      → (store.persist_receipt receipt image bypass rs).1 ≡ rs

module _ (Receipts : Type 0) (store : ReceiptStore Receipts) (lawful : IsReceiptStore store) where
  module _ (w : World) (now : ℕ) (model_id : Text) (image : ImageRow) (id : ℕ) where
    -- An answer with a receipt is an answer with the image's receipt in the store.
    abbrev IsStored : PendingImageResult × Desk Receipts store w → Type 0
    IsStored r = r.0.receipt_id ≡ some id → store.receipt_of_image image.id r.1.receipts ≡ some id

    persisted-IsStored :
        (path : Text) (receipt : Receipt) (d : Desk Receipts store w)
        → IsStored (
            persisted Receipts store w now image path
              (store.persist_receipt receipt image image.bypass_review d.receipts)
              d)
    persisted-IsStored path receipt d h =
        go (store.persist_receipt receipt image image.bypass_review d.receipts) refl h
      where
        found : {o : Option ℕ} {new : ℕ} → o ≡ some new → some new ≡ some id → o ≡ some id
        found p q = cc

        go :
            (p : Result Text ℕ × Receipts)
            → store.persist_receipt receipt image image.bypass_review d.receipts ≡ p
            → IsStored (persisted Receipts store w now image path p d)
        go (err e, rs) q h = absurd (cc)
        go (ok new, rs) q h =
            found
              (rw q at (
                lawful.receipt_of_image-persist receipt image image.bypass_review d.receipts
                  (ap (λ p. p.0) q)))
              h

    recorded-IsStored :
        (path : Text) (e : Extracted) (d : Desk Receipts store w)
        → IsStored (recorded Receipts store w now image path e d)
    recorded-IsStored path (extracted receipt) d h = persisted-IsStored path receipt d h
    recorded-IsStored path (late e) d h = absurd (cc)
    recorded-IsStored path (unclear e) d h = absurd (cc)
    recorded-IsStored path (broken e) d h = absurd (cc)

    extract_from-IsStored :
        (file : Option Text) (d : Desk Receipts store w)
        → IsStored (extract_from Receipts store w now model_id image file d)
    extract_from-IsStored none d h = absurd (cc)
    extract_from-IsStored (some path) d h = recorded-IsStored path _ d h

    unless_stored-IsStored :
        (d : Desk Receipts store w)
        → IsStored (
            unless_stored Receipts store w now model_id image
              (store.receipt_of_image image.id d.receipts)
              d)
    unless_stored-IsStored d h = elim (Option-cases (store.receipt_of_image image.id d.receipts)) [
      | inl e ↦ rw e (extract_from-IsStored _ d (rw e at h))
      | inr (old, e) ↦ rw e (e ∙ (rw e at h))
    ]

    unless_linked-IsStored :
        (linked : Option ℕ) (d : Desk Receipts store w)
        → linked ≡ none
        → IsStored (unless_linked Receipts store w now model_id image linked d)
    unless_linked-IsStored none d free h = unless_stored-IsStored d h
    unless_linked-IsStored (some old) d free h = absurd (cc)

    -- With the receipt in the store, the image is finished with it.
    unless_linked-stored :
        (linked : Option ℕ) (d : Desk Receipts store w)
        → linked ≡ none
        → store.receipt_of_image image.id d.receipts ≡ some id
        → unless_linked Receipts store w now model_id image linked d
          ≡ finish Receipts store w now image id d
    unless_linked-stored none d free h = rw h refl
    unless_linked-stored (some old) d free h = absurd (cc)

  -- When the cycle answers a receipt for an image that had none in its row, the store has that
  -- receipt for the image; and when the image is analysed again, with any model, files, time and
  -- queue, the answer is the same receipt and no receipt is written. The store keeps the promises
  -- of `IsReceiptStore`.
  pub analyze_one_again :
      (w : World) (now : ℕ) (model_id : Text) (image : ImageRow) (d : Desk Receipts store w)
      (id : ℕ)
      → image.receipt_id ≡ none
      → (analyze_one Receipts store w now model_id image d).0.receipt_id ≡ some id
      → (w' : World) (now' : ℕ) (model_id' : Text) (d' : Desk Receipts store w')
      → d'.receipts ≡ (analyze_one Receipts store w now model_id image d).1.receipts
      → ((analyze_one Receipts store w' now' model_id' image d').0
          ≡ done Receipts store w' image id)
        × ((analyze_one Receipts store w' now' model_id' image d').1.receipts ≡ d'.receipts)
  unfolding analyze_one
  analyze_one_again w now model_id image d id free h w' now' model_id' d' same =
      let stored = unless_linked-IsStored w now model_id image id image.receipt_id d free h in
      let again =
        unless_linked-stored w' now' model_id' image id image.receipt_id d' free (rw same stored) in
      (ap (λ r. r.0) again, ap (λ r. r.1.receipts) again)
