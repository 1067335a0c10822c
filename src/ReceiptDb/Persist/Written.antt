-- ===== src/ReceiptDb/Persist/Written.antt =====
-- The row that `persist_receipt` writes is the row of its id
-- (src/vision_bill/provider/db/receipt_db.py).
use vision_bill.ReceiptDb.{
  ReceiptRow, ReceiptStatus, Columns, Fresh, write_receipt, is_of_image, older_receipt, first_row,
  get_receipt_by_image_id,
}
use vision_bill.ReceiptDb.Persist.{inserted_receipt, rewritten_receipt, existing_receipt, write_row}
use vision_bill.Receipts.{Receipt}
use vision_bill.Prelude.{
  ℕ, ◌≡◌, refl, ap, ◌∙◌, true, filter-holds, Bool, List, [], ◌∷◌, Option, none, some, ◌==◌, filter,
  All-filter, find?, sort_by, arith, Option-cases, ==_iff, inl, inr, All,
}
use vision_bill.Prelude.Keyed.{keyed, HasUniqueKeys, find?-append, find?-update_where_self}
use vision_bill.Prelude.Found.{All-found}
use vision_bill.Prelude.Sorting.{All-sort_by}

abbrev pub id_of : ReceiptRow → ℕ
id_of r = r.id

first_row-All {ℓ κ} :
    {A : Type ℓ} (P : A → Type κ) (xs : List A) {x : A} → All P xs → first_row xs ≡ some x → P x
first_row-All P [] a h = absurd (cc)
first_row-All {A = A} P (y ∷ xs) {x} a h = rw (← same h) a.0
  where
    same : {u v : A} → some u ≡ some v → u ≡ v
    same q = cc

-- The receipt of an image is the row of its id.
existing-found :
    (columns : Columns) (fresh : Fresh) (image_id : Option ℕ) (t : List ReceiptRow)
    {old : ReceiptRow}
    → HasUniqueKeys id_of t
    → existing_receipt columns fresh image_id t ≡ some old
    → find? (keyed id_of old.id) t ≡ some old
unfolding get_receipt_by_image_id
existing-found columns fresh none t u h = absurd (cc)
existing-found columns fresh (some image) t u h =
    first_row-All (λ r. find? (keyed id_of r.id) t ≡ some r)
      (sort_by older_receipt (filter (is_of_image image) t))
      (All-sort_by _ older_receipt (filter (is_of_image image) t)
        (All-filter _ (is_of_image image) t (All-found id_of t u)))
      h

-- The receipt of an image refers to it.
existing-image :
    (columns : Columns) (fresh : Fresh) (image_id : Option ℕ) (t : List ReceiptRow)
    {old : ReceiptRow}
    → existing_receipt columns fresh image_id t ≡ some old
    → old.image_id ≡ image_id
unfolding get_receipt_by_image_id
existing-image columns fresh none t h = absurd (cc)
existing-image columns fresh (some image) t {old} h = linked old.image_id (
    first_row-All (λ r. is_of_image image r ≡ true)
      (sort_by older_receipt (filter (is_of_image image) t))
      (All-sort_by _ older_receipt (filter (is_of_image image) t)
        (filter-holds (is_of_image image) t))
      h)
  where
    linked :
        (o : Option ℕ) → is_of_image image (record old { image_id = o }) ≡ true → o ≡ some image
    linked none e = absurd (cc)
    linked (some i) e = ap some ((==_iff i image).0 e)

module _ (columns : Columns) (fresh : Fresh) (receipt : Receipt) where
  module _ (status : ReceiptStatus) (verified : Bool) (user_id : Option ℕ)
      (image_id : Option ℕ) where
    abbrev written : List ReceiptRow → ReceiptRow × List ReceiptRow
    written = write_row columns fresh receipt image_id status verified user_id

    -- The row that the statement answers has the image of the receipt.
    pub write_row-image : (t : List ReceiptRow) → (written t).0.image_id ≡ image_id
    unfolding write_row write_receipt
    write_row-image t = elim (Option-cases (existing_receipt columns fresh image_id t)) [
      | inl e ↦ rw e refl
      | inr (old, e) ↦ rw e (existing-image columns fresh image_id t e)
    ]

    -- The row that the statement answers is the row of its id, and belongs to the user.
    pub write_row-found :
        (t : List ReceiptRow)
        → HasUniqueKeys id_of t
        → find? (keyed id_of fresh.receipt_id) t ≡ none
        → (find? (keyed id_of (written t).0.id) (written t).1 ≡ some (written t).0)
          × ((written t).0.user_id ≡ user_id)
    unfolding write_row write_receipt
    write_row-found t u absent = elim (Option-cases (existing_receipt columns fresh image_id t)) [
      | inl e ↦ rw e (
        find?-append id_of fresh.receipt_id t
              (inserted_receipt columns fresh receipt image_id status verified user_id) absent
            ∙ ground arith,
        refl,
      )
      | inr (old, e) ↦ rw e (
        find?-update_where_self id_of (λ r. r.id == old.id)
            (rewritten_receipt columns fresh receipt status verified user_id) old.id t (λ r. refl)
            (existing-found columns fresh image_id t u e) ((==_iff old.id old.id).1 refl),
        refl,
      )
    ]
