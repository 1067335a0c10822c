-- ===== src/ReceiptDb/Persist/Details.antt =====
-- From `persist_receipt` to `get_receipt_with_details`
-- (src/vision_bill/provider/db/receipt_db.py).
use vision_bill.ReceiptDb.{
  Ledger, ReceiptRow, ReceiptStatus, Columns, Fresh, receipt_scoped, get_receipt_by_id,
}
use vision_bill.ReceiptDb.Categories.{get_category_suggestion}
use vision_bill.ReceiptDb.Categories.Batched.{
  HasUniqueAliases, IsProperFold, decide-history_for_items,
}
use vision_bill.ReceiptDb.Persist.Reread.{
  list_line_items-replace, line_item, in_columns, suggested, map-item_rows,
}
use vision_bill.ReceiptDb.Persist.Written.{id_of, write_row-image, write_row-found}
use vision_bill.ReceiptDb.Queries.{
  ReceiptWithDetails, get_receipt_with_details, with_details, image_of, image_path_of,
  thumbnail_path_of,
}
use vision_bill.Access.{in_scope}
use mathlib.Core.List.{Memᴰ}
use vision_bill.Images.{ImageRow, Images}
use vision_bill.Collections.Links.{Link}
use vision_bill.ReceiptDb.Persist.{write_row, persist_receipt, replace_children}
use vision_bill.Receipts.{Receipt, LineItem}
use vision_bill.Prelude.{
  ℕ, ◌≡◌, ◌≢◌, ◌⊎◌, inl, inr, Bool-cases, ◌==◌, All, refl, ap, ◌∙◌, Bool, true, false, List, [],
  ◌∷◌, map, Option, none, some, Text, find?, ==_iff,
}
use vision_bill.Prelude.Keyed.{keyed, HasUniqueKeys, find?-and_true}

-- The paths of an image that a receipt refers to, and none where there is no such image.
pub IsJoined : Option ℕ → Images → Option Text → Option Text → Type 0
IsJoined none t path thumbnail = (path ≡ none) × (thumbnail ≡ none)
IsJoined (some id) t path thumbnail =
    (All (λ i. i.id ≢ id) t × (path ≡ none) × (thumbnail ≡ none))
    ⊎ ((i : ImageRow) × Memᴰ i t
        × (i.id ≡ id)
        × (path ≡ i.image_path)
        × (thumbnail ≡ i.thumbnail_path))

image_of-IsJoined :
    (image_id : Option ℕ) (t : Images)
    → IsJoined image_id t
        (image_path_of (image_of image_id t))
        (thumbnail_path_of (image_of image_id t))
unfolding IsJoined
image_of-IsJoined none t = (refl, refl)
image_of-IsJoined (some id) [] = inl (tt, refl, refl)
image_of-IsJoined (some id) (i ∷ t) = elim (Bool-cases (i.id == id)) [
  | inl e ↦ rw e (inr (i, Memᴰ.head refl, (==_iff i.id id).0 e, refl, refl))
  | inr e ↦ rw e (elim (image_of-IsJoined (some id) t) [
    | inl (others, path, thumbnail) ↦
        inl (((λ q. absurd (clash e ((==_iff i.id id).1 q))), others), path, thumbnail)
    | inr (j, member, same, path, thumbnail) ↦ inr (j, Memᴰ.tail member, same, path, thumbnail)
  ])
]
  where
    clash : {b : Bool} → b ≡ false → b ≡ true → ⊥
    clash p q = cc

module _ (columns : Columns) (fresh : Fresh) (fold : ℕ → Text) where
  -- A receipt that a user's upload is stored as reads back: the owner finds it under the id of the
  -- answered row, with that row, with the path and the thumbnail of the receipt's image, or with
  -- none where there is no such image, and with the line items of the receipt in their order, as
  -- the columns hold them and each in the category the user has had remembered for it, or else in
  -- the model's. This holds for a new receipt and for one written
  -- over an earlier one of the image. The ids of the receipts are unique and the new id is unused,
  -- the aliases have their unique key, and `casefold` maps no character to the empty text.
  pub get_receipt_with_details-persist_receipt :
      (images : Images) (links : List Link) (receipt : Receipt) (image_id : Option ℕ)
      (status : ReceiptStatus) (is_verified : Bool) (user : ℕ) (l : Ledger)
      → HasUniqueKeys id_of l.receipts
      → find? (keyed id_of fresh.receipt_id) l.receipts ≡ none
      → HasUniqueAliases l.aliases
      → IsProperFold fold
      → let r =
          persist_receipt columns fresh fold receipt image_id status is_verified (some user) l in
        (details : ReceiptWithDetails) × (get_receipt_with_details images links r.0.id
            (some user)
            false
            r.1
          ≡ some details)
        × (details.receipt ≡ record r.0 { thumbnail_path = details.receipt.thumbnail_path })
        × IsJoined image_id images details.image_path details.receipt.thumbnail_path
        × (map line_item details.line_items
            ≡ map
                (λ (item : LineItem).
                  in_columns columns item
                    (suggested fold user receipt.merchant_name l.aliases item))
                receipt.line_items)
  unfolding get_receipt_with_details persist_receipt replace_children get_receipt_by_id
  get_receipt_with_details-persist_receipt images links receipt image_id status is_verified user l u
        absent ua proper =
      (
        with_details images links written.0.id after written.0,
        rw found refl,
        refl,
        joined written.0.image_id image_id (
            write_row-image columns fresh receipt status is_verified (some user) image_id
              l.receipts),
        ap (map line_item) (
              list_line_items-replace columns fresh.item_id written.0.id l.line_items
                receipt.line_items _)
            ∙ rw
                (decide-history_for_items fold user receipt.merchant_name receipt.line_items
                  l.aliases proper ua)
                (map-item_rows columns fresh.item_id written.0.id 0 receipt.line_items (λ item.
                  get_category_suggestion fold user receipt.merchant_name item.description
                    l.aliases)),
      )
    where
      joined :
          (o o' : Option ℕ)
          → o ≡ o'
          → IsJoined o' images
              (image_path_of (image_of o images))
              (thumbnail_path_of (image_of o images))
      joined o o' e = rw (← e) (image_of-IsJoined o images)

      written : ReceiptRow × List ReceiptRow
      written = write_row columns fresh receipt image_id status is_verified (some user) l.receipts

      after : Ledger
      after =
          (persist_receipt columns fresh fold receipt image_id status is_verified (some user) l).1

      found : find? (receipt_scoped written.0.id (some user) false) written.1 ≡ some written.0
      found =
          let (row, owner) =
            write_row-found columns fresh receipt status is_verified (some user) image_id l.receipts
              u absent in
          find?-and_true id_of (λ r. in_scope (some user) false r.user_id) written.0.id written.1
            row (rw owner ((==_iff user user).1 refl))
