-- ===== src/Api/Corrections.antt =====
-- The handlers of receipts in src/vision_bill/api/receipts.py: correction, verification and deletion.
-- An error is its status code; 500 stands for an exception of the file store.
pub mod Verified
use vision_bill.Api.ImageFiles.{found_or, files_of}
use vision_bill.Collections.{Collections, CollectionFault}
use vision_bill.Collections.Links.{Link, Shelves, ReceiptKey, set_collections}
use vision_bill.Images.{
  ImageRow, Images, ImagePart, get_image_by_id, update_image_path, update_image_thumbnail_path,
  update_additional_images, delete_image, parts,
}
use vision_bill.ReceiptDb
use vision_bill.ReceiptDb.{
  Ledger, ReceiptRow, ReceiptStatus, verified, Columns, Fresh, ReceiptReferenced, get_receipt_by_id,
  optional,
}
use vision_bill.ReceiptDb.Queries.{ReceiptWithDetails, get_receipt_with_details, receipt_status_eq}
use vision_bill.ReceiptDb.Update.{LineItemUpdate, UpdateFault, update_receipt}
use vision_bill.Receipts.{Receipt}
use vision_bill.Sessions.{User}
use vision_bill.Prelude.{
  ℕ, Bool, true, false, not, List, [], ◌∷◌, ◌++◌, map, Option, none, some, or_same, ◌==◌, filter,
  if◌then◌else◌, Text,
}
use vision_bill.Prelude.Result.{Result, ok, err, ◌>>=◌, ◌>>◌, guard}

-- The tables that the handlers write.
pub record Office : Type 0 where
  pub ledger : Ledger
  pub images : Images
  pub links : List Link

unfoldable pub get_receipt : Bool → User → ℕ → Office → Result ℕ ReceiptWithDetails
get_receipt is_ready user id o =
    guard is_ready 503
    >> found_or 404
        (get_receipt_with_details o.images o.links id (some user.id) user.can_see_all o.ledger)

-- `store_perm_image` answers the new paths or raises.
abbrev pub FileStore : Type 0
FileStore = Text → ℕ → Result Text (Option Text × Option Text)

abbrev pub new_paths : ImagePart → Option Text × Option Text → ImagePart
new_paths p (path, thumb) = record p {
  image_path = or_same p.image_path path;
  thumbnail_path = or_else thumb p.thumbnail_path;
}
  where
    or_else : Option Text → Option Text → Option Text
    or_else none o = o
    or_else (some t) o = some t

-- `move_additional_images`; an exception leaves the parts moved so far.
unfoldable pub move_parts :
    FileStore → ℕ → ℕ → List ImagePart → List ImagePart → Images → Bool × Images
move_parts store id receipt_id before [] t = (true, t)
move_parts store id receipt_id before (p ∷ ps) t = moved (store p.image_path receipt_id) (λ paths.
    move_parts store id receipt_id (before ++ new_paths p paths ∷ []) ps
      (update_additional_images id (before ++ new_paths p paths ∷ ps) t))
  where
    moved :
        Result Text (Option Text × Option Text)
        → (Option Text × Option Text → Bool × Images)
        → Bool × Images
    moved (err e) rest = (false, t)
    moved (ok paths) rest = rest paths

abbrev pub with_path : ℕ → Option Text → Images → Images
with_path id none t = t
with_path id (some path) t = update_image_path id path t

abbrev pub with_thumbnail : ℕ → Option Text → Images → Images
with_thumbnail id none t = t
with_thumbnail id (some path) t = update_image_thumbnail_path id path t

abbrev pub move_photo :
    FileStore → ImageRow → ℕ → Result Text (Option Text × Option Text) → Images → Bool × Images
move_photo store image receipt_id (err e) t = (false, t)
move_photo store image receipt_id (ok (path, thumb)) t =
    move_parts store image.id receipt_id [] image.additional_images
      (with_thumbnail image.id thumb (with_path image.id path t))

abbrev pub move_from : FileStore → ImageRow → Option Text → ℕ → Images → Bool × Images
move_from store image none receipt_id t = (true, t)
move_from store image (some []) receipt_id t = (true, t)
move_from store image (some (c ∷ path)) receipt_id t =
    move_photo store image receipt_id (store (c ∷ path) receipt_id) t

-- The image of the receipt, if the caller may see it, moves to permanent storage.
unfoldable pub move_image : FileStore → User → Option ℕ → ℕ → Images → Bool × Images
move_image store user none receipt_id t = (true, t)
move_image store user (some image_id) receipt_id t =
    found (get_image_by_id image_id (some user.id) user.can_see_all t)
  where
    found : Option ImageRow → Bool × Images
    found none = (true, t)
    found (some image) = move_from store image image.image_path receipt_id t

abbrev pub answered : Option ReceiptRow × Ledger → Office → Result ℕ ReceiptRow × Office
answered (none, l) o = (err 404, record o { ledger = l })
answered (some row, l) o = (ok row, record o { ledger = l })

abbrev pub verified_after : User → ℕ → Bool × Images → Office → Result ℕ ReceiptRow × Office
verified_after user id (false, t) o = (err 500, record o { images = t })
verified_after user id (true, t) o =
    answered (ReceiptDb.verify_receipt id (some user.id) user.can_see_all o.ledger)
      (record o { images = t })

abbrev pub verify_found :
    FileStore → User → ℕ → Option ReceiptRow → Office → Result ℕ ReceiptRow × Office
verify_found store user id none o = (err 404, o)
verify_found store user id (some row) o =
    if receipt_status_eq row.status verified
    then (err 409, o)
    else verified_after user id (move_image store user row.image_id id o.images) o

-- `verify_receipt` of the API.
unfoldable pub verify_request : FileStore → Bool → User → ℕ → Office → Result ℕ ReceiptRow × Office
verify_request store is_ready user id o =
    if is_ready
    then verify_found store user id
        (get_receipt_by_id id (some user.id) user.can_see_all o.ledger.receipts) o
    else (err 503, o)

-- The image of a deleted receipt goes with its files, if the caller may see it.
unfoldable pub delete_image_of : User → Option ℕ → Images → List Text × Images
delete_image_of user none t = ([], t)
delete_image_of user (some image_id) t =
    found (get_image_by_id image_id (some user.id) user.can_see_all t)
  where
    found : Option ImageRow → List Text × Images
    found none = ([], t)
    found (some image) = (files_of image, delete_image image.id t)

-- Of the keys that refer to a deleted receipt, links are deleted and images are set to NULL.
abbrev pub unlink : ℕ → ImageRow → ImageRow
unlink id i = record i { receipt_id = other i.receipt_id }
  where
    other : Option ℕ → Option ℕ
    other none = none
    other (some r) = if r == id then none else some r

abbrev pub after_delete : ℕ → Ledger → Office → Office
after_delete id l o = record o {
  ledger = l;
  images = map (unlink id) o.images;
  links = filter (λ (k : Link). not (k.receipt_id == id)) o.links;
}

abbrev pub deleted :
    User
    → ℕ
    → Result ReceiptReferenced (Option ReceiptRow) × Ledger
    → Office
    → Result ℕ (List Text) × Office
deleted user id (err e, l) o = (err 409, record o { ledger = l })
deleted user id (ok none, l) o = (err 404, record o { ledger = l })
deleted user id (ok (some row), l) o =
    let o' = after_delete id l o in
    let (files, t) = delete_image_of user row.image_id o'.images in
    (ok files, record o' { images = t })

-- `delete_receipt` of the API answers the files that it deletes.
unfoldable pub delete_request :
    (ℕ → Bool) → Bool → User → ℕ → Office → Result ℕ (List Text) × Office
delete_request is_referenced is_ready user id o =
    if is_ready
    then deleted user id
        (ReceiptDb.delete_receipt is_referenced id (some user.id) user.can_see_all o.ledger) o
    else (err 503, o)

module _ (columns : Columns) (fresh : Fresh) (fold : ℕ → Text) where
  abbrev pub linked :
      ReceiptRow
      → Result CollectionFault (Unit {0}) × Shelves
      → Office
      → Result ℕ ReceiptRow × Office
  linked row (err e, s) o = (err 404, o)
  linked row (ok x, s) o = (ok row, record o { links = s.links })

  -- The collections of the request, where it names some.
  abbrev pub with_collections :
      Collections → User → ℕ → Option (List ℕ) → ReceiptRow → Office → Result ℕ ReceiptRow × Office
  with_collections collections user id none row o = (ok row, o)
  with_collections collections user id (some ids) row o =
      linked row
        (set_collections id ids (some user.id) user.can_see_all (record {
          collections = collections;
          receipts =
              map (λ (r : ReceiptRow). record { id = r.id; user_id = r.user_id }) o.ledger.receipts;
          links = o.links;
        }))
        o

  abbrev pub corrected :
      Collections
      → User
      → ℕ
      → Option (List ℕ)
      → Result UpdateFault (Option ReceiptRow) × Ledger
      → Office
      → Result ℕ ReceiptRow × Office
  corrected collections user id ids (err fault, l) o = (err 422, record o { ledger = l })
  corrected collections user id ids (ok none, l) o = (err 404, record o { ledger = l })
  corrected collections user id ids (ok (some row), l) o =
      with_collections collections user id ids row (record o { ledger = l })

  -- `update_receipt` of the API; `ids` are its collection_ids.
  unfoldable pub update_request :
      Bool
      → Collections
      → User
      → ℕ
      → Receipt
      → List LineItemUpdate
      → Option (List ℕ)
      → Office
      → Result ℕ ReceiptRow × Office
  update_request is_ready collections user id receipt es ids o =
      if is_ready
      then corrected collections user id ids
          (update_receipt columns fresh fold id receipt es (some user.id) user.can_see_all o.ledger)
          o
      else (err 503, o)
