-- ===== src/Api/Uploads.antt =====
-- `upload_image` of src/vision_bill/api/images.py: the photos are checked and stored, the row is
-- queued, and a single photo is analysed in the request. The files, the model and the receipts are
-- those of the scheduler; `meanwhile` is what other workers write before the claim.
pub mod Inline
use vision_bill.Api.{HttpError, http_error}
use vision_bill.Images.{
  ImageRow, Images, ImagePart, ImageStatus, pending, timed_out, unreadable, NewImage, store_image,
  claim_for_analysis, mark_analyzed, mark_failed, mark_terminal,
}
use vision_bill.Receipts.{Receipt}
use vision_bill.Scheduler.{
  World, ReceiptStore, Desk, Extracted, extracted, late, unclear, broken, set_path, set_thumbnail,
}
use vision_bill.Prelude.{
  ℕ, suc, ◌*◌, Bool, true, false, ◌&&◌, List, [], ◌∷◌, Option, none, some, or_same, ltb, leb,
  if◌then◌else◌, Text, mem_text, length,
}
use vision_bill.Prelude.Result.{Result, ok, err, ◌>>=◌, ◌>>◌, guard}

-- A photo of the request: its name and its bytes.
pub record Photo : Type 0 where
  pub filename : Option Text
  pub content : List ℕ

pub record UploadRequest : Type 0 where
  pub photos : List Photo
  pub model_id : Option Text
  pub bypass_review : Option Bool

-- `validate_and_inspect` answers the media type of an accepted image; files are stored under new
-- paths; `models` is none where the provider cannot be reached in five seconds.
pub record UploadWorld : Type 0 where
  pub db_ready : Bool
  pub inspect : List ℕ → Option Text
  pub tmp_path : ℕ → Text
  pub thumbnail : Text → Option Text
  pub bypass_review_default : Bool
  pub preferred_model : Text
  pub models : Option (List Text)

pub data Reply : Type 0 where
  refused : ℕ → Reply
  queued : ℕ → Reply
  unfinished : ℕ → ℕ → ImageStatus → Text → Reply
  raised : Text → Reply
  created : ℕ → ℕ → Reply

abbrev pub max_photo_bytes : ℕ
max_photo_bytes = 20 * 1024 * 1024

abbrev pub stored_part : UploadWorld → ℕ → Photo → Text → ImagePart
stored_part u n photo media_type = record {
  image_path = u.tmp_path n;
  thumbnail_path = u.thumbnail (u.tmp_path n);
  original_filename = photo.filename;
  media_type = some media_type;
  size_bytes = some (length photo.content);
}

abbrev pub inspected : Option Text → Result HttpError Text
inspected none = err (http_error 415)
inspected (some media_type) = ok media_type

-- The loop over the photos; on an error the files stored so far are deleted.
unfoldable pub stored_parts : UploadWorld → ℕ → List Photo → Result HttpError (List ImagePart)
stored_parts u n [] = ok []
stored_parts u n (photo ∷ photos) =
    guard (leb (length photo.content) max_photo_bytes) (http_error 413)
    >> (inspected (u.inspect photo.content) >>= λ media_type.
        stored_parts u (suc n) photos >>= λ parts. ok (stored_part u n photo media_type ∷ parts))

abbrev pub checked_parts : UploadWorld → UploadRequest → Result HttpError (List ImagePart)
checked_parts u q =
    guard u.db_ready (http_error 503)
    >> guard (leb 1 (length q.photos) && leb (length q.photos) 10) (http_error 422)
    >> stored_parts u 0 q.photos

abbrev pub effective_bypass : UploadWorld → UploadRequest → Bool
effective_bypass u q = or_same u.bypass_review_default q.bypass_review

abbrev pub new_image : UploadWorld → UploadRequest → ℕ → ImagePart → List ImagePart → NewImage
new_image u q user first rest = record {
  image_path = first.image_path;
  original_filename = first.original_filename;
  media_type = first.media_type;
  size_bytes = first.size_bytes;
  status = pending;
  user_id = some user;
  bypass_review = effective_bypass u q;
  thumbnail_path = first.thumbnail_path;
  additional_images = rest;
  model_id = q.model_id;
}

-- The model of the request if it is available, or the preferred one, or the first.
unfoldable pub upload_model : Text → Text → List Text → Option Text → Text
upload_model preferred m ms model_id = asked model_id
  where
    otherwise : Text
    otherwise = if mem_text preferred (m ∷ ms) then preferred else m

    asked : Option Text → Text
    asked none = otherwise
    asked (some []) = otherwise
    asked (some (c ∷ s)) = if mem_text (c ∷ s) (m ∷ ms) then c ∷ s else otherwise

module _ (Receipts : Type 0) (store : ReceiptStore Receipts) (w : World) where
  -- The photo of a receipt that skips the review moves; an error is logged.
  abbrev pub moved_photo : ImageRow → ℕ → Result Text (Option Text × Option Text) → Images → Images
  moved_photo image receipt_id (err e) t = t
  moved_photo image receipt_id (ok (path, thumb)) t =
      set_thumbnail Receipts store w image.id thumb (set_path Receipts store w image.id path t)

  -- An error of `persist_receipt` leaves the handler at once.
  abbrev pub upload_persisted :
      ℕ
      → ImageRow
      → Text
      → Result Text ℕ × Receipts
      → Desk Receipts store w
      → Reply × Desk Receipts store w
  upload_persisted now image path (err e, rs) d = (raised e, record d { receipts = rs })
  upload_persisted now image path (ok receipt_id, rs) d =
      let t = mark_analyzed now image.id receipt_id d.images in
      (
        created image.id receipt_id,
        record {
          images =
              if image.bypass_review
              then moved_photo image receipt_id (w.store_perm_image path receipt_id) t
              else t;
          receipts = rs;
        },
      )

  abbrev pub upload_ended :
      ImageRow → ℕ → ImageStatus → Text → Desk Receipts store w → Reply × Desk Receipts store w
  upload_ended image code status e d = (
    unfinished code image.id status e,
    record d { images = or_same d.images (mark_terminal image.id status e d.images) },
  )

  abbrev pub upload_extracted :
      ℕ → ImageRow → Text → Extracted → Desk Receipts store w → Reply × Desk Receipts store w
  upload_extracted now image path (extracted receipt) d =
      upload_persisted now image path
        (store.persist_receipt receipt image image.bypass_review d.receipts) d
  upload_extracted now image path (late e) d = upload_ended image 504 timed_out e d
  upload_extracted now image path (unclear e) d = upload_ended image 422 unreadable e d
  upload_extracted now image path (broken e) d =
      (raised e, record d { images = mark_failed image.id e d.images })

  -- The request analyses the claimed row: its owner and its review are those of the request.
  unfoldable pub analyse_upload :
      ℕ → Text → ImageRow → Text → Desk Receipts store w → Reply × Desk Receipts store w
  analyse_upload now model image path d =
      upload_extracted now image path (w.extract model (path ∷ [])) d

  module _ (u : UploadWorld) (meanwhile : Images → Images) (claimed_at marked_at : ℕ) where
    abbrev pub claimed_upload :
        Text
        → ℕ
        → Text
        → Option ImageRow × Images
        → Desk Receipts store w
        → Reply × Desk Receipts store w
    claimed_upload model id path (none, t) d = (queued id, record d { images = t })
    claimed_upload model id path (some image, t) d =
        analyse_upload marked_at model image path (record d { images = t })

    -- After the row is stored; only a single photo asks for the models.
    abbrev pub dispatched :
        UploadRequest
        → ℕ
        → Text
        → List ImagePart
        → Option (List Text)
        → Desk Receipts store w
        → Reply × Desk Receipts store w
    dispatched q id path (p ∷ rest) models d = (queued id, d)
    dispatched q id path [] none d = (queued id, d)
    dispatched q id path [] (some []) d = (queued id, d)
    dispatched q id path [] (some (m ∷ ms)) d =
        claimed_upload (upload_model u.preferred_model m ms q.model_id) id path
          (claim_for_analysis claimed_at id (meanwhile d.images)) d

    -- `upload_image`; `id` and `now` are what the database gives the new row.
    unfoldable pub upload_image :
        ℕ → ℕ → ℕ → UploadRequest → Desk Receipts store w → Reply × Desk Receipts store w
    upload_image id now user q d = accepted (checked_parts u q)
      where
        accepted : Result HttpError (List ImagePart) → Reply × Desk Receipts store w
        accepted (err (http_error code)) = (refused code, d)
        accepted (ok []) = (refused 422, d)
        accepted (ok (first ∷ rest)) =
            let (row, t) = store_image id now (new_image u q user first rest) d.images in
            dispatched q row.id first.image_path rest u.models (record d { images = t })
