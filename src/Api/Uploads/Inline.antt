-- ===== src/Api/Uploads/Inline.antt =====
-- The analysis in the request (`upload_image` of src/vision_bill/api/images.py) and the one in the
-- background (`_analyze_one` of src/vision_bill/service/analysis_scheduler.py).
use vision_bill.Api.Uploads.{
  Reply, refused, queued, unfinished, raised, created, upload_model, moved_photo, upload_persisted,
  upload_extracted, analyse_upload,
}
use vision_bill.Images.{
  ImageRow, Images, ImagePart, pending, failed, mark_analyzed, parts, text_or_empty,
}
use vision_bill.Receipts.{Receipt}
use vision_bill.Scheduler.{
  PendingImageResult, World, ReceiptStore, Desk, Extracted, extracted, late, unclear, broken, done,
  ended, select_model, chosen_model, persisted, recorded, relocate, relocated, extract_from,
  move_additional_images, existing_file, unless_stored, unless_linked, analyze_one,
}
use vision_bill.Prelude.{
  ℕ, ◌≡◌, ◌≢◌, refl, sym, ap, ◌∙◌, Bool, true, false, ◌&&◌, List, [], ◌∷◌, map, Option, none, some,
  if◌then◌else◌, Text,
}
use vision_bill.Prelude.Result.{Result, ok, err}

-- Both choose the same model: the image's own if it is available, or the preferred one, or the
-- first. An own model is no empty text.
pub upload_model-chosen_model :
    (preferred m : Text) (ms : List Text) (model_id : Option Text)
    → model_id ≢ some []
    → upload_model preferred m ms model_id
      ≡ chosen_model (m ∷ ms) (select_model preferred m ms) model_id
unfolding upload_model chosen_model select_model
upload_model-chosen_model preferred m ms none h = refl
upload_model-chosen_model preferred m ms (some []) h = absurd (h refl)
upload_model-chosen_model preferred m ms (some (c ∷ s)) h = refl

module _ (Receipts : Type 0) (store : ReceiptStore Receipts) (w : World) where
  -- What the scheduler would say of the image, from the reply of the request.
  abbrev pub result_of : ImageRow → Reply → PendingImageResult
  result_of image (refused code) = ended Receipts store w image pending []
  result_of image (queued id) = ended Receipts store w image pending []
  result_of image (unfinished code id status e) = ended Receipts store w image status e
  result_of image (raised e) = ended Receipts store w image failed e
  result_of image (created id receipt_id) = done Receipts store w image receipt_id

  module _ (now : ℕ) (image : ImageRow) (path : Text) (d : Desk Receipts store w)
      (single : image.additional_images ≡ []) (has_files : w.has_image_service ≡ true) where
    abbrev settled : Reply × Desk Receipts store w → PendingImageResult × Desk Receipts store w
    settled r = (result_of image r.0, r.1)

    moved-relocate :
        (receipt_id : ℕ) (t : Images)
        → (if image.bypass_review
            then moved_photo Receipts store w image receipt_id
                (w.store_perm_image path receipt_id)
                t
            else t)
          ≡ relocate Receipts store w image path receipt_id t
    unfolding relocate move_additional_images
    moved-relocate receipt_id t =
        both image.bypass_review w.has_image_service _ _ t
          (moved-relocated (w.store_perm_image path receipt_id)) has_files
      where
        no_parts :
            (ps : List ImagePart) (u : Images)
            → ps ≡ []
            → move_additional_images Receipts store w image.id receipt_id [] ps u ≡ u
        no_parts [] u h = refl
        no_parts (p ∷ ps) u h = absurd (cc)

        moved-relocated :
            (p : Result Text (Option Text × Option Text))
            → moved_photo Receipts store w image receipt_id p t
              ≡ relocated Receipts store w image receipt_id p t
        moved-relocated (err e) = refl
        moved-relocated (ok (path, thumb)) = sym (no_parts image.additional_images _ single)

        both :
            (b f : Bool) (x y z : Images)
            → x ≡ y
            → f ≡ true
            → (if b then x else z) ≡ (if b && f then y else z)
        both true true x y z q h = q
        both true false x y z q h = absurd (cc)
        both false f x y z q h = refl

    upload_persisted-persisted :
        (p : Result Text ℕ × Receipts)
        → ((e : Text) → p.0 ≢ err e)
        → settled (upload_persisted Receipts store w now image path p d)
          ≡ persisted Receipts store w now image path p d
    upload_persisted-persisted (err e, rs) good = absurd (good e refl)
    upload_persisted-persisted (ok receipt_id, rs) good =
        ap (λ t. (done Receipts store w image receipt_id, record { images = t; receipts = rs }))
          (moved-relocate receipt_id (mark_analyzed now image.id receipt_id d.images))

    upload_extracted-recorded :
        (e : Extracted)
        → ((receipt : Receipt) (e : Text)
            → (store.persist_receipt receipt image image.bypass_review d.receipts).0 ≢ err e)
        → settled (upload_extracted Receipts store w now image path e d)
          ≡ recorded Receipts store w now image path e d
    upload_extracted-recorded (extracted receipt) good =
        upload_persisted-persisted
          (store.persist_receipt receipt image image.bypass_review d.receipts) (good receipt)
    upload_extracted-recorded (late e) good = refl
    upload_extracted-recorded (unclear e) good = refl
    upload_extracted-recorded (broken e) good = refl

  -- A single photo is analysed in the request as the background worker would analyse it: with the
  -- same model, the same writes to the images and the receipts and the same outcome for the image.
  -- The image is claimed and has no receipt yet, its file exists, its own model is no empty text,
  -- files can be moved, and `persist_receipt` does not raise: there the worker marks the image as
  -- failed, while the request does not.
  pub analyse_upload-analyze_one :
      (now : ℕ) (preferred m : Text) (ms : List Text) (image : ImageRow) (path : Text)
      (d : Desk Receipts store w)
      → image.additional_images ≡ []
      → w.has_image_service ≡ true
      → image.receipt_id ≡ none
      → store.receipt_of_image image.id d.receipts ≡ none
      → image.image_path ≡ some path
      → existing_file Receipts store w (some path) ≡ some path
      → image.model_id ≢ some []
      → ((receipt : Receipt) (e : Text)
          → (store.persist_receipt receipt image image.bypass_review d.receipts).0 ≢ err e)
      → let r =
          analyse_upload Receipts store w now
            (upload_model preferred m ms image.model_id)
            image
            path
            d in
        (result_of image r.0, r.1)
        ≡ analyze_one Receipts store w now
            (chosen_model (m ∷ ms) (select_model preferred m ms) image.model_id)
            image
            d
  unfolding analyse_upload analyze_one parts
  analyse_upload-analyze_one now preferred m ms image path d single files free absent at exists own
        good =
      upload_extracted-recorded now image path d single files
        (w.extract (upload_model preferred m ms image.model_id) (path ∷ [])) good
      ∙ sym (
          ap (λ o. unless_linked Receipts store w now model image o d) free
          ∙ ap (λ o. unless_stored Receipts store w now model image o d) absent
          ∙ ap
              (λ o.
                extract_from Receipts store w now model image (existing_file Receipts store w o) d)
              at
          ∙ ap (λ o. extract_from Receipts store w now model image o d) exists
          ∙ ap (λ ps. recorded Receipts store w now image path (w.extract model ps) d) one_part
          ∙ ap (λ chosen. recorded Receipts store w now image path (w.extract chosen (path ∷ [])) d)
              (sym (upload_model-chosen_model preferred m ms image.model_id own)))
    where
      model : Text
      model = chosen_model (m ∷ ms) (select_model preferred m ms) image.model_id

      one_part : map (λ (p : ImagePart). p.image_path) (parts image) ≡ path ∷ []
      one_part =
          ap (λ o. text_or_empty o ∷ map (λ (p : ImagePart). p.image_path) image.additional_images)
            at
          ∙ ap (λ ps. path ∷ map (λ (p : ImagePart). p.image_path) ps) single
