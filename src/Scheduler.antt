-- ===== src/Scheduler.antt =====
-- The cycle that analyses queued images: `AnalysisScheduler` of
-- src/vision_bill/service/analysis_scheduler.py. The receipts are behind the operations that the
-- cycle calls; the model, the files and the other workers are arguments of a cycle.
pub mod Outcome
pub mod Cycle
pub mod Once
mod Tests
use vision_bill.Images.{
  ImageRow, Images, ImagePart, ImageStatus, analyzed, failed, timed_out, unreadable, parts,
  mark_analyzed, mark_failed, mark_terminal, update_image_path, update_image_thumbnail_path,
  update_additional_images, list_pending_images, claim_for_analysis,
}
use vision_bill.Names.{is_empty}
use vision_bill.Prelude.Result.{Result, ok, err}
use vision_bill.Receipts.{Receipt}
use vision_bill.Prelude.{
  ℕ, Bool, true, false, ◌&&◌, List, [], ◌∷◌, ◌++◌, map, Option, none, some, or_same, if◌then◌else◌,
  Text, codes, mem_text, any, text_eq,
}

pub record PendingImageResult : Type 0 where
  pub image_id : ℕ
  pub status : ImageStatus
  pub receipt_id : Option ℕ
  pub error : Option Text

-- What `analyse_receipt_from_path` returns or raises.
pub data Extracted : Type 0 where
  extracted : Receipt → Extracted
  late unclear broken : Text → Extracted

-- The files and the model. `store_perm_image` answers the two new paths or raises.
pub record World : Type 0 where
  pub file_exists : Text → Bool
  pub extract : Text → List Text → Extracted
  pub has_image_service : Bool
  pub store_perm_image : Text → ℕ → Result Text (Option Text × Option Text)

-- The operations of the receipt service that the cycle calls: `get_receipt_by_image_id`, and
-- `persist_receipt` with the image and whether it skips the review.
pub record ReceiptStore (Receipts : Type 0) : Type 0 where
  pub receipt_of_image : ℕ → Receipts → Option ℕ
  pub persist_receipt : Receipt → ImageRow → Bool → Receipts → Result Text ℕ × Receipts

-- `_select_model` of a non-empty list, and the choice for one image.
unfoldable pub select_model : Text → Text → List Text → Text
select_model preferred m ms = if mem_text preferred (m ∷ ms) then preferred else m

unfoldable pub chosen_model : List Text → Text → Option Text → Text
chosen_model models model_id none = model_id
chosen_model models model_id (some own) = if mem_text own models then own else model_id

module _ (Receipts : Type 0) (store : ReceiptStore Receipts) (w : World) where
  pub record Desk : Type 0 where
    pub images : Images
    pub receipts : Receipts

  abbrev pub done : ImageRow → ℕ → PendingImageResult
  done image receipt_id = record {
    image_id = image.id;
    status = analyzed;
    receipt_id = some receipt_id;
    error = none;
  }

  abbrev pub ended : ImageRow → ImageStatus → Text → PendingImageResult
  ended image status error = record {
    image_id = image.id;
    status = status;
    receipt_id = none;
    error = some error;
  }

  abbrev pub finish : ℕ → ImageRow → ℕ → Desk → PendingImageResult × Desk
  finish now image receipt_id d =
      (done image receipt_id, record d { images = mark_analyzed now image.id receipt_id d.images })

  abbrev pub fail : ImageRow → Text → Desk → PendingImageResult × Desk
  fail image error d =
      (ended image failed error, record d { images = mark_failed image.id error d.images })

  abbrev pub end_as : ImageRow → ImageStatus → Text → Desk → PendingImageResult × Desk
  end_as image status error d = (
    ended image status error,
    record d { images = or_same d.images (mark_terminal image.id status error d.images) },
  )

  -- `ReceiptService.move_additional_images`: the parts before are moved already. A part that
  -- cannot be moved ends the loop.
  abbrev pub moved : ImagePart → Option Text → Option Text → ImagePart
  moved p path thumb = record p {
    image_path = or_same p.image_path path;
    thumbnail_path = or_else thumb p.thumbnail_path;
  }
    where
      or_else : Option Text → Option Text → Option Text
      or_else none o = o
      or_else (some t) o = some t

  abbrev pub move_part :
      ImagePart → Result Text (Option Text × Option Text) → Images → (ImagePart → Images) → Images
  move_part p (err e) t rest = t
  move_part p (ok (path, thumb)) t rest = rest (moved p path thumb)

  unfoldable pub move_additional_images : ℕ → ℕ → List ImagePart → List ImagePart → Images → Images
  move_additional_images id receipt_id before [] t = t
  move_additional_images id receipt_id before (p ∷ ps) t =
      move_part p (w.store_perm_image p.image_path receipt_id) t (λ p'.
        move_additional_images id receipt_id (before ++ p' ∷ []) ps
          (update_additional_images id (before ++ p' ∷ ps) t))

  abbrev pub set_path : ℕ → Option Text → Images → Images
  set_path id none t = t
  set_path id (some path) t = update_image_path id path t

  abbrev pub set_thumbnail : ℕ → Option Text → Images → Images
  set_thumbnail id none t = t
  set_thumbnail id (some path) t = update_image_thumbnail_path id path t

  abbrev pub relocated : ImageRow → ℕ → Result Text (Option Text × Option Text) → Images → Images
  relocated image receipt_id (err e) t = t
  relocated image receipt_id (ok (path, thumb)) t =
      move_additional_images image.id receipt_id [] image.additional_images
        (set_thumbnail image.id thumb (set_path image.id path t))

  -- The files of an image that skips the review move to permanent storage; a failure is logged.
  unfoldable pub relocate : ImageRow → Text → ℕ → Images → Images
  relocate image path receipt_id t =
      if image.bypass_review && w.has_image_service
      then relocated image receipt_id (w.store_perm_image path receipt_id) t
      else t

  abbrev pub persisted :
      ℕ → ImageRow → Text → Result Text ℕ × Receipts → Desk → PendingImageResult × Desk
  persisted now image path (err e, rs) d =
      fail image (codes "Failed to persist receipt: " ++ e) (record d { receipts = rs })
  persisted now image path (ok receipt_id, rs) d =
      let t = mark_analyzed now image.id receipt_id d.images in
      (done image receipt_id, record { images = relocate image path receipt_id t; receipts = rs })

  abbrev pub recorded : ℕ → ImageRow → Text → Extracted → Desk → PendingImageResult × Desk
  recorded now image path (extracted receipt) d =
      persisted now image path (store.persist_receipt receipt image image.bypass_review d.receipts)
        d
  recorded now image path (late e) d = end_as image timed_out e d
  recorded now image path (unclear e) d = end_as image unreadable e d
  recorded now image path (broken e) d = fail image e d

  abbrev pub shown : Option Text → Text
  shown none = codes "None"
  shown (some t) = t

  -- `Path(image.image_path) if image.image_path else None`, if the file exists.
  abbrev pub existing_file : Option Text → Option Text
  existing_file none = none
  existing_file (some []) = none
  existing_file (some (c ∷ path)) = if w.file_exists (c ∷ path) then some (c ∷ path) else none

  abbrev pub extract_from : ℕ → Text → ImageRow → Option Text → Desk → PendingImageResult × Desk
  extract_from now model_id image none d =
      fail image (codes "Image file missing: " ++ shown image.image_path) d
  extract_from now model_id image (some path) d =
      recorded now image path
        (w.extract model_id (map (λ (p : ImagePart). p.image_path) (parts image))) d

  abbrev pub unless_stored : ℕ → Text → ImageRow → Option ℕ → Desk → PendingImageResult × Desk
  unless_stored now model_id image (some receipt_id) d = finish now image receipt_id d
  unless_stored now model_id image none d =
      extract_from now model_id image (existing_file image.image_path) d

  abbrev pub unless_linked : ℕ → Text → ImageRow → Option ℕ → Desk → PendingImageResult × Desk
  unless_linked now model_id image (some receipt_id) d = finish now image receipt_id d
  unless_linked now model_id image none d =
      unless_stored now model_id image (store.receipt_of_image image.id d.receipts) d

  -- `_analyze_one` of a claimed image.
  unfoldable pub analyze_one : ℕ → Text → ImageRow → Desk → PendingImageResult × Desk
  analyze_one now model_id image d = unless_linked now model_id image image.receipt_id d

  -- The loop over the queue as it was read. Before each claim other workers may have written
  -- (`meanwhile`); `claimed_at` and `marked_at` are the times of the writes.
  module _ (meanwhile : ℕ → Images → Images) (claimed_at marked_at : ℕ → ℕ) where
    abbrev pub continue_with :
        List Text
        → Text
        → ℕ
        → Option ImageRow × Images
        → Desk
        → (Desk → List PendingImageResult × Desk)
        → List PendingImageResult × Desk
    continue_with models model_id id (none, t) d rest = rest (record d { images = t })
    continue_with models model_id id (some image, t) d rest =
        let (result, d') =
          analyze_one (marked_at id) (chosen_model models model_id image.model_id) image
            (record d { images = t }) in
        let (results, last) = rest d' in (result ∷ results, last)

    unfoldable pub process_queue :
        List Text → Text → List ImageRow → Desk → List PendingImageResult × Desk
    process_queue models model_id [] d = ([], d)
    process_queue models model_id (image ∷ queue) d =
        continue_with models model_id image.id
          (claim_for_analysis (claimed_at image.id) image.id (meanwhile image.id d.images)) d
          (λ d'. process_queue models model_id queue d')

    -- `process_pending`; `none` stands for a provider that cannot be reached.
    unfoldable pub process_pending :
        Bool → Text → ℕ → Option (List Text) → Desk → List PendingImageResult × Desk
    process_pending false preferred now models d = ([], d)
    process_pending true preferred now none d = ([], d)
    process_pending true preferred now (some []) d = ([], d)
    process_pending true preferred now (some (m ∷ ms)) d =
        process_queue (m ∷ ms) (select_model preferred m ms) (list_pending_images now d.images) d
