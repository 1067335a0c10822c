-- ===== src/Scheduler/Outcome.antt =====
-- What is left in the table for an image that the cycle has analysed.
use vision_bill.Images.{
  ImageRow, Images, ImagePart, timed_out, unreadable, has_id, mark_analyzed, mark_failed,
  mark_terminal, update_image_path, update_image_thumbnail_path, update_additional_images, parts,
}
use vision_bill.Images.Lease.{row_of, HasUniqueIds}
use vision_bill.Scheduler.{
  PendingImageResult, Extracted, extracted, late, unclear, broken, World, ReceiptStore, Desk, done,
  finish, fail, end_as, moved, move_part, move_additional_images, set_path, set_thumbnail,
  relocated, relocate, persisted, recorded, shown, existing_file, extract_from, unless_stored,
  unless_linked, analyze_one,
}
use vision_bill.Prelude.Keyed.{
  find?-update_where_self, find?-update_where_ne, HasUniqueKeys-update_where,
}
use vision_bill.Prelude.Result.{Result, ok, err}
use vision_bill.Prelude.{
  ℕ, ◌≡◌, ◌≢◌, refl, ◌∙◌, true, ◌&&◌, List, [], ◌∷◌, ◌++◌, Option, none, some, inl, inr, Text,
  codes, find?-sound, update_where, Bool-cases, ==_iff, map,
}

-- The row of the image says what the result says, and its lease is given back.
pub record IsSettledAs (res : PendingImageResult) (t : Images) : Type 0 where
  pub row : ImageRow
  pub found : row_of res.image_id t ≡ some row
  pub same_status : row.status ≡ res.status
  pub same_receipt : row.receipt_id ≡ res.receipt_id
  pub same_error : row.error ≡ res.error
  pub no_lease : row.processing_at ≡ none

-- No other image is written, and ids stay unique.
pub record KeepsOthers (id : ℕ) (before after : Images) : Type 0 where
  pub others : (j : ℕ) → j ≢ id → row_of j after ≡ row_of j before
  pub unique : HasUniqueIds before → HasUniqueIds after

update-KeepsOthers :
    (id : ℕ) (f : ImageRow → ImageRow) (t : Images)
    → ((r : ImageRow) → (f r).id ≡ r.id)
    → KeepsOthers id t (update_where (has_id id) f t)
update-KeepsOthers id f t keeps = record {
  others = λ j ne.
      find?-update_where_ne (λ (r : ImageRow). r.id) (has_id id) f id j t
        (λ r h. (==_iff r.id id).0 h) keeps ne;
  unique = λ u. HasUniqueKeys-update_where (λ (r : ImageRow). r.id) (has_id id) f id t keeps u;
}

KeepsOthers-trans :
    (id : ℕ) (s t u : Images) → KeepsOthers id s t → KeepsOthers id t u → KeepsOthers id s u
KeepsOthers-trans id s t u h k = record {
  others = λ j ne. k.others j ne ∙ h.others j ne;
  unique = λ x. k.unique (h.unique x);
}

-- Writing paths changes nothing that a result speaks of.
module _ (res : PendingImageResult) (f : ImageRow → ImageRow) where
  paths-IsSettledAs :
      (t : Images)
      → ((r : ImageRow) → (f r).id ≡ r.id)
      → ((r : ImageRow) → (f r).status ≡ r.status)
      → ((r : ImageRow) → (f r).receipt_id ≡ r.receipt_id)
      → ((r : ImageRow) → (f r).error ≡ r.error)
      → ((r : ImageRow) → (f r).processing_at ≡ r.processing_at)
      → IsSettledAs res t
      → IsSettledAs res (update_where (has_id res.image_id) f t)
  paths-IsSettledAs t keeps same_s same_r same_e same_p s = record {
    row = f s.row;
    found =
        find?-update_where_self (λ (r : ImageRow). r.id) (has_id res.image_id) f res.image_id t
          keeps s.found (its_id res.image_id t s.found);
    same_status = same_s s.row ∙ s.same_status;
    same_receipt = same_r s.row ∙ s.same_receipt;
    same_error = same_e s.row ∙ s.same_error;
    no_lease = same_p s.row ∙ s.no_lease;
  }
    where
      its_id : (id : ℕ) (t : Images) {r : ImageRow} → row_of id t ≡ some r → has_id id r ≡ true
      its_id id t h = find?-sound (has_id id) t h

module _ (Receipts : Type 0) (store : ReceiptStore Receipts) (w : World) where
  module _ (image : ImageRow) (rid : ℕ) (t : Images) where
    -- The result still stands, and no other image was written since `t`.
    abbrev Stands : Images → Type 0
    Stands after =
        IsSettledAs (done Receipts store w image rid) after × KeepsOthers image.id t after

    path-Stands :
        (f : ImageRow → ImageRow) (u : Images)
        → ((r : ImageRow) → (f r).id ≡ r.id)
        → ((r : ImageRow) → (f r).status ≡ r.status)
        → ((r : ImageRow) → (f r).receipt_id ≡ r.receipt_id)
        → ((r : ImageRow) → (f r).error ≡ r.error)
        → ((r : ImageRow) → (f r).processing_at ≡ r.processing_at)
        → Stands u
        → Stands (update_where (has_id image.id) f u)
    path-Stands f u keeps a b c e (s, k) = (
      paths-IsSettledAs (done Receipts store w image rid) f u keeps a b c e s,
      KeepsOthers-trans image.id t u _ k (update-KeepsOthers image.id f u keeps),
    )

    additional-Stands :
        (before ps : List ImagePart) (u : Images)
        → Stands u
        → Stands (move_additional_images Receipts store w image.id rid before ps u)
    unfolding move_additional_images update_additional_images
    additional-Stands before [] u s = s
    additional-Stands before (p ∷ ps) u s = go (w.store_perm_image p.image_path rid) (λ p'.
        additional-Stands (before ++ p' ∷ []) ps
          (update_additional_images image.id (before ++ p' ∷ ps) u)
          (path-Stands _ u (λ _. refl) (λ _. refl) (λ _. refl) (λ _. refl) (λ _. refl) s))
      where
        go :
            {rest : ImagePart → Images} (o : Result Text (Option Text × Option Text))
            → ((p' : ImagePart) → Stands (rest p'))
            → Stands (move_part Receipts store w p o u rest)
        go (err e) k = s
        go (ok (path, thumb)) k = k (moved Receipts store w p path thumb)

    relocate-Stands :
        (path : Text) (u : Images) → Stands u → Stands (relocate Receipts store w image path rid u)
    unfolding relocate update_image_path update_image_thumbnail_path
    relocate-Stands path u s = elim (Bool-cases (image.bypass_review && w.has_image_service)) [
      | inl e ↦ rw e (go (w.store_perm_image path rid))
      | inr e ↦ rw e s
    ]
      where
        with_path : (o : Option Text) → Stands (set_path Receipts store w image.id o u)
        with_path none = s
        with_path (some x) =
            path-Stands _ u (λ _. refl) (λ _. refl) (λ _. refl) (λ _. refl) (λ _. refl) s

        with_thumbnail :
            (o : Option Text) (v : Images)
            → Stands v
            → Stands (set_thumbnail Receipts store w image.id o v)
        with_thumbnail none v h = h
        with_thumbnail (some x) v h =
            path-Stands _ v (λ _. refl) (λ _. refl) (λ _. refl) (λ _. refl) (λ _. refl) h

        go :
            (o : Result Text (Option Text × Option Text))
            → Stands (relocated Receipts store w image rid o u)
        go (err e) = s
        go (ok (x, y)) =
            additional-Stands [] image.additional_images
              (set_thumbnail Receipts store w image.id y (set_path Receipts store w image.id x u))
              (with_thumbnail y (set_path Receipts store w image.id x u) (with_path x))

  module _ (image : ImageRow) (d : Desk Receipts store w)
      (found : row_of image.id d.images ≡ some image) where
    -- The result is about the image, its row says the same, and no other image is written.
    unfoldable pub IsOutcome : PendingImageResult × Desk Receipts store w → Type 0
    IsOutcome (res, after) =
        (res.image_id ≡ image.id)
        × IsSettledAs res after.images
        × KeepsOthers image.id d.images after.images

    here : has_id image.id image ≡ true
    here = (==_iff image.id image.id).1 refl

    marked-IsSettledAs :
        (res : PendingImageResult) (f : ImageRow → ImageRow) (t : Images)
        → res.image_id ≡ image.id
        → ((r : ImageRow) → (f r).id ≡ r.id)
        → (f image).status ≡ res.status
        → (f image).receipt_id ≡ res.receipt_id
        → (f image).error ≡ res.error
        → (f image).processing_at ≡ none
        → row_of image.id t ≡ some image
        → IsSettledAs res (update_where (has_id image.id) f t)
    marked-IsSettledAs res f t same keeps s r e p h = record {
      row = f image;
      found = rw same (
          find?-update_where_self (λ (x : ImageRow). x.id) (has_id image.id) f image.id t keeps h
            here);
      same_status = s;
      same_receipt = r;
      same_error = e;
      no_lease = p;
    }

    analyzed-IsSettledAs :
        (now rid : ℕ)
        → IsSettledAs (done Receipts store w image rid) (mark_analyzed now image.id rid d.images)
          × KeepsOthers image.id d.images (mark_analyzed now image.id rid d.images)
    unfolding mark_analyzed
    analyzed-IsSettledAs now rid = (
      marked-IsSettledAs _ _ d.images refl (λ _. refl) refl refl refl refl found,
      update-KeepsOthers image.id _ d.images (λ _. refl),
    )

    fail-IsOutcome :
        (error : Text) (rs : Receipts)
        → image.receipt_id ≡ none
        → IsOutcome (fail Receipts store w image error (record d { receipts = rs }))
    unfolding mark_failed IsOutcome
    fail-IsOutcome error rs unlinked = (
      refl,
      marked-IsSettledAs _ _ d.images refl (λ _. refl) refl unlinked refl refl found,
      update-KeepsOthers image.id _ d.images (λ _. refl),
    )

    late-IsOutcome :
        (e : Text)
        → image.receipt_id ≡ none
        → IsOutcome (end_as Receipts store w image timed_out e d)
    unfolding mark_terminal IsOutcome
    late-IsOutcome e unlinked = (
      refl,
      marked-IsSettledAs _ _ d.images refl (λ _. refl) refl unlinked refl refl found,
      update-KeepsOthers image.id _ d.images (λ _. refl),
    )

    unclear-IsOutcome :
        (e : Text)
        → image.receipt_id ≡ none
        → IsOutcome (end_as Receipts store w image unreadable e d)
    unfolding mark_terminal IsOutcome
    unclear-IsOutcome e unlinked = (
      refl,
      marked-IsSettledAs _ _ d.images refl (λ _. refl) refl unlinked refl refl found,
      update-KeepsOthers image.id _ d.images (λ _. refl),
    )

    finish-IsOutcome : (now rid : ℕ) → IsOutcome (finish Receipts store w now image rid d)
    unfolding IsOutcome
    finish-IsOutcome now rid = let (s, k) = analyzed-IsSettledAs now rid in (refl, s, k)

    -- For an image that stands in the table, every branch of the analysis - a receipt that exists
    -- already, a missing file, a time-out, an unreadable photo, any other failure of the model, a
    -- failure to store the receipt, success with or without review - leaves its row with the
    -- status, the receipt and the error that the result reports and without a lease, and no other
    -- row changed.
    pub analyze_one-IsOutcome :
        (now : ℕ) (model_id : Text) → IsOutcome (analyze_one Receipts store w now model_id image d)
    unfolding analyze_one IsOutcome
    analyze_one-IsOutcome now model_id = linked image.receipt_id refl
      where
        stored :
            (path : Text) (p : Result Text ℕ × Receipts)
            → image.receipt_id ≡ none
            → IsOutcome (persisted Receipts store w now image path p d)
        stored path (err e, rs) u = fail-IsOutcome (codes "Failed to persist receipt: " ++ e) rs u
        stored path (ok rid, rs) u =
            let (s, k) =
              relocate-Stands image rid d.images path (mark_analyzed now image.id rid d.images)
                (analyzed-IsSettledAs now rid) in
            (refl, s, k)

        judged :
            (path : Text) (x : Extracted)
            → image.receipt_id ≡ none
            → IsOutcome (recorded Receipts store w now image path x d)
        judged path (extracted receipt) u =
            stored path (store.persist_receipt receipt image image.bypass_review d.receipts) u
        judged path (late e) u = late-IsOutcome e u
        judged path (unclear e) u = unclear-IsOutcome e u
        judged path (broken e) u = fail-IsOutcome e d.receipts u

        at_file :
            (o : Option Text)
            → image.receipt_id ≡ none
            → IsOutcome (extract_from Receipts store w now model_id image o d)
        at_file none u =
            fail-IsOutcome (codes "Image file missing: " ++ shown Receipts store w image.image_path)
              d.receipts u
        at_file (some path) u =
            judged path (w.extract model_id (map (λ (p : ImagePart). p.image_path) (parts image))) u

        unstored :
            (o : Option ℕ)
            → image.receipt_id ≡ none
            → IsOutcome (unless_stored Receipts store w now model_id image o d)
        unstored none u = at_file (existing_file Receipts store w image.image_path) u
        unstored (some rid) u = finish-IsOutcome now rid

        linked :
            (o : Option ℕ)
            → image.receipt_id ≡ o
            → IsOutcome (unless_linked Receipts store w now model_id image o d)
        linked none u = unstored (store.receipt_of_image image.id d.receipts) u
        linked (some rid) u = finish-IsOutcome now rid
