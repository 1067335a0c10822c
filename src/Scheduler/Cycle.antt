-- ===== src/Scheduler/Cycle.antt =====
-- A whole cycle of one worker: which model it takes, and what stands in the table at its end.
use vision_bill.Images.{
  ImageRow, Images, claim_for_analysis, claimable, list_pending_images, oldest_first,
}
use vision_bill.Images.Lease.{
  row_of, HasUniqueIds, claim-HasUniqueIds, claim_others, claim_taken, claim_free,
}
use vision_bill.Scheduler.{
  PendingImageResult, World, ReceiptStore, Desk, chosen_model, select_model, continue_with,
  process_queue, process_pending,
}
use vision_bill.Scheduler.Outcome.{IsSettledAs, IsOutcome, analyze_one-IsOutcome}
use vision_bill.Prelude.Keyed.{
  HasUniqueKeys, HasUniqueKeys-filter, find?-key, HasUniqueKeys-sort_by,
}
use vision_bill.Prelude.{
  ℕ, ◌≡◌, ◌≢◌, refl, sym, ap, ◌∙◌, Bool, true, false, List, [], ◌∷◌, Option, none, some, arith,
  if◌then◌else◌, Text, mem_text, text_eq_refl, filter, All,
}

pick_available :
    (b : Bool) (a m : Text) (ms : List Text)
    → (b ≡ true → mem_text a ms ≡ true)
    → mem_text m ms ≡ true
    → mem_text (if b then a else m) ms ≡ true
pick_available true a m ms h k = h refl
pick_available false a m ms h k = k

select_model_available :
    (preferred m : Text) (ms : List Text) → mem_text (select_model preferred m ms) (m ∷ ms) ≡ true
unfolding select_model
select_model_available preferred m ms =
    pick_available (mem_text preferred (m ∷ ms)) preferred m (m ∷ ms) (λ h. h)
      (rw (text_eq_refl m) refl)

-- The model that an image is analysed with is one that the provider offers, whether it is the
-- image's own choice, the configured model or the first one offered.
chosen_model_available :
    (preferred m : Text) (ms : List Text) (own : Option Text)
    → mem_text (chosen_model (m ∷ ms) (select_model preferred m ms) own) (m ∷ ms) ≡ true
unfolding chosen_model
chosen_model_available preferred m ms none = select_model_available preferred m ms
chosen_model_available preferred m ms (some own) =
    pick_available (mem_text own (m ∷ ms)) own _ (m ∷ ms) (λ h. h)
      (select_model_available preferred m ms)

module _ (Receipts : Type 0) (store : ReceiptStore Receipts) (w : World)
    (claimed_at marked_at : ℕ → ℕ) where
  -- The queue of the only worker: nobody else writes in between.
  abbrev drain :
      List Text
      → Text
      → List ImageRow
      → Desk Receipts store w
      → List PendingImageResult × Desk Receipts store w
  drain = process_queue Receipts store w (λ id t. t) claimed_at marked_at

  move_IsSettledAs :
      (res : PendingImageResult) (s t : Images)
      → row_of res.image_id t ≡ row_of res.image_id s
      → IsSettledAs res s
      → IsSettledAs res t
  move_IsSettledAs res s t e h = record {
    row = h.row;
    found = e ∙ h.found;
    same_status = h.same_status;
    same_receipt = h.same_receipt;
    same_error = h.same_error;
    no_lease = h.no_lease;
  }

  -- The rest of the queue writes nothing of an image that is not in it, and every result stands
  -- at its end.
  drain-lem :
      (models : List Text) (model_id : Text) (queue : List ImageRow) (d : Desk Receipts store w)
      → HasUniqueKeys (λ (r : ImageRow). r.id) queue
      → HasUniqueIds d.images
      → ((j : ℕ)
          → row_of j queue ≡ none
          → row_of j (drain models model_id queue d).1.images ≡ row_of j d.images)
        × All
            (λ res. IsSettledAs res (drain models model_id queue d).1.images)
            (drain models model_id queue d).0
  unfolding process_queue IsOutcome
  drain-lem models model_id [] d q u = ((λ j h. refl), tt)
  drain-lem models model_id (image ∷ queue) d q u =
      go (claim_for_analysis (claimed_at image.id) image.id d.images).0 refl
        (λ d' u'. drain-lem models model_id queue d' q.1 u')
    where
      claimed : Images
      claimed = (claim_for_analysis (claimed_at image.id) image.id d.images).1

      Stands : Images → List PendingImageResult × Desk Receipts store w → Type 0
      Stands before out =
          ((j : ℕ) → row_of j (image ∷ queue) ≡ none → row_of j out.1.images ≡ row_of j before)
          × All (λ res. IsSettledAs res out.1.images) out.0

      not_queued :
          (j : ℕ) → row_of j (image ∷ queue) ≡ none → (j ≢ image.id) × (row_of j queue ≡ none)
      not_queued j h = ((λ e. ground arith), ground arith)

      go :
          (o : Option ImageRow)
          → (claim_for_analysis (claimed_at image.id) image.id d.images).0 ≡ o
          → ((d' : Desk Receipts store w)
              → HasUniqueIds d'.images
              → ((j : ℕ)
                  → row_of j queue ≡ none
                  → row_of j (drain models model_id queue d').1.images ≡ row_of j d'.images)
                × All
                    (λ res. IsSettledAs res (drain models model_id queue d').1.images)
                    (drain models model_id queue d').0)
          → Stands d.images (
              continue_with Receipts store w
                (λ id t. t)
                claimed_at
                marked_at
                models
                model_id
                image.id
                (o, claimed)
                d
                (λ d'. drain models model_id queue d'))
      go none e rest =
          let (keep, stand) =
            rest (record d { images = claimed })
              (claim-HasUniqueIds (claimed_at image.id) image.id d.images u) in
          (
            (λ j h.
                let (ne, absent) = not_queued j h in
                keep j absent ∙ claim_others (claimed_at image.id) image.id j d.images ne),
            stand,
          )
      go (some c) e rest =
          let (r, found, free, is_r) = claim_taken (claimed_at image.id) image.id d.images u e in
          let stored : row_of image.id claimed ≡ some c =
            (claim_free (claimed_at image.id) image.id d.images found free).1
            ∙ ap some (sym is_r) in
          let same : c.id ≡ image.id = find?-key (λ (x : ImageRow). x.id) image.id claimed stored in
          let (names, settled, k) =
            analyze_one-IsOutcome Receipts store w c (record d { images = claimed })
              (ap (λ i. row_of i claimed) same ∙ stored) (marked_at image.id)
              (chosen_model models model_id c.model_id) in
          let (keep, stand) =
            rest _ (k.unique (claim-HasUniqueIds (claimed_at image.id) image.id d.images u)) in
          (
            (λ j h.
                let (ne, absent) = not_queued j h in
                keep j absent
                ∙ k.others j (λ x. ne (x ∙ same))
                ∙ claim_others (claimed_at image.id) image.id j d.images ne),
            (
              move_IsSettledAs _ _ _ (keep _ (ap (λ i. row_of i queue) (names ∙ same) ∙ q.0))
                  settled,
              stand,
            ),
          )

  -- After a cycle on a table with unique ids in which no other worker writes, the row of each
  -- image that it reports on says the same as the report - status, receipt, error - and no lease
  -- is left on it.
  pub process_pending-IsSettledAs :
      (ready : Bool) (preferred : Text) (now : ℕ) (models : Option (List Text))
      (d : Desk Receipts store w)
      → HasUniqueIds d.images
      → All
          (λ res.
            IsSettledAs res
              (process_pending Receipts store w
                (λ id t. t)
                claimed_at
                marked_at
                ready
                preferred
                now
                models
                d).1.images)
          (process_pending Receipts store w
            (λ id t. t)
            claimed_at
            marked_at
            ready
            preferred
            now
            models
            d).0
  unfolding process_pending list_pending_images
  process_pending-IsSettledAs false preferred now models d u = tt
  process_pending-IsSettledAs true preferred now none d u = tt
  process_pending-IsSettledAs true preferred now (some []) d u = tt
  process_pending-IsSettledAs true preferred now (some (m ∷ ms)) d u =
      (drain-lem (m ∷ ms) (select_model preferred m ms) (list_pending_images now d.images) d
        (HasUniqueKeys-sort_by (λ (r : ImageRow). r.id) oldest_first
          (filter (claimable now) d.images)
          (HasUniqueKeys-filter (λ (r : ImageRow). r.id) (claimable now) d.images u))
        u).1
