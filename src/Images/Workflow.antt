-- ===== src/Images/Workflow.antt =====
-- The workflow of one image, pending → processing → analyzed | failed | timed_out | unreadable:
-- what each status says about the other columns, whatever calls the provider receives.
use vision_bill.Images.{
  ImageRow, Images, ImageStatus, ImagePart, NewImage, pending, processing, analyzed, failed,
  timed_out, unreadable, claim_row, claims, has_id, claim_for_analysis, mark_analyzed, mark_failed,
  mark_terminal, is_terminal, update_image_path, update_image_thumbnail_path,
  update_additional_images, delete_image, store_image, new_row,
}
use vision_bill.Prelude.{
  or_same, ℕ, ◌≡◌, ◌≢◌, refl, true, List, [], ◌∷◌, Option, none, some, inl, inr, Text, All,
  All-update_where, All-filter, All-append, Bool-cases,
}

-- The calls of `ImageDB` that write.
pub data Call : Type 0 where
  store : ℕ → NewImage → Call
  claim : ℕ → Call
  analyzed_as : ℕ → ℕ → Call
  failed_with : ℕ → Text → Call
  ended_as : ℕ → ImageStatus → Text → Call
  set_path : ℕ → Text → Call
  set_thumbnail : ℕ → Text → Call
  set_additional : ℕ → List ImagePart → Call
  delete : ℕ → Call

-- One call at a time `now`; a call that raises leaves the table as it is.
pub apply : ℕ → Call → Images → Images
apply now (store id n) t = (store_image id now n t).1
apply now (claim id) t = (claim_for_analysis now id t).1
apply now (analyzed_as id receipt_id) t = mark_analyzed now id receipt_id t
apply now (failed_with id error) t = mark_failed id error t
apply now (ended_as id status error) t = or_same t (mark_terminal id status error t)
apply now (set_path id path) t = update_image_path id path t
apply now (set_thumbnail id path) t = update_image_thumbnail_path id path t
apply now (set_additional id images) t = update_additional_images id images t
apply now (delete id) t = delete_image id t

pub run : List (ℕ × Call) → Images → Images
run [] t = t
run ((now, c) ∷ calls) t = run calls (apply now c t)

-- The only caller of `store_image` stores in status `pending`.
abbrev pub StoresPending : ℕ × Call → Type 0
StoresPending (now, store id n) = n.status ≡ pending
StoresPending (now, _) = Unit

-- A waiting image carries no error and no lease; a `processing` one a lease and no error; an
-- analyzed one its time, no error and no lease; one that failed or ended without a receipt its
-- error and no lease.
abbrev pub Agrees : ImageStatus → Option Text → Option ℕ → Option ℕ → Type 0
Agrees pending error processing_at analyzed_at = (error ≡ none) × (processing_at ≡ none)
Agrees processing error processing_at analyzed_at = (error ≡ none) × (processing_at ≢ none)
Agrees analyzed error processing_at analyzed_at =
    (error ≡ none) × (processing_at ≡ none) × (analyzed_at ≢ none)
Agrees _ error processing_at analyzed_at = (error ≢ none) × (processing_at ≡ none)

abbrev pub IsConsistent : ImageRow → Type 0
IsConsistent r = Agrees r.status r.error r.processing_at r.analyzed_at

some-ne-none {ℓ} : {A : Type ℓ} (a : A) → some a ≢ none
some-ne-none a e = cc

terminal-Agrees :
    (st : ImageStatus) (e : Text) (at : Option ℕ)
    → is_terminal st ≡ true
    → Agrees st (some e) none at
terminal-Agrees timed_out e at h = (some-ne-none e, refl)
terminal-Agrees unreadable e at h = (some-ne-none e, refl)
terminal-Agrees failed e at h = (some-ne-none e, refl)
terminal-Agrees pending e at h = absurd (cc)
terminal-Agrees processing e at h = absurd (cc)
terminal-Agrees analyzed e at h = absurd (cc)

apply-IsConsistent :
    (now : ℕ) (c : Call) (t : Images)
    → StoresPending (now, c)
    → All IsConsistent t
    → All IsConsistent (apply now c t)
unfolding apply store_image new_row claim_for_analysis mark_analyzed mark_failed mark_terminal
    update_image_path update_image_thumbnail_path update_additional_images delete_image
apply-IsConsistent now (store id n) t p a = All-append IsConsistent t _ a (rw p (refl, refl), tt)
apply-IsConsistent now (claim id) t p a =
    All-update_where IsConsistent (claims now id) (claim_row now) t
      (λ r k h. (refl, some-ne-none now)) a
apply-IsConsistent now (analyzed_as id rid) t p a =
    All-update_where IsConsistent (has_id id) _ t (λ r k h. (refl, refl, some-ne-none now)) a
apply-IsConsistent now (failed_with id e) t p a =
    All-update_where IsConsistent (has_id id) _ t (λ r k h. (some-ne-none e, refl)) a
apply-IsConsistent now (ended_as id st e) t p a = elim (Bool-cases (is_terminal st)) [
  | inl k ↦ rw k (
      All-update_where IsConsistent (has_id id)
        (λ r. record r { status = st; error = some e; processing_at = none }) t
        (λ r q h. terminal-Agrees st e r.analyzed_at k) a)
  | inr k ↦ rw k a
]
apply-IsConsistent now (set_path id path) t p a =
    All-update_where IsConsistent (has_id id) _ t (λ r k h. k) a
apply-IsConsistent now (set_thumbnail id path) t p a =
    All-update_where IsConsistent (has_id id) _ t (λ r k h. k) a
apply-IsConsistent now (set_additional id images) t p a =
    All-update_where IsConsistent (has_id id) _ t (λ r k h. k) a
apply-IsConsistent now (delete id) t p a = All-filter IsConsistent _ t a

-- If new images are stored as pending and the status of every image agrees with its error, its
-- lease and its time of analysis, this still holds after any calls of the provider, in whatever
-- order and at whatever times.
pub run-IsConsistent :
    (calls : List (ℕ × Call)) (t : Images)
    → All StoresPending calls
    → All IsConsistent t
    → All IsConsistent (run calls t)
unfolding run
run-IsConsistent [] t p a = a
run-IsConsistent ((now, c) ∷ calls) t p a =
    run-IsConsistent calls _ p.1 (apply-IsConsistent now c t p.0 a)
