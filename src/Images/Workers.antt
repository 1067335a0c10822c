-- ===== src/Images/Workers.antt =====
-- Several workers on one queue: the scheduler's cycle, the request that analyses its own upload,
-- other processes. Each claims an image, works on it and marks it; in between the others act and
-- time passes. A worker lets go of an image within `hold_limit` of its claim, as the extraction
-- deadline of src/vision_bill/config.py (at most 600 seconds) is meant to ensure.
pub mod Exclusion
mod Tests
use vision_bill.Images.{
  ImageRow, Images, ImageStatus, pending, processing, NewImage, lease, claimable, claim_row, claims,
  has_id, claim_for_analysis, mark_analyzed, mark_failed, mark_terminal, store_image, delete_image,
}
use vision_bill.Images.Lease.{
  HasUniqueIds, row_of, claim_taken, claim_free, claim_others, claim-HasUniqueIds,
}
use vision_bill.Prelude.Keyed.{
  HasUniqueKeys, keyed, find?-update_where_ne, HasUniqueKeys-update_where,
}
use vision_bill.Prelude.{
  or_same, ℕ, ◌+◌, ◌≤◌, ◌≡◌, ◌≢◌, refl, Bool, true, false, not, List, [], ◌∷◌, Option, none, some,
  arith, filter, find?, All, ◌==◌, Text,
}

pub record Hold : Type 0 where
  pub worker : ℕ
  pub image : ℕ
  pub since : ℕ

pub record System : Type 0 where
  pub now : ℕ
  pub images : Images
  pub holds : List Hold

-- How a worker ends its work on an image.
pub data Ending : Type 0 where
  success : ℕ → Ending
  failure : Text → Ending
  terminal : ImageStatus → Text → Ending

pub end_work : ℕ → ℕ → Ending → Images → Images
end_work now id (success receipt_id) t = mark_analyzed now id receipt_id t
end_work now id (failure error) t = mark_failed id error t
end_work now id (terminal status error) t = or_same t (mark_terminal id status error t)

-- One step of the system. `hold_limit` bounds how long a worker keeps an image.
pub data Step (hold_limit : ℕ) (s u : System) : Type 0 where
  store :
      (id : ℕ) (n : NewImage)
      → row_of id s.images ≡ none
      → find? (keyed (λ (h : Hold). h.image) id) s.holds ≡ none
      → u ≡ record s { images = (store_image id s.now n s.images).1 }
      → Step hold_limit s u
  claim :
      (worker id : ℕ) (r : ImageRow)
      → (claim_for_analysis s.now id s.images).0 ≡ some r
      → u ≡ record s {
        images = (claim_for_analysis s.now id s.images).1;
        holds = record { worker = worker; image = id; since = s.now } ∷ s.holds;
      }
      → Step hold_limit s u
  finish :
      (id : ℕ) (how : Ending)
      → u ≡ record s {
        images = end_work s.now id how s.images;
        holds = filter (λ h. not (keyed (λ (h : Hold). h.image) id h)) s.holds;
      }
      → Step hold_limit s u
  remove : (id : ℕ) → u ≡ record s { images = delete_image id s.images } → Step hold_limit s u
  wait :
      (d : ℕ)
      → All (λ h. s.now + d ≤ h.since + hold_limit) s.holds
      → u ≡ record s { now = s.now + d }
      → Step hold_limit s u

pub data Reach (hold_limit : ℕ) (s : System) : System → Type 0 where
  here : Reach hold_limit s s
  next : {t u : System} → Reach hold_limit s t → Step hold_limit t u → Reach hold_limit s u

-- A hold is backed by the row: while the row exists it is `processing` since the hold began.
abbrev IsBacked : ℕ → Images → Hold → Type 0
IsBacked now t h =
    (now ≤ h.since + lease)
    × ((r : ImageRow)
        → row_of h.image t ≡ some r
        → (r.status ≡ processing) × (r.processing_at ≡ some h.since))

pub record IsSafe (s : System) : Type 0 where
  pub unique_ids : HasUniqueIds s.images
  pub exclusive : HasUniqueKeys (λ (h : Hold). h.image) s.holds
  pub backed : All (IsBacked s.now s.images) s.holds
