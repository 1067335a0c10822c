-- ===== src/Images/Queue.antt =====
-- The queue that the worker drains: `list_pending_images`.
use mathlib.Core.List.{Memᴰ}
use vision_bill.Images.{
  ImageStatus, pending, processing, analyzed, failed, timed_out, unreadable, ImageRow, Images,
  is_claimable, claimable, oldest_first, list_pending_images,
}
use vision_bill.Prelude.Members.{Mem-sort_by, Mem-filter, Mem-All, All-Mem}
use vision_bill.Prelude.Sorting.{
  IsOrdered, All-impl, sort_by-IsOrdered, count-sort_by, count-filter, All-sort_by,
}
use vision_bill.Prelude.{
  ℕ, ◌+◌, ◌*◌, ◌<◌, ◌≤◌, ◌≡◌, ◌⊎◌, ◌↔◌, inl, inr, refl, Bool, true, false, ◌&&◌, ◌∙◌, arith, List,
  [], ◌∷◌, Option, none, some, filter, count, All, All-filter, filter-holds,
}

-- Nobody works on an image that never started, or started more than 15 minutes ago.
IsLapsed : ℕ → Option ℕ → Type 0
IsLapsed now none = Unit
IsLapsed now (some since) = since + 15 * 60 * 1_000_000 < now

-- An image waits that is new, that failed, or that a worker took and lost.
pub IsWaiting : ℕ → ImageRow → Type 0
IsWaiting now r =
    (r.status ≡ pending)
    ⊎ (r.status ≡ failed)
    ⊎ ((r.status ≡ processing) × IsLapsed now r.processing_at)

-- An image is in front of those uploaded later, and among those of one time of larger ids.
IsInFront : ImageRow → ImageRow → Type 0
IsInFront r s = (r.created_at < s.created_at) ⊎ ((r.created_at ≡ s.created_at) × (r.id ≤ s.id))

pub IsInLine : List ImageRow → Type 0
IsInLine [] = Unit
IsInLine (r ∷ rs) = All (IsInFront r) rs × IsInLine rs

oldest_first_total : (r s : ImageRow) → oldest_first r s ≡ false → oldest_first s r ≡ true
oldest_first_total r s h = ground arith

oldest_first_trans :
    (r s u : ImageRow) → oldest_first r s ≡ true → oldest_first s u ≡ true → oldest_first r u ≡ true
oldest_first_trans r s u h k = ground arith

oldest_first-IsInFront : (r s : ImageRow) → oldest_first r s ≡ true → IsInFront r s
unfolding IsInFront
oldest_first-IsInFront r s h = ground arith

IsOrdered-IsInLine : (rs : List ImageRow) → IsOrdered oldest_first rs → IsInLine rs
unfolding IsInLine
IsOrdered-IsInLine [] o = tt
IsOrdered-IsInLine (r ∷ rs) o =
    (All-impl _ (IsInFront r) rs (oldest_first-IsInFront r) o.0, IsOrdered-IsInLine rs o.1)

claimable-IsWaiting :
    (now : ℕ) (status : ImageStatus) (since : Option ℕ)
    → is_claimable now status since ≡ true
    → (status ≡ pending) ⊎ (status ≡ failed) ⊎ ((status ≡ processing) × IsLapsed now since)
unfolding IsLapsed
claimable-IsWaiting now pending since h = inl refl
claimable-IsWaiting now failed since h = inr (inl refl)
claimable-IsWaiting now processing none h = inr (inr (refl, tt))
claimable-IsWaiting now processing (some at) h = inr (inr (refl, ground arith))
claimable-IsWaiting now analyzed since h = absurd (cc)
claimable-IsWaiting now timed_out since h = absurd (cc)
claimable-IsWaiting now unreadable since h = absurd (cc)

IsWaiting-claimable : (now : ℕ) (r : ImageRow) → IsWaiting now r → claimable now r ≡ true
unfolding IsWaiting IsLapsed
IsWaiting-claimable now r (inl e) = rw e refl
IsWaiting-claimable now r (inr (inl e)) = rw e refl
IsWaiting-claimable now r (inr (inr (e, h))) = rw e (lapsed r.processing_at h)
  where
    lapsed : (since : Option ℕ) → IsLapsed now since → is_claimable now processing since ≡ true
    lapsed none h = refl
    lapsed (some at) h = ground arith

-- The queue is in line, the image of the earliest upload first and of one time the one with the
-- smaller id; an image is in it exactly if it is in the table and waits: it is new, has failed, or
-- was taken by a worker more than 15 minutes ago; and it is in it at most as often.
pub list_pending_images_lem :
    (now : ℕ) (t : Images) (r : ImageRow) (p : ImageRow → Bool)
    → IsInLine (list_pending_images now t)
      × (Memᴰ r (list_pending_images now t) ↔ (Memᴰ r t × IsWaiting now r))
      × (count p (list_pending_images now t) ≤ count p t)
unfolding list_pending_images IsWaiting
list_pending_images_lem now t r p = (
  IsOrdered-IsInLine _ (
      sort_by-IsOrdered oldest_first oldest_first_total oldest_first_trans
        (filter (claimable now) t)),
  (
    (λ m. (
      Mem-All (λ x. Memᴰ x t) r _
          (All-sort_by (λ x. Memᴰ x t) oldest_first _
            (All-filter (λ x. Memᴰ x t) (claimable now) t (All-Mem t t (λ a k. k))))
          m,
      claimable-IsWaiting now r.status r.processing_at (
          Mem-All (λ x. claimable now x ≡ true) r _
            (All-sort_by _ oldest_first _ (filter-holds (claimable now) t)) m),
    )),
    λ (m, w).
        Mem-sort_by oldest_first r _
          (Mem-filter (claimable now) r t (IsWaiting-claimable now r w) m),
  ),
  omega (
    arith,
    count-sort_by p oldest_first (filter (claimable now) t) ∙ count-filter p (claimable now) t,
    fewer t,
  ),
)
  where
    fewer : (t : Images) → count (λ r. claimable now r && p r) t ≤ count p t
    fewer [] = omega arith
    fewer (x ∷ t) = let ih = fewer t in ground arith
