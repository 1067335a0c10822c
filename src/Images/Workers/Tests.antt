-- ===== src/Images/Workers/Tests.antt =====
-- A run of two workers on one image.
use vision_bill.Images.{ImageRow, pending, claim_row, claim_for_analysis}
use vision_bill.Images.Workers.{System, claim, wait, Reach, here, next, IsSafe}
use vision_bill.Images.Workers.Exclusion.{Reach-IsSafe}
use vision_bill.Prelude.{ℕ, ◌+◌, refl, false, [], ◌∷◌, none, some, arith, codes}

abbrev image : ImageRow
image = record {
  id = 7;
  original_filename = none;
  media_type = none;
  size_bytes = none;
  image_path = some (codes "tmp/b.png");
  thumbnail_path = none;
  status = pending;
  error = none;
  receipt_id = none;
  bypass_review = false;
  user_id = none;
  created_at = 1;
  analyzed_at = none;
  processing_at = none;
  additional_images = [];
  model_id = none;
}

-- Ten minutes.
abbrev deadline : ℕ
deadline = 600_000_000

abbrev start : System
start = record { now = 50; images = image ∷ []; holds = [] }

-- Worker 1 has claimed the image and works on it for a while.
abbrev claimed : System
claimed = record {
  now = 50;
  images = claim_row 50 image ∷ [];
  holds = record { worker = 1; image = 7; since = 50 } ∷ [];
}

abbrev later : System
later = record claimed { now = 50 + deadline }

two_steps : Reach deadline start later
unfolding claim_for_analysis
two_steps =
    next (next here (claim 1 7 (claim_row 50 image) refl refl))
      (wait deadline (omega arith, tt) refl)

Reach-IsSafe_example : IsSafe later
Reach-IsSafe_example =
    Reach-IsSafe deadline (omega arith)
      (record { unique_ids = (refl, tt); exclusive = tt; backed = tt }) two_steps
