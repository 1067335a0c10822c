-- ===== src/Images.antt =====
-- The images table and its queue (src/vision_bill/model/db/image.py and
-- src/vision_bill/provider/db/image_db.py). The table is the list of its rows; ids and times come
-- from the database and are arguments. Times are in microseconds, as PostgreSQL stores them.
pub mod Lease
pub mod Queue
pub mod Workflow
pub mod Workers
mod Tests
use vision_bill.Access.{in_scope}
use vision_bill.Prelude.{
  ℕ, ◌+◌, ◌*◌, Bool, true, false, not, ◌&&◌, ◌||◌, List, [], ◌∷◌, ◌++◌, Option, none, some, ltb,
  leb, ◌==◌, if◌then◌else◌, Text, filter, find?, any, update_where, sort_by, take, drop,
}

-- The values that the CHECK constraint of the column allows.
pub data ImageStatus : Type 0 where
  pending processing analyzed failed timed_out unreadable : ImageStatus

abbrev pub status_eq : ImageStatus → ImageStatus → Bool
status_eq pending pending = true
status_eq processing processing = true
status_eq analyzed analyzed = true
status_eq failed failed = true
status_eq timed_out timed_out = true
status_eq unreadable unreadable = true
status_eq _ _ = false

pub record ImagePart : Type 0 where
  pub image_path : Text
  pub thumbnail_path : Option Text
  pub original_filename : Option Text
  pub media_type : Option Text
  pub size_bytes : Option ℕ

pub record ImageRow : Type 0 where
  pub id : ℕ
  pub original_filename : Option Text
  pub media_type : Option Text
  pub size_bytes : Option ℕ
  pub image_path : Option Text
  pub thumbnail_path : Option Text
  pub status : ImageStatus
  pub error : Option Text
  pub receipt_id : Option ℕ
  pub bypass_review : Bool
  pub user_id : Option ℕ
  pub created_at : ℕ
  pub analyzed_at : Option ℕ
  pub processing_at : Option ℕ
  pub additional_images : List ImagePart
  pub model_id : Option Text

abbrev pub Images : Type 0
Images = List ImageRow

-- `self.image_path or ""`
abbrev pub text_or_empty : Option Text → Text
text_or_empty none = []
text_or_empty (some t) = t

-- The primary image followed by the additional photos.
unfoldable pub parts : ImageRow → List ImagePart
parts r =
    record {
      image_path = text_or_empty r.image_path;
      thumbnail_path = r.thumbnail_path;
      original_filename = r.original_filename;
      media_type = r.media_type;
      size_bytes = r.size_bytes;
    }
    ∷ r.additional_images

-- INTERVAL '15 minutes'
abbrev pub lease : ℕ
lease = 900_000_000

-- `processing_at IS NULL OR processing_at < CURRENT_TIMESTAMP - INTERVAL '15 minutes'`
abbrev pub is_expired : ℕ → Option ℕ → Bool
is_expired now none = true
is_expired now (some since) = ltb (since + lease) now

-- The WHERE clause that LIST_PENDING_IMAGES_SQL and CLAIM_IMAGE_SQL share.
abbrev pub is_claimable : ℕ → ImageStatus → Option ℕ → Bool
is_claimable now pending since = true
is_claimable now failed since = true
is_claimable now processing since = is_expired now since
is_claimable now _ since = false

abbrev pub claimable : ℕ → ImageRow → Bool
claimable now r = is_claimable now r.status r.processing_at

-- ORDER BY created_at ASC, id ASC
abbrev pub oldest_first : ImageRow → ImageRow → Bool
oldest_first r s = ltb r.created_at s.created_at || r.created_at == s.created_at && leb r.id s.id

-- ORDER BY created_at DESC, id DESC
abbrev pub newest_first : ImageRow → ImageRow → Bool
newest_first r s = oldest_first s r

unfoldable pub list_pending_images : ℕ → Images → List ImageRow
list_pending_images now t = sort_by oldest_first (filter (claimable now) t)

-- What the UPDATE of CLAIM_IMAGE_SQL writes.
abbrev pub claim_row : ℕ → ImageRow → ImageRow
claim_row now r = record r { status = processing; error = none; processing_at = some now }

abbrev pub claims : ℕ → ℕ → ImageRow → Bool
claims now id r = r.id == id && claimable now r

abbrev pub claimed_row : ℕ → Option ImageRow → Option ImageRow
claimed_row now none = none
claimed_row now (some r) = some (claim_row now r)

-- UPDATE … RETURNING *: the row as it stands after the update.
unfoldable pub claim_for_analysis : ℕ → ℕ → Images → Option ImageRow × Images
claim_for_analysis now id t =
    (claimed_row now (find? (claims now id) t), update_where (claims now id) (claim_row now) t)

abbrev pub has_id : ℕ → ImageRow → Bool
has_id id r = r.id == id

unfoldable pub mark_analyzed : ℕ → ℕ → ℕ → Images → Images
mark_analyzed now id receipt_id = update_where (has_id id) (λ r. record r {
  status = analyzed;
  error = none;
  receipt_id = some receipt_id;
  analyzed_at = some now;
  processing_at = none;
})

unfoldable pub mark_failed : ℕ → Text → Images → Images
mark_failed id error =
    update_where (has_id id)
      (λ r. record r { status = failed; error = some error; processing_at = none })

abbrev pub is_terminal : ImageStatus → Bool
is_terminal timed_out = true
is_terminal unreadable = true
is_terminal _ = false

-- `none` is the ValueError for a status that is not terminal.
unfoldable pub mark_terminal : ℕ → ImageStatus → Text → Images → Option Images
mark_terminal id status error t =
    if is_terminal status
    then some (
        update_where (has_id id)
          (λ r. record r { status = status; error = some error; processing_at = none }) t)
    else none

unfoldable pub update_image_path : ℕ → Text → Images → Images
update_image_path id path = update_where (has_id id) (λ r. record r { image_path = some path })

unfoldable pub update_image_thumbnail_path : ℕ → Text → Images → Images
update_image_thumbnail_path id path =
    update_where (has_id id) (λ r. record r { thumbnail_path = some path })

unfoldable pub update_additional_images : ℕ → List ImagePart → Images → Images
update_additional_images id images =
    update_where (has_id id) (λ r. record r { additional_images = images })

unfoldable pub delete_image : ℕ → Images → Images
delete_image id = filter (λ r. not (has_id id r))

-- The arguments of `store_image`.
pub record NewImage : Type 0 where
  pub image_path : Text
  pub original_filename : Option Text
  pub media_type : Option Text
  pub size_bytes : Option ℕ
  pub status : ImageStatus
  pub user_id : Option ℕ
  pub bypass_review : Bool
  pub thumbnail_path : Option Text
  pub additional_images : List ImagePart
  pub model_id : Option Text

-- The row that the INSERT returns; `id` and `now` are the defaults of the columns.
unfoldable pub new_row : ℕ → ℕ → NewImage → ImageRow
new_row id now n = record {
  id = id;
  original_filename = n.original_filename;
  media_type = n.media_type;
  size_bytes = n.size_bytes;
  image_path = some n.image_path;
  thumbnail_path = n.thumbnail_path;
  status = n.status;
  error = none;
  receipt_id = none;
  bypass_review = n.bypass_review;
  user_id = n.user_id;
  created_at = now;
  analyzed_at = none;
  processing_at = none;
  additional_images = n.additional_images;
  model_id = n.model_id;
}

unfoldable pub store_image : ℕ → ℕ → NewImage → Images → ImageRow × Images
store_image id now n t = let row = new_row id now n in (row, t ++ row ∷ [])

unfoldable pub get_image_by_id : ℕ → Option ℕ → Bool → Images → Option ImageRow
get_image_by_id id user_id can_see_all =
    find? (λ r. r.id == id && in_scope user_id can_see_all r.user_id)

-- `status = ANY(…)`, added only for a non-empty list.
abbrev pub status_matches : List ImageStatus → ImageStatus → Bool
status_matches [] s = true
status_matches (w ∷ ws) s = any (status_eq s) (w ∷ ws)

unfoldable pub list_images : List ImageStatus → ℕ → ℕ → Option ℕ → Bool → Images → List ImageRow
list_images wanted limit offset user_id can_see_all t = take limit (
    drop offset (
      sort_by newest_first
        (filter (λ r. in_scope user_id can_see_all r.user_id && status_matches wanted r.status) t)))
