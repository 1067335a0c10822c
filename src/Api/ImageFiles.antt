-- ===== src/Api/ImageFiles.antt =====
-- The handlers of stored images in src/vision_bill/api/images.py. `is_file` says which paths are
-- files.
use vision_bill.Images.{
  ImageRow, Images, ImagePart, ImageStatus, pending, failed, timed_out, unreadable, status_eq,
  parts, get_image_by_id, delete_image,
}
use vision_bill.Names.{is_empty}
use vision_bill.Sessions.{User}
use vision_bill.Prelude.{
  ℕ, Bool, not, List, [], ◌∷◌, map, Option, none, some, or_same, if◌then◌else◌, Text, codes, filter,
  any, get_elem?,
}
use vision_bill.Prelude.Result.{Result, ok, err, ◌>>=◌, ◌>>◌, guard}

-- An answer, or the status code of an error.
abbrev pub found_or {ℓ} : {A : Type ℓ} → ℕ → Option A → Result ℕ A
found_or code none = err code
found_or code (some a) = ok a

unfoldable pub get_image : Bool → User → ℕ → Images → Result ℕ ImageRow
get_image is_ready user id t =
    guard is_ready 503 >> found_or 404 (get_image_by_id id (some user.id) user.can_see_all t)

abbrev pub path_of : Option Text → Result ℕ Text
path_of none = err 404
path_of (some []) = err 404
path_of (some (c ∷ path)) = ok (c ∷ path)

-- The path and the media type of one photo of a submission.
unfoldable pub get_image_file :
    (Text → Bool) → Bool → User → ℕ → ℕ → Images → Result ℕ (Text × Text)
get_image_file is_file is_ready user id part t = get_image is_ready user id t >>= λ image.
    path_of image.image_path >>= λ path. found_or 404 (get_elem? (parts image) part) >>= λ source.
    guard (is_file source.image_path) 404
    >> ok (source.image_path, or_same (codes "application/octet-stream") source.media_type)

unfoldable pub get_image_thumb : (Text → Bool) → Bool → User → ℕ → Images → Result ℕ Text
get_image_thumb is_file is_ready user id t = get_image is_ready user id t >>= λ image.
    path_of image.thumbnail_path >>= λ path. guard (is_file path) 404 >> ok path

abbrev pub is_deletable : ImageStatus → Bool
is_deletable status = any (status_eq status) (pending ∷ failed ∷ timed_out ∷ unreadable ∷ [])

-- The files that are deleted with the row.
abbrev pub files_of : ImageRow → List Text
files_of image =
    filter (λ path. not (is_empty path)) (map (λ (p : ImagePart). p.image_path) (parts image))

unfoldable pub remove_image : Bool → User → ℕ → Images → Result ℕ (List Text) × Images
remove_image is_ready user id t = removed (get_image is_ready user id t)
  where
    removed : Result ℕ ImageRow → Result ℕ (List Text) × Images
    removed (err code) = (err code, t)
    removed (ok image) =
        if is_deletable image.status then (ok (files_of image), delete_image id t) else (err 409, t)
