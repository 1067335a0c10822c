-- ===== src/Api.antt =====
-- The HTTP handlers that change state (src/vision_bill/api): their checks, the calls of the services in
-- their order, and the status codes.
pub mod Uploads
pub mod ImageFiles
pub mod Corrections
pub mod Folders
mod Tests
use vision_bill.Prelude.{ℕ}

-- A refused request, by its status code.
pub data HttpError : Type 0 where
  http_error : ℕ → HttpError
