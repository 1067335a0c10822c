-- ===== src/Api/Folders.antt =====
-- The handlers of collections in src/vision_bill/api/collections.py. A request comes with its checked
-- body; 500 stands for an exception that no handler catches.
pub mod Refused
use vision_bill.Collections.{
  Collection, Collections, CollectionFault, blank_name, bad_color, bad_dates, name_conflict,
  not_found, violates_index, NewCollection, Outcome, active_collection,
}
use vision_bill.Collections.Links.{Shelves, assign_receipt, unassign_receipt, delete_collection}
use vision_bill.Collections.Service.{
  Change, create_collection, update_collection, activate_collection, deactivate_collection,
}
use vision_bill.Prelude.{ℕ, Bool, true, false, Option, none, some, if◌then◌else◌, Text}
use vision_bill.Prelude.Result.{Result, ok, err}
use vision_bill.Sessions.{User}

-- What a handler answers: a row, or nothing but its success.
pub data FolderAnswer : Type 0 where
  folder : Collection → FolderAnswer
  assigned no_content : FolderAnswer

abbrev pub FolderReply : Type 0
FolderReply = Result ℕ FolderAnswer × Shelves

-- The errors that the handlers of a name and its fields catch.
abbrev pub field_status : CollectionFault → ℕ
field_status blank_name = 422
field_status bad_color = 422
field_status bad_dates = 422
field_status name_conflict = 409
field_status not_found = 500
field_status violates_index = 500

-- The others catch NotFoundError only.
abbrev pub target_status : CollectionFault → ℕ
target_status not_found = 404
target_status _ = 500

abbrev pub reply_row : (CollectionFault → ℕ) → Shelves → Outcome Collection → FolderReply
reply_row status s (err fault, t) = (err (status fault), record s { collections = t })
reply_row status s (ok row, t) = (ok (folder row), record s { collections = t })

abbrev pub reply_optional :
    (CollectionFault → ℕ) → Shelves → Outcome (Option Collection) → FolderReply
reply_optional status s (err fault, t) = (err (status fault), record s { collections = t })
reply_optional status s (ok none, t) = (err 404, record s { collections = t })
reply_optional status s (ok (some row), t) = (ok (folder row), record s { collections = t })

-- A body without a row is a 404.
abbrev pub reply_gone : Bool × Shelves → FolderReply
reply_gone (true, s) = (ok no_content, s)
reply_gone (false, s) = (err 404, s)

abbrev pub reply_assigned : Result CollectionFault (Unit {0}) × Shelves → FolderReply
reply_assigned (err fault, s) = (err (target_status fault), s)
reply_assigned (ok done, s) = (ok assigned, s)

abbrev pub reply_unassigned : Result CollectionFault Bool × Shelves → FolderReply
reply_unassigned (err fault, s) = (err (target_status fault), s)
reply_unassigned (ok gone, s) = reply_gone (gone, s)

-- Each handler first asks for the database.
abbrev pub if_ready : Bool → Shelves → FolderReply → FolderReply
if_ready true s reply = reply
if_ready false s reply = (err 503, s)

abbrev pub create_answer : (ℕ → Text) → Bool → User → ℕ → ℕ → NewCollection → Shelves → FolderReply
create_answer lower is_ready user id now body s =
    if_ready is_ready s
      (reply_row field_status s (create_collection lower id now body user.id s.collections))

abbrev pub update_answer : (ℕ → Text) → Bool → User → ℕ → Change → Shelves → FolderReply
update_answer lower is_ready user id body s = if_ready is_ready s (
    reply_optional field_status s
      (update_collection lower id body (some user.id) user.can_see_all s.collections))

abbrev pub delete_answer : Bool → User → ℕ → Shelves → FolderReply
delete_answer is_ready user id s =
    if_ready is_ready s (reply_gone (delete_collection id (some user.id) user.can_see_all s))

abbrev pub assign_answer : Bool → User → ℕ → ℕ → Shelves → FolderReply
assign_answer is_ready user id receipt s =
    if_ready is_ready s
      (reply_assigned (assign_receipt id receipt (some user.id) user.can_see_all s))

abbrev pub unassign_answer : Bool → User → ℕ → ℕ → Shelves → FolderReply
unassign_answer is_ready user id receipt s =
    if_ready is_ready s
      (reply_unassigned (unassign_receipt id receipt (some user.id) user.can_see_all s))

abbrev pub activate_answer : Bool → User → ℕ → Shelves → FolderReply
activate_answer is_ready user id s = if_ready is_ready s (
    reply_row target_status s
      (activate_collection id (some user.id) user.can_see_all s.collections))

abbrev pub deactivate_answer : Bool → User → ℕ → Shelves → FolderReply
deactivate_answer is_ready user id s = if_ready is_ready s (
    reply_row target_status s
      (deactivate_collection id (some user.id) user.can_see_all s.collections))

-- `get_active_collection`
unfoldable pub get_active : Bool → User → Shelves → Result ℕ FolderAnswer
get_active is_ready user s =
    if is_ready
    then shown (active_collection (some user.id) user.can_see_all s.collections)
    else err 503
  where
    shown : Option Collection → Result ℕ FolderAnswer
    shown none = ok no_content
    shown (some row) = ok (folder row)

-- The requests that change something, with the id and the time of a new row.
pub data FolderRequest : Type 0 where
  create_folder : ℕ → ℕ → NewCollection → FolderRequest
  update_folder : ℕ → Change → FolderRequest
  delete_folder activate_folder deactivate_folder : ℕ → FolderRequest
  assign_folder unassign_folder : ℕ → ℕ → FolderRequest

unfoldable pub serve : (ℕ → Text) → Bool → User → FolderRequest → Shelves → FolderReply
serve lower is_ready user (create_folder id now body) =
    create_answer lower is_ready user id now body
serve lower is_ready user (update_folder id body) = update_answer lower is_ready user id body
serve lower is_ready user (delete_folder id) = delete_answer is_ready user id
serve lower is_ready user (assign_folder id receipt) = assign_answer is_ready user id receipt
serve lower is_ready user (unassign_folder id receipt) = unassign_answer is_ready user id receipt
serve lower is_ready user (activate_folder id) = activate_answer is_ready user id
serve lower is_ready user (deactivate_folder id) = deactivate_answer is_ready user id
