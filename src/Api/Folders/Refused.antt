-- ===== src/Api/Folders/Refused.antt =====
-- What an answer of src/vision_bill/api/collections.py leaves behind, and which errors are caught.
pub mod Requests
use vision_bill.Api.Folders.{
  FolderAnswer, FolderReply, field_status, target_status, reply_row, reply_optional, reply_gone,
  reply_assigned, reply_unassigned, FolderRequest, create_folder, update_folder, delete_folder,
  activate_folder, deactivate_folder, assign_folder, unassign_folder, serve,
}
use vision_bill.Collections.{
  Collection, Collections, CollectionFault, blank_name, bad_color, bad_dates, name_conflict,
  not_found, Outcome, NewCollection, scoped, is_active_of, commit, update_scoped, write, update,
  get, exists, delete, create, set_active, activate_own, activate, deactivate, satisfies_index,
}
use vision_bill.Collections.Active.{
  row_of, HasUniqueIds, HasOneActive, HasOneActive-satisfies_index, only_active, activate_owned,
  create-HasOneActive,
}
use vision_bill.Collections.Links.{
  Shelves, Link, same_link, unassign, assign_receipt, unassign_receipt, delete_collection,
  is_visible,
}
use vision_bill.Collections.Scoped.{
  update_scoped-cases, any-row_of, filter-HasOneActive, filter-absent, filter-not-any,
}
use vision_bill.Collections.Service.{
  Change, validate, is_color, are_dates, after_check, create_collection, update_current,
  update_collection, found, activate_collection, deactivate_collection,
}
use vision_bill.Names.{is_empty, normalize_collection_name}
use vision_bill.Prelude.Keyed.{HasUniqueKeys}
use vision_bill.Prelude.Result.{Result, ok, err, ◌>>◌, guard}
use vision_bill.Prelude.{
  ℕ, ◌≤◌, ◌≡◌, ◌≢◌, ◌⊎◌, refl, ap, ◌∙◌, Bool, true, false, not, ◌&&◌, List, [], ◌∷◌, Option, none,
  some, inl, inr, arith, ◌==◌, Bool-cases, ==_iff, find?, any, filter, count, update_where, is_some,
  Text, if◌then◌else◌,
}
use vision_bill.Sessions.{User}

-- A success leaves at most one active collection for each user. A refusal leaves everything as it
-- was, and some handler answers it.
unfoldable pub IsAnswered : FolderReply → Shelves → Type 0
IsAnswered (ok answer, s') s = HasOneActive s'.collections
IsAnswered (err code, s') s = (s' ≡ s) × (code ≢ 500)

-- The same of an operation on the table whose errors have a status.
IsOutcomeOf : {A : Type 0} → (CollectionFault → ℕ) → Outcome A → Collections → Type 0
IsOutcomeOf status (ok a, t') t = HasOneActive t'
IsOutcomeOf status (err fault, t') t = (t' ≡ t) × (status fault ≢ 500)

-- A row that is not there leaves everything as it was.
IsOptionOf : (CollectionFault → ℕ) → Outcome (Option Collection) → Collections → Type 0
IsOptionOf status (ok none, t') t = t' ≡ t
IsOptionOf status (ok (some r), t') t = HasOneActive t'
IsOptionOf status (err fault, t') t = (t' ≡ t) × (status fault ≢ 500)

reply_row-IsAnswered :
    (status : CollectionFault → ℕ) (s : Shelves) (m : Outcome Collection)
    → IsOutcomeOf status m s.collections
    → IsAnswered (reply_row status s m) s
unfolding IsAnswered IsOutcomeOf
reply_row-IsAnswered status s (ok row, t) h = h
reply_row-IsAnswered status s (err e, t) (h, k) = (ap (λ c. record s { collections = c }) h, k)

reply_optional-IsAnswered :
    (status : CollectionFault → ℕ) (s : Shelves) (m : Outcome (Option Collection))
    → IsOptionOf status m s.collections
    → IsAnswered (reply_optional status s m) s
unfolding IsAnswered IsOptionOf
reply_optional-IsAnswered status s (ok (some row), t) h = h
reply_optional-IsAnswered status s (ok none, t) h =
    (ap (λ c. record s { collections = c }) h, λ q. omega (arith, q))
reply_optional-IsAnswered status s (err e, t) (h, k) = (ap (λ c. record s { collections = c }) h, k)

-- `NotFoundError` for a row that is not there.
found-IsOutcomeOf :
    (m : Outcome (Option Collection)) (t : Collections)
    → IsOptionOf target_status m t
    → IsOutcomeOf target_status (found m) t
unfolding IsOutcomeOf IsOptionOf
found-IsOutcomeOf (ok (some row), t') t h = h
found-IsOutcomeOf (ok none, t') t h = (h, λ q. omega (arith, q))
found-IsOutcomeOf (err e, t') t h = h

-- The checks of the fields fail with errors that are caught.
IsCaught : Result CollectionFault (Unit {0}) → Type 0
IsCaught (ok x) = Unit {0}
IsCaught (err fault) = field_status fault ≢ 500

guard-IsCaught :
    (test : Bool) (fault : CollectionFault) → field_status fault ≢ 500 → IsCaught (guard test fault)
unfolding IsCaught
guard-IsCaught true fault h = tt
guard-IsCaught false fault h = h

>>-IsCaught :
    (first next : Result CollectionFault (Unit {0}))
    → IsCaught first
    → IsCaught next
    → IsCaught (first >> next)
unfolding IsCaught
>>-IsCaught (ok x) next h k = k
>>-IsCaught (err e) next h k = h

validate-IsCaught :
    (name : Text) (color : Option Text) (start end_date : Option ℕ)
    → IsCaught (validate name color start end_date)
validate-IsCaught name color start end_date =
    >>-IsCaught (guard (not (is_empty name)) blank_name >> guard (is_color color) bad_color)
      (guard (are_dates start end_date) bad_dates)
      (>>-IsCaught (guard (not (is_empty name)) blank_name) (guard (is_color color) bad_color)
        (guard-IsCaught (not (is_empty name)) blank_name (λ q. omega (arith, q)))
        (guard-IsCaught (is_color color) bad_color (λ q. omega (arith, q))))
      (guard-IsCaught (are_dates start end_date) bad_dates (λ q. omega (arith, q)))

checked-IsCaught :
    (name : Text) (color : Option Text) (start end_date : Option ℕ) (test : Bool)
    → IsCaught (validate name color start end_date >> guard test name_conflict)
checked-IsCaught name color start end_date test =
    >>-IsCaught (validate name color start end_date) (guard test name_conflict)
      (validate-IsCaught name color start end_date)
      (guard-IsCaught test name_conflict (λ q. omega (arith, q)))

-- After a check, what is done counts.
after_check-IsOptionOf :
    (check : Result CollectionFault (Unit {0})) (t : Collections)
    (k : Unit {0} → Outcome (Option Collection))
    → IsCaught check
    → IsOptionOf field_status (k tt) t
    → IsOptionOf field_status (after_check check t k) t
unfolding IsCaught IsOptionOf
after_check-IsOptionOf (ok x) t k h h' = h'
after_check-IsOptionOf (err e) t k h h' = (refl, h)

after_check-IsOutcomeOf :
    (check : Result CollectionFault (Unit {0})) (t : Collections)
    (k : Unit {0} → Outcome Collection)
    → IsCaught check
    → IsOutcomeOf field_status (k tt) t
    → IsOutcomeOf field_status (after_check check t k) t
unfolding IsCaught IsOutcomeOf
after_check-IsOutcomeOf (ok x) t k h h' = h'
after_check-IsOutcomeOf (err e) t k h h' = (refl, h)
