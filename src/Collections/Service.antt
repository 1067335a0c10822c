-- ===== src/Collections/Service.antt =====
-- The operations of src/vision_bill/service/collection_service.py on the table. `lower` is the
-- case mapping of PostgreSQL.
use vision_bill.Collections.{
  Collection, Collections, CollectionFault, blank_name, bad_color, bad_dates, name_conflict,
  not_found, Outcome, NewCollection, find_by_name, create, get, update, activate, deactivate,
}
use vision_bill.Names.{normalize_collection_name, is_valid_hex_color, is_empty}
use vision_bill.Prelude.{
  ℕ, Bool, true, false, not, ◌||◌, Option, none, some, leb, ◌==◌, Text, or_same, is_some,
}
use vision_bill.Prelude.Result.{Result, ok, err, ◌>>◌, guard}

-- `color is None or is_valid_hex_color(color)`
abbrev pub is_color : Option Text → Bool
is_color none = true
is_color (some c) = is_valid_hex_color c

-- `_validate_dates`
unfoldable pub are_dates : Option ℕ → Option ℕ → Bool
are_dates (some start) (some end_date) = leb start end_date
are_dates _ _ = true

-- The checks of a name, a colour and the dates, in their order.
abbrev pub validate : Text → Option Text → Option ℕ → Option ℕ → Result CollectionFault (Unit {0})
validate name color start end_date =
    guard (not (is_empty name)) blank_name
    >> guard (is_color color) bad_color
    >> guard (are_dates start end_date) bad_dates

-- What follows a check: its error leaves the table alone.
abbrev pub after_check {ℓ κ} :
    {A : Type ℓ} {B : Type κ} → Result CollectionFault A → Collections → (A → Outcome B) → Outcome B
after_check (ok a) t k = k a
after_check (err e) t k = (err e, t)

unfoldable pub create_collection :
    (ℕ → Text) → ℕ → ℕ → NewCollection → ℕ → Collections → Outcome Collection
create_collection lower id now body user t =
    let name = normalize_collection_name body.name in
    after_check
      (validate name body.color body.start_date body.end_date
        >> guard (not (is_some (find_by_name lower user name t))) name_conflict)
      t (λ _. create id now user (record body { name = name }) t)

-- The fields of a request to change a collection.
pub record Change : Type 0 where
  pub name : Option Text
  pub color : Option Text
  pub start_date : Option ℕ
  pub end_date : Option ℕ

abbrev pub new_name : Change → Collection → Text
new_name body current = or_name body.name
  where
    or_name : Option Text → Text
    or_name none = current.name
    or_name (some raw) = normalize_collection_name raw

abbrev pub or_else {ℓ} : {A : Type ℓ} → Option A → Option A → Option A
or_else none o = o
or_else (some a) o = some a

-- `user_id if user_id is not None else UUID(int=0)`
abbrev pub caller_or_zero : Option ℕ → ℕ
caller_or_zero o = or_same 0 o

abbrev pub is_other : ℕ → Option Collection → Bool
is_other id none = false
is_other id (some r) = not (r.id == id)

abbrev pub update_current :
    (ℕ → Text)
    → ℕ
    → Change
    → Option ℕ
    → Bool
    → Option Collection
    → Collections
    → Outcome (Option Collection)
update_current lower id body user_id can_see_all none t = (ok none, t)
update_current lower id body user_id can_see_all (some current) t =
    let name = new_name body current in
    let color = or_else body.color current.color in
    let start = or_else body.start_date current.start_date in
    let end_date = or_else body.end_date current.end_date in
    after_check
      (validate name color start end_date
        >> guard
            (not (is_some body.name)
              || not (is_other id (find_by_name lower (caller_or_zero user_id) name t)))
            name_conflict)
      t (λ _. update id user_id can_see_all name color start end_date t)

unfoldable pub update_collection :
    (ℕ → Text) → ℕ → Change → Option ℕ → Bool → Collections → Outcome (Option Collection)
update_collection lower id body user_id can_see_all t =
    update_current lower id body user_id can_see_all (get id user_id can_see_all t) t

-- `if result is None: raise NotFoundError`
abbrev pub found : Outcome (Option Collection) → Outcome Collection
found (ok none, t) = (err not_found, t)
found (ok (some r), t) = (ok r, t)
found (err e, t) = (err e, t)

unfoldable pub activate_collection : ℕ → Option ℕ → Bool → Collections → Outcome Collection
activate_collection id user_id can_see_all t = found (activate id user_id can_see_all t)

unfoldable pub deactivate_collection : ℕ → Option ℕ → Bool → Collections → Outcome Collection
deactivate_collection id user_id can_see_all t = found (deactivate id user_id can_see_all t)
