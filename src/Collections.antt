-- ===== src/Collections.antt =====
-- The collections table (src/vision_bill/provider/db/collection_db.py), the validation in front of
-- it (src/vision_bill/service/collection_service.py) and the links to receipts. Ids and times come
-- from the database and are arguments; a date is its day number.
pub mod Active
pub mod Scoped
pub mod Refusal
pub mod Named
pub mod Renamed
pub mod Service
pub mod Links
mod Tests
use vision_bill.Access.{in_scope}
use vision_bill.Prelude.{
  ℕ, ◌+◌, Bool, true, false, not, ◌&&◌, ◌||◌, List, [], ◌∷◌, ◌++◌, Option, none, some, leb, ◌==◌,
  if◌then◌else◌, Text, text_eq, filter, find?, any, all, count, update_where, is_some,
}
use vision_bill.Prelude.Result.{Result, ok, err}
use vision_bill.Names.{recase}

pub record Collection : Type 0 where
  pub id : ℕ
  pub user_id : ℕ
  pub name : Text
  pub color : Option Text
  pub start_date : Option ℕ
  pub end_date : Option ℕ
  pub active : Bool
  pub created_at : ℕ

abbrev pub Collections : Type 0
Collections = List Collection

-- What the service and the database raise.
pub data CollectionFault : Type 0 where
  blank_name bad_color bad_dates name_conflict not_found violates_index : CollectionFault

-- A statement answers or fails, and leaves a table.
abbrev pub Outcome {ℓ} : Type ℓ → Type ℓ
Outcome A = Result CollectionFault A × Collections

-- Rows with an id that the caller may see.
abbrev pub scoped : ℕ → Option ℕ → Bool → Collection → Bool
scoped id user_id can_see_all r = r.id == id && in_scope user_id can_see_all (some r.user_id)

abbrev pub is_active_of : ℕ → Collection → Bool
is_active_of user r = r.active && r.user_id == user

-- ux_collections_one_active_per_user ON collections (user_id) WHERE active = TRUE
unfoldable pub satisfies_index : Collections → Bool
satisfies_index t = all (λ r. leb (count (is_active_of r.user_id) t) 1) t

-- A statement that would break the index fails and leaves the table as it was.
abbrev pub commit {ℓ} : {A : Type ℓ} → A → Collections → Collections → Outcome A
commit a before after =
    if satisfies_index after then (ok a, after) else (err violates_index, before)

-- ACTIVATE_DEACTIVATE_SIBLINGS_SQL
unfoldable pub deactivate_siblings : ℕ → Collections → Collections
deactivate_siblings user = update_where (λ r. r.user_id == user) (λ r. record r { active = false })

-- The columns of an INSERT.
pub record NewCollection : Type 0 where
  pub name : Text
  pub color : Option Text
  pub start_date : Option ℕ
  pub end_date : Option ℕ
  pub active : Bool

abbrev pub new_collection : ℕ → ℕ → ℕ → NewCollection → Collection
new_collection id now user n = record {
  id = id;
  user_id = user;
  name = n.name;
  color = n.color;
  start_date = n.start_date;
  end_date = n.end_date;
  active = n.active;
  created_at = now;
}

-- `if active: …`
abbrev pub cleared : Bool → ℕ → Collections → Collections
cleared true user t = deactivate_siblings user t
cleared false user t = t

-- The two statements are committed one by one.
unfoldable pub create : ℕ → ℕ → ℕ → NewCollection → Collections → Outcome Collection
create id now user n t =
    let row = new_collection id now user n in
    let before = cleared n.active user t in commit row before (before ++ row ∷ [])

unfoldable pub get : ℕ → Option ℕ → Bool → Collections → Option Collection
get id user_id can_see_all t = find? (scoped id user_id can_see_all) t

unfoldable pub exists : ℕ → Option ℕ → Bool → Collections → Bool
exists id user_id can_see_all t = is_some (find? (scoped id user_id can_see_all) t)

-- `lower(name) = lower($2)`
unfoldable pub find_by_name : (ℕ → Text) → ℕ → Text → Collections → Option Collection
find_by_name lower user name t =
    find? (λ r. r.user_id == user && text_eq (recase lower r.name) (recase lower name)) t

-- LIMIT 1 without an order: the first row of the table stands for the one that is returned.
unfoldable pub active_collection : Option ℕ → Bool → Collections → Option Collection
active_collection user_id can_see_all t =
    find? (λ r. r.active && in_scope user_id can_see_all (some r.user_id)) t

-- UPDATE … RETURNING * on the rows that `scoped` selects.
abbrev pub update_scoped :
    (Collection → Collection) → ℕ → Option ℕ → Bool → Collections → Outcome (Option Collection)
update_scoped f id user_id can_see_all t =
    let after = update_where (scoped id user_id can_see_all) f t in
    commit (find? (scoped id user_id can_see_all) after) t after

abbrev pub write : Text → Option Text → Option ℕ → Option ℕ → Collection → Collection
write name color start_date end_date r = record r {
  name = name;
  color = color;
  start_date = start_date;
  end_date = end_date;
}

unfoldable pub update :
    ℕ
    → Option ℕ
    → Bool
    → Text
    → Option Text
    → Option ℕ
    → Option ℕ
    → Collections
    → Outcome (Option Collection)
update id user_id can_see_all name color start_date end_date =
    update_scoped (write name color start_date end_date) id user_id can_see_all

unfoldable pub delete : ℕ → Option ℕ → Bool → Collections → Bool × Collections
delete id user_id can_see_all t =
    (exists id user_id can_see_all t, filter (λ r. not (scoped id user_id can_see_all r)) t)

abbrev pub set_active : Bool → Collection → Collection
set_active active r = record r { active = active }

abbrev pub activate_own : ℕ → ℕ → Collections → Outcome (Option Collection)
activate_own id user t =
    if any (λ r. r.id == id && r.user_id == user) t
    then update_scoped (set_active true) id (some user) false (deactivate_siblings user t)
    else (ok none, t)

-- A caller who sees all rows, or has no id, deactivates nothing.
unfoldable pub activate : ℕ → Option ℕ → Bool → Collections → Outcome (Option Collection)
activate id none can_see_all t = update_scoped (set_active true) id none can_see_all t
activate id (some user) can_see_all t =
    if can_see_all
    then update_scoped (set_active true) id (some user) can_see_all t
    else activate_own id user t

unfoldable pub deactivate : ℕ → Option ℕ → Bool → Collections → Outcome (Option Collection)
deactivate id user_id can_see_all t = update_scoped (set_active false) id user_id can_see_all t
