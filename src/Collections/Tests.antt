-- ===== src/Collections/Tests.antt =====
-- Runs on the collections of two users.
use vision_bill.Collections.{
  Collection, Collections, violates_index, NewCollection, set_active, activate,
}
use vision_bill.Collections.Active.{HasUniqueIds, HasOneActive, only_active, activate_owned}
use vision_bill.Collections.Links.{Shelves, LinkCall, assign_call, set_call, delete_call, run}
use vision_bill.Collections.Links.Ownership.{IsFair, run-IsFair}
use vision_bill.Collections.Named.{HasUniqueNames, create_collection-HasUniqueNames}
use vision_bill.Collections.Refusal.{activate_refused}
use vision_bill.Collections.Renamed.{update_collection-HasUniqueNames}
use vision_bill.Collections.Service.{Change, create_collection, update_collection}
use vision_bill.Prelude.Result.{ok, err}
use vision_bill.Prelude.{
  ℕ, ◌+◌, ◌≡◌, ◌&&◌, refl, Bool, true, false, List, [], ◌∷◌, none, some, arith, Text, codes, leb,
  if◌then◌else◌,
}

abbrev lower : ℕ → Text
lower c = (if leb b'A' c && leb c b'Z' then c + 32 else c) ∷ []

abbrev folder : ℕ → ℕ → Text → Bool → Collection
folder id user name active = record {
  id = id;
  user_id = user;
  name = name;
  color = none;
  start_date = none;
  end_date = none;
  active = active;
  created_at = 1;
}

-- User 4 has a trip and an active household, user 5 an active garden.
abbrev trip : Collection
trip = folder 1 4 (codes "Trip") false

abbrev household : Collection
household = folder 2 4 (codes "Household") true

abbrev garden : Collection
garden = folder 3 5 (codes "Garden") true

abbrev folders : Collections
folders = trip ∷ household ∷ garden ∷ []

folders-HasUniqueIds : HasUniqueIds folders
folders-HasUniqueIds = (refl, (refl, (refl, tt)))

folders-HasOneActive : HasOneActive folders
unfolding HasOneActive
folders-HasOneActive user = ground arith

abbrev office : NewCollection
office = record {
  name = codes " Office ";
  color = some (codes "#0af");
  start_date = some 3;
  end_date = some 9;
  active = true;
}

activate_owned_example :
    (activate 1 (some 4) false folders
      ≡ (ok (some (set_active true trip)), only_active 1 4 folders))
    × HasOneActive (only_active 1 4 folders)
activate_owned_example =
    activate_owned 1 4 folders folders-HasUniqueIds folders-HasOneActive refl refl

activate_refused_example : activate 1 (some 9) true folders ≡ (err violates_index, folders)
activate_refused_example =
    activate_refused 1 2 9 folders {r = trip} {s = household} refl refl (λ e. omega (arith, e)) refl
      refl

-- Two folders with names of their own.
two_names : HasUniqueNames lower (trip ∷ garden ∷ [])
unfolding HasUniqueNames
two_names user name = ground arith

create_collection-HasUniqueNames_example :
    HasUniqueNames lower (create_collection lower 7 2 office 4 (trip ∷ garden ∷ [])).1
create_collection-HasUniqueNames_example =
    create_collection-HasUniqueNames lower 7 2 office 4 (trip ∷ garden ∷ []) two_names

abbrev rename : Change
rename = record { name = some (codes "TRIP"); color = none; start_date = none; end_date = none }

update_collection-HasUniqueNames_example :
    HasUniqueNames lower (update_collection lower 1 rename (some 4) false (trip ∷ garden ∷ [])).1
update_collection-HasUniqueNames_example =
    update_collection-HasUniqueNames lower 1 4 (trip ∷ garden ∷ []) (refl, (refl, tt)) two_names
      rename

-- Receipt 10 belongs to user 4, receipt 11 to user 5.
abbrev shelves : Shelves
shelves = record {
  collections = folders;
  receipts = record { id = 10; user_id = some 4 } ∷ record { id = 11; user_id = some 5 } ∷ [];
  links = [];
}

-- User 5 tries to reach into the trip of user 4.
abbrev calls : List (ℕ × LinkCall)
calls =
    (4, assign_call 1 10)
    ∷ (5, assign_call 1 11)
    ∷ (5, set_call 11 (3 ∷ []))
    ∷ (5, set_call 11 (1 ∷ []))
    ∷ (4, delete_call 2)
    ∷ []

run-IsFair_example : IsFair (run calls shelves)
run-IsFair_example = run-IsFair calls shelves (record {
  collections_unique = folders-HasUniqueIds;
  receipts_unique = (refl, (refl, tt));
  fair = tt;
})
