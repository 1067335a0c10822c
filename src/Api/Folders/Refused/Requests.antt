-- ===== src/Api/Folders/Refused/Requests.antt =====
-- The requests of src/vision_bill/api/collections.py, one by one.
use vision_bill.Api.Folders.{
  FolderReply, field_status, target_status, reply_gone, reply_assigned, reply_unassigned,
  FolderRequest, create_folder, update_folder, delete_folder, activate_folder, deactivate_folder,
  assign_folder, unassign_folder, if_ready, serve,
}
use vision_bill.Collections.{
  Collection, Collections, Outcome, NewCollection, scoped, write, update, exists, delete,
  set_active, activate, deactivate,
}
use vision_bill.Collections.Active.{HasUniqueIds, HasOneActive, activate_owned, create-HasOneActive}
use vision_bill.Collections.Links.{
  Shelves, same_link, unassign, assign_receipt, unassign_receipt, delete_collection, is_visible,
}
use vision_bill.Collections.Scoped.{
  update_scoped-cases, any-row_of, filter-HasOneActive, filter-absent, filter-not-any,
}
use vision_bill.Collections.Service.{
  Change, create_collection, update_current, update_collection, activate_collection,
  deactivate_collection,
}
use vision_bill.Names.{normalize_collection_name}
use vision_bill.Prelude.Result.{ok}
use vision_bill.Prelude.{
  ℕ, ◌≡◌, refl, ap, Bool, true, false, not, ◌&&◌, Option, none, some, inl, inr, arith, ◌==◌,
  Bool-cases, find?, any, Text,
}
use vision_bill.Sessions.{User}
use vision_bill.Api.Folders.Refused.{
  IsAnswered, IsOutcomeOf, IsOptionOf, reply_row-IsAnswered, reply_optional-IsAnswered,
  found-IsOutcomeOf, checked-IsCaught, after_check-IsOptionOf, after_check-IsOutcomeOf,
}

deactivate-IsOptionOf :
    (id user : ℕ) (t : Collections)
    → HasOneActive t
    → IsOptionOf target_status (deactivate id (some user) false t) t
unfolding deactivate IsOptionOf
deactivate-IsOptionOf id user t h =
    elim (update_scoped-cases (set_active false) id (some user) false t h (λ r. refl)
      (λ u r e. absurd (cc))) [ inl e ↦ rw e refl | inr (r, t', e, one) ↦ rw e one ]

update-IsOptionOf :
    (id user : ℕ) (name : Text) (color : Option Text) (start end_date : Option ℕ) (t : Collections)
    → HasOneActive t
    → IsOptionOf field_status (update id (some user) false name color start end_date t) t
unfolding update IsOptionOf
update-IsOptionOf id user name color start end_date t h =
    elim (update_scoped-cases (write name color start end_date) id (some user) false t h (λ r. refl)
      (λ u r e. e)) [ inl e ↦ rw e refl | inr (r, t', e, one) ↦ rw e one ]

update_current-IsOptionOf :
    (lower : ℕ → Text) (id user : ℕ) (body : Change) (current : Option Collection) (t : Collections)
    → HasOneActive t
    → IsOptionOf field_status (update_current lower id body (some user) false current t) t
unfolding IsOptionOf
update_current-IsOptionOf lower id user body none t h = refl
update_current-IsOptionOf lower id user body (some current) t h =
    after_check-IsOptionOf _ t _ (checked-IsCaught _ _ _ _ _)
      (update-IsOptionOf id user _ _ _ _ t h)

create-IsOutcomeOf :
    (lower : ℕ → Text) (id now user : ℕ) (body : NewCollection) (t : Collections)
    → HasOneActive t
    → IsOutcomeOf field_status (create_collection lower id now body user t) t
unfolding create_collection IsOutcomeOf
create-IsOutcomeOf lower id now user body t h =
    after_check-IsOutcomeOf _ t _ (checked-IsCaught _ _ _ _ _) (
      created (
        create-HasOneActive id now user (record body { name = normalize_collection_name body.name })
          t h))
  where
    created :
        {m : Outcome Collection} {r : Collection} {t' : Collections}
        → (m ≡ (ok r, t')) × HasOneActive t'
        → IsOutcomeOf field_status m t
    created (e, one) = rw e one

activate-IsOptionOf :
    (id user : ℕ) (t : Collections)
    → HasUniqueIds t
    → HasOneActive t
    → IsOptionOf target_status (activate id (some user) false t) t
unfolding activate IsOptionOf
activate-IsOptionOf id user t u h =
    elim (Bool-cases (any (λ r. r.id == id && r.user_id == user) t)) [
      | inl e ↦
          let (r, row, own) = any-row_of id user t u e in
          let (answer, one) = activate_owned id user t {r = r} u h row own in rw answer one
      | inr e ↦ rw e refl
    ]

-- The operations on links leave the collections as they are.
assign-IsAnswered :
    (id receipt user : ℕ) (s : Shelves)
    → HasOneActive s.collections
    → IsAnswered (reply_assigned (assign_receipt id receipt (some user) false s)) s
unfolding IsAnswered assign_receipt
assign-IsAnswered id receipt user s h =
    elim (Bool-cases (exists id (some user) false s.collections)) [
      | inl e ↦ elim (Bool-cases (is_visible receipt (some user) false s.receipts)) [
        | inl e' ↦ rw (e, e') h
        | inr e' ↦ rw (e, e') (refl, λ q. omega (arith, q))
      ]
      | inr e ↦ rw e (refl, λ q. omega (arith, q))
    ]

unassign-IsAnswered :
    (id receipt user : ℕ) (s : Shelves)
    → HasOneActive s.collections
    → IsAnswered (reply_unassigned (unassign_receipt id receipt (some user) false s)) s
unfolding IsAnswered unassign_receipt unassign
unassign-IsAnswered id receipt user s h =
    elim (Bool-cases (exists id (some user) false s.collections)) [
      | inl e ↦ elim (Bool-cases (any (same_link receipt id) s.links)) [
        | inl e' ↦ rw (e, e') h
        | inr e' ↦
            rw (e, e')
              (
                ap (λ ls. record s { links = ls })
                    (filter-not-any (same_link receipt id) s.links e'),
                λ q. omega (arith, q),
              )
      ]
      | inr e ↦ rw e (refl, λ q. omega (arith, q))
    ]

delete-IsAnswered :
    (id user : ℕ) (s : Shelves)
    → HasOneActive s.collections
    → IsAnswered (reply_gone (delete_collection id (some user) false s)) s
unfolding IsAnswered delete_collection delete exists
delete-IsAnswered id user s h = by_row (find? (scoped id (some user) false) s.collections) refl
  where
    by_row :
        (o : Option Collection)
        → find? (scoped id (some user) false) s.collections ≡ o
        → IsAnswered (reply_gone (delete_collection id (some user) false s)) s
    by_row none e = rw e (
      ap (λ c. record s { collections = c })
          (filter-absent (scoped id (some user) false) s.collections e),
      λ q. omega (arith, q),
    )
    by_row (some r) e =
        rw e (filter-HasOneActive (λ r. not (scoped id (some user) false r)) s.collections h)

if_ready-IsAnswered :
    (is_ready : Bool) (s : Shelves) (reply : FolderReply)
    → IsAnswered reply s
    → IsAnswered (if_ready is_ready s reply) s
unfolding IsAnswered
if_ready-IsAnswered true s reply h = h
if_ready-IsAnswered false s reply h = (refl, λ q. omega (arith, q))

-- Where ids are unique and no user has two active collections, each request of a user who sees only
-- own rows either succeeds, and then still no user has two active ones; or it is refused with a
-- status other than 500, and then the collections, the receipts and the links are as they were.
pub serve-IsAnswered :
    (lower : ℕ → Text) (is_ready : Bool) (user : User) (request : FolderRequest) (s : Shelves)
    → user.can_see_all ≡ false
    → HasUniqueIds s.collections
    → HasOneActive s.collections
    → IsAnswered (serve lower is_ready user request s) s
unfolding serve update_collection activate_collection deactivate_collection
serve-IsAnswered lower is_ready user (create_folder id now body) s own u h =
    if_ready-IsAnswered is_ready s _ (
      reply_row-IsAnswered field_status s _
        (create-IsOutcomeOf lower id now user.id body s.collections h))
serve-IsAnswered lower is_ready user (update_folder id body) s own u h = rw own (
    if_ready-IsAnswered is_ready s _ (
      reply_optional-IsAnswered field_status s _
        (update_current-IsOptionOf lower id user.id body _ s.collections h)))
serve-IsAnswered lower is_ready user (delete_folder id) s own u h =
    rw own (if_ready-IsAnswered is_ready s _ (delete-IsAnswered id user.id s h))
serve-IsAnswered lower is_ready user (assign_folder id receipt) s own u h =
    rw own (if_ready-IsAnswered is_ready s _ (assign-IsAnswered id receipt user.id s h))
serve-IsAnswered lower is_ready user (unassign_folder id receipt) s own u h =
    rw own (if_ready-IsAnswered is_ready s _ (unassign-IsAnswered id receipt user.id s h))
serve-IsAnswered lower is_ready user (activate_folder id) s own u h = rw own (
    if_ready-IsAnswered is_ready s _ (
      reply_row-IsAnswered target_status s _
        (found-IsOutcomeOf _ s.collections (activate-IsOptionOf id user.id s.collections u h))))
serve-IsAnswered lower is_ready user (deactivate_folder id) s own u h = rw own (
    if_ready-IsAnswered is_ready s _ (
      reply_row-IsAnswered target_status s _
        (found-IsOutcomeOf _ s.collections (deactivate-IsOptionOf id user.id s.collections h))))
