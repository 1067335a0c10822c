-- ===== src/Collections/Links.antt =====
-- Which receipts are in which collections: the table receipt_collections in
-- src/vision_bill/provider/db/collection_db.py and the service's operations on it. Of the receipts
-- these read the id and the owner, as `ReceiptDB.get_receipt_by_id` does.
pub mod Ownership
use vision_bill.Access.{in_scope}
use vision_bill.Collections.{Collections, CollectionFault, not_found, exists, delete}
use vision_bill.Prelude.{
  ℕ, Bool, true, false, not, ◌&&◌, List, [], ◌∷◌, ◌++◌, Option, none, some, ◌==◌, if◌then◌else◌,
  filter, find?, any, all, map, is_some,
}
use vision_bill.Prelude.Result.{Result, ok, err}

pub record Link : Type 0 where
  pub receipt_id : ℕ
  pub collection_id : ℕ

pub record ReceiptKey : Type 0 where
  pub id : ℕ
  pub user_id : Option ℕ

pub record Shelves : Type 0 where
  pub collections : Collections
  pub receipts : List ReceiptKey
  pub links : List Link

-- PRIMARY KEY (receipt_id, collection_id)
abbrev pub same_link : ℕ → ℕ → Link → Bool
same_link receipt_id collection_id l =
    l.receipt_id == receipt_id && l.collection_id == collection_id

-- ON CONFLICT DO NOTHING
unfoldable pub assign : ℕ → ℕ → List Link → List Link
assign collection_id receipt_id ls =
    if any (same_link receipt_id collection_id) ls
    then ls
    else ls ++ record { receipt_id = receipt_id; collection_id = collection_id } ∷ []

unfoldable pub unassign : ℕ → ℕ → List Link → Bool × List Link
unassign collection_id receipt_id ls = (
  any (same_link receipt_id collection_id) ls,
  filter (λ l. not (same_link receipt_id collection_id l)) ls,
)

unfoldable pub collection_ids_for_receipt : ℕ → List Link → List ℕ
collection_ids_for_receipt receipt_id ls =
    map (λ (l : Link). l.collection_id) (filter (λ l. l.receipt_id == receipt_id) ls)

abbrev pub assign_all : ℕ → List ℕ → List Link → List Link
assign_all receipt_id [] ls = ls
assign_all receipt_id (c ∷ cs) ls = assign_all receipt_id cs (assign c receipt_id ls)

-- All links of the receipt are deleted first.
unfoldable pub set_receipt_collections : ℕ → List ℕ → List Link → List Link
set_receipt_collections receipt_id ids ls =
    assign_all receipt_id ids (filter (λ l. not (l.receipt_id == receipt_id)) ls)

abbrev pub is_visible : ℕ → Option ℕ → Bool → List ReceiptKey → Bool
is_visible id user_id can_see_all rs =
    is_some (find? (λ r. r.id == id && in_scope user_id can_see_all r.user_id) rs)

abbrev pub with_links : Shelves → List Link → Shelves
with_links s ls = record s { links = ls }

unfoldable pub assign_receipt :
    ℕ → ℕ → Option ℕ → Bool → Shelves → Result CollectionFault (Unit {0}) × Shelves
assign_receipt collection_id receipt_id user_id can_see_all s =
    if exists collection_id user_id can_see_all s.collections
    then if is_visible receipt_id user_id can_see_all s.receipts
      then (ok tt, with_links s (assign collection_id receipt_id s.links))
      else (err not_found, s)
    else (err not_found, s)

unfoldable pub unassign_receipt :
    ℕ → ℕ → Option ℕ → Bool → Shelves → Result CollectionFault Bool × Shelves
unassign_receipt collection_id receipt_id user_id can_see_all s =
    let (gone, ls) = unassign collection_id receipt_id s.links in
    if exists collection_id user_id can_see_all s.collections
    then (ok gone, with_links s ls)
    else (err not_found, s)

unfoldable pub set_collections :
    ℕ → List ℕ → Option ℕ → Bool → Shelves → Result CollectionFault (Unit {0}) × Shelves
set_collections receipt_id ids user_id can_see_all s =
    if is_visible receipt_id user_id can_see_all s.receipts
    then if all (λ c. exists c user_id can_see_all s.collections) ids
      then (ok tt, with_links s (set_receipt_collections receipt_id ids s.links))
      else (err not_found, s)
    else (err not_found, s)

-- ON DELETE CASCADE takes the links of a deleted collection with it.
unfoldable pub delete_collection : ℕ → Option ℕ → Bool → Shelves → Bool × Shelves
delete_collection id user_id can_see_all s =
    let (gone, rows) = delete id user_id can_see_all s.collections in
    (
      gone,
      record s {
        collections = rows;
        links = if gone then filter (λ l. not (l.collection_id == id)) s.links else s.links;
      },
    )

pub data LinkCall : Type 0 where
  assign_call unassign_call : ℕ → ℕ → LinkCall
  set_call : ℕ → List ℕ → LinkCall
  delete_call : ℕ → LinkCall

-- A call of an ordinary user.
abbrev pub apply : ℕ → LinkCall → Shelves → Shelves
apply user (assign_call c r) s = (assign_receipt c r (some user) false s).1
apply user (unassign_call c r) s = (unassign_receipt c r (some user) false s).1
apply user (set_call r cs) s = (set_collections r cs (some user) false s).1
apply user (delete_call c) s = (delete_collection c (some user) false s).1

unfoldable pub run : List (ℕ × LinkCall) → Shelves → Shelves
run [] s = s
run ((user, call) ∷ calls) s = run calls (apply user call s)
