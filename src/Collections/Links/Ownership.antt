-- ===== src/Collections/Links/Ownership.antt =====
-- Ordinary users can only put their own receipts into their own collections.
use vision_bill.Access.{in_scope, in_scope_iff}
use vision_bill.Collections.{Collection, Collections, scoped, exists, delete}
use vision_bill.Collections.Links.{
  Link, ReceiptKey, Shelves, same_link, assign, unassign, assign_all, set_receipt_collections,
  is_visible, with_links, assign_receipt, unassign_receipt, set_collections, delete_collection,
  LinkCall, assign_call, unassign_call, set_call, delete_call, apply, run,
}
use vision_bill.Prelude.Keyed.{
  HasUniqueKeys, find?-and_found, find?-filter_ne, HasUniqueKeys-filter,
}
use vision_bill.Prelude.{
  ℕ, ◌≡◌, refl, ap, ◌∙◌, Bool, true, false, not, ◌&&◌, List, [], ◌∷◌, Option, none, some, inl, inr,
  arith, ◌==◌, if◌then◌else◌, filter, find?, any, all, is_some, All, All-append, All-filter,
  filter-holds, Bool-cases, ==_iff,
}

-- The receipt and the collection exist and belong to the user.
pub record IsOwnedBy (cs : Collections) (rs : List ReceiptKey) (user : ℕ) (l : Link) : Type 0 where
  pub collection : Collection
  pub receipt : ReceiptKey
  pub is_collection : find? (λ (c : Collection). c.id == l.collection_id) cs ≡ some collection
  pub is_receipt : find? (λ (r : ReceiptKey). r.id == l.receipt_id) rs ≡ some receipt
  pub collection_owner : collection.user_id ≡ user
  pub receipt_owner : receipt.user_id ≡ some user

abbrev pub IsFairLink : Collections → List ReceiptKey → Link → Type 0
IsFairLink cs rs l = (user : ℕ) × IsOwnedBy cs rs user l

-- Each link joins a receipt and a collection of one user.
pub record IsFair (s : Shelves) : Type 0 where
  pub collections_unique : HasUniqueKeys (λ (c : Collection). c.id) s.collections
  pub receipts_unique : HasUniqueKeys (λ (r : ReceiptKey). r.id) s.receipts
  pub fair : All (IsFairLink s.collections s.receipts) s.links

-- A DELETE that selects no row.
filter-none :
    (p : Collection → Bool) (t : Collections) → find? p t ≡ none → filter (λ r. not (p r)) t ≡ t
filter-none p [] h = refl
filter-none p (r ∷ t) h = elim (Bool-cases (p r)) [
  | inl e ↦ absurd (never (rw e at h))
  | inr e ↦ rw e (ap (λ rs. r ∷ rs) (filter-none p t (rw e at h)))
]
  where
    never : some r ≡ none → ⊥
    never q = cc

module _ (user : ℕ) (s : Shelves) (f : IsFair s) where
  -- What the two guards let through.
  owned :
      (c r : ℕ)
      → exists c (some user) false s.collections ≡ true
      → is_visible r (some user) false s.receipts ≡ true
      → IsOwnedBy s.collections s.receipts user (record { receipt_id = r; collection_id = c })
  unfolding exists
  owned c r hc hr =
      go (find? (scoped c (some user) false) s.collections) refl hc
        (find? (λ x. x.id == r && in_scope (some user) false x.user_id) s.receipts) refl hr
    where
      go :
          (oc : Option Collection)
          → find? (scoped c (some user) false) s.collections ≡ oc
          → is_some oc ≡ true
          → (or : Option ReceiptKey)
          → find? (λ x. x.id == r && in_scope (some user) false x.user_id) s.receipts ≡ or
          → is_some or ≡ true
          → IsOwnedBy s.collections s.receipts user (record { receipt_id = r; collection_id = c })
      go none ec ic or er ir = absurd (cc)
      go (some x) ec ic none er ir = absurd (cc)
      go (some x) ec ic (some y) er ir =
          let (found_c, own_c) =
            find?-and_found (λ (k : Collection). k.id)
              (λ k. in_scope (some user) false (some k.user_id)) c s.collections
              f.collections_unique ec in
          let (found_r, own_r) =
            find?-and_found (λ (k : ReceiptKey). k.id) (λ k. in_scope (some user) false k.user_id) r
              s.receipts f.receipts_unique er in
          record {
            collection = x;
            receipt = y;
            is_collection = found_c;
            is_receipt = found_r;
            collection_owner = (==_iff x.user_id user).0 own_c;
            receipt_owner = (in_scope_iff user y.user_id).0 own_r;
          }

  with_links-IsFair :
      (ls : List Link) → All (IsFairLink s.collections s.receipts) ls → IsFair (with_links s ls)
  with_links-IsFair ls a = record {
    collections_unique = f.collections_unique;
    receipts_unique = f.receipts_unique;
    fair = a;
  }

  assign-fair :
      (c r : ℕ) (ls : List Link)
      → exists c (some user) false s.collections ≡ true
      → is_visible r (some user) false s.receipts ≡ true
      → All (IsFairLink s.collections s.receipts) ls
      → All (IsFairLink s.collections s.receipts) (assign c r ls)
  unfolding assign
  assign-fair c r ls hc hr a = elim (Bool-cases (any (same_link r c) ls)) [
    | inl e ↦ rw e a
    | inr e ↦
        rw e (All-append (IsFairLink s.collections s.receipts) ls _ a ((user, owned c r hc hr), tt))
  ]

  assign_all-fair :
      (r : ℕ) (cs : List ℕ) (ls : List Link)
      → is_visible r (some user) false s.receipts ≡ true
      → all (λ c. exists c (some user) false s.collections) cs ≡ true
      → All (IsFairLink s.collections s.receipts) ls
      → All (IsFairLink s.collections s.receipts) (assign_all r cs ls)
  assign_all-fair r [] ls hr hc a = a
  assign_all-fair r (c ∷ cs) ls hr hc a =
      assign_all-fair r cs (assign c r ls) hr (ground arith)
        (assign-fair c r ls (ground arith) hr a)

  assign_receipt-IsFair : (c r : ℕ) → IsFair (assign_receipt c r (some user) false s).1
  unfolding assign_receipt
  assign_receipt-IsFair c r = elim (Bool-cases (exists c (some user) false s.collections)) [
    | inl hc ↦ elim (Bool-cases (is_visible r (some user) false s.receipts)) [
      | inl hr ↦ rw (hc, hr) (with_links-IsFair _ (assign-fair c r s.links hc hr f.fair))
      | inr hr ↦ rw (hc, hr) f
    ]
    | inr hc ↦ rw hc f
  ]

  unassign_receipt-IsFair : (c r : ℕ) → IsFair (unassign_receipt c r (some user) false s).1
  unfolding unassign_receipt unassign
  unassign_receipt-IsFair c r = elim (Bool-cases (exists c (some user) false s.collections)) [
    | inl hc ↦
        rw hc (with_links-IsFair _ (All-filter _ (λ l. not (same_link r c l)) s.links f.fair))
    | inr hc ↦ rw hc f
  ]

  set_collections-IsFair :
      (r : ℕ) (cs : List ℕ) → IsFair (set_collections r cs (some user) false s).1
  unfolding set_collections set_receipt_collections
  set_collections-IsFair r cs = elim (Bool-cases (is_visible r (some user) false s.receipts)) [
    | inl hr ↦ elim (Bool-cases (all (λ c. exists c (some user) false s.collections) cs)) [
      | inl hc ↦
          rw (hr, hc)
            (with_links-IsFair _ (
              assign_all-fair r cs _ hr hc
                (All-filter _ (λ l. not (l.receipt_id == r)) s.links f.fair)))
      | inr hc ↦ rw (hr, hc) f
    ]
    | inr hr ↦ rw hr f
  ]

  -- A link to another collection is as fair after one is deleted.
  delete-fair :
      (c : ℕ) (l : Link)
      → not (l.collection_id == c) ≡ true
      → IsFairLink s.collections s.receipts l
      → IsFairLink (filter (λ r. not (scoped c (some user) false r)) s.collections) s.receipts l
  delete-fair c l other (owner, o) = (
    owner,
    record {
      collection = o.collection;
      receipt = o.receipt;
      is_collection =
          find?-filter_ne (λ (r : Collection). r.id) (λ r. not (scoped c (some user) false r))
            l.collection_id s.collections (λ x k. ground (arith, k))
          ∙ o.is_collection;
      is_receipt = o.is_receipt;
      collection_owner = o.collection_owner;
      receipt_owner = o.receipt_owner;
    },
  )

  delete_collection-IsFair : (c : ℕ) → IsFair (delete_collection c (some user) false s).1
  unfolding delete_collection delete exists
  delete_collection-IsFair c = record {
    collections_unique =
        HasUniqueKeys-filter (λ (r : Collection). r.id) (λ r. not (scoped c (some user) false r))
          s.collections f.collections_unique;
    receipts_unique = f.receipts_unique;
    fair = go (find? (scoped c (some user) false) s.collections) refl;
  }
    where
      go :
          (o : Option Collection)
          → find? (scoped c (some user) false) s.collections ≡ o
          → All
              (IsFairLink
                (filter (λ r. not (scoped c (some user) false r)) s.collections)
                s.receipts)
              (if is_some o then filter (λ l. not (l.collection_id == c)) s.links else s.links)
      go none e = rw (filter-none (scoped c (some user) false) s.collections e) f.fair
      go (some x) e =
          fair_rest (filter (λ l. not (l.collection_id == c)) s.links)
            (filter-holds (λ l. not (l.collection_id == c)) s.links)
            (All-filter (IsFairLink s.collections s.receipts) (λ l. not (l.collection_id == c))
              s.links f.fair)
        where
          fair_rest :
              (ls : List Link)
              → All (λ l. not (l.collection_id == c) ≡ true) ls
              → All (IsFairLink s.collections s.receipts) ls
              → All
                  (IsFairLink
                    (filter (λ r. not (scoped c (some user) false r)) s.collections)
                    s.receipts)
                  ls
          fair_rest [] k a = tt
          fair_rest (l ∷ ls) k a = (delete-fair c l k.0 a.0, fair_rest ls k.1 a.1)

-- If ids are unique and each link joins an existing receipt and an existing collection of the same
-- user, this still holds after any sequence of calls in which ordinary users put receipts into
-- collections, take them out, replace a receipt's collections or delete a collection.
pub run-IsFair : (calls : List (ℕ × LinkCall)) (s : Shelves) → IsFair s → IsFair (run calls s)
unfolding run
run-IsFair [] s f = f
run-IsFair ((user, call) ∷ calls) s f = run-IsFair calls (apply user call s) (step call)
  where
    step : (call : LinkCall) → IsFair (apply user call s)
    step (assign_call c r) = assign_receipt-IsFair user s f c r
    step (unassign_call c r) = unassign_receipt-IsFair user s f c r
    step (set_call r cs) = set_collections-IsFair user s f r cs
    step (delete_call c) = delete_collection-IsFair user s f c
