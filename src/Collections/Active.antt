-- ===== src/Collections/Active.antt =====
-- At most one active collection for each user: what `activate` does for an owner, for a stranger
-- and for an administrator.
use vision_bill.Collections.{
  Collection, Collections, scoped, is_active_of, satisfies_index, deactivate_siblings, set_active,
  activate, NewCollection, new_collection, create, cleared,
}
use vision_bill.Prelude.Keyed.{HasUniqueKeys}
use vision_bill.Prelude.Result.{ok}
use vision_bill.Prelude.{
  ℕ, ◌≤◌, ◌≡◌, ◌≢◌, ◌⊎◌, refl, sym, ap, ◌∙◌, Bool, true, false, ◌&&◌, [], ◌∷◌, ◌++◌, Option, none,
  some, inl, inr, arith, leb, ◌==◌, Bool-cases, ==_iff, find?, any, all, count, count-append,
  update_where,
}

abbrev pub row_of : ℕ → Collections → Option Collection
row_of id t = find? (λ r. r.id == id) t

abbrev pub HasUniqueIds : Collections → Type 0
HasUniqueIds = HasUniqueKeys (λ (r : Collection). r.id)

-- No user has two active collections.
unfoldable pub HasOneActive : Collections → Type 0
HasOneActive t = (user : ℕ) → count (is_active_of user) t ≤ 1

-- The index is satisfied exactly by such tables.
pub satisfies_index-HasOneActive : (t : Collections) → satisfies_index t ≡ true → HasOneActive t
unfolding satisfies_index HasOneActive
satisfies_index-HasOneActive t h user = elim (go t h) [
  | inl none_active ↦ omega (arith, none_active)
  | inr few ↦ few
]
  where
    -- An active row of the user is one that the index counts by.
    go :
        (rs : Collections)
        → all (λ r. leb (count (is_active_of r.user_id) t) 1) rs ≡ true
        → (count (is_active_of user) rs ≡ 0) ⊎ (count (is_active_of user) t ≤ 1)
    go [] h = inl refl
    go (r ∷ rs) h = elim (Bool-cases (r.user_id == user)) [
      | inl e ↦ inr (counted r ((==_iff r.user_id user).0 e) (ground arith))
      | inr e ↦ elim (go rs (ground arith)) [ inl ih ↦ inl (ground arith) | inr ih ↦ inr ih ]
    ]
      where
        counted :
            (r : Collection)
            → r.user_id ≡ user
            → leb (count (is_active_of r.user_id) t) 1 ≡ true
            → count (is_active_of user) t ≤ 1
        counted r e h = let h' = rw e at h in ground arith

pub HasOneActive-satisfies_index : (t : Collections) → HasOneActive t → satisfies_index t ≡ true
unfolding satisfies_index HasOneActive
HasOneActive-satisfies_index t h = go t
  where
    go : (rs : Collections) → all (λ r. leb (count (is_active_of r.user_id) t) 1) rs ≡ true
    go [] = refl
    go (r ∷ rs) = ground (arith, h r.user_id, go rs)

-- The table in which of a user's collections just the one with the id is active.
abbrev pub only_active : ℕ → ℕ → Collections → Collections
only_active id user = update_where (λ r. r.user_id == user) (λ r. set_active (r.id == id) r)

activated_table :
    (id user : ℕ) (t : Collections)
    → update_where (scoped id (some user) false) (set_active true) (deactivate_siblings user t)
      ≡ only_active id user t
unfolding deactivate_siblings
activated_table id user [] = refl
activated_table id user (r ∷ t) = elim (Bool-cases (r.user_id == user)) [
  | inl e ↦ elim (Bool-cases (r.id == id)) [
    | inl e' ↦ rw (e, e', e, activated_table id user t) refl
    | inr e' ↦ rw (e, e', activated_table id user t) refl
  ]
  | inr e ↦ elim (Bool-cases (r.id == id)) [
    | inl e' ↦ rw (e, e', e, activated_table id user t) refl
    | inr e' ↦ rw (e, e', activated_table id user t) refl
  ]
]

-- Elsewhere the number of active collections stays, and the user's own are those with the id.
count_others :
    (id user other : ℕ) (t : Collections)
    → other ≢ user
    → count (is_active_of other) (only_active id user t) ≡ count (is_active_of other) t
count_others id user other [] ne = refl
count_others id user other (r ∷ t) ne = let ih = count_others id user other t ne in ground arith

count_absent :
    (id user : ℕ) (t : Collections)
    → row_of id t ≡ none
    → count (is_active_of user) (only_active id user t) ≡ 0
count_absent id user [] h = refl
count_absent id user (r ∷ t) h = let ih = count_absent id user t in ground arith

count_own :
    (id user : ℕ) (t : Collections)
    → HasUniqueIds t
    → count (is_active_of user) (only_active id user t) ≤ 1
count_own id user [] u = omega arith
count_own id user (r ∷ t) u = elim (Bool-cases (r.id == id)) [
  | inl e ↦
      let rest = count_absent id user t (ap (λ k. row_of k t) (sym ((==_iff r.id id).0 e)) ∙ u.0) in
      ground arith
  | inr e ↦ let ih = count_own id user t u.1 in ground arith
]

pub only_active-HasOneActive :
    (id user : ℕ) (t : Collections)
    → HasUniqueIds t
    → HasOneActive t
    → HasOneActive (only_active id user t)
unfolding HasOneActive
only_active-HasOneActive id user t u h other = elim (Bool-cases (other == user)) [
  | inl e ↦ rw ((==_iff other user).0 e) (count_own id user t u)
  | inr e ↦ omega (arith, h other, count_others id user other t (λ q. ground arith))
]

find_own :
    (id user : ℕ) (t : Collections) {r : Collection}
    → row_of id t ≡ some r
    → r.user_id ≡ user
    → (any (λ x. x.id == id && x.user_id == user) t ≡ true)
      × (find? (scoped id (some user) false) (only_active id user t) ≡ some (set_active true r))
find_own id user [] h own = absurd (cc)
find_own id user (x ∷ t) {r} h own = elim (Bool-cases (x.id == id)) [
  | inl e ↦
      let q = same (rw e at h) in
      rw (e, is_own e q, e, is_own e q) (refl, ap (λ c. some (set_active true c)) q)
  | inr e ↦
      let ih = find_own id user t {r = r} (rw e at h) own in
      elim (Bool-cases (x.user_id == user)) [
        | inl e' ↦ rw (e, e', e) ih
        | inr e' ↦ rw (e, e', e) ih
      ]
]
  where
    same : {a b : Collection} → some a ≡ some b → a ≡ b
    same q = cc

    is_own : x.id == id ≡ true → x ≡ r → x.user_id == user ≡ true
    is_own e q = (==_iff x.user_id user).1 (ap (λ (c : Collection). c.user_id) q ∙ own)

-- Where ids are unique and no user has two active collections, an owner who activates a collection
-- gets it back as active; of the owner's collections it is then the only active one, no other
-- user's collection changes, and still no user has two active ones.
pub activate_owned :
    (id user : ℕ) (t : Collections) {r : Collection}
    → HasUniqueIds t
    → HasOneActive t
    → row_of id t ≡ some r
    → r.user_id ≡ user
    → (activate id (some user) false t ≡ (ok (some (set_active true r)), only_active id user t))
      × HasOneActive (only_active id user t)
unfolding activate
activate_owned id user t {r} u h found own =
    let one = only_active-HasOneActive id user t u h in
    let (owned, answer) = find_own id user t found own in
    (
      rw
          (
            owned,
            activated_table id user t,
            HasOneActive-satisfies_index (only_active id user t) one,
            answer,
          )
          refl,
      one,
    )

count-deactivate_siblings :
    (user : ℕ) (t : Collections)
    → (count (is_active_of user) (deactivate_siblings user t) ≡ 0)
      × ((other : ℕ)
          → count (is_active_of other) (deactivate_siblings user t) ≤ count (is_active_of other) t)
unfolding deactivate_siblings
count-deactivate_siblings user [] = (refl, λ other. omega arith)
count-deactivate_siblings user (r ∷ t) =
    let (none_left, fewer) = count-deactivate_siblings user t in
    (ground arith, λ other. let ih = fewer other in ground arith)

count-cleared :
    (active : Bool) (user : ℕ) (t : Collections)
    → (active ≡ true → count (is_active_of user) (cleared active user t) ≡ 0)
      × ((other : ℕ)
          → count (is_active_of other) (cleared active user t) ≤ count (is_active_of other) t)
count-cleared true user t =
    let (none_left, fewer) = count-deactivate_siblings user t in ((λ _. none_left), fewer)
count-cleared false user t = ((λ q. absurd (cc)), λ other. omega arith)

-- Where no user has two active collections, creating one never violates the index: it returns the
-- new row, which stands behind the others, and still no user has two active ones; a new active one
-- deactivates the owner's others.
pub create-HasOneActive :
    (id now user : ℕ) (n : NewCollection) (t : Collections)
    → HasOneActive t
    → (create id now user n t ≡ (
      ok (new_collection id now user n),
      cleared n.active user t ++ new_collection id now user n ∷ [],
    ))
      × HasOneActive (cleared n.active user t ++ new_collection id now user n ∷ [])
unfolding create HasOneActive
create-HasOneActive id now user n t h = (
  rw
      (HasOneActive-satisfies_index (cleared n.active user t ++ new_collection id now user n ∷ [])
        one)
      refl,
  one,
)
  where
    one : HasOneActive (cleared n.active user t ++ new_collection id now user n ∷ [])
    one other =
        let parts =
          count-append (is_active_of other) (cleared n.active user t)
            (new_collection id now user n) in
        let (none_left, fewer) = count-cleared n.active user t in
        let few = fewer other in
        let few' = h other in
        elim (Bool-cases (user == other)) [
          | inl e ↦
              let none_left' = λ (q : n.active ≡ true).
                ap (λ u. count (is_active_of u) (cleared n.active user t))
                  (sym ((==_iff user other).0 e))
                ∙ none_left q in
              ground arith
          | inr e ↦ ground arith
        ]
