-- ===== src/Images/Lease.antt =====
-- What a claim does: `claim_for_analysis` on each branch, and that a lease is exclusive.
use vision_bill.Images.{
  ImageRow, Images, lease, claimable, claim_row, claims, has_id, claim_for_analysis,
}
use vision_bill.Prelude.Keyed.{
  HasUniqueKeys, find?-update_where_ne, find?-update_where_self, HasUniqueKeys-update_where,
  find?-and_absent, find?-and_true, find?-and_false, find?-and_found, update_where-none,
}
use vision_bill.Prelude.{
  ℕ, ◌+◌, ◌≤◌, ◌<◌, ◌≡◌, ◌≢◌, refl, true, false, Option, none, some, inl, inr, arith, find?,
  find?-sound, Option-cases, ==_iff,
}

-- The ids of the images are unique, as the PRIMARY KEY of the table demands.
abbrev pub HasUniqueIds : Images → Type 0
HasUniqueIds = HasUniqueKeys (λ (r : ImageRow). r.id)

-- The row with an id, as a primary-key lookup finds it.
abbrev pub row_of : ℕ → Images → Option ImageRow
row_of id t = find? (has_id id) t

-- A claim keeps the ids unique.
pub claim-HasUniqueIds :
    (now id : ℕ) (t : Images) → HasUniqueIds t → HasUniqueIds (claim_for_analysis now id t).1
unfolding claim_for_analysis
claim-HasUniqueIds now id t u =
    HasUniqueKeys-update_where (λ r. r.id) (claims now id) (claim_row now) id t (λ r. refl) u

-- A claim touches no other image.
pub claim_others :
    (now id j : ℕ) (t : Images) → j ≢ id → row_of j (claim_for_analysis now id t).1 ≡ row_of j t
unfolding claim_for_analysis
claim_others now id j t ne =
    find?-update_where_ne (λ r. r.id) (claims now id) (claim_row now) id j t
      (λ r h. ground (arith, ==_iff r.id id)) (λ r. refl) ne

-- A claim of a waiting or expired image succeeds: it returns the row as it is then stored, in
-- status `processing` with a fresh lease.
pub claim_free :
    (now id : ℕ) (t : Images) {r : ImageRow}
    → row_of id t ≡ some r
    → claimable now r ≡ true
    → ((claim_for_analysis now id t).0 ≡ some (claim_row now r))
      × (row_of id (claim_for_analysis now id t).1 ≡ some (claim_row now r))
unfolding claim_for_analysis
claim_free now id t {r} found free = (
  rw (find?-and_true (λ r. r.id) (claimable now) id t found free),
  find?-update_where_self (λ r. r.id) (claims now id) (claim_row now) id t (λ r. refl) found
      (rw (find?-sound (has_id id) t found, free)),
)

-- In a table with unique ids, a claim of an image that is absent, leased or done fails and changes
-- nothing.
claim_refused :
    (now id : ℕ) (t : Images)
    → HasUniqueIds t
    → ((r : ImageRow) → row_of id t ≡ some r → claimable now r ≡ false)
    → claim_for_analysis now id t ≡ (none, t)
unfolding claim_for_analysis
claim_refused now id t u busy =
    rw (miss, update_where-none (λ r. r.id) (claimable now) id (claim_row now) t miss)
  where
    miss : find? (claims now id) t ≡ none
    miss = elim (Option-cases (row_of id t)) [
      | inl e ↦ find?-and_absent (λ r. r.id) (claimable now) id t e
      | inr (r, e) ↦ find?-and_false (λ r. r.id) (claimable now) id t u e (busy r e)
    ]

-- A claim that succeeds found the image waiting or expired, and returns it as it then stands.
pub claim_taken :
    (now id : ℕ) (t : Images) {c : ImageRow}
    → HasUniqueIds t
    → (claim_for_analysis now id t).0 ≡ some c
    → (r : ImageRow) × (row_of id t ≡ some r) × (claimable now r ≡ true) × (c ≡ claim_row now r)
unfolding claim_for_analysis
claim_taken now id t u h = elim (Option-cases (find? (claims now id) t)) [
  | inl e ↦ absurd (ground arith)
  | inr (r, e) ↦
      let (found, free) = find?-and_found (λ r. r.id) (claimable now) id t u e in
      (r, found, free, ground arith)
]

-- In a table with unique ids, once an image is claimed, every further claim fails and changes
-- nothing for the length of the lease.
pub claim_exclusive :
    (now later id : ℕ) (t : Images) {c : ImageRow}
    → HasUniqueIds t
    → (claim_for_analysis now id t).0 ≡ some c
    → later ≤ now + lease
    → claim_for_analysis later id (claim_for_analysis now id t).1
      ≡ (none, (claim_for_analysis now id t).1)
claim_exclusive now later id t u h soon =
    let (r, found, free, _) = claim_taken now id t u h in
    claim_refused later id _ (claim-HasUniqueIds now id t u)
      (leased r (claim_free now id t found free).1)
  where
    leased :
        (r : ImageRow)
        → row_of id (claim_for_analysis now id t).1 ≡ some (claim_row now r)
        → (s : ImageRow) → row_of id (claim_for_analysis now id t).1 ≡ some s
        → claimable later s ≡ false
    leased r stored s e = rw (same (claim_row now r) s (cc)) (ground arith)
      where
        same : (a b : ImageRow) → some a ≡ some b → b ≡ a
        same a b q = cc

-- In a table with unique ids, an image that was claimed can be claimed again when the lease has
-- run out.
pub claim_after_expiry :
    (now later id : ℕ) (t : Images) {c : ImageRow}
    → HasUniqueIds t
    → (claim_for_analysis now id t).0 ≡ some c
    → now + lease < later
    → (claim_for_analysis later id (claim_for_analysis now id t).1).0 ≡ some (claim_row later c)
claim_after_expiry now later id t u h late =
    let (r, found, free, e) = claim_taken now id t u h in
    rw e ((claim_free later id _ (claim_free now id t found free).1 (ground arith)).0)
