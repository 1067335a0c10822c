-- ===== src/Collections/Scoped.antt =====
-- What the scoped statements of src/vision_bill/provider/db/collection_db.py leave for the index, and
-- when they leave the table alone.
use vision_bill.Access.{in_scope}
use vision_bill.Collections.{Collection, Collections, scoped, is_active_of, update_scoped}
use vision_bill.Collections.Active.{
  row_of, HasUniqueIds, HasOneActive, HasOneActive-satisfies_index,
}
use vision_bill.Prelude.Keyed.{update_where-none, find?-and_found}
use vision_bill.Prelude.Result.{ok}
use vision_bill.Prelude.{
  ℕ, ◌≤◌, ◌≡◌, ◌⊎◌, refl, ap, sym, ◌∙◌, Bool, true, false, not, ◌&&◌, List, [], ◌∷◌, Option, none,
  some, inl, inr, arith, ◌==◌, ==_iff, find?, any, filter, count, update_where,
}

module _ {ℓ} {A : Type ℓ} (q : A → Bool) where
  count-update_where :
      (p : A → Bool) (f : A → A) (t : List A)
      → ((x : A) → q (f x) ≡ true → q x ≡ true)
      → count q (update_where p f t) ≤ count q t
  count-update_where p f [] fewer = omega arith
  count-update_where p f (x ∷ t) fewer =
      let ih = count-update_where p f t fewer in let now = fewer x in ground arith

  count-filter : (p : A → Bool) (t : List A) → count q (filter p t) ≤ count q t
  count-filter p [] = omega arith
  count-filter p (x ∷ t) = let ih = count-filter p t in ground arith

  find?-updated :
      (f : A → A) (t : List A)
      → ((x : A) → q (f x) ≡ q x)
      → find? q (update_where q f t) ≡ none
      → find? q t ≡ none
  find?-updated f [] keeps h = refl
  find?-updated f (x ∷ t) keeps h = let now = keeps x in ground (arith, find?-updated f t keeps)

  -- Where no row is found, none is deleted.
  pub filter-absent : (t : List A) → find? q t ≡ none → filter (λ x. not (q x)) t ≡ t
  filter-absent [] h = refl
  filter-absent (x ∷ t) h = ground (arith, filter-absent t)

  pub filter-not-any : (t : List A) → any q t ≡ false → filter (λ x. not (q x)) t ≡ t
  filter-not-any [] h = refl
  filter-not-any (x ∷ t) h = ground (arith, filter-not-any t)

-- Statements that activate no row keep the index satisfied.
updated-HasOneActive :
    (p : Collection → Bool) (f : Collection → Collection) (t : Collections)
    → ((user : ℕ) (r : Collection) → is_active_of user (f r) ≡ true → is_active_of user r ≡ true)
    → HasOneActive t
    → HasOneActive (update_where p f t)
unfolding HasOneActive
updated-HasOneActive p f t fewer h user =
    omega (arith, h user, count-update_where (is_active_of user) p f t (fewer user))

pub filter-HasOneActive :
    (p : Collection → Bool) (t : Collections) → HasOneActive t → HasOneActive (filter p t)
unfolding HasOneActive
filter-HasOneActive p t h user = omega (arith, h user, count-filter (is_active_of user) p t)

-- An UPDATE that activates nothing never fails, and where it returns no row it changed none.
pub update_scoped-cases :
    (f : Collection → Collection) (id : ℕ) (user_id : Option ℕ) (sees : Bool) (t : Collections)
    → HasOneActive t
    → ((r : Collection) → scoped id user_id sees (f r) ≡ scoped id user_id sees r)
    → ((user : ℕ) (r : Collection) → is_active_of user (f r) ≡ true → is_active_of user r ≡ true)
    → (update_scoped f id user_id sees t ≡ (ok none, t))
      ⊎ ((r : Collection) × (t' : Collections) × (update_scoped f id user_id sees t
            ≡ (ok (some r), t'))
          × HasOneActive t')
update_scoped-cases f id user_id sees t h keeps fewer =
    by_answer (find? (scoped id user_id sees) after) refl
  where
    after : Collections
    after = update_where (scoped id user_id sees) f t

    one : HasOneActive after
    one = updated-HasOneActive (scoped id user_id sees) f t fewer h

    untouched : find? (scoped id user_id sees) after ≡ none → after ≡ t
    untouched e =
        update_where-none (λ (r : Collection). r.id) (λ r. in_scope user_id sees (some r.user_id))
          id f t (find?-updated (scoped id user_id sees) f t keeps e)

    by_answer :
        (o : Option Collection)
        → find? (scoped id user_id sees) after ≡ o
        → (update_scoped f id user_id sees t ≡ (ok none, t))
          ⊎ ((r : Collection) × (t' : Collections) × (update_scoped f id user_id sees t
                ≡ (ok (some r), t'))
              × HasOneActive t')
    by_answer none e =
        inl (rw (HasOneActive-satisfies_index after one, e) (ap (λ c. (ok none, c)) (untouched e)))
    by_answer (some r) e = inr (r, after, rw (HasOneActive-satisfies_index after one, e) refl, one)

-- A collection that a user owns is found by its id.
pub any-row_of :
    (id user : ℕ) (t : Collections)
    → HasUniqueIds t
    → any (λ r. r.id == id && r.user_id == user) t ≡ true
    → (r : Collection) × (row_of id t ≡ some r) × (r.user_id ≡ user)
any-row_of id user t u h = by_row (find? (λ r. r.id == id && r.user_id == user) t) refl
  where
    absent :
        (c : Collections)
        → find? (λ r. r.id == id && r.user_id == user) c ≡ none
        → any (λ r. r.id == id && r.user_id == user) c ≡ false
    absent [] e = refl
    absent (x ∷ c) e = ground (arith, absent c)

    by_row :
        (o : Option Collection)
        → find? (λ r. r.id == id && r.user_id == user) t ≡ o
        → (r : Collection) × (row_of id t ≡ some r) × (r.user_id ≡ user)
    by_row none e = let clash = sym h ∙ absent t e in absurd (cc)
    by_row (some r) e =
        let (row, own) =
          find?-and_found (λ (r : Collection). r.id) (λ r. r.user_id == user) id t {x = r} u e in
        (r, row, (==_iff r.user_id user).0 own)
