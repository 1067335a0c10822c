-- ===== src/Collections/Renamed.antt =====
-- Renaming a collection keeps the names of its owner apart.
use vision_bill.Collections.{
  Collection, Collections, scoped, write, update, get, find_by_name, name_conflict,
}
use vision_bill.Collections.Active.{HasUniqueIds}
use vision_bill.Collections.Named.{
  is_named, HasUniqueNames, commit-HasUniqueNames, after_check-keeps, last-ok,
}
use vision_bill.Collections.Service.{
  validate, Change, new_name, or_else, is_other, update_current, update_collection,
}
use vision_bill.Names.{recase}
use vision_bill.Prelude.Result.{◌>>◌, guard}
use vision_bill.Prelude.{
  ℕ, ◌+◌, ◌≤◌, ◌≡◌, ◌⊎◌, refl, sym, ap, ◌∙◌, Bool, true, false, not, ◌&&◌, ◌||◌, List, [], ◌∷◌,
  Option, none, some, inl, inr, arith, ◌==◌, Bool-cases, ==_iff, find?, count, update_where, Text,
  text_eq, text_eq→eq, text_eq_refl, is_some, count-find?-none,
}

-- A key belongs to at most one row.
count-has_id : (id : ℕ) (t : Collections) → HasUniqueIds t → count (λ r. r.id == id) t ≤ 1
count-has_id id [] u = omega arith
count-has_id id (r ∷ t) u = elim (Bool-cases (r.id == id)) [
  | inl e ↦
      let rest =
        count_absent t
          (ap (λ k. find? (λ (c : Collection). c.id == k) t) (sym ((==_iff r.id id).0 e)) ∙ u.0) in
      ground arith
  | inr e ↦ let ih = count-has_id id t u.1 in ground arith
]
  where
    count_absent :
        (t : Collections) → find? (λ r. r.id == id) t ≡ none → count (λ r. r.id == id) t ≡ 0
    count_absent t h = count-find?-none (λ r. r.id == id) t h

module _ (q : Collection → Bool) (id user : ℕ) (f : Collection → Collection) where
  -- Whatever an update of one row writes, rows with a property are the updated one or were there.
  count-update_one :
      (t : Collections)
      → count q (update_where (scoped id (some user) false) f t)
        ≤ count (λ r. q r && not (r.id == id)) t + count (λ r. r.id == id) t
  count-update_one [] = omega arith
  count-update_one (r ∷ t) = let ih = count-update_one t in ground arith

  count-split :
      (t : Collections)
      → count (λ r. q r && r.id == id) t + count (λ r. q r && not (r.id == id)) t ≡ count q t
  count-split [] = refl
  count-split (r ∷ t) = let ih = count-split t in ground arith

  -- An update that gives no row the property makes no more of them.
  count-update_less :
      (t : Collections)
      → ((r : Collection) → r.user_id ≡ user → q (f r) ≡ false)
      → count q (update_where (scoped id (some user) false) f t) ≤ count q t
  count-update_less [] never = omega arith
  count-update_less (r ∷ t) never =
      let ih = count-update_less t never in let gone = never r in ground arith

  count_of_found :
      (t : Collections) {r : Collection}
      → find? q t ≡ some r
      → r.id == id ≡ true
      → 1 ≤ count (λ r. q r && r.id == id) t
  count_of_found [] h e = absurd (cc)
  count_of_found (x ∷ t) {r} h e = let ih = count_of_found t {r = r} in ground arith

module _ (lower : ℕ → Text) (id user : ℕ) (t : Collections) (u : HasUniqueIds t)
    (h : HasUniqueNames lower t) where
  -- The new name is free, or it is the name that the collection has.
  IsFree : Text → Type 0
  IsFree name =
      (count (is_named lower user name) t ≡ 0)
      ⊎ (1 ≤ count (λ r. is_named lower user name r && r.id == id) t)

  update-HasUniqueNames :
      (name : Text) (color : Option Text) (start end_date : Option ℕ)
      → IsFree name
      → HasUniqueNames lower (update id (some user) false name color start end_date t).1
  unfolding update HasUniqueNames IsFree
  update-HasUniqueNames name color start end_date free =
      commit-HasUniqueNames lower
        (find? (scoped id (some user) false)
          (update_where (scoped id (some user) false) (write name color start end_date) t))
        t _ h after
    where
      at_name :
          count
            (is_named lower user name)
            (update_where (scoped id (some user) false) (write name color start end_date) t)
          ≤ 1
      at_name =
          let bound =
            count-update_one (is_named lower user name) id user (write name color start end_date)
              t in
          let split =
            count-split (is_named lower user name) id user (write name color start end_date) t in
          let unique = count-has_id id t u in
          let few = h user name in
          elim free [
            | inl zero_named ↦ omega (arith, bound, split, unique, few, zero_named)
            | inr own ↦ omega (arith, bound, split, unique, few, own)
          ]

      after :
          (other : ℕ) (m : Text)
          → count
              (is_named lower other m)
              (update_where (scoped id (some user) false) (write name color start end_date) t)
            ≤ 1
      after other m =
          elim (Bool-cases (user == other && text_eq (recase lower name) (recase lower m))) [
            | inl e ↦
                same_name other (recase lower m) ((==_iff user other).0 (ground arith))
                  (text_eq→eq (recase lower name) (recase lower m) (ground arith))
            | inr e ↦
                let less =
                  count-update_less (is_named lower other m) id user
                    (write name color start end_date) t (λ r k. ground (arith, k)) in
                omega (arith, less, h other m)
          ]
        where
          same_name :
              (o : ℕ) (k : Text)
              → user ≡ o
              → recase lower name ≡ k
              → count
                  (λ r. r.user_id == o && text_eq (recase lower r.name) k)
                  (update_where (scoped id (some user) false) (write name color start end_date) t)
                ≤ 1
          same_name o k e e' = rw (← e, ← e') at_name

  -- The row that the service reads has its own name.
  own-IsFree :
      (c : List Collection) {current : Collection}
      → find? (scoped id (some user) false) c ≡ some current
      → 1 ≤ count (λ r. is_named lower user current.name r && r.id == id) c
  own-IsFree [] e = absurd (cc)
  own-IsFree (x ∷ c) {current} e = elim (Bool-cases (scoped id (some user) false x)) [
    | inl k ↦ named k current.name (ap (λ (r : Collection). r.name) (same (rw k at e)))
    | inr k ↦ let ih = own-IsFree c {current = current} (rw k at e) in ground arith
  ]
    where
      same : {a b : Collection} → some a ≡ some b → a ≡ b
      same q = cc

      named :
          scoped id (some user) false x ≡ true
          → (m : Text) → x.name ≡ m
          → 1 ≤ count (λ r. is_named lower user m r && r.id == id) (x ∷ c)
      named k m q = rw (← q) (let refl_name = text_eq_refl (recase lower x.name) in ground arith)

  checked-IsFree :
      (name : Text) → not (is_other id (find_by_name lower user name t)) ≡ true → IsFree name
  unfolding find_by_name IsFree
  checked-IsFree name e = go (find? (is_named lower user name) t) refl e
    where
      go :
          (o : Option Collection)
          → find? (is_named lower user name) t ≡ o
          → not (is_other id o) ≡ true
          → IsFree name
      go none k e = inl (count-find?-none (is_named lower user name) t k)
      go (some r) k e =
          inr (count_of_found (is_named lower user name) id user (λ x. x) t k (ground arith))

  new-IsFree :
      (body : Change) (current : Collection)
      → get id (some user) false t ≡ some current
      → (not (is_some body.name)
          || not (is_other id (find_by_name lower user (new_name body current) t)))
        ≡ true
      → IsFree (new_name body current)
  unfolding get IsFree
  new-IsFree body current k e = go body.name refl
    where
      go : (o : Option Text) → body.name ≡ o → IsFree (new_name body current)
      go none q = rw q (inr (own-IsFree t k))
      go (some raw) q = checked-IsFree (new_name body current) (rw q (rw q at e))

  -- Where ids are unique and the names of each user differ from one another in any case of
  -- letters, this still holds after an owner has changed a collection through the service,
  -- whatever the request.
  pub update_collection-HasUniqueNames :
      (body : Change) → HasUniqueNames lower (update_collection lower id body (some user) false t).1
  unfolding update_collection
  update_collection-HasUniqueNames body = go (get id (some user) false t) refl
    where
      go :
          (o : Option Collection)
          → get id (some user) false t ≡ o
          → HasUniqueNames lower (update_current lower id body (some user) false o t).1
      go none e = h
      go (some current) e =
          let name = new_name body current in
          let color = or_else body.color current.color in
          let start = or_else body.start_date current.start_date in
          let end_date = or_else body.end_date current.end_date in
          let free =
            not (is_some body.name) || not (is_other id (find_by_name lower user name t)) in
          after_check-keeps lower (Unit {0}) (Option Collection)
            (validate name color start end_date >> guard free name_conflict) t
            (λ _. update id (some user) false name color start end_date t) h
            (λ _ k. update-HasUniqueNames name color start end_date (
              new-IsFree body current e
                (last-ok lower (validate name color start end_date) free name_conflict k)))
