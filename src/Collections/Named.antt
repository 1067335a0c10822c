-- ===== src/Collections/Named.antt =====
-- No user has two collections whose names differ only in case: what the conflict checks of the
-- service come to.
use vision_bill.Collections.{
  Collection, Collections, CollectionFault, name_conflict, Outcome, satisfies_index, commit,
  cleared, deactivate_siblings, NewCollection, new_collection, create, find_by_name,
}
use vision_bill.Collections.Service.{validate, after_check, create_collection}
use vision_bill.Names.{recase, normalize_collection_name}
use vision_bill.Prelude.Result.{Result, ok, err, ◌>>◌, guard}
use vision_bill.Prelude.{
  ℕ, ◌≤◌, ◌≡◌, refl, Bool, true, false, not, ◌&&◌, [], ◌∷◌, ◌++◌, none, inl, inr, arith, ◌==◌,
  Bool-cases, Option-cases, ==_iff, count, count-append, count-find?-none, Text, text_eq,
  text_eq→eq, is_some,
}

module _ (lower : ℕ → Text) where
  abbrev pub is_named : ℕ → Text → Collection → Bool
  is_named user name r = r.user_id == user && text_eq (recase lower r.name) (recase lower name)

  unfoldable pub HasUniqueNames : Collections → Type 0
  HasUniqueNames t = (user : ℕ) (name : Text) → count (is_named user name) t ≤ 1

  -- A statement that the index refuses keeps the names as well.
  pub commit-HasUniqueNames :
      {A : Type 0} (a : A) (before after : Collections)
      → HasUniqueNames before
      → HasUniqueNames after
      → HasUniqueNames (commit a before after).1
  commit-HasUniqueNames a before after h k = elim (Bool-cases (satisfies_index after)) [
    | inl e ↦ rw e k
    | inr e ↦ rw e h
  ]

  count-cleared_names :
      (q : Collection → Bool) (active : Bool) (user : ℕ) (t : Collections)
      → ((r : Collection) → q (record r { active = false }) ≡ q r)
      → count q (cleared active user t) ≡ count q t
  unfolding deactivate_siblings
  count-cleared_names q false user t same = refl
  count-cleared_names q true user [] same = refl
  count-cleared_names q true user (r ∷ t) same =
      let ih = count-cleared_names q true user t same in
      let same' = same r in
      elim (Bool-cases (r.user_id == user)) [
        | inl e ↦ rw (e, same r, ih) refl
        | inr e ↦ rw (e, ih) refl
      ]

  pub after_check-keeps :
      (A B : Type 0) (m : Result CollectionFault A) (t : Collections) (k : A → Outcome B)
      → HasUniqueNames t
      → ((a : A) → m ≡ ok a → HasUniqueNames (k a).1)
      → HasUniqueNames (after_check m t k).1
  after_check-keeps A B (ok a) t k h done = done a refl
  after_check-keeps A B (err e) t k h done = h

  -- A chain of checks that ends well ends with a passed test.
  pub last-ok :
      (m : Result CollectionFault (Unit {0})) (b : Bool) (f : CollectionFault) {u : Unit {0}}
      → (m >> guard b f) ≡ ok u
      → b ≡ true
  last-ok (ok a) true f h = refl
  last-ok (ok a) false f h = absurd (cc)
  last-ok (err e) b f h = absurd (cc)

  create-HasUniqueNames :
      (id now user : ℕ) (n : NewCollection) (t : Collections)
      → find_by_name lower user n.name t ≡ none
      → HasUniqueNames t
      → HasUniqueNames (create id now user n t).1
  unfolding create find_by_name HasUniqueNames
  create-HasUniqueNames id now user n t free h =
      commit-HasUniqueNames (new_collection id now user n) (cleared n.active user t) _ before after
    where
      before : (other : ℕ) (name : Text) → count (is_named other name) (cleared n.active user t) ≤ 1
      before other name =
          rw (count-cleared_names (is_named other name) n.active user t (λ r. refl)) (h other name)

      none_named :
          (o : ℕ) (m : Text)
          → user ≡ o
          → recase lower n.name ≡ m
          → count (λ r. r.user_id == o && text_eq (recase lower r.name) m) t ≡ 0
      none_named o m e f = rw (← e, ← f) (count-find?-none (is_named user n.name) t free)

      after :
          (other : ℕ) (name : Text)
          → count
              (is_named other name)
              (cleared n.active user t ++ new_collection id now user n ∷ [])
            ≤ 1
      after other name =
          rw
            (
              count-append (is_named other name) (cleared n.active user t)
                  (new_collection id now user n),
              count-cleared_names (is_named other name) n.active user t (λ r. refl),
            )
            (elim (Bool-cases (is_named other name (new_collection id now user n))) [
              | inl e ↦ rw e (
                  omega (
                    arith,
                    none_named other (recase lower name) ((==_iff user other).0 (ground arith))
                        (text_eq→eq (recase lower n.name) (recase lower name) (ground arith)),
                  ))
              | inr e ↦ rw e (omega (arith, h other name))
            ])

  -- Where the names of each user differ from one another in any case of letters, this still holds
  -- after a collection was created through the service, whatever the request.
  pub create_collection-HasUniqueNames :
      (id now : ℕ) (body : NewCollection) (user : ℕ) (t : Collections)
      → HasUniqueNames t
      → HasUniqueNames (create_collection lower id now body user t).1
  unfolding create_collection
  create_collection-HasUniqueNames id now body user t h =
      let name = normalize_collection_name body.name in
      after_check-keeps (Unit {0}) Collection
        (validate name body.color body.start_date body.end_date
          >> guard (not (is_some (find_by_name lower user name t))) name_conflict)
        t (λ _. create id now user (record body { name = name }) t) h
        (λ _ e.
          create-HasUniqueNames id now user (record body { name = name }) t
            (free (
              last-ok (validate name body.color body.start_date body.end_date)
                (not (is_some (find_by_name lower user name t))) name_conflict e))
            h)
    where
      free :
          not (is_some (find_by_name lower user (normalize_collection_name body.name) t)) ≡ true
          → find_by_name lower user (normalize_collection_name body.name) t ≡ none
      free h =
          elim (Option-cases (find_by_name lower user (normalize_collection_name body.name) t)) [
            | inl e ↦ e
            | inr (r, e) ↦ absurd (never (rw e at h))
          ]
        where
          never : not true ≡ true → ⊥
          never q = cc
