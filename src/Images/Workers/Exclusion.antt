-- ===== src/Images/Workers/Exclusion.antt =====
-- No two workers hold one image: the invariant of the workers' steps.
use vision_bill.Images.{
  NewImage, ImageRow, Images, processing, lease, claimable, claim_row, has_id, claim_for_analysis,
  mark_analyzed, mark_failed, mark_terminal, store_image, new_row, delete_image, is_terminal,
}
use vision_bill.Images.Lease.{
  HasUniqueIds, row_of, claim_taken, claim_free, claim_others, claim-HasUniqueIds,
}
use vision_bill.Images.Workers.{
  Hold, System, Ending, success, failure, terminal, end_work, Step, store, claim, finish, remove,
  wait, Reach, here, next, IsBacked, IsSafe,
}
use vision_bill.Prelude.Sorting.{All-impl}
use vision_bill.Prelude.Keyed.{
  keyed, find?-update_where_ne, HasUniqueKeys-update_where, HasUniqueKeys-append, find?-append_ne,
  find?-delete_self, find?-filter_ne, HasUniqueKeys-filter, find?-key,
}
use vision_bill.Prelude.{
  ℕ, ◌+◌, ◌≤◌, ◌≡◌, ◌≢◌, refl, ap, ◌∙◌, sym, true, not, List, [], ◌∷◌, Option, none, some, inl, inr,
  arith, find?, find?-All, All, All-filter, ◌==◌, Bool-cases, Option-cases, ==_iff,
}

abbrev image_of : Hold → ℕ
image_of h = h.image

end_work_others :
    (now id j : ℕ) (how : Ending) (t : Images)
    → j ≢ id
    → row_of j (end_work now id how t) ≡ row_of j t
unfolding end_work mark_analyzed mark_failed mark_terminal
end_work_others now id j (success rid) t ne =
    find?-update_where_ne (λ (r : ImageRow). r.id) (has_id id) _ id j t
      (λ r h. (==_iff r.id id).0 h) (λ r. refl) ne
end_work_others now id j (failure e) t ne =
    find?-update_where_ne (λ (r : ImageRow). r.id) (has_id id) _ id j t
      (λ r h. (==_iff r.id id).0 h) (λ r. refl) ne
end_work_others now id j (terminal st e) t ne = elim (Bool-cases (is_terminal st)) [
  | inl k ↦ rw k (
      find?-update_where_ne (λ (r : ImageRow). r.id) (has_id id)
        (λ r. record r { status = st; error = some e; processing_at = none }) id j t
        (λ r h. (==_iff r.id id).0 h) (λ r. refl) ne)
  | inr k ↦ rw k
]

end_work-HasUniqueIds :
    (now id : ℕ) (how : Ending) (t : Images) → HasUniqueIds t → HasUniqueIds (end_work now id how t)
unfolding end_work mark_analyzed mark_failed mark_terminal
end_work-HasUniqueIds now id (success rid) t u =
    HasUniqueKeys-update_where (λ (r : ImageRow). r.id) (has_id id) _ id t (λ r. refl) u
end_work-HasUniqueIds now id (failure e) t u =
    HasUniqueKeys-update_where (λ (r : ImageRow). r.id) (has_id id) _ id t (λ r. refl) u
end_work-HasUniqueIds now id (terminal st e) t u = elim (Bool-cases (is_terminal st)) [
  | inl k ↦ rw k (
      HasUniqueKeys-update_where (λ (r : ImageRow). r.id) (has_id id)
        (λ r. record r { status = st; error = some e; processing_at = none }) id t (λ r. refl) u)
  | inr k ↦ rw k u
]

-- Holds stay backed where the rows of the held images can only vanish or stay.
still-IsBacked :
    (now : ℕ) (t u : Images) (id : ℕ) (holds : List Hold)
    → find? (keyed image_of id) holds ≡ none
    → ((j : ℕ) → j ≢ id → row_of j u ≡ row_of j t)
    → All (IsBacked now t) holds
    → All (IsBacked now u) holds
still-IsBacked now t u id [] free same b = tt
still-IsBacked now t u id (h ∷ holds) free same b = (
  (b.0.0, λ r e. b.0.1 r (sym (same h.image (ground arith)) ∙ e)),
  still-IsBacked now t u id holds (ground arith) same b.1,
)

-- A claimed image is in nobody's hands.
claim_unheld :
    (s : System) (id : ℕ) (r : ImageRow)
    → IsSafe s
    → (claim_for_analysis s.now id s.images).0 ≡ some r
    → find? (keyed image_of id) s.holds ≡ none
claim_unheld s id r safe h = elim (Option-cases (find? (keyed image_of id) s.holds)) [
  | inl e ↦ e
  | inr (hold, e) ↦
      let (q, found, free, _) = claim_taken s.now id s.images safe.unique_ids h in
      let b = find?-All (IsBacked s.now s.images) (keyed image_of id) s.holds safe.backed e in
      let k : hold.image ≡ id = find?-key image_of id s.holds e in
      absurd (held q hold b (ap (λ j. row_of j s.images) k ∙ found) free)
]
  where
    held :
        (q : ImageRow) (hold : Hold)
        → IsBacked s.now s.images hold
        → row_of hold.image s.images ≡ some q
        → claimable s.now q ≡ true
        → ⊥
    held q hold b found free = let (st, at) = b.1 q found in clash q hold b.0 st at free
      where
        clash :
            (q : ImageRow) (hold : Hold)
            → s.now ≤ hold.since + lease
            → q.status ≡ processing
            → q.processing_at ≡ some hold.since
            → claimable s.now q ≡ true
            → ⊥
        clash q hold le st at free = ground arith

delete_others : (id j : ℕ) (t : Images) → j ≢ id → row_of j (delete_image id t) ≡ row_of j t
unfolding delete_image
delete_others id j t ne =
    find?-filter_ne (λ (r : ImageRow). r.id) (λ r. not (has_id id r)) j t (λ r e. ground arith)

delete-HasUniqueIds : (id : ℕ) (t : Images) → HasUniqueIds t → HasUniqueIds (delete_image id t)
unfolding delete_image
delete-HasUniqueIds id t u = HasUniqueKeys-filter (λ (r : ImageRow). r.id) _ t u

-- Holds stay backed when an image is deleted, held or not.
IsBacked-delete :
    (now id : ℕ) (t : Images) (holds : List Hold)
    → All (IsBacked now t) holds
    → All (IsBacked now (delete_image id t)) holds
unfolding delete_image
IsBacked-delete now id t holds b =
    All-impl (IsBacked now t) (IsBacked now (delete_image id t)) holds
      (λ h k. (k.0, λ r e. k.1 r (kept h r e))) b
  where
    kept :
        (h : Hold) (r : ImageRow)
        → row_of h.image (delete_image id t) ≡ some r
        → row_of h.image t ≡ some r
    kept h r e = elim (Bool-cases (h.image == id)) [
      | inl k ↦ absurd (
          gone r (ap (λ j. row_of j (delete_image id t)) (sym ((==_iff h.image id).0 k)) ∙ e)
            (find?-delete_self (λ (r : ImageRow). r.id) id t))
      | inr k ↦ sym (delete_others id h.image t (λ q. absurd (ground arith))) ∙ e
    ]
      where
        gone : {o : Option ImageRow} (r : ImageRow) → o ≡ some r → o ≡ none → ⊥
        gone r p q = cc

store_others :
    (s : System) (id j : ℕ) (n : NewImage)
    → j ≢ id
    → row_of j (store_image id s.now n s.images).1 ≡ row_of j s.images
unfolding store_image new_row
store_others s id j n ne =
    find?-append_ne (λ (r : ImageRow). r.id) j s.images (new_row id s.now n) (λ e. ne (sym e))

store-HasUniqueIds :
    (s : System) (id : ℕ) (n : NewImage)
    → HasUniqueIds s.images
    → row_of id s.images ≡ none
    → HasUniqueIds (store_image id s.now n s.images).1
unfolding store_image new_row
store-HasUniqueIds s id n u fresh =
    HasUniqueKeys-append (λ (r : ImageRow). r.id) s.images (new_row id s.now n) u fresh

-- The new hold of a claim is backed by the row that the claim wrote.
claim_backs :
    (s : System) (worker id : ℕ) (r : ImageRow)
    → IsSafe s
    → (claim_for_analysis s.now id s.images).0 ≡ some r
    → IsBacked s.now
        (claim_for_analysis s.now id s.images).1
        (record { worker = worker; image = id; since = s.now })
claim_backs s worker id r safe h =
    let (q, found, free, _) = claim_taken s.now id s.images safe.unique_ids h in
    (omega arith, λ v e. stored q v (claim_free s.now id s.images found free).1 e)
  where
    stored :
        (q v : ImageRow)
        → row_of id (claim_for_analysis s.now id s.images).1 ≡ some (claim_row s.now q)
        → row_of id (claim_for_analysis s.now id s.images).1 ≡ some v
        → (v.status ≡ processing) × (v.processing_at ≡ some s.now)
    stored q v a b = (
      ap (λ (w : ImageRow). w.status) (same a b),
      ap (λ (w : ImageRow). w.processing_at) (same a b),
    )
      where
        same :
            {o : Option ImageRow}
            → o ≡ some (claim_row s.now q)
            → o ≡ some v
            → v ≡ claim_row s.now q
        same x y = cc

module _ (hold_limit : ℕ) (short : hold_limit ≤ lease) where
  -- Each step keeps the holds exclusive and backed.
  Step-IsSafe : {s u : System} → Step hold_limit s u → IsSafe s → IsSafe u
  Step-IsSafe {s} (store id n fresh unheld e) k = rw e (record {
    unique_ids = store-HasUniqueIds s id n k.unique_ids fresh;
    exclusive = k.exclusive;
    backed =
        still-IsBacked s.now s.images _ id s.holds unheld (λ j ne. store_others s id j n ne)
          k.backed;
  })
  Step-IsSafe {s} (claim worker id r h e) k = rw e (record {
    unique_ids = claim-HasUniqueIds s.now id s.images k.unique_ids;
    exclusive = (claim_unheld s id r k h, k.exclusive);
    backed = (
      claim_backs s worker id r k h,
      still-IsBacked s.now s.images _ id s.holds (claim_unheld s id r k h)
          (λ j ne. claim_others s.now id j s.images ne) k.backed,
    );
  })
  Step-IsSafe {s} (finish id how e) k = rw e (record {
    unique_ids = end_work-HasUniqueIds s.now id how s.images k.unique_ids;
    exclusive = HasUniqueKeys-filter image_of _ s.holds k.exclusive;
    backed =
        still-IsBacked s.now s.images _ id _ (find?-delete_self image_of id s.holds)
          (λ j ne. end_work_others s.now id j how s.images ne)
          (All-filter (IsBacked s.now s.images) _ s.holds k.backed);
  })
  Step-IsSafe {s} (remove id e) k = rw e (record {
    unique_ids = delete-HasUniqueIds id s.images k.unique_ids;
    exclusive = k.exclusive;
    backed = IsBacked-delete s.now id s.images s.holds k.backed;
  })
  Step-IsSafe {s} (wait d in_time e) k = rw e (record {
    unique_ids = k.unique_ids;
    exclusive = k.exclusive;
    backed = later s.holds in_time k.backed;
  })
    where
      later :
          (holds : List Hold)
          → All (λ h. s.now + d ≤ h.since + hold_limit) holds
          → All (IsBacked s.now s.images) holds
          → All (IsBacked (s.now + d) s.images) holds
      later [] a b = tt
      later (h ∷ holds) a b = ((omega arith, b.0.1), later holds a.1 b.1)

  -- Where workers keep an image no longer than its lease, every state that is reached from a safe
  -- one is safe: however claims, endings, uploads, deletions and waiting interleave, no image is
  -- in the hands of two workers, and every held image that still exists is `processing` under the
  -- lease of its holder.
  pub Reach-IsSafe : {s u : System} → IsSafe s → Reach hold_limit s u → IsSafe u
  Reach-IsSafe safe here = safe
  Reach-IsSafe safe (next r st) = Step-IsSafe st (Reach-IsSafe safe r)
