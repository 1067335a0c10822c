-- ===== src/Collections/Refusal.antt =====
-- What an administrator's activation comes to.
use vision_bill.Collections.{
  Collection, Collections, violates_index, scoped, is_active_of, satisfies_index, set_active,
  activate,
}
use vision_bill.Collections.Active.{row_of, HasOneActive, satisfies_index-HasOneActive}
use vision_bill.Prelude.Keyed.{find?-key, find?-update_where_self, find?-update_where_ne}
use vision_bill.Prelude.Result.{err}
use vision_bill.Prelude.{
  ℕ, ◌≤◌, ◌≡◌, ◌≢◌, refl, ◌∙◌, Bool, true, [], ◌∷◌, some, inl, inr, arith, ◌==◌, Bool-cases, ==_iff,
  count, update_where,
}

count_two :
    (q : Collection → Bool) (id j : ℕ) (t : Collections) {r s : Collection}
    → row_of id t ≡ some r
    → row_of j t ≡ some s
    → j ≢ id
    → q r ≡ true
    → q s ≡ true
    → 2 ≤ count q t
count_two q id j [] h k ne qr qs = absurd (cc)
count_two q id j (x ∷ t) {r} {s} h k ne qr qs =
    let ih = count_two q id j t {r = r} {s = s} in
    let one_r = count_found q id t {r = r} in let one_s = count_found q j t {r = s} in ground arith
  where
    count_found :
        (q : Collection → Bool) (id : ℕ) (t : Collections) {r : Collection}
        → row_of id t ≡ some r
        → q r ≡ true
        → 1 ≤ count q t
    count_found q id [] h qr = absurd (cc)
    count_found q id (x ∷ t) {r} h qr = let ih = count_found q id t {r = r} in ground arith

-- An administrator who sees all collections cannot activate one while its owner has another
-- active one: nothing deactivates the owner's collections, so the index refuses the update.
pub activate_refused :
    (id j admin : ℕ) (t : Collections) {r s : Collection}
    → row_of id t ≡ some r
    → row_of j t ≡ some s
    → j ≢ id
    → s.active ≡ true
    → s.user_id ≡ r.user_id
    → activate id (some admin) true t ≡ (err violates_index, t)
unfolding activate HasOneActive
activate_refused id j admin t {r} {s} found other ne on same =
    let after = update_where (scoped id (some admin) true) (set_active true) t in
    elim (Bool-cases (satisfies_index after)) [
      | inl e ↦ absurd (
          crowded after (satisfies_index-HasOneActive after e r.user_id) (
            count_two (is_active_of r.user_id) id j after {r = set_active true r} {s = s}
              (find?-update_where_self (λ (c : Collection). c.id) _ (set_active true) id t
                (λ _. refl) found (in_reach r (find?-key (λ (c : Collection). c.id) id t found)))
              (find?-update_where_ne (λ (c : Collection). c.id) _ (set_active true) id j t
                  (λ x h. ground arith) (λ _. refl) ne
                ∙ other)
              ne (is_own r refl) (rw on (is_own s same))))
      | inr e ↦ rw e refl
    ]
  where
    in_reach : (c : Collection) → c.id ≡ id → scoped id (some admin) true c ≡ true
    in_reach c e = ground arith

    is_own : (c : Collection) → c.user_id ≡ r.user_id → c.user_id == r.user_id ≡ true
    is_own c e = (==_iff c.user_id r.user_id).1 e

    crowded :
        (t : Collections)
        → count (is_active_of r.user_id) t ≤ 1
        → 2 ≤ count (is_active_of r.user_id) t
        → ⊥
    crowded t h k = omega (arith, h, k)
