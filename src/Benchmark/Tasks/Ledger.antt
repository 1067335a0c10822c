-- ===== src/Benchmark/Tasks/Ledger.antt =====
-- The accounts of a run: how its summaries and the tasks that are left add up.
use vision_bill.Benchmark.Tasks.{
  Task, same_task, lease_row, retry_task, finish_task, Summary, Board, Report, is_summary_of,
  add_report, of_bool, with_tasks, Round, work_round, work,
}
use vision_bill.Benchmark.Tasks.Execute.{execute-cases, work_round-cases}
use vision_bill.Benchmark.Tasks.Lease.{lease_task-All, same_task_trans}
use vision_bill.Prelude.Sorting.{All-impl}
use vision_bill.Prelude.{
  ◌∙◌, ℕ, ◌+◌, ◌≡◌, refl, Bool, true, false, not, ◌&&◌, List, [], ◌∷◌, inl, inr, arith, All,
  All-filter, All-update_where, filter, filter-holds, count, update_where, Bool-cases, Text,
  text_eq→eq, text_eq_refl, if◌then◌else◌,
}

module _ {ℓ} {A : Type ℓ} where
  -- What a filter takes away is counted apart.
  count-without :
      (p k : A → Bool) (xs : List A)
      → count p (filter (λ x. not (k x)) xs) + count (λ x. p x && k x) xs ≡ count p xs
  count-without p k [] = refl
  count-without p k (x ∷ xs) = let ih = count-without p k xs in ground arith

  count-pointwise : (p q : A → Bool) (xs : List A) → ((x : A) → p x ≡ q x) → count p xs ≡ count q xs
  count-pointwise p q [] h = refl
  count-pointwise p q (x ∷ xs) h = rw (h x, count-pointwise p q xs h) refl

  count-never : (p : A → Bool) (xs : List A) → ((x : A) → p x ≡ false) → count p xs ≡ 0
  count-never p [] h = refl
  count-never p (x ∷ xs) h = rw (h x) (count-never p xs h)

  count-update_where :
      (p k : A → Bool) (f : A → A) (xs : List A)
      → ((x : A) → p (f x) ≡ p x)
      → count p (update_where k f xs) ≡ count p xs
  count-update_where p k f [] h = refl
  count-update_where p k f (x ∷ xs) h = elim (Bool-cases (k x)) [
    | inl e ↦ rw (e, h x, count-update_where p k f xs h) refl
    | inr e ↦ rw (e, count-update_where p k f xs h) refl
  ]

-- The primary key of the tasks.
unfoldable pub HasUniqueTasks : List Task → Type 0
HasUniqueTasks ts = All (λ x. count (same_task x) ts ≡ 1) ts

update-HasUniqueTasks :
    (k : Task → Bool) (f : Task → Task) (ts : List Task)
    → ((x y : Task) → same_task y (f x) ≡ same_task y x)
    → ((x y : Task) → same_task (f x) y ≡ same_task x y)
    → HasUniqueTasks ts
    → HasUniqueTasks (update_where k f ts)
unfolding HasUniqueTasks
update-HasUniqueTasks k f ts right left u =
    All-update_where (λ x. count (same_task x) (update_where k f ts) ≡ 1) k f ts
      (λ x h _. count-pointwise (same_task (f x)) (same_task x) _ (left x) ∙ h)
      (All-impl (λ x. count (same_task x) ts ≡ 1) _ ts
        (λ x h. count-update_where (same_task x) k f ts (λ y. right y x) ∙ h) u)

-- Without the rows of one task, every other one is as unique as before.
delete-HasUniqueTasks :
    (t : Task) (ts : List Task)
    → HasUniqueTasks ts
    → HasUniqueTasks (filter (λ x. not (same_task t x)) ts)
unfolding HasUniqueTasks
delete-HasUniqueTasks t ts u =
    All-and _ (All-filter (λ x. count (same_task x) ts ≡ 1) _ ts u)
      (filter-holds (λ x. not (same_task t x)) ts)
  where
    still :
        (x : Task)
        → count (same_task x) ts ≡ 1
        → not (same_task t x) ≡ true
        → count (same_task x) (filter (λ y. not (same_task t y)) ts) ≡ 1
    still x h k = omega (
      arith,
      h,
      count-without (same_task x) (same_task t) ts,
      count-never (λ y. same_task x y && same_task t y) ts none_shared,
    )
      where
        none_shared : (y : Task) → same_task x y && same_task t y ≡ false
        none_shared y = elim (Bool-cases (same_task x y)) [
          | inl e ↦ elim (Bool-cases (same_task t y)) [
            | inl e' ↦ absurd (clash (same_task_trans x t y e e') k)
            | inr e' ↦ rw (e, e') refl
          ]
          | inr e ↦ rw e refl
        ]
          where
            clash : {b : Bool} → b ≡ true → not b ≡ true → ⊥
            clash p q = ground arith

    All-and :
        (xs : List Task)
        → All (λ x. count (same_task x) ts ≡ 1) xs
        → All (λ x. not (same_task t x) ≡ true) xs
        → All (λ x. count (same_task x) (filter (λ y. not (same_task t y)) ts) ≡ 1) xs
    All-and [] a b = tt
    All-and (x ∷ xs) a b = (still x a.0 b.0, All-and xs a.1 b.1)

module _ (Float : Type 0) (plus : Float → Float → Float) where
  -- What has been counted and what is left make up the planned number of tasks, and each counted
  -- task succeeded or failed.
  unfoldable pub IsBalanced : (ℕ → Text → ℕ) → List Task → Summary Float plus → Type 0
  IsBalanced plan ts s =
      (s.completed + count (λ t. is_summary_of Float plus t s) ts ≡ plan s.run_id s.model_id)
      × (s.succeeded + s.failed ≡ s.completed)

  pub record IsLedger (plan : ℕ → Text → ℕ) (b : Board Float plus) : Type 0 where
    pub unique : HasUniqueTasks b.tasks
    pub balanced : All (IsBalanced plan b.tasks) b.summaries

  module _ (zero_float : Float) (plan : ℕ → Text → ℕ) where
    update-IsLedger :
        (k : Task → Bool) (f : Task → Task) (b : Board Float plus)
        → ((x y : Task) → same_task y (f x) ≡ same_task y x)
        → ((x y : Task) → same_task (f x) y ≡ same_task x y)
        → ((x : Task) (s : Summary Float plus)
            → is_summary_of Float plus (f x) s ≡ is_summary_of Float plus x s)
        → IsLedger plan b
        → IsLedger plan (with_tasks Float plus b (update_where k f b.tasks))
    unfolding IsBalanced
    update-IsLedger k f b right left same l = record {
      unique = update-HasUniqueTasks k f b.tasks right left l.unique;
      balanced =
          All-impl (IsBalanced plan b.tasks) (IsBalanced plan (update_where k f b.tasks))
            b.summaries
            (λ s h. (
              omega (
                arith,
                h.0,
                count-update_where (λ t. is_summary_of Float plus t s) k f b.tasks (λ x. same x s),
              ),
              h.1,
            ))
            l.balanced;
    }

    retry-IsLedger :
        (now : ℕ) (t : Task) (waiting : Bool) (b : Board Float plus)
        → IsLedger plan b
        → IsLedger plan (with_tasks Float plus b (retry_task now t waiting b.tasks))
    unfolding retry_task
    retry-IsLedger now t waiting b l =
        update-IsLedger _ _ b (λ x y. refl) (λ x y. refl) (λ x s. refl) l

    -- The tasks of one summary that share a task's key.
    count_shared :
        (t : Task) (s : Summary Float plus) (ts : List Task)
        → count (λ x. is_summary_of Float plus x s && same_task t x) ts
          ≡ (if is_summary_of Float plus t s then count (same_task t) ts else 0)
    count_shared t s ts = elim (Bool-cases (is_summary_of Float plus t s)) [
      | inl e ↦ rw e (count-pointwise _ _ ts (λ x. both x e))
      | inr e ↦ rw e (count-never _ ts (λ x. neither x e))
    ]
      where
        both :
            (x : Task)
            → is_summary_of Float plus t s ≡ true
            → is_summary_of Float plus x s && same_task t x ≡ same_task t x
        both x e = ground (
          arith,
          text_eq→eq x.model_id t.model_id,
          text_eq→eq s.model_id t.model_id,
          text_eq_refl t.model_id,
        )

        neither :
            (x : Task)
            → is_summary_of Float plus t s ≡ false
            → is_summary_of Float plus x s && same_task t x ≡ false
        neither x e = ground (
          arith,
          text_eq→eq x.model_id t.model_id,
          text_eq→eq s.model_id x.model_id,
          text_eq_refl t.model_id,
        )

    finish-IsLedger :
        (now : ℕ) (t : Task) (p : Report Float plus) (b : Board Float plus)
        → count (same_task t) b.tasks ≡ 1
        → IsLedger plan b
        → IsLedger plan (finish_task Float plus now t p b)
    unfolding finish_task IsBalanced
    finish-IsLedger now t p b one l = record {
      unique = delete-HasUniqueTasks t b.tasks l.unique;
      balanced = go b.summaries l.balanced;
    }
      where
        left : List Task
        left = filter (λ x. not (same_task t x)) b.tasks

        settled :
            (s : Summary Float plus)
            → IsBalanced plan b.tasks s
            → IsBalanced plan
                (filter (λ x. not (same_task t x)) b.tasks)
                (if is_summary_of Float plus t s then add_report Float plus p s else s)
        settled s h =
            let parts = count-without (λ x. is_summary_of Float plus x s) (same_task t) b.tasks in
            let shared = count_shared t s b.tasks in
            elim (Bool-cases (is_summary_of Float plus t s)) [
              | inl e ↦ rw e (
                  let shared' = rw e at shared in
                  (omega (arith, h.0, parts, shared', one), outcome))
              | inr e ↦
                  rw e (let shared' = rw e at shared in (omega (arith, h.0, parts, shared'), h.1))
            ]
          where
            outcome :
                (s.succeeded + of_bool Float plus p.success)
                  + (s.failed + of_bool Float plus (not p.success))
                ≡ s.completed + 1
            outcome = ground (arith, h.1)

        go :
            (ss : List (Summary Float plus))
            → All (IsBalanced plan b.tasks) ss
            → All
                (IsBalanced plan (filter (λ x. not (same_task t x)) b.tasks))
                (update_where (is_summary_of Float plus t) (add_report Float plus p) ss)
        go [] a = tt
        go (s ∷ ss) a = (settled s a.0, go ss a.1)

    round-IsLedger :
        (w : Round Float plus) (b : Board Float plus)
        → IsLedger plan b
        → IsLedger plan (work_round Float plus zero_float w b)
    unfolding HasUniqueTasks
    round-IsLedger w b l = work_round-cases Float plus zero_float (IsLedger plan) w b l (λ t e.
        let one =
          (lease_task-All (λ x. count (same_task x) b.tasks ≡ 1) w.leased_at b.tasks l.unique
            e).0 in
        let b' =
          with_tasks Float plus b (update_where (same_task t) (lease_row w.leased_at) b.tasks) in
        let l' =
          update-IsLedger (same_task t) (lease_row w.leased_at) b (λ x y. refl) (λ x y. refl)
            (λ x s. refl) l in
        let one' =
          count-update_where (same_task t) (same_task t) (lease_row w.leased_at) b.tasks (λ x. refl)
          ∙ one in
        execute-cases Float plus zero_float (IsLedger plan) w.done_at w.models w.analysis t b' l'
          (λ waiting. retry-IsLedger w.done_at t waiting b' l')
          (λ p. finish-IsLedger w.done_at t p b' one' l'))

    -- If keys of tasks are unique and, in every summary, the tasks that are counted and the tasks
    -- that are left add up to the planned number and the counted ones are those that succeeded and
    -- those that failed, then this still holds after any rounds of the worker, whatever it is
    -- answered.
    pub work-IsLedger :
        (ws : List (Round Float plus)) (b : Board Float plus)
        → IsLedger plan b
        → IsLedger plan (work Float plus zero_float ws b)
    unfolding work
    work-IsLedger [] b l = l
    work-IsLedger (w ∷ ws) b l = work-IsLedger ws _ (round-IsLedger w b l)
