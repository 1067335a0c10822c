-- ===== src/Benchmark/Tasks/Completion.antt =====
-- When a run is completed.
use vision_bill.Benchmark.Tasks.{
  Task, same_task, lease_row, retry_task, finish_task, Run, complete_run, Board, Report, with_tasks,
  Round, work_round, work,
}
use vision_bill.Benchmark.Tasks.Execute.{execute-cases, work_round-cases}
use vision_bill.Prelude.Sorting.{All-impl}
use vision_bill.Prelude.{
  ℕ, ◌≡◌, refl, Bool, false, not, ◌&&◌, List, [], ◌∷◌, inl, inr, arith, All, any, filter,
  update_where, Bool-cases, ◌==◌, if◌then◌else◌,
}

-- Whether some task of the run is left.
unfoldable pub has_tasks : ℕ → List Task → Bool
has_tasks run ts = any (λ t. t.run_id == run) ts

update-has_tasks :
    (run : ℕ) (k : Task → Bool) (f : Task → Task) (ts : List Task)
    → ((x : Task) → (f x).run_id ≡ x.run_id)
    → has_tasks run (update_where k f ts) ≡ has_tasks run ts
unfolding has_tasks
update-has_tasks run k f [] same = refl
update-has_tasks run k f (x ∷ ts) same = elim (Bool-cases (k x)) [
  | inl e ↦ rw (e, same x, update-has_tasks run k f ts same) refl
  | inr e ↦ rw (e, update-has_tasks run k f ts same) refl
]

-- Deleting a task does not matter to another run, and leaves no task where there was none.
delete-has_tasks :
    (run : ℕ) (t : Task) (ts : List Task)
    → (t.run_id == run ≡ false
        → has_tasks run (filter (λ x. not (same_task t x)) ts) ≡ has_tasks run ts)
      × (has_tasks run ts ≡ false → has_tasks run (filter (λ x. not (same_task t x)) ts) ≡ false)
unfolding has_tasks
delete-has_tasks run t [] = ((λ e. refl), (λ e. refl))
delete-has_tasks run t (x ∷ ts) =
    let (other, none_left) = delete-has_tasks run t ts in
    ((λ e. ground (arith, other e)), (λ e. ground (arith, none_left)))

module _ (Float : Type 0) (plus : Float → Float → Float) where
  -- A run is completed exactly if it has no task left.
  unfoldable pub IsSettled : List Task → Run → Type 0
  IsSettled ts r = r.is_completed ≡ not (has_tasks r.id ts)

  module _ (zero_float : Float) where
    update-IsSettled :
        (k : Task → Bool) (f : Task → Task) (ts : List Task) (rs : List Run)
        → ((x : Task) → (f x).run_id ≡ x.run_id)
        → All (IsSettled ts) rs
        → All (IsSettled (update_where k f ts)) rs
    unfolding IsSettled
    update-IsSettled k f ts rs same a =
        All-impl (IsSettled ts) (IsSettled (update_where k f ts)) rs
          (λ r h. rw (update-has_tasks r.id k f ts same) h) a

    finish-IsSettled :
        (now : ℕ) (t : Task) (p : Report Float plus) (b : Board Float plus)
        → All (IsSettled b.tasks) b.runs
        → All
            (IsSettled (finish_task Float plus now t p b).tasks)
            (finish_task Float plus now t p b).runs
    unfolding finish_task IsSettled has_tasks
    finish-IsSettled now t p b a = go b.runs a
      where
        settled :
            (r : Run)
            → IsSettled b.tasks r
            → IsSettled (filter (λ x. not (same_task t x)) b.tasks) (
                if r.id == t.run_id
                  && not (has_tasks t.run_id (filter (λ x. not (same_task t x)) b.tasks))
                then complete_run Float plus now r
                else r)
        settled r h = elim (Bool-cases (r.id == t.run_id)) [
          | inl e ↦
              elim (Bool-cases (has_tasks t.run_id (filter (λ x. not (same_task t x)) b.tasks))) [
                | inl e' ↦ let kept = (delete-has_tasks r.id t b.tasks).1 in ground (arith, kept, h)
                | inr e' ↦ ground arith
              ]
          | inr e ↦ let other = (delete-has_tasks r.id t b.tasks).0 in ground (arith, other, h)
        ]

        go :
            (rs : List Run)
            → All (IsSettled b.tasks) rs
            → All (IsSettled (filter (λ x. not (same_task t x)) b.tasks)) (
                update_where
                  (λ r.
                    r.id == t.run_id
                    && not (has_tasks t.run_id (filter (λ x. not (same_task t x)) b.tasks)))
                  (complete_run Float plus now)
                  rs)
        go [] a = tt
        go (r ∷ rs) a = (settled r a.0, go rs a.1)

    round-IsSettled :
        (w : Round Float plus) (b : Board Float plus)
        → All (IsSettled b.tasks) b.runs
        → All
            (IsSettled (work_round Float plus zero_float w b).tasks)
            (work_round Float plus zero_float w b).runs
    unfolding retry_task
    round-IsSettled w b a =
        work_round-cases Float plus zero_float (λ c. All (IsSettled c.tasks) c.runs) w b a
          (λ t e.
            let b' =
              with_tasks Float plus b
                (update_where (same_task t) (lease_row w.leased_at) b.tasks) in
            let a' =
              update-IsSettled (same_task t) (lease_row w.leased_at) b.tasks b.runs (λ x. refl) a in
            execute-cases Float plus zero_float (λ c. All (IsSettled c.tasks) c.runs) w.done_at
              w.models w.analysis t b' a'
              (λ waiting. update-IsSettled _ _ b'.tasks b.runs (λ x. refl) a')
              (λ p. finish-IsSettled w.done_at t p b' a'))

    -- If each run is completed exactly when no task of it is left, this still holds after any
    -- rounds of the worker.
    pub work-IsSettled :
        (ws : List (Round Float plus)) (b : Board Float plus)
        → All (IsSettled b.tasks) b.runs
        → All
            (IsSettled (work Float plus zero_float ws b).tasks)
            (work Float plus zero_float ws b).runs
    unfolding work
    work-IsSettled [] b a = a
    work-IsSettled (w ∷ ws) b a = work-IsSettled ws _ (round-IsSettled w b a)
