-- ===== src/Benchmark/Tasks/Stuck.antt =====
-- A task that waits for its model is never looked at again.
use vision_bill.Benchmark.Tasks.{
  Task, waiting_for_model, same_task, ready, lease_row, retry_task, finish_task, Board, Report,
  with_tasks, execute, Round, work_round, work,
}
use vision_bill.Benchmark.Tasks.Execute.{execute-cases, work_round-cases}
use vision_bill.Benchmark.Tasks.Lease.{lease_task-All, same_task_trans}
use vision_bill.Prelude.{
  ℕ, ◌≡◌, refl, Bool, true, false, not, List, [], ◌∷◌, some, inl, inr, arith, All, All-filter,
  All-update_where, filter, find?, update_where, Bool-cases,
}

-- The row of the task `u` is in the table as it was, and no other row has its key.
pub record IsStuck (u : Task) (tasks : List Task) : Type 0 where
  pub found : find? (same_task u) tasks ≡ some u
  pub only : All (λ x. same_task u x ≡ true → x ≡ u) tasks

module _ (u : Task) (waits : u.status ≡ waiting_for_model) where
  -- A ready task is another one.
  ready_other :
      (t : Task)
      → (same_task u t ≡ true → t ≡ u)
      → (now : ℕ) → ready now t ≡ true
      → same_task u t ≡ false
  ready_other t only now h = elim (Bool-cases (same_task u t)) [
    | inl e ↦ absurd (never t (only e) h)
    | inr e ↦ e
  ]
    where
      never : (x : Task) → x ≡ u → ready now x ≡ true → ⊥
      never x e h = waiting (rw e at h)
        where
          waiting : ready now u ≡ true → ⊥
          waiting q = ground arith

  module _ (t : Task) (other : same_task u t ≡ false) where
    outside : (x : Task) → same_task u x ≡ true → same_task t x ≡ false
    outside x h = elim (Bool-cases (same_task t x)) [
      | inl e ↦ absurd (clash (same_task_trans t u x e h) other)
      | inr e ↦ e
    ]
      where
        clash : {b : Bool} → b ≡ true → b ≡ false → ⊥
        clash p q = cc

    -- A write to another task leaves the stuck one alone.
    update-IsStuck :
        (f : Task → Task) (tasks : List Task)
        → ((x : Task) → same_task u (f x) ≡ same_task u x)
        → IsStuck u tasks
        → IsStuck u (update_where (same_task t) f tasks)
    update-IsStuck f tasks keeps s = record {
      found = find_update tasks s.found;
      only =
          All-update_where (λ x. same_task u x ≡ true → x ≡ u) (same_task t) f tasks
            (λ x k h e. absurd (clash (outside x (keeps' x e)) h)) s.only;
    }
      where
        clash : {b : Bool} → b ≡ false → b ≡ true → ⊥
        clash p q = cc

        keeps' : (x : Task) → same_task u (f x) ≡ true → same_task u x ≡ true
        keeps' x e = rw (← keeps x) e

        find_update :
            (ts : List Task)
            → find? (same_task u) ts ≡ some u
            → find? (same_task u) (update_where (same_task t) f ts) ≡ some u
        find_update [] h = absurd (cc)
        find_update (x ∷ ts) h = elim (Bool-cases (same_task u x)) [
          | inl e ↦ rw (outside x e, e) (rw e at h)
          | inr e ↦ elim (Bool-cases (same_task t x)) [
            | inl k ↦ rw (k, keeps x, e) (find_update ts (rw e at h))
            | inr k ↦ rw (k, e) (find_update ts (rw e at h))
          ]
        ]

    delete-IsStuck :
        (tasks : List Task) → IsStuck u tasks → IsStuck u (filter (λ x. not (same_task t x)) tasks)
    delete-IsStuck tasks s = record {
      found = find_filter tasks s.found;
      only = All-filter (λ x. same_task u x ≡ true → x ≡ u) (λ x. not (same_task t x)) tasks s.only;
    }
      where
        find_filter :
            (ts : List Task)
            → find? (same_task u) ts ≡ some u
            → find? (same_task u) (filter (λ x. not (same_task t x)) ts) ≡ some u
        find_filter [] h = absurd (cc)
        find_filter (x ∷ ts) h = elim (Bool-cases (same_task u x)) [
          | inl e ↦ rw (outside x e, e) (rw e at h)
          | inr e ↦ elim (Bool-cases (same_task t x)) [
            | inl k ↦ rw k (find_filter ts (rw e at h))
            | inr k ↦ rw (k, e) (find_filter ts (rw e at h))
          ]
        ]

    module _ (Float : Type 0) (plus : Float → Float → Float) (zero_float : Float) where
      retry-IsStuck :
          (now : ℕ) (waiting : Bool) (tasks : List Task)
          → IsStuck u tasks
          → IsStuck u (retry_task now t waiting tasks)
      unfolding retry_task
      retry-IsStuck now waiting tasks s = update-IsStuck _ tasks (λ x. refl) s

      finish-IsStuck :
          (now : ℕ) (p : Report Float plus) (b : Board Float plus)
          → IsStuck u b.tasks
          → IsStuck u (finish_task Float plus now t p b).tasks
      unfolding finish_task
      finish-IsStuck now p b s = delete-IsStuck b.tasks s

  module _ (Float : Type 0) (plus : Float → Float → Float) (zero_float : Float) where
    round-IsStuck :
        (w : Round Float plus) (b : Board Float plus)
        → IsStuck u b.tasks
        → IsStuck u (work_round Float plus zero_float w b).tasks
    round-IsStuck w b s =
        work_round-cases Float plus zero_float (λ c. IsStuck u c.tasks) w b s
          (λ t e.
            leased t
              (lease_task-All (λ x. same_task u x ≡ true → x ≡ u) w.leased_at b.tasks s.only e))
      where
        leased :
            (t : Task)
            → (same_task u t ≡ true → t ≡ u) × (ready w.leased_at t ≡ true)
            → IsStuck u
                (execute Float plus zero_float w.done_at w.models w.analysis t (
                  with_tasks Float plus b
                    (update_where (same_task t) (lease_row w.leased_at) b.tasks))).tasks
        leased t k =
            let other = ready_other t k.0 w.leased_at k.1 in
            let b' =
              with_tasks Float plus b
                (update_where (same_task t) (lease_row w.leased_at) b.tasks) in
            let s' = update-IsStuck t other (lease_row w.leased_at) b.tasks (λ x. refl) s in
            execute-cases Float plus zero_float (λ c. IsStuck u c.tasks) w.done_at w.models
              w.analysis t b' s'
              (λ waiting. retry-IsStuck t other Float plus zero_float w.done_at waiting b'.tasks s')
              (λ p. finish-IsStuck t other Float plus zero_float w.done_at p b' s')

    -- A task with a unique key that was put back to wait for its model stays in the table as it
    -- is, whatever models become available and however many rounds the worker makes.
    pub work_never_resumes :
        (ws : List (Round Float plus)) (b : Board Float plus)
        → IsStuck u b.tasks
        → IsStuck u (work Float plus zero_float ws b).tasks
    unfolding work
    work_never_resumes [] b s = s
    work_never_resumes (w ∷ ws) b s = work_never_resumes ws _ (round-IsStuck w b s)
