-- ===== src/Benchmark/Tasks/Exclusive.antt =====
-- A leased task stays with its worker: what others do to the queue of
-- src/vision_bill/provider/db/benchmark_db.py in the meantime.
use vision_bill.Benchmark.Tasks.{
  Task, same_task, ready, task_lease, lease_row, lease_task, retry_task, Report, Board, finish_task,
}
use vision_bill.Benchmark.Tasks.Lease.{
  lease_task-All, lease_task-table, lease_task-none, same_task_trans,
}
use vision_bill.Prelude.{
  ℕ, ◌+◌, ◌≤◌, ◌≡◌, refl, sym, ◌∙◌, Bool, true, false, not, List, [], ◌∷◌, Option, none, some, inl,
  inr, arith, All, All-filter, update_where, Bool-cases,
}

module _ (Float : Type 0) (plus : Float → Float → Float) where
  -- What a worker does to the tasks: it leases one, puts one back to be retried or to wait for its
  -- model, or finishes one.
  pub data Deed : Type 0 where
    leasing : ℕ → Deed
    retrying : ℕ → Task → Bool → Deed
    finishing : ℕ → Task → Report Float plus → Deed

  abbrev pub happen : Deed → Board Float plus → Board Float plus
  happen (leasing at) b = record b { tasks = (lease_task at b.tasks).1 }
  happen (retrying at task waiting) b = record b { tasks = retry_task at task waiting b.tasks }
  happen (finishing at task report) b = finish_task Float plus at task report b

  abbrev pub happen_all : List Deed → Board Float plus → Board Float plus
  happen_all [] b = b
  happen_all (d ∷ ds) b = happen_all ds (happen d b)

  -- Until a time, nobody puts the task back or finishes it; leases are free.
  abbrev pub Leaves : Task → ℕ → Deed → Type 0
  Leaves t until (leasing at) = at ≤ until
  Leaves t until (retrying at task waiting) = same_task t task ≡ false
  Leaves t until (finishing at task report) = same_task t task ≡ false

  -- The rows of the task are not ready until then.
  IsTaken : Task → ℕ → Task → Type 0
  IsTaken t until x = (at : ℕ) → at ≤ until → same_task t x ≡ true → ready at x ≡ false

  clash : {b : Bool} → b ≡ false → b ≡ true → ⊥
  clash p q = cc

  lease-other :
      (t u : Task) (until at : ℕ) (tasks : List Task)
      → All (IsTaken t until) tasks
      → at ≤ until
      → (lease_task at tasks).0 ≡ some u
      → same_task t u ≡ false
  unfolding IsTaken
  lease-other t u until at tasks taken soon h =
      let (p, free) = lease_task-All (IsTaken t until) at tasks taken h in
      elim (Bool-cases (same_task t u)) [ inl e ↦ absurd (clash (p at soon e) free) | inr e ↦ e ]

  -- A statement on another task leaves the rows of this one.
  update_where-IsTaken :
      (t u : Task) (until : ℕ) (f : Task → Task) (tasks : List Task)
      → same_task t u ≡ false
      → ((x : Task) → same_task t (f x) ≡ same_task t x)
      → All (IsTaken t until) tasks
      → All (IsTaken t until) (update_where (same_task u) f tasks)
  unfolding IsTaken
  update_where-IsTaken t u until f [] other keeps a = tt
  update_where-IsTaken t u until f (x ∷ tasks) other keeps (now, later) =
      let rest = update_where-IsTaken t u until f tasks other keeps later in
      elim (Bool-cases (same_task u x)) [
        | inl e ↦ rw e (
          (λ at soon q. absurd (clash other (same_task_trans u t x e (sym (keeps x) ∙ q)))),
          rest,
        )
        | inr e ↦ rw e (now, rest)
      ]

  lease-IsTaken :
      (t : Task) (until at : ℕ) (tasks : List Task)
      → at ≤ until
      → All (IsTaken t until) tasks
      → All (IsTaken t until) (lease_task at tasks).1
  lease-IsTaken t until at tasks soon a = by_answer (lease_task at tasks).0 refl
    where
      by_answer :
          (o : Option Task)
          → (lease_task at tasks).0 ≡ o
          → All (IsTaken t until) (lease_task at tasks).1
      by_answer none e = rw (lease_task-none at tasks e) a
      by_answer (some u) e = rw (lease_task-table at tasks e) (
          update_where-IsTaken t u until (lease_row at) tasks
            (lease-other t u until at tasks a soon e) (λ x. refl) a)

  happen_all-IsTaken :
      (t : Task) (until : ℕ) (ds : List Deed) (b : Board Float plus)
      → All (Leaves t until) ds
      → All (IsTaken t until) b.tasks
      → All (IsTaken t until) (happen_all ds b).tasks
  unfolding retry_task finish_task
  happen_all-IsTaken t until [] b other a = a
  happen_all-IsTaken t until (leasing at ∷ ds) b (soon, other) a =
      happen_all-IsTaken t until ds _ other (lease-IsTaken t until at b.tasks soon a)
  happen_all-IsTaken t until (retrying at u waiting ∷ ds) b (ne, other) a =
      happen_all-IsTaken t until ds _ other
        (update_where-IsTaken t u until _ b.tasks ne (λ x. refl) a)
  happen_all-IsTaken t until (finishing at u report ∷ ds) b (ne, other) a =
      happen_all-IsTaken t until ds _ other
        (All-filter (IsTaken t until) (λ x. not (same_task u x)) b.tasks a)

  -- Within six minutes of a lease no worker gets the same task again, whatever workers do in the
  -- meantime, unless the task itself is put back to be retried, or finished.
  pub lease_exclusive :
      (now later : ℕ) (b : Board Float plus) (ds : List Deed) {t u : Task}
      → (lease_task now b.tasks).0 ≡ some t
      → All (Leaves t (now + task_lease)) ds
      → later ≤ now + task_lease
      → (lease_task later (happen_all (leasing now ∷ ds) b).tasks).0 ≡ some u
      → same_task t u ≡ false
  unfolding IsTaken
  lease_exclusive now later b ds {t} {u} h other soon k =
      lease-other t u (now + task_lease) later _
        (happen_all-IsTaken t (now + task_lease) ds (happen (leasing now) b) other
          (rw (lease_task-table now b.tasks h) (taken b.tasks)))
        soon k
    where
      taken :
          (ts : List Task)
          → All (IsTaken t (now + task_lease)) (update_where (same_task t) (lease_row now) ts)
      taken [] = tt
      taken (x ∷ ts) = elim (Bool-cases (same_task t x)) [
        | inl e ↦ rw e ((λ at early q. ground arith), taken ts)
        | inr e ↦ rw e ((λ at early q. absurd (clash e q)), taken ts)
      ]
