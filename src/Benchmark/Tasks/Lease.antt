-- ===== src/Benchmark/Tasks/Lease.antt =====
-- Which tasks a lease hands out: only ready ones, never the same twice within its time, and never
-- one that waits for its model.
use vision_bill.Benchmark.Tasks.{
  Task, same_task, ready, lease_order, first?, lease_row, leased, lease_task, retry_delay,
}
use vision_bill.Prelude.Sorting.{All-sort_by}
use native.Mathlib.Nat.{pow-suc}
use vision_bill.Prelude.{
  ℕ, zero, suc, ◌^◌, ◌≤◌, ◌≡◌, refl, true, List, [], ◌∷◌, Option, none, some, arith, text_eq→eq,
  text_eq_refl, All, All-filter, filter, filter-holds, update_where, sort_by,
}

first?-All {κ} :
    (P : Task → Type κ) (ts : List Task) {t : Task} → All P ts → first? ts ≡ some t → P t
first?-All P [] a h = absurd (cc)
first?-All P (u ∷ ts) {t} a h = rw (← same u t h) a.0
  where
    same : (x y : Task) → some x ≡ some y → x ≡ y
    same x y q = cc

-- The candidates of a lease, in its order.
candidates : ℕ → List Task → List Task
candidates now tasks = sort_by lease_order (filter (ready now) tasks)

-- What a lease returns has whatever all tasks have, and is ready.
pub lease_task-All {κ} :
    (P : Task → Type κ) (now : ℕ) (tasks : List Task) {t : Task}
    → All P tasks
    → (lease_task now tasks).0 ≡ some t
    → P t × (ready now t ≡ true)
unfolding lease_task candidates
lease_task-All P now tasks {t} a h = go (first? (candidates now tasks)) refl h
  where
    go :
        (o : Option Task)
        → first? (candidates now tasks) ≡ o
        → (leased now o tasks).0 ≡ some t
        → P t × (ready now t ≡ true)
    go none e h = absurd (cc)
    go (some u) e h =
        let e' : first? (candidates now tasks) ≡ some t = cc in
        (
          first?-All P _ (All-sort_by P lease_order _ (All-filter P (ready now) tasks a)) e',
          first?-All (λ x. ready now x ≡ true) _
              (All-sort_by (λ x. ready now x ≡ true) lease_order _ (filter-holds (ready now) tasks))
              e',
        )

-- The table after a lease.
pub lease_task-table :
    (now : ℕ) (tasks : List Task) {t : Task}
    → (lease_task now tasks).0 ≡ some t
    → (lease_task now tasks).1 ≡ update_where (same_task t) (lease_row now) tasks
unfolding lease_task candidates
lease_task-table now tasks {t} h = go (first? (candidates now tasks)) h
  where
    go :
        (o : Option Task)
        → (leased now o tasks).0 ≡ some t
        → (leased now o tasks).1 ≡ update_where (same_task t) (lease_row now) tasks
    go none h = absurd (cc)
    go (some u) h = cc

pub lease_task-none :
    (now : ℕ) (tasks : List Task)
    → (lease_task now tasks).0 ≡ none
    → (lease_task now tasks).1 ≡ tasks
unfolding lease_task candidates
lease_task-none now tasks h = go (first? (candidates now tasks)) h
  where
    go : (o : Option Task) → (leased now o tasks).0 ≡ none → (leased now o tasks).1 ≡ tasks
    go none h = refl
    go (some u) h = absurd (cc)

-- Tasks that share a key with one task share it with one another.
pub same_task_trans :
    (t u x : Task) → same_task t x ≡ true → same_task u x ≡ true → same_task u t ≡ true
same_task_trans t u x h k = ground (
  arith,
  text_eq→eq x.model_id t.model_id,
  text_eq→eq x.model_id u.model_id,
  text_eq_refl x.model_id,
)

pub same_task_refl : (t : Task) → same_task t t ≡ true
same_task_refl t = ground (arith, text_eq_refl t.model_id)

-- The wait before the next attempt is from 5 seconds to 5 minutes, and never gets shorter with
-- the number of attempts.
retry_delay_bounds :
    (n : ℕ) → (5 ≤ retry_delay n) × (retry_delay n ≤ 300) × (retry_delay n ≤ retry_delay (suc n))
unfolding retry_delay
retry_delay_bounds n = rw pow-suc (let h = pow_pos n in (omega arith, omega arith, omega arith))
  where
    pow_pos : (n : ℕ) → 1 ≤ 2 ^ n
    pow_pos zero = omega arith
    pow_pos (suc n) = rw pow-suc (omega (arith, pow_pos n))
