-- ===== src/Benchmark/Tasks/Execute.antt =====
-- The ways in which one round of the worker can end.
use vision_bill.Benchmark.Tasks.{
  Task, same_task, lease_row, lease_task, retry_task, finish_task, ModelInfo, Board, Report,
  Analysis, scored, hopeless, transient, failure, digests_differ, digest_of, with_tasks,
  record_analysis, execute_on, execute_with, execute, Round, work_round, Run,
}
use vision_bill.Benchmark.Tasks.Lease.{lease_task-table, lease_task-none}
use vision_bill.Prelude.{
  ℕ, ◌≡◌, Bool, true, false, List, Option, none, some, find?, update_where, Bool-cases, inl, inr,
  text_eq, ◌==◌, Option-cases,
}

module _ (Float : Type 0) (plus : Float → Float → Float) (zero_float : Float) where
  -- A leased task is left alone (its run is gone), put back for a retry, or finished.
  pub execute-cases {ℓ} :
      (P : Board Float plus → Type ℓ) (now : ℕ) (models : Option (List ModelInfo))
      (a : Analysis Float plus) (t : Task) (b : Board Float plus)
      → P b
      → ((waiting : Bool) → P (with_tasks Float plus b (retry_task now t waiting b.tasks)))
      → ((p : Report Float plus) → P (finish_task Float plus now t p b))
      → P (execute Float plus zero_float now models a t b)
  unfolding execute record_analysis
  execute-cases P now none a t b gone retry finish = retry false
  execute-cases P now (some models) a t b gone retry finish =
      with_run (find? (λ (r : Run). r.id == t.run_id) b.runs)
    where
      recorded : (a : Analysis Float plus) → P (record_analysis Float plus zero_float now t a b)
      recorded (scored p) = finish p
      recorded hopeless = finish (failure Float plus zero_float)
      recorded transient = retry false

      with_model :
          (r : Run) (m : Option ModelInfo) → P (execute_on Float plus zero_float now t a r m b)
      with_model r none = retry true
      with_model r (some m) =
          elim (Bool-cases (
            digests_differ Float plus (digest_of Float plus t.model_id r.model_digests) m.digest)) [
              | inl e ↦ rw e (retry true)
              | inr e ↦ rw e (recorded a)
            ]

      with_run : (r : Option Run) → P (execute_with Float plus zero_float now t a r models b)
      with_run none = gone
      with_run (some r) = with_model r (find? (λ (m : ModelInfo). text_eq m.id t.model_id) models)

  -- A round leases nothing and changes nothing, or ends the task that it leased.
  pub work_round-cases {ℓ} :
      (P : Board Float plus → Type ℓ) (w : Round Float plus) (b : Board Float plus)
      → P b
      → ((t : Task)
          → (lease_task w.leased_at b.tasks).0 ≡ some t
          → P (
              execute Float plus zero_float w.done_at w.models w.analysis t (
                with_tasks Float plus b
                  (update_where (same_task t) (lease_row w.leased_at) b.tasks))))
      → P (work_round Float plus zero_float w b)
  unfolding work_round
  work_round-cases P w b idle busy = elim (Option-cases (lease_task w.leased_at b.tasks).0) [
    | inl e ↦ rw (e, lease_task-none w.leased_at b.tasks e) idle
    | inr (t, e) ↦ rw (e, lease_task-table w.leased_at b.tasks e) (busy t e)
  ]
