-- ===== src/Benchmark/Tasks/Create.antt =====
-- The start of a run: `create_run` of src/vision_bill/provider/db/benchmark_db.py. Its three
-- statements are committed one by one, so one that the primary keys refuse leaves the rows of
-- those before it.
use vision_bill.Benchmark.Tasks.{Task, queued, same_task, Run, Summary, Board, is_summary_of}
use vision_bill.Benchmark.Tasks.Ledger.{HasUniqueTasks, IsBalanced, IsLedger}
use vision_bill.Prelude.Result.{Result, ok, err}
use vision_bill.Prelude.Sorting.{All-impl}
use vision_bill.Prelude.{
  ℕ, ◌+◌, ◌≡◌, refl, Bool, true, false, List, [], ◌∷◌, ◌++◌, Option, none, inl, inr, arith, All,
  All-append, all, count, length, Bool-cases, ==_iff, ◌==◌, if◌then◌else◌, Text, text_eq,
}

abbrev new_task : ℕ → Text → ℕ → Task
new_task run m r = record {
  run_id = run;
  model_id = m;
  receipt_id = r;
  status = queued;
  attempts = 0;
  leased_until = none;
  retry_at = none;
  started_at = none;
}

-- `[(row["id"], m, r) for m in model_ids for r in receipt_ids]`
abbrev model_tasks : ℕ → Text → List ℕ → List Task
model_tasks run m [] = []
model_tasks run m (r ∷ rs) = new_task run m r ∷ model_tasks run m rs

abbrev new_tasks : ℕ → List Text → List ℕ → List Task
new_tasks run [] rs = []
new_tasks run (m ∷ ms) rs = model_tasks run m rs ++ new_tasks run ms rs

-- PRIMARY KEY (run_id, model_id, receipt_id) of the tasks and (run_id, model_id) of the summaries,
-- where the id of the run is new.
unfoldable pub has_unique_tasks : List Task → Bool
has_unique_tasks ts = all (λ t. count (same_task t) ts == 1) ts

abbrev has_unique_models : List Text → Bool
has_unique_models ms = all (λ m. count (text_eq m) ms == 1) ms

pub data CreateError : Type 0 where
  repeated_task repeated_model : CreateError

module _ (Float : Type 0) (plus : Float → Float → Float) (zero_float : Float) where
  abbrev new_summary : ℕ → Text → Summary Float plus
  new_summary run m = record {
    run_id = run;
    model_id = m;
    completed = 0;
    succeeded = 0;
    failed = 0;
    total_score = zero_float;
    total_confidence = 0;
    total_attempts = 0;
    total_latency_ms = zero_float;
  }

  abbrev new_summaries : ℕ → List Text → List (Summary Float plus)
  new_summaries run [] = []
  new_summaries run (m ∷ ms) = new_summary run m ∷ new_summaries run ms

  abbrev run_row : ℕ → List Text → List ℕ → List (Text × Option Text) → Run
  run_row run ms rs digests = record {
    id = run;
    is_completed = false;
    model_ids = ms;
    receipt_ids = rs;
    model_digests = digests;
    completed_at = none;
  }

  abbrev with_run_row :
      ℕ → List Text → List ℕ → List (Text × Option Text) → Board Float plus → Board Float plus
  with_run_row run ms rs digests b = record b { runs = b.runs ++ run_row run ms rs digests ∷ [] }

  unfoldable pub create_run :
      ℕ
      → List Text
      → List ℕ
      → List (Text × Option Text)
      → Board Float plus
      → Result CreateError Run × Board Float plus
  create_run run ms rs digests b =
      let tasks = b.tasks ++ new_tasks run ms rs in
      let started = with_run_row run ms rs digests b in
      if has_unique_tasks tasks
      then if has_unique_models ms
        then (
          ok (run_row run ms rs digests),
          record started { tasks = tasks; summaries = b.summaries ++ new_summaries run ms },
        )
        else (err repeated_model, record started { tasks = tasks })
      else (err repeated_task, started)

  -- Plans for earlier runs stay, and each model of the new one has all of its receipts to read.
  abbrev pub with_run : ℕ → List ℕ → (ℕ → Text → ℕ) → ℕ → Text → ℕ
  with_run run rs plan r m = if r == run then length rs else plan r m

  -- The id of the run is new.
  pub record IsNewRun (run : ℕ) (b : Board Float plus) : Type 0 where
    pub no_tasks : All (λ t. t.run_id == run ≡ false) b.tasks
    pub no_summaries : All (λ s. s.run_id == run ≡ false) b.summaries

  module _ (run : ℕ) (rs : List ℕ) where
    count-model_tasks :
        (m n : Text) (qs : List ℕ)
        → count (λ t. is_summary_of Float plus t (new_summary run m)) (model_tasks run n qs)
          ≡ (if text_eq m n then length qs else 0)
    count-model_tasks m n [] = ground arith
    count-model_tasks m n (q ∷ qs) =
        let ih = count-model_tasks m n qs in let same = (==_iff run run).1 refl in ground arith

    count-concat :
        (p : Task → Bool) (xs ys : List Task) → count p (xs ++ ys) ≡ count p xs + count p ys
    count-concat p [] ys = omega arith
    count-concat p (x ∷ xs) ys = let ih = count-concat p xs ys in ground arith

    -- The new tasks of a summary: one for each receipt, if the model was named once.
    count-new_tasks :
        (m : Text) (ms : List Text)
        → (count (text_eq m) ms ≡ 0
            → count (λ t. is_summary_of Float plus t (new_summary run m)) (new_tasks run ms rs) ≡ 0)
          × (count (text_eq m) ms ≡ 1
              → count (λ t. is_summary_of Float plus t (new_summary run m)) (new_tasks run ms rs)
                ≡ length rs)
    count-new_tasks m [] = ((λ h. refl), λ h. absurd (omega (arith, h)))
    count-new_tasks m (n ∷ ms) =
        let parts =
          count-concat (λ t. is_summary_of Float plus t (new_summary run m)) (model_tasks run n rs)
            (new_tasks run ms rs) in
        let first = count-model_tasks m n rs in
        let (none_left, one_left) = count-new_tasks m ms in
        elim (Bool-cases (text_eq m n)) [
          | inl e ↦ ((λ h. ground arith), λ h. let rest = none_left (ground arith) in ground arith)
          | inr e ↦ (
            (λ h. let rest = none_left (ground arith) in ground arith),
            λ h. let rest = one_left (ground arith) in ground arith,
          )
        ]

    -- No task of another run counts for a summary of this one.
    count-other_run :
        (s : Summary Float plus) (ts : List Task)
        → All (λ t. s.run_id == t.run_id ≡ false) ts
        → count (λ t. is_summary_of Float plus t s) ts ≡ 0
    count-other_run s [] a = refl
    count-other_run s (t ∷ ts) a = let ih = count-other_run s ts a.1 in let e = a.0 in ground arith

    all-All :
        (ts us : List Task)
        → all (λ t. count (same_task t) us == 1) ts ≡ true
        → All (λ t. count (same_task t) us ≡ 1) ts
    all-All [] us h = tt
    all-All (t ∷ ts) us h =
        ((==_iff (count (same_task t) us) 1).0 (ground arith), all-All ts us (ground arith))

    module _ (plan : ℕ → Text → ℕ) (b : Board Float plus) (new : IsNewRun run b) where
      old-IsBalanced :
          (ts : List Task) (s : Summary Float plus)
          → s.run_id == run ≡ false
          → All (λ t. s.run_id == t.run_id ≡ false) ts
          → IsBalanced Float plus plan b.tasks s
          → IsBalanced Float plus (with_run run rs plan) (b.tasks ++ ts) s
      unfolding IsBalanced
      old-IsBalanced ts s e a h =
          let parts = count-concat (λ t. is_summary_of Float plus t s) b.tasks ts in
          let others = count-other_run s ts a in
          let before = h.0 in rw e (omega (arith, parts, others, before), h.1)

      new-IsBalanced :
          (ms : List Text) (m : Text)
          → count (text_eq m) ms ≡ 1
          → IsBalanced Float plus
              (with_run run rs plan)
              (b.tasks ++ new_tasks run ms rs)
              (new_summary run m)
      unfolding IsBalanced
      new-IsBalanced ms m one =
          let parts =
            count-concat (λ t. is_summary_of Float plus t (new_summary run m)) b.tasks
              (new_tasks run ms rs) in
          let others = count-other_run (new_summary run m) b.tasks (
            All-impl (λ t. t.run_id == run ≡ false) _ b.tasks (λ t e. ground (arith, e))
              new.no_tasks) in
          let mine = (count-new_tasks m ms).1 one in
          rw ((==_iff run run).1 refl) (omega (arith, parts, others, mine), refl)

      model_tasks-run :
          (k : ℕ) (m : Text) (qs : List ℕ)
          → k == run ≡ false
          → All (λ t. k == t.run_id ≡ false) (model_tasks run m qs)
      model_tasks-run k m [] e = tt
      model_tasks-run k m (q ∷ qs) e = (e, model_tasks-run k m qs e)

      new_tasks-run :
          (k : ℕ) (ms : List Text)
          → k == run ≡ false
          → All (λ t. k == t.run_id ≡ false) (new_tasks run ms rs)
      new_tasks-run k [] e = tt
      new_tasks-run k (m ∷ ms) e =
          All-append (λ t. k == t.run_id ≡ false) (model_tasks run m rs) (new_tasks run ms rs)
            (model_tasks-run k m rs e) (new_tasks-run k ms e)

      old_summaries :
          (ms : List Text) (ss : List (Summary Float plus))
          → All (λ s. s.run_id == run ≡ false) ss
          → All (IsBalanced Float plus plan b.tasks) ss
          → All (IsBalanced Float plus (with_run run rs plan) (b.tasks ++ new_tasks run ms rs)) ss
      old_summaries ms [] e h = tt
      old_summaries ms (s ∷ ss) e h = (
        old-IsBalanced (new_tasks run ms rs) s e.0 (new_tasks-run s.run_id ms e.0) h.0,
        old_summaries ms ss e.1 h.1,
      )

      fresh_summaries :
          (ms ns : List Text)
          → all (λ m. count (text_eq m) ms == 1) ns ≡ true
          → All
              (IsBalanced Float plus (with_run run rs plan) (b.tasks ++ new_tasks run ms rs))
              (new_summaries run ns)
      fresh_summaries ms [] h = tt
      fresh_summaries ms (n ∷ ns) h = (
        new-IsBalanced ms n ((==_iff (count (text_eq n) ms) 1).0 (ground arith)),
        fresh_summaries ms ns (ground arith),
      )

      filled-IsLedger :
          (ms : List Text) (rows : List Run)
          → IsLedger Float plus plan b
          → has_unique_tasks (b.tasks ++ new_tasks run ms rs) ≡ true
          → has_unique_models ms ≡ true
          → IsLedger Float plus (with_run run rs plan) (record {
            runs = rows;
            tasks = b.tasks ++ new_tasks run ms rs;
            summaries = b.summaries ++ new_summaries run ms;
          })
      unfolding has_unique_tasks HasUniqueTasks
      filled-IsLedger ms rows l e f = record {
        unique = all-All (b.tasks ++ new_tasks run ms rs) (b.tasks ++ new_tasks run ms rs) e;
        balanced =
            All-append
              (IsBalanced Float plus (with_run run rs plan) (b.tasks ++ new_tasks run ms rs))
              b.summaries (new_summaries run ms)
              (old_summaries ms b.summaries new.no_summaries l.balanced) (fresh_summaries ms ms f);
      }

    -- Where the rows of a run with a new id are accepted and the accounts were balanced, each
    -- model of the run has all receipts before it, and the accounts of the earlier runs are
    -- balanced as before.
    pub create_run-IsLedger :
        (ms : List Text) (digests : List (Text × Option Text)) (plan : ℕ → Text → ℕ)
        (b : Board Float plus) {row : Run}
        → IsNewRun run b
        → IsLedger Float plus plan b
        → (create_run run ms rs digests b).0 ≡ ok row
        → IsLedger Float plus (with_run run rs plan) (create_run run ms rs digests b).1
    unfolding create_run
    create_run-IsLedger ms digests plan b {row} new l h =
        elim (Bool-cases (has_unique_tasks (b.tasks ++ new_tasks run ms rs))) [
          | inl e ↦ elim (Bool-cases (has_unique_models ms)) [
            | inl f ↦ rw (e, f) (filled-IsLedger plan b new ms _ l e f)
            | inr f ↦ absurd (never repeated_model (rw (e, f) at h))
          ]
          | inr e ↦ absurd (never repeated_task (rw e at h))
        ]
      where
        never : (x : CreateError) → ◌≡◌ {A = Result CreateError Run} (err x) (ok row) → ⊥
        never x q = cc
