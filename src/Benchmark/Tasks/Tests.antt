-- ===== src/Benchmark/Tasks/Tests.antt =====
-- Rounds of the benchmark worker on a run of two tasks, with natural numbers as floats.
use vision_bill.Benchmark.Tasks.{
  Task, queued, waiting_for_model, same_task, lease_task, retry_task, retry_delay, retrying, Run,
  Summary, Board, Report, Round, scored, transient, work,
}
use vision_bill.Benchmark.Tasks.Completion.{has_tasks, IsSettled, work-IsSettled}
use vision_bill.Benchmark.Tasks.Create.{with_run, create_run, has_unique_tasks, create_run-IsLedger}
use vision_bill.Benchmark.Tasks.Exclusive
use vision_bill.Benchmark.Tasks.Exclusive.{leasing, lease_exclusive}
use vision_bill.Benchmark.Tasks.Ledger.{HasUniqueTasks, IsBalanced, IsLedger, work-IsLedger}
use vision_bill.Benchmark.Tasks.Stuck.{IsStuck, work_never_resumes}
use vision_bill.Prelude.{
  ℕ, ◌+◌, ◌≡◌, refl, true, false, List, [], ◌∷◌, none, some, arith, Text, codes, text_eq, All,
}

abbrev model : Text
model = codes "qwen"

abbrev task : ℕ → Task
task receipt_id = record {
  run_id = 1;
  model_id = model;
  receipt_id = receipt_id;
  status = queued;
  attempts = 0;
  leased_until = none;
  retry_at = none;
  started_at = none;
}

abbrev tasks : List Task
tasks = task 5 ∷ task 6 ∷ []

abbrev add : ℕ → ℕ → ℕ
add a b = a + b

abbrev run : Run
run = record {
  id = 1;
  is_completed = false;
  model_ids = model ∷ [];
  receipt_ids = 5 ∷ 6 ∷ [];
  model_digests = [];
  completed_at = none;
}

abbrev summary : Summary ℕ add
summary = record {
  run_id = 1;
  model_id = model;
  completed = 0;
  succeeded = 0;
  failed = 0;
  total_score = 0;
  total_confidence = 0;
  total_attempts = 0;
  total_latency_ms = 0;
}

abbrev board : Board ℕ add
board = record { runs = run ∷ []; tasks = tasks; summaries = summary ∷ [] }

abbrev report : Report ℕ add
report = record { success = true; score = 90; confidence = 80; attempts = 1; latency_ms = 1200 }

-- Another worker leases the second task and puts it back, so it is leased again.
lease_exclusive_example :
    same_task (task 5) (record (task 6) {
      status = retrying;
      attempts = 1;
      retry_at = some 5_000_160;
      started_at = some 150;
    })
    ≡ false
unfolding lease_task retry_task retry_delay text_eq
lease_exclusive_example =
    lease_exclusive ℕ add 100 6_000_000 board
      (leasing 150 ∷ Exclusive.retrying 160 (task 6) false ∷ []) {t = task 5}
      {u = record (task 6) {
        status = retrying;
        attempts = 1;
        retry_at = some 5_000_160;
        started_at = some 150;
      }}
      refl (omega arith, (refl, tt)) (omega arith) refl

-- The first task succeeds, the second one times out once and then succeeds.
abbrev rounds : List (Round ℕ add)
rounds =
    record {
      leased_at = 10;
      done_at = 20;
      models = some (record { id = model; digest = none } ∷ []);
      analysis = scored report;
    }
    ∷ record {
      leased_at = 30;
      done_at = 40;
      models = some (record { id = model; digest = none } ∷ []);
      analysis = transient;
    }
    ∷ record {
      leased_at = 90_000_000;
      done_at = 90_000_010;
      models = some (record { id = model; digest = none } ∷ []);
      analysis = scored report;
    }
    ∷ []

work-IsLedger_example : IsLedger ℕ add (λ r m. 2) (work ℕ add 0 rounds board)
unfolding HasUniqueTasks IsBalanced text_eq
work-IsLedger_example =
    work-IsLedger ℕ add 0 (λ r m. 2) rounds board
      (record { unique = (refl, (refl, tt)); balanced = ((refl, refl), tt) })

work-IsSettled_example :
    All (IsSettled ℕ add (work ℕ add 0 rounds board).tasks) (work ℕ add 0 rounds board).runs
unfolding IsSettled has_tasks
work-IsSettled_example = work-IsSettled ℕ add 0 rounds board (refl, tt)

-- A task that lost its model, which is back in all the rounds.
abbrev stuck : Task
stuck = record (task 5) { status = waiting_for_model; retry_at = some 15 }

abbrev stuck_board : Board ℕ add
stuck_board = record board { tasks = stuck ∷ task 6 ∷ [] }

work_never_resumes_example : IsStuck stuck (work ℕ add 0 rounds stuck_board).tasks
unfolding text_eq
work_never_resumes_example =
    work_never_resumes stuck refl ℕ add 0 rounds stuck_board
      (record { found = refl; only = ((λ h. refl), ((λ h. absurd (cc)), tt)) })

abbrev empty_board : Board ℕ add
empty_board = record { runs = []; tasks = []; summaries = [] }

create_run-IsLedger_example :
    IsLedger ℕ add
      (with_run ℕ add 0 1 (5 ∷ 6 ∷ []) (λ r m. 0))
      (create_run ℕ add 0 1 (model ∷ []) (5 ∷ 6 ∷ []) [] empty_board).1
unfolding create_run has_unique_tasks text_eq HasUniqueTasks
create_run-IsLedger_example =
    create_run-IsLedger ℕ add 0 1 (5 ∷ 6 ∷ []) (model ∷ []) [] (λ r m. 0) empty_board
      (record { no_tasks = tt; no_summaries = tt }) (record { unique = tt; balanced = tt }) refl
