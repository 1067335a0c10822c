-- ===== src/Benchmark/Tasks.antt =====
-- The task queue of src/vision_bill/provider/db/benchmark_db.py and the worker of
-- src/vision_bill/service/benchmark_service.py. The three tables are lists of rows; each
-- transaction is one step. Times are in microseconds. `Float` and `plus` are the floats of the
-- summaries and their addition.
pub mod Lease
pub mod Exclusive
pub mod Execute
pub mod Ledger
pub mod Completion
pub mod Create
pub mod Stuck
mod Tests
use vision_bill.Prelude.{
  ℕ, zero, suc, ◌+◌, ◌*◌, ◌^◌, min, Bool, true, false, not, ◌&&◌, ◌||◌, List, [], ◌∷◌, ◌++◌, map,
  Option, none, some, ltb, leb, ◌==◌, if◌then◌else◌, Text, text_eq, filter, find?, any,
  update_where, sort_by,
}

pub data TaskStatus : Type 0 where
  queued running retrying waiting_for_model : TaskStatus

pub record Task : Type 0 where
  pub run_id : ℕ
  pub model_id : Text
  pub receipt_id : ℕ
  pub status : TaskStatus
  pub attempts : ℕ
  pub leased_until : Option ℕ
  pub retry_at : Option ℕ
  pub started_at : Option ℕ

-- PRIMARY KEY (run_id, model_id, receipt_id)
abbrev pub same_task : Task → Task → Bool
same_task t u =
    u.run_id == t.run_id && text_eq u.model_id t.model_id && u.receipt_id == t.receipt_id

abbrev pub is_due : ℕ → Option ℕ → Bool
is_due now none = true
is_due now (some at) = leb at now

-- `leased_until < now`, which a NULL does not satisfy.
abbrev pub has_lapsed : ℕ → Option ℕ → Bool
has_lapsed now none = false
has_lapsed now (some until) = ltb until now

-- The WHERE clause of `lease_task`.
abbrev pub is_ready : ℕ → TaskStatus → Option ℕ → Option ℕ → Bool
is_ready now queued retry_at until = is_due now retry_at
is_ready now retrying retry_at until = is_due now retry_at
is_ready now running retry_at until = has_lapsed now until
is_ready now waiting_for_model retry_at until = false

abbrev pub ready : ℕ → Task → Bool
ready now t = is_ready now t.status t.retry_at t.leased_until

-- ORDER BY run_id, receipt_id
abbrev pub lease_order : Task → Task → Bool
lease_order t u = ltb t.run_id u.run_id || t.run_id == u.run_id && leb t.receipt_id u.receipt_id

abbrev pub first? {ℓ} : {A : Type ℓ} → List A → Option A
first? [] = none
first? (x ∷ xs) = some x

-- Six minutes.
abbrev pub task_lease : ℕ
task_lease = 360_000_000

abbrev pub lease_row : ℕ → Task → Task
lease_row now t = record t {
  status = running;
  attempts = t.attempts + 1;
  started_at = some now;
  leased_until = some (now + task_lease);
}

abbrev pub leased : ℕ → Option Task → List Task → Option Task × List Task
leased now none tasks = (none, tasks)
leased now (some t) tasks = (some t, update_where (same_task t) (lease_row now) tasks)

-- The row that is returned was read before the UPDATE.
unfoldable pub lease_task : ℕ → List Task → Option Task × List Task
lease_task now tasks = leased now (first? (sort_by lease_order (filter (ready now) tasks))) tasks

-- `min(5 * 2 ** max(0, attempts), 300)` seconds.
unfoldable pub retry_delay : ℕ → ℕ
retry_delay attempts = min (5 * 2 ^ attempts) 300

unfoldable pub retry_task : ℕ → Task → Bool → List Task → List Task
retry_task now task waiting = update_where (same_task task) (λ t. record t {
  status = if waiting then waiting_for_model else retrying;
  leased_until = none;
  retry_at = some (now + retry_delay task.attempts * 1_000_000);
})

pub record ModelInfo : Type 0 where
  pub id : Text
  pub digest : Option Text

pub record Run : Type 0 where
  pub id : ℕ
  pub is_completed : Bool
  pub model_ids : List Text
  pub receipt_ids : List ℕ
  pub model_digests : List (Text × Option Text)
  pub completed_at : Option ℕ

module _ (Float : Type 0) (plus : Float → Float → Float) where
  pub record Summary : Type 0 where
    pub run_id : ℕ
    pub model_id : Text
    pub completed : ℕ
    pub succeeded : ℕ
    pub failed : ℕ
    pub total_score : Float
    pub total_confidence : ℕ
    pub total_attempts : ℕ
    pub total_latency_ms : Float

  pub record Board : Type 0 where
    pub runs : List Run
    pub tasks : List Task
    pub summaries : List Summary

  -- The keyword arguments of `finish_task`.
  pub record Report : Type 0 where
    pub success : Bool
    pub score : Float
    pub confidence : ℕ
    pub attempts : ℕ
    pub latency_ms : Float

  abbrev pub of_bool : Bool → ℕ
  of_bool true = 1
  of_bool false = 0

  abbrev pub is_summary_of : Task → Summary → Bool
  is_summary_of t s = s.run_id == t.run_id && text_eq s.model_id t.model_id

  abbrev pub add_report : Report → Summary → Summary
  add_report p s = record s {
    completed = s.completed + 1;
    succeeded = s.succeeded + of_bool p.success;
    failed = s.failed + of_bool (not p.success);
    total_score = plus s.total_score p.score;
    total_confidence = s.total_confidence + p.confidence;
    total_attempts = s.total_attempts + p.attempts;
    total_latency_ms = plus s.total_latency_ms p.latency_ms;
  }

  abbrev pub complete_run : ℕ → Run → Run
  complete_run now r = record r { is_completed = true; completed_at = some now }

  unfoldable pub finish_task : ℕ → Task → Report → Board → Board
  finish_task now task p b =
      let left = filter (λ t. not (same_task task t)) b.tasks in
      record {
        runs =
            update_where (λ r. r.id == task.run_id && not (any (λ t. t.run_id == task.run_id) left))
              (complete_run now) b.runs;
        tasks = left;
        summaries = update_where (is_summary_of task) (add_report p) b.summaries;
      }

  -- What the analysis of a task's receipt comes to: a result, an error that no retry helps
  -- (ValueError, FileNotFoundError), or any other one, a timeout among them.
  pub data Analysis : Type 0 where
    scored : Report → Analysis
    hopeless : Analysis
    transient : Analysis

  -- `finish_task(task, success=False)` with the defaults of the other arguments.
  abbrev pub failure : Float → Report
  failure zero_float = record {
    success = false;
    score = zero_float;
    confidence = 0;
    attempts = 1;
    latency_ms = zero_float;
  }

  -- `dict.get` on the digests that the run recorded.
  abbrev pub digest_of : Text → List (Text × Option Text) → Option Text
  digest_of m [] = none
  digest_of m ((k, d) ∷ ds) = if text_eq k m then d else digest_of m ds

  -- `expected_digest and model.digest and expected_digest != model.digest`
  abbrev pub digests_differ : Option Text → Option Text → Bool
  digests_differ (some (c ∷ e)) (some (d ∷ a)) = not (text_eq (c ∷ e) (d ∷ a))
  digests_differ _ _ = false

  abbrev pub with_tasks : Board → List Task → Board
  with_tasks b tasks = record b { tasks = tasks }

  unfoldable pub record_analysis : Float → ℕ → Task → Analysis → Board → Board
  record_analysis zero_float now task (scored p) b = finish_task now task p b
  record_analysis zero_float now task hopeless b = finish_task now task (failure zero_float) b
  record_analysis zero_float now task transient b = with_tasks b (retry_task now task false b.tasks)

  abbrev pub execute_on : Float → ℕ → Task → Analysis → Run → Option ModelInfo → Board → Board
  execute_on zero_float now task analysis run none b =
      with_tasks b (retry_task now task true b.tasks)
  execute_on zero_float now task analysis run (some m) b =
      if digests_differ (digest_of task.model_id run.model_digests) m.digest
      then with_tasks b (retry_task now task true b.tasks)
      else record_analysis zero_float now task analysis b

  abbrev pub execute_with :
      Float → ℕ → Task → Analysis → Option Run → List ModelInfo → Board → Board
  execute_with zero_float now task analysis none models b = b
  execute_with zero_float now task analysis (some run) models b =
      execute_on zero_float now task analysis run
        (find? (λ (m : ModelInfo). text_eq m.id task.model_id) models) b

  -- `BenchmarkService._execute`; `models` is `none` where the provider cannot be reached.
  unfoldable pub execute : Float → ℕ → Option (List ModelInfo) → Analysis → Task → Board → Board
  execute zero_float now none analysis task b = with_tasks b (retry_task now task false b.tasks)
  execute zero_float now (some models) analysis task b =
      execute_with zero_float now task analysis (find? (λ (r : Run). r.id == task.run_id) b.runs)
        models b

  -- What the world answers in one round of the worker: the time at which it leases, the time at
  -- which it is done, the models and the analysis of the leased task.
  pub record Round : Type 0 where
    pub leased_at : ℕ
    pub done_at : ℕ
    pub models : Option (List ModelInfo)
    pub analysis : Analysis

  abbrev pub proceed : Float → Round → Option Task → Board → Board
  proceed zero_float w none b = b
  proceed zero_float w (some task) b = execute zero_float w.done_at w.models w.analysis task b

  -- One round of `BenchmarkService._work`.
  unfoldable pub work_round : Float → Round → Board → Board
  work_round zero_float w b =
      let (task, tasks) = lease_task w.leased_at b.tasks in
      proceed zero_float w task (with_tasks b tasks)

  unfoldable pub work : Float → List Round → Board → Board
  work zero_float [] b = b
  work zero_float (w ∷ ws) b = work zero_float ws (work_round zero_float w b)
