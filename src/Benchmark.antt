-- ===== src/Benchmark.antt =====
-- Benchmark runs: the scoring of an extraction and the queue of tasks
-- (src/vision_bill/service/benchmark_scoring.py, provider/db/benchmark_db.py and
-- service/benchmark_service.py).
pub mod Scoring
pub mod Tasks
