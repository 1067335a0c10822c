-- ===== src/Llm/Retry.antt =====
-- What the retry loop comes to for any sequence of answers.
use vision_bill.Llm.{
  Parsed, Messages, append_repair_message, LlmError, Verdict, settled, no_content, rejected,
  AnalysisResult, judge, attempt_from,
}
use vision_bill.Prelude.Result.{Result, ok, err}
use vision_bill.Receipts.{Receipt}
use vision_bill.Prelude.{ℕ, zero, suc, ◌+◌, ◌≤◌, ◌<◌, ◌≡◌, Option, Text}

-- A verdict after which the model is asked again.
unfoldable pub IsRetry : Verdict → Type 0
IsRetry (settled r) = ⊥
IsRetry no_content = Unit
IsRetry (rejected content error) = Unit

-- The messages after an answer: an answer that does not parse is sent back with its error.
unfoldable pub after : Verdict → Messages → Messages
after (rejected content error) messages = append_repair_message messages content error
after _ messages = messages

module _ (send : ℕ → Messages → Option Text) (parse : Text → Parsed) (messages : Messages) where
  -- The messages after the first `n` answers.
  unfoldable pub dialogue : ℕ → Messages
  dialogue zero = messages
  dialogue (suc n) = after (judge send parse (send (suc n) (dialogue n))) (dialogue n)

  -- What the answer to them means.
  unfoldable pub verdict : ℕ → Verdict
  verdict n = judge send parse (send (suc n) (dialogue n))

  -- The loop from the attempt after the first `n`, in terms of its verdicts.
  abbrev attempts_after : ℕ → ℕ → Result LlmError AnalysisResult
  attempts_after left n = attempt_from send parse left (suc n) (dialogue n)

  -- The answer after `k` others is the first from `n` on that ends the loop.
  pub record Settles (left n k : ℕ) (r : Result LlmError Receipt) : Type 0 where
    pub start : n ≤ k
    pub within : k < n + left
    pub last : verdict k ≡ settled r
    pub before : (j : ℕ) → n ≤ j → j < k → IsRetry (verdict j)

  -- All answers from `n` on want another attempt.
  unfoldable pub IsExhausted : ℕ → ℕ → Type 0
  IsExhausted left n = (j : ℕ) → n ≤ j → j < n + left → IsRetry (verdict j)

  -- The result for an outcome after `k` other answers.
  abbrev pub outcome : Result LlmError Receipt → ℕ → Result LlmError AnalysisResult
  outcome (ok r) k = ok (record { receipt = r; attempts = suc k })
  outcome (err e) k = err e
