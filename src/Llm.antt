-- ===== src/Llm.antt =====
-- Reading a model's answer and asking again: `LLMProvider.parse_llm_response` of
-- src/vision_bill/provider/llm/base.py and the retry loop `analyse_receipt_with_metadata` that
-- provider/llm/openai.py and provider/llm/ollama.py share. The model's answer (`none` where the
-- client raises), the JSON parser and the validation of pydantic are arguments.
pub mod Retry
mod Tests
use vision_bill.Extraction.{MultiImageReceipt, Fault, reconciled}
use vision_bill.Names.{is_space}
use vision_bill.Prelude.Result.{Result, ok, err}
use vision_bill.Receipts.{Receipt}
use vision_bill.Money.{Decimal}
use vision_bill.Prelude.{
  ℕ, zero, suc, ◌+◌, ◌-◌, Bool, true, false, not, ◌&&◌, ◌||◌, List, [], ◌∷◌, ◌++◌, Option, none,
  some, ltb, ◌==◌, if◌then◌else◌, Text, codes, text_eq, take, drop, length,
}

mutual
  pub data Json : Type 0 where
    null : Json
    boolean : Bool → Json
    number : Text → Json
    string : Text → Json
    array : Items → Json
    object : Fields → Json

  pub data Items : Type 0 where
    no_items : Items
    item : Json → Items → Items

  pub data Fields : Type 0 where
    no_fields : Fields
    field : Text → Json → Fields → Fields

-- `dict.get`
abbrev pub get_field : Text → Fields → Option Json
get_field k no_fields = none
get_field k (field j v fs) = if text_eq j k then some v else get_field k fs

-- `text.startswith(prefix)`
abbrev pub starts_with : Text → Text → Bool
starts_with [] s = true
starts_with (c ∷ p) [] = false
starts_with (c ∷ p) (d ∷ s) = c == d && starts_with p s

abbrev pub removeprefix : Text → Text → Text
removeprefix p s = if starts_with p s then drop (length p) s else s

-- The end of the text that has the suffix's length is compared with it.
abbrev pub removesuffix : Text → Text → Text
removesuffix p s =
    let n = length s - length p in
    if text_eq (drop n s) p && not (ltb (length s) (length p)) then take n s else s

abbrev pub lstrip : Text → Text
lstrip [] = []
lstrip (c ∷ s) = if is_space c then lstrip s else c ∷ s

abbrev pub rstrip : Text → Text
rstrip [] = []
rstrip (c ∷ s) = ended (rstrip s)
  where
    ended : Text → Text
    ended [] = if is_space c then [] else c ∷ []
    ended (d ∷ t) = c ∷ d ∷ t

-- `response.strip().removeprefix("```json").removesuffix("```").strip()`
unfoldable pub raw_text : Text → Text
raw_text response = lstrip (
    rstrip (removesuffix (codes "```") (removeprefix (codes "```json") (lstrip (rstrip response)))))

-- A receipt, the model's word that the photo is unreadable, or a ValueError with its message.
pub data Parsed : Type 0 where
  read : Receipt → Parsed
  unreadable malformed : Text → Parsed

abbrev pub unreadable_of : Option Json → Option Json → Option Text
unreadable_of (some (string code)) (some (string message)) =
    if text_eq code (codes "unreadable") then some (take 1000 message) else none
unreadable_of _ _ = none

-- The message of `{"error": {"code": "unreadable", "message": …}}`.
unfoldable pub unreadable_message : Option Json → Option Text
unreadable_message (some (object fs)) = of_error (get_field (codes "error") fs)
  where
    of_error : Option Json → Option Text
    of_error (some (object es)) =
        unreadable_of (get_field (codes "code") es) (get_field (codes "message") es)
    of_error _ = none
unreadable_message _ = none

module _ (fold : ℕ → Text) (similarity : Text → Text → Decimal) (json_loads : Text → Option Json)
    (validate : Text → Result Text Receipt) (validate_multi : Text → Result Text MultiImageReceipt)
    (fault_message : Fault → Text) where
  abbrev pub of_validation : Result Text Receipt → Parsed
  of_validation (ok r) = read r
  of_validation (err e) = malformed (codes "LLM output failed validation: " ++ e)

  abbrev pub of_reconciled : Result Fault Receipt → Parsed
  of_reconciled (ok r) = read r
  of_reconciled (err f) = malformed (fault_message f)

  abbrev pub of_multi : ℕ → Result Text MultiImageReceipt → Parsed
  of_multi image_count (ok m) = of_reconciled (reconciled fold similarity image_count m)
  of_multi image_count (err e) = malformed (codes "LLM output failed validation: " ++ e)

  unfoldable pub parse_llm_response : ℕ → Text → Parsed
  parse_llm_response image_count response =
      of_payload (unreadable_message (json_loads (raw_text response)))
    where
      of_payload : Option Text → Parsed
      of_payload (some message) = unreadable message
      of_payload none =
          if ltb 1 image_count
          then of_multi image_count (validate_multi (raw_text response))
          else of_validation (validate (raw_text response))

-- A letter of the pattern in either case; IGNORECASE also equates `i` with U+0130 and U+0131.
abbrev pub same_letter : ℕ → ℕ → Bool
same_letter c d = c == d || c == d + 32 || c == b'i' && (d == 0x130 || d == 0x131)

abbrev pub starts_with_letters : Text → Text → Bool
starts_with_letters [] s = true
starts_with_letters (c ∷ p) [] = false
starts_with_letters (c ∷ p) (d ∷ s) = same_letter c d && starts_with_letters p s

abbrev pub has_image : Text → Bool
has_image [] = false
has_image (c ∷ s) = starts_with_letters (codes "image") (c ∷ s) || has_image s

-- `re.search(r"provide.*image", content, re.IGNORECASE | re.DOTALL)`
unfoldable pub asks_for_image : Text → Bool
asks_for_image [] = false
asks_for_image (c ∷ s) =
    starts_with_letters (codes "provide") (c ∷ s) && has_image (drop 7 (c ∷ s)) || asks_for_image s

unfoldable pub cannot_see : Text → Bool
cannot_see content =
    let start = lstrip content in
    not (starts_with (codes "{") start || starts_with (codes "```") start) && asks_for_image content

pub data Message : Type 0 where
  prompt : Text → List Text → Message
  assistant user : Text → Message

abbrev pub Messages : Type 0
Messages = List Message

abbrev pub append_repair_message : Messages → Text → Text → Messages
append_repair_message messages bad_output error =
    messages
    ++ assistant bad_output
      ∷ user (
          codes "That response was not valid JSON matching the required schema. Error: "
          ++ error
          ++ codes "\n\nPlease respond again with ONLY corrected JSON.")
      ∷ []

pub data LlmError : Type 0 where
  client_error no_vision no_valid_response : LlmError
  unreadable_receipt : Text → LlmError

-- What one answer means for the loop.
pub data Verdict : Type 0 where
  settled : Result LlmError Receipt → Verdict
  no_content : Verdict
  rejected : Text → Text → Verdict

pub record AnalysisResult : Type 0 where
  pub receipt : Receipt
  pub attempts : ℕ

abbrev pub retry_limit : ℕ
retry_limit = 3

module _ (send : ℕ → Messages → Option Text) (parse : Text → Parsed) where
  abbrev pub verdict_of : Text → Parsed → Verdict
  verdict_of content (read r) = settled (ok r)
  verdict_of content (unreadable message) = settled (err (unreadable_receipt message))
  verdict_of content (malformed error) = rejected content error

  unfoldable pub judge : Option Text → Verdict
  judge none = settled (err client_error)
  judge (some []) = no_content
  judge (some (c ∷ s)) =
      if cannot_see (c ∷ s) then settled (err no_vision) else verdict_of (c ∷ s) (parse (c ∷ s))

  abbrev pub proceed :
      Verdict
      → ℕ
      → Messages
      → (Messages → Result LlmError AnalysisResult)
      → Result LlmError AnalysisResult
  proceed (settled (ok r)) attempt messages again = ok (record { receipt = r; attempts = attempt })
  proceed (settled (err e)) attempt messages again = err e
  proceed no_content attempt messages again = again messages
  proceed (rejected content error) attempt messages again =
      again (append_repair_message messages content error)

  -- The loop with its remaining attempts, the number of the next one and the messages.
  unfoldable pub attempt_from : ℕ → ℕ → Messages → Result LlmError AnalysisResult
  attempt_from zero attempt messages = err no_valid_response
  attempt_from (suc left) attempt messages =
      proceed (judge (send attempt messages)) attempt messages
        (λ ms. attempt_from left (suc attempt) ms)

  unfoldable pub analyse : Messages → Result LlmError AnalysisResult
  analyse messages = attempt_from retry_limit 1 messages
