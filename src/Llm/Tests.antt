-- ===== src/Llm/Tests.antt =====
-- A conversation in which the third answer is read.
use vision_bill.Llm.{
  Parsed, read, malformed, Messages, prompt, analyse, attempt_from, judge, cannot_see,
}
use vision_bill.Money.{zero_decimal}
use vision_bill.Names.{is_space}
use vision_bill.Prelude.Result.{Result, ok}
use vision_bill.Receipts.{Receipt}
use vision_bill.Prelude.{
  ℕ, zero, suc, ◌≡◌, refl, [], ◌∷◌, Option, none, some, Text, codes, text_eq, if◌then◌else◌,
}

abbrev slip : Receipt
slip = record {
  confidence = 90;
  merchant_name = codes "shop";
  merchant_address = none;
  receipt_number = none;
  date = 20000;
  time = none;
  currency = codes "EUR";
  category = codes "groceries";
  line_items = [];
  taxes = [];
  subtotal = zero_decimal;
  discount_total = zero_decimal;
  tax_total = zero_decimal;
  tip = none;
  total = zero_decimal;
  payment_method = codes "cash";
}

-- First nothing, then a broken object, then a good one.
abbrev answers : ℕ → Messages → Option Text
answers (suc zero) messages = some []
answers (suc (suc zero)) messages = some (codes "{")
answers _ messages = some (codes "{}")

abbrev parse : Text → Parsed
parse s = if text_eq s (codes "{}") then read slip else malformed (codes "unexpected end")

abbrev question : Messages
question = prompt (codes "Read the receipt.") (codes "a.png" ∷ []) ∷ []

third_answer : analyse answers parse question ≡ ok (record { receipt = slip; attempts = 3 })
unfolding analyse attempt_from judge cannot_see is_space text_eq
third_answer = refl
