-- ===== src/ReceiptDb/Update/Steps.antt =====
-- One round of the loop of `update_receipt` (src/vision_bill/provider/db/receipt_db.py) that ends
-- without an error.
use vision_bill.ReceiptDb.{LineItemRow, CategoryAlias}
use vision_bill.ReceiptDb.Categories.{ItemCategoryDecision}
use vision_bill.ReceiptDb.Update.{
  LineItemUpdate, UpdateFault, repeated_line_item, old_item, is_used, use_id, decide_update,
  decide_updates, remember_item,
}
use vision_bill.Prelude.{ℕ, suc, ◌≡◌, refl, sym, Bool, true, false, not, List, ◌∷◌, Option, Text}
use vision_bill.Prelude.Result.{
  Result, ok, ◌>>=◌, ◌>>◌, guard, >>=-eq-ok, guard-eq-ok, ok-injective,
}

module _ (fold : ℕ → Text) (owner : Option ℕ) (merchant_key : Text) where
  module _ (olds : List LineItemRow) (is_legacy : Bool) (position : ℕ) (used : List ℕ) where
    module _ (e : LineItemUpdate) (es : List LineItemUpdate) (t : List CategoryAlias) where
      abbrev Output : Type 0
      Output = List ItemCategoryDecision × List CategoryAlias

      -- The rounds after one that found `old`.
      abbrev rest_of : Option LineItemRow → Result UpdateFault Output
      rest_of old =
          decide_updates fold owner merchant_key olds is_legacy (suc position) (use_id old used) es
            (remember_item fold owner merchant_key e (decide_update old e) t)

      abbrev then_rest : Option LineItemRow → Result UpdateFault Output
      then_rest old = rest_of old >>= λ rest. ok (decide_update old e ∷ rest.0, rest.1)

      pub decide_updates-cons :
          {out : Output}
          → decide_updates fold owner merchant_key olds is_legacy position used (e ∷ es) t ≡ ok out
          → (old : Option LineItemRow) × (rest : Output) × (old_item olds is_legacy position e
              ≡ ok old)
            × (is_used old used ≡ false)
            × (rest_of old ≡ ok rest)
            × (out ≡ (decide_update old e ∷ rest.0, rest.1))
      unfolding decide_updates
      decide_updates-cons h =
          let (old, found, h1) =
            >>=-eq-ok (old_item olds is_legacy position e)
              (λ old. guard (not (is_used old used)) repeated_line_item >> then_rest old) h in
          let (free, h2) =
            guard-eq-ok (not (is_used old used)) repeated_line_item (then_rest old) h1 in
          let (rest, q, h3) =
            >>=-eq-ok (rest_of old) (λ rest. ok (decide_update old e ∷ rest.0, rest.1)) h2 in
          (old, rest, found, not-eq-true-inv (is_used old used) free, q, sym (ok-injective h3))
        where
          not-eq-true-inv : (b : Bool) → not b ≡ true → b ≡ false
          not-eq-true-inv true q = cc
          not-eq-true-inv false q = refl
