-- ===== src/ReceiptDb/Update/Suggested.antt =====
-- From a correction to the next suggestion: `update_receipt` writes what
-- `get_category_suggestion` reads (src/vision_bill/provider/db/receipt_db.py).
use vision_bill.Names.{normalize_history_key, is_empty, unknown}
use vision_bill.ReceiptDb.{CategoryAlias}
use vision_bill.ReceiptDb.Categories.{
  ItemCategoryDecision, is_known_category, get_category_suggestion,
}
use vision_bill.ReceiptDb.Categories.Remembered.{
  answer, alias_category-remember_keys, if_known, known_category_lem,
}
use vision_bill.ReceiptDb.Update.{LineItemUpdate, remember_item}
use vision_bill.Prelude.{
  ℕ, ◌≡◌, ◌⊎◌, inl, inr, refl, ap, ◌∙◌, true, false, arith, List, none, some, if◌then◌else◌, Text,
  text_eq, Bool-cases,
}

if_known-answer :
    (user : ℕ) (merchant_key category : Text)
    → if_known (answer user merchant_key category)
      ≡ (if is_known_category category then some category else none)
if_known-answer user merchant_key category = elim (Bool-cases (text_eq category unknown)) [
  | inl e ↦ rw e (ground arith)
  | inr e ↦ ap if_known (named e)
]
  where
    named : text_eq category unknown ≡ false → answer user merchant_key category ≡ some category
    named e = rw e refl

-- Once the owner of a receipt has ticked "remember" for an item, the category decided for it is
-- suggested to this user for the merchant under the item's new description and under the one on
-- the receipt, up to case and spaces; where that category is unknown (or no category), nothing is
-- suggested any more. The merchant's name and the description have a key that is not empty.
pub get_category_suggestion-remember_item :
    (fold : ℕ → Text) (owner : ℕ) (merchant_name : Text) (e : LineItemUpdate)
    (d : ItemCategoryDecision) (t : List CategoryAlias) (description : Text)
    → e.remember_category ≡ true
    → is_empty (normalize_history_key fold merchant_name) ≡ false
    → is_empty (normalize_history_key fold description) ≡ false
    → (normalize_history_key fold description ≡ normalize_history_key fold d.original_description)
      ⊎ (normalize_history_key fold description ≡ normalize_history_key fold e.item.description)
    → get_category_suggestion fold owner merchant_name description
        (remember_item fold (some owner) (normalize_history_key fold merchant_name) e d t)
      ≡ (if is_known_category d.category then some d.category else none)
unfolding get_category_suggestion
get_category_suggestion-remember_item fold owner merchant_name e d t description r m k which =
    rw r (
      rw m (
        rw k (
          known_category_lem _
          ∙ ap if_known (
              alias_category-remember_keys owner (normalize_history_key fold merchant_name)
                d.category (normalize_history_key fold d.original_description)
                (normalize_history_key fold e.item.description) t
                (normalize_history_key fold description) which k)
          ∙ if_known-answer owner (normalize_history_key fold merchant_name) d.category)))
