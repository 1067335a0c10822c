-- ===== src/ReceiptDb/Update.antt =====
-- `update_receipt` of src/vision_bill/provider/db/receipt_db.py: a user's corrections to a receipt.
-- The old line items keep their ids, a changed category is the user's, and a category to remember
-- is written to the aliases. It is one transaction.
pub mod Steps
pub mod Ids
pub mod Suggested
pub mod Unique
use vision_bill.Names.{normalize_history_key, is_empty, unknown}
use vision_bill.ReceiptDb.{
  Ledger, ReceiptRow, LineItemRow, CategoryAlias, CategorySource, user_source, unknown_source,
  Columns, Fresh, receipt_scoped, write_receipt, get_receipt_by_id,
}
use vision_bill.ReceiptDb.Categories.{ItemCategoryDecision, remember_keys}
use vision_bill.ReceiptDb.Persist.{replace_children}
use vision_bill.Receipts.{Receipt, LineItem}
use vision_bill.Prelude.{
  ℕ, zero, suc, Bool, true, false, not, ◌&&◌, ◌||◌, List, [], ◌∷◌, ◌++◌, map, Option, none, some,
  ltb, leb, ◌==◌, if◌then◌else◌, Text, text_eq, filter, find?, any, all, update_where, sort_by,
  is_some, length,
}
use vision_bill.Prelude.Result.{Result, ok, err, ◌>>=◌, ◌>>◌, guard}

-- `LineItemUpdate` of the API; `explicit` says that the request names the category.
pub record LineItemUpdate : Type 0 where
  pub item : LineItem
  pub id : Option ℕ
  pub explicit : Bool
  pub remember_category : Bool

-- The ValueErrors.
pub data UpdateFault : Type 0 where
  foreign_line_item repeated_line_item : UpdateFault

-- LIST_LINE_ITEMS_SQL
unfoldable pub list_line_items : ℕ → List LineItemRow → List LineItemRow
list_line_items receipt_id t =
    sort_by (λ i j. leb i.position j.position) (filter (λ i. i.receipt_id == receipt_id) t)

-- `old_by_position.get(position)`: of two rows the later one is in the dictionary.
unfoldable pub old_by_position : ℕ → List LineItemRow → Option LineItemRow
old_by_position position [] = none
old_by_position position (old ∷ olds) = later (old_by_position position olds)
  where
    later : Option LineItemRow → Option LineItemRow
    later none = if old.position == position then some old else none
    later (some other) = some other

abbrev pub same_description : Text → Option LineItemRow → Option LineItemRow
same_description description none = none
same_description description (some candidate) =
    if text_eq candidate.description description then some candidate else none

-- The old row that an item of the request stands for. `is_legacy` says that no item has an id and
-- that there are as many items as old rows.
unfoldable pub old_item :
    List LineItemRow → Bool → ℕ → LineItemUpdate → Result UpdateFault (Option LineItemRow)
old_item olds is_legacy position e = by_id e.id
  where
    found : Option LineItemRow → Result UpdateFault (Option LineItemRow)
    found none = err foreign_line_item
    found (some old) = ok (some old)

    by_id : Option ℕ → Result UpdateFault (Option LineItemRow)
    by_id none =
        if is_legacy
        then ok (same_description e.item.description (old_by_position position olds))
        else ok none
    by_id (some id) = found (find? (λ old. old.id == id) olds)

abbrev pub is_used : Option LineItemRow → List ℕ → Bool
is_used none used = false
is_used (some old) used = any (λ id. id == old.id) used

abbrev pub use_id : Option LineItemRow → List ℕ → List ℕ
use_id none used = used
use_id (some old) used = old.id ∷ used

-- `old.get("original_description") or old["description"]`
abbrev pub original_of : LineItemRow → Text
original_of old = or_description old.original_description
  where
    or_description : Option Text → Text
    or_description none = old.description
    or_description (some []) = old.description
    or_description (some (c ∷ s)) = c ∷ s

unfoldable pub decide_update : Option LineItemRow → LineItemUpdate → ItemCategoryDecision
decide_update none e = record {
  id = none;
  original_description = e.item.description;
  category = e.item.spending_category;
  source =
      if e.explicit && not (text_eq e.item.spending_category unknown) || e.remember_category
      then user_source
      else unknown_source;
}
decide_update (some old) e =
    let changed = e.explicit && not (text_eq e.item.spending_category old.spending_category) in
    record {
      id = some old.id;
      original_description = original_of old;
      category = if changed then e.item.spending_category else old.spending_category;
      source = if changed || e.remember_category then user_source else old.category_source;
    }

-- `if remember and owner_id is not None and merchant_key`
abbrev pub remember_item :
    (ℕ → Text)
    → Option ℕ
    → Text
    → LineItemUpdate
    → ItemCategoryDecision
    → List CategoryAlias
    → List CategoryAlias
remember_item fold none merchant_key e d t = t
remember_item fold (some owner) merchant_key e d t =
    if e.remember_category && not (is_empty merchant_key)
    then remember_keys owner merchant_key d.category
        (normalize_history_key fold d.original_description)
        (normalize_history_key fold e.item.description) t
    else t

module _ (fold : ℕ → Text) (owner : Option ℕ) (merchant_key : Text) where
  -- The loop over the items: the ids used so far, the decisions and the aliases.
  unfoldable pub decide_updates :
      List LineItemRow
      → Bool
      → ℕ
      → List ℕ
      → List LineItemUpdate
      → List CategoryAlias
      → Result UpdateFault (List ItemCategoryDecision × List CategoryAlias)
  decide_updates olds is_legacy position used [] t = ok ([], t)
  decide_updates olds is_legacy position used (e ∷ es) t =
      old_item olds is_legacy position e >>= λ old.
      guard (not (is_used old used)) repeated_line_item
      >> (let d = decide_update old e in
          decide_updates olds is_legacy (suc position) (use_id old used) es
            (remember_item fold owner merchant_key e d t)
          >>= λ rest. ok (d ∷ rest.0, rest.1))

abbrev pub has_no_id : LineItemUpdate → Bool
has_no_id e = not (is_some e.id)

-- The receipt of the request, with its items as they are stored.
abbrev pub with_items : Receipt → List LineItemUpdate → Receipt
with_items receipt es = record receipt { line_items = map (λ (e : LineItemUpdate). e.item) es }

module _ (columns : Columns) (fresh : Fresh) (fold : ℕ → Text) where
  -- The transaction after the UPDATE has found the row.
  unfoldable pub update_found :
      ℕ
      → Receipt
      → List LineItemUpdate
      → ReceiptRow
      → Ledger
      → Ledger
      → Result UpdateFault (Option ReceiptRow) × Ledger
  update_found receipt_id receipt es row before after = commit (
      decide_updates fold row.user_id (normalize_history_key fold receipt.merchant_name) olds
        (all has_no_id es && length olds == length es) 0 [] es after.aliases)
    where
      olds : List LineItemRow
      olds = list_line_items receipt_id after.line_items

      commit :
          Result UpdateFault (List ItemCategoryDecision × List CategoryAlias)
          → Result UpdateFault (Option ReceiptRow) × Ledger
      commit (err fault) = (err fault, before)
      commit (ok (ds, aliases)) = (
        ok (some row),
        replace_children columns fresh receipt_id (with_items receipt es) ds
            (record after { aliases = aliases }),
      )

  unfoldable pub update_receipt :
      ℕ
      → Receipt
      → List LineItemUpdate
      → Option ℕ
      → Bool
      → Ledger
      → Result UpdateFault (Option ReceiptRow) × Ledger
  update_receipt receipt_id receipt es user_id can_see_all l =
      updated (get_receipt_by_id receipt_id user_id can_see_all after)
    where
      after : List ReceiptRow
      after =
          update_where (receipt_scoped receipt_id user_id can_see_all)
            (write_receipt columns receipt) l.receipts

      updated : Option ReceiptRow → Result UpdateFault (Option ReceiptRow) × Ledger
      updated none = (ok none, l)
      updated (some row) = update_found receipt_id receipt es row l (record l { receipts = after })
