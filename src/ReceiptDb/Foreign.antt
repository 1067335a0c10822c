-- ===== src/ReceiptDb/Foreign.antt =====
-- What the requests of an ordinary user do to the receipts tables
-- (src/vision_bill/provider/db/receipt_db.py), and what leaves a receipt alone.
pub mod Aliases
pub mod Children
pub mod Requests
use vision_bill.Access.{in_scope, owned_by, in_scope_iff}
use vision_bill.Names.{normalize_history_key, is_empty, unknown}
use vision_bill.ReceiptDb.{
  Ledger, ReceiptRow, LineItemRow, TaxLineRow, CategoryAlias, Columns, Fresh, write_receipt,
  receipt_scoped, get_receipt_by_id, set_verified, verify_receipt, delete_receipt, without_receipt,
}
use vision_bill.ReceiptDb.Categories.{
  ItemCategoryDecision, is_alias, upsert_alias, delete_alias, remember_key, remember_keys,
}
use vision_bill.ReceiptDb.Persist.{item_rows, tax_rows, replace_children}
use vision_bill.ReceiptDb.Persist.Written.{id_of}
use vision_bill.ReceiptDb.Update.{
  LineItemUpdate, UpdateFault, old_item, is_used, use_id, decide_update, decide_updates,
  remember_item, with_items, update_found, list_line_items, has_no_id, update_receipt,
  repeated_line_item,
}
use vision_bill.Receipts.{Receipt, LineItem, TaxLine}
use vision_bill.Prelude.{
  ℕ, suc, ◌≡◌, ◌≢◌, refl, sym, ap, ◌∙◌, Bool, true, false, not, ◌&&◌, List, [], ◌∷◌, ◌++◌, Option,
  none, some, ◌==◌, if◌then◌else◌, Text, text_eq, filter, find?, any, all, length, update_where,
  arith, Bool-cases, Option-cases, ==_iff, inl, inr, ◌⊎◌,
}
use vision_bill.Prelude.Keyed.{
  keyed, HasUniqueKeys, find?-and_found, HasUniqueKeys-update_where, HasUniqueKeys-filter,
}
use vision_bill.Prelude.Result.{Result, ok, err, Result-cases}
use vision_bill.Prelude.Found.{find?-update_where_kept, find?-filter_kept}
use mathlib.Core.List.{append-nil}
use vision_bill.Prelude.Rewritten.{filter-append}
use vision_bill.ReceiptDb.Foreign.Aliases.{others, others-decide_updates}
use vision_bill.ReceiptDb.{ReceiptReferenced}

-- What the user asks for; `fresh` is what the database generates for the new line items.
pub data Request : Type 0 where
  correcting : Fresh → ℕ → Receipt → List LineItemUpdate → Request
  verifying deleting : ℕ → Request

abbrev pub items_of : ℕ → List LineItemRow → List LineItemRow
items_of id = filter (λ i. i.receipt_id == id)

abbrev pub taxes_of : ℕ → List TaxLineRow → List TaxLineRow
taxes_of id = filter (λ x. x.receipt_id == id)

module _ (columns : Columns) (fold : ℕ → Text) (is_referenced : ℕ → Bool) (user : ℕ) where
  -- The tables after a request, whatever it answers.
  unfoldable pub request : Request → Ledger → Ledger
  request (correcting fresh id receipt es) l =
      (update_receipt columns fresh fold id receipt es (some user) false l).1
  request (verifying id) l = (verify_receipt id (some user) false l).1
  request (deleting id) l = (delete_receipt is_referenced id (some user) false l).1

  unfoldable pub requests : List Request → Ledger → Ledger
  requests [] l = l
  requests (q ∷ qs) l = requests qs (request q l)

  -- The receipt `r`, its children and the others' aliases are as before.
  module _ (r : ReceiptRow) where
    pub record IsUntouched (before after : Ledger) : Type 0 where
      pub found : find? (keyed id_of r.id) after.receipts ≡ some r
      pub unique : HasUniqueKeys id_of after.receipts
      pub same_items : items_of r.id after.line_items ≡ items_of r.id before.line_items
      pub same_taxes : taxes_of r.id after.taxes ≡ taxes_of r.id before.taxes
      pub same_aliases : others user after.aliases ≡ others user before.aliases
