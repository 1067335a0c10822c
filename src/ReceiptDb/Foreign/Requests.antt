-- ===== src/ReceiptDb/Foreign/Requests.antt =====
-- An ordinary user's requests leave other users' receipts alone
-- (src/vision_bill/provider/db/receipt_db.py).
use vision_bill.Access.{in_scope, owned_by, in_scope_iff}
use vision_bill.Names.{normalize_history_key}
use vision_bill.ReceiptDb.{
  Ledger, ReceiptRow, LineItemRow, TaxLineRow, CategoryAlias, Columns, Fresh, write_receipt,
  receipt_scoped, get_receipt_by_id, set_verified, verify_receipt, delete_receipt, without_receipt,
}
use vision_bill.ReceiptDb.Categories.{ItemCategoryDecision}
use vision_bill.ReceiptDb.Persist.{item_rows, tax_rows, replace_children}
use vision_bill.ReceiptDb.Persist.Written.{id_of}
use vision_bill.ReceiptDb.Update.{
  LineItemUpdate, UpdateFault, decide_updates, with_items, update_found, list_line_items, has_no_id,
  update_receipt,
}
use vision_bill.Receipts.{Receipt}
use vision_bill.Prelude.{
  ℕ, ◌≡◌, ◌≢◌, refl, sym, ap, ◌∙◌, Bool, true, false, not, ◌&&◌, List, [], ◌∷◌, Option, some, ◌==◌,
  Text, filter, find?, all, length, update_where, Bool-cases, Option-cases, inl, inr, ◌⊎◌,
}
use vision_bill.Prelude.Keyed.{
  keyed, HasUniqueKeys, find?-and_found, HasUniqueKeys-update_where, HasUniqueKeys-filter,
}
use vision_bill.Prelude.Result.{Result, Result-cases}
use vision_bill.Prelude.Found.{find?-update_where_kept, find?-filter_kept}
use mathlib.Core.List.{append-nil}
use vision_bill.Prelude.Rewritten.{filter-append}
use vision_bill.ReceiptDb.Foreign.Aliases.{others, others-decide_updates}
use vision_bill.ReceiptDb.Foreign.Children.{
  items_of-filter_ne, taxes_of-filter_ne, items_of-item_rows, taxes_of-tax_rows,
}
use vision_bill.ReceiptDb.Foreign.{
  Request, correcting, verifying, deleting, request, requests, IsUntouched,
}

module _ (columns : Columns) (fold : ℕ → Text) (is_referenced : ℕ → Bool) (user : ℕ) where
  module _ (r : ReceiptRow) where
    abbrev Untouched : Ledger → Ledger → Type 0
    Untouched = IsUntouched columns fold is_referenced user r

    IsUntouched-trans : (s t u : Ledger) → Untouched s t → Untouched t u → Untouched s u
    IsUntouched-trans s t u h k = record {
      found = k.found;
      unique = k.unique;
      same_items = k.same_items ∙ h.same_items;
      same_taxes = k.same_taxes ∙ h.same_taxes;
      same_aliases = k.same_aliases ∙ h.same_aliases;
    }

    module _ (foreign : r.user_id ≢ some user) where
      not_scoped : (id : ℕ) → receipt_scoped id (some user) false r ≡ false
      not_scoped id = scope (r.id == id) (Bool-cases (owned_by user r.user_id))
        where
          scope :
              (b : Bool)
              → (owned_by user r.user_id ≡ true) ⊎ (owned_by user r.user_id ≡ false)
              → (b && owned_by user r.user_id) ≡ false
          scope b (inl o) = absurd (foreign ((in_scope_iff user r.user_id).0 o))
          scope true (inr o) = o
          scope false (inr o) = refl

      -- A row that the user's statement finds has another id.
      other_id :
          (id : ℕ) (t : List ReceiptRow) {x : ReceiptRow}
          → HasUniqueKeys id_of t
          → find? (keyed id_of r.id) t ≡ some r
          → find? (receipt_scoped id (some user) false) t ≡ some x
          → id ≢ r.id
      other_id id t u h k e =
          let (by_id, mine) =
            find?-and_found id_of (λ x. in_scope (some user) false x.user_id) id t u k in
          foreign (
            (in_scope_iff user r.user_id).0
              (rw (same (sym h ∙ ap (λ k. find? (keyed id_of k) t) (sym e) ∙ by_id)) mine))
        where
          same : {a b : ReceiptRow} → some a ≡ some b → a ≡ b
          same q = cc

      module _ (l : Ledger) (found : find? (keyed id_of r.id) l.receipts ≡ some r)
          (unique : HasUniqueKeys id_of l.receipts) where
        same-IsUntouched : Untouched l l
        same-IsUntouched = record {
          found = found;
          unique = unique;
          same_items = refl;
          same_taxes = refl;
          same_aliases = refl;
        }

        verify-IsUntouched :
            (id : ℕ) → Untouched l (request columns fold is_referenced user (verifying id) l)
        unfolding request verify_receipt
        verify-IsUntouched id = record {
          found =
              find?-update_where_kept id_of (receipt_scoped id (some user) false) set_verified r.id
                l.receipts (λ x. refl) found (not_scoped id);
          unique =
              HasUniqueKeys-update_where id_of (receipt_scoped id (some user) false) set_verified id
                l.receipts (λ x. refl) unique;
          same_items = refl;
          same_taxes = refl;
          same_aliases = refl;
        }

        delete-IsUntouched :
            (id : ℕ) → Untouched l (request columns fold is_referenced user (deleting id) l)
        unfolding request delete_receipt get_receipt_by_id
        delete-IsUntouched id =
            elim (Option-cases (find? (receipt_scoped id (some user) false) l.receipts)) [
              | inl e ↦ rw (request, delete_receipt, get_receipt_by_id, e) same-IsUntouched
              | inr (x, e) ↦ elim (Bool-cases (is_referenced id)) [
                | inl b ↦ rw (request, delete_receipt, get_receipt_by_id, e, b) same-IsUntouched
                | inr b ↦
                    rw (request, delete_receipt, get_receipt_by_id, e, b)
                      (deleted (other_id id l.receipts unique found e))
              ]
            ]
          where
            deleted : id ≢ r.id → Untouched l (without_receipt id (some user) false l)
            deleted ne = record {
              found =
                  find?-filter_kept id_of (λ x. not (receipt_scoped id (some user) false x)) r.id
                    l.receipts found (ap not (not_scoped id));
              unique = HasUniqueKeys-filter id_of _ l.receipts unique;
              same_items = items_of-filter_ne columns r.id id l.line_items ne;
              same_taxes = taxes_of-filter_ne columns r.id id l.taxes ne;
              same_aliases = refl;
            }

        replaced-IsUntouched :
            (fresh : Fresh) (id : ℕ) (receipt : Receipt) (ds : List ItemCategoryDecision)
            (receipts : List ReceiptRow) (aliases : List CategoryAlias)
            → id ≢ r.id
            → find? (keyed id_of r.id) receipts ≡ some r
            → HasUniqueKeys id_of receipts
            → others user aliases ≡ others user l.aliases
            → Untouched l (
                replace_children columns fresh id receipt ds
                  (record l { receipts = receipts; aliases = aliases }))
        unfolding replace_children
        replaced-IsUntouched fresh id receipt ds receipts aliases ne f u a = record {
          found = f;
          unique = u;
          same_items =
              filter-append (λ i. i.receipt_id == r.id)
                (filter (λ (i : LineItemRow). not (i.receipt_id == id)) l.line_items)
                (item_rows columns fresh.item_id id 0 receipt.line_items ds)
              ∙ rw (items_of-item_rows columns r.id fresh.item_id id 0 receipt.line_items ds ne)
                  (append-nil _ ∙ items_of-filter_ne columns r.id id l.line_items ne);
          same_taxes =
              filter-append (λ x. x.receipt_id == r.id)
                (filter (λ (x : TaxLineRow). not (x.receipt_id == id)) l.taxes)
                (tax_rows columns fresh.tax_id id 0 receipt.taxes)
              ∙ rw (taxes_of-tax_rows columns r.id fresh.tax_id id 0 receipt.taxes ne)
                  (append-nil _ ∙ taxes_of-filter_ne columns r.id id l.taxes ne);
          same_aliases = a;
        }

        module _ (fresh : Fresh) (id : ℕ) (receipt : Receipt) (es : List LineItemUpdate) where
          abbrev rewritten : List ReceiptRow
          rewritten =
              update_where (receipt_scoped id (some user) false) (write_receipt columns receipt)
                l.receipts

          rewritten_found : find? (keyed id_of r.id) rewritten ≡ some r
          unfolding write_receipt
          rewritten_found =
              find?-update_where_kept id_of (receipt_scoped id (some user) false)
                (write_receipt columns receipt) r.id l.receipts (λ x. refl) found (not_scoped id)

          rewritten_unique : HasUniqueKeys id_of rewritten
          unfolding write_receipt
          rewritten_unique =
              HasUniqueKeys-update_where id_of (receipt_scoped id (some user) false)
                (write_receipt columns receipt) id l.receipts (λ x. refl) unique

          -- The transaction of a row of the user.
          update_found-IsUntouched :
              (row : ReceiptRow)
              → id ≢ r.id
              → row.user_id ≡ some user
              → Untouched l
                  (update_found columns fresh fold id receipt es row l
                    (record l { receipts = rewritten })).1
          unfolding update_found
          update_found-IsUntouched row ne owner = elim (Result-cases (decided row.user_id)) [
            | inl (e, q) ↦ rw (update_found, q) same-IsUntouched
            | inr (out, q) ↦
                rw (update_found, q)
                  (replaced-IsUntouched fresh id (with_items receipt es) out.0 rewritten out.1 ne
                    rewritten_found rewritten_unique
                    (others-decide_updates user (normalize_history_key fold receipt.merchant_name)
                      fold olds is_legacy 0 [] es l.aliases (sym (ap decided owner) ∙ q)))
          ]
            where
              olds : List LineItemRow
              olds = list_line_items id l.line_items

              is_legacy : Bool
              is_legacy = all has_no_id es && length olds == length es

              decided :
                  Option ℕ → Result UpdateFault (List ItemCategoryDecision × List CategoryAlias)
              decided owner =
                  decide_updates fold owner (normalize_history_key fold receipt.merchant_name) olds
                    is_legacy 0 [] es l.aliases

          update-IsUntouched :
              Untouched l
                (request columns fold is_referenced user (correcting fresh id receipt es) l)
          unfolding request update_receipt get_receipt_by_id
          update-IsUntouched =
              elim (Option-cases (find? (receipt_scoped id (some user) false) rewritten)) [
                | inl e ↦ rw (request, update_receipt, get_receipt_by_id, e) same-IsUntouched
                | inr (row, e) ↦
                    rw (request, update_receipt, get_receipt_by_id, e)
                      (update_found-IsUntouched row
                        (other_id id rewritten rewritten_unique rewritten_found e)
                        (owner_of row
                          (find?-and_found id_of (λ x. in_scope (some user) false x.user_id) id
                            rewritten rewritten_unique e).1))
              ]
            where
              owner_of :
                  (row : ReceiptRow)
                  → in_scope (some user) false row.user_id ≡ true
                  → row.user_id ≡ some user
              owner_of row h = (in_scope_iff user row.user_id).0 h

  -- Whatever an ordinary user requests (corrections, verifications and deletions, in any order and
  -- with any ids and items), a receipt of another owner or of no owner stays the row of its id with
  -- the same line items and taxes, and the aliases of all other users stay as they are, also where
  -- a request fails half-way. The ids of the receipts are unique.
  pub requests-IsUntouched :
      (qs : List Request) (l : Ledger) (r : ReceiptRow)
      → r.user_id ≢ some user
      → find? (keyed id_of r.id) l.receipts ≡ some r
      → HasUniqueKeys id_of l.receipts
      → Untouched r l (requests columns fold is_referenced user qs l)
  unfolding requests
  requests-IsUntouched [] l r foreign found unique = same-IsUntouched r foreign l found unique
  requests-IsUntouched (q ∷ qs) l r foreign found unique =
      IsUntouched-trans r l (request columns fold is_referenced user q l)
        (requests columns fold is_referenced user qs (request columns fold is_referenced user q l))
        first
        (requests-IsUntouched qs (request columns fold is_referenced user q l) r foreign first.found
          first.unique)
    where
      one : (q : Request) → Untouched r l (request columns fold is_referenced user q l)
      one (correcting fresh id receipt es) =
          update-IsUntouched r foreign l found unique fresh id receipt es
      one (verifying id) = verify-IsUntouched r foreign l found unique id
      one (deleting id) = delete-IsUntouched r foreign l found unique id

      first : Untouched r l (request columns fold is_referenced user q l)
      first = one q
