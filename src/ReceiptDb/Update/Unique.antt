-- ===== src/ReceiptDb/Update/Unique.antt =====
-- After `update_receipt` (src/vision_bill/provider/db/receipt_db.py) the ids of the line items are
-- unique: the new rows have kept or generated ids.
use vision_bill.Names.{normalize_history_key}
use vision_bill.ReceiptDb.{
  Ledger, ReceiptRow, LineItemRow, CategoryAlias, Columns, Fresh, write_receipt, receipt_scoped,
  get_receipt_by_id,
}
use vision_bill.ReceiptDb.Categories.{ItemCategoryDecision}
use vision_bill.ReceiptDb.Persist.{item_row, item_rows, replace_children}
use vision_bill.ReceiptDb.Update.{
  LineItemUpdate, UpdateFault, list_line_items, decide_updates, has_no_id, update_found,
  update_receipt,
}
use vision_bill.Receipts.{Receipt, LineItem}
use vision_bill.Prelude.{
  ℕ, suc, ◌≤◌, ◌≡◌, ◌≢◌, refl, sym, ap, ◌∙◌, Bool, true, false, not, ◌&&◌, List, [], ◌∷◌, ◌++◌, map,
  Option, none, some, leb, ◌==◌, if◌then◌else◌, Text, filter, find?, any, all, length, All-filter,
  filter-holds, update_where, or_same, arith, Option-cases, inl, inr, All,
}
use vision_bill.Prelude.Keyed.{
  keyed, HasUniqueKeys, HasUniqueKeys-filter, find?-filter-none, find?-sort_by-none,
}
use vision_bill.Prelude.Found.{All-found, find?-filter_out, HasUniqueKeys-append-All, All-zip}
use vision_bill.Prelude.Sorting.{All-impl}
use vision_bill.Prelude.Result.{Result, Result-cases}
use vision_bill.ReceiptDb.Update.Ids.{item_id, IsKept, and_id, KeepsIds, decide_updates-KeepsIds}

-- The ids that the database generates are new and differ from each other.
pub record IsFresh (fresh : ℕ → ℕ) (t : List LineItemRow) : Type 0 where
  pub distinct : (m n : ℕ) → fresh m ≡ fresh n → m ≡ n
  pub unused : (n : ℕ) → find? (keyed item_id (fresh n)) t ≡ none

abbrev Avoids : ℕ → Option ℕ → Type 0
Avoids k none = Unit
Avoids k (some j) = j ≢ k

module _ (columns : Columns) (fresh : ℕ → ℕ) (id : ℕ) where
  abbrev rows : ℕ → List LineItem → List ItemCategoryDecision → List LineItemRow
  rows = item_rows columns fresh id

  -- An id that is neither kept nor generated from `n` on is no id of the rows.
  absent-rows :
      (k n : ℕ) (items : List LineItem) (ds : List ItemCategoryDecision)
      → All (λ d. Avoids k d.id) ds
      → ((m : ℕ) → n ≤ m → fresh m ≢ k)
      → find? (keyed item_id k) (rows n items ds) ≡ none
  unfolding item_rows
  absent-rows k n [] ds a f = refl
  absent-rows k n (item ∷ items) [] a f = refl
  absent-rows k n (item ∷ items) (d ∷ ds) a f =
      one d.id a.0 (absent-rows k (suc n) items ds a.1 (λ m le. f m (omega (arith, le))))
    where
      one :
          (o : Option ℕ)
          → Avoids k o
          → find? (keyed item_id k) (rows (suc n) items ds) ≡ none
          → (if or_same (fresh n) o == k
              then some (item_row columns (fresh n) id n item d)
              else find? (keyed item_id k) (rows (suc n) items ds))
            ≡ none
      one none av rest = let ne = f n (omega arith) in ground arith
      one (some j) av rest = ground arith

abbrev is_among : ℕ → List ℕ → Bool
is_among k = any (λ j. j == k)

Avoids-used :
    (olds : List LineItemRow) (used : List ℕ) (k : ℕ) (o : Option ℕ)
    → is_among k used ≡ true
    → IsKept olds used o
    → Avoids k o
Avoids-used olds used k none u i = tt
Avoids-used olds used k (some j) u i =
    λ e. true-ne-false (sym u ∙ ap (λ x. is_among x used) (sym e) ∙ i.1)
  where
    true-ne-false : true ≢ false
    true-ne-false h = cc

is_among-and_id :
    (k : ℕ) (o : Option ℕ) (used : List ℕ)
    → is_among k used ≡ true
    → is_among k (and_id o used) ≡ true
is_among-and_id k none used u = u
is_among-and_id k (some j) used u = ground arith

-- A used id is not kept again.
KeepsIds-Avoids :
    (olds : List LineItemRow) (used : List ℕ) (k : ℕ) (ds : List ItemCategoryDecision)
    → is_among k used ≡ true
    → KeepsIds olds used ds
    → All (λ d. Avoids k d.id) ds
KeepsIds-Avoids olds used k [] u h = tt
KeepsIds-Avoids olds used k (d ∷ ds) u h = (
  Avoids-used olds used k d.id u h.0,
  KeepsIds-Avoids olds (and_id d.id used) k ds (is_among-and_id k d.id used u) h.1,
)

Avoids-new :
    (olds : List LineItemRow) (used : List ℕ) (k : ℕ) (o : Option ℕ)
    → find? (keyed item_id k) olds ≡ none
    → IsKept olds used o
    → Avoids k o
Avoids-new olds used k none n i = tt
Avoids-new olds used k (some j) n i = λ e. i.0 (ap (λ x. find? (keyed item_id x) olds) e ∙ n)

-- An id that no old row has is not kept.
KeepsIds-Avoids_new :
    (olds : List LineItemRow) (used : List ℕ) (k : ℕ) (ds : List ItemCategoryDecision)
    → find? (keyed item_id k) olds ≡ none
    → KeepsIds olds used ds
    → All (λ d. Avoids k d.id) ds
KeepsIds-Avoids_new olds used k [] n h = tt
KeepsIds-Avoids_new olds used k (d ∷ ds) n h =
    (Avoids-new olds used k d.id n h.0, KeepsIds-Avoids_new olds (and_id d.id used) k ds n h.1)

module _ (columns : Columns) (fresh : ℕ → ℕ) (id : ℕ) (olds : List LineItemRow) where
  -- The new rows have different ids.
  rows-HasUniqueKeys :
      (n : ℕ) (used : List ℕ) (items : List LineItem) (ds : List ItemCategoryDecision)
      → IsFresh fresh olds
      → KeepsIds olds used ds
      → HasUniqueKeys item_id (rows columns fresh id n items ds)
  unfolding item_rows
  rows-HasUniqueKeys n used [] ds fr h = tt
  rows-HasUniqueKeys n used (item ∷ items) [] fr h = tt
  rows-HasUniqueKeys n used (item ∷ items) (d ∷ ds) fr h =
      (first d.id h.0 h.1, rows-HasUniqueKeys (suc n) (and_id d.id used) items ds fr h.1)
    where
      first :
          (o : Option ℕ)
          → IsKept olds used o
          → KeepsIds olds (and_id o used) ds
          → find? (keyed item_id (or_same (fresh n) o)) (rows columns fresh id (suc n) items ds)
            ≡ none
      first none i h =
          absent-rows columns fresh id (fresh n) (suc n) items ds
            (KeepsIds-Avoids_new olds used (fresh n) ds (fr.unused n) h)
            (λ m le e. later m le (fr.distinct m n e))
        where
          later : (m : ℕ) → suc n ≤ m → m ≢ n
          later m le e = omega (arith, le, e)
      first (some j) i h =
          absent-rows columns fresh id j (suc n) items ds
            (KeepsIds-Avoids olds (j ∷ used) j ds (ground arith) h)
            (λ m le e. i.0 (ap (λ x. find? (keyed item_id x) olds) (sym e) ∙ fr.unused m))

module _ (columns : Columns) (fresh : Fresh) (id : ℕ) (t : List LineItemRow) where
  abbrev is_child : LineItemRow → Bool
  is_child i = i.receipt_id == id

  -- The table with the children replaced has unique ids.
  replaced-HasUniqueKeys :
      (items : List LineItem) (ds : List ItemCategoryDecision)
      → HasUniqueKeys item_id t
      → IsFresh fresh.item_id t
      → KeepsIds (list_line_items id t) [] ds
      → HasUniqueKeys item_id
          (filter (λ i. not (is_child i)) t ++ item_rows columns fresh.item_id id 0 items ds)
  unfolding list_line_items
  replaced-HasUniqueKeys items ds u fr h =
      HasUniqueKeys-append-All item_id (filter (λ i. not (is_child i)) t)
        (item_rows columns fresh.item_id id 0 items ds)
        (HasUniqueKeys-filter item_id (λ i. not (is_child i)) t u)
        (rows-HasUniqueKeys columns fresh.item_id id (list_line_items id t) 0 [] items ds
          (record {
            distinct = fr.distinct;
            unused = λ n.
                not_old (fresh.item_id n)
                  (find?-filter-none item_id is_child (fresh.item_id n) t (fr.unused n));
          })
          h)
        (All-impl _ _ (filter (λ i. not (is_child i)) t)
          (λ x p.
            absent-rows columns fresh.item_id id x.id 0 items ds
              (KeepsIds-Avoids_new (list_line_items id t) [] x.id ds
                (not_old x.id
                  (find?-filter_out item_id is_child x.id t u p.0 (negated (is_child x) p.1)))
                h)
              (λ m le e. conflict (ap (λ k. find? (keyed item_id k) t) e) (fr.unused m) p.0))
          (All-zip _ _ (filter (λ i. not (is_child i)) t)
            (All-filter _ (λ i. not (is_child i)) t (All-found item_id t u))
            (filter-holds (λ i. not (is_child i)) t)))
    where
      not_old :
          (k : ℕ)
          → find? (keyed item_id k) (filter is_child t) ≡ none
          → find? (keyed item_id k) (list_line_items id t) ≡ none
      not_old k n =
          find?-sort_by-none item_id (λ i j. leb i.position j.position) k (filter is_child t) n

      negated : (b : Bool) → not b ≡ true → b ≡ false
      negated true q = cc
      negated false q = refl

      conflict : {a b : Option LineItemRow} {o : LineItemRow} → a ≡ b → a ≡ none → b ≢ some o
      conflict p q r = cc

update_found-HasUniqueKeys :
    (columns : Columns) (fresh : Fresh) (fold : ℕ → Text) (receipt_id : ℕ) (receipt : Receipt)
    (es : List LineItemUpdate) (row : ReceiptRow) (l : Ledger) (rs : List ReceiptRow)
    → HasUniqueKeys item_id l.line_items
    → IsFresh fresh.item_id l.line_items
    → HasUniqueKeys item_id
        (update_found columns fresh fold receipt_id receipt es row l
          (record l { receipts = rs })).1.line_items
unfolding update_found replace_children
update_found-HasUniqueKeys columns fresh fold receipt_id receipt es row l rs u fr =
    elim (Result-cases decided) [
      | inl (e, q) ↦ rw (update_found, q) u
      | inr (out, q) ↦
          rw (update_found, q)
            (replaced-HasUniqueKeys columns fresh receipt_id l.line_items
              (map (λ (e : LineItemUpdate). e.item) es) out.0 u fr
              (decide_updates-KeepsIds fold row.user_id
                (normalize_history_key fold receipt.merchant_name) olds is_legacy 0 [] es l.aliases
                q))
    ]
  where
    olds : List LineItemRow
    olds = list_line_items receipt_id l.line_items

    is_legacy : Bool
    is_legacy = all has_no_id es && length olds == length es

    decided : Result UpdateFault (List ItemCategoryDecision × List CategoryAlias)
    decided =
        decide_updates fold row.user_id (normalize_history_key fold receipt.merchant_name) olds
          is_legacy 0 [] es l.aliases

-- A correction never writes a line item's id twice, neither an id that the request repeats or
-- takes from another receipt nor a generated one: after `update_receipt` the ids of all line items
-- are unique, whatever the request, the caller and the answer are. They were unique before, and
-- the generated ids are unused and differ from each other.
pub update_receipt-HasUniqueKeys :
    (columns : Columns) (fresh : Fresh) (fold : ℕ → Text) (receipt_id : ℕ) (receipt : Receipt)
    (es : List LineItemUpdate) (user_id : Option ℕ) (can_see_all : Bool) (l : Ledger)
    → HasUniqueKeys item_id l.line_items
    → IsFresh fresh.item_id l.line_items
    → HasUniqueKeys item_id
        (update_receipt columns fresh fold receipt_id receipt es user_id can_see_all l).1.line_items
unfolding update_receipt
update_receipt-HasUniqueKeys columns fresh fold receipt_id receipt es user_id can_see_all l u fr =
    elim (Option-cases (get_receipt_by_id receipt_id user_id can_see_all after)) [
      | inl e ↦ rw (update_receipt, e) u
      | inr (row, e) ↦
          rw (update_receipt, e)
            (update_found-HasUniqueKeys columns fresh fold receipt_id receipt es row l after u fr)
    ]
  where
    after : List ReceiptRow
    after =
        update_where (receipt_scoped receipt_id user_id can_see_all) (write_receipt columns receipt)
          l.receipts
