-- ===== src/ReceiptDb/Update/Ids.antt =====
-- The ids of line items across `update_receipt` (src/vision_bill/provider/db/receipt_db.py): no
-- INSERT of the transaction violates the primary key.
use mathlib.Core.Path.{subst}
use vision_bill.ReceiptDb.{LineItemRow, CategoryAlias}
use vision_bill.ReceiptDb.Categories.{ItemCategoryDecision}
use vision_bill.ReceiptDb.Update.{
  LineItemUpdate, UpdateFault, old_by_position, same_description, old_item, is_used, use_id,
  decide_update, decide_updates,
}
use vision_bill.ReceiptDb.Update.Steps.{decide_updates-cons}
use vision_bill.Prelude.{
  ℕ, suc, ◌≡◌, ◌≢◌, refl, sym, ap, ◌∙◌, Bool, true, false, List, [], ◌∷◌, Option, none, some, ◌==◌,
  if◌then◌else◌, Text, text_eq, find?, any, arith, Bool-cases, Option-cases, inl, inr, ◌⊎◌,
}
use vision_bill.Prelude.Keyed.{keyed, find?-key}
use vision_bill.Prelude.Result.{Result, ok, err, ok-injective}

abbrev pub item_id : LineItemRow → ℕ
item_id i = i.id

-- Among these rows is one with the id.
abbrev pub IsIn : ℕ → List LineItemRow → Type 0
IsIn k olds = find? (keyed item_id k) olds ≢ none

IsIn-here : (o : LineItemRow) (olds : List LineItemRow) → IsIn o.id (o ∷ olds)
IsIn-here o olds h = ground arith

IsIn-there : (k : ℕ) (o : LineItemRow) (olds : List LineItemRow) → IsIn k olds → IsIn k (o ∷ olds)
IsIn-there k o olds i h = i (later (Bool-cases (o.id == k)))
  where
    later : ((o.id == k) ≡ true) ⊎ ((o.id == k) ≡ false) → find? (keyed item_id k) olds ≡ none
    later (inl e) = absurd (ground arith)
    later (inr e) = rw e at h

IsIn-found :
    (k : ℕ) (olds : List LineItemRow) {o : LineItemRow}
    → find? (keyed item_id k) olds ≡ some o
    → IsIn o.id olds
IsIn-found k olds h n =
    conflict (ap (λ j. find? (keyed item_id j) olds) (find?-key item_id k olds h)) n h
  where
    conflict : {a b : Option LineItemRow} {o : LineItemRow} → a ≡ b → a ≡ none → b ≢ some o
    conflict p q r = cc

some-injective : {a b : LineItemRow} → some a ≡ some b → a ≡ b
some-injective h = cc

old_by_position-IsIn :
    (position : ℕ) (olds : List LineItemRow) {old : LineItemRow}
    → old_by_position position olds ≡ some old
    → IsIn old.id olds
unfolding old_by_position
old_by_position-IsIn position [] h = absurd (cc)
old_by_position-IsIn position (o ∷ olds) {old} h =
    elim (Option-cases (old_by_position position olds)) [
      | inl e ↦ here (Bool-cases (o.position == position)) (rw e at h)
      | inr (other, e) ↦
          IsIn-there old.id o olds (old_by_position-IsIn position olds (e ∙ (rw e at h)))
    ]
  where
    impossible : {a : LineItemRow} → none ≢ some a
    impossible q = cc

    here :
        ((o.position == position) ≡ true) ⊎ ((o.position == position) ≡ false)
        → (if o.position == position then some o else none) ≡ some old
        → IsIn old.id (o ∷ olds)
    here (inl b) q =
        subst (λ x. IsIn x.id (o ∷ olds)) (some-injective (rw b at q)) (IsIn-here o olds)
    here (inr b) q = absurd (impossible (rw b at q))

same_description-some :
    (description : Text) (o : Option LineItemRow) {old : LineItemRow}
    → same_description description o ≡ some old
    → o ≡ some old
same_description-some description none h = h
same_description-some description (some c) h =
    elim (Bool-cases (text_eq c.description description)) [
      | inl e ↦ rw e at h
      | inr e ↦ absurd (impossible (rw e at h))
    ]
  where
    impossible : {a : LineItemRow} → none ≢ some a
    impossible q = cc

old_item-IsIn :
    (olds : List LineItemRow) (is_legacy : Bool) (position : ℕ) (e : LineItemUpdate)
    {old : LineItemRow}
    → old_item olds is_legacy position e ≡ ok (some old)
    → IsIn old.id olds
unfolding old_item
old_item-IsIn olds is_legacy position e {old} h = elim (Option-cases e.id) [
  | inl q ↦ elim (Bool-cases is_legacy) [
    | inl b ↦ old_by_position-IsIn position olds (
        same_description-some e.item.description (old_by_position position olds)
          (ok-injective (rw b at (rw q at h))))
    | inr b ↦ absurd (impossible (rw b at (rw q at h)))
  ]
  | inr (id, q) ↦ elim (Option-cases (find? (keyed item_id id) olds)) [
    | inl f ↦ absurd (fails (rw f at (rw q at h)))
    | inr (o, f) ↦
        subst (λ x. IsIn x.id olds) (some-injective (ok-injective (rw f at (rw q at h))))
          (IsIn-found id olds f)
  ]
]
  where
    impossible : ◌≢◌ {A = Result UpdateFault (Option LineItemRow)} (ok none) (ok (some old))
    impossible q = cc

    fails :
        {x : UpdateFault}
        → ◌≢◌ {A = Result UpdateFault (Option LineItemRow)} (err x) (ok (some old))
    fails q = cc

-- The ids that the decisions keep are old, unused before, and differ from each other.
abbrev pub IsKept : List LineItemRow → List ℕ → Option ℕ → Type 0
IsKept olds used none = Unit
IsKept olds used (some k) = IsIn k olds × (any (λ id. id == k) used ≡ false)

abbrev pub and_id : Option ℕ → List ℕ → List ℕ
and_id none used = used
and_id (some k) used = k ∷ used

abbrev pub KeepsIds : List LineItemRow → List ℕ → List ItemCategoryDecision → Type 0
KeepsIds olds used [] = Unit
KeepsIds olds used (d ∷ ds) = IsKept olds used d.id × KeepsIds olds (and_id d.id used) ds

use_id_eq :
    (old : Option LineItemRow) (e : LineItemUpdate) (used : List ℕ)
    → use_id old used ≡ and_id (decide_update old e).id used
unfolding decide_update
use_id_eq none e used = refl
use_id_eq (some old) e used = refl

decide_update-IsKept :
    (olds : List LineItemRow) (is_legacy : Bool) (position : ℕ) (used : List ℕ) (e : LineItemUpdate)
    (old : Option LineItemRow)
    → old_item olds is_legacy position e ≡ ok old
    → is_used old used ≡ false
    → IsKept olds used (decide_update old e).id
unfolding decide_update
decide_update-IsKept olds is_legacy position used e none h free = tt
decide_update-IsKept olds is_legacy position used e (some old) h free =
    (old_item-IsIn olds is_legacy position e h, free)

module _ (fold : ℕ → Text) (owner : Option ℕ) (merchant_key : Text) where
  pub decide_updates-KeepsIds :
      (olds : List LineItemRow) (is_legacy : Bool) (position : ℕ) (used : List ℕ)
      (es : List LineItemUpdate) (t : List CategoryAlias)
      {out : List ItemCategoryDecision × List CategoryAlias}
      → decide_updates fold owner merchant_key olds is_legacy position used es t ≡ ok out
      → KeepsIds olds used out.0
  unfolding decide_updates
  decide_updates-KeepsIds olds is_legacy position used [] t h =
      subst (λ (o : List ItemCategoryDecision × List CategoryAlias). KeepsIds olds used o.0)
        (ok-injective h) tt
  decide_updates-KeepsIds olds is_legacy position used (e ∷ es) t h =
      let (old, rest, found, free, q, same) =
        decide_updates-cons fold owner merchant_key olds is_legacy position used e es t h in
      subst (λ (o : List ItemCategoryDecision × List CategoryAlias). KeepsIds olds used o.0)
        (sym same)
        (
          decide_update-IsKept olds is_legacy position used e old found free,
          subst (λ ids. KeepsIds olds ids rest.0) (use_id_eq old e used)
              (decide_updates-KeepsIds olds is_legacy (suc position) (use_id old used) es _ q),
        )
