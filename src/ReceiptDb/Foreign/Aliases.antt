-- ===== src/ReceiptDb/Foreign/Aliases.antt =====
-- The aliases of other users during `update_receipt` (src/vision_bill/provider/db/receipt_db.py).
use vision_bill.Names.{normalize_history_key}
use vision_bill.ReceiptDb.{LineItemRow, CategoryAlias}
use vision_bill.ReceiptDb.Categories.{
  ItemCategoryDecision, is_alias, upsert_alias, delete_alias, remember_key, remember_keys,
}
use vision_bill.ReceiptDb.Update.{
  LineItemUpdate, use_id, decide_update, decide_updates, remember_item,
}
use vision_bill.Prelude.{
  ℕ, suc, ◌≡◌, refl, sym, ap, ◌∙◌, Bool, not, List, [], ◌∷◌, ◌++◌, some, ◌==◌, Text, filter,
  update_where, arith,
}
use vision_bill.Prelude.Result.{ok, ok-injective}
use vision_bill.ReceiptDb.Update.Steps.{decide_updates-cons}

-- The aliases of the other users.
abbrev pub others : ℕ → List CategoryAlias → List CategoryAlias
others user = filter (λ a. not (a.user_id == user))

module _ (user : ℕ) (merchant_key : Text) where
  others-set :
      (c key : Text) (t : List CategoryAlias)
      → others user
          (update_where (is_alias user merchant_key key) (λ a. record a { category = c }) t)
        ≡ others user t
  others-set c key [] = refl
  others-set c key (a ∷ t) = ground (arith, others-set c key t)

  others-delete_alias :
      (key : Text) (t : List CategoryAlias)
      → others user (delete_alias user merchant_key key t) ≡ others user t
  unfolding delete_alias
  others-delete_alias key [] = refl
  others-delete_alias key (a ∷ t) = ground (arith, others-delete_alias key t)

  others-append :
      (a : CategoryAlias) (t : List CategoryAlias)
      → a.user_id ≡ user
      → others user (t ++ a ∷ []) ≡ others user t
  others-append a [] h = ground arith
  others-append a (b ∷ t) h = ground (arith, others-append a t h)

  others-remember_key :
      (c key : Text) (t : List CategoryAlias)
      → others user (remember_key user merchant_key c key t) ≡ others user t
  unfolding remember_key upsert_alias
  others-remember_key c key t = ground (
    arith,
    others-delete_alias key t,
    others-set c key t,
    others-append
        (record {
          user_id = user;
          merchant_key = merchant_key;
          description_key = key;
          category = c;
        })
        t refl,
  )

  others-remember_keys :
      (c first second : Text) (t : List CategoryAlias)
      → others user (remember_keys user merchant_key c first second t) ≡ others user t
  unfolding remember_keys
  others-remember_keys c first second t = ground (
    arith,
    others-remember_key c first t,
    others-remember_key c second (remember_key user merchant_key c first t),
  )

  others-remember_item :
      (fold : ℕ → Text) (e : LineItemUpdate) (d : ItemCategoryDecision) (t : List CategoryAlias)
      → others user (remember_item fold (some user) merchant_key e d t) ≡ others user t
  others-remember_item fold e d t = ground (
    arith,
    others-remember_keys d.category (normalize_history_key fold d.original_description)
        (normalize_history_key fold e.item.description) t,
  )

  -- The loop writes aliases of the owner only.
  pub others-decide_updates :
      (fold : ℕ → Text) (olds : List LineItemRow) (is_legacy : Bool) (position : ℕ) (used : List ℕ)
      (es : List LineItemUpdate) (t : List CategoryAlias)
      {out : List ItemCategoryDecision × List CategoryAlias}
      → decide_updates fold (some user) merchant_key olds is_legacy position used es t ≡ ok out
      → others user out.1 ≡ others user t
  unfolding decide_updates
  others-decide_updates fold olds is_legacy position used [] t h =
      ap (λ (o : List ItemCategoryDecision × List CategoryAlias). others user o.1)
        (sym (ok-injective h))
  others-decide_updates fold olds is_legacy position used (e ∷ es) t h =
      let (old, rest, _, _, q, same) =
        decide_updates-cons fold (some user) merchant_key olds is_legacy position used e es t h in
      ap (λ (o : List ItemCategoryDecision × List CategoryAlias). others user o.1) same
      ∙ others-decide_updates fold olds is_legacy (suc position) (use_id old used) es _ q
      ∙ others-remember_item fold e (decide_update old e) t
