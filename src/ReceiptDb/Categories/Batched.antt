-- ===== src/ReceiptDb/Categories/Batched.antt =====
-- The history that `persist_receipt` reads in one statement answers each item as
-- `get_category_suggestion` would (src/vision_bill/provider/db/receipt_db.py).
use vision_bill.Names.{normalize_history_key, recase, join, split, is_empty}
use vision_bill.Names.Laws.{IsWord, split-IsWord}
use vision_bill.ReceiptDb.{CategoryAlias}
use vision_bill.ReceiptDb.Categories.{
  is_alias, is_known_category, known_category, get_category_suggestion, is_blank, history_keys,
  no_text, history_for_items, remembered, decision, decide,
}
use vision_bill.Receipts.{LineItem}
use vision_bill.Prelude.{
  ℕ, ◌≡◌, ◌≢◌, inl, inr, refl, sym, ap, Bool, true, false, ◌&&◌, ◌||◌, List, [], ◌∷◌, ◌++◌, map,
  none, some, ◌==◌, if◌then◌else◌, Text, text_eq, text_eq→eq, text_eq_refl, mem_text, filter, find?,
  arith, Bool-cases, All,
}

-- UNIQUE (user_id, merchant_key, description_key)
abbrev pub HasUniqueAliases : List CategoryAlias → Type 0
HasUniqueAliases [] = Unit
HasUniqueAliases (a ∷ t) =
    (find? (is_alias a.user_id a.merchant_key a.description_key) t ≡ none) × HasUniqueAliases t

module _ (user : ℕ) (merchant_key : Text) (keys : List Text) where
  -- The rows of the statement.
  abbrev is_history : CategoryAlias → Bool
  is_history a =
      (a.user_id == user && text_eq a.merchant_key merchant_key && mem_text a.description_key keys)
      && is_known_category a.category

  module _ (key : Text) (asked : mem_text key keys ≡ true) where
    remembered-absent :
        (t : List CategoryAlias)
        → find? (is_alias user merchant_key key) t ≡ none
        → remembered key (filter is_history t) ≡ none
    remembered-absent [] h = refl
    remembered-absent (a ∷ t) h =
        ground (arith, text_eq→eq a.description_key key, remembered-absent t)

    remembered-filter :
        (t : List CategoryAlias)
        → HasUniqueAliases t
        → remembered key (filter is_history t)
          ≡ known_category (find? (is_alias user merchant_key key) t)
    remembered-filter [] u = refl
    remembered-filter (a ∷ t) u = elim (Bool-cases (is_alias user merchant_key key a)) [
      | inl e ↦
          let absent = unique e in
          let rest = remembered-absent t absent in
          ground (arith, text_eq→eq a.description_key key, text_eq_refl key)
      | inr e ↦
          let rest = remembered-filter t u.1 in ground (arith, text_eq→eq a.description_key key)
    ]
      where
        fields :
            is_alias user merchant_key key a ≡ true
            → (a.user_id ≡ user) × (a.merchant_key ≡ merchant_key) × (a.description_key ≡ key)
        fields e =
            ground (arith, text_eq→eq a.description_key key, text_eq→eq a.merchant_key merchant_key)

        unique :
            is_alias user merchant_key key a ≡ true
            → find? (is_alias user merchant_key key) t ≡ none
        unique e = let (x, y, z) = fields e in rw (sym x) (rw (sym y) (rw (sym z) u.0))

  -- A key that was not asked for is not answered.
  remembered-not_asked :
      (key : Text) (t : List CategoryAlias)
      → mem_text key keys ≡ false
      → remembered key (filter is_history t) ≡ none
  remembered-not_asked key [] h = refl
  remembered-not_asked key (a ∷ t) h =
      ground (arith, text_eq→eq a.description_key key, remembered-not_asked key t h)

-- `str.casefold` maps no character to the empty text.
abbrev pub IsProperFold : (ℕ → Text) → Type 0
IsProperFold fold = (c : ℕ) → is_empty (fold c) ≡ false

module _ (fold : ℕ → Text) where
  abbrev key_of : Text → Text
  key_of = normalize_history_key fold

  blank-key : (d : Text) → is_blank d ≡ true → is_empty (key_of d) ≡ true
  unfolding normalize_history_key recase join
  blank-key d h = go (split d) h
    where
      go : (ws : List Text) → no_text ws ≡ true → is_empty (recase fold (join ws)) ≡ true
      go [] h = refl
      go (w ∷ ws) h = absurd (cc)

  module _ (proper : IsProperFold fold) where
    proper-key : (d : Text) → is_blank d ≡ false → is_empty (key_of d) ≡ false
    unfolding normalize_history_key recase join
    proper-key d h = go (split d) (split-IsWord d) h
      where
        left : (s t : Text) → is_empty s ≡ false → is_empty (s ++ t) ≡ false
        left [] t e = absurd (cc)
        left (c ∷ s) t e = refl

        go :
            (ws : List Text)
            → All IsWord ws
            → no_text ws ≡ false
            → is_empty (recase fold (join ws)) ≡ false
        go [] a e = absurd (cc)
        go ([] ∷ ws) a e = absurd (empty a.0.0)
          where
            empty : true ≢ false
            empty q = cc
        go ((c ∷ w) ∷ []) a e = left (fold c) _ (proper c)
        go ((c ∷ w) ∷ v ∷ ws) a e = left (fold c) _ (proper c)

    mem-history_keys :
        (d : Text) (ds : List Text)
        → mem_text d ds ≡ true
        → is_empty (key_of d) ≡ false
        → mem_text (key_of d) (history_keys fold ds) ≡ true
    mem-history_keys d [] m h = absurd (cc)
    mem-history_keys d (e ∷ ds) m h = elim (Bool-cases (is_blank e)) [
      | inl b ↦ rw b (mem-history_keys d ds (other b) h)
      | inr b ↦ elim (Bool-cases (text_eq d e)) [
        | inl q ↦ rw b (rw (text_eq→eq d e q) (rw (text_eq_refl (key_of e)) refl))
        | inr q ↦
            rw b (or-right (text_eq (key_of d) (key_of e)) (mem-history_keys d ds (rw q at m) h))
      ]
    ]
      where
        or-right : (a : Bool) {b : Bool} → b ≡ true → (a || b) ≡ true
        or-right a q = ground arith

        other : is_blank e ≡ true → mem_text d ds ≡ true
        other b = elim (Bool-cases (text_eq d e)) [
          | inl q ↦ absurd (ground (arith, blank-key e b, text_eq→eq d e q))
          | inr q ↦ rw q at m
        ]

    mem-history_keys_empty :
        (d : Text) (ds : List Text)
        → is_empty (key_of d) ≡ true
        → mem_text (key_of d) (history_keys fold ds) ≡ false
    unfolding text_eq
    mem-history_keys_empty d [] h = refl
    mem-history_keys_empty d (e ∷ ds) h = elim (Bool-cases (is_blank e)) [
      | inl b ↦ rw b (mem-history_keys_empty d ds h)
      | inr b ↦
          rw b
            (rw (differs (key_of d) (key_of e) h (proper-key e b)) (mem-history_keys_empty d ds h))
    ]
      where
        differs : (s t : Text) → is_empty s ≡ true → is_empty t ≡ false → text_eq s t ≡ false
        differs [] [] p q = absurd (cc)
        differs [] (d ∷ t) p q = refl
        differs (c ∷ s) t p q = absurd (cc)

  module _ (user : ℕ) (merchant_name : Text) (ds : List Text) (t : List CategoryAlias) where
    abbrev history : List CategoryAlias
    history = history_for_items fold (some user) merchant_name ds t

    remembered-history :
        (d : Text)
        → IsProperFold fold
        → HasUniqueAliases t
        → mem_text d ds ≡ true
        → remembered (key_of d) history ≡ get_category_suggestion fold user merchant_name d t
    unfolding history_for_items get_category_suggestion
    remembered-history d proper u m = elim (Bool-cases (is_empty (key_of merchant_name))) [
      | inl e ↦ rw e (nothing (no_text ds) (no_text (history_keys fold ds)) _)
      | inr e ↦ elim (Bool-cases (is_empty (key_of d))) [
        | inl k ↦ rw e (
            rw k (
              either (no_text ds || false || no_text (history_keys fold ds)) _ (
                remembered-not_asked user (key_of merchant_name) (history_keys fold ds) (key_of d) t
                  (mem-history_keys_empty proper d ds k))))
        | inr k ↦
            let asked = mem-history_keys proper d ds m k in
            rw e (
              rw k (
                rw (not-no_text d ds m) (
                  rw (not-no_text (key_of d) (history_keys fold ds) asked) (
                    remembered-filter user (key_of merchant_name) (history_keys fold ds) (key_of d)
                      asked t u))))
      ]
    ]
      where
        nothing :
            (b c : Bool) (rows : List CategoryAlias)
            → remembered (key_of d) (if b || true || c then [] else rows) ≡ none
        nothing true c rows = refl
        nothing false c rows = refl

        either :
            (b : Bool) (rows : List CategoryAlias)
            → remembered (key_of d) rows ≡ none
            → remembered (key_of d) (if b then [] else rows) ≡ none
        either true rows h = refl
        either false rows h = h

        not-no_text : (d : Text) (ds : List Text) → mem_text d ds ≡ true → no_text ds ≡ false
        not-no_text d [] m = absurd (cc)
        not-no_text d (e ∷ ds) m = refl

  -- The categories of a new receipt of a user, decided from one statement over all its items, are
  -- those of the single suggestions: each item gets what `get_category_suggestion` answers for it,
  -- or else the model's category. The aliases have the table's unique key, and `casefold` maps no
  -- character to the empty text; the receipt may have no items, blank ones or repeated ones.
  pub decide-history_for_items :
      (user : ℕ) (merchant_name : Text) (items : List LineItem) (t : List CategoryAlias)
      → IsProperFold fold
      → HasUniqueAliases t
      → decide fold
          (history_for_items fold
            (some user)
            merchant_name
            (map (λ (item : LineItem). item.description) items)
            t)
          items
        ≡ map
            (λ (item : LineItem).
              decision item (get_category_suggestion fold user merchant_name item.description t))
            items
  unfolding decide
  decide-history_for_items user merchant_name items t proper u = each items (λ d m. m)
    where
      ds : List Text
      ds = map (λ (item : LineItem). item.description) items

      each :
          (rest : List LineItem)
          → ((d : Text)
              → mem_text d (map (λ (item : LineItem). item.description) rest) ≡ true
              → mem_text d ds ≡ true)
          → decide fold (history user merchant_name ds t) rest
            ≡ map
                (λ (item : LineItem).
                  decision item
                    (get_category_suggestion fold user merchant_name item.description t))
                rest
      each [] inside = refl
      each (item ∷ rest) inside =
          rw
            (remembered-history user merchant_name ds t item.description proper u
              (inside item.description (rw (text_eq_refl item.description) refl)))
            (ap
              (λ more.
                decision item (get_category_suggestion fold user merchant_name item.description t)
                ∷ more)
              (each rest (λ d m. inside d (ground (arith, m)))))
