-- ===== src/ReceiptDb/Categories/Remembered.antt =====
-- A category that a user chose to remember is the one that is suggested from then on
-- (`update_receipt` and `get_category_suggestion` of src/vision_bill/provider/db/receipt_db.py).
use vision_bill.Names.{is_empty, unknown}
use vision_bill.ReceiptDb.{CategoryAlias, optional}
use vision_bill.ReceiptDb.Categories.{
  is_alias, is_known_category, known_category, upsert_alias, delete_alias, remember_key,
  remember_keys,
}
use vision_bill.Prelude.{
  ℕ, ◌≡◌, ◌≢◌, ◌⊎◌, inl, inr, refl, sym, ◌∙◌, Bool, true, false, not, List, [], ◌∷◌, ◌++◌, Option,
  none, some, if◌then◌else◌, Text, text_eq, text_eq→eq, text_eq_refl, filter, find?, any,
  update_where, arith, Bool-cases, not-eq-true, ==_iff,
}

-- The category that the table has under a key.
abbrev pub alias_category : (CategoryAlias → Bool) → List CategoryAlias → Option Text
alias_category p t = optional (λ (a : CategoryAlias). a.category) (find? p t)

-- A test that does not read the category.
abbrev pub IsKeyTest : (CategoryAlias → Bool) → Type 0
IsKeyTest p = (a : CategoryAlias) (c : Text) → p (record a { category = c }) ≡ p a

module _ (p same : CategoryAlias → Bool) (c : Text) where
  -- An UPDATE of one key leaves the others.
  alias_category-set_ne :
      (t : List CategoryAlias)
      → IsKeyTest p
      → ((a : CategoryAlias) → p a ≡ true → same a ≡ false)
      → alias_category p (update_where same (λ a. record a { category = c }) t) ≡ alias_category p t
  alias_category-set_ne [] key apart = refl
  alias_category-set_ne (a ∷ t) key apart =
      ground (arith, key a c, apart a, alias_category-set_ne t key apart)

  alias_category-set :
      (t : List CategoryAlias)
      → IsKeyTest same
      → any same t ≡ true
      → alias_category same (update_where same (λ a. record a { category = c }) t) ≡ some c
  alias_category-set [] key h = absurd (cc)
  alias_category-set (a ∷ t) key h = ground (arith, key a c, alias_category-set t key)

alias_category-append :
    (p : CategoryAlias → Bool) (t : List CategoryAlias) (a : CategoryAlias)
    → any p t ≡ false
    → p a ≡ true
    → alias_category p (t ++ a ∷ []) ≡ some a.category
alias_category-append p [] a h pa = ground arith
alias_category-append p (b ∷ t) a h pa = ground (arith, alias_category-append p t a)

alias_category-append_ne :
    (p : CategoryAlias → Bool) (t : List CategoryAlias) (a : CategoryAlias)
    → p a ≡ false
    → alias_category p (t ++ a ∷ []) ≡ alias_category p t
alias_category-append_ne p [] a pa = ground arith
alias_category-append_ne p (b ∷ t) a pa = ground (arith, alias_category-append_ne p t a pa)

alias_category-delete :
    (p : CategoryAlias → Bool) (t : List CategoryAlias)
    → alias_category p (filter (λ a. not (p a)) t) ≡ none
alias_category-delete p [] = refl
alias_category-delete p (a ∷ t) = ground (arith, alias_category-delete p t)

alias_category-delete_ne :
    (p same : CategoryAlias → Bool) (t : List CategoryAlias)
    → ((a : CategoryAlias) → p a ≡ true → same a ≡ false)
    → alias_category p (filter (λ a. not (same a)) t) ≡ alias_category p t
alias_category-delete_ne p same [] apart = refl
alias_category-delete_ne p same (a ∷ t) apart =
    ground (arith, apart a, alias_category-delete_ne p same t apart)

module _ (user : ℕ) (merchant_key category : Text) where
  -- What the aliases say of a key after it was remembered.
  abbrev pub answer : Option Text
  answer = if text_eq category unknown then none else some category

  abbrev alias : Text → CategoryAlias
  alias key = record {
    user_id = user;
    merchant_key = merchant_key;
    description_key = key;
    category = category;
  }

  is_alias_self : (key : Text) → is_alias user merchant_key key (alias key) ≡ true
  is_alias_self key =
      rw ((==_iff user user).1 refl) (rw (text_eq_refl merchant_key) (text_eq_refl key))

  alias_category-upsert_alias :
      (key : Text) (t : List CategoryAlias)
      → alias_category (is_alias user merchant_key key) (upsert_alias (alias key) t) ≡ some category
  unfolding upsert_alias
  alias_category-upsert_alias key t = elim (Bool-cases (any (is_alias user merchant_key key) t)) [
    | inl e ↦ rw e (
        alias_category-set (λ a. false) (is_alias user merchant_key key) category t (λ a c. refl) e)
    | inr e ↦
        rw e (
          alias_category-append (is_alias user merchant_key key) t (alias key) e
            (is_alias_self key))
  ]

  alias_category-remember_key :
      (key : Text) (t : List CategoryAlias)
      → is_empty key ≡ false
      → alias_category
          (is_alias user merchant_key key)
          (remember_key user merchant_key category key t)
        ≡ answer
  unfolding remember_key delete_alias
  alias_category-remember_key key t h = elim (Bool-cases (text_eq category unknown)) [
    | inl e ↦ rw h (rw e (alias_category-delete (is_alias user merchant_key key) t))
    | inr e ↦ rw h (rw e (alias_category-upsert_alias key t))
  ]

  module _ (p : CategoryAlias → Bool) (key : Text) (t : List CategoryAlias) (is_key : IsKeyTest p)
      (apart : (a : CategoryAlias) → p a ≡ true → is_alias user merchant_key key a ≡ false) where
    alias_category-upsert_alias_ne :
        alias_category p (upsert_alias (alias key) t) ≡ alias_category p t
    unfolding upsert_alias
    alias_category-upsert_alias_ne = elim (Bool-cases (any (is_alias user merchant_key key) t)) [
      | inl e ↦
          rw e (alias_category-set_ne p (is_alias user merchant_key key) category t is_key apart)
      | inr e ↦ rw e (
          alias_category-append_ne p t (alias key) (
            not-eq-true (p (alias key))
              (λ h. true-ne-false (sym (is_alias_self key) ∙ apart (alias key) h))))
    ]
      where
        true-ne-false : true ≢ false
        true-ne-false h = cc

    -- Other keys keep theirs: another user's, another merchant's or another description's.
    pub alias_category-remember_key_ne :
        alias_category p (remember_key user merchant_key category key t) ≡ alias_category p t
    unfolding remember_key delete_alias
    alias_category-remember_key_ne = elim (Bool-cases (is_empty key)) [
      | inl h ↦ rw h refl
      | inr h ↦ elim (Bool-cases (text_eq category unknown)) [
        | inl e ↦ rw h (rw e (alias_category-delete_ne p (is_alias user merchant_key key) t apart))
        | inr e ↦ rw h (rw e alias_category-upsert_alias_ne)
      ]
    ]

  module _ (first second : Text) (t : List CategoryAlias) where
    abbrev written : List CategoryAlias
    written = remember_keys user merchant_key category first second t

    alias_category-remember_keys_second :
        is_empty second ≡ false
        → alias_category (is_alias user merchant_key second) written ≡ answer
    unfolding remember_keys
    alias_category-remember_keys_second h = elim (Bool-cases (text_eq first second)) [
      | inl e ↦ rw e (rw (text_eq→eq first second e) (alias_category-remember_key second t h))
      | inr e ↦
          rw e
            (alias_category-remember_key second (remember_key user merchant_key category first t) h)
    ]

    alias_category-remember_keys_first :
        is_empty first ≡ false → alias_category (is_alias user merchant_key first) written ≡ answer
    unfolding remember_keys
    alias_category-remember_keys_first h = elim (Bool-cases (text_eq first second)) [
      | inl e ↦ rw e (alias_category-remember_key first t h)
      | inr e ↦ rw e (
          alias_category-remember_key_ne (is_alias user merchant_key first) second
            (remember_key user merchant_key category first t) (λ a c. refl) (apart e)
          ∙ alias_category-remember_key first t h)
    ]
      where
        apart :
            text_eq first second ≡ false
            → (a : CategoryAlias) → is_alias user merchant_key first a ≡ true
            → is_alias user merchant_key second a ≡ false
        apart ne a h = ground (arith, text_eq→eq a.description_key first)

    -- Both keys of an item answer the remembered category.
    pub alias_category-remember_keys :
        (key : Text)
        → (key ≡ first) ⊎ (key ≡ second)
        → is_empty key ≡ false
        → alias_category (is_alias user merchant_key key) written ≡ answer
    alias_category-remember_keys key (inl e) h =
        rw e (alias_category-remember_keys_first (rw e at h))
    alias_category-remember_keys key (inr e) h =
        rw e (alias_category-remember_keys_second (rw e at h))

-- What a suggestion makes of a category.
abbrev pub if_known : Option Text → Option Text
if_known none = none
if_known (some category) = if is_known_category category then some category else none

pub known_category_lem :
    (found : Option CategoryAlias)
    → known_category found ≡ if_known (optional (λ (a : CategoryAlias). a.category) found)
known_category_lem none = refl
known_category_lem (some a) = refl
