-- ===== src/ReceiptDb/Categories.antt =====
-- The categories of line items: a user's remembered choices (the table item_category_aliases) and
-- what they decide for a new receipt. `fold` is the table of `str.casefold`.
pub mod Batched
pub mod Remembered
use vision_bill.Names.{normalize_history_key, is_category, is_empty, unknown, split}
use vision_bill.ReceiptDb.{
  CategoryAlias, CategorySource, history_source, llm_source, unknown_source, first_row, optional,
}
use vision_bill.Receipts.{LineItem}
use vision_bill.Prelude.{
  ℕ, Bool, true, false, not, ◌&&◌, ◌||◌, List, [], ◌∷◌, ◌++◌, map, Option, none, some, or_same,
  ◌==◌, if◌then◌else◌, Text, text_eq, mem_text, filter, find?, any, update_where,
}

-- What `_insert_children` stores for one item besides the item.
pub record ItemCategoryDecision : Type 0 where
  pub id : Option ℕ
  pub original_description : Text
  pub category : Text
  pub source : CategorySource

-- UNIQUE (user_id, merchant_key, description_key)
abbrev pub is_alias : ℕ → Text → Text → CategoryAlias → Bool
is_alias user merchant_key description_key a =
    a.user_id == user
    && text_eq a.merchant_key merchant_key
    && text_eq a.description_key description_key

-- `category in CATEGORY_CODE_SET and category != "unknown"`
abbrev pub is_known_category : Text → Bool
is_known_category category = is_category category && not (text_eq category unknown)

abbrev pub known_category : Option CategoryAlias → Option Text
known_category none = none
known_category (some a) = if is_known_category a.category then some a.category else none

unfoldable pub get_category_suggestion :
    (ℕ → Text) → ℕ → Text → Text → List CategoryAlias → Option Text
get_category_suggestion fold user merchant_name description t =
    let merchant_key = normalize_history_key fold merchant_name in
    let description_key = normalize_history_key fold description in
    if is_empty merchant_key || is_empty description_key
    then none
    else known_category (find? (is_alias user merchant_key description_key) t)

abbrev pub is_blank : Text → Bool
is_blank value = no_words (split value)
  where
    no_words : List Text → Bool
    no_words [] = true
    no_words (w ∷ ws) = false

-- The keys that the statement asks for; `sorted` and the set only fix their order.
abbrev pub history_keys : (ℕ → Text) → List Text → List Text
history_keys fold descriptions =
    map (normalize_history_key fold) (filter (λ value. not (is_blank value)) descriptions)

abbrev pub no_text : List Text → Bool
no_text [] = true
no_text (t ∷ ts) = false

-- LIST_CATEGORY_ALIASES_SQL and the test of the comprehension: the rows that make the dictionary.
unfoldable pub history_for_items :
    (ℕ → Text) → Option ℕ → Text → List Text → List CategoryAlias → List CategoryAlias
history_for_items fold none merchant_name descriptions t = []
history_for_items fold (some user) merchant_name descriptions t =
    let merchant_key = normalize_history_key fold merchant_name in
    let keys = history_keys fold descriptions in
    if no_text descriptions || is_empty merchant_key || no_text keys
    then []
    else filter
        (λ a.
          (a.user_id == user
            && text_eq a.merchant_key merchant_key
            && mem_text a.description_key keys)
          && is_known_category a.category)
        t

-- `history.get(key)`: the unique key of the table leaves one row for each description key.
abbrev pub remembered : Text → List CategoryAlias → Option Text
remembered key history =
    optional (λ (a : CategoryAlias). a.category)
      (find? (λ a. text_eq a.description_key key) history)

abbrev pub decision : LineItem → Option Text → ItemCategoryDecision
decision item none = record {
  id = none;
  original_description = item.description;
  category = item.spending_category;
  source = if text_eq item.spending_category unknown then unknown_source else llm_source;
}
decision item (some category) = record {
  id = none;
  original_description = item.description;
  category = category;
  source = history_source;
}

-- The decisions of `persist_receipt`.
unfoldable pub decide : (ℕ → Text) → List CategoryAlias → List LineItem → List ItemCategoryDecision
decide fold history = map (λ (item : LineItem).
    decision item (remembered (normalize_history_key fold item.description) history))

-- ON CONFLICT … DO UPDATE SET category
unfoldable pub upsert_alias : CategoryAlias → List CategoryAlias → List CategoryAlias
upsert_alias a t =
    let same = is_alias a.user_id a.merchant_key a.description_key in
    if any same t
    then update_where same (λ old. record old { category = a.category }) t
    else t ++ a ∷ []

unfoldable pub delete_alias : ℕ → Text → Text → List CategoryAlias → List CategoryAlias
delete_alias user merchant_key description_key =
    filter (λ a. not (is_alias user merchant_key description_key a))

-- One description key of a remembered category; an empty key is skipped.
unfoldable pub remember_key : ℕ → Text → Text → Text → List CategoryAlias → List CategoryAlias
remember_key user merchant_key category description_key t =
    if is_empty description_key
    then t
    else if text_eq category unknown
    then delete_alias user merchant_key description_key t
    else upsert_alias
        (record {
          user_id = user;
          merchant_key = merchant_key;
          description_key = description_key;
          category = category;
        })
        t

-- The loop over the set of the two keys.
unfoldable pub remember_keys :
    ℕ → Text → Text → Text → Text → List CategoryAlias → List CategoryAlias
remember_keys user merchant_key category original_key key t =
    let first = remember_key user merchant_key category original_key t in
    if text_eq original_key key then first else remember_key user merchant_key category key first
