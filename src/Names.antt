-- ===== src/Names.antt =====
-- Names and keys: whitespace and case normalization as the models and services do it with
-- `str.split`, `str.join` and `str.casefold` (src/vision_bill/model/item_category.py,
-- model/collection.py, model/receipt.py, service/receipt_service.py). `str.casefold` and
-- `str.lower` map each code point by the Unicode tables, which are the arguments `fold` and
-- `lower`.
pub mod Laws
mod Tests
use vision_bill.Prelude.{
  ℕ, ◌+◌, ◌-◌, ◌⊎◌, inl, inr, Bool, true, false, not, ◌&&◌, ◌||◌, List, [], ◌∷◌, ◌++◌, Option, none,
  some, ltb, leb, ◌==◌, if◌then◌else◌, Text, codes, text_eq, mem_text, length, all,
}

-- `str.isspace` for one code point.
unfoldable pub is_space : ℕ → Bool
is_space c =
    leb 9 c && leb c 13
    || leb 28 c && leb c 32
    || c == 0x85
    || c == 0xa0
    || c == 0x1680
    || leb 0x2000 c && leb c 0x200a
    || c == 0x2028
    || c == 0x2029
    || c == 0x202f
    || c == 0x205f
    || c == 0x3000

abbrev pub push : Text → List Text → List Text
push [] ws = ws
push (c ∷ w) ws = (c ∷ w) ∷ ws

-- The word that a text begins with, which is empty before whitespace, and the words after it.
unfoldable pub first_word : Text → Text × List Text
first_word [] = ([], [])
first_word (c ∷ s) =
    let (w, ws) = first_word s in if is_space c then ([], push w ws) else (c ∷ w, ws)

-- `value.split()`
unfoldable pub split : Text → List Text
split s = let (w, ws) = first_word s in push w ws

-- `" ".join(words)`
unfoldable pub join : List Text → Text
join [] = []
join (w ∷ []) = w
join (w ∷ v ∷ ws) = w ++ (32 ∷ join (v ∷ ws))

-- A mapping of each code point, as `casefold` and `lower` are.
unfoldable pub recase : (ℕ → Text) → Text → Text
recase table [] = []
recase table (c ∷ s) = table c ++ recase table s

-- `" ".join(value.split()).casefold()`
unfoldable pub normalize_history_key : (ℕ → Text) → Text → Text
normalize_history_key fold value = recase fold (join (split value))

-- The trailing `.strip()` finds nothing to strip.
unfoldable pub normalize_collection_name : Text → Text
normalize_collection_name raw = join (split raw)

abbrev pub is_empty : Text → Bool
is_empty [] = true
is_empty (c ∷ s) = false

abbrev pub is_hex_digit : ℕ → Bool
is_hex_digit c = leb b'0' c && leb c b'9' || leb b'a' c && leb c b'f' || leb b'A' c && leb c b'F'

-- `^#(?:[0-9a-fA-F]{3}|[0-9a-fA-F]{6})$`; `$` also matches before a newline at the end.
abbrev pub ends_here : Text → Bool
ends_here [] = true
ends_here (c ∷ []) = c == 10
ends_here _ = false

abbrev pub hex3 : (Text → Bool) → Text → Bool
hex3 k (a ∷ b ∷ c ∷ s) = is_hex_digit a && is_hex_digit b && is_hex_digit c && k s
hex3 k _ = false

unfoldable pub is_valid_hex_color : Text → Bool
is_valid_hex_color [] = false
is_valid_hex_color (c ∷ s) = c == b'#' && (hex3 ends_here s || hex3 (hex3 ends_here) s)

abbrev pub max_tag_length : ℕ
max_tag_length = 100

-- The loop of `LineItem._normalize_tags`: `seen` holds the keys of the tags kept so far.
unfoldable pub normalize_tags_from : (ℕ → Text) → List Text → List Text → List Text
normalize_tags_from fold seen [] = []
normalize_tags_from fold seen (tag ∷ tags) =
    let name = join (split tag) in
    let key = recase fold name in
    let skip = normalize_tags_from fold seen tags in
    let keep = name ∷ normalize_tags_from fold (key ∷ seen) tags in
    if is_empty name || ltb max_tag_length (length name)
    then skip
    else if mem_text key seen
    then skip
    else keep

unfoldable pub normalize_tags : (ℕ → Text) → List Text → List Text
normalize_tags fold = normalize_tags_from fold []

pub data TagError : Type 0 where
  blank_tag too_long_tag : TagError

-- The name that `ReceiptService.create_tag` stores, or its ValueError.
unfoldable pub tag_name : (ℕ → Text) → Text → TagError ⊎ Text
tag_name lower raw =
    let name = recase lower (join (split raw)) in
    if is_empty name
    then inl blank_tag
    else if ltb 100 (length name)
    then inl too_long_tag
    else inr name

abbrev pub unknown : Text
unknown = codes "unknown"

-- CATEGORY_CODES
abbrev pub category_codes : List Text
category_codes =
    unknown
    ∷ codes "other"
    ∷ codes "milk"
    ∷ codes "cheese"
    ∷ codes "yogurt"
    ∷ codes "eggs"
    ∷ codes "butter_spreads"
    ∷ codes "bread_bakery"
    ∷ codes "cereals"
    ∷ codes "pasta_rice_grains"
    ∷ codes "vegetables"
    ∷ codes "fruit"
    ∷ codes "meat"
    ∷ codes "fish"
    ∷ codes "ready_meals"
    ∷ codes "snacks_sweets"
    ∷ codes "coffee_tea"
    ∷ codes "water"
    ∷ codes "soft_drinks"
    ∷ codes "alcohol"
    ∷ codes "sauces_spices"
    ∷ codes "cleaning"
    ∷ codes "household"
    ∷ codes "personal_care"
    ∷ codes "pet"
    ∷ codes "health"
    ∷ codes "clothing"
    ∷ codes "electronics"
    ∷ codes "hardware"
    ∷ codes "restaurant"
    ∷ codes "fuel"
    ∷ codes "services"
    ∷ codes "deposit"
    ∷ []

unfoldable pub is_category : Text → Bool
is_category c = mem_text c category_codes

-- A value that is no text is `none`.
unfoldable pub llm_category : Option Text → Text
llm_category none = unknown
llm_category (some value) = if is_category value then value else unknown
