-- ===== src/Extraction.antt =====
-- Several photos of one receipt: `MultiImageReceipt.reconciled` of
-- src/vision_bill/model/receipt_extraction.py and `verify_duplicate` of
-- src/vision_bill/helper/duplicates.py. The model lists every printed row of every photo and
-- proposes pairs of rows that are one row seen twice; `reconciled` checks the proposal and drops
-- the second row of each accepted pair. `similarity` stands for difflib's ratio.
pub mod Removal
mod Tests
use vision_bill.Money.{Decimal, minus, abs_le, is_negative, zero_decimal}
use vision_bill.Names.{split, join, recase, is_empty}
use vision_bill.Prelude.Int.{pos}
use vision_bill.Prelude.Result.{Result, ok, err, guard, ◌>>=◌, ◌>>◌}
use vision_bill.Receipts.{LineItem, Receipt}
use vision_bill.Prelude.{
  ℕ, zero, suc, ◌+◌, ◌-◌, Bool, true, false, not, ◌&&◌, ◌||◌, List, [], ◌∷◌, ◌++◌, map, Option,
  none, some, ltb, leb, ◌==◌, if◌then◌else◌, Text, length, take, drop, filter, any, all, get_elem?,
  sort_by,
}

pub record SourceLineItem : Type 0 where
  pub item : LineItem
  pub source_image : ℕ

pub record DuplicateCandidate : Type 0 where
  pub first_index : ℕ
  pub second_index : ℕ

-- The receipt's own `line_items` field is replaced by the rows with their photos.
pub record MultiImageReceipt : Type 0 where
  pub receipt : Receipt
  pub line_items : List SourceLineItem
  pub duplicate_candidates : List DuplicateCandidate

-- The messages of the ValueErrors.
pub data Fault : Type 0 where
  tolerances sources indices not_adjacent not_boundary : Fault

-- The keyword arguments of `verify_duplicate`.
pub record Tolerances : Type 0 where
  pub name_similarity : Decimal
  pub quantity_tolerance : Decimal
  pub total_tolerance : Decimal

abbrev pub one_decimal : Decimal
one_decimal = record { coefficient = pos 1; places = 0 }

abbrev pub exact : Tolerances
exact = record {
  name_similarity = one_decimal;
  quantity_tolerance = zero_decimal;
  total_tolerance = zero_decimal;
}

-- `" ".join(description.casefold().split())`
unfoldable pub folded_name : (ℕ → Text) → Text → Text
folded_name fold description = join (split (recase fold description))

-- `a <= b`
unfoldable pub at_most : Decimal → Decimal → Bool
at_most a b = not (is_negative (minus b a))

module _ (fold : ℕ → Text) (similarity : Text → Text → Decimal) where
  unfoldable pub verify_duplicate : Tolerances → LineItem → LineItem → Result Fault Bool
  verify_duplicate t first second =
      let left = folded_name fold first.description in
      let right = folded_name fold second.description in
      guard
        (at_most zero_decimal t.name_similarity
          && at_most t.name_similarity one_decimal
          && not (is_negative t.quantity_tolerance)
          && not (is_negative t.total_tolerance))
        tolerances
      >> ok (
          not (is_empty left)
          && not (is_empty right)
          && at_most t.name_similarity (similarity left right)
          && abs_le (minus first.quantity second.quantity) t.quantity_tolerance
          && abs_le (minus first.total_price second.total_price) t.total_tolerance)

-- `sources[i]`, asked only inside the list.
abbrev pub source_at : List ℕ → ℕ → ℕ
source_at [] i = 0
source_at (s ∷ ss) zero = s
source_at (s ∷ ss) (suc i) = source_at ss i

unfoldable pub numbers_eq : List ℕ → List ℕ → Bool
numbers_eq [] [] = true
numbers_eq (x ∷ xs) (y ∷ ys) = x == y && numbers_eq xs ys
numbers_eq _ _ = false

abbrev pub Pair : Type 0
Pair = ℕ × ℕ

abbrev pub pair_leb : Pair → Pair → Bool
pair_leb (a, b) (c, d) = ltb a c || a == c && leb b d

unfoldable pub pairs_eq : List Pair → List Pair → Bool
pairs_eq [] [] = true
pairs_eq ((a, b) ∷ xs) ((c, d) ∷ ys) = a == c && b == d && pairs_eq xs ys
pairs_eq _ _ = false

-- The dict of the candidates by the photo of their first row, in insertion order.
abbrev pub Groups : Type 0
Groups = List (ℕ × List Pair)

-- `groups.setdefault(source, []).append(pair)`
unfoldable pub add_pair : ℕ → Pair → Groups → Groups
add_pair s p [] = (s, p ∷ []) ∷ []
add_pair s p ((t, ps) ∷ g) = if t == s then (t, ps ++ p ∷ []) ∷ g else (t, ps) ∷ add_pair s p g

-- The first loop: every candidate is checked, and the groups are filled.
unfoldable pub collect : List ℕ → List DuplicateCandidate → Groups → Result Fault Groups
collect ss [] g = ok g
collect ss (c ∷ cs) g = do
  guard (ltb c.first_index c.second_index && ltb c.second_index (length ss)) indices
  guard (source_at ss c.second_index == source_at ss c.first_index + 1) not_adjacent
  collect ss cs (add_pair (source_at ss c.first_index) (c.first_index, c.second_index) g)

-- `[i for i, value in enumerate(sources) if value == wanted]`, counting from `i`.
unfoldable pub indices_of : ℕ → ℕ → List ℕ → List ℕ
indices_of i wanted [] = []
indices_of i wanted (s ∷ ss) =
    if s == wanted then i ∷ indices_of (suc i) wanted ss else indices_of (suc i) wanted ss

unfoldable pub zip_pairs : List ℕ → List ℕ → List Pair
zip_pairs (x ∷ xs) (y ∷ ys) = (x, y) ∷ zip_pairs xs ys
zip_pairs _ _ = []

-- `zip(earlier[-count:], later[:count])`
unfoldable pub boundary : ℕ → List ℕ → List ℕ → List Pair
boundary n earlier later = zip_pairs (drop (length earlier - n) earlier) (take n later)

-- The items that stay: those whose index, counted from `i`, is not removed.
unfoldable pub kept : List ℕ → ℕ → List SourceLineItem → List LineItem
kept removed i [] = []
kept removed i (s ∷ items) =
    if any (λ j. j == i) removed
    then kept removed (suc i) items
    else s.item ∷ kept removed (suc i) items

module _ (fold : ℕ → Text) (similarity : Text → Text → Decimal) where
  unfoldable pub verify_at : List SourceLineItem → Pair → Result Fault Bool
  verify_at items (a, b) = elim (get_elem? items a) [
    | none ↦ err indices
    | some x ↦ elim (get_elem? items b) [
      | none ↦ err indices
      | some y ↦ verify_duplicate fold similarity exact x.item y.item
    ]
  ]

  -- `all(verify_duplicate(…) for a, b in pairs)`
  unfoldable pub all_verified : List SourceLineItem → List Pair → Result Fault Bool
  all_verified items [] = ok true
  all_verified items (p ∷ ps) = do
    v ← verify_at items p
    elim v [ true ↦ all_verified items ps | false ↦ ok false ]

  -- One round of the second loop: the indices that a group removes.
  unfoldable pub check_group : List SourceLineItem → ℕ × List Pair → Result Fault (List ℕ)
  check_group items (s, unsorted) =
      let ss = map (λ (r : SourceLineItem). r.source_image) items in
      let pairs = sort_by pair_leb unsorted in
      let earlier = indices_of 0 s ss in
      let later = indices_of 0 (s + 1) ss in
      guard (pairs_eq pairs (boundary (length pairs) earlier later)) not_boundary
      >> (all_verified items pairs >>= λ v. ok (if v then map (λ (p : Pair). p.1) pairs else []))

  unfoldable pub check_groups : List SourceLineItem → Groups → Result Fault (List ℕ)
  check_groups items [] = ok []
  check_groups items (g ∷ gs) = do
    removed ← check_group items g
    rest ← check_groups items gs
    ok (removed ++ rest)

  unfoldable pub reconciled : ℕ → MultiImageReceipt → Result Fault Receipt
  reconciled image_count m =
      let ss = map (λ (r : SourceLineItem). r.source_image) m.line_items in
      guard (numbers_eq ss (sort_by leb ss) && all (λ s. ltb s image_count) ss) sources
      >> (collect ss m.duplicate_candidates [] >>= λ groups.
          check_groups m.line_items groups >>= λ removed.
          ok (record (m.receipt) { line_items = kept removed 0 m.line_items }))
