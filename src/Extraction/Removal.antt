-- ===== src/Extraction/Removal.antt =====
-- What `reconciled` may drop: only rows proposed as the second sighting of a row of the photo
-- before, which agree with that row.
use vision_bill.Extraction.{
  SourceLineItem, DuplicateCandidate, Pair, Groups, exact, verify_duplicate, source_at,
}
use vision_bill.Money.{Decimal}
use vision_bill.Prelude.Result.{ok}
use vision_bill.Prelude.{
  ℕ, ◌+◌, ◌<◌, ◌≡◌, ◌⊎◌, true, List, [], ◌∷◌, map, some, Text, length, All, get_elem?,
}

abbrev pub Proposed : ℕ → ℕ → List DuplicateCandidate → Type 0
Proposed a b [] = ⊥
Proposed a b (c ∷ cs) = ((c.first_index ≡ a) × (c.second_index ≡ b)) ⊎ Proposed a b cs

-- The pairs that pass the first loop.
abbrev IsAdmitted : List ℕ → List DuplicateCandidate → Pair → Type 0
IsAdmitted ss all_ (a, b) =
    Proposed a b all_ × (a < b) × (b < length ss) × (source_at ss b ≡ source_at ss a + 1)

AllPairs : (Pair → Type 0) → Groups → Type 0
AllPairs P = All (λ (g : ℕ × List Pair). All P g.1)

module _ (fold : ℕ → Text) (similarity : Text → Text → Decimal) where
  -- The second row of the pair repeats the first: both exist, the second is in the next photo,
  -- and name, quantity and total agree.
  abbrev pub Repeats : List SourceLineItem → Pair → Type 0
  Repeats items (a, b) =
      (x : SourceLineItem) × (y : SourceLineItem) × (get_elem? items a ≡ some x)
      × (get_elem? items b ≡ some y)
      × (verify_duplicate fold similarity exact x.item y.item ≡ ok true)

  -- What a removed index is: the second row of an admitted pair that agrees with its first row.
  abbrev pub IsRepeat : List SourceLineItem → List DuplicateCandidate → ℕ → Type 0
  IsRepeat items candidates b =
      (a : ℕ) × Proposed a b candidates
      × (a < b)
      × (source_at (map (λ (r : SourceLineItem). r.source_image) items) b
          ≡ source_at (map (λ (r : SourceLineItem). r.source_image) items) a + 1)
      × Repeats items (a, b)

  module _ (items : List SourceLineItem) (candidates : List DuplicateCandidate) where
    abbrev IsGood : Pair → Type 0
    IsGood p = IsAdmitted (map (λ (r : SourceLineItem). r.source_image) items) candidates p
