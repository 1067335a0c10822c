-- ===== src/Names/Tests.antt =====
-- Runs of the name normalization.
use vision_bill.Names.{is_space, split, join, normalize_tags}
use vision_bill.Names.Laws.{IsCleanTag, HasFreshKeys, split-join, normalize_tags_lem}
use vision_bill.Prelude.{
  ℕ, ◌+◌, ◌&&◌, ◌≡◌, refl, List, [], ◌∷◌, Text, codes, All, leb, if◌then◌else◌,
}

-- Lower case of the ASCII letters.
abbrev fold : ℕ → Text
fold c = (if leb b'A' c && leb c b'Z' then c + 32 else c) ∷ []

abbrev messy : Text
messy = codes "  summer   trip "

split-join_example :
    split (join (codes "summer" ∷ codes "trip" ∷ [])) ≡ codes "summer" ∷ codes "trip" ∷ []
unfolding is_space
split-join_example = split-join (codes "summer" ∷ codes "trip" ∷ []) (
  (refl, (refl, (refl, (refl, (refl, (refl, (refl, tt))))))),
  ((refl, (refl, (refl, (refl, (refl, tt))))), tt),
)

abbrev tags : List Text
tags = codes "Dairy" ∷ codes " dairy" ∷ [] ∷ codes "on  sale" ∷ []

normalize_tags_lem_example :
    All IsCleanTag (normalize_tags fold tags) × HasFreshKeys fold [] (normalize_tags fold tags)
normalize_tags_lem_example = normalize_tags_lem fold tags
