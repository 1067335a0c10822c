-- ===== src/Names/Laws.antt =====
-- Normal forms: `split` and `join` undo each other on proper words, so normalizing twice is
-- normalizing once.
use vision_bill.Names.{
  is_space, push, first_word, split, join, normalize_collection_name, recase, is_empty,
  max_tag_length, normalize_tags_from, normalize_tags,
}
use mathlib.Core.List.{append-nil}
use vision_bill.Prelude.{
  ℕ, ◌≤◌, ◌≡◌, refl, ap, false, ◌||◌, List, [], ◌∷◌, ◌++◌, inl, inr, arith, Text, ltb, length, All,
  mem_text, Bool-cases,
}

-- A word: not empty, and without whitespace.
abbrev pub IsWord : Text → Type 0
IsWord w = (is_empty w ≡ false) × All (λ c. is_space c ≡ false) w

push-IsWord :
    (w : Text) (ws : List Text)
    → All (λ c. is_space c ≡ false) w
    → All IsWord ws
    → All IsWord (push w ws)
push-IsWord [] ws a b = b
push-IsWord (c ∷ w) ws a b = ((refl, a), b)

first_word-IsWord :
    (s : Text) → All (λ c. is_space c ≡ false) (first_word s).0 × All IsWord (first_word s).1
unfolding first_word
first_word-IsWord [] = (tt, tt)
first_word-IsWord (c ∷ s) = elim (Bool-cases (is_space c)) [
  | inl e ↦ rw e (tt, push-IsWord _ _ (first_word-IsWord s).0 (first_word-IsWord s).1)
  | inr e ↦ rw e ((e, (first_word-IsWord s).0), (first_word-IsWord s).1)
]

-- The parts of a text are words.
pub split-IsWord : (s : Text) → All IsWord (split s)
unfolding split
split-IsWord s = push-IsWord _ _ (first_word-IsWord s).0 (first_word-IsWord s).1

-- A word in front of a text goes in front of its first word.
first_word-append :
    (w t : Text)
    → All (λ c. is_space c ≡ false) w
    → first_word (w ++ t) ≡ (w ++ (first_word t).0, (first_word t).1)
unfolding first_word
first_word-append [] t a = refl
first_word-append (c ∷ w) t a = rw (first_word-append w t a.1, a.0)

push_word : (w : Text) (ws : List Text) → IsWord w → push w ws ≡ w ∷ ws
push_word [] ws h = absurd (ground arith)
push_word (c ∷ w) ws h = refl

first_word_self : (w : Text) → All (λ c. is_space c ≡ false) w → first_word w ≡ (w, [])
unfolding first_word
first_word_self [] a = refl
first_word_self (c ∷ w) a = rw (first_word_self w a.1, a.0)

first_word-join :
    (ws : List Text) → All IsWord ws → push (first_word (join ws)).0 (first_word (join ws)).1 ≡ ws
unfolding join first_word is_space
first_word-join [] a = refl
first_word-join (w ∷ []) a = rw (first_word_self w a.0.1) (push_word w [] a.0)
first_word-join (w ∷ v ∷ ws) a =
    rw (first_word-append w (32 ∷ join (v ∷ ws)) a.0.1)
      (rw (append-nil, first_word-join (v ∷ ws) a.1) (push_word w (v ∷ ws) a.0))

-- Splitting what was joined gives the words back.
pub split-join : (ws : List Text) → All IsWord ws → split (join ws) ≡ ws
unfolding split
split-join ws a = first_word-join ws a

-- A normalized name is a fixed point.
normalize_collection_name_idem :
    (raw : Text)
    → normalize_collection_name (normalize_collection_name raw) ≡ normalize_collection_name raw
unfolding normalize_collection_name
normalize_collection_name_idem raw = ap join (split-join (split raw) (split-IsWord raw))

-- The keys of the kept tags are all different, and differ from those seen before.
abbrev pub HasFreshKeys : (ℕ → Text) → List Text → List Text → Type 0
HasFreshKeys fold seen [] = Unit
HasFreshKeys fold seen (name ∷ names) =
    (mem_text (recase fold name) seen ≡ false) × HasFreshKeys fold (recase fold name ∷ seen) names

-- A tag as the model keeps it: not empty, at most 100 characters, its words one space apart.
abbrev pub IsCleanTag : Text → Type 0
IsCleanTag name =
    (is_empty name ≡ false) × (length name ≤ max_tag_length) × (join (split name) ≡ name)

normalize_tags_from-clean :
    (fold : ℕ → Text) (seen tags : List Text)
    → All IsCleanTag (normalize_tags_from fold seen tags)
      × HasFreshKeys fold seen (normalize_tags_from fold seen tags)
unfolding normalize_tags_from
normalize_tags_from-clean fold seen [] = (tt, tt)
normalize_tags_from-clean fold seen (tag ∷ tags) =
    elim (Bool-cases
      (is_empty (join (split tag)) || ltb max_tag_length (length (join (split tag))))) [
        | inl e ↦ rw e (normalize_tags_from-clean fold seen tags)
        | inr e ↦ elim (Bool-cases (mem_text (recase fold (join (split tag))) seen)) [
          | inl k ↦ rw (e, k) (normalize_tags_from-clean fold seen tags)
          | inr k ↦
              let rest =
                normalize_tags_from-clean fold (recase fold (join (split tag)) ∷ seen) tags in
              rw (e, k)
                (
                  (
                    (
                      ground arith,
                      ground arith,
                      ap join (split-join (split tag) (split-IsWord tag)),
                    ),
                    rest.0,
                  ),
                  (k, rest.1),
                )
        ]
      ]

-- What the tags of a line item are after validation: each is clean, and no two agree up to case.
pub normalize_tags_lem :
    (fold : ℕ → Text) (tags : List Text)
    → All IsCleanTag (normalize_tags fold tags) × HasFreshKeys fold [] (normalize_tags fold tags)
unfolding normalize_tags
normalize_tags_lem fold tags = normalize_tags_from-clean fold [] tags
