-- ===== src/ReceiptDb/Persist/Linked.antt =====
-- Which receipt an image has, before and after `persist_receipt` of
-- src/vision_bill/provider/db/receipt_db.py.
use mathlib.Core.List.{append-nil}
use vision_bill.ReceiptDb.{
  ReceiptRow, ReceiptStatus, Columns, Fresh, write_receipt, is_of_image, older_receipt, first_row,
  optional, get_receipt_by_image_id,
}
use vision_bill.ReceiptDb.Persist.{inserted_receipt, rewritten_receipt, write_row}
use vision_bill.Receipts.{Receipt}
use vision_bill.Prelude.{
  ℕ, ◌≡◌, ◌≢◌, refl, ap, ◌∙◌, Bool, List, [], ◌∷◌, ◌++◌, Option, none, some, ◌==◌, filter,
  update_where, insert_by, sort_by, arith, Option-cases, inl, inr,
}
use vision_bill.Prelude.Rewritten.{filter-append, filter-update_where, sort_by-update_where}

abbrev pub receipt_id_of_image : ℕ → List ReceiptRow → Option ℕ
receipt_id_of_image image t = optional (λ (r : ReceiptRow). r.id) (get_receipt_by_image_id image t)

first_row-insert_by-some {ℓ} :
    {A : Type ℓ} (before : A → A → Bool) (x : A) (ys : List A)
    → first_row (insert_by before x ys) ≢ none
first_row-insert_by-some before x [] h = cc
first_row-insert_by-some before x (y ∷ ys) h = ground arith

first_row-sort_by-none {ℓ} :
    {A : Type ℓ} (before : A → A → Bool) (xs : List A)
    → first_row (sort_by before xs) ≡ none
    → xs ≡ []
first_row-sort_by-none before [] h = refl
first_row-sort_by-none before (x ∷ xs) h =
    absurd (first_row-insert_by-some before x (sort_by before xs) h)

first_row-update_where {ℓ κ} :
    {A : Type ℓ} {B : Type κ} (q : A → Bool) (f : A → A) (key : A → B) (xs : List A)
    → ((x : A) → key (f x) ≡ key x)
    → optional key (first_row (update_where q f xs)) ≡ optional key (first_row xs)
first_row-update_where q f key [] keeps = refl
first_row-update_where q f key (x ∷ xs) keeps = ground (arith, keeps x)

module _ (columns : Columns) (fresh : Fresh) (receipt : Receipt) where
  module _ (status : ReceiptStatus) (verified : Bool) (user_id : Option ℕ) where
    abbrev rewritten : ReceiptRow → ReceiptRow
    rewritten = rewritten_receipt columns fresh receipt status verified user_id

    -- An UPDATE with these columns moves no receipt to another image and changes no order.
    update-receipt_id_of_image :
        (j id : ℕ) (t : List ReceiptRow)
        → receipt_id_of_image j (update_where (λ r. r.id == id) rewritten t)
          ≡ receipt_id_of_image j t
    unfolding get_receipt_by_image_id write_receipt
    update-receipt_id_of_image j id t =
        rw
          (filter-update_where (λ (r : ReceiptRow). r.id == id) rewritten (is_of_image j) t
            (λ r. refl))
          (rw
            (sort_by-update_where (λ (r : ReceiptRow). r.id == id) rewritten older_receipt
              (λ r s. refl) (λ r s. refl) (filter (is_of_image j) t))
            (first_row-update_where (λ (r : ReceiptRow). r.id == id) rewritten
              (λ (r : ReceiptRow). r.id) (sort_by older_receipt (filter (is_of_image j) t))
              (λ r. refl)))

    -- A new row has its image, and no other image gets it.
    module _ (image : ℕ) where
      abbrev inserted : ReceiptRow
      inserted = inserted_receipt columns fresh receipt (some image) status verified user_id

      insert-receipt_id_of_image :
          (t : List ReceiptRow)
          → get_receipt_by_image_id image t ≡ none
          → receipt_id_of_image image (t ++ inserted ∷ []) ≡ some fresh.receipt_id
      unfolding get_receipt_by_image_id
      insert-receipt_id_of_image t h = rw (filter-append (is_of_image image) t (inserted ∷ [])) (
          rw (first_row-sort_by-none older_receipt (filter (is_of_image image) t) h) (ground arith))

      absent : (j : ℕ) → j ≢ image → filter (is_of_image j) (inserted ∷ []) ≡ []
      absent j ne = ground arith

      insert-receipt_id_of_image_ne :
          (j : ℕ) (t : List ReceiptRow)
          → j ≢ image
          → receipt_id_of_image j (t ++ inserted ∷ []) ≡ receipt_id_of_image j t
      unfolding get_receipt_by_image_id
      insert-receipt_id_of_image_ne j t ne = rw (filter-append (is_of_image j) t (inserted ∷ [])) (
          rw (absent j ne) (
            ap (λ rs. optional (λ (r : ReceiptRow). r.id) (first_row (sort_by older_receipt rs)))
              (append-nil (filter (is_of_image j) t))))

      -- What the statement writes for an image, said by the receipts that images have.
      abbrev after : List ReceiptRow → ReceiptRow × List ReceiptRow
      after = write_row columns fresh receipt (some image) status verified user_id

      pub write_row-links :
          (t : List ReceiptRow) → receipt_id_of_image image (after t).1 ≡ some (after t).0.id
      unfolding write_row write_receipt
      write_row-links t = elim (Option-cases (get_receipt_by_image_id image t)) [
        | inl e ↦ rw e (insert-receipt_id_of_image t e)
        | inr (old, e) ↦
            rw e (
              update-receipt_id_of_image image old.id t
              ∙ ap (optional (λ (r : ReceiptRow). r.id)) e)
      ]

      pub write_row-keeps :
          (t : List ReceiptRow) {old : ℕ}
          → receipt_id_of_image image t ≡ some old
          → (after t).0.id ≡ old
      unfolding write_row write_receipt
      write_row-keeps t h = elim (Option-cases (get_receipt_by_image_id image t)) [
        | inl e ↦ absurd (impossible (rw e at h))
        | inr (old', e) ↦ rw e (same (rw e at h))
      ]
        where
          impossible : {n : ℕ} → none ≢ some n
          impossible q = cc

          same : {m n : ℕ} → some m ≡ some n → m ≡ n
          same q = cc

      pub write_row-links_ne :
          (j : ℕ) (t : List ReceiptRow)
          → j ≢ image
          → receipt_id_of_image j (after t).1 ≡ receipt_id_of_image j t
      unfolding write_row
      write_row-links_ne j t ne = elim (Option-cases (get_receipt_by_image_id image t)) [
        | inl e ↦ rw e (insert-receipt_id_of_image_ne j t ne)
        | inr (old, e) ↦ rw e (update-receipt_id_of_image j old.id t)
      ]
