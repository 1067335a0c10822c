-- ===== src/Api/Corrections/Verified.antt =====
-- A receipt is verified once (`verify_receipt` of src/vision_bill/api/receipts.py).
use vision_bill.Api.Corrections.{
  Office, FileStore, move_image, verified_after, verify_found, verify_request,
}
use vision_bill.Images.{Images}
use vision_bill.ReceiptDb
use vision_bill.ReceiptDb.{
  Ledger, ReceiptRow, verified, receipt_scoped, get_receipt_by_id, set_verified,
}
use vision_bill.ReceiptDb.Queries.{receipt_status_eq}
use vision_bill.Sessions.{User}
use vision_bill.Prelude.{
  ℕ, ◌≡◌, refl, sym, ap, ◌∙◌, Bool, true, false, List, [], ◌∷◌, Option, none, some, if◌then◌else◌,
  find?, update_where, Bool-cases, Option-cases, inl, inr,
}
use vision_bill.Prelude.Result.{ok, err, err-ne-ok, ok-injective}

-- A row found after an UPDATE of the same rows was written by it.
find?-updated {ℓ} :
    {A : Type ℓ} (p : A → Bool) (f : A → A) (t : List A) {x : A}
    → ((y : A) → p (f y) ≡ p y)
    → find? p (update_where p f t) ≡ some x
    → (y : A) × (x ≡ f y)
find?-updated p f [] keeps h = absurd (cc)
find?-updated {A = A} p f (y ∷ t) {x} keeps h = elim (Bool-cases (p y)) [
  | inl e ↦ (y, first (rw (keeps y ∙ e) at (rw e at h)))
  | inr e ↦ find?-updated p f t keeps (rw e at (rw e at h))
]
  where
    first : {u : A} → some u ≡ some x → x ≡ u
    first q = cc

module _ (store : FileStore) (user : User) (id : ℕ) where
  abbrev lookup : List ReceiptRow → Option ReceiptRow
  lookup = get_receipt_by_id id (some user.id) user.can_see_all

  -- What a successful request leaves.
  record IsVerified (row : ReceiptRow) (o : Office) : Type 0 where
    found : lookup o.ledger.receipts ≡ some row
    status : row.status ≡ verified

  verified_after-ok :
      (m : Bool × Images) (o : Office) {row : ReceiptRow}
      → (verified_after user id m o).0 ≡ ok row
      → IsVerified row (verified_after user id m o).1
  unfolding ReceiptDb.verify_receipt get_receipt_by_id
  verified_after-ok (false, t) o h = absurd (err-ne-ok h)
  verified_after-ok (true, t) o {row} h = elim (Option-cases (lookup after)) [
    | inl e ↦ absurd (err-ne-ok (rw (ReceiptDb.verify_receipt, get_receipt_by_id, e) at h))
    | inr (r, e) ↦
        let same : r ≡ row =
          ok-injective (rw (ReceiptDb.verify_receipt, get_receipt_by_id, e) at h) in
        let (old, q) = find?-updated scoped set_verified o.ledger.receipts (λ r. refl) e in
        rw (ReceiptDb.verify_receipt, get_receipt_by_id, e)
          (record {
            found = e ∙ ap some same;
            status =
                sym (ap (λ (r : ReceiptRow). r.status) same) ∙ ap (λ (r : ReceiptRow). r.status) q;
          })
  ]
    where
      scoped : ReceiptRow → Bool
      scoped = receipt_scoped id (some user.id) user.can_see_all

      after : List ReceiptRow
      after = update_where scoped set_verified o.ledger.receipts

  verify_found-ok :
      (old : Option ReceiptRow) (o : Office) {row : ReceiptRow}
      → (verify_found store user id old o).0 ≡ ok row
      → IsVerified row (verify_found store user id old o).1
  verify_found-ok none o h = absurd (err-ne-ok h)
  verify_found-ok (some r) o h = elim (Bool-cases (receipt_status_eq r.status verified)) [
    | inl e ↦ absurd (err-ne-ok (rw e at h))
    | inr e ↦ rw e (verified_after-ok (move_image store user r.image_id id o.images) o (rw e at h))
  ]

  verified_again :
      (later : FileStore) (r : ReceiptRow) (o : Office)
      → r.status ≡ verified
      → verify_found later user id (some r) o ≡ (err 409, o)
  verified_again later r o h =
      ap
        (λ status.
          if receipt_status_eq status verified
          then (err 409, o)
          else verified_after user id (move_image later user r.image_id id o.images) o)
        h

  -- A caller's successful verification answers a verified receipt, which the caller then finds;
  -- and every later verification by the caller, with any file store, answers 409 and writes
  -- nothing, neither to the receipts nor to the images.
  pub verify_request_again :
      (o : Office) (row : ReceiptRow) (later : FileStore)
      → (verify_request store true user id o).0 ≡ ok row
      → let after = (verify_request store true user id o).1 in
        (row.status ≡ verified)
        × (get_receipt_by_id id (some user.id) user.can_see_all after.ledger.receipts ≡ some row)
        × (verify_request later true user id after ≡ (err 409, after))
  unfolding verify_request
  verify_request_again o row later h =
      let v = verify_found-ok (lookup o.ledger.receipts) o h in
      (
        v.status,
        v.found,
        ap (λ found. verify_found later user id found after) v.found
            ∙ verified_again later row after v.status,
      )
    where
      after : Office
      after = (verify_found store user id (lookup o.ledger.receipts) o).1
