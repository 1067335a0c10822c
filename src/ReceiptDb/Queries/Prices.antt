-- ===== src/ReceiptDb/Queries/Prices.antt =====
-- The cheapest price of a product search (src/vision_bill/service/receipt_service.py).
use vision_bill.Money.{Decimal, is_negsuc, decimal_leb}
use vision_bill.Money.Order.{decimal_leb_refl, decimal_leb_total, decimal_leb_trans}
use vision_bill.ReceiptDb.Queries.{
  ProductPurchase, unit_prices, is_non_negative, cheapest, price_summary,
}
use mathlib.Core.List.{Memᴰ}
use vision_bill.Prelude.{
  ℕ, ◌≡◌, ◌⊎◌, refl, true, false, List, [], ◌∷◌, Option, none, some, inl, inr, arith, Bool-cases,
  filter, All, Text,
}

-- A price that a purchase has is cheapest where it is not negative and each price that is not
-- negative is at least as high; there is none where all are negative.
unfoldable pub IsCheapest : Option Decimal → List Decimal → Type 0
IsCheapest none ds = All (λ d. is_non_negative d ≡ false) ds
IsCheapest (some c) ds =
    (is_non_negative c ≡ true)
    × Memᴰ c ds
    × All (λ d. (is_non_negative d ≡ false) ⊎ (decimal_leb c d ≡ true)) ds

-- A lower price takes the place of the cheapest.
cheaper-All :
    (c d : Decimal) (ds : List Decimal)
    → is_non_negative c ≡ true
    → is_non_negative d ≡ true
    → decimal_leb d c ≡ true
    → All (λ x. (is_non_negative x ≡ false) ⊎ (decimal_leb c x ≡ true)) ds
    → All (λ x. (is_non_negative x ≡ false) ⊎ (decimal_leb d x ≡ true)) ds
cheaper-All c d [] nc nd le a = tt
cheaper-All c d (x ∷ ds) nc nd le (now, later) = (
  elim (Bool-cases (is_non_negative x)) [
    | inl nx ↦ elim now [
      | inl negative ↦ inl negative
      | inr above ↦ inr (decimal_leb_trans d c x (sign d nd) (sign c nc) (sign x nx) le above)
    ]
    | inr negative ↦ inl negative
  ],
  cheaper-All c d ds nc nd le later,
)
  where
    sign : (d : Decimal) → is_non_negative d ≡ true → is_negsuc d.coefficient ≡ false
    sign d h = ground arith

none_below :
    (d : Decimal) (ds : List Decimal)
    → All (λ x. is_non_negative x ≡ false) ds
    → All (λ x. (is_non_negative x ≡ false) ⊎ (decimal_leb d x ≡ true)) ds
none_below d [] a = tt
none_below d (x ∷ ds) (now, later) = (inl now, none_below d ds later)

cheapest-IsCheapest : (ds : List Decimal) → IsCheapest (cheapest (filter is_non_negative ds)) ds
unfolding IsCheapest cheapest
cheapest-IsCheapest [] = tt
cheapest-IsCheapest (d ∷ ds) = elim (Bool-cases (is_non_negative d)) [
  | inl n ↦ rw n (kept n (cheapest (filter is_non_negative ds)) refl (cheapest-IsCheapest ds))
  | inr n ↦ rw n (skipped n (cheapest (filter is_non_negative ds)) (cheapest-IsCheapest ds))
]
  where
    skipped :
        is_non_negative d ≡ false → (o : Option Decimal) → IsCheapest o ds → IsCheapest o (d ∷ ds)
    skipped n none h = (n, h)
    skipped n (some c) (nc, member, all_above) = (nc, Memᴰ.tail member, (inl n, all_above))

    kept :
        is_non_negative d ≡ true
        → (o : Option Decimal) → cheapest (filter is_non_negative ds) ≡ o
        → IsCheapest o ds
        → IsCheapest (cheapest (d ∷ filter is_non_negative ds)) (d ∷ ds)
    kept n none e h = rw e (n, Memᴰ.head refl, (inr (decimal_leb_refl d), none_below d ds h))
    kept n (some c) e (nc, member, all_above) = elim (Bool-cases (decimal_leb d c)) [
      | inl le ↦
          rw (e, le)
            (n, Memᴰ.head refl, (inr (decimal_leb_refl d), cheaper-All c d ds nc n le all_above))
      | inr gt ↦ rw (e, gt) (nc, Memᴰ.tail member, (inr (decimal_leb_total d c gt), all_above))
    ]

-- The cheapest price of a product search is one of its purchases' prices, is not negative, and is at
-- most each price that is not negative; it is absent exactly if all prices are negative.
pub price_summary-IsCheapest :
    (divide : Decimal → ℕ → Decimal) (query : Text) (ps : List ProductPurchase)
    → IsCheapest (price_summary divide query ps).cheapest_price (unit_prices ps)
unfolding price_summary cheapest
price_summary-IsCheapest divide query [] = cheapest-IsCheapest []
price_summary-IsCheapest divide query (p ∷ ps) = cheapest-IsCheapest (unit_prices (p ∷ ps))
