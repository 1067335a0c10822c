-- ===== src/Money/Order.antt =====
-- The order of amounts without a sign (src/vision_bill/service/receipt_service.py).
use vision_bill.Money.{Decimal, is_negsuc, scale, decimal_leb}
use vision_bill.Prelude.Int.{ℤ, pos, negsuc, leb_ℤ}
use vision_bill.Prelude.{ℕ, ◌*◌, ◌^◌, ◌≤◌, ◌≡◌, true, false, arith}
use native.Mathlib.Nat.{mul-le-mul_right, le_of_mul-le-mul_right, one-le-pow}

pub decimal_leb_refl : (a : Decimal) → decimal_leb a a ≡ true
decimal_leb_refl a = ground arith

pub decimal_leb_total : (a b : Decimal) → decimal_leb a b ≡ false → decimal_leb b a ≡ true
decimal_leb_total a b h = ground (arith)

cross : (a b c p q r : ℕ) → 1 ≤ q → a * q ≤ b * p → b * r ≤ c * q → a * r ≤ c * p
cross a b c p q r one h k =
    let left = mul-le-mul_right r h in
    let right = mul-le-mul_right p k in
    le_of_mul-le-mul_right {m = a * r} {n = c * p} {k = q} (ground (arith, left, right)) one

pub decimal_leb_trans :
    (a b c : Decimal)
    → is_negsuc a.coefficient ≡ false
    → is_negsuc b.coefficient ≡ false
    → is_negsuc c.coefficient ≡ false
    → decimal_leb a b ≡ true
    → decimal_leb b c ≡ true
    → decimal_leb a c ≡ true
decimal_leb_trans a b c = go a.coefficient b.coefficient c.coefficient
  where
    go :
        (x y z : ℤ)
        → is_negsuc x ≡ false
        → is_negsuc y ≡ false
        → is_negsuc z ≡ false
        → leb_ℤ (scale x b.places) (scale y a.places) ≡ true
        → leb_ℤ (scale y c.places) (scale z b.places) ≡ true
        → leb_ℤ (scale x c.places) (scale z a.places) ≡ true
    go (negsuc x) y z n m o h k = absurd (cc)
    go (pos x) (negsuc y) z n m o h k = absurd (cc)
    go (pos x) (pos y) (negsuc z) n m o h k = absurd (cc)
    go (pos x) (pos y) (pos z) n m o h k =
        let below =
          cross x y z (10 ^ a.places) (10 ^ b.places) (10 ^ c.places)
            (one-le-pow b.places 10 (omega arith)) (ground arith) (ground arith) in
        ground arith
