-- ===== src/Money/Rounding.antt =====
-- Rounding to cents is to the nearest, and `money_equal` on amounts that can be rounded.
use vision_bill.Money.{
  Decimal, scale, round_half_up, cents, with_sign, normalize_money, quantize, precision,
  within_tolerance, money_equal,
}
use native.Mathlib.Nat.{div-add-mod, mod-lt}
use vision_bill.Prelude.Int.{ℤ, pos, negsuc, magnitude, neg, ◌-ℤ◌}
use native.Mathlib.Nat.{pow-suc}
use vision_bill.Prelude.Result.{ok}
use vision_bill.Prelude.{
  Bool, is_some, ltb, zero, suc, ℕ, ◌+◌, ◌-◌, ◌⊎◌, inl, inr, Bool-cases, ◌*◌, ◌^◌, ◌≤◌, ◌<◌, ◌≡◌,
  refl, ap, ◌∙◌, true, Option, none, some, arith, leb,
}

-- The result is the nearest integer; exactly half way it is the upper one.
round_half_up_lem :
    (num den : ℕ)
    → 0 < den
    → (2 * num < 2 * den * round_half_up num den + den)
      × (2 * den * round_half_up num den ≤ 2 * num + den)
unfolding round_half_up
round_half_up_lem num den h =
    let e = div-add-mod (2 * num + den) (2 * den) in
    let b = mod-lt (2 * num + den) {m = 2 * den} (omega arith) in
    (omega (arith, e, b), omega (arith, e, b))

-- How far an amount and its cents are apart, in units of 10 ^ -places hundredths.
abbrev pub moved_by : Decimal → ℕ
moved_by a = magnitude (scale (cents a) a.places -ℤ scale a.coefficient 2)

magnitude-minus : (x y : ℕ) → magnitude (pos x -ℤ pos y) ≡ (x - y) + (y - x)
unfolding ◌-ℤ◌
magnitude-minus x y = ground arith

magnitude-minus_neg : (x y : ℕ) → magnitude (neg (pos x) -ℤ neg (pos y)) ≡ (x - y) + (y - x)
unfolding ◌-ℤ◌
magnitude-minus_neg x y = ground arith

scale-neg : (m k : ℕ) → scale (neg (pos m)) k ≡ neg (pos (m * 10 ^ k))
scale-neg zero k = ground arith
scale-neg (suc m) k = ground arith

magnitude-with_sign : (c : ℤ) (m : ℕ) → magnitude (with_sign c m) ≡ m
magnitude-with_sign (pos n) m = omega arith
magnitude-with_sign (negsuc n) m = ground arith

-- The sign is that of the amount, so the magnitudes are apart by as much.
apart :
    (c : ℤ) (m k : ℕ)
    → magnitude (scale (with_sign c m) k -ℤ scale c 2)
      ≡ (m * 10 ^ k - magnitude c * 100) + (magnitude c * 100 - m * 10 ^ k)
apart (pos n) m k =
    magnitude-minus (m * 10 ^ k) (n * 100)
    ∙ ap (λ x. (m * 10 ^ k - x * 100) + (x * 100 - m * 10 ^ k)) same
  where
    same : n ≡ magnitude (pos n)
    same = omega arith
apart (negsuc n) m k =
    ap (λ z. magnitude (z -ℤ neg (pos ((n + 1) * 100)))) (scale-neg m k)
    ∙ magnitude-minus_neg (m * 10 ^ k) ((n + 1) * 100)
    ∙ ap (λ x. (m * 10 ^ k - x * 100) + (x * 100 - m * 10 ^ k)) same
  where
    same : n + 1 ≡ magnitude (negsuc n)
    same = omega arith

-- Rounding an amount to cents moves it by at most half a cent, whatever its sign and its places, and
-- by exactly half a cent only away from zero.
pub cents_nearest :
    (a : Decimal)
    → (2 * moved_by a ≤ 10 ^ a.places)
      × ((2 * moved_by a < 10 ^ a.places)
          ⊎ (magnitude a.coefficient * 100 ≤ magnitude (cents a) * 10 ^ a.places))
unfolding cents
cents_nearest a =
    let n = magnitude a.coefficient in
    let m = round_half_up (n * 100) (10 ^ a.places) in
    rw (apart a.coefficient m a.places, magnitude-with_sign a.coefficient m)
      (near n m (10 ^ a.places) (round_half_up_lem (n * 100) (10 ^ a.places) (pow_pos a.places)))
  where
    pow_pos : (n : ℕ) → 0 < 10 ^ n
    pow_pos zero = omega arith
    pow_pos (suc n) = rw pow-suc (omega (arith, pow_pos n))

    IsNear : ℕ → ℕ → ℕ → ℕ → Type 0
    IsNear d n m u = (2 * d ≤ u) × ((2 * d < u) ⊎ (n * 100 ≤ m * u))

    near :
        (n m u : ℕ)
        → (2 * (n * 100) < 2 * u * m + u) × (2 * u * m ≤ 2 * (n * 100) + u)
        → IsNear ((m * u - n * 100) + (n * 100 - m * u)) n m u
    near n m u (h, k) = between (n * 100) (m * u) (grind (arith, h)) (grind (arith, k))
      where
        between :
            (x y : ℕ)
            → 2 * x < 2 * y + u
            → 2 * y ≤ 2 * x + u
            → (2 * ((y - x) + (x - y)) ≤ u) × ((2 * ((y - x) + (x - y)) < u) ⊎ (x ≤ y))
        between x y h k = elim (Bool-cases (leb x y)) [
          | inl e ↦ (ground arith, inr (ground arith))
          | inr e ↦ (ground arith, inl (ground arith))
        ]

magnitude_minus_self : (a : ℤ) → magnitude (a -ℤ a) ≡ 0
unfolding ◌-ℤ◌
magnitude_minus_self a = ground arith

-- An amount that has at most 28 digits in hundredths, or is missing.
unfoldable pub IsQuantizable : Option Decimal → Type 0
IsQuantizable none = Unit
IsQuantizable (some a) = magnitude (cents a) < 10 ^ precision

normalize_money-IsQuantizable :
    (o : Option Decimal) → IsQuantizable o → (c : Option ℤ) × (normalize_money o ≡ ok c)
unfolding IsQuantizable normalize_money quantize
normalize_money-IsQuantizable none h = (none, refl)
normalize_money-IsQuantizable (some a) h = (some (cents a), rw (fits a h) refl)
  where
    fits :
        (a : Decimal)
        → magnitude (cents a) < 10 ^ precision
        → ltb (magnitude (cents a)) (10 ^ precision) ≡ true
    fits a h = ground arith

-- The comparison of such amounts returns.
pub money_equal-IsQuantizable :
    (e a : Option Decimal)
    → IsQuantizable e
    → IsQuantizable a
    → (b : Bool) × (money_equal e a ≡ ok b)
unfolding money_equal
money_equal-IsQuantizable e a h k =
    let (l, left) = normalize_money-IsQuantizable e h in
    let (r, right) = normalize_money-IsQuantizable a k in
    (within_tolerance l r, rw (left, right) refl)

-- An amount matches itself; one that is missing does not.
pub money_equal_refl : (o : Option Decimal) → IsQuantizable o → money_equal o o ≡ ok (is_some o)
unfolding money_equal IsQuantizable normalize_money quantize
money_equal_refl none h = refl
money_equal_refl (some a) h = rw (fits a h, magnitude_minus_self (cents a)) refl
  where
    fits :
        (a : Decimal)
        → magnitude (cents a) < 10 ^ precision
        → ltb (magnitude (cents a)) (10 ^ precision) ≡ true
    fits a h = ground arith
