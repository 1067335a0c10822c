-- ===== src/Money.antt =====
-- Amounts: Python's `Decimal` as an exact number, `coefficient / 10 ^ places`, and the comparisons
-- of src/vision_bill/service/benchmark_scoring.py. A `float` of the source is taken as the decimal
-- that `str` prints.
pub mod Order
pub mod Rounding
mod Tests
use vision_bill.Prelude.Int.{ℤ, pos, negsuc, magnitude, neg, ◌+ℤ◌, ◌-ℤ◌, leb_ℤ}
use vision_bill.Prelude.Result.{Result, ok, err, ◌>>=◌}
use vision_bill.Prelude.{
  ℕ, ◌+◌, ◌-◌, ◌*◌, ◌/◌, ◌^◌, Bool, true, false, Option, none, some, leb, ltb, ◌&&◌, if◌then◌else◌,
}

pub record Decimal : Type 0 where
  pub coefficient : ℤ
  pub places : ℕ

abbrev pub zero_decimal : Decimal
zero_decimal = record { coefficient = pos 0; places = 0 }

-- An integer times a power of ten.
abbrev pub scale : ℤ → ℕ → ℤ
scale (pos n) k = pos (n * 10 ^ k)
scale (negsuc n) k = neg (pos ((n + 1) * 10 ^ k))

-- `a - b`, exactly.
unfoldable pub minus : Decimal → Decimal → Decimal
minus a b = record {
  coefficient = scale a.coefficient b.places -ℤ scale b.coefficient a.places;
  places = a.places + b.places;
}

-- `a + b`, exactly.
unfoldable pub add_decimal : Decimal → Decimal → Decimal
add_decimal a b = record {
  coefficient = scale a.coefficient b.places +ℤ scale b.coefficient a.places;
  places = a.places + b.places;
}

-- `a <= b`
abbrev pub decimal_leb : Decimal → Decimal → Bool
decimal_leb a b = leb_ℤ (scale a.coefficient b.places) (scale b.coefficient a.places)

-- `abs(a) <= b` for a bound `b` that is not negative.
unfoldable pub abs_le : Decimal → Decimal → Bool
abs_le a b = leb (magnitude a.coefficient * 10 ^ b.places) (magnitude b.coefficient * 10 ^ a.places)

abbrev pub is_negsuc : ℤ → Bool
is_negsuc (pos n) = false
is_negsuc (negsuc n) = true

-- `a < 0`
abbrev pub is_negative : Decimal → Bool
is_negative a = is_negsuc a.coefficient

-- `num / den` to the nearest integer, halves up.
unfoldable pub round_half_up : ℕ → ℕ → ℕ
round_half_up num den = (2 * num + den) / (2 * den)

-- ROUND_HALF_UP is away from zero: the sign goes around the rounding.
abbrev pub with_sign : ℤ → ℕ → ℤ
with_sign (pos n) m = pos m
with_sign (negsuc n) m = neg (pos m)

-- The value of `value.quantize(Decimal("0.01"), rounding=ROUND_HALF_UP)`, in hundredths.
unfoldable pub cents : Decimal → ℤ
cents a = with_sign a.coefficient (round_half_up (magnitude a.coefficient * 100) (10 ^ a.places))

pub data InvalidOperation : Type 0 where
  invalid_operation : InvalidOperation

-- The precision of decimal's default context.
abbrev pub precision : ℕ
precision = 28

-- `quantize` raises where the result has more digits than the precision.
unfoldable pub quantize : Decimal → Result InvalidOperation ℤ
quantize a =
    if ltb (magnitude (cents a)) (10 ^ precision) then ok (cents a) else err invalid_operation

unfoldable pub normalize_money : Option Decimal → Result InvalidOperation (Option ℤ)
normalize_money none = ok none
normalize_money (some a) = quantize a >>= λ c. ok (some c)

-- MONEY_TOLERANCE, in hundredths.
abbrev pub money_tolerance : ℕ
money_tolerance = 1

abbrev pub within_tolerance : Option ℤ → Option ℤ → Bool
within_tolerance (some l) (some r) = leb (magnitude (l -ℤ r)) money_tolerance
within_tolerance _ _ = false

-- An amount that is missing on either side is no match.
unfoldable pub money_equal : Option Decimal → Option Decimal → Result InvalidOperation Bool
money_equal expected actual = normalize_money expected >>= λ left.
    normalize_money actual >>= λ right. ok (within_tolerance left right)
