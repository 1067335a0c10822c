-- ===== src/Money/Tests.antt =====
-- Roundings of single amounts.
use vision_bill.Money.{Decimal, cents}
use vision_bill.Money.Rounding.{moved_by, cents_nearest}
use vision_bill.Prelude.Int.{pos, negsuc, magnitude}
use vision_bill.Prelude.{◌⊎◌, ◌*◌, ◌^◌, ◌≤◌, ◌<◌}

-- -2.345
abbrev refund : Decimal
refund = record { coefficient = negsuc 2344; places = 3 }

-- 2.35
abbrev charge : Decimal
charge = record { coefficient = pos 235; places = 2 }

cents_nearest_example :
    (2 * moved_by refund ≤ 10 ^ 3)
    × ((2 * moved_by refund < 10 ^ 3) ⊎ (2345 * 100 ≤ magnitude (cents refund) * 10 ^ 3))
cents_nearest_example = cents_nearest refund
