-- ===== src/Statistics/Months.antt =====
-- The months that the history covers.
use native.Mathlib.Nat.{div-add-mod, mod-lt}
use vision_bill.Statistics.{
  Month, month_index, of_index, month_after, month_before, months_from, history_months,
}
use vision_bill.Prelude.{
  ℕ, zero, suc, ◌+◌, ◌-◌, ◌≤◌, ◌<◌, ◌≡◌, refl, ap, ◌∙◌, arith, get_elem?, some,
}

-- The number of a month within its year is from 1 to 12, and its index leads back to it.
month_index-of_index : (i : ℕ) → month_index (of_index i) ≡ i
month_index-of_index i = omega (arith, div-add-mod i 12)

of_index-month : (i : ℕ) → (1 ≤ (of_index i).1) × ((of_index i).1 ≤ 12)
of_index-month i = let h = mod-lt i {m = 12} (omega arith) in (omega arith, omega (arith, h))

-- The history has one month after the other and ends with the current one: its i-th month lies
-- `months - 1 - i` months before the current month, and is a month of the calendar.
pub history_months_lem :
    (today : Month) (months i : ℕ)
    → i < months
    → months ≤ month_index today
    → (m : Month) × (get_elem? (history_months today months) i ≡ some m)
      × (month_index m + (months - 1 - i) ≡ month_index today)
      × (1 ≤ m.1)
      × (m.1 ≤ 12)
unfolding history_months month_before month_after
history_months_lem today months i h k =
    let start = month_before today (months - 1) in
    (
      month_after start i,
      nth start 0 months i h ∙ ap (λ n. some (month_after start n)) (omega arith),
      place start refl,
      (of_index-month (month_index start + i)).0,
      (of_index-month (month_index start + i)).1,
    )
  where
    place :
        (start : Month)
        → start ≡ of_index (month_index today - (months - 1))
        → month_index (of_index (month_index start + i)) + (months - 1 - i) ≡ month_index today
    place start e =
        let start_index =
          ap month_index e ∙ month_index-of_index (month_index today - (months - 1)) in
        omega (arith, h, k, start_index, month_index-of_index (month_index start + i))

    nth :
        (start : Month) (offset n i : ℕ)
        → i < n
        → get_elem? (months_from start offset n) i ≡ some (month_after start (offset + i))
    nth start offset zero i h = absurd (omega (arith, h))
    nth start offset (suc n) zero h = ap (λ k. some (month_after start k)) (omega arith)
    nth start offset (suc n) (suc i) h =
        nth start (suc offset) n i (omega (arith, h))
        ∙ ap (λ k. some (month_after start k)) (omega arith)
