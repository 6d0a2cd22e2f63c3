-- ===== src/Calendar/FullMonths.antt =====
-- addMonths, fullMonthsBetween and diffCalendarDays against the order of the dates.
use native.Mathlib.Nat.{add-zero}
use native.Mathlib.Decide.{dec_lt}
use pms_homestay.Prelude.{
  ℕ, zero, suc, ◌+◌, ◌-◌, ◌≤◌, ◌<◌, ◌≡◌, refl, true, false, Bool-cases, inl, inr, leb, arith,
}
use pms_homestay.Prelude.Int.{pos}
use pms_homestay.Calendar.{
  Date, date_ltb, date_leb, add_months, full_months_loop, full_months_between, ordinal,
  diff_calendar_days, add_days, days_later,
}
use pms_homestay.Calendar.Ordinal.{
  IsDate, days_in_month_bounds, date_leb-ordinal, ordinal_lt_of_month, ordinal-days_later,
  ordinal_injective, days_later-IsDate,
}

pub add_months-IsDate : (a : Date) (n : ℕ) → IsDate a → IsDate (add_months a n)
unfolding add_months
add_months-IsDate a n h = omega (arith, h.first, days_in_month_bounds (a.month + n))

add_months-zero : (a : Date) → IsDate a → add_months a 0 ≡ a
unfolding add_months
add_months-zero a h = rw add-zero (ground (arith, h.last))

month-add_months : (a : Date) (n : ℕ) → (add_months a n).month ≡ a.month + n
unfolding add_months
month-add_months a n = refl

-- A date with a later month is not at or before `b`.
not_leb_of_month : (a b : Date) → b.month < a.month → date_leb a b ≡ false
unfolding date_leb date_ltb
not_leb_of_month a b h = ground arith

-- With enough rounds the loop stops at a count that fits, and whose successor does not.
full_months_loop_lem :
    (fuel : ℕ) (a b : Date) (n : ℕ)
    → date_leb (add_months a n) b ≡ true
    → b.month < a.month + n + fuel
    → let r = full_months_loop fuel a b n in
      (date_leb (add_months a r) b ≡ true) × (date_leb (add_months a (r + 1)) b ≡ false)
unfolding full_months_loop
full_months_loop_lem zero a b n fits enough =
    (fits, not_leb_of_month (add_months a (n + 1)) b (omega (arith, month-add_months a (n + 1))))
full_months_loop_lem (suc fuel) a b n fits enough =
    elim (Bool-cases (date_leb (add_months a (n + 1)) b)) [
      | inl more ↦ rw more (full_months_loop_lem fuel a b (n + 1) more (omega arith))
      | inr done ↦ rw done (fits, done)
    ]

add_months_mono :
    (a : Date) (n k : ℕ) → IsDate a → n < k → ordinal (add_months a n) < ordinal (add_months a k)
add_months_mono a n k h lt =
    ordinal_lt_of_month (add_months a n) (add_months a k) (add_months-IsDate a n h)
      (add_months-IsDate a k h) (omega (arith, month-add_months a n, month-add_months a k))

-- Past a count that does not fit, none does.
leb_false_mono :
    (a b : Date) (n k : ℕ)
    → IsDate a
    → IsDate b
    → n ≤ k
    → date_leb (add_months a n) b ≡ false
    → date_leb (add_months a k) b ≡ false
leb_false_mono a b n k ha hb le over = elim (dec_lt n k) [
  | yes lt ↦ ground (
    arith,
    add_months_mono a n k ha lt,
    date_leb-ordinal (add_months a n) b (add_months-IsDate a n ha) hb,
    date_leb-ordinal (add_months a k) b (add_months-IsDate a k ha) hb,
  )
  | no ge ↦ let e : n ≡ k = omega arith in rw e at over
]

not_leb_after :
    (a b : Date) → IsDate a → IsDate b → date_leb b a ≡ true → date_leb (add_months a 1) b ≡ false
not_leb_after a b ha hb same = ground (
  arith,
  date_leb-ordinal b a hb ha,
  date_leb-ordinal (add_months a 1) b (add_months-IsDate a 1 ha) hb,
  ordinal_lt_of_month a (add_months a 1) ha (add_months-IsDate a 1 ha)
      (omega (arith, month-add_months a 1)),
)

full_months_between_lem :
    (a b : Date)
    → IsDate a
    → IsDate b
    → date_leb a b ≡ true
    → let n = full_months_between a b in
      (date_leb (add_months a n) b ≡ true) × (date_leb (add_months a (n + 1)) b ≡ false)
unfolding full_months_between
full_months_between_lem a b ha hb le = elim (Bool-cases (date_leb b a)) [
  | inl same ↦ rw (same, add_months-zero a ha) (le, not_leb_after a b ha hb same)
  | inr later ↦ rw later (
      full_months_loop_lem (b.month - a.month + 1) a b 0 (rw (add_months-zero a ha) le)
        (omega arith))
]

-- For dates `a` and `b` with `a` not after `b`, fullMonthsBetween returns the greatest number of
-- months that can be added to `a` without passing `b`: that many fit, and no greater number does.
pub full_months_between_greatest :
    (a b : Date)
    → IsDate a
    → IsDate b
    → date_leb a b ≡ true
    → (date_leb (add_months a (full_months_between a b)) b ≡ true)
      × ((k : ℕ) → full_months_between a b < k → date_leb (add_months a k) b ≡ false)
full_months_between_greatest a b ha hb le =
    let n = full_months_between a b in
    let (fits, over) = full_months_between_lem a b ha hb le in
    (fits, λ k lt. leb_false_mono a b (n + 1) k ha hb (omega arith) over)

-- addDays and diffCalendarDays undo each other: `n` days after a date are `n` days away from it,
-- and the difference to a date that is not earlier leads to that date.
pub add_days-diff :
    (a b : Date) (n : ℕ)
    → IsDate a
    → IsDate b
    → date_leb a b ≡ true
    → (diff_calendar_days a (add_days a (pos n)) ≡ pos n)
      × (add_days a (diff_calendar_days a b) ≡ b)
unfolding diff_calendar_days add_days
add_days-diff a b n ha hb le =
    let ordered : leb (ordinal a) (ordinal b) ≡ true = rw (← date_leb-ordinal a b ha hb) le in
    let k = ordinal b - ordinal a in
    (
      ground (arith, ordinal-days_later a n ha),
      rw ordered (
          ordinal_injective (days_later a k) b (days_later-IsDate a k ha) hb
            (ground (arith, ordinal-days_later a k ha))),
    )
