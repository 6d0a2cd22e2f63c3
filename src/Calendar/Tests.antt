-- ===== src/Calendar/Tests.antt =====
-- Runs of the calendar, and its theorems at concrete dates.
use pms_homestay.Prelude.{ℕ, ◌<◌, ◌≡◌, refl, true, false, arith}
use pms_homestay.Prelude.Int.{pos, negsuc}
use pms_homestay.Calendar.{
  date, date_ltb, date_leb, days_in_month, is_leap, days_of, next_day, prev_day, days_later,
  days_earlier, add_days, year_start, days_before, month_start, ordinal, diff_calendar_days,
  day_of_week, add_months, full_months_loop, full_months_between,
}
use pms_homestay.Calendar.Ordinal.{IsDate}
use pms_homestay.Calendar.FullMonths.{full_months_between_greatest, add_days-diff}

-- 31/1 + 1 month is 28/2, and 29/2 in a leap year.
clamps :
    (add_months (date 2026 1 31) 1 ≡ date 2026 2 28)
    × (add_months (date 2024 1 31) 1 ≡ date 2024 2 29)
unfolding add_months days_in_month is_leap days_of
clamps = (refl, refl)

walks :
    (add_days (date 2026 12 31) (pos 1) ≡ date 2027 1 1)
    × (add_days (date 2026 3 1) (negsuc 0) ≡ date 2026 2 28)
unfolding add_days days_later days_earlier next_day prev_day days_in_month is_leap days_of
walks = (refl, refl)

-- 2000-01-01 was a Saturday, 2026-06-14 a Sunday.
weekdays : (day_of_week (date 2000 1 1) ≡ 6) × (day_of_week (date 2026 6 14) ≡ 0)
unfolding day_of_week ordinal month_start year_start days_before is_leap days_of
weekdays = (refl, refl)

months :
    (full_months_between (date 2026 1 31) (date 2026 3 30) ≡ 1)
    × (full_months_between (date 2026 1 31) (date 2026 3 31) ≡ 2)
unfolding full_months_between full_months_loop add_months date_leb date_ltb days_in_month is_leap
    days_of
months = (refl, refl)

-- From 20 May to 5 June there is no whole month, and there are 16 days.
late_may :
    (full_months_between (date 2026 5 20) (date 2026 6 5) ≡ 0)
    × (diff_calendar_days (date 2026 5 20) (date 2026 6 5) ≡ pos 16)
unfolding full_months_between full_months_loop add_months date_leb date_ltb diff_calendar_days
    ordinal month_start year_start days_before days_in_month is_leap days_of
late_may = (refl, refl)

january : IsDate (date 2026 1 31)
unfolding days_in_month is_leap days_of
january = record { first = omega arith; last = omega arith }

march : IsDate (date 2026 3 30)
unfolding days_in_month is_leap days_of
march = record { first = omega arith; last = omega arith }

january-le-march : date_leb (date 2026 1 31) (date 2026 3 30) ≡ true
unfolding date_leb date_ltb
january-le-march = refl

full_months_between_greatest_example :
    let a = date 2026 1 31 in
    let b = date 2026 3 30 in
    (date_leb (add_months a (full_months_between a b)) b ≡ true)
    × ((k : ℕ) → full_months_between a b < k → date_leb (add_months a k) b ≡ false)
full_months_between_greatest_example =
    full_months_between_greatest (date 2026 1 31) (date 2026 3 30) january march january-le-march

add_days-diff_example :
    let a = date 2026 1 31 in
    let b = date 2026 3 30 in
    (diff_calendar_days a (add_days a (pos 400)) ≡ pos 400)
    × (add_days a (diff_calendar_days a b) ≡ b)
add_days-diff_example =
    add_days-diff (date 2026 1 31) (date 2026 3 30) 400 january march january-le-march
