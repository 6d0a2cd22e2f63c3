-- ===== src/Calendar.antt =====
-- packages/pricing-engine/src/dateutil.ts: calendar dates of the property's local frame. A string
-- YYYY-MM-DD is its month, counted from January of the year 0, and its day; the strings of
-- four-digit years are ordered as these pairs are.
pub mod Ordinal
pub mod FullMonths
mod Tests
use pms_homestay.Prelude.{
  ℕ, zero, suc, ◌+◌, ◌-◌, ◌*◌, ◌/◌, ◌%◌, ◌≤◌, ◌<◌, ◌≡◌, refl, Bool, true, false, not, ◌&&◌, ◌||◌,
  ltb, leb, ◌==◌, if◌then◌else◌, min, arith,
}
use pms_homestay.Prelude.Int.{ℤ, pos, negsuc, sub_ℕ}

pub record Date : Type 0 where
  pub month : ℕ
  pub day : ℕ

abbrev pub date : ℕ → ℕ → ℕ → Date
date y m d = record { month = y * 12 + (m - 1); day = d }

unfoldable pub is_leap : ℕ → Bool
is_leap y = y % 4 == 0 && (not (y % 100 == 0) || y % 400 == 0)

-- Days of a month from its place in the year (0 is January).
unfoldable pub days_of : Bool → ℕ → ℕ
days_of leap m =
    if m == 1
    then (if leap then 29 else 28)
    else if m == 3 || m == 5 || m == 8 || m == 10
    then 30
    else 31

unfoldable pub days_in_month : ℕ → ℕ
days_in_month m = days_of (is_leap (m / 12)) (m % 12)

-- The order of the strings: `a < b` and `a <= b`.
unfoldable pub date_ltb : Date → Date → Bool
date_ltb a b = ltb a.month b.month || (a.month == b.month && ltb a.day b.day)

unfoldable pub date_leb : Date → Date → Bool
unfolding date_ltb
date_leb a b = not (date_ltb b a)

unfoldable pub date_eq : Date → Date → Bool
date_eq a b = a.month == b.month && a.day == b.day

unfoldable pub next_day : Date → Date
next_day a =
    if ltb a.day (days_in_month a.month)
    then record { month = a.month; day = a.day + 1 }
    else record { month = a.month + 1; day = 1 }

unfoldable pub prev_day : Date → Date
prev_day a =
    if ltb 1 a.day
    then record { month = a.month; day = a.day - 1 }
    else record { month = a.month - 1; day = days_in_month (a.month - 1) }

unfoldable pub days_later : Date → ℕ → Date
days_later a zero = a
days_later a (suc n) = next_day (days_later a n)

unfoldable pub days_earlier : Date → ℕ → Date
days_earlier a zero = a
days_earlier a (suc n) = prev_day (days_earlier a n)

-- addDays(s, n)
unfoldable pub add_days : Date → ℤ → Date
add_days a (pos n) = days_later a n
add_days a (negsuc n) = days_earlier a (suc n)

-- Days from 0000-01-01 to the first day of a year, and of a month.
unfoldable pub year_start : ℕ → ℕ
year_start y = 365 * y + (y + 3) / 4 + (y + 399) / 400 - (y + 99) / 100

unfoldable pub days_before : Bool → ℕ → ℕ
days_before leap zero = 0
days_before leap (suc m) = days_before leap m + days_of leap m

unfoldable pub month_start : ℕ → ℕ
month_start m = year_start (m / 12) + days_before (is_leap (m / 12)) (m % 12)

-- The number of whole days from 0000-01-01, which is ymdToUtc(s) but for a constant.
unfoldable pub ordinal : Date → ℕ
ordinal a = month_start a.month + (a.day - 1)

-- diffCalendarDays(a, b)
unfoldable pub diff_calendar_days : Date → Date → ℤ
diff_calendar_days a b = sub_ℕ (ordinal b) (ordinal a)

-- dayOfWeek(s): 0 is Sunday. 0000-01-01 is a Saturday.
unfoldable pub day_of_week : Date → ℕ
day_of_week a = (ordinal a + 6) % 7

-- addMonths(s, n), for n that is not negative
unfoldable pub add_months : Date → ℕ → Date
add_months a n = record { month = a.month + n; day = min a.day (days_in_month (a.month + n)) }

-- `while (addMonths(a, n + 1) <= b) n += 1;` with fuel
unfoldable pub full_months_loop : ℕ → Date → Date → ℕ → ℕ
full_months_loop zero a b n = n
full_months_loop (suc fuel) a b n =
    let rest = full_months_loop fuel a b (n + 1) in
    if date_leb (add_months a (n + 1)) b then rest else n

-- fullMonthsBetween(a, b): the months between the two dates are rounds enough.
unfoldable pub full_months_between : Date → Date → ℕ
full_months_between a b = if date_leb b a then 0 else full_months_loop (b.month - a.month + 1) a b 0
