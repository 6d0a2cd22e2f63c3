-- ===== src/Calendar/Ordinal.antt =====
-- Dates as numbers of days: the order of the strings is the order of the days, and the walk by
-- days moves the number by one.
use pms_homestay.Prelude.{
  ℕ, zero, suc, ◌+◌, ◌-◌, ◌/◌, ◌%◌, ◌≤◌, ◌<◌, ◌≡◌, refl, ap, Bool, true, false, ltb, leb,
  if◌then◌else◌, arith,
}
use native.Mathlib.Decide.{dec_lt}
use native.Mathlib.Nat.{add-zero, add-suc, le_refl}
use native.Mathlib.Numerals.{add-one}
use pms_homestay.Calendar.{
  Date, is_leap, days_of, days_in_month, date_ltb, date_leb, next_day, days_later, year_start,
  days_before, month_start, ordinal,
}

-- The day lies in its month.
pub record IsDate (a : Date) : Type 0 where
  pub first : 1 ≤ a.day
  pub last : a.day ≤ days_in_month a.month

year_start-suc : (y : ℕ) → year_start (y + 1) ≡ year_start y + (if is_leap y then 366 else 365)
unfolding year_start is_leap
year_start-suc y = ground arith

days_before-twelve : (leap : Bool) → days_before leap 12 ≡ (if leap then 366 else 365)
unfolding days_before days_of
days_before-twelve true = refl
days_before-twelve false = refl

days_before-suc :
    (leap : Bool) (m : ℕ) → days_before leap (m + 1) ≡ days_before leap m + days_of leap m
unfolding days_before
days_before-suc leap m = rw add-one refl

div-mod-same : (m : ℕ) → m % 12 < 11 → ((m + 1) / 12 ≡ m / 12) × ((m + 1) % 12 ≡ m % 12 + 1)
div-mod-same m h = omega arith

div-mod-next : (m : ℕ) → m % 12 ≡ 11 → ((m + 1) / 12 ≡ m / 12 + 1) × ((m + 1) % 12 ≡ 0)
div-mod-next m h = omega arith

days_before-zero : (leap : Bool) → days_before leap 0 ≡ 0
unfolding days_before
days_before-zero leap = refl

pub month_start-suc : (m : ℕ) → month_start (m + 1) ≡ month_start m + days_in_month m
unfolding month_start days_in_month
month_start-suc m = elim (dec_lt (m % 12) 11) [
  | yes h ↦ let (y, k) = div-mod-same m h in rw (y, k, days_before-suc) (omega arith)
  | no h ↦
      let e : m % 12 ≡ 11 = omega arith in
      let (y, k) = div-mod-next m e in
      rw (y, k, e, year_start-suc, days_before-zero)
        (omega
          (arith, days_before-twelve (is_leap (m / 12)), days_before-suc (is_leap (m / 12)) 11))
]

pub days_in_month_bounds : (m : ℕ) → (28 ≤ days_in_month m) × (days_in_month m ≤ 31)
unfolding days_in_month days_of
days_in_month_bounds m = ground arith

-- A date that is walked by a day stays a date, and its number goes up by one.
pub next_day-IsDate : (a : Date) → IsDate a → IsDate (next_day a)
unfolding next_day
next_day-IsDate a h = ground (arith, days_in_month_bounds (a.month + 1))

pub ordinal-next_day : (a : Date) → IsDate a → ordinal (next_day a) ≡ ordinal a + 1
unfolding next_day ordinal
ordinal-next_day a h = ground (arith, month_start-suc a.month)

pub days_later-IsDate : (a : Date) (n : ℕ) → IsDate a → IsDate (days_later a n)
unfolding days_later
days_later-IsDate a zero h = h
days_later-IsDate a (suc n) h = next_day-IsDate (days_later a n) (days_later-IsDate a n h)

pub ordinal-days_later : (a : Date) (n : ℕ) → IsDate a → ordinal (days_later a n) ≡ ordinal a + n
unfolding days_later
ordinal-days_later a zero h = omega arith
ordinal-days_later a (suc n) h =
    omega
      (arith, ordinal-next_day (days_later a n) (days_later-IsDate a n h), ordinal-days_later a n h)

month_start_mono : (m k : ℕ) → month_start m ≤ month_start (m + k)
month_start_mono m zero = rw add-zero (le_refl _)
month_start_mono m (suc k) =
    rw (add-suc, ← add-one) (omega (arith, month_start_mono m k, month_start-suc (m + k)))

-- A date of an earlier month comes before every date of a later one.
pub ordinal_lt_of_month :
    (a b : Date) → IsDate a → IsDate b → a.month < b.month → ordinal a < ordinal b
unfolding ordinal
ordinal_lt_of_month a b ha hb h =
    let k = b.month - (a.month + 1) in
    let e : a.month + 1 + k ≡ b.month = omega arith in
    omega (arith, month_start-suc a.month, rw e at (month_start_mono (a.month + 1) k))

-- The order of the strings is the order of the numbers of days.
pub date_ltb-ordinal :
    (a b : Date) → IsDate a → IsDate b → date_ltb a b ≡ ltb (ordinal a) (ordinal b)
unfolding date_ltb
date_ltb-ordinal a b ha hb = elim (dec_lt a.month b.month) [
  | yes h ↦ ground (arith, ordinal_lt_of_month a b ha hb h)
  | no h ↦ elim (dec_lt b.month a.month) [
    | yes h' ↦ ground (arith, ordinal_lt_of_month b a hb ha h')
    | no h' ↦
        let e : a.month ≡ b.month = omega arith in
        unfold ordinal in ground (arith, ap month_start e)
  ]
]

pub date_leb-ordinal :
    (a b : Date) → IsDate a → IsDate b → date_leb a b ≡ leb (ordinal a) (ordinal b)
unfolding date_leb
date_leb-ordinal a b ha hb = ground (arith, date_ltb-ordinal b a hb ha)

pub ordinal_injective : (a b : Date) → IsDate a → IsDate b → ordinal a ≡ ordinal b → a ≡ b
ordinal_injective a b ha hb e =
    unfold date_ltb in ground (arith, date_ltb-ordinal a b ha hb, date_ltb-ordinal b a hb ha)
