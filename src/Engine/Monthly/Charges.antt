-- ===== src/Engine/Monthly/Charges.antt =====
-- What quoteMonthly charges: the whole months, and the days that are left at a thirtieth.
use pms_homestay.Prelude.{
  ℕ, ◌+◌, ◌-◌, ◌≤◌, ◌<◌, ◌≡◌, ◌∙◌, true, none, List, ◌++◌, if◌then◌else◌, ◌==◌, ◌&&◌, arith, ok,
}
use pms_homestay.Prelude.Int.{ℤ, pos, ◌+ℤ◌, ◌*ℤ◌}
use pms_homestay.Money.{round_vnd}
use native.Mathlib.Nat.{add_assoc}
use pms_homestay.Calendar.{
  Date, date_leb, add_months, diff_calendar_days, full_months_between, ordinal,
}
use pms_homestay.Calendar.Ordinal.{IsDate, date_leb-ordinal, days_in_month_bounds, month_start-suc}
use pms_homestay.Calendar.FullMonths.{full_months_between_greatest, add_months-IsDate}
use pms_homestay.Engine.Types.{
  Intl, PricingInput, RatePlanConfig, VietnamHoliday, Quote, room_charge, whole_months, odd_days,
  one_day,
}
use pms_homestay.Engine.Builder.{build_quote}
use pms_homestay.Engine.Builder.Totals.{amounts, amount-line, total-build_quote}
use pms_homestay.Engine.Monthly.{
  month_items, odd_day_items, at_least_one_day, monthly_items, monthly_args, quote_monthly,
}

-- The days that are charged: the odd days, or one where there is neither a month nor a day.
abbrev pub charged_days : ℕ → ℕ → ℕ
charged_days months days = if months == 0 && days == 0 then 1 else days

amounts-monthly :
    (months days : ℕ) (base rate : ℤ)
    → amounts (at_least_one_day rate (month_items months base ++ odd_day_items (pos days) rate))
      ≡ pos months *ℤ base +ℤ pos (charged_days months days) *ℤ rate
unfolding at_least_one_day month_items odd_day_items amounts ◌+ℤ◌ ◌*ℤ◌
amounts-monthly months days base rate = ground (
  arith,
  amount-line room_charge (whole_months months) (pos months) base none,
  amount-line room_charge (odd_days days) (pos days) rate none,
  amount-line room_charge one_day (pos 1) rate none,
)

-- From one count of months to the next there are 31 days at the most.
add_months-step :
    (a : Date) (n : ℕ) → IsDate a → ordinal (add_months a (n + 1)) ≤ ordinal (add_months a n) + 31
unfolding add_months ordinal
add_months-step a n h = rw (← add_assoc) (
    omega (
      arith,
      h.first,
      h.last,
      month_start-suc (a.month + n),
      days_in_month_bounds a.month,
      days_in_month_bounds (a.month + n),
      days_in_month_bounds (a.month + n + 1),
    ))

odd_days_lem :
    (a b : Date)
    → IsDate a
    → IsDate b
    → date_leb a b ≡ true
    → let start = add_months a (full_months_between a b) in
      (days : ℕ) × (diff_calendar_days start b ≡ pos days)
      × (ordinal start + days ≡ ordinal b)
      × (days < 31)
unfolding diff_calendar_days
odd_days_lem a b ha hb le =
    let n = full_months_between a b in
    let (fits, over) = full_months_between_greatest a b ha hb le in
    let past = over (n + 1) (omega arith) in
    let at = date_leb-ordinal (add_months a n) b (add_months-IsDate a n ha) hb in
    let after = date_leb-ordinal (add_months a (n + 1)) b (add_months-IsDate a (n + 1) ha) hb in
    (
      ordinal b - ordinal (add_months a n),
      ground arith,
      ground arith,
      ground (arith, add_months-step a n ha),
    )

-- For a monthly stay whose check-out is after its check-in, with local dates in that order, the
-- total is the base price for each of the months that fullMonthsBetween counts, and the base price
-- by 30, rounded, for each day that is left; those days lead from the end of the last of these
-- months to the check-out date and are fewer than 31; a stay with neither a month nor a day left is
-- charged one day.
pub quote_monthly_total :
    (intl : Intl) (input : PricingInput) (plan : RatePlanConfig) (holidays : List VietnamHoliday)
    → let ci = intl.local_date input.check_in plan.timezone in
      let co = intl.local_date input.check_out plan.timezone in
      let months = full_months_between ci co in
      input.check_in < input.check_out
      → IsDate ci
      → IsDate co
      → date_leb ci co ≡ true
      → (q : Quote) × (days : ℕ) × (quote_monthly intl input plan holidays ≡ ok q)
        × (ordinal (add_months ci months) + days ≡ ordinal co)
        × (days < 31)
        × (q.total_vnd
            ≡ pos months *ℤ plan.base_price_vnd
              +ℤ pos (charged_days months days) *ℤ round_vnd plan.base_price_vnd 30)
unfolding quote_monthly
quote_monthly_total intl input plan holidays lt hci hco le =
    let ci = intl.local_date input.check_in plan.timezone in
    let co = intl.local_date input.check_out plan.timezone in
    let (days, diff, reach, few) = odd_days_lem ci co hci hco le in
    (
      build_quote (monthly_args intl input plan holidays),
      days,
      ground arith,
      reach,
      few,
      total-build_quote (monthly_args intl input plan holidays)
          ∙ (unfold build_quote monthly_args monthly_items in
              rw diff (
                amounts-monthly (full_months_between ci co) days plan.base_price_vnd
                  (round_vnd plan.base_price_vnd 30))),
    )
