-- ===== src/Engine/Daily.antt =====
-- daily.ts: the price of a stay by nights.
pub mod Charges
use Prim.Native.String.{String}
use pms_homestay.Prelude.{
  ℕ, zero, suc, ◌+◌, max, Bool, true, false, Option, none, some, List, [], ◌∷◌, ◌++◌, map, ltb, leb,
  if◌then◌else◌, keep, Result, ok, err,
}
use pms_homestay.Prelude.Int.{ℤ, pos, pos_part, ltb_ℤ}
use pms_homestay.Calendar.{Date, add_days, diff_calendar_days, day_of_week}
use pms_homestay.Engine.Types.{
  Intl, PricingInput, RatePlanConfig, RatePlanRule, VietnamHoliday, QuoteLineItem, Quote,
  PricingError, checkout_before_checkin, room_charge, surcharge, Description, night_of,
  early_checkin, late_checkout, daily, or_else,
}
use pms_homestay.Engine.Builder.{line, BuildArgs, build_quote}
use pms_homestay.Engine.Rules.{compute_date_price, has_date}

-- The price of the night of a date.
unfoldable pub night_price : RatePlanConfig → List Date → Date → ℤ
night_price plan holiday_set night_date =
    compute_date_price plan.base_price_vnd (or_else plan.rules []) night_date
      (day_of_week night_date) holiday_set

-- The loop over the nights: `left` nights to go, the next one is night `i`.
unfoldable pub night_items : RatePlanConfig → List Date → Date → ℕ → ℕ → List QuoteLineItem
night_items plan holiday_set ci_date zero i = []
night_items plan holiday_set ci_date (suc left) i =
    let night_date = add_days ci_date (pos i) in
    line room_charge (night_of night_date) (pos 1) (night_price plan holiday_set night_date)
      (some night_date)
    ∷ night_items plan holiday_set ci_date left (i + 1)

unfoldable pub night_dates : Date → ℕ → ℕ → List Date
night_dates ci_date zero i = []
night_dates ci_date (suc left) i = add_days ci_date (pos i) ∷ night_dates ci_date left (i + 1)

-- `const nights = Math.max(1, diffCalendarDays(ciDate, coDate))`
unfoldable pub nights_between : Date → Date → ℕ
nights_between ci_date co_date = max 1 (pos_part (diff_calendar_days ci_date co_date))

-- A fee that is charged when the guest is out of the hours of the plan.
unfoldable pub fee_items : Bool → Description → ℤ → List QuoteLineItem
fee_items due description fee =
    if due
    then (if ltb_ℤ (pos 0) fee then line surcharge description (pos 1) fee none ∷ [] else [])
    else []

unfoldable pub is_early : ℕ → Option ℕ → Bool
is_early local_in none = false
is_early local_in (some t) = ltb local_in t

unfoldable pub is_late : ℕ → Option ℕ → Bool
is_late local_out none = false
is_late local_out (some t) = ltb t local_out

-- The price lines of a stay.
unfoldable pub daily_items :
    Intl → PricingInput → RatePlanConfig → List VietnamHoliday → List QuoteLineItem
daily_items intl input plan holidays =
    let tz = plan.timezone in
    let ci_date = intl.local_date input.check_in tz in
    let co_date = intl.local_date input.check_out tz in
    let nights = nights_between ci_date co_date in
    let holiday_set = map (λ h. h.date) holidays in
    let local_in = intl.local_time input.check_in tz in
    let local_out = intl.local_time input.check_out tz in
    night_items plan holiday_set ci_date nights 0
    ++ (fee_items (is_early local_in plan.daily_checkin_time) early_checkin
          (or_else plan.daily_early_checkin_fee_vnd (pos 0))
        ++ fee_items (is_late local_out plan.daily_checkout_time) late_checkout
            (or_else plan.daily_late_checkout_fee_vnd (pos 0)))

unfoldable pub daily_args : Intl → PricingInput → RatePlanConfig → List VietnamHoliday → BuildArgs
daily_args intl input plan holidays =
    let ci_date = intl.local_date input.check_in plan.timezone in
    let nights = nights_between ci_date (intl.local_date input.check_out plan.timezone) in
    record {
      mode = daily;
      line_items = daily_items intl input plan holidays;
      deposit_type = plan.deposit_type;
      deposit_value = plan.deposit_value;
      holidays = keep (λ h. has_date (night_dates ci_date nights 0) h.date) holidays;
      notes = none;
    }

-- quoteDaily(input, plan, holidays)
unfoldable pub quote_daily :
    Intl → PricingInput → RatePlanConfig → List VietnamHoliday → Result PricingError Quote
quote_daily intl input plan holidays =
    if leb input.check_out input.check_in
    then err checkout_before_checkin
    else ok (build_quote (daily_args intl input plan holidays))
